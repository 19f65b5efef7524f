-- ===== src/Session/Queue.antt =====
-- The frames of core/src/session/Session.cpp between the encoder and the transport: what
-- enqueue_write and do_write_next keep of the queue.
use aa_v.Base.{
  ℕ, ◌≤◌, ◌<◌, ◌≡◌, refl, sym, ap, ◌∙◌, Bool, true, false, not, List, [], ◌∷◌, ◌++◌, Bytes, length,
  leb, leb→lt, if_elim, append-nil, append_assoc, length-append, arith,
}
use aa_v.Session.{Session, Effect, max_write_queue_size, emit, do_write_next, enqueue_write}
use aa_v.Session.Handlers.{popped}

abbrev pub queued_frames : List Effect → List Bytes
queued_frames [] = []
queued_frames (Effect.queued w ∷ es) = w ∷ queued_frames es
queued_frames (_ ∷ es) = queued_frames es

abbrev pub written_frames : List Effect → List Bytes
written_frames [] = []
written_frames (Effect.async_write w ∷ es) = w ∷ written_frames es
written_frames (_ ∷ es) = written_frames es

abbrev pub is_nil {ℓ} : {A : Type ℓ} → List A → Bool
is_nil [] = true
is_nil (x ∷ xs) = false

-- At most 256 frames wait; a write is under way exactly while a frame waits, its frame at the
-- front; and the transport was given the frames that the queue took, in their order, up to the
-- front.
unfoldable pub IsQueue : {C V : Type 0} → Session C V → Type 0
IsQueue s =
    (length s.write_queue ≤ 256)
    × (s.write_in_progress ≡ not (is_nil s.write_queue))
    × (queued_frames s.effects ≡ written_frames s.effects ++ popped s.write_queue)

pub queued-append :
    (xs ys : List Effect) → queued_frames (xs ++ ys) ≡ queued_frames xs ++ queued_frames ys
queued-append [] ys = refl
queued-append (Effect.queued w ∷ xs) ys = ap (◌∷◌ w) (queued-append xs ys)
queued-append (Effect.async_read ∷ xs) ys = queued-append xs ys
queued-append (Effect.async_write w ∷ xs) ys = queued-append xs ys
queued-append (Effect.transport_close ∷ xs) ys = queued-append xs ys
queued-append (Effect.state_changed i st ∷ xs) ys = queued-append xs ys
queued-append (Effect.session_error i e ∷ xs) ys = queued-append xs ys
queued-append (Effect.post_stop ∷ xs) ys = queued-append xs ys

written-append :
    (xs ys : List Effect) → written_frames (xs ++ ys) ≡ written_frames xs ++ written_frames ys
written-append [] ys = refl
written-append (Effect.async_write w ∷ xs) ys = ap (◌∷◌ w) (written-append xs ys)
written-append (Effect.async_read ∷ xs) ys = written-append xs ys
written-append (Effect.queued w ∷ xs) ys = written-append xs ys
written-append (Effect.transport_close ∷ xs) ys = written-append xs ys
written-append (Effect.state_changed i st ∷ xs) ys = written-append xs ys
written-append (Effect.session_error i e ∷ xs) ys = written-append xs ys
written-append (Effect.post_stop ∷ xs) ys = written-append xs ys

popped-append {ℓ} :
    {A : Type ℓ} (xs ys : List A) → is_nil xs ≡ false → popped (xs ++ ys) ≡ popped xs ++ ys
popped-append [] ys h = absurd (cc)
popped-append (x ∷ xs) ys h = refl

length-popped {ℓ} : {A : Type ℓ} (xs : List A) (n : ℕ) → length xs ≤ n → length (popped xs) ≤ n
length-popped [] n h = h
length-popped (x ∷ xs) n h = omega arith

-- Nothing waits behind an idle queue.
is_nil-popped {ℓ} : {A : Type ℓ} (xs : List A) → is_nil xs ≡ true → popped xs ≡ xs
is_nil-popped [] h = refl
is_nil-popped (x ∷ xs) h = absurd (cc)

is_nil-append {ℓ} : {A : Type ℓ} (xs ys : List A) → is_nil xs ≡ false → is_nil (xs ++ ys) ≡ false
is_nil-append [] ys h = absurd (cc)
is_nil-append (x ∷ xs) ys h = refl

not-true : (b : Bool) → true ≡ not b → b ≡ false
not-true true h = cc
not-true false h = refl

not-false : (b : Bool) → false ≡ not b → b ≡ true
not-false true h = refl
not-false false h = cc

module _ {C V : Type 0} where
  nonempty :
      (s : Session C V)
      → s.write_in_progress ≡ true
      → s.write_in_progress ≡ not (is_nil s.write_queue)
      → is_nil s.write_queue ≡ false
  nonempty s on busy = not-true (is_nil s.write_queue) (sym on ∙ busy)

  idle :
      (s : Session C V)
      → s.write_in_progress ≡ false
      → s.write_in_progress ≡ not (is_nil s.write_queue)
      → is_nil s.write_queue ≡ true
  idle s off busy = not-false (is_nil s.write_queue) (sym off ∙ busy)

  -- An effect that is neither a write nor an addition to the queue.
  pub quiet-IsQueue :
      (e : Effect) (s : Session C V)
      → queued_frames (e ∷ []) ≡ []
      → written_frames (e ∷ []) ≡ []
      → IsQueue s
      → IsQueue (emit e s)
  unfolding IsQueue
  quiet-IsQueue e s hq hw (bound, busy, order) = (
    bound,
    busy,
    rw
        (
          queued-append s.effects (e ∷ []),
          written-append s.effects (e ∷ []),
          hq,
          hw,
          append-nil,
          append-nil,
          order,
        )
        refl,
  )

  -- A queue whose front the transport gets now.
  hand_over :
      (q : List Bytes) (s : Session C V)
      → length q ≤ 256
      → queued_frames s.effects ≡ written_frames s.effects ++ q
      → IsQueue (do_write_next (record s { write_queue = q }))
  unfolding IsQueue do_write_next
  hand_over [] s bound order = (bound, refl, order)
  hand_over (front ∷ rest) s bound order = (
    bound,
    refl,
    rw
        (
          queued-append s.effects (Effect.async_write front ∷ []),
          written-append s.effects (Effect.async_write front ∷ []),
          append-nil,
          order,
        )
        (sym (append_assoc (written_frames s.effects) (front ∷ []) rest)),
  )

  pub written-IsQueue :
      (s : Session C V)
      → IsQueue s
      → IsQueue (do_write_next (record s { write_queue = popped s.write_queue }))
  unfolding IsQueue
  written-IsQueue s (bound, busy, order) =
      hand_over (popped s.write_queue) s (length-popped s.write_queue 256 bound) order

  -- The frame behind the queue.
  unfoldable pushed : Bytes → Session C V → Session C V
  pushed w s = emit (Effect.queued w) (record s { write_queue = s.write_queue ++ w ∷ [] })

  push-order :
      (w : Bytes) (s : Session C V)
      → queued_frames s.effects ≡ written_frames s.effects ++ popped s.write_queue
      → queued_frames (s.effects ++ Effect.queued w ∷ [])
        ≡ written_frames (s.effects ++ Effect.queued w ∷ []) ++ (popped s.write_queue ++ w ∷ [])
  push-order w s order =
      rw
        (
          queued-append s.effects (Effect.queued w ∷ []),
          written-append s.effects (Effect.queued w ∷ []),
          append-nil (written_frames s.effects),
          order,
        )
        (append_assoc (written_frames s.effects) (popped s.write_queue) (w ∷ []))

  push-busy :
      (w : Bytes) (s : Session C V)
      → length s.write_queue < 256
      → s.write_in_progress ≡ true
      → IsQueue s
      → IsQueue (pushed w s)
  unfolding IsQueue pushed
  push-busy w s room on (bound, busy, order) = (
    omega (arith, length-append s.write_queue (w ∷ [])),
    on ∙ sym (ap not (is_nil-append s.write_queue (w ∷ []) (nonempty s on busy))),
    push-order w s order
        ∙ ap (λ q. written_frames (s.effects ++ Effect.queued w ∷ []) ++ q)
            (sym (popped-append s.write_queue (w ∷ []) (nonempty s on busy))),
  )

  push-idle :
      (w : Bytes) (s : Session C V)
      → length s.write_queue < 256
      → s.write_in_progress ≡ false
      → IsQueue s
      → IsQueue (do_write_next (pushed w s))
  unfolding IsQueue pushed
  push-idle w s room off (bound, busy, order) =
      hand_over (s.write_queue ++ w ∷ []) (emit (Effect.queued w) s)
        (omega (arith, length-append s.write_queue (w ∷ [])))
        (push-order w s order
          ∙ ap (λ q. written_frames (s.effects ++ Effect.queued w ∷ []) ++ (q ++ w ∷ []))
              (is_nil-popped s.write_queue (idle s off busy)))

  pub enqueue-IsQueue : (w : Bytes) (s : Session C V) → IsQueue s → IsQueue (enqueue_write w s)
  unfolding enqueue_write pushed
  enqueue-IsQueue w s q =
      if_elim IsQueue (leb max_write_queue_size (length s.write_queue)) s _ (λ full. q)
        (λ free.
          if_elim IsQueue s.write_in_progress (pushed w s) (do_write_next (pushed w s))
            (λ on. push-busy w s (leb→lt 256 (length s.write_queue) free) on q)
            (λ off. push-idle w s (leb→lt 256 (length s.write_queue) free) off q))
