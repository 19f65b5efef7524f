-- ===== src/Session/Sends.antt =====
-- The write queue of core/src/session/Session.cpp as a sender's queue: what `enqueue_write` does
-- with a frame, when there is room and when there is none.
use aa_v.Base.{
  ◌-◌, ◌≤◌, ◌<◌, ◌≡◌, refl, ap, ◌∙◌, List, [], ◌∷◌, ◌++◌, Bytes, concat, concat-append, append-nil,
  length, length-append, leb, leb→lt, leb→le, if_elim, arith,
}
use aa_v.Encoder.{enqueue_frames}
use aa_v.Encoder.Conversation.{IsWriteQueue}
use aa_v.Service.{IService}
use aa_v.Session.{
  Session, Effect, max_write_queue_size, emit, do_write_next, enqueue_write, session_host,
}
use aa_v.Session.Queue.{queued_frames, queued-append}

module _ {C V : Type 0} where
  do_write_next-frames :
      (s : Session C V)
      → (queued_frames (do_write_next s).effects ≡ queued_frames s.effects)
        × ((do_write_next s).write_queue ≡ s.write_queue)
        × ((do_write_next s).crypto ≡ s.crypto)
        × ((do_write_next s).state ≡ s.state)
  unfolding do_write_next
  do_write_next-frames s = go s.write_queue refl
    where
      go :
          (q : List Bytes)
          → s.write_queue ≡ q
          → (queued_frames (do_write_next s).effects ≡ queued_frames s.effects)
            × ((do_write_next s).write_queue ≡ s.write_queue)
            × ((do_write_next s).crypto ≡ s.crypto)
            × ((do_write_next s).state ≡ s.state)
      go [] e = rw (e, do_write_next) (refl, e, refl, refl)
      go (front ∷ rest) e =
          rw (e, do_write_next)
            (
              queued-append s.effects (Effect.async_write front ∷ [])
                  ∙ append-nil (queued_frames s.effects),
              e,
              refl,
              refl,
            )

  -- The session with the frame behind its queue.
  abbrev pushed : Bytes → Session C V → Session C V
  pushed wire s = emit (Effect.queued wire) (record s { write_queue = s.write_queue ++ wire ∷ [] })

  -- What became of the session, by whether there is room.
  enqueue_write-elim :
      (P : Session C V → Type 0) (wire : Bytes) (s : Session C V)
      → (256 ≤ length s.write_queue → P s)
      → (length s.write_queue < 256 → P (pushed wire s))
      → (length s.write_queue < 256 → P (do_write_next (pushed wire s)))
      → P (enqueue_write wire s)
  unfolding enqueue_write
  enqueue_write-elim P wire s full busy idle =
      if_elim P (leb max_write_queue_size (length s.write_queue)) s _
        (λ h. full (omega (arith, leb→le max_write_queue_size (length s.write_queue) h)))
        (λ h.
          let room : length s.write_queue < 256 =
            omega (arith, leb→lt max_write_queue_size (length s.write_queue) h) in
          if_elim P s.write_in_progress (pushed wire s) (do_write_next (pushed wire s))
            (λ on. busy room) (λ off. idle room))

  pub enqueue_write-frames :
      (wire : Bytes) (s : Session C V)
      → length s.write_queue < 256
      → queued_frames (enqueue_write wire s).effects ≡ queued_frames s.effects ++ wire ∷ []
  enqueue_write-frames wire s room =
      enqueue_write-elim (λ t. queued_frames t.effects ≡ queued_frames s.effects ++ wire ∷ []) wire
        s (λ full. absurd (omega (arith, full, room)))
        (λ h. queued-append s.effects (Effect.queued wire ∷ []))
        (λ h.
          (do_write_next-frames (pushed wire s)).0
          ∙ queued-append s.effects (Effect.queued wire ∷ []))

  pub enqueue_write-state :
      (wire : Bytes) (s : Session C V)
      → ((enqueue_write wire s).state ≡ s.state) × ((enqueue_write wire s).crypto ≡ s.crypto)
  enqueue_write-state wire s =
      enqueue_write-elim (λ t. (t.state ≡ s.state) × (t.crypto ≡ s.crypto)) wire s
        (λ full. (refl, refl)) (λ h. (refl, refl))
        (λ h. let (_, _, crypto, state) = do_write_next-frames (pushed wire s) in (state, crypto))

  pub enqueue_write-room :
      (wire : Bytes) (s : Session C V)
      → length s.write_queue ≤ length (enqueue_write wire s).write_queue
  enqueue_write-room wire s =
      enqueue_write-elim (λ t. length s.write_queue ≤ length t.write_queue) wire s
        (λ full. omega arith) (λ h. omega (arith, length-append s.write_queue (wire ∷ [])))
        (λ h.
          let (_, same, _, _) = do_write_next-frames (pushed wire s) in
          omega (arith, length-append s.write_queue (wire ∷ []), ap length same))

  pub enqueue_frames-state :
      (wires : List Bytes) (s : Session C V)
      → (enqueue_frames enqueue_write wires s).state ≡ s.state
  enqueue_frames-state [] s = refl
  enqueue_frames-state (wire ∷ wires) s =
      enqueue_frames-state wires (enqueue_write wire s) ∙ (enqueue_write-state wire s).0

  -- What the queue has taken, whether or not it is written yet, and the room behind it.
  unfoldable pub session-IsWriteQueue :
      (service : IService V) → IsWriteQueue (session_host service) (enqueue_write {C = C} {V = V})
  session-IsWriteQueue service = record {
    queued = λ s. concat (queued_frames s.effects);
    room = λ s. 256 - length s.write_queue;
    enqueue-queued = λ wire s room.
        ap concat (enqueue_write-frames wire s (omega arith))
        ∙ concat-append (queued_frames s.effects) (wire ∷ [])
        ∙ ap (λ b. concat (queued_frames s.effects) ++ b) (append-nil wire);
    enqueue-room = λ wire s. omega (arith, enqueue_write-room wire s);
    enqueue-crypto = λ wire s. (enqueue_write-state wire s).1;
    set-queued = λ c s. refl;
    crypto-set = λ c s. refl;
  }
