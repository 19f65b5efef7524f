-- ===== src/Transport/Answers.antt =====
-- The answers of core/src/transport/BufferedTransport.cpp to the reads of its client.
use aa_v.Base.{
  ℕ, suc, ◌+◌, ◌≡◌, refl, ◌∙◌, true, Option, none, some, List, [], ◌∷◌, ◌++◌, Bytes, length, take,
  min, if_elim, arith,
}
use aa_v.Transport.{
  ErrorCode, Reader, Completion, Effect, BufferedTransport, create, emit, invoke_handler,
  invoke_error, issue_underlying_read, start, park, read_from, async_read, async_write, close,
  abort_pending, route_error, on_underlying_error, buffer_chunk, route_chunk, on_underlying_read,
  Event, step,
}
use aa_v.Transport.Bounds.{IsEnabled}

-- The handlers that were called.
abbrev pub answers : List Effect → ℕ
answers [] = 0
answers (Effect.post handler completion ∷ es) = suc (answers es)
answers (_ ∷ es) = answers es

answers-append : (xs ys : List Effect) → answers (xs ++ ys) ≡ answers xs + answers ys
answers-append [] ys = omega arith
answers-append (Effect.post h c ∷ xs) ys = omega (arith, answers-append xs ys)
answers-append (Effect.underlying_read ∷ xs) ys = answers-append xs ys
answers-append (Effect.underlying_write b ∷ xs) ys = answers-append xs ys
answers-append (Effect.underlying_close ∷ xs) ys = answers-append xs ys

abbrev pub waiting : Option Reader → ℕ
waiting none = 0
waiting (some reader) = 1

-- The handlers called and the one parked.
abbrev pub served : BufferedTransport → ℕ
served t = answers t.effects + waiting t.pending_handler

abbrev pub asked : Event → ℕ
asked (Event.read_called reader) = 1
asked _ = 0

emit-served : (e : Effect) (t : BufferedTransport) → served (emit e t) ≡ answers (e ∷ []) + served t
emit-served e t = omega (arith, answers-append t.effects (e ∷ []))

post-served :
    (h : ℕ) (c : Completion) (t : BufferedTransport)
    → served (emit (Effect.post h c) t) ≡ suc (served t)
post-served h c t = omega (arith, emit-served (Effect.post h c) t)

invoke-served :
    (reader : Reader) (chunk : Bytes) (t : BufferedTransport)
    → served (invoke_handler reader chunk t) ≡ suc (served t)
unfolding invoke_handler
invoke-served reader chunk t = ground (
  arith,
  answers-append t.effects (
      Effect.post reader.handler
        (Completion.copied (take (min reader.buffer_size (length chunk)) chunk))
      ∷ []),
)

read-served :
    (reader : Reader) (t : BufferedTransport)
    → t.pending_handler ≡ none
    → served (async_read reader t) ≡ suc (served t)
unfolding async_read invoke_error read_from park
read-served reader t free =
    if_elim (λ u. served u ≡ suc (served t)) t.closed _ (read_from reader t.rx_queue t)
      (λ shut. post-served reader.handler (Completion.failed ErrorCode.operation_aborted) t)
      (λ on. from t.rx_queue)
  where
    parked : (error : Option ErrorCode) → served (park reader error t) ≡ suc (served t)
    parked (some ec) =
        post-served reader.handler (Completion.failed ec) (record t { deferred_error = none })
    parked none = ground (arith, free)

    from : (queue : List Bytes) → served (read_from reader queue t) ≡ suc (served t)
    from (chunk ∷ chunks) = invoke-served reader chunk (record t { rx_queue = chunks })
    from [] = parked t.deferred_error

issue-served : (t : BufferedTransport) → served (issue_underlying_read t) ≡ served t
unfolding issue_underlying_read
issue-served t =
    if_elim (λ u. served u ≡ served t) t.closed t _ (λ shut. refl)
      (λ on. omega (arith, emit-served Effect.underlying_read t))

start-served : (t : BufferedTransport) → served (start t) ≡ served t
unfolding start
start-served t =
    if_elim (λ u. served u ≡ served t) t.loop_started t _ (λ again. refl)
      (λ first.
        if_elim (λ u. served u ≡ served t) t.closed t _ (λ shut. refl)
          (λ on. issue-served (record t { loop_started = true })))

close-served : (t : BufferedTransport) → served (close t) ≡ served t
unfolding close abort_pending invoke_error
close-served t =
    if_elim (λ u. served u ≡ served t) t.closed t _ (λ shut. refl)
      (λ on. aborted t.pending_handler refl)
  where
    shut : BufferedTransport
    shut =
        emit Effect.underlying_close
          (record t { closed = true; pending_handler = none; rx_queue = [] })

    shut-served : served shut ≡ answers t.effects
    shut-served = omega (
      arith,
      emit-served Effect.underlying_close
          (record t { closed = true; pending_handler = none; rx_queue = [] }),
    )

    aborted : (h : Option Reader) → t.pending_handler ≡ h → served (abort_pending h shut) ≡ served t
    aborted none e = ground (arith, e, shut-served)
    aborted (some reader) e = ground (
      arith,
      e,
      shut-served,
      post-served reader.handler (Completion.failed ErrorCode.operation_aborted) shut,
    )

error-served :
    (ec : ErrorCode) (t : BufferedTransport) → served (on_underlying_error ec t) ≡ served t
unfolding on_underlying_error route_error invoke_error
error-served ec t =
    if_elim (λ u. served u ≡ served t) t.closed t _ (λ shut. refl)
      (λ on. routed t.pending_handler refl)
  where
    routed : (h : Option Reader) → t.pending_handler ≡ h → served (route_error h ec t) ≡ served t
    routed none e = refl
    routed (some reader) e = ground (
      arith,
      e,
      post-served reader.handler (Completion.failed ec) (record t { pending_handler = none }),
    )

chunk-served : (buf : Bytes) (t : BufferedTransport) → served (on_underlying_read buf t) ≡ served t
unfolding on_underlying_read route_chunk buffer_chunk
chunk-served buf t =
    if_elim (λ u. served u ≡ served t) t.closed t _ (λ shut. refl)
      (λ on. issue-served (route_chunk t.pending_handler buf t) ∙ routed t.pending_handler refl)
  where
    routed : (h : Option Reader) → t.pending_handler ≡ h → served (route_chunk h buf t) ≡ served t
    routed none e = refl
    routed (some reader) e =
        ground (arith, e, invoke-served reader buf (record t { pending_handler = none }))

step-served :
    (e : Event) (t : BufferedTransport) → IsEnabled e t → served (step e t) ≡ asked e + served t
unfolding step async_write
step-served Event.start_called t _ = omega (arith, start-served t)
step-served Event.close_called t _ = omega (arith, close-served t)
step-served (Event.read_called reader) t free = omega (arith, read-served reader t free)
step-served (Event.write_called buffer) t _ = emit-served (Effect.underlying_write buffer) t
step-served (Event.read_done buf) t _ = omega (arith, chunk-served buf t)
step-served (Event.read_failed ec) t _ = omega (arith, error-served ec t)

-- The runs from a new transport, by their events, the last first.
pub data Run : List Event → BufferedTransport → Type 0 where
  fresh : Run [] create
  next :
      {es : List Event} {t : BufferedTransport}
      → Run es t
      → (e : Event) → IsEnabled e t
      → Run (e ∷ es) (step e t)

abbrev pub all_asked : List Event → ℕ
all_asked [] = 0
all_asked (e ∷ es) = asked e + all_asked es

-- In every run in which the client has one read outstanding at a time, with errors, full queues and
-- closes, the handlers called and the one that may be parked are as many as the reads of the
-- client: each read is answered once, or waits.
pub Run-served : {es : List Event} {t : BufferedTransport} → Run es t → served t ≡ all_asked es
Run-served Run.fresh = omega arith
Run-served (Run.next {es} {t} r e enabled) = omega (arith, step-served e t enabled, Run-served r)
