-- ===== src/Transport/Stream.antt =====
-- core/src/transport/BufferedTransport.cpp as a stream of bytes.
use aa_v.Base.{
  ℕ, ◌<◌, ◌≡◌, refl, sym, ap, ◌∙◌, min, Bool, true, false, not, ◌&&◌, Option, none, some, List, [],
  ◌∷◌, ◌++◌, Bytes, concat, concat-append, append-nil, append_assoc, length, take, drop,
  take-append-drop, take-all, leb, ltb, if_elim, leb→le, ltb→le, arith,
}
use aa_v.Transport.{
  ErrorCode, Reader, Completion, Effect, BufferedTransport, create, emit, max_queued_reads,
  invoke_handler, invoke_error, issue_underlying_read, start, park, read_from, route_error,
  route_chunk, async_read, async_write, on_underlying_error, without_front, buffer_chunk,
  on_underlying_read, Event, step,
}
use aa_v.Transport.Bounds.{IsBuffered, IsParked, IsEnabled, create-IsBuffered, step-IsBuffered}

-- What the client's handlers were given.
abbrev pub delivered : List Effect → Bytes
delivered [] = []
delivered (Effect.post handler (Completion.copied bytes) ∷ es) = bytes ++ delivered es
delivered (_ ∷ es) = delivered es

-- The bytes of the stream up to now: those delivered, then those buffered.
unfoldable pub stream : BufferedTransport → Bytes
stream t = delivered t.effects ++ concat t.rx_queue

-- The bytes that an event brings in.
abbrev pub received : Event → Bytes
received (Event.read_done buf) = buf
received _ = []

-- A chunk finds the transport open and the queue with room, and the client does not close it.
abbrev pub is_lossless : Event → BufferedTransport → Bool
is_lossless (Event.read_done buf) t = not t.closed && ltb (length t.rx_queue) max_queued_reads
is_lossless Event.close_called t = false
is_lossless _ t = true

delivered-append : (xs ys : List Effect) → delivered (xs ++ ys) ≡ delivered xs ++ delivered ys
delivered-append [] ys = refl
delivered-append (Effect.post h (Completion.copied b) ∷ xs) ys =
    ap (◌++◌ b) (delivered-append xs ys) ∙ sym (append_assoc b (delivered xs) (delivered ys))
delivered-append (Effect.post h (Completion.failed ec) ∷ xs) ys = delivered-append xs ys
delivered-append (Effect.underlying_read ∷ xs) ys = delivered-append xs ys
delivered-append (Effect.underlying_write b ∷ xs) ys = delivered-append xs ys
delivered-append (Effect.underlying_close ∷ xs) ys = delivered-append xs ys

-- An effect that delivers nothing.
emit_quiet :
    (e : Effect) (t : BufferedTransport) → delivered (e ∷ []) ≡ [] → stream (emit e t) ≡ stream t
unfolding stream
emit_quiet e t q = rw (delivered-append t.effects (e ∷ []), q, append-nil)

module _ {ℓ} {A : Type ℓ} where
  regroup : (xs a b ys : List A) → (xs ++ a) ++ (b ++ ys) ≡ xs ++ ((a ++ b) ++ ys)
  regroup xs a b ys = append_assoc xs a (b ++ ys) ∙ ap (◌++◌ xs) (sym (append_assoc a b ys))

-- A chunk that is handed over comes before the queue.
stream-invoke_handler :
    (reader : Reader) (chunk : Bytes) (t : BufferedTransport)
    → stream (invoke_handler reader chunk t) ≡ delivered t.effects ++ (chunk ++ concat t.rx_queue)
unfolding stream invoke_handler
stream-invoke_handler reader chunk t =
    if_elim (λ u. stream (emit told u) ≡ delivered t.effects ++ (chunk ++ concat t.rx_queue))
      (ltb to_copy (length chunk)) (record t { rx_queue = drop to_copy chunk ∷ t.rx_queue }) t
      (λ short. given (drop to_copy chunk) (take-append-drop to_copy chunk))
      (λ fits. given [] (append-nil _ ∙ take-all to_copy chunk (ltb→le _ _ fits)))
  where
    to_copy : ℕ
    to_copy = min reader.buffer_size (length chunk)

    told : Effect
    told = Effect.post reader.handler (Completion.copied (take to_copy chunk))

    given :
        (rest : Bytes)
        → take to_copy chunk ++ rest ≡ chunk
        → delivered (t.effects ++ told ∷ []) ++ (rest ++ concat t.rx_queue)
          ≡ delivered t.effects ++ (chunk ++ concat t.rx_queue)
    given rest e =
        ap (λ d. d ++ (rest ++ concat t.rx_queue))
          (delivered-append t.effects (told ∷ [])
            ∙ ap (◌++◌ (delivered t.effects)) (append-nil (take to_copy chunk)))
        ∙ regroup (delivered t.effects) (take to_copy chunk) rest (concat t.rx_queue)
        ∙ ap (λ c. delivered t.effects ++ (c ++ concat t.rx_queue)) e

park-stream :
    (reader : Reader) (error : Option ErrorCode) (t : BufferedTransport)
    → stream (park reader error t) ≡ stream t
unfolding park invoke_error stream
park-stream reader (some ec) t =
    emit_quiet (Effect.post reader.handler (Completion.failed ec))
      (record t { deferred_error = none }) refl
park-stream reader none t = refl

read_from-stream :
    (reader : Reader) (queue : List Bytes) (t : BufferedTransport)
    → t.rx_queue ≡ queue
    → stream (read_from reader queue t) ≡ stream t
unfolding read_from stream
read_from-stream reader (chunk ∷ chunks) t e =
    stream-invoke_handler reader chunk (record t { rx_queue = chunks })
    ∙ ap (λ q. delivered t.effects ++ concat q) (sym e)
read_from-stream reader [] t e = park-stream reader t.deferred_error t

read-stream : (reader : Reader) (t : BufferedTransport) → stream (async_read reader t) ≡ stream t
unfolding async_read invoke_error
read-stream reader t =
    if_elim (λ u. stream u ≡ stream t) t.closed _ (read_from reader t.rx_queue t)
      (λ shut.
        emit_quiet (Effect.post reader.handler (Completion.failed ErrorCode.operation_aborted)) t
          refl)
      (λ on. read_from-stream reader t.rx_queue t refl)

error-stream :
    (ec : ErrorCode) (t : BufferedTransport) → stream (on_underlying_error ec t) ≡ stream t
unfolding on_underlying_error route_error invoke_error stream
error-stream ec t =
    if_elim (λ u. stream u ≡ stream t) t.closed t _ (λ shut. refl) (λ on. routed t.pending_handler)
  where
    routed : (h : Option Reader) → stream (route_error h ec t) ≡ stream t
    routed (some reader) =
        emit_quiet (Effect.post reader.handler (Completion.failed ec))
          (record t { pending_handler = none }) refl
    routed none = refl

issued-stream : (t : BufferedTransport) → stream (issue_underlying_read t) ≡ stream t
unfolding issue_underlying_read
issued-stream t =
    if_elim (λ u. stream u ≡ stream t) t.closed t _ (λ shut. refl)
      (λ on. emit_quiet Effect.underlying_read t refl)

start-stream : (t : BufferedTransport) → stream (start t) ≡ stream t
unfolding start stream
start-stream t =
    if_elim (λ u. stream u ≡ stream t) t.loop_started t _ (λ again. refl)
      (λ first.
        if_elim (λ u. stream u ≡ stream t) t.closed t _ (λ shut. refl)
          (λ on. issued-stream (record t { loop_started = true })))

-- A chunk comes last, whether a handler waits for it or not.
route-stream :
    (h : Option Reader) (buf : Bytes) (t : BufferedTransport)
    → IsParked h t.rx_queue t.deferred_error
    → length t.rx_queue < max_queued_reads
    → stream (route_chunk h buf t) ≡ stream t ++ buf
unfolding route_chunk buffer_chunk stream
route-stream (some reader) buf t (empty, fine) room =
    stream-invoke_handler reader buf (record t { pending_handler = none })
    ∙ ap (λ q. delivered t.effects ++ (buf ++ concat q)) empty
    ∙ ap (◌++◌ (delivered t.effects)) (append-nil buf)
    ∙ sym (
        ap (λ q. (delivered t.effects ++ concat q) ++ buf) empty
        ∙ ap (λ d. d ++ buf) (append-nil (delivered t.effects)))
route-stream none buf t parked room =
    if_elim
      (λ q.
        delivered t.effects ++ concat (q ++ buf ∷ [])
        ≡ (delivered t.effects ++ concat t.rx_queue) ++ buf)
      (leb max_queued_reads (length t.rx_queue)) (without_front t.rx_queue) t.rx_queue
      (λ full. absurd (omega (arith, room, leb→le _ _ full)))
      (λ free.
        ap (◌++◌ (delivered t.effects))
          (concat-append t.rx_queue (buf ∷ []) ∙ ap (◌++◌ (concat t.rx_queue)) (append-nil buf))
        ∙ sym (append_assoc (delivered t.effects) (concat t.rx_queue) buf))

chunk-stream :
    (buf : Bytes) (t : BufferedTransport)
    → IsBuffered t
    → t.closed ≡ false
    → length t.rx_queue < max_queued_reads
    → stream (on_underlying_read buf t) ≡ stream t ++ buf
unfolding on_underlying_read IsBuffered
chunk-stream buf t (bound, parked, shut) on room =
    if_elim (λ u. stream u ≡ stream t ++ buf) t.closed t _ (λ over. absurd (cc))
      (λ open_still.
        issued-stream (route_chunk t.pending_handler buf t)
        ∙ route-stream t.pending_handler buf t parked room)

-- On a transport between two calls, an event that loses nothing (no close, no chunk for a full
-- queue or a closed transport) appends the bytes it brings in to the stream of the client, and only
-- these: bytes reach the client's handlers in the order in which they came, once each.
pub step-stream :
    (e : Event) (t : BufferedTransport)
    → IsBuffered t
    → is_lossless e t ≡ true
    → stream (step e t) ≡ stream t ++ received e
unfolding step async_write
step-stream Event.start_called t b ok = start-stream t ∙ sym (append-nil (stream t))
step-stream Event.close_called t b ok = absurd (cc)
step-stream (Event.read_called reader) t b ok = read-stream reader t ∙ sym (append-nil (stream t))
step-stream (Event.write_called buffer) t b ok =
    emit_quiet (Effect.underlying_write buffer) t refl ∙ sym (append-nil (stream t))
step-stream (Event.read_done buf) t b ok = chunk-stream buf t b (ground arith) (ground arith)
step-stream (Event.read_failed ec) t b ok = error-stream ec t ∙ sym (append-nil (stream t))

-- The runs from a new transport in which nothing is lost, by their events.
pub data Run : List Event → BufferedTransport → Type 0 where
  fresh : Run [] create
  next :
      {es : List Event} {t : BufferedTransport}
      → Run es t
      → (e : Event) → IsEnabled e t
      → is_lossless e t ≡ true
      → Run (es ++ e ∷ []) (step e t)

abbrev pub all_received : List Event → Bytes
all_received [] = []
all_received (e ∷ es) = received e ++ all_received es

all_received-append :
    (es ds : List Event) → all_received (es ++ ds) ≡ all_received es ++ all_received ds
all_received-append [] ds = refl
all_received-append (e ∷ es) ds =
    ap (◌++◌ (received e)) (all_received-append es ds)
    ∙ sym (append_assoc (received e) (all_received es) (all_received ds))

-- In a run from a new transport in which no chunk meets a full queue or a closed transport, nothing
-- is closed, and the client has one read outstanding at a time, the bytes that the client was given
-- and those still buffered are, in this order, all bytes that came from the transport below; and at
-- most 32 chunks are buffered.
pub Run-stream :
    {es : List Event} {t : BufferedTransport}
    → Run es t
    → (stream t ≡ all_received es) × IsBuffered t
unfolding stream
Run-stream Run.fresh = (refl, create-IsBuffered)
Run-stream (Run.next {es} {t} r e enabled ok) =
    let (before, b) = Run-stream r in
    (
      step-stream e t b ok
          ∙ ap (λ bytes. bytes ++ received e) before
          ∙ sym (
              all_received-append es (e ∷ [])
              ∙ ap (◌++◌ (all_received es)) (append-nil (received e))),
      step-IsBuffered e t enabled b,
    )
