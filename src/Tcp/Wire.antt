-- ===== src/Tcp/Wire.antt =====
-- What impl/android/transport/AndroidTcpTransport.cpp puts on the socket while it is open.
use aa_v.Base.{
  ℕ, ◌+◌, ◌≡◌, refl, sym, ap, ◌∙◌, true, Option, none, some, List, [], ◌∷◌, ◌++◌, Bytes, length,
  take, drop, append-nil, append_assoc, take-append-drop, arith,
}
use aa_v.Tcp.{
  Effect, Completion, WriteThread, TcpTransport, SendResult, Event, create, async_read, async_write,
  close, finish_close, on_sent, step, steps,
}
use aa_v.Tcp.Steps.{open_writes, present, in_send, IsEnabled}
use aa_v.Tcp.Runs.{AreEnabled, IsTidy, step-IsTidy}

-- The bytes put on the socket.
abbrev pub on_wire : List Effect → Bytes
on_wire [] = []
on_wire (Effect.wired bytes ∷ effects) = bytes ++ on_wire effects
on_wire (_ ∷ effects) = on_wire effects

-- What the writes were answered.
abbrev pub write_answers : List Effect → List Completion
write_answers [] = []
write_answers (Effect.write_posted handler c ∷ effects) = c ∷ write_answers effects
write_answers (_ ∷ effects) = write_answers effects

-- What the transport still has to send: the rest of the data in `send`, then the pending data.
abbrev pub unsent : WriteThread → Bytes
unsent (WriteThread.sending bytes remaining handler) = remaining
unsent _ = []

abbrev pub pending_data : Option (Bytes × ℕ) → Bytes
pending_data none = []
pending_data (some (bytes, handler)) = bytes

abbrev pub to_send : TcpTransport → Bytes
to_send t = unsent t.write_thread ++ pending_data t.pending_write

-- The answers that are due when these writes succeed.
abbrev pub due_in_send : WriteThread → List Completion
due_in_send (WriteThread.sending bytes remaining handler) =
    Completion.transferred (length bytes) ∷ []
due_in_send _ = []

abbrev pub due_pending : Option (Bytes × ℕ) → List Completion
due_pending none = []
due_pending (some (bytes, handler)) = Completion.transferred (length bytes) ∷ []

abbrev pub due : TcpTransport → List Completion
due t = due_in_send t.write_thread ++ due_pending t.pending_write

-- The bytes of the writes that were called, and the answers of writes that succeed.
abbrev pub written : Event → Bytes
written (Event.write_called bytes handler) = bytes
written _ = []

abbrev pub successes : Event → List Completion
successes (Event.write_called bytes handler) = Completion.transferred (length bytes) ∷ []
successes _ = []

abbrev pub all_of {ℓ} : {A : Type ℓ} → (Event → List A) → List Event → List A
all_of f [] = []
all_of f (e ∷ es) = f e ++ all_of f es

on_wire-append : (xs ys : List Effect) → on_wire (xs ++ ys) ≡ on_wire xs ++ on_wire ys
on_wire-append [] ys = refl
on_wire-append (Effect.wired bytes ∷ xs) ys =
    ap (λ b. bytes ++ b) (on_wire-append xs ys) ∙ sym (append_assoc bytes (on_wire xs) (on_wire ys))
on_wire-append (Effect.read_posted h c ∷ xs) ys = on_wire-append xs ys
on_wire-append (Effect.write_posted h c ∷ xs) ys = on_wire-append xs ys
on_wire-append (Effect.socket_closed ∷ xs) ys = on_wire-append xs ys

write_answers-append :
    (xs ys : List Effect) → write_answers (xs ++ ys) ≡ write_answers xs ++ write_answers ys
write_answers-append [] ys = refl
write_answers-append (x ∷ xs) ys = ground (arith, write_answers-append xs ys)

-- A step that leaves the transport open.
abbrev Sends : Event → TcpTransport → TcpTransport × List Effect → Type 0
Sends e t (u, effects) =
    u.is_open ≡ true
    → (t.is_open ≡ true)
      × (on_wire effects ++ to_send u ≡ to_send t ++ written e)
      × (write_answers effects ++ due u ≡ due t ++ successes e)

quiet :
    (e : Event) (t : TcpTransport)
    → written e ≡ []
    → successes e ≡ []
    → (to_send t ≡ to_send t ++ written e) × (due t ≡ due t ++ successes e)
quiet e t p q = (
  sym (append-nil (to_send t)) ∙ ap (λ b. to_send t ++ b) (sym p),
  sym (append-nil (due t)) ∙ ap (λ b. due t ++ b) (sym q),
)

idle :
    (w : WriteThread) (p : Option (Bytes × ℕ))
    → present p + in_send w ≡ 0
    → (unsent w ≡ []) × (pending_data p ≡ []) × (due_in_send w ≡ []) × (due_pending p ≡ [])
idle w p h = ground (arith, h)

write-Sends :
    (bytes : Bytes) (handler : ℕ) (t : TcpTransport)
    → open_writes t ≡ 0
    → Sends (Event.write_called bytes handler) t (async_write bytes handler t)
unfolding async_write
write-Sends bytes handler t h o = ground (arith, h, o, idle t.write_thread t.pending_write)

taken :
    (n : ℕ) (remaining pending : Bytes)
    → (take n remaining ++ []) ++ (drop n remaining ++ pending) ≡ (remaining ++ pending) ++ []
taken n remaining pending =
    ap (λ b. b ++ (drop n remaining ++ pending)) (append-nil (take n remaining))
    ∙ sym (append_assoc (take n remaining) (drop n remaining) pending)
    ∙ ap (λ b. b ++ pending) (take-append-drop n remaining)
    ∙ sym (append-nil (remaining ++ pending))

sent-Sends :
    (result : SendResult) (w : WriteThread) (t : TcpTransport)
    → t.write_thread ≡ w
    → let (u, effects) = on_sent result w t in
      u.is_open ≡ true
      → (t.is_open ≡ true)
        × (on_wire effects ++ to_send u ≡ (unsent w ++ pending_data t.pending_write) ++ [])
        × (write_answers effects ++ due u ≡ (due_in_send w ++ due_pending t.pending_write) ++ [])
sent-Sends result WriteThread.write_waiting t e o = ground (
  arith,
  e,
  o,
  append-nil (pending_data t.pending_write),
  append-nil (due_pending t.pending_write),
)
sent-Sends result WriteThread.write_ended t e o = ground (
  arith,
  e,
  o,
  append-nil (pending_data t.pending_write),
  append-nil (due_pending t.pending_write),
)
sent-Sends result (WriteThread.sending bytes [] handler) t e o = ground (
  arith,
  e,
  o,
  append-nil (pending_data t.pending_write),
  append-nil (due_pending t.pending_write),
)
sent-Sends (SendResult.sent_bytes n) (WriteThread.sending bytes (b ∷ rest) handler) t e o = ground (
  arith,
  e,
  o,
  append-nil (due_pending t.pending_write),
  taken n (b ∷ rest) (pending_data t.pending_write),
)
sent-Sends SendResult.interrupted (WriteThread.sending bytes (b ∷ rest) handler) t e o = ground (
  arith,
  e,
  o,
  append-nil (rest ++ pending_data t.pending_write),
  append_assoc rest (pending_data t.pending_write) [],
  append-nil (due_pending t.pending_write),
)
sent-Sends SendResult.sent_none (WriteThread.sending bytes (b ∷ rest) handler) t e o =
    ground (arith, e, o)
sent-Sends SendResult.send_failed (WriteThread.sending bytes (b ∷ rest) handler) t e o =
    ground (arith, e, o)

step-Sends : (e : Event) (t : TcpTransport) → IsTidy t → IsEnabled e t → Sends e t (step e t)
unfolding step async_read async_write close finish_close IsTidy
step-Sends (Event.read_called handler) t p h o =
    ground (arith, o, quiet (Event.read_called handler) t refl refl)
step-Sends (Event.write_called bytes handler) t p h o = write-Sends bytes handler t h o
step-Sends Event.close_called t p h o = ground (arith, o)
step-Sends Event.close_finished t p h o =
    ground (arith, o, p, quiet Event.close_finished t refl refl)
step-Sends Event.read_wakes t p h o = ground (arith, o, quiet Event.read_wakes t refl refl)
step-Sends Event.write_wakes t p h o = ground (arith, o, quiet Event.write_wakes t refl refl)
step-Sends (Event.recv_returned result) t p h o =
    ground (arith, o, quiet (Event.recv_returned result) t refl refl)
step-Sends (Event.send_returned result) t p h o = sent-Sends result t.write_thread t refl o

-- Two steps of a stream, the second first.
two_parts :
    {A : Type 0} (a b l m k w v : List A)
    → b ++ l ≡ m ++ v
    → a ++ m ≡ k ++ w
    → (a ++ b) ++ l ≡ k ++ (w ++ v)
two_parts a b l m k w v p q =
    append_assoc a b l
    ∙ ap (λ r. a ++ r) p
    ∙ sym (append_assoc a m v)
    ∙ ap (λ r. r ++ v) q
    ∙ append_assoc k w v

steps-Sends :
    (es : List Event) (t : TcpTransport)
    → IsTidy t
    → AreEnabled es t
    → let (u, effects) = steps es t in
      u.is_open ≡ true
      → (t.is_open ≡ true)
        × (on_wire effects ++ to_send u ≡ to_send t ++ all_of written es)
        × (write_answers effects ++ due u ≡ due t ++ all_of successes es)
steps-Sends [] t p h o = (o, sym (append-nil (to_send t)), sym (append-nil (due t)))
steps-Sends (e ∷ es) t p (h, hs) o =
    let (v, effects) = step e t in
    let (w, more) = steps es v in
    let (was, bytes, answers) = steps-Sends es v (step-IsTidy e t p) hs o in
    let (open_before, bytes', answers') = step-Sends e t p h was in
    (
      open_before,
      ap (λ b. b ++ to_send w) (on_wire-append effects more)
          ∙ two_parts (on_wire effects) (on_wire more) (to_send w) (to_send v) (to_send t)
              (written e) (all_of written es) bytes bytes',
      ap (λ b. b ++ due w) (write_answers-append effects more)
          ∙ two_parts (write_answers effects) (write_answers more) (due w) (due v) (due t)
              (successes e) (all_of successes es) answers answers',
    )

-- As long as a new transport is open, in every interleaving of the client and the two threads with
-- one outstanding read and write at a time: the bytes on the socket, followed by those still to be
-- sent, are the bytes of all writes in their order, and the answers to writes, followed by those
-- that are due, are for each write in its order that all its bytes were transferred. So short and
-- interrupted sends lose, repeat and reorder nothing.
pub steps-stream :
    (es : List Event)
    → AreEnabled es create
    → let (u, effects) = steps es create in
      u.is_open ≡ true
      → (on_wire effects ++ to_send u ≡ all_of written es)
        × (write_answers effects ++ due u ≡ all_of successes es)
unfolding IsTidy
steps-stream es h o =
    let (_, bytes, answers) =
      steps-Sends es create ((λ e. absurd (cc e)), (λ e. absurd (cc e))) h o in
    (bytes, answers)
