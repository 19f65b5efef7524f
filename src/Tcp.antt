-- ===== src/Tcp.antt =====
-- impl/android/transport/AndroidTcpTransport.hpp and
-- impl/android/transport/AndroidTcpTransport.cpp: a transport over a socket, with one thread that
-- receives and one that sends.
pub mod Steps
pub mod Runs
pub mod Wire
pub mod Abandoned
use aa_v.Base.{
  ℕ, Bool, true, false, not, ◌&&◌, ◌||◌, Option, none, some, List, [], ◌∷◌, ◌++◌, Bytes, length,
  take, drop, if◌then◌else◌,
}
use aa_v.Handshake.{is_empty}

-- What a handler is called with. A handler is a number.
pub data Completion : Type 0 where
  transferred : ℕ → Completion
  operation_aborted eof io_error : Completion

-- What the transport does outside: it posts a handler, puts bytes on the socket, or shuts the
-- socket down and closes it.
pub data Effect : Type 0 where
  read_posted write_posted : ℕ → Completion → Effect
  wired : Bytes → Effect
  socket_closed : Effect

-- Where the read thread is: at the head of its loop, in `recv` with a handler, or at its end.
pub data ReadThread : Type 0 where
  read_waiting : ReadThread
  receiving : ℕ → ReadThread
  read_ended : ReadThread

-- The write thread: in `send`, with the data, what remains of it, and the handler.
pub data WriteThread : Type 0 where
  write_waiting : WriteThread
  sending : Bytes → Bytes → ℕ → WriteThread
  write_ended : WriteThread

-- `pending_read` and `pending_write` are the pending handlers, which are there exactly while a
-- request is, up to the close; a read's buffer is left out. `closing` says that `close` waits for
-- the threads, and `joined` that it has.
pub record TcpTransport : Type 0 where
  pub is_open : Bool
  pub fd_open : Bool
  pub closing : Bool
  pub joined : Bool
  pub pending_read : Option ℕ
  pub pending_write : Option (Bytes × ℕ)
  pub read_thread : ReadThread
  pub write_thread : WriteThread

abbrev pub create : TcpTransport
create = record {
  is_open = true;
  fd_open = true;
  closing = false;
  joined = false;
  pending_read = none;
  pending_write = none;
  read_thread = ReadThread.read_waiting;
  write_thread = WriteThread.write_waiting;
}

unfoldable pub async_read : ℕ → TcpTransport → TcpTransport × List Effect
async_read handler t =
    if not t.is_open
    then (t, Effect.read_posted handler Completion.operation_aborted ∷ [])
    else (record t { pending_read = some handler }, [])

unfoldable pub async_write : Bytes → ℕ → TcpTransport → TcpTransport × List Effect
async_write bytes handler t =
    if not t.is_open
    then (t, Effect.write_posted handler Completion.operation_aborted ∷ [])
    else (record t { pending_write = some (bytes, handler) }, [])

-- `close` up to the joins of the threads.
unfoldable pub close : TcpTransport → TcpTransport × List Effect
close t =
    if not t.is_open
    then (t, [])
    else (record t { is_open = false; fd_open = false; closing = true }, Effect.socket_closed ∷ [])

abbrev pub aborted_read : Option ℕ → List Effect
aborted_read none = []
aborted_read (some handler) = Effect.read_posted handler Completion.operation_aborted ∷ []

abbrev pub aborted_write : Option (Bytes × ℕ) → List Effect
aborted_write none = []
aborted_write (some (bytes, handler)) =
    Effect.write_posted handler Completion.operation_aborted ∷ []

abbrev pub has_read_ended : ReadThread → Bool
has_read_ended ReadThread.read_ended = true
has_read_ended _ = false

abbrev pub has_write_ended : WriteThread → Bool
has_write_ended WriteThread.write_ended = true
has_write_ended _ = false

-- The rest of `close`, which comes when both threads have ended.
unfoldable pub finish_close : TcpTransport → TcpTransport × List Effect
finish_close t =
    if t.closing && (has_read_ended t.read_thread && has_write_ended t.write_thread)
    then (
      record t { closing = false; joined = true; pending_read = none; pending_write = none },
      aborted_read t.pending_read ++ aborted_write t.pending_write,
    )
    else (t, [])

-- The head of `read_loop`: the end, a request, or a longer wait.
abbrev pub take_read : Option ℕ → TcpTransport → TcpTransport
take_read none t = t
take_read (some handler) t = record t {
  pending_read = none;
  read_thread = ReadThread.receiving handler;
}

abbrev pub read_head : ReadThread → TcpTransport → TcpTransport
read_head ReadThread.read_waiting t =
    if not t.is_open
    then record t { read_thread = ReadThread.read_ended }
    else take_read t.pending_read t
read_head _ t = t

-- What `recv` returns: a positive count, 0, or -1.
pub data RecvResult : Type 0 where
  received_bytes : ℕ → RecvResult
  peer_closed recv_failed : RecvResult

-- `read_loop` behind `recv`.
abbrev pub on_received : RecvResult → ReadThread → TcpTransport → TcpTransport × List Effect
on_received (RecvResult.received_bytes n) (ReadThread.receiving handler) t = (
  record t { read_thread = ReadThread.read_waiting },
  Effect.read_posted handler (Completion.transferred n) ∷ [],
)
on_received RecvResult.peer_closed (ReadThread.receiving handler) t = (
  record t { is_open = false; read_thread = ReadThread.read_waiting },
  Effect.read_posted handler Completion.eof ∷ [],
)
on_received RecvResult.recv_failed (ReadThread.receiving handler) t =
    if not t.is_open then (record t { read_thread = ReadThread.read_ended }, []) else (
      record t { is_open = false; read_thread = ReadThread.read_waiting },
      Effect.read_posted handler Completion.io_error ∷ [],
    )
on_received _ _ t = (t, [])

abbrev pub take_write : Option (Bytes × ℕ) → TcpTransport → TcpTransport
take_write none t = t
take_write (some (bytes, handler)) t = record t {
  pending_write = none;
  write_thread = WriteThread.sending bytes bytes handler;
}

abbrev pub write_head : WriteThread → TcpTransport → TcpTransport
write_head WriteThread.write_waiting t =
    if not t.is_open
    then record t { write_thread = WriteThread.write_ended }
    else take_write t.pending_write t
write_head _ t = t

-- What `send` returns: a positive count, 0, or -1 with EINTR or with another error.
pub data SendResult : Type 0 where
  sent_bytes : ℕ → SendResult
  sent_none interrupted send_failed : SendResult

-- A failed send ends the transport.
abbrev pub fail_write : ℕ → TcpTransport → TcpTransport × List Effect
fail_write handler t = (
  record t { is_open = false; write_thread = WriteThread.write_waiting },
  Effect.write_posted handler Completion.io_error ∷ [],
)

abbrev pub send_round : SendResult → Bytes → Bytes → ℕ → TcpTransport → TcpTransport × List Effect
send_round (SendResult.sent_bytes n) bytes remaining handler t = (
  record t { write_thread = WriteThread.sending bytes (drop n remaining) handler },
  Effect.wired (take n remaining) ∷ [],
)
send_round SendResult.sent_none bytes remaining handler t = fail_write handler t
send_round SendResult.interrupted bytes remaining handler t = (t, [])
send_round SendResult.send_failed bytes remaining handler t = fail_write handler t

-- A round of the inner loop of `write_loop`, which ends when nothing remains or the transport is
-- not open, and the handler is told that all was written.
abbrev pub on_sent : SendResult → WriteThread → TcpTransport → TcpTransport × List Effect
on_sent result (WriteThread.sending bytes remaining handler) t =
    if is_empty remaining || not t.is_open
    then (
      record t { write_thread = WriteThread.write_waiting },
      Effect.write_posted handler (Completion.transferred (length bytes)) ∷ [],
    )
    else send_round result bytes remaining handler t
on_sent result _ t = (t, [])

-- A step of the client or of a thread.
pub data Event : Type 0 where
  read_called : ℕ → Event
  write_called : Bytes → ℕ → Event
  close_called close_finished read_wakes write_wakes : Event
  recv_returned : RecvResult → Event
  send_returned : SendResult → Event

unfoldable pub step : Event → TcpTransport → TcpTransport × List Effect
unfolding async_read async_write close finish_close
step (Event.read_called handler) t = async_read handler t
step (Event.write_called bytes handler) t = async_write bytes handler t
step Event.close_called t = close t
step Event.close_finished t = finish_close t
step Event.read_wakes t = (read_head t.read_thread t, [])
step Event.write_wakes t = (write_head t.write_thread t, [])
step (Event.recv_returned result) t = on_received result t.read_thread t
step (Event.send_returned result) t = on_sent result t.write_thread t

abbrev pub steps : List Event → TcpTransport → TcpTransport × List Effect
steps [] t = (t, [])
steps (e ∷ es) t = let (u, effects) = step e t in let (w, more) = steps es u in (w, effects ++ more)
