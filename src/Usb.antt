-- ===== src/Usb.antt =====
-- impl/android/transport/AndroidUsbTransport.hpp and
-- impl/android/transport/AndroidUsbTransport.cpp: a transport over a USB device, with a thread for
-- each of its two endpoints.
pub mod Answers
use aa_v.Base.{
  ℕ, Bool, true, false, not, ◌&&◌, Option, none, some, List, [], ◌∷◌, ◌++◌, Bytes, ◌==◌,
  if◌then◌else◌,
}

-- What a handler is called with. A handler is a number, and an error its `errno`.
pub data Completion : Type 0 where
  transferred system_error : ℕ → Completion
  operation_aborted : Completion

-- What the transport does outside: it posts a handler, starts a bulk transfer of some bytes out, or
-- closes the device.
pub data Effect : Type 0 where
  read_posted write_posted : ℕ → Completion → Effect
  bulk_out : Bytes → Effect
  device_closed : Effect

-- Where the read thread is: at the head of its loop or in its wait, in `ioctl`, at its end.
pub data ReadThread : Type 0 where
  read_waiting reading read_ended : ReadThread

-- The write thread, for which the head of the loop and the wait differ after a close.
pub data WriteThread : Type 0 where
  write_head write_waiting writing write_ended : WriteThread

-- The pending handlers and their request flags; a read's buffer is left out. `closing` says that
-- `close` waits for the threads, and `joined` that it has.
pub record UsbTransport : Type 0 where
  pub is_open : Bool
  pub fd_open : Bool
  pub closing : Bool
  pub joined : Bool
  pub pending_read_handler : Option ℕ
  pub read_requested : Bool
  pub pending_write_data : Bytes
  pub pending_write_handler : Option ℕ
  pub write_requested : Bool
  pub read_thread : ReadThread
  pub write_thread : WriteThread

-- `ETIMEDOUT`
abbrev pub timed_out : ℕ
timed_out = 110

abbrev pub create : UsbTransport
create = record {
  is_open = true;
  fd_open = true;
  closing = false;
  joined = false;
  pending_read_handler = none;
  read_requested = false;
  pending_write_data = [];
  pending_write_handler = none;
  write_requested = false;
  read_thread = ReadThread.read_waiting;
  write_thread = WriteThread.write_head;
}

unfoldable pub async_read : ℕ → UsbTransport → UsbTransport × List Effect
async_read handler t =
    if not t.is_open
    then (t, Effect.read_posted handler Completion.operation_aborted ∷ [])
    else (record t { pending_read_handler = some handler; read_requested = true }, [])

unfoldable pub async_write : Bytes → ℕ → UsbTransport → UsbTransport × List Effect
async_write bytes handler t =
    if not t.is_open then (t, Effect.write_posted handler Completion.operation_aborted ∷ []) else (
      record t {
        pending_write_data = bytes;
        pending_write_handler = some handler;
        write_requested = true;
      },
      [],
    )

-- `close` up to the joins of the threads.
unfoldable pub close : UsbTransport → UsbTransport × List Effect
close t = if not t.is_open then (t, []) else (record t { is_open = false; closing = true }, [])

abbrev pub post_read : Option ℕ → Completion → List Effect
post_read none c = []
post_read (some handler) c = Effect.read_posted handler c ∷ []

abbrev pub post_write : Option ℕ → Completion → List Effect
post_write none c = []
post_write (some handler) c = Effect.write_posted handler c ∷ []

abbrev pub has_read_ended : ReadThread → Bool
has_read_ended ReadThread.read_ended = true
has_read_ended _ = false

abbrev pub has_write_ended : WriteThread → Bool
has_write_ended WriteThread.write_ended = true
has_write_ended _ = false

-- The rest of `close`, which comes when both threads have ended.
unfoldable pub finish_close : UsbTransport → UsbTransport × List Effect
finish_close t =
    if t.closing && (has_read_ended t.read_thread && has_write_ended t.write_thread)
    then (
      record t {
        closing = false;
        joined = true;
        fd_open = false;
        pending_read_handler = none;
        pending_write_handler = none;
      },
      Effect.device_closed
          ∷ (post_read t.pending_read_handler Completion.operation_aborted
              ++ post_write t.pending_write_handler Completion.operation_aborted),
    )
    else (t, [])

-- The head of `read_loop` and its wait.
abbrev pub read_wakes : ReadThread → UsbTransport → UsbTransport
read_wakes ReadThread.read_waiting t =
    if not t.is_open
    then record t { read_thread = ReadThread.read_ended }
    else if t.read_requested
    then record t { read_thread = ReadThread.reading }
    else t
read_wakes _ t = t

-- What `ioctl` returns: a count, or -1 with the `errno`.
pub data BulkResult : Type 0 where
  bulk_done bulk_failed : ℕ → BulkResult

-- The handler is taken and posted.
abbrev pub answer_read : Completion → UsbTransport → UsbTransport × List Effect
answer_read c t = (
  record t {
    pending_read_handler = none;
    read_requested = false;
    read_thread = ReadThread.read_waiting;
  },
  post_read t.pending_read_handler c,
)

-- `read_loop` behind `ioctl`. After a timeout the request is read again.
abbrev pub on_read : BulkResult → ReadThread → UsbTransport → UsbTransport × List Effect
on_read (BulkResult.bulk_done n) ReadThread.reading t = answer_read (Completion.transferred n) t
on_read (BulkResult.bulk_failed e) ReadThread.reading t =
    if e == timed_out
    then (record t { read_thread = ReadThread.read_waiting }, [])
    else if not t.is_open
    then (record t { read_thread = ReadThread.read_ended }, [])
    else answer_read (Completion.system_error e) t
on_read _ _ t = (t, [])

-- The head of `write_loop`, its wait, and the start of a transfer. A request that is there when the
-- transport is closed during the wait is still served.
abbrev pub write_wakes : WriteThread → UsbTransport → UsbTransport × List Effect
write_wakes WriteThread.write_head t =
    if t.is_open
    then (record t { write_thread = WriteThread.write_waiting }, [])
    else (record t { write_thread = WriteThread.write_ended }, [])
write_wakes WriteThread.write_waiting t =
    if t.write_requested
    then (
      record t {
        pending_write_data = [];
        write_requested = false;
        write_thread = WriteThread.writing;
      },
      Effect.bulk_out t.pending_write_data ∷ [],
    )
    else if t.is_open
    then (t, [])
    else (record t { write_thread = WriteThread.write_ended }, [])
write_wakes _ t = (t, [])

-- `write_loop` behind `ioctl`, where the handler is taken first.
abbrev pub on_written : BulkResult → WriteThread → UsbTransport → UsbTransport × List Effect
on_written (BulkResult.bulk_done n) WriteThread.writing t = (
  record t { pending_write_handler = none; write_thread = WriteThread.write_head },
  post_write t.pending_write_handler (Completion.transferred n),
)
on_written (BulkResult.bulk_failed e) WriteThread.writing t =
    if not t.is_open
    then (record t { pending_write_handler = none; write_thread = WriteThread.write_ended }, [])
    else (
      record t { pending_write_handler = none; write_thread = WriteThread.write_head },
      post_write t.pending_write_handler (Completion.system_error e),
    )
on_written _ _ t = (t, [])

-- A step of the client or of a thread.
pub data Event : Type 0 where
  read_called : ℕ → Event
  write_called : Bytes → ℕ → Event
  close_called close_finished read_woken write_woken : Event
  read_returned write_returned : BulkResult → Event

unfoldable pub step : Event → UsbTransport → UsbTransport × List Effect
unfolding async_read async_write close finish_close
step (Event.read_called handler) t = async_read handler t
step (Event.write_called bytes handler) t = async_write bytes handler t
step Event.close_called t = close t
step Event.close_finished t = finish_close t
step Event.read_woken t = (read_wakes t.read_thread t, [])
step Event.write_woken t = write_wakes t.write_thread t
step (Event.read_returned result) t = on_read result t.read_thread t
step (Event.write_returned result) t = on_written result t.write_thread t
