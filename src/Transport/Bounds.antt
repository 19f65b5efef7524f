-- ===== src/Transport/Bounds.antt =====
-- What core/src/transport/BufferedTransport.cpp keeps between two calls.
use aa_v.Base.{
  ◌≤◌, ◌≡◌, Bool, true, false, Option, none, some, List, [], ◌∷◌, Bytes, length, length-append,
  arith,
}
use aa_v.Transport.{
  ErrorCode, Reader, BufferedTransport, create, max_queued_reads, invoke_handler, invoke_error,
  issue_underlying_read, start, park, read_from, route_error, route_chunk, async_read, async_write,
  close, abort_pending, on_underlying_error, without_front, buffer_chunk, on_underlying_read, Event,
  step,
}

-- A parked handler waits for a chunk, so none is buffered and no error is deferred.
abbrev pub IsParked : Option Reader → List Bytes → Option ErrorCode → Type 0
IsParked none queue error = Unit {0}
IsParked (some reader) queue error = (queue ≡ []) × (error ≡ none)

-- Nothing is left behind by a close.
abbrev pub IsShut : Bool → List Bytes → Option Reader → Type 0
IsShut false queue handler = Unit {0}
IsShut true queue handler = (queue ≡ []) × (handler ≡ none)

unfoldable pub IsBuffered : BufferedTransport → Type 0
IsBuffered t =
    (length t.rx_queue ≤ max_queued_reads)
    × IsParked t.pending_handler t.rx_queue t.deferred_error
    × IsShut t.closed t.rx_queue t.pending_handler

-- A client has one read outstanding at a time.
abbrev pub IsEnabled : Event → BufferedTransport → Type 0
IsEnabled (Event.read_called reader) t = t.pending_handler ≡ none
IsEnabled _ t = Unit {0}

pub create-IsBuffered : IsBuffered create
unfolding IsBuffered
create-IsBuffered = (omega arith, tt, tt)

module _ (t : BufferedTransport) (b : IsBuffered t) where
  async_read-IsBuffered :
      (reader : Reader) → t.pending_handler ≡ none → IsBuffered (async_read reader t)
  unfolding IsBuffered async_read read_from invoke_handler invoke_error park
  async_read-IsBuffered reader e = let (bound, parked, shut) = b in ground arith

  start-IsBuffered : IsBuffered (start t)
  unfolding IsBuffered start issue_underlying_read
  start-IsBuffered = let (bound, parked, shut) = b in ground arith

  close-IsBuffered : IsBuffered (close t)
  unfolding IsBuffered close abort_pending invoke_error
  close-IsBuffered = let (bound, parked, shut) = b in ground arith

  error-IsBuffered : (ec : ErrorCode) → IsBuffered (on_underlying_error ec t)
  unfolding IsBuffered on_underlying_error route_error invoke_error
  error-IsBuffered ec = let (bound, parked, shut) = b in ground arith

  chunk-IsBuffered : (buf : Bytes) → IsBuffered (on_underlying_read buf t)
  unfolding IsBuffered on_underlying_read route_chunk invoke_handler buffer_chunk
      issue_underlying_read
  chunk-IsBuffered buf =
      let (bound, parked, shut) = b in
      ground (
        arith,
        length-append t.rx_queue (buf ∷ []),
        length-append (without_front t.rx_queue) (buf ∷ []),
      )

-- At most 32 chunks are ever buffered; a handler is parked only while none is, and no error is
-- deferred then; and a close leaves neither chunk nor handler. Every call and completion keeps
-- this, where the client has one read outstanding at a time.
pub step-IsBuffered :
    (e : Event) (t : BufferedTransport) → IsEnabled e t → IsBuffered t → IsBuffered (step e t)
unfolding step IsBuffered async_write
step-IsBuffered Event.start_called t _ b = start-IsBuffered t b
step-IsBuffered Event.close_called t _ b = close-IsBuffered t b
step-IsBuffered (Event.read_called reader) t e b = async_read-IsBuffered t b reader e
step-IsBuffered (Event.write_called buffer) t _ b = b
step-IsBuffered (Event.read_done buf) t _ b = chunk-IsBuffered t b buf
step-IsBuffered (Event.read_failed ec) t _ b = error-IsBuffered t b ec
