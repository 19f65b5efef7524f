-- ===== src/Transport.antt =====
-- core/include/aauto/transport/BufferedTransport.hpp and core/src/transport/BufferedTransport.cpp:
-- a transport that reads ahead of its client.
pub mod Bounds
pub mod Stream
pub mod Answers
use aa_v.Base.{
  ℕ, min, Bool, true, false, Option, none, some, List, [], ◌∷◌, ◌++◌, Bytes, length, take, drop,
  leb, ltb, if◌then◌else◌,
}

-- `asio::error::operation_aborted`, or an error of the transport below by its value.
pub data ErrorCode : Type 0 where
  operation_aborted : ErrorCode
  underlying_error : ℕ → ErrorCode

-- A read of the client: its handler, and the size of its buffer.
pub record Reader : Type 0 where
  pub handler : ℕ
  pub buffer_size : ℕ

-- What a handler is called with: the bytes copied to its buffer, or an error.
pub data Completion : Type 0 where
  copied : Bytes → Completion
  failed : ErrorCode → Completion

-- Calls of the transport below, and the handlers posted to the executor.
pub data Effect : Type 0 where
  underlying_read : Effect
  underlying_write : Bytes → Effect
  underlying_close : Effect
  post : ℕ → Completion → Effect

-- A handler that was moved from is none. The buffer in flight, `pending_read_`, comes with an
-- event.
pub record BufferedTransport : Type 0 where
  pub rx_queue : List Bytes
  pub loop_started : Bool
  pub closed : Bool
  pub pending_handler : Option Reader
  pub deferred_error : Option ErrorCode
  pub effects : List Effect

abbrev pub create : BufferedTransport
create = record {
  rx_queue = [];
  loop_started = false;
  closed = false;
  pending_handler = none;
  deferred_error = none;
  effects = [];
}

abbrev pub max_queued_reads : ℕ
max_queued_reads = 32

abbrev pub emit : Effect → BufferedTransport → BufferedTransport
emit effect t = record t { effects = t.effects ++ effect ∷ [] }

-- `invoke_handler` without an error: what the buffer cannot hold goes back to the front of the
-- queue. An empty chunk copies nothing. The code calls the handler without its lock and takes the
-- lock again for what is left; here nothing comes between, which the code does not exclude.
unfoldable pub invoke_handler : Reader → Bytes → BufferedTransport → BufferedTransport
invoke_handler reader chunk t =
    let to_copy = min reader.buffer_size (length chunk) in
    emit (Effect.post reader.handler (Completion.copied (take to_copy chunk))) (
      if ltb to_copy (length chunk)
      then record t { rx_queue = drop to_copy chunk ∷ t.rx_queue }
      else t)

-- `invoke_handler` with an error.
unfoldable pub invoke_error : Reader → ErrorCode → BufferedTransport → BufferedTransport
invoke_error reader ec t = emit (Effect.post reader.handler (Completion.failed ec)) t

unfoldable pub issue_underlying_read : BufferedTransport → BufferedTransport
issue_underlying_read t = if t.closed then t else emit Effect.underlying_read t

unfoldable pub start : BufferedTransport → BufferedTransport
start t =
    if t.loop_started
    then t
    else if t.closed
    then t
    else issue_underlying_read (record t { loop_started = true })

-- The client's read, with the deferred error, when no chunk is buffered: the error goes to it, or
-- the handler is parked.
unfoldable pub park : Reader → Option ErrorCode → BufferedTransport → BufferedTransport
park reader (some ec) t = invoke_error reader ec (record t { deferred_error = none })
park reader none t = record t { pending_handler = some reader }

-- The client's read, with the queue.
unfoldable pub read_from : Reader → List Bytes → BufferedTransport → BufferedTransport
read_from reader (chunk ∷ chunks) t = invoke_handler reader chunk (record t { rx_queue = chunks })
read_from reader [] t = park reader t.deferred_error t

unfoldable pub async_read : Reader → BufferedTransport → BufferedTransport
async_read reader t =
    if t.closed
    then invoke_error reader ErrorCode.operation_aborted t
    else read_from reader t.rx_queue t

unfoldable pub async_write : Bytes → BufferedTransport → BufferedTransport
async_write buffer t = emit (Effect.underlying_write buffer) t

-- The handler that was parked, after a close.
unfoldable pub abort_pending : Option Reader → BufferedTransport → BufferedTransport
abort_pending none t = t
abort_pending (some reader) t = invoke_error reader ErrorCode.operation_aborted t

unfoldable pub close : BufferedTransport → BufferedTransport
close t =
    if t.closed
    then t
    else abort_pending t.pending_handler (
        emit Effect.underlying_close
          (record t { closed = true; pending_handler = none; rx_queue = [] }))

-- An error, with the handler that is parked.
unfoldable pub route_error : Option Reader → ErrorCode → BufferedTransport → BufferedTransport
route_error (some reader) ec t = invoke_error reader ec (record t { pending_handler = none })
route_error none ec t = record t { deferred_error = some ec }

-- `on_underlying_read` with an error.
unfoldable pub on_underlying_error : ErrorCode → BufferedTransport → BufferedTransport
on_underlying_error ec t = if t.closed then t else route_error t.pending_handler ec t

-- `rx_queue_.pop_front()`
abbrev pub without_front : List Bytes → List Bytes
without_front [] = []
without_front (chunk ∷ chunks) = chunks

-- The chunk behind the queue, in the place of the oldest one if the queue is full.
unfoldable pub buffer_chunk : Bytes → BufferedTransport → BufferedTransport
buffer_chunk buf t =
    let queue =
      if leb max_queued_reads (length t.rx_queue) then without_front t.rx_queue else t.rx_queue in
    record t { rx_queue = queue ++ buf ∷ [] }

-- A chunk, with the handler that is parked.
unfoldable pub route_chunk : Option Reader → Bytes → BufferedTransport → BufferedTransport
route_chunk (some reader) buf t = invoke_handler reader buf (record t { pending_handler = none })
route_chunk none buf t = buffer_chunk buf t

-- `on_underlying_read` with the bytes that were read.
unfoldable pub on_underlying_read : Bytes → BufferedTransport → BufferedTransport
on_underlying_read buf t =
    if t.closed then t else issue_underlying_read (route_chunk t.pending_handler buf t)

-- The calls of the client, and the completions of the transport below. Each runs as one step, since
-- it holds the lock but for its last calls out.
pub data Event : Type 0 where
  start_called close_called : Event
  read_called : Reader → Event
  write_called : Bytes → Event
  read_done : Bytes → Event
  read_failed : ErrorCode → Event

unfoldable pub step : Event → BufferedTransport → BufferedTransport
step Event.start_called t = start t
step Event.close_called t = close t
step (Event.read_called reader) t = async_read reader t
step (Event.write_called buffer) t = async_write buffer t
step (Event.read_done buf) t = on_underlying_read buf t
step (Event.read_failed ec) t = on_underlying_error ec t
