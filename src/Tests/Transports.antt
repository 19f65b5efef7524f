-- ===== src/Tests/Transports.antt =====
-- core/src/transport/BufferedTransport.cpp on concrete reads.
use aa_v.Base.{◌≡◌, refl, true, [], ◌∷◌, arith}
use aa_v.Transport.{
  Reader, Completion, Effect, BufferedTransport, create, invoke_handler, issue_underlying_read,
  start, park, read_from, async_read, route_chunk, buffer_chunk, on_underlying_read, Event, step,
}
use aa_v.Transport.Answers
use aa_v.Transport.Answers.{served, Run-served}
use aa_v.Transport.Bounds.{IsBuffered, step-IsBuffered}
use aa_v.Transport.Stream.{Run, stream, all_received, Run-stream}

abbrev reader : Reader
reader = record { handler = 1; buffer_size = 2 }

abbrev chunk : Event
chunk = Event.read_done (5 ∷ 6 ∷ 7 ∷ [])

-- A chunk of three bytes for a buffer of two.
split_chunk :
    step (Event.read_called reader) (step chunk (step Event.start_called create)) ≡ record create {
      rx_queue = (7 ∷ []) ∷ [];
      loop_started = true;
      effects =
          Effect.underlying_read
          ∷ Effect.underlying_read
          ∷ Effect.post 1 (Completion.copied (5 ∷ 6 ∷ []))
          ∷ [];
    }
unfolding step start issue_underlying_read on_underlying_read route_chunk buffer_chunk async_read
    read_from invoke_handler
split_chunk = refl

abbrev two_reads :
    Run
      (Event.start_called ∷ Event.read_called reader ∷ chunk ∷ [])
      (step chunk (step (Event.read_called reader) (step Event.start_called create)))
unfolding step start issue_underlying_read async_read read_from park
two_reads =
    Run.next
      (Run.next (Run.next Run.fresh Event.start_called tt refl) (Event.read_called reader) refl
        refl)
      chunk tt refl

Run-stream_example :
    (stream (step chunk (step (Event.read_called reader) (step Event.start_called create)))
      ≡ all_received (Event.start_called ∷ Event.read_called reader ∷ chunk ∷ []))
    × IsBuffered (step chunk (step (Event.read_called reader) (step Event.start_called create)))
Run-stream_example = Run-stream two_reads

-- A transport with a chunk in its queue.
holding : BufferedTransport
holding = record create { rx_queue = (1 ∷ 2 ∷ []) ∷ []; loop_started = true }

step-IsBuffered_example : IsBuffered (step (Event.read_called reader) holding)
unfolding holding IsBuffered
step-IsBuffered_example =
    step-IsBuffered (Event.read_called reader) holding refl (omega arith, tt, tt)

abbrev closed_reads :
    Answers.Run
      (Event.close_called ∷ Event.read_called reader ∷ Event.start_called ∷ [])
      (step Event.close_called (step (Event.read_called reader) (step Event.start_called create)))
unfolding step start issue_underlying_read
closed_reads =
    Answers.Run.next
      (Answers.Run.next (Answers.Run.next Answers.Run.fresh Event.start_called tt)
        (Event.read_called reader) refl)
      Event.close_called tt

Run-served_example :
    served
      (step Event.close_called (step (Event.read_called reader) (step Event.start_called create)))
    ≡ 1
Run-served_example = Run-served closed_reads
