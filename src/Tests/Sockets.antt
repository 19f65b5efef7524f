-- ===== src/Tests/Sockets.antt =====
-- impl/android/transport/AndroidTcpTransport.cpp with short sends, a close, and a peer that leaves.
use aa_v.Base.{◌+◌, ◌≡◌, refl, true, false, none, some, List, [], ◌∷◌, ◌++◌}
use aa_v.Tcp.{
  async_read, async_write, close, finish_close, Completion, ReadThread, TcpTransport, RecvResult,
  SendResult, Event, create, step, steps,
}
use aa_v.Tcp.Steps.{open_reads, open_writes, reads_posted, writes_posted}
use aa_v.Tcp.Runs.{steps-answered}
use aa_v.Tcp.Wire.{on_wire, write_answers, steps-stream}
use aa_v.Tcp.Abandoned.{peer_closed-Stays}

-- A write whose bytes go out in two sends with an interrupt between them, while a read waits.
abbrev sends : List Event
sends =
    Event.read_called 1
    ∷ Event.write_called (7 ∷ 8 ∷ 9 ∷ []) 2
    ∷ Event.write_wakes
    ∷ Event.send_returned (SendResult.sent_bytes 2)
    ∷ Event.send_returned SendResult.interrupted
    ∷ Event.send_returned (SendResult.sent_bytes 1)
    ∷ Event.send_returned (SendResult.sent_bytes 1)
    ∷ []

-- And a close, whose threads end.
abbrev closing : List Event
closing =
    sends ++ Event.close_called ∷ Event.read_wakes ∷ Event.write_wakes ∷ Event.close_finished ∷ []

steps-stream_example :
    (on_wire (steps sends create).1 ++ [] ≡ 7 ∷ 8 ∷ 9 ∷ [])
    × (write_answers (steps sends create).1 ++ [] ≡ Completion.transferred 3 ∷ [])
unfolding step async_read async_write
steps-stream_example = steps-stream sends (refl, (refl, (tt, (tt, (tt, (tt, (tt, tt))))))) refl

steps-answered_example :
    let (u, effects) = steps closing create in
    (reads_posted effects + open_reads u ≡ 1)
    × (writes_posted effects + open_writes u ≡ 1)
    × (u.joined ≡ true → (reads_posted effects ≡ 1) × (writes_posted effects ≡ 1))
unfolding step async_read async_write close finish_close
steps-answered_example =
    steps-answered closing (refl, (refl, (tt, (tt, (tt, (tt, (tt, (tt, (tt, (tt, (tt, tt)))))))))))

-- The peer closes the connection while a write is pending; the client closes then.
abbrev left : TcpTransport
left = record create { read_thread = ReadThread.receiving 1; pending_write = some (7 ∷ [], 2) }

abbrev goodbye : List Event
goodbye = Event.close_called ∷ Event.write_wakes ∷ Event.close_finished ∷ []

peer_closed-Stays_example :
    let u = (steps (Event.recv_returned RecvResult.peer_closed ∷ goodbye) left).0 in
    (u.is_open ≡ false)
    × (u.fd_open ≡ true)
    × (u.joined ≡ false)
    × (u.pending_read ≡ none)
    × (u.pending_write ≡ some (7 ∷ [], 2))
peer_closed-Stays_example = peer_closed-Stays 1 goodbye left refl refl refl
