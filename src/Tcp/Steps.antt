-- ===== src/Tcp/Steps.antt =====
-- What a step of impl/android/transport/AndroidTcpTransport.cpp does with its requests.
use aa_v.Base.{ℕ, suc, ◌+◌, ◌≡◌, true, Option, none, some, List, [], ◌∷◌, arith}
use aa_v.Tcp.{
  Effect, ReadThread, WriteThread, TcpTransport, RecvResult, Event, async_read, async_write, close,
  finish_close, step,
}

abbrev pub present {ℓ} : {A : Type ℓ} → Option A → ℕ
present none = 0
present (some a) = 1

-- The reads that the transport still has to answer: the pending one, and the one in `recv`.
abbrev pub in_recv : ReadThread → ℕ
in_recv (ReadThread.receiving handler) = 1
in_recv _ = 0

abbrev pub open_reads : TcpTransport → ℕ
open_reads t = present t.pending_read + in_recv t.read_thread

abbrev pub in_send : WriteThread → ℕ
in_send (WriteThread.sending bytes remaining handler) = 1
in_send _ = 0

abbrev pub open_writes : TcpTransport → ℕ
open_writes t = present t.pending_write + in_send t.write_thread

-- The handlers posted among some effects.
abbrev pub reads_posted : List Effect → ℕ
reads_posted [] = 0
reads_posted (Effect.read_posted handler c ∷ effects) = suc (reads_posted effects)
reads_posted (_ ∷ effects) = reads_posted effects

abbrev pub writes_posted : List Effect → ℕ
writes_posted [] = 0
writes_posted (Effect.write_posted handler c ∷ effects) = suc (writes_posted effects)
writes_posted (_ ∷ effects) = writes_posted effects

abbrev pub reads_called : Event → ℕ
reads_called (Event.read_called handler) = 1
reads_called _ = 0

abbrev pub writes_called : Event → ℕ
writes_called (Event.write_called bytes handler) = 1
writes_called _ = 0

-- ITransport.hpp allows one outstanding read and one outstanding write. And a `recv` whose socket
-- was shut down returns 0, not an error.
abbrev pub IsEnabled : Event → TcpTransport → Type 0
IsEnabled (Event.read_called handler) t = open_reads t ≡ 0
IsEnabled (Event.write_called bytes handler) t = open_writes t ≡ 0
IsEnabled (Event.recv_returned RecvResult.recv_failed) t = t.is_open ≡ true
IsEnabled _ t = Unit

abbrev Answered : Event → TcpTransport → TcpTransport × List Effect → Type 0
Answered e t (u, effects) =
    (reads_posted effects + open_reads u ≡ open_reads t + reads_called e)
    × (writes_posted effects + open_writes u ≡ open_writes t + writes_called e)

finish-Answered : (t : TcpTransport) → Answered Event.close_finished t (finish_close t)
unfolding finish_close
finish-Answered t = ground arith

pub step-Answered : (e : Event) (t : TcpTransport) → IsEnabled e t → Answered e t (step e t)
unfolding step async_read async_write close
step-Answered (Event.read_called handler) t h = ground (arith, h)
step-Answered (Event.write_called bytes handler) t h = ground (arith, h)
step-Answered Event.close_called t h = ground arith
step-Answered Event.close_finished t h = finish-Answered t
step-Answered Event.read_wakes t h = ground arith
step-Answered Event.write_wakes t h = ground arith
step-Answered (Event.recv_returned result) t h = ground (arith, h)
step-Answered (Event.send_returned result) t h = ground arith
