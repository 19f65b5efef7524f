-- ===== src/Tcp/Runs.antt =====
-- Runs of impl/android/transport/AndroidTcpTransport.cpp, whose threads and client take turns.
use aa_v.Base.{ℕ, ◌+◌, ◌≡◌, true, false, List, [], ◌∷◌, ◌++◌, arith}
use aa_v.Tcp.{
  Effect, TcpTransport, Event, create, async_read, async_write, close, finish_close, step, steps,
}
use aa_v.Tcp.Steps.{
  open_reads, open_writes, reads_posted, writes_posted, reads_called, writes_called, IsEnabled,
  step-Answered,
}

abbrev pub AreEnabled : List Event → TcpTransport → Type 0
AreEnabled [] t = Unit
AreEnabled (e ∷ es) t = IsEnabled e t × AreEnabled es (step e t).0

abbrev pub count_of : (Event → ℕ) → List Event → ℕ
count_of f [] = 0
count_of f (e ∷ es) = f e + count_of f es

reads_posted-append :
    (xs ys : List Effect) → reads_posted (xs ++ ys) ≡ reads_posted xs + reads_posted ys
reads_posted-append [] ys = omega arith
reads_posted-append (x ∷ xs) ys = ground (arith, reads_posted-append xs ys)

writes_posted-append :
    (xs ys : List Effect) → writes_posted (xs ++ ys) ≡ writes_posted xs + writes_posted ys
writes_posted-append [] ys = omega arith
writes_posted-append (x ∷ xs) ys = ground (arith, writes_posted-append xs ys)

steps-Answered :
    (es : List Event) (t : TcpTransport)
    → AreEnabled es t
    → let (u, effects) = steps es t in
      (reads_posted effects + open_reads u ≡ open_reads t + count_of reads_called es)
      × (writes_posted effects + open_writes u ≡ open_writes t + count_of writes_called es)
steps-Answered [] t h = (omega arith, omega arith)
steps-Answered (e ∷ es) t (h, hs) =
    let (r, w) = step-Answered e t h in
    let (rs, ws) = steps-Answered es (step e t).0 hs in
    (
      omega (arith, r, rs, reads_posted-append (step e t).1 (steps es (step e t).0).1),
      omega (arith, w, ws, writes_posted-append (step e t).1 (steps es (step e t).0).1),
    )

-- `close` waits only on a transport that is not open, and one whose threads were joined has nothing
-- to answer.
unfoldable pub IsTidy : TcpTransport → Type 0
IsTidy t =
    (t.closing ≡ true → t.is_open ≡ false)
    × (t.joined ≡ true → (t.is_open ≡ false) × (open_reads t ≡ 0) × (open_writes t ≡ 0))

pub step-IsTidy : (e : Event) (t : TcpTransport) → IsTidy t → IsTidy (step e t).0
unfolding step async_read async_write close finish_close IsTidy
step-IsTidy (Event.read_called handler) t p = ground (arith, p)
step-IsTidy (Event.write_called bytes handler) t p = ground (arith, p)
step-IsTidy Event.close_called t p = ground (arith, p)
step-IsTidy Event.close_finished t p = ground (arith, p)
step-IsTidy Event.read_wakes t p = ground (arith, p)
step-IsTidy Event.write_wakes t p = ground (arith, p)
step-IsTidy (Event.recv_returned result) t p = ground (arith, p)
step-IsTidy (Event.send_returned result) t p = ground (arith, p)

steps-IsTidy : (es : List Event) (t : TcpTransport) → IsTidy t → IsTidy (steps es t).0
steps-IsTidy [] t p = p
steps-IsTidy (e ∷ es) t p = steps-IsTidy es (step e t).0 (step-IsTidy e t p)

-- In every interleaving of the client and the two threads from a new transport, with one
-- outstanding read and one outstanding write at a time and no `recv` that fails after the close,
-- each read and each write is answered at most once: the handlers posted and those still to be
-- posted are together as many as the calls. When a close has joined the threads, all of them have
-- been posted.
pub steps-answered :
    (es : List Event)
    → AreEnabled es create
    → let (u, effects) = steps es create in
      (reads_posted effects + open_reads u ≡ count_of reads_called es)
      × (writes_posted effects + open_writes u ≡ count_of writes_called es)
      × (u.joined ≡ true
          → (reads_posted effects ≡ count_of reads_called es)
            × (writes_posted effects ≡ count_of writes_called es))
unfolding IsTidy
steps-answered es h =
    let (r, w) = steps-Answered es create h in
    let (_, tidy) = steps-IsTidy es create ((λ e. absurd (cc e)), (λ e. absurd (cc e))) in
    (
      omega (arith, r),
      omega (arith, w),
      λ j. (omega (arith, r, (tidy j).1), omega (arith, w, (tidy j).2)),
    )
