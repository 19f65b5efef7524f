-- ===== src/Usb/Answers.antt =====
-- Whom impl/android/transport/AndroidUsbTransport.cpp answers.
use aa_v.Base.{ℕ, suc, ◌+◌, ◌≡◌, true, false, Option, none, some, List, [], ◌∷◌, ◌++◌, arith}
use aa_v.Usb.{
  Effect, UsbTransport, BulkResult, Event, create, async_read, async_write, close, finish_close,
  step,
}

-- The reads and writes that the transport still has to answer.
abbrev pub present {ℓ} : {A : Type ℓ} → Option A → ℕ
present none = 0
present (some a) = 1

abbrev pub open_reads : UsbTransport → ℕ
open_reads t = present t.pending_read_handler

abbrev pub open_writes : UsbTransport → ℕ
open_writes t = present t.pending_write_handler

-- The handlers posted among some effects.
abbrev pub reads_posted : List Effect → ℕ
reads_posted [] = 0
reads_posted (Effect.read_posted handler c ∷ effects) = suc (reads_posted effects)
reads_posted (_ ∷ effects) = reads_posted effects

abbrev pub writes_posted : List Effect → ℕ
writes_posted [] = 0
writes_posted (Effect.write_posted handler c ∷ effects) = suc (writes_posted effects)
writes_posted (_ ∷ effects) = writes_posted effects

abbrev pub reads_called : Event → ℕ
reads_called (Event.read_called handler) = 1
reads_called _ = 0

abbrev pub writes_called : Event → ℕ
writes_called (Event.write_called bytes handler) = 1
writes_called _ = 0

-- ITransport.hpp allows one outstanding read and one outstanding write; and no transfer out fails
-- after the close.
abbrev pub IsEnabled : Event → UsbTransport → Type 0
IsEnabled (Event.read_called handler) t = open_reads t ≡ 0
IsEnabled (Event.write_called bytes handler) t = open_writes t ≡ 0
IsEnabled (Event.write_returned (BulkResult.bulk_failed e)) t = t.is_open ≡ true
IsEnabled _ t = Unit

abbrev Answered : Event → UsbTransport → UsbTransport × List Effect → Type 0
Answered e t (u, effects) =
    (reads_posted effects + open_reads u ≡ open_reads t + reads_called e)
    × (writes_posted effects + open_writes u ≡ open_writes t + writes_called e)

step-Answered : (e : Event) (t : UsbTransport) → IsEnabled e t → Answered e t (step e t)
unfolding step async_read async_write close finish_close
step-Answered (Event.read_called handler) t h = ground (arith, h)
step-Answered (Event.write_called bytes handler) t h = ground (arith, h)
step-Answered Event.close_called t h = ground arith
step-Answered Event.close_finished t h = ground arith
step-Answered Event.read_woken t h = ground arith
step-Answered Event.write_woken t h = ground arith
step-Answered (Event.read_returned result) t h = ground arith
step-Answered (Event.write_returned result) t h = ground (arith, h)

-- `close` waits only on a transport that is not open. One that is not open waits for its threads or
-- has joined them, and one that has is closed and has nothing to answer.
unfoldable IsTidy : UsbTransport → Type 0
IsTidy t =
    (t.closing ≡ true → t.is_open ≡ false)
    × (t.is_open ≡ false → t.closing ≡ false → t.joined ≡ true)
    × (t.joined ≡ true
        → (t.is_open ≡ false) × (t.fd_open ≡ false) × (open_reads t ≡ 0) × (open_writes t ≡ 0))

step-IsTidy : (e : Event) (t : UsbTransport) → IsTidy t → IsTidy (step e t).0
unfolding step async_read async_write close finish_close IsTidy
step-IsTidy (Event.read_called handler) t p = ground (arith, p)
step-IsTidy (Event.write_called bytes handler) t p = ground (arith, p)
step-IsTidy Event.close_called t p = ground (arith, p)
step-IsTidy Event.close_finished t p = ground (arith, p)
step-IsTidy Event.read_woken t p = ground (arith, p)
step-IsTidy Event.write_woken t p = ground (arith, p)
step-IsTidy (Event.read_returned result) t p = ground (arith, p)
step-IsTidy (Event.write_returned result) t p = ground (arith, p)

-- The runs from a new transport: the events so far and the effects.
pub data Run : List Event → List Effect → UsbTransport → Type 0 where
  fresh : Run [] [] create
  next :
      {es : List Event} {effects : List Effect} {t : UsbTransport}
      → Run es effects t
      → (e : Event) → IsEnabled e t
      → Run (e ∷ es) (effects ++ (step e t).1) (step e t).0

abbrev pub count_of : (Event → ℕ) → List Event → ℕ
count_of f [] = 0
count_of f (e ∷ es) = f e + count_of f es

reads_posted-append :
    (xs ys : List Effect) → reads_posted (xs ++ ys) ≡ reads_posted xs + reads_posted ys
reads_posted-append [] ys = omega arith
reads_posted-append (x ∷ xs) ys = ground (arith, reads_posted-append xs ys)

writes_posted-append :
    (xs ys : List Effect) → writes_posted (xs ++ ys) ≡ writes_posted xs + writes_posted ys
writes_posted-append [] ys = omega arith
writes_posted-append (x ∷ xs) ys = ground (arith, writes_posted-append xs ys)

Run-Answered :
    {es : List Event} {effects : List Effect} {t : UsbTransport}
    → Run es effects t
    → (reads_posted effects + open_reads t ≡ count_of reads_called es)
      × (writes_posted effects + open_writes t ≡ count_of writes_called es)
      × IsTidy t
unfolding IsTidy
Run-Answered Run.fresh = ground arith
Run-Answered (Run.next {es} {effects} {t} run e enabled) =
    let (reads, writes, tidy) = Run-Answered run in
    let (r, w) = step-Answered e t enabled in
    (
      omega (arith, reads, r, reads_posted-append effects (step e t).1),
      omega (arith, writes, w, writes_posted-append effects (step e t).1),
      step-IsTidy e t tidy,
    )

-- In every interleaving of the client and the two threads from a new transport, with one
-- outstanding read and one outstanding write at a time and no transfer out that fails after the
-- close: each read and each write is answered at most once, and the handlers posted and those still
-- pending are together as many as the calls. When the transport is not open and no close waits for
-- the threads, the close has been completed: the device is closed, and every handler has been
-- posted.
pub Run-answered :
    {es : List Event} {effects : List Effect} {t : UsbTransport}
    → Run es effects t
    → (reads_posted effects + open_reads t ≡ count_of reads_called es)
      × (writes_posted effects + open_writes t ≡ count_of writes_called es)
      × (t.is_open ≡ false
          → t.closing ≡ false
          → (t.fd_open ≡ false)
            × (reads_posted effects ≡ count_of reads_called es)
            × (writes_posted effects ≡ count_of writes_called es))
unfolding IsTidy
Run-answered run =
    let (reads, writes, (waits, closed, joined)) = Run-Answered run in
    (
      reads,
      writes,
      λ o c.
          let (_, device, r, w) = joined (closed o c) in
          (device, omega (arith, reads, r), omega (arith, writes, w)),
    )
