-- ===== src/Tests/Devices.antt =====
-- impl/android/transport/AndroidUsbTransport.cpp with a read that times out, a write, and a close.
use aa_v.Base.{◌+◌, ◌≡◌, refl, false, List, [], ◌∷◌, ◌++◌}
use aa_v.Usb.{
  Effect, UsbTransport, BulkResult, Event, create, async_read, async_write, close, finish_close,
  step,
}
use aa_v.Usb.Answers.{open_reads, open_writes, reads_posted, writes_posted, Run, Run-answered}

abbrev events : List Event
events =
    Event.close_finished
    ∷ Event.write_woken
    ∷ Event.read_woken
    ∷ Event.close_called
    ∷ Event.write_returned (BulkResult.bulk_done 2)
    ∷ Event.write_woken
    ∷ Event.write_woken
    ∷ Event.read_returned (BulkResult.bulk_failed 110)
    ∷ Event.read_woken
    ∷ Event.write_called (7 ∷ 8 ∷ []) 2
    ∷ Event.read_called 1
    ∷ []

abbrev run_of : List Event → UsbTransport × List Effect
run_of [] = (create, [])
run_of (e ∷ es) = let (t, effects) = run_of es in let (u, more) = step e t in (u, effects ++ more)

-- The read is answered by the close, the write by its transfer.
closed_run : Run events (run_of events).1 (run_of events).0
unfolding step async_read async_write close finish_close
closed_run =
    Run.next
      (Run.next
        (Run.next
          (Run.next
            (Run.next
              (Run.next
                (Run.next
                  (Run.next
                    (Run.next
                      (Run.next (Run.next Run.fresh (Event.read_called 1) refl)
                        (Event.write_called (7 ∷ 8 ∷ []) 2) refl)
                      Event.read_woken tt)
                    (Event.read_returned (BulkResult.bulk_failed 110)) tt)
                  Event.write_woken tt)
                Event.write_woken tt)
              (Event.write_returned (BulkResult.bulk_done 2)) tt)
            Event.close_called tt)
          Event.read_woken tt)
        Event.write_woken tt)
      Event.close_finished tt

Run-answered_example :
    let (t, effects) = run_of events in
    (reads_posted effects + open_reads t ≡ 1)
    × (writes_posted effects + open_writes t ≡ 1)
    × (t.is_open ≡ false
        → t.closing ≡ false
        → (t.fd_open ≡ false) × (reads_posted effects ≡ 1) × (writes_posted effects ≡ 1))
Run-answered_example = Run-answered closed_run
