-- ===== src/Tcp/Abandoned.antt =====
-- impl/android/transport/AndroidTcpTransport.cpp after its peer has closed the connection.
use aa_v.Base.{ℕ, ◌≡◌, refl, ◌∙◌, false, List, [], ◌∷◌, arith}
use aa_v.Tcp.{
  ReadThread, TcpTransport, RecvResult, Event, async_read, async_write, close, finish_close, step,
  steps,
}

-- Not open, although `close` has not run.
unfoldable pub IsAbandoned : TcpTransport → Type 0
IsAbandoned t = (t.is_open ≡ false) × (t.closing ≡ false) × (t.joined ≡ false)

-- What stays as it is.
abbrev Stays : TcpTransport → TcpTransport → Type 0
Stays t u =
    IsAbandoned u
    × (u.fd_open ≡ t.fd_open)
    × (u.pending_read ≡ t.pending_read)
    × (u.pending_write ≡ t.pending_write)

step-Stays : (e : Event) (t : TcpTransport) → IsAbandoned t → Stays t (step e t).0
unfolding step async_read async_write close finish_close IsAbandoned
step-Stays (Event.read_called handler) t h = ground (arith, h)
step-Stays (Event.write_called bytes handler) t h = ground (arith, h)
step-Stays Event.close_called t h = ground (arith, h)
step-Stays Event.close_finished t h = ground (arith, h)
step-Stays Event.read_wakes t h = ground (arith, h)
step-Stays Event.write_wakes t h = ground (arith, h)
step-Stays (Event.recv_returned result) t h = ground (arith, h)
step-Stays (Event.send_returned result) t h = ground (arith, h)

steps-Stays : (es : List Event) (t : TcpTransport) → IsAbandoned t → Stays t (steps es t).0
steps-Stays [] t h = (h, refl, refl, refl)
steps-Stays (e ∷ es) t h =
    let (abandoned, fd, read, write) = step-Stays e t h in
    let (still, fds, reads, writes) = steps-Stays es (step e t).0 abandoned in
    (still, fds ∙ fd, reads ∙ read, writes ∙ write)

at_eof :
    (handler : ℕ) (t : TcpTransport)
    → t.read_thread ≡ ReadThread.receiving handler
    → t.closing ≡ false
    → t.joined ≡ false
    → Stays t (step (Event.recv_returned RecvResult.peer_closed) t).0
unfolding step IsAbandoned
at_eof handler t e c j = ground (arith, e, c, j)

-- When the peer ends the stream of a transport that no close has reached, the transport is not open
-- from then on, and no later events, a close among them, close the socket or join the threads; a
-- pending read or write stays pending, so its handler is not posted.
pub peer_closed-Stays :
    (handler : ℕ) (es : List Event) (t : TcpTransport)
    → t.read_thread ≡ ReadThread.receiving handler
    → t.closing ≡ false
    → t.joined ≡ false
    → let u = (steps (Event.recv_returned RecvResult.peer_closed ∷ es) t).0 in
      (u.is_open ≡ false)
      × (u.fd_open ≡ t.fd_open)
      × (u.joined ≡ false)
      × (u.pending_read ≡ t.pending_read)
      × (u.pending_write ≡ t.pending_write)
unfolding IsAbandoned
peer_closed-Stays handler es t e c j =
    let v = (step (Event.recv_returned RecvResult.peer_closed) t).0 in
    let (abandoned, fd, read, write) = at_eof handler t e c j in
    let (still, fds, reads, writes) = steps-Stays es v abandoned in
    (still.0, fds ∙ fd, still.2, reads ∙ read, writes ∙ write)
