-- ===== src/Services/Control/Once.antt =====
-- When core/src/service/ControlService.cpp asks its session to stop.
use aa_v.Base.{ℕ, ◌≤◌, ◌+◌, ◌≡◌, Bool, true, false, not, ◌&&◌, List, [], ◌∷◌, ◌++◌, arith}
use aa_v.Services.{Call, exec, send}
use aa_v.Services.Control.{
  ControlMessages, ControlService, trigger_session_close, send_ping, check_pong, on_heartbeat_timer,
}
use aa_v.Services.Control.Closing.{stops, count, Input, is_opening, method, method-IsOnce, serve}

stops-append : (xs ys : List Call) → stops (xs ++ ys) ≡ stops xs + stops ys
stops-append [] ys = omega arith
stops-append (Call.stop_requested ∷ xs) ys = omega (arith, stops-append xs ys)
stops-append (Call.sent channel_id message_type payload ∷ xs) ys = stops-append xs ys

and-true : (a b : Bool) → (a && b) ≡ true → (a ≡ true) × (b ≡ true)
and-true a b h = ground arith

not-true : (a : Bool) → not a ≡ true → a ≡ false
not-true a h = ground arith

abbrev pub none_opens : List Input → Bool
none_opens [] = true
none_opens (i ∷ is) = not (is_opening i) && none_opens is

module _ (messages : ControlMessages) where
  -- Until its channel is opened again, the service calls the session close callback, if it has one,
  -- once when a close is first triggered, and never again, whatever messages, heartbeats and
  -- requests follow each other.
  pub serve-stops :
      (is : List Input) (v : ControlService)
      → none_opens is ≡ true
      → let (w, calls) = serve messages is v in
        stops calls + count (v.close_triggered && v.has_close_callback)
        ≡ count (w.close_triggered && v.has_close_callback)
  serve-stops [] v h = omega arith
  serve-stops (i ∷ is) v h =
      let w = (exec (method messages i) v).0 in
      ground (
        arith,
        method-IsOnce messages i
            (not-true (is_opening i) (and-true (not (is_opening i)) (none_opens is) h).0) v,
        serve-stops is w (and-true (not (is_opening i)) (none_opens is) h).1,
        stops-append (exec (method messages i) v).1 (serve messages is w).1,
      )

  -- The phone answers nothing from the moment the channel's last pong came: a clock advance of at
  -- least the ping interval before each of three heartbeats.
  abbrev pub silence : ℕ → ℕ → ℕ → List Input
  silence a b c =
      Input.clock a
      ∷ Input.heartbeat
      ∷ Input.clock b
      ∷ Input.heartbeat
      ∷ Input.clock c
      ∷ Input.heartbeat
      ∷ []

  -- A service that is running, has a close callback, triggered no close and last heard a pong now
  -- asks its session to stop, once, by the third heartbeat, when at least five seconds pass before
  -- each and no pong comes.
  pub silence-stops :
      (a b c : ℕ) (v : ControlService)
      → v.running ≡ true
      → v.close_triggered ≡ false
      → v.has_close_callback ≡ true
      → v.last_pong_ns ≡ v.now_ns
      → 5000000000 ≤ a
      → 5000000000 ≤ b
      → 5000000000 ≤ c
      → stops (serve messages (silence a b c) v).1 ≡ 1
  unfolding exec on_heartbeat_timer send_ping check_pong send trigger_session_close
  silence-stops a b c v on fresh given heard ha hb hc = ground arith
