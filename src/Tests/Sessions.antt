-- ===== src/Tests/Sessions.antt =====
-- core/src/session/Session.cpp with the pass-through strategy and services that count their calls.
use aa_v.Base.{ℕ, ◌+◌, ◌≡◌, refl, Bool, true, Option, none, some, [], ◌∷◌, arith}
use aa_v.Service.{IService, Program, ServiceType}
use aa_v.Session.{
  Session, SessionState, Effect, is_terminal, default_config, create, register_services,
}
use aa_v.Session.Handlers.{Event, step}
use aa_v.Session.Runs.{Run}
use aa_v.Session.Queue.{IsQueue}
use aa_v.Session.Writes.{step-IsQueue}
use aa_v.Session.Timers.{IsTimed, step-IsTimed}
use aa_v.Session.Closed.{IsClosed, step-IsClosed}
use aa_v.Session.Closing.{step-terminal}
use aa_v.Session.Ends.{IsExpiry, timeout_lem}
use aa_v.Session.Fresh.{IsSound, Run-create}
use aa_v.Tests.Delivery.{mock_crypto}

-- A service whose field counts its messages; it answers each with message 7, and says bye-bye on a
-- stop.
abbrev pub counter : IService ℕ
counter = record {
  on_message =
      λ t payload. Program.get (λ n. Program.put (n + 1) (Program.send 0 7 payload Program.done));
  on_channel_close = λ n. 0;
  on_session_stop = Program.send 0 15 (8 ∷ 1 ∷ []) Program.done;
  set_native_window = λ w. Program.done;
  send_touch = λ x y a. Program.done;
  send_media_key = λ k. Program.done;
  release_audio_focus = Program.done;
  gain_audio_focus = Program.done;
  set_video_focus = λ b. Program.done;
  attach_sinks = Program.done;
  detach_sinks = Program.done;
  type = λ n. ServiceType.control;
  send_pairing_response = λ s p. Program.done;
  send_auth_result = λ s. Program.done;
}

abbrev fresh : Session Bool ℕ
fresh = register_services ((0, 5) ∷ []) (create (default_config 1) true true)

abbrev in_state : SessionState → Option ℕ → Session Bool ℕ
in_state st t = record fresh { state = st; timer = t }

-- The handshake's start, and the phone's version 1.7.
abbrev opening : Run mock_crypto counter [] fresh (
    step mock_crypto counter []
      (Event.read_done (0 ∷ 3 ∷ 0 ∷ 8 ∷ 0 ∷ 2 ∷ 0 ∷ 1 ∷ 0 ∷ 7 ∷ 0 ∷ 0 ∷ []))
      (step mock_crypto counter [] Event.start fresh))
opening = Run.next (Run.next Run.here Event.start tt) (Event.read_done _) tt

Run-create_example : IsSound (
    step mock_crypto counter []
      (Event.read_done (0 ∷ 3 ∷ 0 ∷ 8 ∷ 0 ∷ 2 ∷ 0 ∷ 1 ∷ 0 ∷ 7 ∷ 0 ∷ 0 ∷ []))
      (step mock_crypto counter [] Event.start fresh))
Run-create_example =
    Run-create mock_crypto counter [] (default_config 1) true true ((0, 5) ∷ []) _ opening

busy : Session Bool ℕ
busy = record fresh {
  state = SessionState.running;
  write_queue = (1 ∷ []) ∷ (2 ∷ []) ∷ [];
  write_in_progress = true;
  effects = Effect.queued (1 ∷ []) ∷ Effect.async_write (1 ∷ []) ∷ Effect.queued (2 ∷ []) ∷ [];
}

step-IsQueue_example : IsQueue (step mock_crypto counter [] Event.write_done busy)
unfolding busy IsQueue
step-IsQueue_example =
    step-IsQueue counter mock_crypto [] Event.write_done busy refl (omega arith, refl, refl)

step-IsTimed_example :
    IsTimed (step mock_crypto counter [] Event.stop (in_state SessionState.running none))
unfolding IsTimed
step-IsTimed_example =
    step-IsTimed mock_crypto counter [] Event.stop (in_state SessionState.running none) tt refl

step-IsClosed_example :
    IsClosed (step mock_crypto counter [] Event.read_failed (in_state SessionState.running none))
unfolding IsClosed
step-IsClosed_example =
    step-IsClosed mock_crypto counter [] Event.read_failed (in_state SessionState.running none) tt
      tt

step-terminal_example :
    (step mock_crypto counter []
      (Event.read_done (0 ∷ 3 ∷ 0 ∷ 2 ∷ 0 ∷ 2 ∷ []))
      (in_state SessionState.error none)).state
    ≡ SessionState.error
unfolding is_terminal
step-terminal_example =
    step-terminal mock_crypto counter [] (Event.read_done (0 ∷ 3 ∷ 0 ∷ 2 ∷ 0 ∷ 2 ∷ []))
      (in_state SessionState.error none) refl refl

timeout_lem_example :
    IsExpiry mock_crypto counter [] SessionState.ssl_handshake
      (in_state SessionState.ssl_handshake (some 10000))
      (step mock_crypto counter [] Event.timeout (in_state SessionState.ssl_handshake (some 10000)))
timeout_lem_example =
    timeout_lem mock_crypto counter [] (in_state SessionState.ssl_handshake (some 10000))
