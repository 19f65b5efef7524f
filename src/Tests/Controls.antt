-- ===== src/Tests/Controls.antt =====
-- core/src/service/ControlService.cpp with messages of one byte.
use aa_v.Base.{◌≡◌, refl, Bool, true, false, ◌&&◌, some, List, [], ◌∷◌, ◌+◌, arith}
use aa_v.Base.Assoc.{find}
use aa_v.Session.{Session, SessionState, Effect, default_config, create}
use aa_v.Session.Handlers.{Event, dispatch_decrypted, step}
use aa_v.Session.Ends.{IsFailure}
use aa_v.Services.Control.{AudioFocusRequestType, ControlMessages, ControlService}
use aa_v.Services.Control.Closing.{Input, stops, count, serve}
use aa_v.Services.Control.Once.{serve-stops, silence, silence-stops}
use aa_v.Services.Control.Goodbye.{control_service, bye_bye_response, bye_bye_response-fails}
use aa_v.Tests.Delivery.{mock_crypto}

abbrev pub messages : ControlMessages
messages = record {
  parse_service_discovery_request = λ payload. some payload;
  serialized_service_discovery_response = 1 ∷ [];
  parse_audio_focus_request = λ payload. some AudioFocusRequestType.gain;
  serialize_audio_focus_notification = λ focus unsolicited. 2 ∷ [];
  serialized_nav_focus_projected = 3 ∷ [];
  parse_ping_request = λ payload. some 4;
  serialize_ping_response = λ timestamp. timestamp ∷ [];
  serialize_ping_request = λ timestamp. timestamp ∷ [];
  serialized_bye_bye_request = 8 ∷ 1 ∷ [];
}

-- A service whose channel was opened at second 1.
abbrev opened : ControlService
opened = record {
  channel_id = 0;
  has_close_callback = true;
  now_ns = 1000000000;
  heartbeat_timer = some 5000;
  running = true;
  last_pong_ns = 1000000000;
  close_triggered = false;
  identified = [];
}

-- Both sides say bye-bye.
abbrev goodbyes : List Input
goodbyes = Input.message 15 [] ∷ Input.session_stop ∷ Input.message 16 [] ∷ []

serve-stops_example :
    stops (serve messages goodbyes opened).1 + 0
    ≡ count ((serve messages goodbyes opened).0.close_triggered && true)
serve-stops_example = serve-stops messages goodbyes opened refl

silence-stops_example :
    stops (serve messages (silence messages 5000000000 5000000000 5000000000) opened).1 ≡ 1
silence-stops_example =
    silence-stops messages 5000000000 5000000000 5000000000 opened refl refl refl refl (omega arith)
      (omega arith) (omega arith)

abbrev leaving : Session Bool ControlService
leaving = record (create (default_config 1) true true) {
  state = SessionState.disconnecting;
  services = (0, opened) ∷ [];
  timer = some 3000;
}

bye_bye_response-fails_example :
    let t =
      dispatch_decrypted mock_crypto
        (control_service messages)
        []
        (bye_bye_response mock_crypto messages [] [])
        leaving in
    (t.effects ≡ Effect.post_stop ∷ [])
    × IsFailure
        (control_service messages)
        t
        (step mock_crypto (control_service messages) [] Event.stop t)
unfolding find
bye_bye_response-fails_example =
    bye_bye_response-fails mock_crypto messages [] [] leaving opened refl refl refl refl
