-- ===== src/Services/Control/Goodbye.antt =====
-- A disconnect that core/src/session/Session.cpp and core/src/service/ControlService.cpp go through
-- together.
use aa_v.Base.{◌≡◌, ap, ◌∙◌, true, false, some, [], ◌∷◌, ◌++◌, Bytes, arith}
use aa_v.Base.Assoc.{find, insert}
use aa_v.Protocol.{ControlMessageType, control_code, control_channel_id}
use aa_v.Crypto.{CryptoStrategy}
use aa_v.Framer.{AapMessage}
use aa_v.Service.{IService, Program, ServiceType}
use aa_v.Services.{handle, on_message}
use aa_v.Services.Control.{
  ControlMessages, ControlService, trigger_session_close, on_channel_close, on_control_message,
  handlers, on_session_stop, release_audio_focus, gain_audio_focus,
}
use aa_v.Session.{Session, SessionState, Effect, is_terminal}
use aa_v.Session.Handlers.{Event, is_running, is_handshake_state, dispatch_decrypted, run, step}
use aa_v.Session.Ends.{IsFailure, stop-error}

-- The control service as a session sees it.
unfoldable pub control_service : ControlMessages → IService ControlService
control_service messages = record {
  on_message = on_control_message messages;
  on_channel_close = on_channel_close;
  on_session_stop = on_session_stop messages;
  set_native_window = λ window. Program.done;
  send_touch = λ x y action. Program.done;
  send_media_key = λ keycode. Program.done;
  release_audio_focus = release_audio_focus messages;
  gain_audio_focus = gain_audio_focus messages;
  set_video_focus = λ projected. Program.done;
  attach_sinks = Program.done;
  detach_sinks = Program.done;
  type = λ v. ServiceType.control;
  send_pairing_response = λ status already_paired. Program.done;
  send_auth_result = λ status. Program.done;
}

module _ {C : Type 0} (strategy : CryptoStrategy C) (messages : ControlMessages)
    (auth : Bytes) where
  unfoldable pub bye_bye_response : Bytes → AapMessage
  bye_bye_response payload = record {
    channel_id = control_channel_id;
    message_type = control_code ControlMessageType.bye_bye_response;
    payload = payload;
  }

  answered :
      (payload : Bytes) (s : Session C ControlService) (v : ControlService)
      → s.state ≡ SessionState.disconnecting
      → find control_channel_id s.services ≡ some v
      → v.close_triggered ≡ false
      → v.has_close_callback ≡ true
      → dispatch_decrypted strategy (control_service messages) auth (bye_bye_response payload) s
        ≡ record s {
          services = insert control_channel_id (record v { close_triggered = true }) s.services;
          effects = s.effects ++ Effect.post_stop ∷ [];
        }
  unfolding dispatch_decrypted control_service on_control_message on_message handlers handle
      trigger_session_close run is_handshake_state bye_bye_response
  answered payload s v leaving found fresh given = ground (arith, leaving, found, fresh, given)

  -- When a session waits for the phone's answer to its bye-bye, the answer makes the control
  -- service, if it has a close callback and triggered no close before, request a stop, and that
  -- stop fails the session: it ends in the error state, not in the disconnected one.
  pub bye_bye_response-fails :
      (payload : Bytes) (s : Session C ControlService) (v : ControlService)
      → s.state ≡ SessionState.disconnecting
      → find control_channel_id s.services ≡ some v
      → v.close_triggered ≡ false
      → v.has_close_callback ≡ true
      → let t =
          dispatch_decrypted strategy
            (control_service messages)
            auth
            (bye_bye_response payload)
            s in
        (t.effects ≡ s.effects ++ Effect.post_stop ∷ [])
        × IsFailure
            (control_service messages)
            t
            (step strategy (control_service messages) auth Event.stop t)
  unfolding is_terminal is_running
  bye_bye_response-fails payload s v leaving found fresh given =
      let same = answered payload s v leaving found fresh given in
      let at = ap (λ (t : Session C ControlService). t.state) same ∙ leaving in
      (
        ap (λ (t : Session C ControlService). t.effects) same,
        stop-error strategy (control_service messages) auth
            (dispatch_decrypted strategy (control_service messages) auth (bye_bye_response payload)
              s)
            (ap is_terminal at) (ap is_running at),
      )
