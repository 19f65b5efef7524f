-- ===== src/Services/Control/Closing.antt =====
-- The close that core/src/service/ControlService.cpp requests of its session.
use aa_v.Base.{
  ℕ, suc, ◌+◌, ◌≡◌, Bool, true, false, ◌&&◌, Option, none, some, List, [], ◌∷◌, ◌++◌, Bytes, ◌==◌,
  if_elim, arith,
}
use aa_v.Protocol.{ControlMessageType, control_code}
use aa_v.Service.{Program}
use aa_v.Services.{Call, exec, send, handle, on_message}
use aa_v.Services.Control.{
  ControlMessages, ControlService, AudioFocusStateType, AudioFocusRequestType, channel_of,
  trigger_session_close, note_pong, identify, send_service_discovery_response,
  on_service_discovery_request, notify_audio_focus, on_audio_focus_request, on_ping_request,
  on_bye_bye_request, handlers, on_control_message, release_audio_focus, gain_audio_focus,
  send_ping, check_pong, on_heartbeat_timer, on_session_stop,
}

-- The session close callback's calls.
abbrev pub stops : List Call → ℕ
stops [] = 0
stops (Call.stop_requested ∷ calls) = suc (stops calls)
stops (Call.sent channel_id message_type payload ∷ calls) = stops calls

abbrev pub count : Bool → ℕ
count true = 1
count false = 0

-- A method that requests a close exactly if it marks one.
abbrev IsOnce : Program ControlService → Type 0
IsOnce program =
    (v : ControlService)
    → ((exec program v).0.has_close_callback ≡ v.has_close_callback)
      × (stops (exec program v).1 + count (v.close_triggered && v.has_close_callback)
          ≡ count ((exec program v).0.close_triggered && v.has_close_callback))

trigger-IsOnce : IsOnce trigger_session_close
unfolding trigger_session_close exec
trigger-IsOnce v = ground arith

-- What reaches the service while its channel is open.
pub data Input : Type 0 where
  message : ℕ → Bytes → Input
  heartbeat session_stop focus_released focus_gained : Input
  clock : ℕ → Input

abbrev pub is_opening : Input → Bool
is_opening (Input.message t payload) = t == control_code ControlMessageType.channel_open_request
is_opening _ = false

module _ (messages : ControlMessages) where
  heartbeat-IsOnce : IsOnce (on_heartbeat_timer messages)
  unfolding on_heartbeat_timer send_ping check_pong send trigger_session_close exec
  heartbeat-IsOnce v = ground arith

  discovery-IsOnce : (o : Option Bytes) → IsOnce (on_service_discovery_request messages o)
  unfolding on_service_discovery_request identify send_service_discovery_response send exec
  discovery-IsOnce none v = ground arith
  discovery-IsOnce (some name) v = ground arith

  focus-IsOnce : (o : Option AudioFocusRequestType) → IsOnce (on_audio_focus_request messages o)
  unfolding on_audio_focus_request notify_audio_focus send exec
  focus-IsOnce none v = ground arith
  focus-IsOnce (some t) v = ground arith

  ping-IsOnce : (o : Option ℕ) → IsOnce (on_ping_request messages o)
  unfolding on_ping_request send exec
  ping-IsOnce none v = ground arith
  ping-IsOnce (some t) v = ground arith

  bye-IsOnce : IsOnce on_bye_bye_request
  unfolding on_bye_bye_request send trigger_session_close exec
  bye-IsOnce v = ground arith

  pong-IsOnce : IsOnce note_pong
  unfolding note_pong exec
  pong-IsOnce v = ground arith

  clock-IsOnce :
      (ns : ℕ)
      → IsOnce (Program.get (λ v. Program.put (record v { now_ns = v.now_ns + ns }) Program.done))
  unfolding exec
  clock-IsOnce ns v = ground arith

  nav-IsOnce :
      (t : ControlMessageType) (payload : Bytes) → IsOnce (send channel_of t payload Program.done)
  unfolding send exec
  nav-IsOnce t payload v = ground arith

  none-IsOnce : IsOnce Program.done
  unfolding exec
  none-IsOnce v = ground arith

  handlers-IsOnce :
      (t : ℕ) (payload : Bytes) → IsOnce (handle channel_of (handlers messages t) payload)
  unfolding handlers handle
  handlers-IsOnce t payload =
      if_elim Fine (t == code ControlMessageType.service_discovery_request) _ _
        (λ e. discovery-IsOnce (messages.parse_service_discovery_request payload))
        (λ e.
          if_elim Fine (t == code ControlMessageType.audio_focus_request) _ _
            (λ e. focus-IsOnce (messages.parse_audio_focus_request payload))
            (λ e.
              if_elim Fine (t == code ControlMessageType.nav_focus_request) _ _
                (λ e.
                  nav-IsOnce ControlMessageType.nav_focus_notification
                    messages.serialized_nav_focus_projected)
                (λ e.
                  if_elim Fine (t == code ControlMessageType.ping_request) _ _
                    (λ e. ping-IsOnce (messages.parse_ping_request payload))
                    (λ e.
                      if_elim Fine (t == code ControlMessageType.ping_response) _ _
                        (λ e. pong-IsOnce)
                        (λ e.
                          if_elim Fine (t == code ControlMessageType.bye_bye_request) _ _
                            (λ e. bye-IsOnce)
                            (λ e.
                              if_elim Fine (t == code ControlMessageType.bye_bye_response) _ none
                                (λ e. trigger-IsOnce) (λ e. none-IsOnce)))))))
    where
      code : ControlMessageType → ℕ
      code = control_code

      Fine : Option (Bytes → Program ControlService) → Type 0
      Fine o = IsOnce (handle channel_of o payload)

  message-IsOnce :
      (t : ℕ) (payload : Bytes)
      → (t == control_code ControlMessageType.channel_open_request) ≡ false
      → IsOnce (on_control_message messages t payload)
  unfolding on_control_message on_message
  message-IsOnce t payload h =
      if_elim IsOnce (t == control_code ControlMessageType.channel_open_request) _
        (handle channel_of (handlers messages t) payload) (λ e. absurd (cc))
        (λ e. handlers-IsOnce t payload)

  abbrev pub method : Input → Program ControlService
  method (Input.message t payload) = on_control_message messages t payload
  method Input.heartbeat = on_heartbeat_timer messages
  method Input.session_stop = on_session_stop messages
  method Input.focus_released = release_audio_focus messages
  method Input.focus_gained = gain_audio_focus messages
  method (Input.clock ns) =
      Program.get (λ v. Program.put (record v { now_ns = v.now_ns + ns }) Program.done)

  pub method-IsOnce : (i : Input) → is_opening i ≡ false → IsOnce (method i)
  unfolding on_session_stop release_audio_focus gain_audio_focus notify_audio_focus
  method-IsOnce (Input.message t payload) h = message-IsOnce t payload h
  method-IsOnce Input.heartbeat h = heartbeat-IsOnce
  method-IsOnce Input.session_stop h =
      nav-IsOnce ControlMessageType.bye_bye_request messages.serialized_bye_bye_request
  method-IsOnce Input.focus_released h =
      nav-IsOnce ControlMessageType.audio_focus_notification
        (messages.serialize_audio_focus_notification AudioFocusStateType.state_loss true)
  method-IsOnce Input.focus_gained h =
      nav-IsOnce ControlMessageType.audio_focus_notification
        (messages.serialize_audio_focus_notification AudioFocusStateType.state_gain true)
  method-IsOnce (Input.clock ns) h = clock-IsOnce ns

  abbrev pub serve : List Input → ControlService → ControlService × List Call
  serve [] v = (v, [])
  serve (i ∷ is) v =
      let (w, calls) = exec (method i) v in let (u, more) = serve is w in (u, calls ++ more)
