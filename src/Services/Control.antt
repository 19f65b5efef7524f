-- ===== src/Services/Control.antt =====
-- core/include/aauto/service/ControlService.hpp and core/src/service/ControlService.cpp: the
-- control channel's service, with its heartbeat.
pub mod Closing
pub mod Once
pub mod Goodbye
use aa_v.Base.{
  ℕ, ◌-◌, ◌/◌, Bool, true, false, Option, none, some, List, [], ◌∷◌, Bytes, ltb, ◌==◌,
  if◌then◌else◌,
}
use aa_v.Protocol.{ControlMessageType, control_code}
use aa_v.Service.{Program}
use aa_v.Services.{send, on_message}

-- The generated enumerations that the code names. An `other` value stands for the rest.
pub data AudioFocusRequestType : Type 0 where
  gain gain_transient gain_transient_may_duck release : AudioFocusRequestType
  other : ℕ → AudioFocusRequestType

pub data AudioFocusStateType : Type 0 where
  state_gain state_gain_transient state_loss state_gain_transient_guidance_only :
      AudioFocusStateType

-- What generated code reads and writes: `none` where ParseFromArray fails. A discovery request is
-- read as its device name, which is `unknown` where it has none.
pub record ControlMessages : Type 0 where
  pub parse_service_discovery_request : Bytes → Option Bytes
  pub serialized_service_discovery_response : Bytes
  pub parse_audio_focus_request : Bytes → Option AudioFocusRequestType
  pub serialize_audio_focus_notification : AudioFocusStateType → Bool → Bytes
  pub serialized_nav_focus_projected : Bytes
  pub parse_ping_request : Bytes → Option ℕ
  pub serialize_ping_response : ℕ → Bytes
  pub serialize_ping_request : ℕ → Bytes
  pub serialized_bye_bye_request : Bytes

-- `now_ns` is what the steady clock reads; time passes between events. `heartbeat_timer` is the
-- delay of the timer while it waits. `identified` lists the calls of the phone identified callback,
-- the last first; the engine always gives one.
pub record ControlService : Type 0 where
  pub channel_id : ℕ
  pub has_close_callback : Bool
  pub now_ns : ℕ
  pub heartbeat_timer : Option ℕ
  pub running : Bool
  pub last_pong_ns : ℕ
  pub close_triggered : Bool
  pub identified : List Bytes

abbrev pub ping_interval_ms : ℕ
ping_interval_ms = 5000

abbrev pub ping_timeout_ms : ℕ
ping_timeout_ms = 10000

abbrev pub channel_of : ControlService → ℕ
channel_of v = v.channel_id

abbrev pub audio_focus_state : AudioFocusRequestType → AudioFocusStateType
audio_focus_state AudioFocusRequestType.gain = AudioFocusStateType.state_gain
audio_focus_state AudioFocusRequestType.gain_transient = AudioFocusStateType.state_gain_transient
audio_focus_state AudioFocusRequestType.gain_transient_may_duck =
    AudioFocusStateType.state_gain_transient_guidance_only
audio_focus_state AudioFocusRequestType.release = AudioFocusStateType.state_loss
audio_focus_state (AudioFocusRequestType.other t) = AudioFocusStateType.state_gain

unfoldable pub trigger_session_close : Program ControlService
trigger_session_close = Program.get (λ v.
    if v.close_triggered
    then Program.done
    else Program.put (record v { close_triggered = true })
        (if v.has_close_callback then Program.request_stop Program.done else Program.done))

unfoldable pub on_channel_open : ℕ → Program ControlService
on_channel_open channel_id = Program.get (λ v.
    Program.put
      (record v {
        channel_id = channel_id;
        last_pong_ns = v.now_ns;
        close_triggered = false;
        running = true;
        heartbeat_timer = some ping_interval_ms;
      })
      Program.done)

-- `cancel()` is the timer's end.
unfoldable pub on_channel_close : ControlService → ControlService
on_channel_close v = record v { running = false; heartbeat_timer = none; channel_id = 0 }

unfoldable pub note_pong : Program ControlService
note_pong = Program.get (λ v. Program.put (record v { last_pong_ns = v.now_ns }) Program.done)

unfoldable pub identify : Bytes → Program ControlService → Program ControlService
identify phone_name rest =
    Program.get (λ v. Program.put (record v { identified = phone_name ∷ v.identified }) rest)

unfoldable pub on_bye_bye_request : Program ControlService
unfolding send trigger_session_close
on_bye_bye_request = send channel_of ControlMessageType.bye_bye_response [] trigger_session_close

module _ (messages : ControlMessages) where
  unfoldable pub send_service_discovery_response : Program ControlService
  unfolding send
  send_service_discovery_response =
      send channel_of ControlMessageType.service_discovery_response
        messages.serialized_service_discovery_response Program.done

  unfoldable pub on_service_discovery_request : Option Bytes → Program ControlService
  unfolding identify send_service_discovery_response
  on_service_discovery_request (some phone_name) =
      identify phone_name send_service_discovery_response
  on_service_discovery_request none = send_service_discovery_response

  unfoldable pub notify_audio_focus : AudioFocusStateType → Bool → Program ControlService
  unfolding send
  notify_audio_focus focus_state unsolicited =
      send channel_of ControlMessageType.audio_focus_notification
        (messages.serialize_audio_focus_notification focus_state unsolicited) Program.done

  unfoldable pub on_audio_focus_request : Option AudioFocusRequestType → Program ControlService
  unfolding notify_audio_focus
  on_audio_focus_request none = Program.done
  on_audio_focus_request (some request_type) =
      notify_audio_focus (audio_focus_state request_type) false

  unfoldable pub on_ping_request : Option ℕ → Program ControlService
  unfolding send
  on_ping_request none = Program.done
  on_ping_request (some timestamp) =
      send channel_of ControlMessageType.ping_response (messages.serialize_ping_response timestamp)
        Program.done

  -- The handlers that the constructor registers, but those that only write to the log.
  unfoldable pub handlers : ℕ → Option (Bytes → Program ControlService)
  unfolding on_service_discovery_request on_audio_focus_request on_ping_request note_pong
      on_bye_bye_request trigger_session_close send
  handlers t =
      if t == control_code ControlMessageType.service_discovery_request
      then some (λ payload.
        on_service_discovery_request (messages.parse_service_discovery_request payload))
      else if t == control_code ControlMessageType.audio_focus_request
      then some (λ payload. on_audio_focus_request (messages.parse_audio_focus_request payload))
      else if t == control_code ControlMessageType.nav_focus_request
      then some (λ payload.
        send channel_of ControlMessageType.nav_focus_notification
          messages.serialized_nav_focus_projected Program.done)
      else if t == control_code ControlMessageType.ping_request
      then some (λ payload. on_ping_request (messages.parse_ping_request payload))
      else if t == control_code ControlMessageType.ping_response
      then some (λ payload. note_pong)
      else if t == control_code ControlMessageType.bye_bye_request
      then some (λ payload. on_bye_bye_request)
      else if t == control_code ControlMessageType.bye_bye_response
      then some (λ payload. trigger_session_close)
      else none

  unfoldable pub on_control_message : ℕ → Bytes → Program ControlService
  unfolding on_message on_channel_open handlers
  on_control_message message_type payload =
      on_message channel_of on_channel_open handlers message_type payload

  unfoldable pub release_audio_focus : Program ControlService
  unfolding notify_audio_focus
  release_audio_focus = notify_audio_focus AudioFocusStateType.state_loss true

  unfoldable pub gain_audio_focus : Program ControlService
  unfolding notify_audio_focus
  gain_audio_focus = notify_audio_focus AudioFocusStateType.state_gain true

  -- The clock in milliseconds.
  unfoldable pub send_ping : Program ControlService → Program ControlService
  unfolding send
  send_ping rest = Program.get (λ v.
      send channel_of ControlMessageType.ping_request
        (messages.serialize_ping_request (v.now_ns / 1000000)) rest)

  unfoldable pub check_pong : Program ControlService
  unfolding trigger_session_close
  check_pong = Program.get (λ v.
      if ltb ping_timeout_ms ((v.now_ns - v.last_pong_ns) / 1000000)
      then trigger_session_close
      else Program.put (record v { heartbeat_timer = some ping_interval_ms }) Program.done)

  -- The timer when it was not cancelled.
  unfoldable pub on_heartbeat_timer : Program ControlService
  unfolding send_ping check_pong
  on_heartbeat_timer = Program.get (λ v.
      Program.put (record v { heartbeat_timer = none })
        (if v.running then send_ping check_pong else Program.done))

  unfoldable pub on_session_stop : Program ControlService
  unfolding send
  on_session_stop =
      send channel_of ControlMessageType.bye_bye_request messages.serialized_bye_bye_request
        Program.done
