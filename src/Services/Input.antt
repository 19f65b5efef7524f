-- ===== src/Services/Input.antt =====
-- core/include/aauto/service/InputService.hpp and core/src/service/InputService.cpp: touches and
-- keys, sent to the phone.
use aa_v.Base.{ℕ, Bool, true, false, Option, none, some, List, [], ◌∷◌, Bytes, ◌==◌, if◌then◌else◌}
use aa_v.Protocol.Channels.{InputMessageType, input_code}
use aa_v.Service.{Program}
use aa_v.Services
use aa_v.Services.Media.{update}

-- A pointer of a touch event, or a key of a key event; an `int32_t` is its bit pattern, which the
-- `static_cast` to an `uint32_t` keeps.
pub record TouchPointer : Type 0 where
  pub x : ℕ
  pub y : ℕ
  pub pointer_id : ℕ

pub record Key : Type 0 where
  pub keycode : ℕ
  pub down : Bool
  pub metastate : ℕ

pub data ReportedEvent : Type 0 where
  -- the action, its index, the pointers
  touch_event : ℕ → ℕ → List TouchPointer → ReportedEvent
  key_event : List Key → ReportedEvent

-- The generated InputReport, whose timestamp is in microseconds.
pub record InputReport : Type 0 where
  pub timestamp : ℕ
  pub event : ReportedEvent

-- What generated code writes; the response to a key binding says success.
pub record InputMessages : Type 0 where
  pub serialize_report : InputReport → Bytes
  pub serialized_key_binding_response : Bytes

pub record InputService : Type 0 where
  pub channel_id : ℕ

abbrev pub channel_of : InputService → ℕ
channel_of v = v.channel_id

unfoldable pub send_input : InputMessageType → Bytes → Program InputService
send_input message_type payload =
    Program.get (λ v. Program.send (channel_of v) (input_code message_type) payload Program.done)

unfoldable pub on_channel_open : ℕ → Program InputService
on_channel_open channel_id = update (λ v. record { channel_id = channel_id })

-- One pointer, with the action as the application gave it.
abbrev pub touch_report : ℕ → ℕ → ℕ → ℕ → InputReport
touch_report now_us x y action = record {
  timestamp = now_us;
  event = ReportedEvent.touch_event action 0 (record { x = x; y = y; pointer_id = 0 } ∷ []);
}

-- The key pressed and released.
abbrev pub media_key_report : ℕ → ℕ → InputReport
media_key_report now_us keycode = record {
  timestamp = now_us;
  event = ReportedEvent.key_event (
      record { keycode = keycode; down = true; metastate = 0 }
      ∷ record { keycode = keycode; down = false; metastate = 0 }
      ∷ []);
}

module _ (messages : InputMessages) where
  -- `now_us` is what the steady clock reads.
  unfoldable pub send_touch : ℕ → ℕ → ℕ → ℕ → Program InputService
  unfolding send_input
  send_touch now_us x y action =
      send_input InputMessageType.input_report
        (messages.serialize_report (touch_report now_us x y action))

  unfoldable pub send_media_key : ℕ → ℕ → Program InputService
  unfolding send_input
  send_media_key now_us keycode =
      send_input InputMessageType.input_report
        (messages.serialize_report (media_key_report now_us keycode))

  unfoldable pub handlers : ℕ → Option (Bytes → Program InputService)
  unfolding send_input
  handlers t =
      if t == input_code InputMessageType.key_binding_request
      then some (λ payload.
        send_input InputMessageType.key_binding_response messages.serialized_key_binding_response)
      else none

  unfoldable pub on_input_message : ℕ → Bytes → Program InputService
  unfolding on_channel_open handlers
  on_input_message message_type payload =
      Services.on_message channel_of on_channel_open handlers message_type payload
