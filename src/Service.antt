-- ===== src/Service.antt =====
-- core/include/aauto/service/IService.hpp: what a session asks of its channel services.
use aa_v.Base.{ℕ, Bool, Bytes}

pub data ServiceType : Type 0 where
  control media_sink media_source input_source sensor_source bluetooth_service : ServiceType
  navigation_status phone_status media_browser media_playback radio_service : ServiceType
  vendor_extension generic_notification wifi_projection : ServiceType

-- A service's method, as the steps by which it reads and writes its own fields and calls out.
-- `send` is `SendMessageFn` (channel, message type, payload), which runs the session's
-- `send_message` at once; `request_stop` is the session close callback, which posts a stop.
pub data Program (V : Type 0) : Type 0 where
  done : Program V
  get : (V → Program V) → Program V
  put : V → Program V → Program V
  send : ℕ → ℕ → Bytes → Program V → Program V
  request_stop : Program V → Program V

-- The methods of the interface, on the fields `V` of a service. `on_channel_close` calls nothing
-- out in any service of the repository. A window is its address, 0 for null, and an `int32_t` is
-- its bit pattern.
pub record IService (V : Type 0) : Type 0 where
  pub on_message : ℕ → Bytes → Program V
  pub on_channel_close : V → V
  pub on_session_stop : Program V
  pub set_native_window : ℕ → Program V
  pub send_touch : ℕ → ℕ → ℕ → Program V
  pub send_media_key : ℕ → Program V
  pub release_audio_focus : Program V
  pub gain_audio_focus : Program V
  pub set_video_focus : Bool → Program V
  pub attach_sinks : Program V
  pub detach_sinks : Program V
  pub type : V → ServiceType
  -- of the service of type `bluetooth_service`
  pub send_pairing_response : ℕ → Bool → Program V
  pub send_auth_result : ℕ → Program V
