-- ===== src/Protocol.antt =====
-- The AAP constants, message types, error codes and frame flags of
-- core/include/aauto/utils/ProtocolConstants.hpp. An `enum class` is a data type; the function
-- beside it is its `static_cast` to the underlying integer.
pub mod Flags
pub mod Channels
use aa_v.Base.{ℕ, Bool, not, ◌&&◌, if◌then◌else◌, leb, ◌==◌, bit_or}

abbrev pub control_channel_id : ℕ
control_channel_id = 0

abbrev pub input_channel_id : ℕ
input_channel_id = 5

-- 16 KiB
abbrev pub max_frame_payload_size : ℕ
max_frame_payload_size = 16384

-- channel (1), flags (1), length (2)
abbrev pub frame_header_size : ℕ
frame_header_size = 4

pub data FragInfo : Type 0 where
  continuation first last unfragmented : FragInfo

abbrev pub frag_code : FragInfo → ℕ
frag_code FragInfo.continuation = 0
frag_code FragInfo.first = 1
frag_code FragInfo.last = 2
frag_code FragInfo.unfragmented = 3

pub data ControlMessageType : Type 0 where
  version_request version_response encapsulated_ssl auth_complete : ControlMessageType
  service_discovery_request service_discovery_response : ControlMessageType
  channel_open_request channel_open_response channel_close_notification : ControlMessageType
  ping_request ping_response nav_focus_request nav_focus_notification : ControlMessageType
  bye_bye_request bye_bye_response voice_session_notification : ControlMessageType
  audio_focus_request audio_focus_notification car_connected_devices_req : ControlMessageType
  car_connected_devices_resp user_switch_request : ControlMessageType
  battery_status_notification call_availability_status : ControlMessageType
  user_switch_response service_discovery_update unexpected_message : ControlMessageType
  framing_error : ControlMessageType

abbrev pub control_code : ControlMessageType → ℕ
control_code ControlMessageType.version_request = 1
control_code ControlMessageType.version_response = 2
control_code ControlMessageType.encapsulated_ssl = 3
control_code ControlMessageType.auth_complete = 4
control_code ControlMessageType.service_discovery_request = 5
control_code ControlMessageType.service_discovery_response = 6
control_code ControlMessageType.channel_open_request = 7
control_code ControlMessageType.channel_open_response = 8
control_code ControlMessageType.channel_close_notification = 9
control_code ControlMessageType.ping_request = 11
control_code ControlMessageType.ping_response = 12
control_code ControlMessageType.nav_focus_request = 13
control_code ControlMessageType.nav_focus_notification = 14
control_code ControlMessageType.bye_bye_request = 15
control_code ControlMessageType.bye_bye_response = 16
control_code ControlMessageType.voice_session_notification = 17
control_code ControlMessageType.audio_focus_request = 18
control_code ControlMessageType.audio_focus_notification = 19
control_code ControlMessageType.car_connected_devices_req = 20
control_code ControlMessageType.car_connected_devices_resp = 21
control_code ControlMessageType.user_switch_request = 22
control_code ControlMessageType.battery_status_notification = 23
control_code ControlMessageType.call_availability_status = 24
control_code ControlMessageType.user_switch_response = 25
control_code ControlMessageType.service_discovery_update = 26
control_code ControlMessageType.unexpected_message = 255
control_code ControlMessageType.framing_error = 65535

pub data MediaMessageType : Type 0 where
  media_data codec_config setup start stop config ack microphone_request : MediaMessageType
  microphone_response video_focus_request video_focus_notification : MediaMessageType
  update_ui_config_request update_ui_config_reply audio_underflow : MediaMessageType

abbrev pub media_code : MediaMessageType → ℕ
media_code MediaMessageType.media_data = 0
media_code MediaMessageType.codec_config = 1
media_code MediaMessageType.setup = 32768
media_code MediaMessageType.start = 32769
media_code MediaMessageType.stop = 32770
media_code MediaMessageType.config = 32771
media_code MediaMessageType.ack = 32772
media_code MediaMessageType.microphone_request = 32773
media_code MediaMessageType.microphone_response = 32774
media_code MediaMessageType.video_focus_request = 32775
media_code MediaMessageType.video_focus_notification = 32776
media_code MediaMessageType.update_ui_config_request = 32777
media_code MediaMessageType.update_ui_config_reply = 32778
media_code MediaMessageType.audio_underflow = 32779

pub data AapErrc : Type 0 where
  success transport_closed transport_read_error transport_write_error : AapErrc
  ssl_handshake_failed version_mismatch auth_failed service_discovery_failed : AapErrc
  channel_open_failed ping_timeout framing_error decryption_failed : AapErrc
  protobuf_parse_error session_terminated bye_bye_received internal_error : AapErrc

abbrev pub flag_encrypted : ℕ
flag_encrypted = 0x08

abbrev pub flag_control_on_media : ℕ
flag_control_on_media = 0x04

-- Control-type messages on a channel other than the control channel get the control-on-media bit.
unfoldable pub compute_frame_flags : ℕ → ℕ → Bool → ℕ
compute_frame_flags channel msg_type encrypted =
    let base = frag_code FragInfo.unfragmented in
    let flags = if encrypted then bit_or base flag_encrypted else base in
    if not (channel == control_channel_id) && (leb 1 msg_type && leb msg_type 0x0013)
    then bit_or flags flag_control_on_media
    else flags
