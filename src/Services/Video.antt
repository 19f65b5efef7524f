-- ===== src/Services/Video.antt =====
-- core/include/aauto/service/VideoService.hpp and core/src/service/VideoService.cpp: the service of
-- one display, which passes the phone's picture on to its sinks and negotiates the video focus.
pub mod Cases
pub mod Inputs
pub mod Streams
pub mod Focus
pub mod Notices
use aa_v.Base.{
  ℕ, Bool, true, false, not, ◌&&◌, ◌||◌, Option, none, some, List, [], ◌∷◌, ◌++◌, Bytes, length,
  take, drop, ltb, leb, ◌==◌, if◌then◌else◌,
}
use aa_v.Protocol.{MediaMessageType, media_code}
use aa_v.Service.{Program}
use aa_v.Services
use aa_v.Services.Media.{update, little_endian, send_media}

pub data VideoDisplayType : Type 0 where
  main cluster auxiliary : VideoDisplayType

abbrev pub is_main : VideoDisplayType → Bool
is_main VideoDisplayType.main = true
is_main VideoDisplayType.cluster = false
is_main VideoDisplayType.auxiliary = false

pub record VideoServiceConfig : Type 0 where
  pub width : ℕ
  pub height : ℕ
  pub fps : ℕ
  pub density : ℕ
  pub display_type : VideoDisplayType
  pub display_id : ℕ

-- core/include/aauto/sink/IVideoSink.hpp, without the density and the codec type, which nothing
-- sets
pub record VideoConfig : Type 0 where
  pub config_width : ℕ
  pub config_height : ℕ
  pub config_fps : ℕ
  pub codec_data : Bytes

-- A call of each sink in turn. The time stamp of a codec configuration is 0. A window is its
-- address.
pub data SinkCall : Type 0 where
  sink_configure : VideoConfig → SinkCall
  sink_stop : SinkCall
  sink_codec_config : Bytes → SinkCall
  sink_video_data : Bytes → ℕ → SinkCall
  sink_native_window : ℕ → SinkCall

-- What generated code reads and writes. The Config message is the one the code builds: ready, ten
-- unacknowledged messages, configuration 0; an Ack is of one message; a focus notification is
-- unsolicited, and projected for true. A parsed request is its mode.
pub record VideoMessages : Type 0 where
  pub serialized_config : Bytes
  pub parse_start : Bytes → Option ℕ
  pub serialize_ack : ℕ → Bytes
  pub parse_focus_request : Bytes → Option ℕ
  pub serialize_focus : Bool → Bytes

-- The fields. `focus_reports` are the calls of the focus callback, if one is set.
pub record VideoService : Type 0 where
  pub channel_id : ℕ
  pub video_config : VideoServiceConfig
  pub has_focus_callback : Bool
  pub sinks_active : Bool
  pub session_id : ℕ
  pub started : Bool
  pub current_config : VideoConfig
  pub sink_calls : List SinkCall
  pub focus_reports : List Bool

abbrev pub empty_config : VideoConfig
empty_config = record { config_width = 0; config_height = 0; config_fps = 0; codec_data = [] }

abbrev pub create : VideoServiceConfig → Bool → VideoService
create config has_focus_callback = record {
  channel_id = 0;
  video_config = config;
  has_focus_callback = has_focus_callback;
  sinks_active = false;
  session_id = 0;
  started = false;
  current_config = empty_config;
  sink_calls = [];
  focus_reports = [];
}

abbrev pub video_timestamp_bytes : ℕ
video_timestamp_bytes = 8

-- The generated constants of the focus modes.
abbrev pub video_focus_projected : ℕ
video_focus_projected = 1

abbrev pub video_focus_native : ℕ
video_focus_native = 2

abbrev pub channel_of : VideoService → ℕ
channel_of v = v.channel_id

abbrev pub call_sinks : SinkCall → VideoService → VideoService
call_sinks call v = record v { sink_calls = v.sink_calls ++ call ∷ [] }

unfoldable pub on_channel_open : ℕ → Program VideoService
on_channel_open channel_id = update (λ v. record v { channel_id = channel_id })

unfoldable pub set_native_window : ℕ → Program VideoService
set_native_window window = update (call_sinks (SinkCall.sink_native_window window))

unfoldable pub on_channel_close : VideoService → VideoService
on_channel_close v =
    record (if v.started then record (call_sinks SinkCall.sink_stop v) { started = false } else v) {
      channel_id = 0;
    }

abbrev pub with_session : Option ℕ → VideoService → VideoService
with_session none v = v
with_session (some session_id) v = record v { session_id = session_id }

unfoldable pub on_start : Option ℕ → Program VideoService
on_start parsed = update (λ v.
    call_sinks (SinkCall.sink_configure v.current_config)
      (record (with_session parsed v) { started = true }))

unfoldable pub attach_sinks : Program VideoService
attach_sinks = update (λ v. record v { sinks_active = true })

unfoldable pub detach_sinks : Program VideoService
detach_sinks = update (λ v. record v { sinks_active = false })

-- `focus_callback_`, when it is set
abbrev pub report_focus : Bool → VideoService → VideoService
report_focus projected v =
    if v.has_focus_callback
    then record v { focus_reports = v.focus_reports ++ projected ∷ [] }
    else v

-- More than eight bytes have a timestamp in front.
abbrev pub video_data : Bytes → SinkCall
video_data payload =
    if ltb video_timestamp_bytes (length payload)
    then SinkCall.sink_video_data (drop video_timestamp_bytes payload)
        (little_endian (take video_timestamp_bytes payload))
    else SinkCall.sink_video_data payload 0

abbrev pub configured : Bytes → VideoService → VideoService
configured payload v = record v {
  current_config = record {
    config_width = v.video_config.width;
    config_height = v.video_config.height;
    config_fps = v.video_config.fps;
    codec_data = payload;
  };
}

module _ (messages : VideoMessages) where
  unfoldable pub on_setup : Program VideoService
  unfolding send_media
  on_setup = send_media channel_of MediaMessageType.config messages.serialized_config Program.done

  unfoldable pub send_ack : Program VideoService
  unfolding send_media
  send_ack = Program.get (λ v.
      send_media channel_of MediaMessageType.ack (messages.serialize_ack v.session_id) Program.done)

  unfoldable pub on_codec_config : Bytes → Program VideoService
  unfolding send_ack
  on_codec_config payload = Program.get (λ v.
      Program.put (call_sinks (SinkCall.sink_codec_config payload) (configured payload v)) send_ack)

  unfoldable pub on_data : Bytes → Program VideoService
  unfolding send_ack
  on_data payload = Program.get (λ v.
      if not v.started || not v.sinks_active
      then send_ack
      else Program.put (call_sinks (video_data payload) v) send_ack)

  -- `send_video_focus`, and what follows it
  unfoldable pub send_video_focus : Bool → Program VideoService → Program VideoService
  unfolding send_media
  send_video_focus gain rest =
      send_media channel_of MediaMessageType.video_focus_notification
        (messages.serialize_focus gain) rest

  -- `set_video_focus`, and what follows it. `attach_sinks` and `detach_sinks` set the flag.
  unfoldable pub set_video_focus : Bool → Program VideoService → Program VideoService
  unfolding send_video_focus
  set_video_focus projected rest = Program.get (λ v.
      if not (is_main v.video_config.display_type)
      then rest
      else Program.put (record v { sinks_active = projected }) (send_video_focus projected rest))

  unfoldable pub on_focus_request : Option ℕ → Program VideoService
  unfolding set_video_focus
  on_focus_request none = Program.done
  on_focus_request (some mode) =
      if mode == video_focus_native
      then set_video_focus false (update (report_focus false))
      else if mode == video_focus_projected
      then set_video_focus true (update (report_focus true))
      else Program.done

  -- The handlers that the constructor registers. Those of Stop and Ack at most write to the log.
  unfoldable pub handlers : ℕ → Option (Bytes → Program VideoService)
  unfolding on_setup on_start on_codec_config on_data on_focus_request
  handlers t =
      if t == media_code MediaMessageType.setup
      then some (λ payload. on_setup)
      else if t == media_code MediaMessageType.start
      then some (λ payload. on_start (messages.parse_start payload))
      else if t == media_code MediaMessageType.codec_config
      then some on_codec_config
      else if t == media_code MediaMessageType.media_data
      then some on_data
      else if t == media_code MediaMessageType.stop
      then some (λ payload. Program.done)
      else if t == media_code MediaMessageType.video_focus_request
      then some (λ payload. on_focus_request (messages.parse_focus_request payload))
      else if t == media_code MediaMessageType.ack
      then some (λ payload. Program.done)
      else none

  unfoldable pub on_video_message : ℕ → Bytes → Program VideoService
  unfolding on_channel_open handlers
  on_video_message message_type payload =
      Services.on_message channel_of on_channel_open handlers message_type payload
