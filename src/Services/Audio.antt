-- ===== src/Services/Audio.antt =====
-- core/include/aauto/service/AudioService.hpp and core/src/service/AudioService.cpp: the service of
-- one audio stream, which passes it on to its sinks.
pub mod Sinks
pub mod Streams
use aa_v.Base.{
  ℕ, ◌+◌, ◌*◌, Bool, true, false, not, ◌||◌, Option, none, some, List, [], ◌∷◌, ◌++◌, Bytes, length,
  take, drop, ltb, ◌==◌, if◌then◌else◌,
}
use aa_v.Protocol.{MediaMessageType, media_code}
use aa_v.Service.{Program}
use aa_v.Services
use aa_v.Services.Media.{update, little_endian, send_media}

-- A call of each sink in turn. The configuration, which never changes, is left out.
pub data SinkCall : Type 0 where
  sink_configure sink_stop : SinkCall
  sink_codec_config : Bytes → SinkCall
  sink_audio_data : Bytes → ℕ → SinkCall

-- What generated code reads and writes. The Config message is the one the code builds: ready, ten
-- unacknowledged messages, configuration 0; an Ack is of one message.
pub record AudioMessages : Type 0 where
  pub serialized_config : Bytes
  pub parse_start : Bytes → Option ℕ
  pub serialize_ack : ℕ → Bytes

pub record AudioService : Type 0 where
  pub channel_id : ℕ
  pub sinks_active : Bool
  pub session_id : ℕ
  pub started : Bool
  pub sink_calls : List SinkCall

abbrev pub audio_timestamp_bytes : ℕ
audio_timestamp_bytes = 8

abbrev pub channel_of : AudioService → ℕ
channel_of v = v.channel_id

-- `for (auto& sink : sinks_)`
abbrev pub call_sinks : SinkCall → AudioService → AudioService
call_sinks call v = record v { sink_calls = v.sink_calls ++ call ∷ [] }

unfoldable pub stopped : AudioService → AudioService
stopped v = if v.started then record (call_sinks SinkCall.sink_stop v) { started = false } else v

unfoldable pub on_channel_open : ℕ → Program AudioService
on_channel_open channel_id = update (λ v. record v { channel_id = channel_id })

unfoldable pub on_channel_close : AudioService → AudioService
unfolding stopped
on_channel_close v = record (stopped v) { channel_id = 0 }

-- The session id of a Start message that can be parsed.
abbrev pub with_session : Option ℕ → AudioService → AudioService
with_session none v = v
with_session (some session_id) v = record v { session_id = session_id }

unfoldable pub on_start : Option ℕ → Program AudioService
on_start parsed =
    update
      (λ v. call_sinks SinkCall.sink_configure (record (with_session parsed v) { started = true }))

unfoldable pub on_codec_config : Bytes → Program AudioService
on_codec_config payload =
    update (λ v. if v.started then call_sinks (SinkCall.sink_codec_config payload) v else v)

-- More than eight bytes have a timestamp in front.
abbrev pub audio_data : Bytes → SinkCall
audio_data payload =
    if ltb audio_timestamp_bytes (length payload)
    then SinkCall.sink_audio_data (drop audio_timestamp_bytes payload)
        (little_endian (take audio_timestamp_bytes payload))
    else SinkCall.sink_audio_data payload 0

unfoldable pub attach_sinks : Program AudioService
attach_sinks = update (λ v. record v { sinks_active = true })

unfoldable pub detach_sinks : Program AudioService
detach_sinks = update (λ v. record v { sinks_active = false })

unfoldable pub on_stop : Program AudioService
unfolding stopped
on_stop = update stopped

module _ (messages : AudioMessages) where
  unfoldable pub on_setup : Program AudioService
  unfolding send_media
  on_setup = send_media channel_of MediaMessageType.config messages.serialized_config Program.done

  unfoldable pub send_ack : Program AudioService
  unfolding send_media
  send_ack = Program.get (λ v.
      send_media channel_of MediaMessageType.ack (messages.serialize_ack v.session_id) Program.done)

  unfoldable pub on_data : Bytes → Program AudioService
  unfolding send_ack
  on_data payload = Program.get (λ v.
      if not v.started || not v.sinks_active
      then send_ack
      else Program.put (call_sinks (audio_data payload) v) send_ack)

  -- The handlers that the constructor registers. `on_config` only writes to the log.
  unfoldable pub handlers : ℕ → Option (Bytes → Program AudioService)
  unfolding on_setup on_start on_codec_config on_data on_stop
  handlers t =
      if t == media_code MediaMessageType.setup
      then some (λ payload. on_setup)
      else if t == media_code MediaMessageType.config
      then some (λ payload. Program.done)
      else if t == media_code MediaMessageType.start
      then some (λ payload. on_start (messages.parse_start payload))
      else if t == media_code MediaMessageType.codec_config
      then some on_codec_config
      else if t == media_code MediaMessageType.media_data
      then some on_data
      else if t == media_code MediaMessageType.stop
      then some (λ payload. on_stop)
      else none

  unfoldable pub on_audio_message : ℕ → Bytes → Program AudioService
  unfolding on_channel_open handlers
  on_audio_message message_type payload =
      Services.on_message channel_of on_channel_open handlers message_type payload
