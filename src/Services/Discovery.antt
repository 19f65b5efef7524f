-- ===== src/Services/Discovery.antt =====
-- What each service in core/src/service writes of itself into the service discovery response, by
-- `fill_config`, and the response of core/src/service/ControlService.cpp.
pub mod Video
use aa_v.Base.{
  ℕ, Bool, true, false, not, Option, none, some, List, [], ◌∷◌, Bytes, leb, ◌==◌, if◌then◌else◌,
}
use aa_v.Services.Video.{VideoDisplayType, VideoServiceConfig, is_main}

-- The generated enumerations, as far as the code uses them.
pub data VideoCodecResolution : Type 0 where
  video_800x480 video_1280x720 video_1920x1080 video_2560x1440 : VideoCodecResolution

pub data VideoFrameRate : Type 0 where
  video_fps_60 video_fps_30 : VideoFrameRate

pub data ProtoStreamType : Type 0 where
  audio_stream_guidance audio_stream_system_audio audio_stream_media audio_stream_telephony :
      ProtoStreamType

-- A generated ServiceConfiguration, by the part of it that a service sets; the codec, which is
-- fixed for each service, is left out.
pub data ServiceConfiguration : Type 0 where
  -- resolution, frame rate, density, width and height margin, display type and id if they are set
  video_sink :
      VideoCodecResolution
      → VideoFrameRate
      → ℕ
      → ℕ
      → ℕ
      → Option VideoDisplayType
      → Option ℕ
      → ServiceConfiguration
  -- stream type, sampling rate, number of bits, number of channels
  audio_sink : ProtoStreamType → ℕ → ℕ → ℕ → ServiceConfiguration
  -- sampling rate, number of bits, number of channels
  media_source : ℕ → ℕ → ℕ → ServiceConfiguration
  -- width and height of a capacitive touchscreen
  input_source : ℕ → ℕ → ServiceConfiguration
  -- sensor types
  sensor_source : List ℕ → ServiceConfiguration
  -- car address, pairing methods
  bluetooth : Bytes → List ℕ → ServiceConfiguration
  -- the least interval in milliseconds of a status by an enumeration
  navigation_status : ℕ → ServiceConfiguration
  phone_status media_browser media_playback generic_notification : ServiceConfiguration
  vendor_extension : Bytes → ServiceConfiguration

abbrev pub video_resolution : ℕ → VideoCodecResolution
video_resolution width =
    if leb 2560 width
    then VideoCodecResolution.video_2560x1440
    else if leb 1920 width
    then VideoCodecResolution.video_1920x1080
    else if leb 1280 width
    then VideoCodecResolution.video_1280x720
    else VideoCodecResolution.video_800x480

-- The type and the id of a display are set where they differ from the defaults.
unfoldable pub fill_video : VideoServiceConfig → ServiceConfiguration
fill_video c =
    ServiceConfiguration.video_sink (video_resolution c.width)
      (if leb 60 c.fps then VideoFrameRate.video_fps_60 else VideoFrameRate.video_fps_30) c.density
      0 0 (if not (is_main c.display_type) then some c.display_type else none)
      (if not (c.display_id == 0) then some c.display_id else none)

-- core/include/aauto/sink/IAudioSink.hpp
pub data AudioStreamType : Type 0 where
  media_stream guidance_stream system_stream call_stream : AudioStreamType

abbrev pub to_proto_stream_type : AudioStreamType → ProtoStreamType
to_proto_stream_type AudioStreamType.media_stream = ProtoStreamType.audio_stream_media
to_proto_stream_type AudioStreamType.guidance_stream = ProtoStreamType.audio_stream_guidance
to_proto_stream_type AudioStreamType.system_stream = ProtoStreamType.audio_stream_system_audio
to_proto_stream_type AudioStreamType.call_stream = ProtoStreamType.audio_stream_telephony

pub record AudioServiceConfig : Type 0 where
  pub stream_type : AudioStreamType
  pub sample_rate : ℕ
  pub bit_depth : ℕ
  pub channel_count : ℕ

abbrev pub fill_audio : AudioServiceConfig → ServiceConfiguration
fill_audio c =
    ServiceConfiguration.audio_sink (to_proto_stream_type c.stream_type) c.sample_rate c.bit_depth
      c.channel_count

pub record MicrophoneServiceConfig : Type 0 where
  pub sample_rate : ℕ
  pub channels : ℕ
  pub bits_per_sample : ℕ

abbrev pub fill_microphone : MicrophoneServiceConfig → ServiceConfiguration
fill_microphone c = ServiceConfiguration.media_source c.sample_rate c.bits_per_sample c.channels

abbrev pub fill_input : ℕ → ℕ → ServiceConfiguration
fill_input touch_width touch_height = ServiceConfiguration.input_source touch_width touch_height

-- The driving status and the night mode.
abbrev pub fill_sensor : ServiceConfiguration
fill_sensor = ServiceConfiguration.sensor_source (13 ∷ 10 ∷ [])

-- Pairing by a PIN.
abbrev pub fill_bluetooth : Bytes → ServiceConfiguration
fill_bluetooth car_address = ServiceConfiguration.bluetooth car_address (4 ∷ [])

abbrev pub fill_navigation_status : ServiceConfiguration
fill_navigation_status = ServiceConfiguration.navigation_status 500

abbrev pub fill_phone_status : ServiceConfiguration
fill_phone_status = ServiceConfiguration.phone_status

abbrev pub fill_media_browser : ServiceConfiguration
fill_media_browser = ServiceConfiguration.media_browser

abbrev pub fill_media_playback : ServiceConfiguration
fill_media_playback = ServiceConfiguration.media_playback

abbrev pub fill_generic_notification : ServiceConfiguration
fill_generic_notification = ServiceConfiguration.generic_notification

abbrev pub fill_vendor_extension : Bytes → ServiceConfiguration
fill_vendor_extension name = ServiceConfiguration.vendor_extension name

-- The strings of core/include/aauto/engine/HeadunitConfig.hpp that the response tells.
pub record HeadunitInfo : Type 0 where
  pub hu_make : Bytes
  pub hu_model : Bytes
  pub hu_sw_ver : Bytes
  pub display_name : Bytes

pub record PingConfiguration : Type 0 where
  pub tracked_ping_count : ℕ
  pub timeout_ms : ℕ
  pub interval_ms : ℕ
  pub high_latency_threshold_ms : ℕ

-- The generated response. The driver sits left, and the session configuration is 0.
pub record ServiceDiscoveryResponse : Type 0 where
  pub headunit_info : HeadunitInfo
  pub ping_configuration : PingConfiguration
  pub channels : List (ℕ × ServiceConfiguration)

-- `peer_services` are the entries of the map, each with what its service fills in.
abbrev pub service_discovery_response :
    HeadunitInfo → List (ℕ × ServiceConfiguration) → ServiceDiscoveryResponse
service_discovery_response hu_config peer_services = record {
  headunit_info = hu_config;
  ping_configuration = record {
    tracked_ping_count = 5;
    timeout_ms = 3000;
    interval_ms = 1000;
    high_latency_threshold_ms = 200;
  };
  channels = peer_services;
}
