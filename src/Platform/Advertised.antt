-- ===== src/Platform/Advertised.antt =====
-- What the service discovery response of core/src/service/ControlService.cpp tells the phone,
-- against the services that a session of impl/android has.
use aa_v.Base.{ℕ, ◌≡◌, refl, Option, some, List, [], ◌∷◌, All}
use aa_v.Base.Assoc.{find, insert}
use aa_v.Protocol.{control_channel_id}
use aa_v.Session.{register_service}
use aa_v.Session.Handlers.{channels}
use aa_v.Services.Any.{AnyService}
use aa_v.Services.Discovery.{
  ServiceConfiguration, ProtoStreamType, VideoCodecResolution, VideoFrameRate, fill_video,
}
use aa_v.Services.Video.{VideoService, VideoDisplayType}
use aa_v.Services.Audio.{AudioService}
use aa_v.Services.Input.{InputService}
use aa_v.Services.Sensor.{SensorService}
use aa_v.Services.Phone.{PhoneStatusService}
use aa_v.Services.Playback.{MediaPlaybackService}
use aa_v.Services.Bluetooth.{BluetoothService}
use aa_v.Platform.Factory.{
  HeadunitConfig, create_services, set_channel, create_control_service, create_session,
  session_response,
}

-- What core/include/aauto/utils/ProtocolUtil.hpp names the channels after (`channel_name`), as far
-- as the Android factory fills them: the part of a ServiceConfiguration that the phone is told for
-- a channel, and the service that answers there, which knows its channel. The media audio, the
-- touch screen and the address of the car are as the head unit's configuration has them.
pub data IsNamed (hu : HeadunitConfig) : ℕ → ServiceConfiguration → AnyService → Type 0 where
  video :
      {r : VideoCodecResolution} {f : VideoFrameRate} {density w h : ℕ}
      {t : Option VideoDisplayType} {i : Option ℕ} {v : VideoService}
      → v.channel_id ≡ 1
      → IsNamed hu 1 (ServiceConfiguration.video_sink r f density w h t i) (AnyService.video v)
  audio_media :
      {v : AudioService}
      → v.channel_id ≡ 2
      → IsNamed hu 2
          (ServiceConfiguration.audio_sink ProtoStreamType.audio_stream_media hu.audio_sample_rate
            hu.audio_bit_depth hu.audio_channels)
          (AnyService.audio v)
  audio_guidance :
      {rate bits count : ℕ} {v : AudioService}
      → v.channel_id ≡ 3
      → IsNamed hu 3
          (ServiceConfiguration.audio_sink ProtoStreamType.audio_stream_guidance rate bits count)
          (AnyService.audio v)
  audio_system :
      {rate bits count : ℕ} {v : AudioService}
      → v.channel_id ≡ 4
      → IsNamed hu 4
          (ServiceConfiguration.audio_sink ProtoStreamType.audio_stream_system_audio rate bits
            count)
          (AnyService.audio v)
  input :
      {now_us : ℕ} {v : InputService}
      → v.channel_id ≡ 5
      → IsNamed hu 5
          (ServiceConfiguration.input_source hu.video_width hu.video_height)
          (AnyService.input now_us v)
  sensor :
      {types : List ℕ} {v : SensorService}
      → v.channel_id ≡ 6
      → IsNamed hu 6 (ServiceConfiguration.sensor_source types) (AnyService.sensor v)
  microphone :
      {rate bits count : ℕ}
      → IsNamed hu 7 (ServiceConfiguration.media_source rate bits count) (AnyService.microphone 7)
  phone :
      {v : PhoneStatusService}
      → v.channel_id ≡ 9
      → IsNamed hu 9 ServiceConfiguration.phone_status (AnyService.phone v)
  media_playback :
      {v : MediaPlaybackService}
      → v.channel_id ≡ 10
      → IsNamed hu 10 ServiceConfiguration.media_playback (AnyService.playback v)
  bluetooth :
      {methods : List ℕ} {v : BluetoothService}
      → v.channel_id ≡ 13
      → IsNamed hu 13
          (ServiceConfiguration.bluetooth hu.bluetooth_mac methods)
          (AnyService.bluetooth v)

-- Whatever the configuration of the head unit, the session that the engine creates with the
-- services of the Android factory has the control service, new, on channel 0, and on its other
-- channels exactly the services whose channels the service discovery response lists, in the same
-- order: video, media, guidance and system audio, input, sensors, the microphone, the phone's
-- status, media playback and Bluetooth, on the channels that ProtocolUtil.hpp gives these names.
-- For each the response gives the configuration of its kind, for an audio channel that of its
-- stream, and the service knows its channel.
pub create_session-advertised :
    {C : Type 0} (hu : HeadunitConfig) (sid now_ns now_us : ℕ) (crypto : C)
    → let s = create_session hu sid now_ns now_us crypto in
      let advertised = (session_response hu now_us).channels in
      (channels s.services ≡ control_channel_id ∷ channels advertised)
      × (channels advertised ≡ 1 ∷ 2 ∷ 3 ∷ 4 ∷ 5 ∷ 6 ∷ 7 ∷ 9 ∷ 10 ∷ 13 ∷ [])
      × (find control_channel_id s.services
          ≡ some (AnyService.control (create_control_service now_ns)))
      × All
          (λ (id, configuration).
            (v : AnyService) × (find id s.services ≡ some v) × IsNamed hu id configuration v)
          advertised
unfolding create_session create_services set_channel register_service insert find fill_video
create_session-advertised hu sid now_ns now_us crypto = (
  refl,
  refl,
  refl,
  (
    (_, refl, IsNamed.video refl),
    (
      (_, refl, IsNamed.audio_media refl),
      (
        (_, refl, IsNamed.audio_guidance refl),
        (
          (_, refl, IsNamed.audio_system refl),
          (
            (_, refl, IsNamed.input refl),
            (
              (_, refl, IsNamed.sensor refl),
              (
                (_, refl, IsNamed.microphone),
                (
                  (_, refl, IsNamed.phone refl),
                  ((_, refl, IsNamed.media_playback refl), ((_, refl, IsNamed.bluetooth refl), tt)),
                ),
              ),
            ),
          ),
        ),
      ),
    ),
  ),
)
