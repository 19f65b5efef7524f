-- ===== src/Platform/Factory.antt =====
-- impl/android/main/main.cpp (AndroidServiceFactory) and core/src/engine/Engine.cpp
-- (do_start_session and what it calls): the services of a session, and what the phone is told of
-- them.
use aa_v.Base.{ℕ, ◌%◌, true, false, none, List, [], ◌∷◌, Bytes}
use aa_v.Base.Assoc.{Assoc, insert}
use aa_v.Protocol.{control_channel_id}
use aa_v.Session
use aa_v.Session.{Session, default_config, register_services}
use aa_v.Services.{exec}
use aa_v.Services.Control as Control
use aa_v.Services.Control.{ControlService}
use aa_v.Services.Video as Video
use aa_v.Services.Video.{VideoDisplayType, VideoServiceConfig}
use aa_v.Services.Playback as Playback
use aa_v.Services.Phone as Phone
use aa_v.Services.Any.{AnyService}
use aa_v.Services.Discovery.{
  ServiceConfiguration, AudioStreamType, HeadunitInfo, ServiceDiscoveryResponse, fill_video,
  fill_audio, fill_input, fill_sensor, fill_microphone, fill_phone_status, fill_media_playback,
  fill_bluetooth, service_discovery_response,
}

pub record HeadunitConfig : Type 0 where
  pub info : HeadunitInfo
  pub video_width : ℕ
  pub video_height : ℕ
  pub video_fps : ℕ
  pub video_density : ℕ
  pub audio_sample_rate : ℕ
  pub audio_bit_depth : ℕ
  pub audio_channels : ℕ
  pub bluetooth_mac : Bytes

-- A new service, and what its `fill_config` writes, which is fixed by what it is constructed with.
pub record PeerService : Type 0 where
  pub service : AnyService
  pub fill_config : ServiceConfiguration

abbrev pub video_service_config : HeadunitConfig → VideoServiceConfig
video_service_config hu = record {
  width = hu.video_width;
  height = hu.video_height;
  fps = hu.video_fps;
  density = hu.video_density;
  display_type = VideoDisplayType.main;
  display_id = 0;
}

abbrev pub make_audio : AudioStreamType → (rate bits channel_count : ℕ) → PeerService
make_audio stream_type rate bits channel_count = record {
  service = AnyService.audio (record {
    channel_id = 0;
    sinks_active = false;
    session_id = 0;
    started = false;
    sink_calls = [];
  });
  fill_config = fill_audio (record {
    stream_type = stream_type;
    sample_rate = rate;
    bit_depth = bits;
    channel_count = channel_count;
  });
}

abbrev pub peer_service : AnyService → ServiceConfiguration → PeerService
peer_service service fill_config = record { service = service; fill_config = fill_config }

-- The map that is returned, filled in the order of the code. The callbacks of the video service, of
-- the playback service and of the Bluetooth service are set. `now_us` is the steady clock.
unfoldable pub create_services : HeadunitConfig → (now_us : ℕ) → Assoc PeerService
unfolding insert fill_video
create_services hu now_us =
    insert 13
      (peer_service
        (AnyService.bluetooth (record {
          channel_id = 0;
          has_pairing_callback = true;
          has_auth_callback = true;
          pairing_calls = [];
        }))
        (fill_bluetooth hu.bluetooth_mac))
      (insert 9 (peer_service (AnyService.phone (Phone.create false)) fill_phone_status) (
        insert 10
          (peer_service (AnyService.playback (Playback.create true true)) fill_media_playback)
          (insert 7
            (peer_service (AnyService.microphone 0) (
              fill_microphone (record { sample_rate = 16000; channels = 1; bits_per_sample = 16 })))
            (insert 6 (peer_service (AnyService.sensor (record { channel_id = 0 })) fill_sensor) (
              insert 5
                (peer_service (AnyService.input now_us (record { channel_id = 0 }))
                  (fill_input hu.video_width hu.video_height))
                (insert 4 (make_audio AudioStreamType.system_stream 16000 16 1) (
                  insert 3 (make_audio AudioStreamType.guidance_stream 16000 16 1) (
                    insert 2
                      (make_audio AudioStreamType.media_stream hu.audio_sample_rate
                        hu.audio_bit_depth hu.audio_channels)
                      (insert 1
                        (peer_service
                          (AnyService.video (Video.create (video_service_config hu) true))
                          (fill_video (video_service_config hu)))
                        [])))))))))

-- `set_channel` of ServiceBase.
unfoldable pub set_channel : ℕ → AnyService → AnyService
set_channel id (AnyService.control v) = AnyService.control (record v { channel_id = id })
set_channel id (AnyService.video v) = AnyService.video (record v { channel_id = id })
set_channel id (AnyService.audio v) = AnyService.audio (record v { channel_id = id })
set_channel id (AnyService.input now_us v) = AnyService.input now_us (record v { channel_id = id })
set_channel id (AnyService.sensor v) = AnyService.sensor (record v { channel_id = id })
set_channel id (AnyService.microphone channel_id) = AnyService.microphone id
set_channel id (AnyService.phone v) = AnyService.phone (record v { channel_id = id })
set_channel id (AnyService.playback v) = AnyService.playback (record v { channel_id = id })
set_channel id (AnyService.bluetooth v) = AnyService.bluetooth (record v { channel_id = id })

-- The peers with their channels, `static_cast<uint8_t>(service_id)`.
abbrev pub registered_peers : Assoc PeerService → Assoc AnyService
registered_peers [] = []
registered_peers ((service_id, p) ∷ peers) =
    (service_id % 256, set_channel (service_id % 256) p.service) ∷ registered_peers peers

-- The control service, whose channel is opened at once; `now_ns` is the steady clock.
unfoldable pub create_control_service : (now_ns : ℕ) → ControlService
create_control_service now_ns =
    (exec (Control.on_channel_open control_channel_id) (record {
      channel_id = control_channel_id;
      has_close_callback = true;
      now_ns = now_ns;
      heartbeat_timer = none;
      running = false;
      last_pong_ns = 0;
      close_triggered = false;
      identified = [];
    })).0

-- The session that the engine starts, whose observer it is.
unfoldable pub create_session :
    {C : Type 0} → HeadunitConfig → (sid now_ns now_us : ℕ) → C → Session C AnyService
unfolding set_channel
create_session hu sid now_ns now_us crypto =
    register_services
      ((control_channel_id, AnyService.control (create_control_service now_ns))
        ∷ registered_peers (create_services hu now_us))
      (Session.create (default_config sid) crypto true)

abbrev pub filled : Assoc PeerService → List (ℕ × ServiceConfiguration)
filled [] = []
filled ((service_id, p) ∷ peers) = (service_id, p.fill_config) ∷ filled peers

-- The response of the control service, which iterates over its peers.
abbrev pub session_response : HeadunitConfig → (now_us : ℕ) → ServiceDiscoveryResponse
session_response hu now_us = service_discovery_response hu.info (filled (create_services hu now_us))
