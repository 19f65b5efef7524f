-- ===== src/Tests/Peers.antt =====
-- A session of impl/android with all its services, when the handshake is over.
use aa_v.Base.{◌≡◌, refl, Bool, true, false, none, some, List, [], ◌∷◌, All}
use aa_v.Base.Assoc.{find, insert}
use aa_v.Protocol.{control_channel_id}
use aa_v.Framer.{AapMessage}
use aa_v.Session.{Session, SessionState, register_service}
use aa_v.Session.Handlers.{channels, is_handshake_state}
use aa_v.Session.Sending.{CanSeal, deliver}
use aa_v.Session.Apart.{answer, answers, for_channel, dispatch_all, dispatch_all-apart}
use aa_v.Services.Media.{serve_all}
use aa_v.Services.Video as Video
use aa_v.Services.Video.{VideoService}
use aa_v.Services.Video.Streams.{IsShowing}
use aa_v.Services.Audio.{AudioService}
use aa_v.Services.Audio.Sinks.{IsPlaying}
use aa_v.Services.Discovery.{fill_video}
use aa_v.Services.Any.{AnyService, AnyMessages, any_service}
use aa_v.Services.Any.Streams.{dispatch_all-streams}
use aa_v.Platform.Factory.{
  HeadunitConfig, video_service_config, create_services, set_channel, create_control_service,
  create_session, session_response,
}
use aa_v.Platform.Advertised.{IsNamed, create_session-advertised}
use aa_v.Tests.Delivery.{mock_crypto}
use aa_v.Tests.Controls as Controls
use aa_v.Tests.Videos as Videos
use aa_v.Tests.Audios as Audios
use aa_v.Tests.Playbacks as Playbacks

abbrev config : HeadunitConfig
config = record {
  info = record { hu_make = 1 ∷ []; hu_model = 2 ∷ []; hu_sw_ver = 3 ∷ []; display_name = 4 ∷ [] };
  video_width = 1280;
  video_height = 720;
  video_fps = 30;
  video_density = 160;
  audio_sample_rate = 48000;
  audio_bit_depth = 16;
  audio_channels = 2;
  bluetooth_mac = [];
}

create_session-advertised_example :
    let s = create_session config 1 1000 1 true in
    let advertised = (session_response config 1).channels in
    (channels s.services ≡ control_channel_id ∷ channels advertised)
    × (channels advertised ≡ 1 ∷ 2 ∷ 3 ∷ 4 ∷ 5 ∷ 6 ∷ 7 ∷ 9 ∷ 10 ∷ 13 ∷ [])
    × (find control_channel_id s.services ≡ some (AnyService.control (create_control_service 1000)))
    × All
        (λ (id, configuration).
          (v : AnyService) × (find id s.services ≡ some v) × IsNamed config id configuration v)
        advertised
create_session-advertised_example = create_session-advertised config 1 1000 1 true

abbrev messages : AnyMessages
messages = record {
  control = Controls.messages;
  video = Videos.messages;
  audio = Audios.messages;
  input = record { serialize_report = λ report. 1 ∷ []; serialized_key_binding_response = 2 ∷ [] };
  sensor = record {
    parse_request = λ payload. some 13;
    serialized_response = 3 ∷ [];
    serialized_batch = 4 ∷ [];
  };
  phone = λ payload. none;
  playback = Playbacks.messages;
  bluetooth = record {
    parse_pairing_request = λ payload. none;
    parse_authentication_data = λ payload. none;
    serialize_pairing_response = λ status already_paired. 5 ∷ [];
    serialize_authentication_result = λ status. 6 ∷ [];
  };
}

abbrev Always : Bool → Type 0
Always c = Unit

mock-CanSeal : CanSeal mock_crypto Always
mock-CanSeal = record { seals = λ c plaintext r. (c, plaintext, refl, tt) }

abbrev ready : Session Bool AnyService
ready = record (create_session config 1 1000 1 true) { state = SessionState.running }

-- A picture between a start of the sound and a packet of it.
abbrev inbox : List AapMessage
inbox =
    (record { channel_id = 1; message_type = 32769; payload = [] })
    ∷ (record { channel_id = 2; message_type = 32769; payload = [] })
    ∷ (record { channel_id = 1; message_type = 0; payload = 9 ∷ [] })
    ∷ (record { channel_id = 2; message_type = 0; payload = 8 ∷ [] })
    ∷ []

abbrev picture : VideoService
picture = record (Video.create (video_service_config config) true) { channel_id = 1 }

dispatch_all-apart_example :
    (find 1 (dispatch_all mock_crypto (any_service messages) [] inbox ready).services
      ≡ some
          (serve_all
            (answer (any_service messages))
            (for_channel 1 inbox)
            (AnyService.video picture)).0)
    × (record (dispatch_all mock_crypto (any_service messages) [] inbox ready) {
      services = ready.services;
    }
        ≡ deliver mock_crypto
            (any_service messages)
            []
            (answers (any_service messages) inbox (λ i. find i ready.services)).1
            ready)
unfolding create_session create_services set_channel register_service insert find fill_video
    is_handshake_state
dispatch_all-apart_example =
    dispatch_all-apart mock_crypto (any_service messages) [] Always mock-CanSeal inbox ready 1
      (AnyService.video picture) refl tt refl

abbrev sound : AudioService
sound = record {
  channel_id = 2;
  sinks_active = false;
  session_id = 0;
  started = false;
  sink_calls = [];
}

dispatch_all-streams_example :
    let t = dispatch_all mock_crypto (any_service messages) [] inbox ready in
    ((w : VideoService) × (find 1 t.services ≡ some (AnyService.video w)) × IsShowing w)
    × ((b : AudioService) × (find 2 t.services ≡ some (AnyService.audio b)) × IsPlaying b)
unfolding create_session create_services set_channel register_service insert find fill_video
    is_handshake_state IsShowing IsPlaying
dispatch_all-streams_example =
    dispatch_all-streams messages mock_crypto [] Always mock-CanSeal inbox ready 1 2 picture sound
      refl tt refl refl refl refl
