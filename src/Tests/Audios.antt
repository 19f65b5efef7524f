-- ===== src/Tests/Audios.antt =====
-- core/src/service/AudioService.cpp with a stream of two packets.
use aa_v.Base.{◌≡◌, refl, false, some, List, [], ◌∷◌}
use aa_v.Services.Media.{acks, serve_all, total}
use aa_v.Services.Audio.{AudioMessages, AudioService}
use aa_v.Services.Audio.Sinks.{IsPlaying}
use aa_v.Services.Audio.Streams.{Input, respond, owed_for, serve-IsPlaying}

abbrev pub messages : AudioMessages
messages = record {
  serialized_config = 1 ∷ [];
  parse_start = λ payload. some 7;
  serialize_ack = λ session_id. session_id ∷ [];
}

abbrev quiet : AudioService
quiet = record {
  channel_id = 2;
  sinks_active = false;
  session_id = 0;
  started = false;
  sink_calls = [];
}

-- One packet before the sinks are attached, and one after.
abbrev packets : List Input
packets =
    Input.message 32769 []
    ∷ Input.message 0 (1 ∷ [])
    ∷ Input.attached
    ∷ Input.message 0 (2 ∷ [])
    ∷ Input.closed
    ∷ []

serve-IsPlaying_example :
    let (w, calls) = serve_all (respond messages) packets quiet in
    IsPlaying w × (acks calls ≡ total owed_for packets)
unfolding IsPlaying
serve-IsPlaying_example = serve-IsPlaying messages packets quiet refl
