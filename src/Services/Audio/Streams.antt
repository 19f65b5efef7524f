-- ===== src/Services/Audio/Streams.antt =====
-- A stream of core/src/service/AudioService.cpp from the opening of its channel to its close.
use aa_v.Base.{ℕ, ◌≡◌, refl, List, [], Bytes, arith}
use aa_v.Services.{Call, exec}
use aa_v.Services.Media.{acks, serve_all, total, serve_all-acks}
use aa_v.Services.Audio.{
  AudioMessages, AudioService, on_channel_close, attach_sinks, detach_sinks, on_audio_message,
}
use aa_v.Services.Audio.Sinks.{IsPlaying, stopped-IsPlaying, owed, message-Answers}

-- What reaches the service.
pub data Input : Type 0 where
  message : ℕ → Bytes → Input
  attached detached closed : Input

abbrev pub respond : AudioMessages → Input → AudioService → AudioService × List Call
respond messages (Input.message t payload) v = exec (on_audio_message messages t payload) v
respond messages Input.attached v = exec attach_sinks v
respond messages Input.detached v = exec detach_sinks v
respond messages Input.closed v = (on_channel_close v, [])

-- The acknowledgements that an input calls for.
abbrev pub owed_for : Input → ℕ
owed_for (Input.message t payload) = owed t
owed_for _ = 0

module _ (messages : AudioMessages) where
  respond-IsPlaying :
      (i : Input) (v : AudioService)
      → IsPlaying v
      → IsPlaying (respond messages i v).0 × (acks (respond messages i v).1 ≡ owed_for i)
  unfolding exec attach_sinks detach_sinks on_channel_close IsPlaying
  respond-IsPlaying (Input.message t payload) v p =
      ground (arith, message-Answers messages t payload v p)
  respond-IsPlaying Input.attached v p = (p, refl)
  respond-IsPlaying Input.detached v p = (p, refl)
  respond-IsPlaying Input.closed v p = (stopped-IsPlaying v p, refl)

  -- Whatever messages, attachments and closes reach an audio service whose sinks are in step with
  -- its stream, its sinks are called in the order of their lifecycle (data and codec configuration
  -- only between a configuration and the stop after it), they run exactly while the stream is
  -- started, and every Data message, and nothing else, is acknowledged, once, whether or not the
  -- sinks are attached.
  pub serve-IsPlaying :
      (is : List Input) (v : AudioService)
      → IsPlaying v
      → let (w, calls) = serve_all (respond messages) is v in
        IsPlaying w × (acks calls ≡ total owed_for is)
  serve-IsPlaying is v p =
      serve_all-acks (respond messages) IsPlaying owed_for respond-IsPlaying is v p
