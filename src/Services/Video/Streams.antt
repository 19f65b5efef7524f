-- ===== src/Services/Video/Streams.antt =====
-- What core/src/service/VideoService.cpp tells its sinks, and what it acknowledges.
use aa_v.Base.{
  ℕ, ◌≡◌, refl, Bool, true, false, Option, none, some, foldl, foldl-snoc, Bytes, ◌||◌,
  if◌then◌else◌, arith,
}
use aa_v.Protocol.{MediaMessageType}
use aa_v.Service.{Program}
use aa_v.Services
use aa_v.Services.{Call, exec}
use aa_v.Services.Media.{send_media, acks}
use aa_v.Services.Video.Inputs.{Input}
use aa_v.Services.Video.{
  SinkCall, VideoMessages, VideoService, call_sinks, on_channel_open, on_start, video_data,
  on_setup, send_ack, on_codec_config, on_data, send_video_focus, set_video_focus, on_focus_request,
  on_video_message,
}
use aa_v.Services.Video.Cases.{is_media, on_video_message-of}

-- A sink's lifecycle: it is configured, maybe more than once, takes pictures, and is stopped.
-- `none` is a call out of this order. A codec configuration and a window may come at any time.
abbrev pub lifecycle : Option Bool → SinkCall → Option Bool
lifecycle none call = none
lifecycle (some running) (SinkCall.sink_configure config) = some true
lifecycle (some running) SinkCall.sink_stop = if running then some false else none
lifecycle (some running) (SinkCall.sink_codec_config payload) = some running
lifecycle (some running) (SinkCall.sink_video_data payload timestamp) =
    if running then some true else none
lifecycle (some running) (SinkCall.sink_native_window window) = some running

-- The sinks were called in the order of their lifecycle, and run exactly while the stream does.
unfoldable pub IsShowing : VideoService → Type 0
IsShowing v = foldl lifecycle (some false) v.sink_calls ≡ some v.started

called :
    (call : SinkCall) (v : VideoService)
    → foldl lifecycle (some false) (call_sinks call v).sink_calls
      ≡ lifecycle (foldl lifecycle (some false) v.sink_calls) call
called call v = foldl-snoc lifecycle (some false) v.sink_calls call

-- A method keeps the sinks in step, and answers with `n` acknowledgements.
abbrev Answers : ℕ → Program VideoService → Type 0
Answers n program =
    (v : VideoService) → IsShowing v → IsShowing (exec program v).0 × (acks (exec program v).1 ≡ n)

-- One acknowledgement for a Data message, and for a codec configuration.
abbrev pub owed : ℕ → ℕ
owed t =
    if is_media t MediaMessageType.media_data || is_media t MediaMessageType.codec_config
    then 1
    else 0

start-Answers : (parsed : Option ℕ) → Answers 0 (on_start parsed)
unfolding on_start exec IsShowing
start-Answers none v p = ground (arith, p, called (SinkCall.sink_configure v.current_config) v)
start-Answers (some id) v p = ground (arith, p, called (SinkCall.sink_configure v.current_config) v)

module _ (messages : VideoMessages) where
  data-Answers : (payload : Bytes) → Answers 1 (on_data messages payload)
  unfolding on_data send_ack send_media exec IsShowing
  data-Answers payload v p = ground (arith, p, called (video_data payload) v)

  codec-Answers : (payload : Bytes) → Answers 1 (on_codec_config messages payload)
  unfolding on_codec_config send_ack send_media exec IsShowing
  codec-Answers payload v p = ground (arith, p, called (SinkCall.sink_codec_config payload) v)

  focus-Answers : (mode : Option ℕ) → Answers 0 (on_focus_request messages mode)
  unfolding on_focus_request set_video_focus send_video_focus send_media exec IsShowing
  focus-Answers none v p = (p, refl)
  focus-Answers (some mode) v p = ground (arith, p)

  pub message-Answers :
      (t : ℕ) (payload : Bytes) → Answers (owed t) (on_video_message messages t payload)
  unfolding on_setup Services.send send_media on_channel_open exec IsShowing
  message-Answers t payload =
      on_video_message-of messages (λ t program. Answers (owed t) program) t payload
        (record {
          setup = λ v p. (p, refl);
          start = start-Answers (messages.parse_start payload);
          codec = codec-Answers payload;
          frame = data-Answers payload;
          focus = focus-Answers (messages.parse_focus_request payload);
          nothing = λ t d c f v p. (p, ground (arith, d, c));
          greeting = λ v p. (p, refl);
        })

  -- The acknowledgements that an input calls for.
  abbrev pub owed_for : Input → ℕ
  owed_for (Input.message t payload) = owed t
  owed_for _ = 0
