-- ===== src/Services/Audio/Sinks.antt =====
-- What core/src/service/AudioService.cpp tells its sinks and its phone.
use aa_v.Base.{
  ℕ, ◌≡◌, refl, ◌∙◌, Bool, true, false, Option, none, some, [], ◌∷◌, foldl, foldl-snoc, Bytes, ◌==◌,
  if_elim, if◌then◌else◌, arith,
}
use aa_v.Protocol.{ControlMessageType, MediaMessageType, control_code, media_code}
use aa_v.Service.{Program}
use aa_v.Services
use aa_v.Services.{Call, exec, handle}
use aa_v.Services.Media.{send_media, acks}
use aa_v.Services.Audio.{
  SinkCall, AudioMessages, AudioService, channel_of, call_sinks, stopped, on_channel_open, on_start,
  on_codec_config, audio_data, on_stop, on_setup, send_ack, on_data, handlers, on_audio_message,
}

-- A sink's lifecycle: it is configured, maybe more than once, takes data, and is stopped. `none` is
-- a call out of this order.
abbrev pub lifecycle : Option Bool → SinkCall → Option Bool
lifecycle none call = none
lifecycle (some running) SinkCall.sink_configure = some true
lifecycle (some running) SinkCall.sink_stop = if running then some false else none
lifecycle (some running) (SinkCall.sink_codec_config payload) = if running then some true else none
lifecycle (some running) (SinkCall.sink_audio_data payload timestamp) =
    if running then some true else none

-- The sinks were called in the order of their lifecycle, and run exactly while the stream does.
unfoldable pub IsPlaying : AudioService → Type 0
IsPlaying v = foldl lifecycle (some false) v.sink_calls ≡ some v.started

called :
    (call : SinkCall) (v : AudioService)
    → foldl lifecycle (some false) (call_sinks call v).sink_calls
      ≡ lifecycle (foldl lifecycle (some false) v.sink_calls) call
called call v = foldl-snoc lifecycle (some false) v.sink_calls call

-- A method keeps the sinks in step, and answers with `n` acknowledgements.
abbrev pub Answers : ℕ → Program AudioService → Type 0
Answers n program =
    (v : AudioService) → IsPlaying v → IsPlaying (exec program v).0 × (acks (exec program v).1 ≡ n)

pub stopped-IsPlaying : (v : AudioService) → IsPlaying v → IsPlaying (stopped v)
unfolding IsPlaying stopped
stopped-IsPlaying v p = ground (arith, p, called SinkCall.sink_stop v)

stop-Answers : Answers 0 on_stop
unfolding on_stop exec
stop-Answers v p = (stopped-IsPlaying v p, refl)

start-Answers : (parsed : Option ℕ) → Answers 0 (on_start parsed)
unfolding on_start exec IsPlaying
start-Answers none v p = ground (arith, p, called SinkCall.sink_configure v)
start-Answers (some id) v p = ground (arith, p, called SinkCall.sink_configure v)

codec-Answers : (payload : Bytes) → Answers 0 (on_codec_config payload)
unfolding on_codec_config exec IsPlaying
codec-Answers payload v p = ground (arith, p, called (SinkCall.sink_codec_config payload) v)

-- One acknowledgement for a Data message.
abbrev pub owed : ℕ → ℕ
owed t = if t == media_code MediaMessageType.media_data then 1 else 0

owed-Answers :
    {n : ℕ} (program : Program AudioService) (t : ℕ)
    → n ≡ owed t
    → Answers n program
    → Answers (owed t) program
owed-Answers program t e h v playing = ((h v playing).0, (h v playing).1 ∙ e)

module _ (messages : AudioMessages) where
  data-Answers : (payload : Bytes) → Answers 1 (on_data messages payload)
  unfolding on_data send_ack send_media exec IsPlaying
  data-Answers payload v p = ground (arith, p, called (audio_data payload) v)

  setup-Answers : Answers 0 (on_setup messages)
  unfolding on_setup send_media exec IsPlaying
  setup-Answers v p = (p, refl)

  opening-Answers : Answers 0 (
      Services.send channel_of ControlMessageType.channel_open_response
        (8 ∷ 0 ∷ [])
        (Program.get (λ v. on_channel_open (channel_of v))))
  unfolding Services.send on_channel_open exec IsPlaying
  opening-Answers v p = (p, refl)

  none-Answers : Answers 0 Program.done
  unfolding exec
  none-Answers v p = (p, refl)

  handlers-Answers :
      (t : ℕ) (payload : Bytes) → Answers (owed t) (handle channel_of (handlers messages t) payload)
  unfolding handlers handle
  handlers-Answers t payload =
      if_elim Fine (t == media_code MediaMessageType.setup) _ _
        (λ e. owed-Answers _ t (ground arith) setup-Answers)
        (λ e0.
          if_elim Fine (t == media_code MediaMessageType.config) _ _
            (λ e. owed-Answers _ t (ground arith) none-Answers)
            (λ e.
              if_elim Fine (t == media_code MediaMessageType.start) _ _
                (λ e.
                  owed-Answers _ t (ground arith) (start-Answers (messages.parse_start payload)))
                (λ e.
                  if_elim Fine (t == media_code MediaMessageType.codec_config) _ _
                    (λ e. owed-Answers _ t (ground arith) (codec-Answers payload))
                    (λ e.
                      if_elim Fine (t == media_code MediaMessageType.media_data) _ _
                        (λ e. owed-Answers _ t (ground arith) (data-Answers payload))
                        (λ e1.
                          if_elim Fine (t == media_code MediaMessageType.stop) _ none
                            (λ e. owed-Answers _ t (ground arith) stop-Answers)
                            (λ e. owed-Answers _ t (ground arith) none-Answers))))))
    where
      Fine : Option (Bytes → Program AudioService) → Type 0
      Fine o = Answers (owed t) (handle channel_of o payload)

  pub message-Answers :
      (t : ℕ) (payload : Bytes) → Answers (owed t) (on_audio_message messages t payload)
  unfolding on_audio_message Services.on_message
  message-Answers t payload =
      if_elim (Answers (owed t)) (t == control_code ControlMessageType.channel_open_request) _
        (handle channel_of (handlers messages t) payload)
        (λ e. owed-Answers _ t (ground arith) opening-Answers) (λ e. handlers-Answers t payload)
