-- ===== src/Services/Any/Streams.antt =====
-- The picture and sound of core/src/service/VideoService.cpp and core/src/service/AudioService.cpp
-- in a session of core/src/session/Session.cpp with any services.
use aa_v.Base.{ℕ, ◌≡◌, refl, ◌∙◌, ap, false, some, List, [], ◌∷◌, Bytes}
use aa_v.Base.Assoc.{find}
use aa_v.Crypto.{CryptoStrategy}
use aa_v.Framer.{AapMessage}
use aa_v.Services.{Call, exec}
use aa_v.Services.Media.{serve_all, serve_all-acks}
use aa_v.Services.Video as Video
use aa_v.Services.Video.{VideoService}
use aa_v.Services.Video.Streams as VideoStreams
use aa_v.Services.Video.Streams.{IsShowing}
use aa_v.Services.Audio as Audio
use aa_v.Services.Audio.{AudioService}
use aa_v.Services.Audio.Sinks as AudioSinks
use aa_v.Services.Audio.Sinks.{IsPlaying}
use aa_v.Services.Any.{
  AnyService, AnyMessages, as_video, as_audio, exec-lift, on_any_message, any_service,
}
use aa_v.Session.{Session}
use aa_v.Session.Handlers.{is_handshake_state}
use aa_v.Session.Sending.{CanSeal}
use aa_v.Session.Apart.{answer, for_channel, dispatch_all, dispatch_all-apart}

module _ (messages : AnyMessages) where
  -- On a video service, a session's message is answered by its class.
  answer-video :
      (m : AapMessage) (v : VideoService)
      → answer (any_service messages) m (AnyService.video v) ≡ (
        AnyService.video
            (exec (Video.on_video_message messages.video m.message_type m.payload) v).0,
        (exec (Video.on_video_message messages.video m.message_type m.payload) v).1,
      )
  unfolding any_service on_any_message exec
  answer-video m v =
      exec-lift AnyService.video as_video (λ w. refl)
        (Video.on_video_message messages.video m.message_type m.payload) v

  answer-audio :
      (m : AapMessage) (v : AudioService)
      → answer (any_service messages) m (AnyService.audio v) ≡ (
        AnyService.audio
            (exec (Audio.on_audio_message messages.audio m.message_type m.payload) v).0,
        (exec (Audio.on_audio_message messages.audio m.message_type m.payload) v).1,
      )
  unfolding any_service on_any_message exec
  answer-audio m v =
      exec-lift AnyService.audio as_audio (λ w. refl)
        (Audio.on_audio_message messages.audio m.message_type m.payload) v

-- A run of a service of one class, when each answer is that of its class.
serve_all-class :
    {A : Type 0} (of_class : A → AnyService)
    → (respond : AapMessage → AnyService → AnyService × List Call)
    → (respond_class : AapMessage → A → A × List Call)
    → ((m : AapMessage) (a : A)
        → respond m (of_class a) ≡ (of_class (respond_class m a).0, (respond_class m a).1))
    → (ms : List AapMessage) (a : A)
    → (serve_all respond ms (of_class a)).0 ≡ of_class (serve_all respond_class ms a).0
serve_all-class of_class respond respond_class each [] a = refl
serve_all-class of_class respond respond_class each (m ∷ ms) a =
    rw (each m a) (serve_all-class of_class respond respond_class each ms (respond_class m a).0)

module _ {C : Type 0} (messages : AnyMessages) (strategy : CryptoStrategy C) (auth : Bytes)
    (Ready : C → Type 0) (sealing : CanSeal strategy Ready) where
  -- In a session whose handshake is over and whose strategy can seal, with a video service and an
  -- audio service whose sinks are in step with their streams: after any messages on all channels
  -- they are a video service and an audio service whose sinks are in step with their streams.
  pub dispatch_all-streams :
      (ms : List AapMessage) (s : Session C AnyService) (video_id audio_id : ℕ)
      → (v : VideoService) (a : AudioService) → is_handshake_state s.state ≡ false
      → Ready s.crypto
      → find video_id s.services ≡ some (AnyService.video v)
      → IsShowing v
      → find audio_id s.services ≡ some (AnyService.audio a)
      → IsPlaying a
      → let t = dispatch_all strategy (any_service messages) auth ms s in
        ((w : VideoService) × (find video_id t.services ≡ some (AnyService.video w)) × IsShowing w)
        × ((b : AudioService) × (find audio_id t.services ≡ some (AnyService.audio b))
            × IsPlaying b)
  dispatch_all-streams ms s video_id audio_id v a past r found_v p found_a q =
      let apart = dispatch_all-apart strategy (any_service messages) auth Ready sealing ms s in
      let show =
        λ (m : AapMessage). exec (Video.on_video_message messages.video m.message_type m.payload) in
      let play =
        λ (m : AapMessage). exec (Audio.on_audio_message messages.audio m.message_type m.payload) in
      let shown = for_channel video_id ms in
      let played = for_channel audio_id ms in
      (
        (
          (serve_all show shown v).0,
          (apart video_id (AnyService.video v) past r found_v).0
              ∙ ap some (serve_all-class AnyService.video _ show (answer-video messages) shown v),
          (serve_all-acks show IsShowing (λ m. VideoStreams.owed m.message_type)
              (λ m. VideoStreams.message-Answers messages.video m.message_type m.payload) shown v
              p).0,
        ),
        (
          (serve_all play played a).0,
          (apart audio_id (AnyService.audio a) past r found_a).0
              ∙ ap some (serve_all-class AnyService.audio _ play (answer-audio messages) played a),
          (serve_all-acks play IsPlaying (λ m. AudioSinks.owed m.message_type)
              (λ m. AudioSinks.message-Answers messages.audio m.message_type m.payload) played a
              q).0,
        ),
      )
