-- ===== src/Services/Video/Cases.antt =====
-- The handlers of core/src/service/VideoService.cpp by the message type.
use mathlib.Core.Path.{subst}
use aa_v.Base.{
  ℕ, ◌≡◌, sym, arith, ==_iff, Bool, true, false, Option, none, [], ◌∷◌, Bytes, ◌==◌, if_elim,
}
use aa_v.Protocol.{ControlMessageType, MediaMessageType, control_code, media_code}
use aa_v.Service.{Program}
use aa_v.Services
use aa_v.Services.{handle}
use aa_v.Services.Video.{
  VideoMessages, VideoService, channel_of, on_channel_open, on_start, on_setup, on_codec_config,
  on_data, on_focus_request, handlers, on_video_message,
}

-- `t` is the message type.
abbrev pub is_media : ℕ → MediaMessageType → Bool
is_media t message_type = t == media_code message_type

-- The answer to a channel's opening.
abbrev pub opening : Program VideoService
opening =
    Services.send channel_of ControlMessageType.channel_open_response (8 ∷ 0 ∷ [])
      (Program.get (λ v. on_channel_open (channel_of v)))

module _ (messages : VideoMessages) (P : ℕ → Program VideoService → Type 0) where
  -- What holds of the methods that answer a message.
  pub record OfMethods (payload : Bytes) : Type 0 where
    pub setup : P (media_code MediaMessageType.setup) (on_setup messages)
    pub start : P (media_code MediaMessageType.start) (on_start (messages.parse_start payload))
    pub codec : P (media_code MediaMessageType.codec_config) (on_codec_config messages payload)
    pub frame : P (media_code MediaMessageType.media_data) (on_data messages payload)
    pub focus :
        P
          (media_code MediaMessageType.video_focus_request)
          (on_focus_request messages (messages.parse_focus_request payload))
    pub nothing :
        (t : ℕ)
        → is_media t MediaMessageType.media_data ≡ false
        → is_media t MediaMessageType.codec_config ≡ false
        → is_media t MediaMessageType.video_focus_request ≡ false
        → P t Program.done
    pub greeting : P (control_code ControlMessageType.channel_open_request) opening

  at : (t n : ℕ) (program : Program VideoService) → (t == n) ≡ true → P n program → P t program
  at t n program e p = subst (λ m. P m program) (sym ((==_iff t n).0 e)) p

  handlers-of :
      (t : ℕ) (payload : Bytes)
      → OfMethods payload
      → P t (handle channel_of (handlers messages t) payload)
  unfolding handlers handle
  handlers-of t payload all =
      if_elim Q (is_media t MediaMessageType.setup) _ _ (λ e. at t _ _ e all.setup)
        (λ _.
          if_elim Q (is_media t MediaMessageType.start) _ _ (λ e. at t _ _ e all.start)
            (λ _.
              if_elim Q (is_media t MediaMessageType.codec_config) _ _ (λ e. at t _ _ e all.codec)
                (λ c.
                  if_elim Q (is_media t MediaMessageType.media_data) _ _ (λ e. at t _ _ e all.frame)
                    (λ d.
                      if_elim Q (is_media t MediaMessageType.stop) _ _
                        (λ e. all.nothing t d c (ground arith))
                        (λ _.
                          if_elim Q (is_media t MediaMessageType.video_focus_request) _ _
                            (λ e. at t _ _ e all.focus)
                            (λ f.
                              if_elim Q (is_media t MediaMessageType.ack) _ none
                                (λ _. all.nothing t d c f) (λ _. all.nothing t d c f)))))))
    where
      Q : Option (Bytes → Program VideoService) → Type 0
      Q o = P t (handle channel_of o payload)

  pub on_video_message-of :
      (t : ℕ) (payload : Bytes) → OfMethods payload → P t (on_video_message messages t payload)
  unfolding on_video_message Services.on_message
  on_video_message-of t payload all =
      if_elim (P t) (t == control_code ControlMessageType.channel_open_request) opening
        (handle channel_of (handlers messages t) payload) (λ e. at t _ opening e all.greeting)
        (λ e. handlers-of t payload all)
