-- ===== src/Services/Video/Focus.antt =====
-- The video focus that core/src/service/VideoService.cpp tells the phone.
use mathlib.Core.Path.{subst}
use aa_v.Base.{
  ℕ, ◌≡◌, refl, sym, append-nil, Bool, true, false, Option, none, some, List, [], ◌∷◌, ◌++◌, map,
  Bytes, ◌==◌, if◌then◌else◌, arith,
}
use aa_v.Protocol.{MediaMessageType}
use aa_v.Service.{Program}
use aa_v.Services
use aa_v.Services.{Call, exec}
use aa_v.Services.Media.{send_media}
use aa_v.Services.Video.{
  VideoMessages, VideoService, is_main, video_focus_native, video_focus_projected, on_channel_open,
  on_start, on_setup, send_ack, on_codec_config, on_data, send_video_focus, set_video_focus,
  on_focus_request, on_video_message,
}
use aa_v.Services.Video.Cases.{is_media, on_video_message-of}

-- The focus notifications among a service's calls.
abbrev pub notified : List Call → List Bytes
notified [] = []
notified (Call.sent channel_id t payload ∷ calls) =
    if is_media t MediaMessageType.video_focus_notification
    then payload ∷ notified calls
    else notified calls
notified (Call.stop_requested ∷ calls) = notified calls

pub notified-append : (xs ys : List Call) → notified (xs ++ ys) ≡ notified xs ++ notified ys
notified-append [] ys = refl
notified-append (Call.stop_requested ∷ xs) ys = notified-append xs ys
notified-append (Call.sent channel_id t payload ∷ xs) ys = ground (arith, notified-append xs ys)

-- The focus that the phone asks for by a request of this mode, if it is one that the code knows.
abbrev pub asked : Option ℕ → List Bool
asked none = []
asked (some mode) =
    if mode == video_focus_native
    then false ∷ []
    else if mode == video_focus_projected
    then true ∷ []
    else []

abbrev pub last_of : Bool → List Bool → Bool
last_of b [] = b
last_of b (c ∷ cs) = last_of c cs

module _ (messages : VideoMessages) where
  -- What a method does on the focus changes `changes`, of which the phone asked `reports`.
  abbrev pub Focuses : List Bool → List Bool → Program VideoService → Type 0
  Focuses changes reports program =
      (v : VideoService)
      → let (w, calls) = exec program v in
        (notified calls ≡ (
          if is_main v.video_config.display_type then map messages.serialize_focus changes else []))
        × (w.focus_reports ≡ v.focus_reports ++ (if v.has_focus_callback then reports else []))
        × (w.sinks_active ≡ (
            if is_main v.video_config.display_type
            then last_of v.sinks_active changes
            else v.sinks_active))
        × (w.video_config ≡ v.video_config)
        × (w.has_focus_callback ≡ v.has_focus_callback)

  pub none_asked : (xs : List Bool) (b : Bool) → xs ≡ xs ++ (if b then [] else [])
  none_asked xs true = sym (append-nil xs)
  none_asked xs false = sym (append-nil xs)

  data-Focuses : (payload : Bytes) → Focuses [] [] (on_data messages payload)
  unfolding on_data send_ack send_media exec
  data-Focuses payload v = ground (arith, none_asked v.focus_reports v.has_focus_callback)

  focus-Focuses :
      (mode : Option ℕ) → Focuses (asked mode) (asked mode) (on_focus_request messages mode)
  unfolding on_focus_request set_video_focus send_video_focus send_media exec
  focus-Focuses none v = ground (arith, none_asked v.focus_reports v.has_focus_callback)
  focus-Focuses (some mode) v =
      ground (arith, none_asked v.focus_reports v.has_focus_callback, append-nil v.focus_reports)

  pub set_focus-Focuses :
      (projected : Bool)
      → Focuses (projected ∷ []) [] (set_video_focus messages projected Program.done)
  unfolding set_video_focus send_video_focus send_media exec
  set_focus-Focuses projected v = ground (arith, none_asked v.focus_reports v.has_focus_callback)

  start-Focuses : (parsed : Option ℕ) → Focuses [] [] (on_start parsed)
  unfolding on_start exec
  start-Focuses none v = ground (arith, none_asked v.focus_reports v.has_focus_callback)
  start-Focuses (some id) v = ground (arith, none_asked v.focus_reports v.has_focus_callback)

  quiet-Focuses : Focuses [] [] Program.done
  unfolding exec
  quiet-Focuses v = ground (arith, none_asked v.focus_reports v.has_focus_callback)

  -- The focus that a message asks for.
  abbrev pub asked_by : ℕ → Bytes → List Bool
  asked_by t payload =
      if is_media t MediaMessageType.video_focus_request
      then asked (messages.parse_focus_request payload)
      else []

  nothing-Focuses :
      (t : ℕ) (payload : Bytes)
      → is_media t MediaMessageType.video_focus_request ≡ false
      → Focuses (asked_by t payload) (asked_by t payload) Program.done
  nothing-Focuses t payload e =
      subst (λ xs. Focuses xs xs Program.done) (ground (arith, e)) quiet-Focuses

  pub message-Focuses :
      (t : ℕ) (payload : Bytes)
      → Focuses (asked_by t payload) (asked_by t payload) (on_video_message messages t payload)
  unfolding on_setup on_codec_config send_ack Services.send send_media on_channel_open exec
  message-Focuses t payload =
      on_video_message-of messages
        (λ t program. Focuses (asked_by t payload) (asked_by t payload) program) t payload
        (record {
          setup = λ v. ground (arith, none_asked v.focus_reports v.has_focus_callback);
          start = start-Focuses (messages.parse_start payload);
          codec = λ v. ground (arith, none_asked v.focus_reports v.has_focus_callback);
          frame = data-Focuses payload;
          focus = focus-Focuses (messages.parse_focus_request payload);
          nothing = λ t d c f. nothing-Focuses t payload f;
          greeting = λ v. ground (arith, none_asked v.focus_reports v.has_focus_callback);
        })
