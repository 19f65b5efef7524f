-- ===== src/Services/Video/Notices.antt =====
-- The video focus in a run of core/src/service/VideoService.cpp.
use mathlib.Core.Path.{subst}
use mathlib.Core.List.{map-append}
use aa_v.Base.{
  ◌≡◌, refl, ap, sym, append-nil, append_assoc, ap₂, ◌∙◌, Bool, true, false, List, [], ◌∷◌, ◌++◌,
  map, if◌then◌else◌, arith,
}
use aa_v.Services.{Call, exec}
use aa_v.Services.Media.{serve_all}
use aa_v.Services.Video.{
  VideoMessages, VideoService, VideoServiceConfig, is_main, on_channel_close, attach_sinks,
  detach_sinks, set_native_window,
}
use aa_v.Services.Video.Focus.{
  notified, notified-append, last_of, asked_by, none_asked, message-Focuses, set_focus-Focuses,
}
use aa_v.Services.Video.Inputs.{Input, respond}

module _ (messages : VideoMessages) where
  abbrev pub changes : Input → List Bool
  changes (Input.message t payload) = asked_by messages t payload
  changes (Input.focused projected) = projected ∷ []
  changes _ = []

  abbrev pub reports : Input → List Bool
  reports (Input.message t payload) = asked_by messages t payload
  reports _ = []

  -- What turns the sinks of a display on and off; `m` says that it is the main one.
  abbrev pub toggles : Bool → Input → List Bool
  toggles m Input.attached = true ∷ []
  toggles m Input.detached = false ∷ []
  toggles m i = if m then changes i else []

  abbrev pub all_of : (Input → List Bool) → List Input → List Bool
  all_of f [] = []
  all_of f (i ∷ is) = f i ++ all_of f is

  -- An answer to an input with this much of the focus in it.
  abbrev pub FocusAnswer :
      List Bool → List Bool → List Bool → VideoService → VideoService × List Call → Type 0
  FocusAnswer changed reported toggled v (w, calls) =
      (notified calls ≡ (
        if is_main v.video_config.display_type then map messages.serialize_focus changed else []))
      × (w.focus_reports ≡ v.focus_reports ++ (if v.has_focus_callback then reported else []))
      × (w.sinks_active ≡ last_of v.sinks_active toggled)
      × (w.video_config ≡ v.video_config)
      × (w.has_focus_callback ≡ v.has_focus_callback)

  respond-FocusAnswer :
      (i : Input) (v : VideoService)
      → FocusAnswer
          (changes i)
          (reports i)
          (toggles (is_main v.video_config.display_type) i)
          v
          (respond messages i v)
  unfolding exec attach_sinks detach_sinks set_native_window on_channel_close
  respond-FocusAnswer (Input.message t payload) v =
      ground (arith, message-Focuses messages t payload v)
  respond-FocusAnswer (Input.focused projected) v =
      ground (arith, set_focus-Focuses messages projected v)
  respond-FocusAnswer (Input.window address) v =
      ground (arith, none_asked messages v.focus_reports v.has_focus_callback)
  respond-FocusAnswer Input.attached v =
      ground (arith, none_asked messages v.focus_reports v.has_focus_callback)
  respond-FocusAnswer Input.detached v =
      ground (arith, none_asked messages v.focus_reports v.has_focus_callback)
  respond-FocusAnswer Input.closed v =
      ground (arith, none_asked messages v.focus_reports v.has_focus_callback)

  -- Each answer's part of the focus, put together.
  answers-append :
      (c c' r r' t t' : List Bool) (v w u : VideoService) (calls more : List Call)
      → FocusAnswer c r t v (w, calls)
      → FocusAnswer c' r' t' w (u, more)
      → FocusAnswer (c ++ c') (r ++ r') (t ++ t') v (u, calls ++ more)
  answers-append c c' r r' t t' v w u calls more (a0, a1, a2, a3, a4) (b0, b1, b2, b3, b4) = (
    notified-append calls more
        ∙ ap₂ ◌++◌ a0 (
            b0
            ∙ ap
                (λ (k : VideoServiceConfig).
                  if is_main k.display_type then map messages.serialize_focus c' else [])
                a3)
        ∙ told-append (is_main v.video_config.display_type) c c',
    b1
        ∙ ap₂ (λ f b. f ++ (if b then r' else [])) a1 a4
        ∙ reported-append v.has_focus_callback v.focus_reports r r',
    b2 ∙ ap (λ b. last_of b t') a2 ∙ last_of-append v.sinks_active t t',
    b3 ∙ a3,
    b4 ∙ a4,
  )
    where
      told-append :
          (b : Bool) (xs ys : List Bool)
          → (if b then map messages.serialize_focus xs else [])
              ++ (if b then map messages.serialize_focus ys else [])
            ≡ (if b then map messages.serialize_focus (xs ++ ys) else [])
      told-append true xs ys = sym (map-append messages.serialize_focus xs ys)
      told-append false xs ys = refl

      reported-append :
          (b : Bool) (f xs ys : List Bool)
          → (f ++ (if b then xs else [])) ++ (if b then ys else [])
            ≡ f ++ (if b then xs ++ ys else [])
      reported-append true f xs ys = append_assoc f xs ys
      reported-append false f xs ys = append-nil (f ++ [])

      last_of-append :
          (b : Bool) (xs ys : List Bool) → last_of (last_of b xs) ys ≡ last_of b (xs ++ ys)
      last_of-append b [] ys = refl
      last_of-append b (x ∷ xs) ys = last_of-append x xs ys

  -- Whatever reaches a video service, in any order: a main display sends the phone one focus
  -- notification for each change of the focus that the phone asks for (with a mode the code knows)
  -- or the application sets, in their order and with the new focus, and any other display sends
  -- none. The application hears of each change that the phone asks for, on every display, if its
  -- callback is set. The sinks are on as by the last attachment, detachment or, on the main
  -- display, change of the focus.
  pub serve_all-FocusAnswer :
      (is : List Input) (v : VideoService)
      → FocusAnswer
          (all_of changes is)
          (all_of reports is)
          (all_of (toggles (is_main v.video_config.display_type)) is)
          v
          (serve_all (respond messages) is v)
  serve_all-FocusAnswer [] v =
      ground (arith, none_asked messages v.focus_reports v.has_focus_callback)
  serve_all-FocusAnswer (i ∷ is) v =
      let one = respond-FocusAnswer i v in
      let rest =
        subst
          (λ (k : VideoServiceConfig).
            FocusAnswer (all_of changes is) (all_of reports is)
              (all_of (toggles (is_main k.display_type)) is) (respond messages i v).0
              (serve_all (respond messages) is (respond messages i v).0))
          one.3 (serve_all-FocusAnswer is (respond messages i v).0) in
      answers-append (changes i) (all_of changes is) (reports i) (all_of reports is)
        (toggles (is_main v.video_config.display_type) i)
        (all_of (toggles (is_main v.video_config.display_type)) is) v (respond messages i v).0
        (serve_all (respond messages) is (respond messages i v).0).0 (respond messages i v).1
        (serve_all (respond messages) is (respond messages i v).0).1 one rest
