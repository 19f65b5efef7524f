-- ===== src/Engine/Exclusive.antt =====
-- Which sessions core/src/engine/Engine.cpp asks to attach their sinks.
use aa_v.Base.{
  ℕ, ◌≡◌, refl, Bool, true, false, not, ◌&&◌, ◌||◌, none, some, List, [], ◌∷◌, ◌++◌, foldl, ◌==◌,
  if_elim, if◌then◌else◌, arith, Option-cases, inl, inr,
}
use aa_v.Base.Assoc.{find, insert, find-insert, find-erase}
use aa_v.Session.{SessionState, is_terminal}
use aa_v.Session.Handlers.{Command}
use aa_v.Engine.{
  Effect, Engine, emit, on_session, stop_each, detach_active, attach_active, switch_active,
  cleanup_session, on_session_state_changed, status_of,
}

-- Whether the engine's last call on a session's sinks attaches any, after a call. A new session has
-- them detached; attach_all_sinks attaches them, and so does a video focus that is projected, the
-- video sinks at least; only detach_all_sinks detaches all of them. What the session's services do
-- at the phone's request is not a call of the engine.
abbrev pub after_effect : ℕ → Bool → Effect → Bool
after_effect id before (Effect.created j given) = if j == id then false else before
after_effect id before (Effect.session_command j Command.attach_all_sinks) =
    if j == id then true else before
after_effect id before (Effect.session_command j Command.detach_all_sinks) =
    if j == id then false else before
after_effect id before (Effect.session_command j (Command.set_video_focus true)) =
    if j == id then true else before
after_effect id before _ = before

abbrev pub asked_to_attach : ℕ → List Effect → Bool
asked_to_attach id es = foldl (after_effect id) false es

abbrev pub is_live : ℕ → Engine → Bool
is_live id e = elim (find id e.sessions) [ none ↦ false | some given ↦ true ]

abbrev pub exclusive_at : ℕ → Engine → Bool
exclusive_at id e =
    not (asked_to_attach id e.effects && is_live id e)
    || (id == e.active_session_id && not (id == 0))

-- A session that the engine holds is asked to attach sinks only if it is the active one.
unfoldable pub IsExclusive : Engine → Type 0
IsExclusive e = (id : ℕ) → exclusive_at id e ≡ true

foldl-append {ℓ κ} :
    {A : Type ℓ} {B : Type κ} (f : B → A → B) (b : B) (xs ys : List A)
    → foldl f b (xs ++ ys) ≡ foldl f (foldl f b xs) ys
foldl-append f b [] ys = refl
foldl-append f b (x ∷ xs) ys = foldl-append f (f b x) xs ys

asked_to_attach-emit :
    (id : ℕ) (x : Effect) (es : List Effect)
    → asked_to_attach id (es ++ x ∷ []) ≡ after_effect id (asked_to_attach id es) x
asked_to_attach-emit id x es = foldl-append (after_effect id) false es (x ∷ [])

abbrev detached_at : ℕ → Engine → Bool
detached_at id e = not (asked_to_attach id e.effects && is_live id e)

detach-IsDetached :
    (e : Engine) → IsExclusive e → (id : ℕ) → detached_at id (detach_active e) ≡ true
unfolding IsExclusive detach_active on_session
detach-IsDetached e ex id = ground (
  arith,
  ex id,
  asked_to_attach-emit id (Effect.session_command e.active_session_id Command.detach_all_sinks)
      e.effects,
)

pub switch-IsExclusive :
    (session_id : ℕ) (e : Engine) → IsExclusive e → IsExclusive (switch_active session_id e)
unfolding IsExclusive switch_active attach_active on_session
switch-IsExclusive session_id e ex id = ground (
  arith,
  ex id,
  detach-IsDetached e ex id,
  asked_to_attach-emit id (Effect.session_command session_id Command.attach_all_sinks)
      (detach_active e).effects,
)

-- A call that attaches nothing.
pub quiet-IsExclusive :
    (x : Effect) (e : Engine)
    → ((id : ℕ) (b : Bool) → (not (after_effect id b x) || b) ≡ true)
    → IsExclusive e
    → IsExclusive (emit x e)
unfolding IsExclusive
quiet-IsExclusive x e quiet ex id =
    ground
      (arith, ex id, quiet id (asked_to_attach id e.effects), asked_to_attach-emit id x e.effects)

pub same : (b : Bool) → (not b || b) ≡ true
same b = ground arith

-- The commands that attach sinks.
abbrev pub attaches : Command → Bool
attaches Command.attach_all_sinks = true
attaches (Command.set_video_focus true) = true
attaches _ = false

pub command-quiet :
    (session_id : ℕ) (c : Command)
    → attaches c ≡ false
    → (id : ℕ) (b : Bool)
    → (not (after_effect id b (Effect.session_command session_id c)) || b) ≡ true
command-quiet session_id Command.attach_all_sinks h id b = absurd (cc)
command-quiet session_id Command.detach_all_sinks h id b = ground arith
command-quiet session_id (Command.set_video_surface w) h id b = same b
command-quiet session_id (Command.set_video_focus true) h id b = absurd (cc)
command-quiet session_id (Command.set_video_focus false) h id b = same b
command-quiet session_id (Command.send_touch_event x y a) h id b = same b
command-quiet session_id (Command.send_media_key k) h id b = same b
command-quiet session_id Command.release_audio_focus h id b = same b
command-quiet session_id Command.gain_audio_focus h id b = same b
command-quiet session_id (Command.complete_pairing st p) h id b = same b
command-quiet session_id (Command.complete_auth st) h id b = same b

pub on_session-IsExclusive :
    (session_id : ℕ) (x : Effect) (e : Engine)
    → ((id : ℕ) (b : Bool) → (not (after_effect id b x) || b) ≡ true)
    → IsExclusive e
    → IsExclusive (on_session session_id x e)
unfolding on_session
on_session-IsExclusive session_id x e quiet ex = elim (Option-cases (find session_id e.sessions)) [
  | inl missing ↦ rw (missing, on_session) ex
  | inr (v, found) ↦ rw (found, on_session) (quiet-IsExclusive x e quiet ex)
]

-- A call on one session leaves the others.
command-other :
    (session_id : ℕ) (c : Command) (id : ℕ) (b : Bool)
    → (session_id == id) ≡ false
    → after_effect id b (Effect.session_command session_id c) ≡ b
command-other session_id Command.attach_all_sinks id b h = rw h refl
command-other session_id Command.detach_all_sinks id b h = rw h refl
command-other session_id (Command.set_video_surface w) id b h = refl
command-other session_id (Command.set_video_focus true) id b h = rw h refl
command-other session_id (Command.set_video_focus false) id b h = refl
command-other session_id (Command.send_touch_event x y a) id b h = refl
command-other session_id (Command.send_media_key k) id b h = refl
command-other session_id Command.release_audio_focus id b h = refl
command-other session_id Command.gain_audio_focus id b h = refl
command-other session_id (Command.complete_pairing st p) id b h = refl
command-other session_id (Command.complete_auth st) id b h = refl

active-emit :
    (session_id : ℕ) (c : Command) (e : Engine)
    → (session_id == e.active_session_id && not (session_id == 0)) ≡ true
    → IsExclusive e
    → IsExclusive (emit (Effect.session_command session_id c) e)
unfolding IsExclusive
active-emit session_id c e active ex id = ground (
  arith,
  active,
  ex id,
  asked_to_attach-emit id (Effect.session_command session_id c) e.effects,
  command-other session_id c id (asked_to_attach id e.effects),
)

-- Any call on the active session.
pub active-IsExclusive :
    (session_id : ℕ) (c : Command) (e : Engine)
    → (session_id == e.active_session_id && not (session_id == 0)) ≡ true
    → IsExclusive e
    → IsExclusive (on_session session_id (Effect.session_command session_id c) e)
unfolding on_session
active-IsExclusive session_id c e active ex = elim (Option-cases (find session_id e.sessions)) [
  | inl missing ↦ rw (missing, on_session) ex
  | inr (v, found) ↦ rw (found, on_session) (active-emit session_id c e active ex)
]

pub stop_each-IsExclusive :
    (ids : List ℕ) (e : Engine) → IsExclusive e → IsExclusive (stop_each ids e)
unfolding stop_each
stop_each-IsExclusive [] e ex = ex
stop_each-IsExclusive (id ∷ ids) e ex =
    stop_each-IsExclusive ids (emit (Effect.session_stop id) e)
      (quiet-IsExclusive (Effect.session_stop id) e (λ i b. same b) ex)

-- A session that is new, or takes the place of another, has its sinks detached.
pub created-IsExclusive :
    (sid : ℕ) (given : List ℕ) (e : Engine)
    → IsExclusive e
    → IsExclusive
        (emit (Effect.created sid given) (record e { sessions = insert sid given e.sessions }))
unfolding IsExclusive
created-IsExclusive sid given e ex id = ground (
  arith,
  ex id,
  find-insert sid id given e.sessions,
  asked_to_attach-emit id (Effect.created sid given) e.effects,
)

cleanup-IsExclusive :
    (session_id : ℕ) (e : Engine) → IsExclusive e → IsExclusive (cleanup_session session_id e)
unfolding IsExclusive cleanup_session
cleanup-IsExclusive session_id e ex id = ground (arith, ex id, find-erase session_id id e.sessions)

pub changed-IsExclusive :
    (session_id : ℕ) (state : SessionState) (e : Engine)
    → IsExclusive e
    → IsExclusive (on_session_state_changed session_id state e)
unfolding on_session_state_changed
changed-IsExclusive session_id state e ex =
    if_elim IsExclusive e.has_callback _ _
      (λ told.
        quiet-IsExclusive (Effect.state_reported session_id (status_of state)) _ (λ i b. same b)
          cleaned)
      (λ silent. cleaned)
  where
    cleaned : IsExclusive (if is_terminal state then cleanup_session session_id e else e)
    cleaned =
        if_elim IsExclusive (is_terminal state) (cleanup_session session_id e) e
          (λ over. cleanup-IsExclusive session_id e ex) (λ on. ex)
