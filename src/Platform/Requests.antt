-- ===== src/Platform/Requests.antt =====
-- The application's calls in AidlEngineController.cpp on a session that it started.
use aa_v.Base.{ℕ, ◌≡◌, refl, Bool, some, List, [], ◌∷◌, ◌++◌}
use aa_v.Base.Assoc.{find}
use aa_v.Session.Handlers.{Command}
use aa_v.Engine.{Effect, Job, Engine, post, on_session, run_job, run_next}
use aa_v.Platform.{ℤ}
use aa_v.Platform.Controller.{to_uint32, Request, request_job}
use aa_v.Platform.Sessions.{has_transport}

-- The requests that are calls on a session, each by the call that it asks for.
pub data AsksFor : (ℤ → Request) → Command → Type 0 where
  touch :
      (x y action : ℕ)
      → AsksFor (λ id. Request.send_touch_event id x y action) (Command.send_touch_event x y action)
  media_key :
      (keycode : ℕ)
      → AsksFor (λ id. Request.send_media_key id keycode) (Command.send_media_key keycode)
  no_audio : AsksFor (λ id. Request.release_audio_focus id) Command.release_audio_focus
  audio : AsksFor (λ id. Request.gain_audio_focus id) Command.gain_audio_focus
  pairing :
      (status : ℕ) (already_paired : Bool)
      → AsksFor
          (λ id. Request.complete_pairing id status already_paired)
          (Command.complete_pairing status already_paired)
  auth :
      (status : ℕ) → AsksFor (λ id. Request.complete_auth id status) (Command.complete_auth status)
  video :
      (projected : Bool)
      → AsksFor (λ id. Request.set_video_focus id projected) (Command.set_video_focus projected)
  attach : AsksFor (λ id. Request.attach_all_sinks id) Command.attach_all_sinks
  detach : AsksFor (λ id. Request.detach_all_sinks id) Command.detach_all_sinks

pub request_job-AsksFor :
    (make : ℤ → Request) (command : Command)
    → AsksFor make command
    → (id : ℤ) → request_job (make id) ≡ Job.session_call (to_uint32 id) command
unfolding request_job
request_job-AsksFor _ _ (AsksFor.touch x y action) id = refl
request_job-AsksFor _ _ (AsksFor.media_key keycode) id = refl
request_job-AsksFor _ _ AsksFor.no_audio id = refl
request_job-AsksFor _ _ AsksFor.audio id = refl
request_job-AsksFor _ _ (AsksFor.pairing status already_paired) id = refl
request_job-AsksFor _ _ (AsksFor.auth status) id = refl
request_job-AsksFor _ _ (AsksFor.video projected) id = refl
request_job-AsksFor _ _ AsksFor.attach id = refl
request_job-AsksFor _ _ AsksFor.detach id = refl

module _ (service_ids : ℕ → List ℕ) where
  on_session-found :
      (id : ℕ) (call : Effect) (v : List ℕ) (e : Engine)
      → find id e.sessions ≡ some v
      → (on_session id call e).effects ≡ e.effects ++ call ∷ []
  unfolding on_session
  on_session-found id call v e found = rw (found, on_session) refl

  pub session_call-reaches :
      (id : ℕ) (command : Command) (v : List ℕ) (e : Engine)
      → e.jobs ≡ []
      → find id e.sessions ≡ some v
      → (run_next has_transport service_ids (post (Job.session_call id command) e)).effects
        ≡ e.effects ++ Effect.session_command id command ∷ []
  unfolding run_next run_job
  session_call-reaches id command v e idle found =
      rw idle
        (on_session-found id (Effect.session_command id command) v (record e { jobs = [] }) found)
