-- ===== src/Engine/Runs.antt =====
-- Runs of core/src/engine/Engine.cpp: the application's calls, the jobs they post, and the
-- sessions' reports.
use aa_v.Base.{
  ℕ, ◌≡◌, refl, Bool, Bool-cases, inl, inr, false, not, ◌&&◌, ◌==◌, arith, List, ◌∷◌, Bytes,
  if_elim,
}
use aa_v.Protocol.{AapErrc}
use aa_v.Session.{SessionState}
use aa_v.Session.Handlers.{channels}
use aa_v.Engine.{
  Effect, Job, Engine, create, post, register_callback, start_session, start_job,
  report_start_session_failure, on_session_state_changed, on_session_error, on_phone_identified,
  session_channels, run_job, run_next,
}
use aa_v.Engine.Exclusive.{
  IsExclusive, attaches, same, command-quiet, active-IsExclusive, switch-IsExclusive,
  quiet-IsExclusive, on_session-IsExclusive, stop_each-IsExclusive, created-IsExclusive,
  changed-IsExclusive,
}

-- A job by which the application attaches sinks of a session that is not the active one when the
-- job runs.
abbrev pub attaches_elsewhere : (active_session_id : ℕ) → Job → Bool
attaches_elsewhere active_session_id (Job.session_call session_id command) =
    attaches command && not (session_id == active_session_id && not (session_id == 0))
attaches_elsewhere active_session_id _ = false

create-IsExclusive : IsExclusive create
unfolding IsExclusive
create-IsExclusive id = refl

error-IsExclusive :
    (session_id : ℕ) (ec : AapErrc) (e : Engine)
    → IsExclusive e
    → IsExclusive (on_session_error session_id ec e)
unfolding on_session_error
error-IsExclusive session_id ec e ex =
    if_elim IsExclusive e.has_callback _ e
      (λ told. quiet-IsExclusive (Effect.error_reported session_id ec) e (λ i b. same b) ex)
      (λ silent. ex)

phone-IsExclusive :
    (session_id : ℕ) (name : Bytes) (e : Engine)
    → IsExclusive e
    → IsExclusive (on_phone_identified session_id name e)
unfolding on_phone_identified
phone-IsExclusive session_id name e ex =
    if_elim IsExclusive e.has_callback _ e
      (λ told. quiet-IsExclusive (Effect.phone_identified session_id name) e (λ i b. same b) ex)
      (λ silent. ex)

module _ (has_transport : Bytes → Bool) (service_ids : ℕ → List ℕ) where
  start_job-IsExclusive :
      (descriptor : Bytes) (sid : ℕ) (e : Engine)
      → IsExclusive e
      → IsExclusive (start_job has_transport service_ids descriptor sid e)
  unfolding start_job report_start_session_failure
  start_job-IsExclusive descriptor sid e ex =
      if_elim IsExclusive (has_transport descriptor) _ _
        (λ made.
          quiet-IsExclusive (Effect.session_start sid) _ (λ i b. same b)
            (created-IsExclusive sid (session_channels (service_ids sid)) e ex))
        (λ refused.
          if_elim IsExclusive e.has_callback _ e
            (λ told.
              quiet-IsExclusive (Effect.error_reported sid AapErrc.transport_closed) e
                (λ i b. same b) ex)
            (λ silent. ex))

  pub run_job-IsExclusive :
      (job : Job) (e : Engine)
      → attaches_elsewhere e.active_session_id job ≡ false
      → IsExclusive e
      → IsExclusive (run_job has_transport service_ids job e)
  unfolding run_job
  run_job-IsExclusive (Job.do_start_session descriptor sid) e h ex =
      start_job-IsExclusive descriptor sid e ex
  run_job-IsExclusive (Job.stop_session session_id) e h ex =
      on_session-IsExclusive session_id (Effect.session_stop session_id) e (λ i b. same b) ex
  run_job-IsExclusive Job.stop_all e h ex = stop_each-IsExclusive (channels e.sessions) e ex
  run_job-IsExclusive (Job.set_active_session session_id) e h ex =
      switch-IsExclusive session_id e ex
  run_job-IsExclusive (Job.session_call session_id command) e h ex =
      elim (Bool-cases (attaches command)) [
        | inl sinks ↦ active-IsExclusive session_id command e (ground (arith, h, sinks)) ex
        | inr others ↦
            on_session-IsExclusive session_id (Effect.session_command session_id command) e
              (command-quiet session_id command others) ex
      ]

  pub data Run : Engine → Type 0 where
    new : Run create
    given_callback : {e : Engine} → Run e → (given : Bool) → Run (register_callback given e)
    started : {e : Engine} → Run e → (descriptor : Bytes) → Run (start_session descriptor e).1
    requested : {e : Engine} → Run e → (job : Job) → Run (post job e)
    served :
        {e : Engine}
        → Run e
        → (job : Job) (jobs : List Job) → e.jobs ≡ job ∷ jobs
        → attaches_elsewhere e.active_session_id job ≡ false
        → Run (run_next has_transport service_ids e)
    changed :
        {e : Engine}
        → Run e
        → (session_id : ℕ) (state : SessionState)
        → Run (on_session_state_changed session_id state e)
    failed :
        {e : Engine}
        → Run e
        → (session_id : ℕ) (ec : AapErrc) → Run (on_session_error session_id ec e)
    identified :
        {e : Engine}
        → Run e
        → (session_id : ℕ) (name : Bytes) → Run (on_phone_identified session_id name e)

  served-IsExclusive :
      (e : Engine) (job : Job) (jobs : List Job)
      → e.jobs ≡ job ∷ jobs
      → attaches_elsewhere e.active_session_id job ≡ false
      → IsExclusive e
      → IsExclusive (run_next has_transport service_ids e)
  unfolding run_next IsExclusive
  served-IsExclusive e job jobs front h ex =
      rw (front, run_next) (run_job-IsExclusive job (record e { jobs = jobs }) h ex)

  -- However the application's calls, their jobs and the sessions' reports follow each other, a
  -- session that the engine holds is asked to attach sinks only if it is the active one: of its
  -- calls that attach sinks (attach_all_sinks, and a projected video focus, which attaches the
  -- video sinks) and that detach all of them, a session that is not active has got none since it
  -- was created, or one that detaches last. This is so provided that the application itself asks no
  -- session but the active one to attach sinks or to project. The phone's own focus requests, by
  -- which a session's video service attaches its sinks without the engine, are not counted.
  pub Run-IsExclusive : {e : Engine} → Run e → IsExclusive e
  unfolding IsExclusive register_callback start_session
  Run-IsExclusive Run.new = create-IsExclusive
  Run-IsExclusive (Run.given_callback r given) = Run-IsExclusive r
  Run-IsExclusive (Run.started r descriptor) = Run-IsExclusive r
  Run-IsExclusive (Run.requested r job) = Run-IsExclusive r
  Run-IsExclusive (Run.served {e} r job jobs front h) =
      served-IsExclusive e job jobs front h (Run-IsExclusive r)
  Run-IsExclusive (Run.changed {e} r session_id state) =
      changed-IsExclusive session_id state e (Run-IsExclusive r)
  Run-IsExclusive (Run.failed {e} r session_id ec) =
      error-IsExclusive session_id ec e (Run-IsExclusive r)
  Run-IsExclusive (Run.identified {e} r session_id name) =
      phone-IsExclusive session_id name e (Run-IsExclusive r)
