-- ===== src/Tests/Engines.antt =====
-- core/src/engine/Engine.cpp with two sessions.
use aa_v.Base.{ℕ, ◌≡◌, refl, Bool, true, List, [], ◌∷◌, Bytes}
use aa_v.Base.Assoc.{find}
use aa_v.Session.Handlers.{Command}
use aa_v.Engine.{
  Effect, Job, Engine, create, post, start_session, on_session, detach_active, attach_active,
  switch_active, start_job, run_job, run_next,
}
use aa_v.Engine.Exclusive.{IsExclusive}
use aa_v.Engine.Runs.{Run, Run-IsExclusive}

-- Sessions 1 and 2, of which 1 is active.
abbrev two_sessions : Engine
two_sessions = record create {
  sessions = (1, 0 ∷ []) ∷ (2, 0 ∷ []) ∷ [];
  active_session_id = 1;
  next_session_id = 3;
}

switch_to_two :
    (switch_active 2 two_sessions).effects
    ≡ Effect.session_command 1 Command.detach_all_sinks
      ∷ Effect.session_command 2 Command.attach_all_sinks
      ∷ []
unfolding switch_active detach_active attach_active on_session find
switch_to_two = refl

abbrev has_transport : Bytes → Bool
has_transport descriptor = true

abbrev service_ids : ℕ → List ℕ
service_ids sid = 1 ∷ 2 ∷ []

abbrev first_run : Run has_transport service_ids (
    run_next has_transport service_ids (
      post
        (Job.set_active_session 1)
        (run_next has_transport service_ids (start_session (7 ∷ []) create).1)))
unfolding start_session run_next run_job start_job
first_run =
    Run.served
      (Run.requested
        (Run.served (Run.started Run.new (7 ∷ [])) (Job.do_start_session (7 ∷ []) 1) [] refl refl)
        (Job.set_active_session 1))
      (Job.set_active_session 1) [] refl refl

Run-IsExclusive_example : IsExclusive (
    run_next has_transport service_ids (
      post
        (Job.set_active_session 1)
        (run_next has_transport service_ids (start_session (7 ∷ []) create).1)))
Run-IsExclusive_example = Run-IsExclusive has_transport service_ids first_run
