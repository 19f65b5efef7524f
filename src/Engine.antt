-- ===== src/Engine.antt =====
-- core/include/aauto/engine/Engine.hpp and core/src/engine/Engine.cpp: the sessions, the active
-- one, and the jobs that the engine's io_context runs.
pub mod Exclusive
pub mod Sessions
pub mod Runs
use aa_v.Base.{
  ℕ, ◌+◌, ◌%◌, ◌^◌, Bool, true, false, Option, none, some, List, [], ◌∷◌, ◌++◌, Bytes, ◌==◌,
  if◌then◌else◌,
}
use aa_v.Base.Assoc.{Assoc, find, insert, erase}
use aa_v.Protocol.{AapErrc, control_channel_id}
use aa_v.Session.{SessionState, is_terminal}
use aa_v.Session.Handlers.{Command, channels}

pub data SessionStatus : Type 0 where
  connecting handshaking running disconnecting disconnected error : SessionStatus

-- The calls on sessions, which post to the strands of these, and the calls on the engine's
-- callback. `created` is a new session with the channels of its services.
pub data Effect : Type 0 where
  created : ℕ → List ℕ → Effect
  session_start session_stop : ℕ → Effect
  session_command : ℕ → Command → Effect
  state_reported : ℕ → SessionStatus → Effect
  error_reported : ℕ → AapErrc → Effect
  phone_identified : ℕ → Bytes → Effect

-- What the engine posts to its io_context.
pub data Job : Type 0 where
  do_start_session : Bytes → ℕ → Job
  stop_session : ℕ → Job
  stop_all : Job
  set_active_session : ℕ → Job
  session_call : ℕ → Command → Job

-- A session is a shared object that the engine only calls, so `sessions` holds its services'
-- channels. The threads, the configuration and the log tags are left out.
pub record Engine : Type 0 where
  pub has_callback : Bool
  pub sessions : Assoc (List ℕ)
  pub active_session_id : ℕ
  pub next_session_id : ℕ
  pub jobs : List Job
  pub effects : List Effect

abbrev pub create : Engine
create = record {
  has_callback = false;
  sessions = [];
  active_session_id = 0;
  next_session_id = 1;
  jobs = [];
  effects = [];
}

abbrev pub emit : Effect → Engine → Engine
emit effect e = record e { effects = e.effects ++ effect ∷ [] }

abbrev pub post : Job → Engine → Engine
post job e = record e { jobs = e.jobs ++ job ∷ [] }

unfoldable pub register_callback : Bool → Engine → Engine
register_callback given e = record e { has_callback = given }

-- `next_session_id_` is a `uint32_t`.
unfoldable pub start_session : Bytes → Engine → ℕ × Engine
start_session transport_descriptor e =
    let sid = e.next_session_id in
    (
      sid,
      post (Job.do_start_session transport_descriptor sid)
          (record e { next_session_id = (sid + 1) % 2 ^ 32 }),
    )

-- A call on the session with this id, if there is one.
unfoldable pub on_session : ℕ → Effect → Engine → Engine
on_session session_id call e = elim (find session_id e.sessions) [ none ↦ e | some v ↦ emit call e ]

unfoldable pub stop_each : List ℕ → Engine → Engine
stop_each [] e = e
stop_each (id ∷ ids) e = stop_each ids (emit (Effect.session_stop id) e)

unfoldable pub detach_active : Engine → Engine
unfolding on_session
detach_active e =
    if e.active_session_id == 0
    then e
    else on_session e.active_session_id
        (Effect.session_command e.active_session_id Command.detach_all_sinks) e

unfoldable pub attach_active : ℕ → Engine → Engine
unfolding on_session
attach_active session_id e =
    if session_id == 0
    then e
    else on_session session_id (Effect.session_command session_id Command.attach_all_sinks) e

unfoldable pub switch_active : ℕ → Engine → Engine
unfolding detach_active attach_active
switch_active session_id e =
    if e.active_session_id == session_id
    then e
    else attach_active session_id (record (detach_active e) { active_session_id = session_id })

-- The channels that `register_services` gives a session: the control service's, then those of the
-- peer services, each `static_cast<uint8_t>(service_id)`.
abbrev pub peer_channels : List ℕ → Assoc ℕ → Assoc ℕ
peer_channels [] registered = registered
peer_channels (service_id ∷ ids) registered =
    peer_channels ids (insert (service_id % 256) service_id registered)

abbrev pub session_channels : List ℕ → List ℕ
session_channels service_ids = channels (peer_channels service_ids ((control_channel_id, 0) ∷ []))

unfoldable pub report_start_session_failure : ℕ → Engine → Engine
report_start_session_failure sid e =
    if e.has_callback then emit (Effect.error_reported sid AapErrc.transport_closed) e else e

unfoldable pub cleanup_session : ℕ → Engine → Engine
cleanup_session session_id e =
    let left = record e { sessions = erase session_id e.sessions } in
    if e.active_session_id == session_id then record left { active_session_id = 0 } else left

abbrev pub status_of : SessionState → SessionStatus
status_of SessionState.idle = SessionStatus.connecting
status_of SessionState.version_exchange = SessionStatus.handshaking
status_of SessionState.ssl_handshake = SessionStatus.handshaking
status_of SessionState.running = SessionStatus.running
status_of SessionState.disconnecting = SessionStatus.disconnecting
status_of SessionState.disconnected = SessionStatus.disconnected
status_of SessionState.error = SessionStatus.error

unfoldable pub on_session_state_changed : ℕ → SessionState → Engine → Engine
unfolding cleanup_session
on_session_state_changed session_id state e =
    let cleaned = if is_terminal state then cleanup_session session_id e else e in
    if e.has_callback
    then emit (Effect.state_reported session_id (status_of state)) cleaned
    else cleaned

unfoldable pub on_session_error : ℕ → AapErrc → Engine → Engine
on_session_error session_id ec e =
    if e.has_callback then emit (Effect.error_reported session_id ec) e else e

-- The phone identified callback that `create_control_service` sets, but for the log tags.
unfoldable pub on_phone_identified : ℕ → Bytes → Engine → Engine
on_phone_identified session_id device_name e =
    if e.has_callback then emit (Effect.phone_identified session_id device_name) e else e

-- The transport factory says whether a descriptor has a transport, and the service factory which
-- service ids a session gets.
module _ (has_transport : Bytes → Bool) (service_ids : ℕ → List ℕ) where
  unfoldable pub start_job : Bytes → ℕ → Engine → Engine
  unfolding report_start_session_failure
  start_job descriptor sid e =
      let given = session_channels (service_ids sid) in
      if has_transport descriptor
      then emit (Effect.session_start sid)
          (emit (Effect.created sid given) (record e { sessions = insert sid given e.sessions }))
      else report_start_session_failure sid e

  unfoldable pub run_job : Job → Engine → Engine
  unfolding start_job on_session stop_each switch_active
  run_job (Job.do_start_session descriptor sid) e = start_job descriptor sid e
  run_job (Job.stop_session session_id) e = on_session session_id (Effect.session_stop session_id) e
  run_job Job.stop_all e = stop_each (channels e.sessions) e
  run_job (Job.set_active_session session_id) e = switch_active session_id e
  run_job (Job.session_call session_id command) e =
      on_session session_id (Effect.session_command session_id command) e

  -- The io_context runs its jobs in the order in which they were posted.
  unfoldable pub run_next : Engine → Engine
  run_next e = elim e.jobs [ [] ↦ e | job ∷ jobs ↦ run_job job (record e { jobs = jobs }) ]
