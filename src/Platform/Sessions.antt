-- ===== src/Platform/Sessions.antt =====
-- From the application's startSession in AidlEngineController.cpp to the session that the engine
-- creates: the controller, the engine and the transport factory of main.cpp together.
use aa_v.Base.{
  ℕ, ◌+◌, ◌%◌, ◌^◌, ◌<◌, ◌≡◌, refl, ap, ◌∙◌, Bool, true, false, ◌||◌, Option, none, some, List, [],
  ◌∷◌, ◌++◌, Bytes, ltb, if◌then◌else◌, if_elim, Bool-cases, inl, inr, ltb→lt, ltb→le, pos→ne_zero,
  arith,
}
use aa_v.Base.Assoc.{insert}
use aa_v.Engine.{
  Engine, start_session, start_job, run_job, run_next, report_start_session_failure,
  session_channels,
}
use aa_v.Platform.{ℤ, is_negative, in_int, Underlying, create, usb_descriptor, tcp_descriptor}
use aa_v.Platform.Descriptors.{create-usb_descriptor, create-tcp_descriptor}
use aa_v.Platform.Controller.{
  AidlEngineController, to_int32, to_uint32, on_session_config, start_with, start_usb_session,
  start_tcp_session, close,
}

-- What the engine sees of the factory: whether it gives a transport.
abbrev is_transport : Option (Option Underlying) → Bool
is_transport none = false
is_transport (some none) = false
is_transport (some (some underlying)) = true

abbrev pub has_transport : Bytes → Bool
has_transport descriptor = is_transport (create descriptor)

-- Session ids survive the way to the application and back.
pub to_uint32-to_int32 : (n : ℕ) → n < 2 ^ 32 → to_uint32 (to_int32 n) ≡ n
unfolding to_uint32 to_int32
to_uint32-to_int32 n h =
    if_elim (λ z. to_uint32 z ≡ n) (ltb n (2 ^ 31)) _ _ (λ e. omega (arith, ltb→lt n (2 ^ 31) e, h))
      (λ e. omega (arith, ltb→le n (2 ^ 31) e, h))

on_session_config-keeps :
    (sid : ℕ) (c : AidlEngineController)
    → ((on_session_config sid c).engine ≡ c.engine) × ((on_session_config sid c).closed ≡ c.closed)
unfolding on_session_config
on_session_config-keeps sid c =
    if_elim (λ (d : AidlEngineController). (d.engine ≡ c.engine) × (d.closed ≡ c.closed))
      c.has_callback _ _ (λ e. (refl, refl)) (λ e. (refl, refl))

pub start_with-started :
    (fd : ℤ) (descriptor : Bytes) (c : AidlEngineController)
    → 0 < c.engine.next_session_id
    → let (id, started) = start_with fd descriptor c in
      (id ≡ to_int32 c.engine.next_session_id)
      × (started.engine ≡ (start_session descriptor c.engine).1)
      × (started.closed ≡ c.closed)
unfolding start_with start_session
start_with-started fd descriptor c positive =
    let begun = record c { engine = (start_session descriptor c.engine).1 } in
    let (same_engine, same_closed) = on_session_config-keeps c.engine.next_session_id begun in
    rw (pos→ne_zero c.engine.next_session_id positive) (refl, same_engine, same_closed)

failure-keeps : (sid : ℕ) (e : Engine) → (report_start_session_failure sid e).sessions ≡ e.sessions
unfolding report_start_session_failure
failure-keeps sid e =
    if_elim (λ (f : Engine). f.sessions ≡ e.sessions) e.has_callback _ _ (λ h. refl) (λ h. refl)

start_job-sessions :
    (service_ids : ℕ → List ℕ) (descriptor : Bytes) (sid : ℕ) (e : Engine)
    → (start_job has_transport service_ids descriptor sid e).sessions ≡ (
        if has_transport descriptor
        then insert sid (session_channels (service_ids sid)) e.sessions
        else e.sessions)
unfolding start_job
start_job-sessions service_ids descriptor sid e = elim (Bool-cases (has_transport descriptor)) [
  | inl h ↦ rw h refl
  | inr h ↦ rw h (failure-keeps sid e)
]

transport-branches {ℓ} :
    {A : Type ℓ} (failed : Bool) (underlying : Underlying) (x y : A)
    → (if is_transport (some (if failed then none else some underlying)) then x else y)
      ≡ (if failed then y else x)
transport-branches true underlying x y = refl
transport-branches false underlying x y = refl

-- The session of an idle engine's next job.
run_next-start_session :
    (service_ids : ℕ → List ℕ) (descriptor : Bytes) (e : Engine)
    → e.jobs ≡ []
    → (run_next has_transport service_ids (start_session descriptor e).1).sessions ≡ (
        if has_transport descriptor
        then insert e.next_session_id (session_channels (service_ids e.next_session_id)) e.sessions
        else e.sessions)
unfolding run_next run_job start_session
run_next-start_session service_ids descriptor e idle = rw idle (
    start_job-sessions service_ids descriptor e.next_session_id
      (record e { next_session_id = (e.next_session_id + 1) % 2 ^ 32; jobs = [] }))

start_with-session :
    (service_ids : ℕ → List ℕ) (fd : ℤ) (descriptor : Bytes) (c : AidlEngineController)
    → c.engine.jobs ≡ []
    → 0 < c.engine.next_session_id
    → c.engine.next_session_id < 2 ^ 32
    → let (id, started) = start_with fd descriptor c in
      let sid = c.engine.next_session_id in
      (to_uint32 id ≡ sid)
      × ((run_next has_transport service_ids started.engine).sessions ≡ (
          if has_transport descriptor
          then insert sid (session_channels (service_ids sid)) c.engine.sessions
          else c.engine.sessions))
      × (started.closed ≡ c.closed)
start_with-session service_ids fd descriptor c idle positive small =
    let (same_id, same_engine, same_closed) = start_with-started fd descriptor c positive in
    let back = to_uint32-to_int32 c.engine.next_session_id small in
    (
      ap to_uint32 same_id ∙ back,
      rw same_engine (run_next-start_session service_ids descriptor c.engine idle),
      same_closed,
    )

-- When an idle engine, whose next session id is a `uint32_t` other than 0, is asked over binder for
-- a USB session with a file descriptor that is not negative and any `int`s for the two endpoints,
-- then the application gets that id, and as soon as the engine has run its next job it holds a
-- session of that id with its services beside the sessions it had, except that with a negative
-- endpoint the engine's sessions stay as they were, all of them, although the application gets the
-- id all the same. The controller closes no file descriptor in either case.
pub start_usb_session_lem :
    (service_ids : ℕ → List ℕ) (fd ep_in ep_out : ℤ) (c : AidlEngineController)
    → is_negative fd ≡ false
    → in_int fd ≡ true
    → in_int ep_in ≡ true
    → in_int ep_out ≡ true
    → c.engine.jobs ≡ []
    → 0 < c.engine.next_session_id
    → c.engine.next_session_id < 2 ^ 32
    → let (id, started) = start_usb_session fd ep_in ep_out c in
      let served = run_next has_transport service_ids started.engine in
      let sid = c.engine.next_session_id in
      (to_uint32 id ≡ sid)
      × (served.sessions ≡ (
          if is_negative ep_in || is_negative ep_out
          then c.engine.sessions
          else insert sid (session_channels (service_ids sid)) c.engine.sessions))
      × (started.closed ≡ c.closed)
unfolding start_usb_session
start_usb_session_lem service_ids fd ep_in ep_out c nonneg h_fd h_in h_out idle positive small =
    let (same_id, same_session, same_closed) =
      start_with-session service_ids fd (usb_descriptor fd ep_in ep_out) c idle positive small in
    rw nonneg (
      same_id,
      same_session
          ∙ rw (create-usb_descriptor fd ep_in ep_out h_fd h_in h_out, nonneg)
              (transport-branches (is_negative ep_in || is_negative ep_out)
                (Underlying.usb fd ep_in ep_out) _ _),
      same_closed,
    )

-- When an idle engine, whose next session id is a `uint32_t` other than 0, is asked for a TCP
-- session and every call of the operating system works, then the application gets that id, and it
-- names a session with its services as soon as the engine has run its next job; of the two sockets
-- only the one that listened is closed.
start_tcp_session_lem :
    (service_ids : ℕ → List ℕ) (server_fd bound accepted_fd : ℤ) (c : AidlEngineController)
    → is_negative server_fd ≡ false
    → is_negative bound ≡ false
    → is_negative accepted_fd ≡ false
    → in_int accepted_fd ≡ true
    → c.engine.jobs ≡ []
    → 0 < c.engine.next_session_id
    → c.engine.next_session_id < 2 ^ 32
    → let (id, started) = start_tcp_session server_fd bound accepted_fd c in
      let sid = c.engine.next_session_id in
      (to_uint32 id ≡ sid)
      × ((run_next has_transport service_ids started.engine).sessions
          ≡ insert sid (session_channels (service_ids sid)) c.engine.sessions)
      × (started.closed ≡ c.closed ++ server_fd ∷ [])
unfolding start_tcp_session
start_tcp_session_lem service_ids server_fd bound accepted_fd c n_server n_bound n_accepted h idle
      positive small =
    let (same_id, same_session, same_closed) =
      start_with-session service_ids accepted_fd (tcp_descriptor accepted_fd) (close server_fd c)
        idle positive small in
    rw (n_server, n_bound, n_accepted)
      (
        same_id,
        same_session ∙ rw (create-tcp_descriptor accepted_fd h, n_accepted) refl,
        same_closed,
      )
