-- ===== src/Platform/Controller.antt =====
-- impl/android/aidl/AidlEngineController.cpp: the application's calls, over binder, on the engine.
-- The calls in the other direction stand in Platform/Notices.antt.
use aa_v.Base.{ℕ, ◌-◌, ◌%◌, ◌^◌, Bool, List, [], ◌∷◌, ◌++◌, Bytes, ltb, ◌==◌, if◌then◌else◌}
use aa_v.Session.Handlers.{Command}
use aa_v.Engine.{Job, Engine, post, start_session}
use aa_v.Platform.{ℤ, is_negative, usb_descriptor, tcp_descriptor}

-- `static_cast` between `uint32_t` and `int32_t`, of numbers below 2^32.
unfoldable pub to_int32 : ℕ → ℤ
to_int32 n = if ltb n (2 ^ 31) then ℤ.pos n else ℤ.negsuc (2 ^ 32 - 1 - n)

unfoldable pub to_uint32 : ℤ → ℕ
to_uint32 (ℤ.pos n) = n % 2 ^ 32
to_uint32 (ℤ.negsuc n) = 2 ^ 32 - 1 - n % 2 ^ 32

-- `config_calls` are the calls of the callback's onSessionConfig, and `closed` the file descriptors
-- that were closed.
pub record AidlEngineController : Type 0 where
  pub engine : Engine
  pub has_callback : Bool
  pub video_width : ℕ
  pub video_height : ℕ
  pub config_calls : List (ℤ × ℤ × ℤ)
  pub closed : List ℤ

unfoldable pub register_callback : Bool → AidlEngineController → AidlEngineController
register_callback given c = record c { has_callback = given }

abbrev pub close : ℤ → AidlEngineController → AidlEngineController
close fd c = record c { closed = c.closed ++ fd ∷ [] }

unfoldable pub on_session_config : ℕ → AidlEngineController → AidlEngineController
unfolding to_int32
on_session_config sid c =
    if c.has_callback
    then record c {
      config_calls =
          c.config_calls ++ (to_int32 sid, to_int32 c.video_width, to_int32 c.video_height) ∷ [];
    }
    else c

-- The end that startSession and startTcpSession share: the value for the application comes first.
unfoldable pub start_with : ℤ → Bytes → AidlEngineController → ℤ × AidlEngineController
start_with fd descriptor c =
    let (sid, engine) = start_session descriptor c.engine in
    let started = record c { engine = engine } in
    if sid == 0
    then (ℤ.negsuc 0, close fd started)
    else (to_int32 sid, on_session_config sid started)

-- `fd` is what dup returns.
unfoldable pub start_usb_session :
    (fd ep_in ep_out : ℤ) → AidlEngineController → ℤ × AidlEngineController
start_usb_session fd ep_in ep_out c =
    if is_negative fd then (ℤ.negsuc 0, c) else start_with fd (usb_descriptor fd ep_in ep_out) c

-- The results of socket, bind and accept.
unfoldable pub start_tcp_session :
    (server_fd bound accepted_fd : ℤ) → AidlEngineController → ℤ × AidlEngineController
start_tcp_session server_fd bound accepted_fd c =
    if is_negative server_fd
    then (ℤ.negsuc 0, c)
    else if is_negative bound
    then (ℤ.negsuc 0, close server_fd c)
    else if is_negative accepted_fd
    then (ℤ.negsuc 0, close server_fd c)
    else start_with accepted_fd (tcp_descriptor accepted_fd) (close server_fd c)

-- The other calls; a number that is no session id is the bit pattern of its `int32_t`.
pub data Request : Type 0 where
  send_touch_event : ℤ → (x y action : ℕ) → Request
  send_media_key : ℤ → (keycode : ℕ) → Request
  release_audio_focus gain_audio_focus : ℤ → Request
  complete_pairing : ℤ → (status : ℕ) → Bool → Request
  complete_auth : ℤ → (status : ℕ) → Request
  set_video_focus : ℤ → Bool → Request
  attach_all_sinks detach_all_sinks : ℤ → Request
  stop_session : ℤ → Request
  stop_all : Request

unfoldable pub request_job : Request → Job
unfolding to_uint32
request_job (Request.send_touch_event id x y action) =
    Job.session_call (to_uint32 id) (Command.send_touch_event x y action)
request_job (Request.send_media_key id keycode) =
    Job.session_call (to_uint32 id) (Command.send_media_key keycode)
request_job (Request.release_audio_focus id) =
    Job.session_call (to_uint32 id) Command.release_audio_focus
request_job (Request.gain_audio_focus id) = Job.session_call (to_uint32 id) Command.gain_audio_focus
request_job (Request.complete_pairing id status already_paired) =
    Job.session_call (to_uint32 id) (Command.complete_pairing status already_paired)
request_job (Request.complete_auth id status) =
    Job.session_call (to_uint32 id) (Command.complete_auth status)
request_job (Request.set_video_focus id projected) =
    Job.session_call (to_uint32 id) (Command.set_video_focus projected)
request_job (Request.attach_all_sinks id) = Job.session_call (to_uint32 id) Command.attach_all_sinks
request_job (Request.detach_all_sinks id) = Job.session_call (to_uint32 id) Command.detach_all_sinks
request_job (Request.stop_session id) = Job.stop_session (to_uint32 id)
request_job Request.stop_all = Job.stop_all

unfoldable pub request : Request → AidlEngineController → AidlEngineController
request r c = record c { engine = post (request_job r) c.engine }
