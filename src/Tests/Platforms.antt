-- ===== src/Tests/Platforms.antt =====
-- impl/android: a phone on USB, from the application's call to the engine's session.
use aa_v.Base.{ℕ, ◌≡◌, refl, true, false, some, List, [], ◌∷◌, arith}
use aa_v.Base.Assoc.{find, insert}
use aa_v.Engine
use aa_v.Engine.{Effect, run_next, session_channels}
use aa_v.Session.Handlers.{Command}
use aa_v.Platform.{ℤ, Underlying, create, usb_descriptor, tcp_descriptor}
use aa_v.Platform.Descriptors.{create-descriptors}
use aa_v.Platform.Controller.{AidlEngineController, to_uint32, start_usb_session, Request, request}
use aa_v.Platform.Notices.{Notification, AppCall, call_id, notify, notify-answered}
use aa_v.Platform.Requests.{AsksFor}
use aa_v.Platform.Sessions.{has_transport, start_usb_session_lem}

abbrev fd : ℤ
fd = ℤ.pos 42

abbrev ep_in : ℤ
ep_in = ℤ.pos 129

abbrev ep_out : ℤ
ep_out = ℤ.pos 1

create-descriptors_example :
    (create (usb_descriptor fd ep_in ep_out) ≡ some (some (Underlying.usb fd ep_in ep_out)))
    × (create (tcp_descriptor fd) ≡ some (some (Underlying.tcp fd)))
create-descriptors_example = create-descriptors fd ep_in ep_out refl refl refl

abbrev controller : AidlEngineController
controller = record {
  engine = Engine.create;
  has_callback = true;
  video_width = 1280;
  video_height = 720;
  config_calls = [];
  closed = [];
}

abbrev service_ids : ℕ → List ℕ
service_ids sid = 1 ∷ 5 ∷ []

start_usb_session_lem_example :
    let (id, started) = start_usb_session fd ep_in ep_out controller in
    let served = run_next has_transport service_ids started.engine in
    (to_uint32 id ≡ 1)
    × (served.sessions ≡ insert 1 (session_channels (service_ids 1)) [])
    × (started.closed ≡ [])
start_usb_session_lem_example =
    start_usb_session_lem service_ids fd ep_in ep_out controller refl refl refl refl refl
      (ground arith) (ground arith)

abbrev touch : ℤ → Request
touch id = Request.send_touch_event id 400 240 0

-- A session whose id is a negative `int` for the application, and a phone that asks it to pair.
abbrev busy : AidlEngineController
busy = record controller {
  engine = record Engine.create { sessions = (2147483653, 1 ∷ 13 ∷ []) ∷ [] };
}

abbrev asks : Notification
asks = Notification.pairing_requested 2147483653 (65 ∷ 58 ∷ 66 ∷ []) (ℤ.pos 4)

abbrev paired : ℤ → Request
paired id = Request.complete_pairing id 0 false

notify-answered_example :
    (call : AppCall) × (notify (λ text. text) asks busy ≡ call ∷ [])
    × ((run_next has_transport service_ids (request (paired (call_id call)) busy).engine).effects
        ≡ Effect.session_command 2147483653 (Command.complete_pairing 0 false) ∷ [])
unfolding find
notify-answered_example =
    notify-answered (λ text. text) service_ids asks busy paired (Command.complete_pairing 0 false)
      (1 ∷ 13 ∷ []) (AsksFor.pairing 0 false) (ground arith) refl refl refl
