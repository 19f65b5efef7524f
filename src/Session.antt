-- ===== src/Session.antt =====
-- core/include/aauto/session/SessionState.hpp, core/include/aauto/session/Session.hpp and
-- core/src/session/Session.cpp: the state of a session, its write queue and its state machine. Its
-- handlers are in Session/Handlers.antt.
pub mod Handlers
mod Keeps
mod Steps
pub mod Runs
pub mod Queue
pub mod Writes
mod Loose
pub mod Sends
pub mod Sending
pub mod Serving
pub mod Apart
pub mod Timers
pub mod Closing
pub mod Ends
pub mod Shaking
pub mod Closed
pub mod Fresh
use aa_v.Base.{
  ℕ, ◌≤◌, Bool, true, false, Option, none, some, List, [], ◌∷◌, ◌++◌, Bytes, length, leb,
  if◌then◌else◌,
}
use aa_v.Base.Assoc.{Assoc, insert}
use aa_v.Protocol.{AapErrc}
use aa_v.Service.{IService}
use aa_v.Assembler
use aa_v.Assembler.{Assembler, Host}

pub data SessionState : Type 0 where
  idle version_exchange ssl_handshake running disconnecting disconnected error : SessionState

unfoldable pub is_terminal : SessionState → Bool
is_terminal SessionState.disconnected = true
is_terminal SessionState.error = true
is_terminal _ = false

pub record SessionConfig : Type 0 where
  pub session_id : ℕ
  pub ssl_handshake_timeout_ms : ℕ
  pub version_exchange_timeout_ms : ℕ
  pub byebye_timeout_ms : ℕ

abbrev pub default_config : ℕ → SessionConfig
default_config session_id = record {
  session_id = session_id;
  ssl_handshake_timeout_ms = 10000;
  version_exchange_timeout_ms = 5000;
  byebye_timeout_ms = 3000;
}

-- What a session calls: its transport, its observer, and its strand for a stop. `queued` notes a
-- frame that the write queue took.
pub data Effect : Type 0 where
  async_read : Effect
  async_write : Bytes → Effect
  transport_close : Effect
  state_changed : ℕ → SessionState → Effect
  session_error : ℕ → AapErrc → Effect
  post_stop : Effect
  queued : Bytes → Effect

-- `V` holds the fields of a service, `C` those of the crypto strategy. `timer` is the time-out that
-- `state_timer_` waits for. The log tag and the read buffer, whose bytes come with an event, are
-- left out.
pub record Session (C V : Type 0) : Type 0 where
  pub config : SessionConfig
  pub has_observer : Bool
  pub crypto : C
  pub assembler : Assembler
  pub state : SessionState
  pub write_queue : List Bytes
  pub write_in_progress : Bool
  pub services : Assoc V
  pub timer : Option ℕ
  pub effects : List Effect

abbrev pub max_write_queue_size : ℕ
max_write_queue_size = 256

abbrev pub services_closed {ℓ} : {V : Type ℓ} → (V → V) → Assoc V → Assoc V
services_closed close [] = []
services_closed close ((id, v) ∷ services) = (id, close v) ∷ services_closed close services

module _ {C V : Type 0} where
  -- `Session::Session`, and whether an observer was given
  abbrev pub create : SessionConfig → C → Bool → Session C V
  create config crypto observed = record {
    config = config;
    has_observer = observed;
    crypto = crypto;
    assembler = Assembler.init;
    state = SessionState.idle;
    write_queue = [];
    write_in_progress = false;
    services = [];
    timer = none;
    effects = [];
  }

  unfoldable pub register_service : ℕ → V → Session C V → Session C V
  register_service channel_id svc s = record s { services = insert channel_id svc s.services }

  -- The services of a new session, one after the other.
  abbrev pub register_services : Assoc V → Session C V → Session C V
  register_services [] s = s
  register_services ((channel_id, svc) ∷ rest) s =
      register_services rest (register_service channel_id svc s)

  abbrev pub emit : Effect → Session C V → Session C V
  emit effect s = record s { effects = s.effects ++ effect ∷ [] }

  unfoldable pub do_write_next : Session C V → Session C V
  do_write_next s = elim s.write_queue [
    | [] ↦ record s { write_in_progress = false }
    | front ∷ rest ↦ emit (Effect.async_write front) (record s { write_in_progress = true })
  ]

  -- A frame that finds 256 others in the queue is dropped.
  unfoldable pub enqueue_write : Bytes → Session C V → Session C V
  unfolding do_write_next
  enqueue_write wire_data s =
      if leb max_write_queue_size (length s.write_queue)
      then s
      else let pushed =
          emit (Effect.queued wire_data)
            (record s { write_queue = s.write_queue ++ wire_data ∷ [] }) in
        if s.write_in_progress then pushed else do_write_next pushed

  -- `state_timer_.cancel()` comes with every transition.
  unfoldable pub transition_to : SessionState → Session C V → Session C V
  transition_to new_state s =
      let moved = record s { state = new_state; timer = none } in
      if s.has_observer
      then emit (Effect.state_changed s.config.session_id new_state) moved
      else moved

  unfoldable pub start_state_timer : ℕ → Session C V → Session C V
  start_state_timer timeout_ms s = record s { timer = some timeout_ms }

  unfoldable pub start_read : Session C V → Session C V
  start_read s = if is_terminal s.state then s else emit Effect.async_read s

  unfoldable pub complete_disconnect : Session C V → Session C V
  unfolding transition_to
  complete_disconnect s = emit Effect.transport_close (transition_to SessionState.disconnected s)

  module _ (service : IService V) where
    unfoldable pub close_transport_and_services : Session C V → Session C V
    close_transport_and_services s =
        let closed = emit Effect.transport_close (record s { timer = none }) in
        record closed { services = services_closed service.on_channel_close closed.services }

    unfoldable pub handle_error : AapErrc → Session C V → Session C V
    unfolding transition_to close_transport_and_services
    handle_error ec s =
        if is_terminal s.state
        then s
        else let failed = close_transport_and_services (transition_to SessionState.error s) in
          if s.has_observer
          then emit (Effect.session_error s.config.session_id ec) failed
          else failed

    -- What the encoder, the assembler and the coordinator share with the session.
    abbrev pub session_host : Host (Session C V) C
    session_host = record {
      crypto = λ s. s.crypto;
      set_crypto = λ c s. record s { crypto = c };
      on_error = handle_error;
    }
