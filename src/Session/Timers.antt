-- ===== src/Session/Timers.antt =====
-- The state timer of core/src/session/Session.cpp: which states wait for a time-out.
use aa_v.Base.{ℕ, ◌≡◌, refl, Option, none, some, Bytes}
use aa_v.Crypto.{CryptoStrategy}
use aa_v.Service.{IService}
use aa_v.Session.{Session, SessionState, SessionConfig, is_terminal}
use aa_v.Session.Handlers.{Event, on_state_timeout, step}
use aa_v.Session.Keeps.{Sends}
use aa_v.Session.Loose.{
  Loose, transition-keeps, disconnect-keeps, wait-keeps, fail-gives, loose-Sends, written-keeps,
}
use aa_v.Session.Steps.{Moves, IsEnabled}
use aa_v.Session.Runs.{step-keeps}

-- The time-out of a state.
abbrev pub state_timeout : SessionState → SessionConfig → Option ℕ
state_timeout SessionState.version_exchange config = some config.version_exchange_timeout_ms
state_timeout SessionState.ssl_handshake config = some config.ssl_handshake_timeout_ms
state_timeout SessionState.disconnecting config = some config.byebye_timeout_ms
state_timeout _ config = none

unfoldable pub IsTimed : {C V : Type 0} → Session C V → Type 0
IsTimed s = s.timer ≡ state_timeout s.state s.config

module _ {C V : Type 0} where
  IsTimed-Loose : Loose {C = C} {V = V} IsTimed
  unfolding IsTimed
  IsTimed-Loose = record {
    emits = λ e s p. p;
    writes = λ q b s p. p;
    crypto = λ c s p. p;
    services = λ m s p. p;
    assembler = λ a s p. p;
  }

  module _ (strategy : CryptoStrategy C) (service : IService V) (auth : Bytes) where
    IsTimed-Sends : Sends {C = C} service IsTimed
    unfolding IsTimed
    IsTimed-Sends =
        loose-Sends IsTimed IsTimed-Loose service
          (λ e s p. fail-gives IsTimed IsTimed-Loose service e s (λ over. p) (λ on. refl))

    IsTimed-expired :
        (st : SessionState) (s : Session C V)
        → s.state ≡ st
        → IsTimed (on_state_timeout strategy service auth st (record s { timer = none }))
    unfolding on_state_timeout IsTimed is_terminal
    IsTimed-expired SessionState.version_exchange s e =
        fail-gives IsTimed IsTimed-Loose service _ (record s { timer = none }) (λ over. absurd (cc))
          (λ on. refl)
    IsTimed-expired SessionState.ssl_handshake s e =
        fail-gives IsTimed IsTimed-Loose service _ (record s { timer = none }) (λ over. absurd (cc))
          (λ on. refl)
    IsTimed-expired SessionState.disconnecting s e =
        disconnect-keeps IsTimed IsTimed-Loose (record s { timer = none }) refl
    IsTimed-expired SessionState.idle s e = rw e
    IsTimed-expired SessionState.running s e = rw e
    IsTimed-expired SessionState.disconnected s e = rw e
    IsTimed-expired SessionState.error s e = rw e

    IsTimed-Moves : Moves strategy service auth IsTimed
    unfolding IsTimed
    IsTimed-Moves = record {
      sends = IsTimed-Sends;
      running = λ s p. transition-keeps IsTimed IsTimed-Loose SessionState.running s refl;
      disconnected = λ s p. disconnect-keeps IsTimed IsTimed-Loose s refl;
      exchanging = λ s p.
          wait-keeps IsTimed IsTimed-Loose SessionState.version_exchange
            s.config.version_exchange_timeout_ms s refl;
      shaking = λ s p.
          wait-keeps IsTimed IsTimed-Loose SessionState.ssl_handshake
            s.config.ssl_handshake_timeout_ms s refl;
      leaving = λ s p.
          wait-keeps IsTimed IsTimed-Loose SessionState.disconnecting s.config.byebye_timeout_ms s
            refl;
      expired = λ s p. IsTimed-expired s.state s refl;
      read = λ s p. p;
      assembler = λ a s p. p;
      written = λ s on p. written-keeps IsTimed IsTimed-Loose service s p;
    }

    -- Every event, where a write completes only while one is under way, keeps it that the state
    -- timer runs exactly in the states that wait (version exchange, handshake, disconnecting), with
    -- that state's time-out.
    pub step-IsTimed :
        (e : Event V) (s : Session C V)
        → IsEnabled e s
        → IsTimed s
        → IsTimed (step strategy service auth e s)
    step-IsTimed = step-keeps strategy service auth IsTimed IsTimed-Moves
