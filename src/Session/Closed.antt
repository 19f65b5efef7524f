-- ===== src/Session/Closed.antt =====
-- The transport of a session of core/src/session/Session.cpp at its end.
use aa_v.Base.{ℕ, ◌<◌, ◌+◌, none, [], ◌∷◌, Bytes, Bool-cases, inl, inr, arith}
use aa_v.Protocol.{AapErrc}
use aa_v.Crypto.{CryptoStrategy}
use aa_v.Service.{IService}
use aa_v.Session.{Session, SessionState, Effect, is_terminal, complete_disconnect, handle_error}
use aa_v.Session.Handlers.{Event, on_state_timeout, step}
use aa_v.Session.Loose.{Loose, loose-Sends, transition-keeps, wait-keeps, written-keeps}
use aa_v.Session.Steps.{Moves, IsEnabled}
use aa_v.Session.Runs.{step-keeps}
use aa_v.Session.Ends.{closes, closes-append, handle_error_lem, disconnected_lem}

abbrev ClosedAt : SessionState → ℕ → Type 0
ClosedAt SessionState.disconnected n = 0 < n
ClosedAt SessionState.error n = 0 < n
ClosedAt _ n = Unit {0}

unfoldable pub IsClosed : {C V : Type 0} → Session C V → Type 0
IsClosed s = ClosedAt s.state (closes s.effects)

more-ClosedAt : (st : SessionState) (n m : ℕ) → ClosedAt st n → ClosedAt st (n + m)
more-ClosedAt SessionState.disconnected n m h = omega arith
more-ClosedAt SessionState.error n m h = omega arith
more-ClosedAt SessionState.idle n m h = tt
more-ClosedAt SessionState.version_exchange n m h = tt
more-ClosedAt SessionState.ssl_handshake n m h = tt
more-ClosedAt SessionState.running n m h = tt
more-ClosedAt SessionState.disconnecting n m h = tt

after-ClosedAt : (st : SessionState) (n : ℕ) → 0 < n → ClosedAt st n
after-ClosedAt SessionState.disconnected n h = h
after-ClosedAt SessionState.error n h = h
after-ClosedAt SessionState.idle n h = tt
after-ClosedAt SessionState.version_exchange n h = tt
after-ClosedAt SessionState.ssl_handshake n h = tt
after-ClosedAt SessionState.running n h = tt
after-ClosedAt SessionState.disconnecting n h = tt

module _ {C V : Type 0} where
  IsClosed-Loose : Loose {C = C} {V = V} IsClosed
  unfolding IsClosed
  IsClosed-Loose = record {
    emits = λ e s p.
        rw (closes-append s.effects (e ∷ []))
          (more-ClosedAt s.state (closes s.effects) (closes (e ∷ [])) p);
    writes = λ q b s p. p;
    crypto = λ c s p. p;
    services = λ m s p. p;
    assembler = λ a s p. p;
  }

  IsClosed-disconnect : (s : Session C V) → IsClosed (complete_disconnect s)
  unfolding IsClosed
  IsClosed-disconnect s =
      let (at, timer, closed, kept, queue) = disconnected_lem s in
      after-ClosedAt (complete_disconnect s).state (closes (complete_disconnect s).effects)
        (omega (arith, closed))

  module _ (strategy : CryptoStrategy C) (service : IService V) (auth : Bytes) where
    IsClosed-error :
        (e : AapErrc) (s : Session C V) → IsClosed s → IsClosed (handle_error service e s)
    unfolding handle_error IsClosed
    IsClosed-error e s p = elim (Bool-cases (is_terminal s.state)) [
      | inl over ↦ rw (over, handle_error) p
      | inr on ↦
          let (at, timer, closed, kept, queue) = handle_error_lem service e s on in
          after-ClosedAt (handle_error service e s).state
            (closes (handle_error service e s).effects) (omega (arith, closed))
    ]

    IsClosed-timeout :
        (st : SessionState) (s : Session C V)
        → IsClosed s
        → IsClosed (on_state_timeout strategy service auth st s)
    unfolding on_state_timeout
    IsClosed-timeout SessionState.version_exchange s p = IsClosed-error AapErrc.version_mismatch s p
    IsClosed-timeout SessionState.ssl_handshake s p =
        IsClosed-error AapErrc.ssl_handshake_failed s p
    IsClosed-timeout SessionState.disconnecting s p = IsClosed-disconnect s
    IsClosed-timeout SessionState.idle s p = p
    IsClosed-timeout SessionState.running s p = p
    IsClosed-timeout SessionState.disconnected s p = p
    IsClosed-timeout SessionState.error s p = p

    IsClosed-Moves : Moves strategy service auth IsClosed
    unfolding IsClosed
    IsClosed-Moves = record {
      sends = loose-Sends IsClosed IsClosed-Loose service IsClosed-error;
      running = λ s p. transition-keeps IsClosed IsClosed-Loose SessionState.running s tt;
      disconnected = λ s p. IsClosed-disconnect s;
      exchanging = λ s p.
          wait-keeps IsClosed IsClosed-Loose SessionState.version_exchange
            s.config.version_exchange_timeout_ms s tt;
      shaking = λ s p.
          wait-keeps IsClosed IsClosed-Loose SessionState.ssl_handshake
            s.config.ssl_handshake_timeout_ms s tt;
      leaving = λ s p.
          wait-keeps IsClosed IsClosed-Loose SessionState.disconnecting s.config.byebye_timeout_ms s
            tt;
      expired = λ s p. IsClosed-timeout s.state (record s { timer = none }) p;
      read = λ s p. IsClosed-Loose.emits Effect.async_read s p;
      assembler = λ a s p. p;
      written = λ s on p. written-keeps IsClosed IsClosed-Loose service s p;
    }

    -- Every event, where a write completes only while one is under way, keeps it that a session in
    -- a terminal state has closed its transport.
    pub step-IsClosed :
        (e : Event V) (s : Session C V)
        → IsEnabled e s
        → IsClosed s
        → IsClosed (step strategy service auth e s)
    step-IsClosed = step-keeps strategy service auth IsClosed IsClosed-Moves
