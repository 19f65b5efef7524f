-- ===== src/Session/Ends.antt =====
-- How a session of core/src/session/Session.cpp ends: errors, stops and time-outs, branch by
-- branch.
use aa_v.Base.{ℕ, suc, ◌+◌, ◌≡◌, refl, false, none, List, [], ◌∷◌, ◌++◌, Bytes, if_elim, arith}
use aa_v.Base.Assoc.{Assoc}
use aa_v.Protocol.{AapErrc}
use aa_v.Crypto.{CryptoStrategy}
use aa_v.Service.{IService}
use aa_v.Session.{
  Session, SessionState, Effect, services_closed, is_terminal, emit, transition_to,
  complete_disconnect, close_transport_and_services, handle_error,
}
use aa_v.Session.Handlers.{Event, is_running, on_state_timeout, begin_disconnect, on_stop, step}

-- The transport's closings.
abbrev pub closes : List Effect → ℕ
closes [] = 0
closes (Effect.transport_close ∷ es) = suc (closes es)
closes (_ ∷ es) = closes es

pub closes-append : (xs ys : List Effect) → closes (xs ++ ys) ≡ closes xs + closes ys
closes-append [] ys = omega arith
closes-append (Effect.transport_close ∷ xs) ys = omega (arith, closes-append xs ys)
closes-append (Effect.queued w ∷ xs) ys = closes-append xs ys
closes-append (Effect.async_read ∷ xs) ys = closes-append xs ys
closes-append (Effect.async_write w ∷ xs) ys = closes-append xs ys
closes-append (Effect.state_changed i st ∷ xs) ys = closes-append xs ys
closes-append (Effect.session_error i e ∷ xs) ys = closes-append xs ys
closes-append (Effect.post_stop ∷ xs) ys = closes-append xs ys

closes-told :
    (id : ℕ) (st : SessionState) (es : List Effect)
    → closes ((es ++ Effect.state_changed id st ∷ []) ++ Effect.transport_close ∷ [])
      ≡ suc (closes es)
closes-told id st es = omega (
  arith,
  closes-append es (Effect.state_changed id st ∷ []),
  closes-append (es ++ Effect.state_changed id st ∷ []) (Effect.transport_close ∷ []),
)

module _ {C V : Type 0} where
  -- `s` ended in state `st`: it waits for nothing, closed the transport once more than `before`,
  -- has the services `services`, and left the write queue alone.
  abbrev pub IsEnd : SessionState → Assoc V → Session C V → Session C V → Type 0
  IsEnd st services before s =
      (s.state ≡ st)
      × (s.timer ≡ none)
      × (closes s.effects ≡ suc (closes before.effects))
      × (s.services ≡ services)
      × (s.write_queue ≡ before.write_queue)

  quiet-IsEnd :
      (st : SessionState) (services : Assoc V) (e : Effect) (before s : Session C V)
      → closes (e ∷ []) ≡ 0
      → IsEnd st services before s
      → IsEnd st services before (emit e s)
  quiet-IsEnd st services e before s quiet (at, timer, closed, kept, queue) =
      (at, timer, omega (arith, closes-append s.effects (e ∷ [])), kept, queue)

  -- A time-out, a bye-bye's or the last step of a stop without a control service.
  pub disconnected_lem :
      (s : Session C V) → IsEnd SessionState.disconnected s.services s (complete_disconnect s)
  unfolding complete_disconnect transition_to
  disconnected_lem s =
      if_elim (λ t. IsEnd SessionState.disconnected s.services s (emit Effect.transport_close t))
        s.has_observer _ (record s { state = SessionState.disconnected; timer = none })
        (λ seen. (
          refl,
          refl,
          closes-told s.config.session_id SessionState.disconnected s.effects,
          refl,
          refl,
        ))
        (λ unseen. (
          refl,
          refl,
          omega (arith, closes-append s.effects (Effect.transport_close ∷ [])),
          refl,
          refl,
        ))

module _ {C V : Type 0} (service : IService V) where
  abbrev pub IsFailure : Session C V → Session C V → Type 0
  IsFailure before s =
      IsEnd SessionState.error (services_closed service.on_channel_close before.services) before s

  pub handle_error_lem :
      (e : AapErrc) (s : Session C V)
      → is_terminal s.state ≡ false
      → IsFailure s (handle_error service e s)
  unfolding handle_error close_transport_and_services transition_to
  handle_error_lem e s on =
      if_elim (IsFailure s) (is_terminal s.state) s _ (λ over. absurd (cc))
        (λ alive.
          let failed = close_transport_and_services service (transition_to SessionState.error s) in
          let closed =
            if_elim (λ t. IsFailure s (close_transport_and_services service t)) s.has_observer _
              (record s { state = SessionState.error; timer = none })
              (λ seen. (
                refl,
                refl,
                closes-told s.config.session_id SessionState.error s.effects,
                refl,
                refl,
              ))
              (λ unseen. (
                refl,
                refl,
                omega (arith, closes-append s.effects (Effect.transport_close ∷ [])),
                refl,
                refl,
              )) in
          if_elim (IsFailure s) s.has_observer
            (emit (Effect.session_error s.config.session_id e) failed) failed
            (λ seen.
              quiet-IsEnd SessionState.error _ (Effect.session_error s.config.session_id e) s failed
                refl closed)
            (λ unseen. closed))

module _ {C V : Type 0} (strategy : CryptoStrategy C) (service : IService V) (auth : Bytes) where
  -- A stop that finds the session neither running nor in a terminal state, so also one that finds
  -- it disconnecting, moves it to the error state, stops its timer, closes its transport once,
  -- closes its services, and leaves the write queue alone.
  pub stop-error :
      (s : Session C V)
      → is_terminal s.state ≡ false
      → is_running s.state ≡ false
      → IsFailure service s (step strategy service auth Event.stop s)
  unfolding step on_stop
  stop-error s on not =
      if_elim (IsFailure service s) (is_terminal s.state) s _ (λ over. absurd (cc))
        (λ alive.
          if_elim (IsFailure service s) (is_running s.state)
            (begin_disconnect strategy service auth s) _ (λ running. absurd (cc))
            (λ idle. handle_error_lem service AapErrc.session_terminated s on))

  -- What a time-out does in a state.
  unfoldable pub IsExpiry : SessionState → Session C V → Session C V → Type 0
  IsExpiry SessionState.version_exchange s t = IsFailure service s t
  IsExpiry SessionState.ssl_handshake s t = IsFailure service s t
  IsExpiry SessionState.disconnecting s t = IsEnd SessionState.disconnected s.services s t
  IsExpiry _ s t = t ≡ record s { timer = none }

  expired_lem :
      (st : SessionState) (s : Session C V)
      → s.state ≡ st
      → IsExpiry st s (on_state_timeout strategy service auth st (record s { timer = none }))
  unfolding IsExpiry on_state_timeout is_terminal
  expired_lem SessionState.version_exchange s e =
      handle_error_lem service AapErrc.version_mismatch (record s { timer = none }) (rw e)
  expired_lem SessionState.ssl_handshake s e =
      handle_error_lem service AapErrc.ssl_handshake_failed (record s { timer = none }) (rw e)
  expired_lem SessionState.disconnecting s e = disconnected_lem (record s { timer = none })
  expired_lem SessionState.idle s e = refl
  expired_lem SessionState.running s e = refl
  expired_lem SessionState.disconnected s e = refl
  expired_lem SessionState.error s e = refl

  -- A time-out in the version exchange or the handshake moves the session to the error state and
  -- closes its transport, once, and its services; one that finds it disconnecting moves it to the
  -- disconnected state and closes its transport, once, but not its services; and in any other state
  -- nothing but the timer changes.
  pub timeout_lem :
      (s : Session C V) → IsExpiry s.state s (step strategy service auth Event.timeout s)
  unfolding step
  timeout_lem s = expired_lem s.state s refl
