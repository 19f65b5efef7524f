-- ===== src/Session/Writes.antt =====
-- The write queue of core/src/session/Session.cpp: its bound, its one write under way, and the
-- order of the frames that reach the transport.
use aa_v.Base.{refl, none, Bytes, if_elim}
use aa_v.Protocol.{AapErrc}
use aa_v.Crypto.{CryptoStrategy}
use aa_v.Service.{IService}
use aa_v.Session.{
  Session, SessionState, Effect, transition_to, start_state_timer, complete_disconnect,
  handle_error,
}
use aa_v.Session.Handlers.{Event, on_state_timeout, step}
use aa_v.Session.Keeps.{Sends, handle_error-keeps}
use aa_v.Session.Steps.{Moves, IsEnabled}
use aa_v.Session.Runs.{step-keeps}
use aa_v.Session.Queue.{IsQueue, quiet-IsQueue, written-IsQueue, enqueue-IsQueue}

module _ {C V : Type 0} where
  transition-IsQueue :
      (st : SessionState) (s : Session C V) → IsQueue s → IsQueue (transition_to st s)
  unfolding transition_to IsQueue
  transition-IsQueue st s q =
      if_elim IsQueue s.has_observer _ (record s { state = st; timer = none })
        (λ seen.
          quiet-IsQueue (Effect.state_changed s.config.session_id st)
            (record s { state = st; timer = none }) refl refl q)
        (λ unseen. q)

  disconnect-IsQueue : (s : Session C V) → IsQueue s → IsQueue (complete_disconnect s)
  unfolding complete_disconnect
  disconnect-IsQueue s q =
      quiet-IsQueue Effect.transport_close _ refl refl
        (transition-IsQueue SessionState.disconnected s q)

  module _ (service : IService V) where
    error-IsQueue : (e : AapErrc) (s : Session C V) → IsQueue s → IsQueue (handle_error service e s)
    unfolding IsQueue
    error-IsQueue =
        handle_error-keeps service IsQueue (λ s q. transition-IsQueue SessionState.error s q)
          (λ s q. quiet-IsQueue Effect.transport_close s refl refl q) (λ s q. q) (λ m s q. q)
          (λ id e s q. quiet-IsQueue (Effect.session_error id e) s refl refl q)

    IsQueue-Sends : Sends {C = C} service IsQueue
    unfolding IsQueue
    IsQueue-Sends = record {
      crypto = λ c s q. q;
      services = λ m s q. q;
      post_stop = λ s q. quiet-IsQueue Effect.post_stop s refl refl q;
      enqueue = enqueue-IsQueue;
      error = error-IsQueue;
    }

    timeout-IsQueue :
        (strategy : CryptoStrategy C) (auth : Bytes) (st : SessionState) (s : Session C V)
        → IsQueue s
        → IsQueue (on_state_timeout strategy service auth st s)
    unfolding on_state_timeout
    timeout-IsQueue strategy auth SessionState.version_exchange s q = error-IsQueue _ s q
    timeout-IsQueue strategy auth SessionState.ssl_handshake s q = error-IsQueue _ s q
    timeout-IsQueue strategy auth SessionState.disconnecting s q = disconnect-IsQueue s q
    timeout-IsQueue strategy auth SessionState.idle s q = q
    timeout-IsQueue strategy auth SessionState.running s q = q
    timeout-IsQueue strategy auth SessionState.disconnected s q = q
    timeout-IsQueue strategy auth SessionState.error s q = q

    IsQueue-Moves :
        (strategy : CryptoStrategy C) (auth : Bytes) → Moves strategy service auth IsQueue
    unfolding IsQueue start_state_timer
    IsQueue-Moves strategy auth = record {
      sends = IsQueue-Sends;
      running = transition-IsQueue SessionState.running;
      disconnected = disconnect-IsQueue;
      exchanging = transition-IsQueue SessionState.version_exchange;
      shaking = transition-IsQueue SessionState.ssl_handshake;
      leaving = transition-IsQueue SessionState.disconnecting;
      expired = λ s q. timeout-IsQueue strategy auth s.state (record s { timer = none }) q;
      read = λ s q. quiet-IsQueue Effect.async_read s refl refl q;
      assembler = λ a s q. q;
      written = λ s on q. written-IsQueue s q;
    }

    -- Every event, where a write completes only while one is under way, keeps it that at most 256
    -- frames wait, that the write flag is set exactly while one waits, and that the transport was
    -- given the frames that the queue took, in their order, up to the front.
    pub step-IsQueue :
        (strategy : CryptoStrategy C) (auth : Bytes) (e : Event V) (s : Session C V)
        → IsEnabled e s
        → IsQueue s
        → IsQueue (step strategy service auth e s)
    step-IsQueue strategy auth =
        step-keeps strategy service auth IsQueue (IsQueue-Moves strategy auth)
