-- ===== src/Session/Loose.antt =====
-- The predicates of core/src/session/Session.cpp that sending a frame cannot touch.
use aa_v.Base.{
  ℕ, ◌≡◌, Bool, true, false, none, some, List, [], ◌∷◌, ◌++◌, Bytes, length, leb, if_elim,
}
use aa_v.Base.Assoc.{Assoc}
use aa_v.Protocol.{AapErrc}
use aa_v.Assembler.{Assembler}
use aa_v.Service.{IService}
use aa_v.Session.{
  Session, SessionState, Effect, max_write_queue_size, is_terminal, emit, do_write_next,
  enqueue_write, handle_error, close_transport_and_services, transition_to, start_state_timer,
  complete_disconnect,
}
use aa_v.Session.Handlers.{popped}
use aa_v.Session.Keeps.{Sends}

-- What an effect, the write queue, the crypto strategy, the services and the assembler cannot
-- change.
pub record Loose {C V : Type 0} (P : Session C V → Type 0) : Type 0 where
  pub emits : (e : Effect) (s : Session C V) → P s → P (emit e s)
  pub writes :
      (q : List Bytes) (busy : Bool) (s : Session C V)
      → P s
      → P (record s { write_queue = q; write_in_progress = busy })
  pub crypto : (c : C) (s : Session C V) → P s → P (record s { crypto = c })
  pub services : (m : Assoc V) (s : Session C V) → P s → P (record s { services = m })
  pub assembler : (a : Assembler) (s : Session C V) → P s → P (record s { assembler = a })

module _ {C V : Type 0} (P : Session C V → Type 0) (loose : Loose P) where
  do_write_next-keeps :
      (q : List Bytes) (s : Session C V) → P s → P (do_write_next (record s { write_queue = q }))
  unfolding do_write_next
  do_write_next-keeps [] s p = loose.writes [] false s p
  do_write_next-keeps (front ∷ rest) s p =
      loose.emits (Effect.async_write front) _ (loose.writes (front ∷ rest) true s p)

  enqueue-keeps : (w : Bytes) (s : Session C V) → P s → P (enqueue_write w s)
  unfolding enqueue_write
  enqueue-keeps w s p =
      let queue = s.write_queue ++ w ∷ [] in
      let noted = emit (Effect.queued w) s in
      let told = loose.emits (Effect.queued w) s p in
      if_elim P (leb max_write_queue_size (length s.write_queue)) s _ (λ full. p)
        (λ free.
          if_elim P s.write_in_progress (record noted { write_queue = queue })
            (do_write_next (record noted { write_queue = queue }))
            (λ on. loose.writes queue s.write_in_progress noted told)
            (λ off. do_write_next-keeps queue noted told))

  -- A transition that keeps the predicate but for the observer's call.
  pub transition-keeps :
      (st : SessionState) (s : Session C V)
      → P (record s { state = st; timer = none })
      → P (transition_to st s)
  unfolding transition_to
  transition-keeps st s p =
      if_elim P s.has_observer _ (record s { state = st; timer = none })
        (λ seen. loose.emits (Effect.state_changed s.config.session_id st) _ p) (λ unseen. p)

  pub disconnect-keeps :
      (s : Session C V)
      → P (record s { state = SessionState.disconnected; timer = none })
      → P (complete_disconnect s)
  unfolding complete_disconnect
  disconnect-keeps s p =
      loose.emits Effect.transport_close _ (transition-keeps SessionState.disconnected s p)

  -- A transition to a state that waits for a time-out.
  pub wait-keeps :
      (st : SessionState) (t : ℕ) (s : Session C V)
      → P (record s { state = st; timer = some t })
      → P (start_state_timer t (transition_to st s))
  unfolding transition_to start_state_timer
  wait-keeps st t s p =
      if_elim (λ moved. P (start_state_timer t moved)) s.has_observer _
        (record s { state = st; timer = none })
        (λ seen.
          loose.emits (Effect.state_changed s.config.session_id st)
            (record s { state = st; timer = some t }) p)
        (λ unseen. p)

  module _ (service : IService V) where
    closed-keeps :
        (s : Session C V)
        → P (record s { state = SessionState.error; timer = none })
        → P (close_transport_and_services service (transition_to SessionState.error s))
    unfolding transition_to close_transport_and_services
    closed-keeps s p =
        if_elim (λ moved. P (close_transport_and_services service moved)) s.has_observer _
          (record s { state = SessionState.error; timer = none })
          (λ seen.
            let told =
              loose.emits (Effect.state_changed s.config.session_id SessionState.error)
                (record s { state = SessionState.error; timer = none }) p in
            loose.services _ _ (loose.emits Effect.transport_close _ told))
          (λ unseen. loose.services _ _ (loose.emits Effect.transport_close _ p))

    -- A failure, whatever the session had before it.
    pub fail-gives :
        (e : AapErrc) (s : Session C V)
        → (is_terminal s.state ≡ true → P s)
        → (is_terminal s.state ≡ false → P (record s { state = SessionState.error; timer = none }))
        → P (handle_error service e s)
    unfolding handle_error
    fail-gives e s over on = if_elim P (is_terminal s.state) s _ over (λ alive.
        let failed = close_transport_and_services service (transition_to SessionState.error s) in
        let kept = closed-keeps s (on alive) in
        if_elim P s.has_observer (emit (Effect.session_error s.config.session_id e) failed) failed
          (λ seen. loose.emits (Effect.session_error s.config.session_id e) failed kept)
          (λ unseen. kept))

    pub loose-Sends :
        ((e : AapErrc) (s : Session C V) → P s → P (handle_error service e s)) → Sends service P
    loose-Sends error = record {
      crypto = loose.crypto;
      services = loose.services;
      post_stop = loose.emits Effect.post_stop;
      enqueue = enqueue-keeps;
      error = error;
    }

    pub written-keeps :
        (s : Session C V)
        → P s
        → P (do_write_next (record s { write_queue = popped s.write_queue }))
    written-keeps s p = do_write_next-keeps (popped s.write_queue) s p
