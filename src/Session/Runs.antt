-- ===== src/Session/Runs.antt =====
-- Runs of core/src/session/Session.cpp: the strand handles one event after another.
use aa_v.Base.{[], ◌∷◌, Bytes, Bool-cases, Option-cases, inl, inr}
use aa_v.Base.Assoc.{find}
use aa_v.Protocol.{AapErrc, ControlMessageType, control_code, control_channel_id}
use aa_v.Crypto.{CryptoStrategy}
use aa_v.Service.{IService}
use aa_v.Session.{Session, is_terminal}
use aa_v.Session.Handlers.{
  Event, channels, is_running, begin_version_exchange, begin_disconnect, on_stop, step,
}
use aa_v.Session.Keeps.{send-keeps, run-keeps, for_each-keeps, on_command-keeps}
use aa_v.Session.Steps.{Moves, IsEnabled, start_read-keeps, read-keeps}

module _ {C V : Type 0} (strategy : CryptoStrategy C) (service : IService V) (auth : Bytes) where
  -- The runs of the strand from a session.
  pub data Run (s : Session C V) : Session C V → Type 0 where
    here : Run s s
    next :
        {t : Session C V}
        → Run s t
        → (e : Event V) → IsEnabled e t
        → Run s (step strategy service auth e t)

  module _ (P : Session C V → Type 0) (moves : Moves strategy service auth P) where
    begin-keeps : (s : Session C V) → P s → P (begin_version_exchange strategy service auth s)
    unfolding begin_version_exchange
    begin-keeps s p =
        send-keeps strategy service auth P moves.sends control_channel_id
          (control_code ControlMessageType.version_request) (0 ∷ 1 ∷ 0 ∷ 1 ∷ []) _
          (start_read-keeps strategy service auth P moves _ (moves.exchanging s p))

    begin_disconnect-keeps : (s : Session C V) → P s → P (begin_disconnect strategy service auth s)
    unfolding begin_disconnect
    begin_disconnect-keeps s p = elim (Option-cases (find control_channel_id s.services)) [
      | inl missing ↦ rw (missing, begin_disconnect) (moves.disconnected _ (moves.leaving s p))
      | inr (v, found) ↦
          rw (found, begin_disconnect)
            (for_each-keeps strategy service auth P moves.sends service.on_session_stop
              (channels s.services) _ (moves.leaving s p))
    ]

    on_stop-keeps : (s : Session C V) → P s → P (on_stop strategy service auth s)
    unfolding on_stop
    on_stop-keeps s p = elim (Bool-cases (is_terminal s.state)) [
      | inl over ↦ rw (over, on_stop) p
      | inr on ↦
          rw (on, on_stop)
            (elim (Bool-cases (is_running s.state)) [
              | inl running ↦ rw running (begin_disconnect-keeps s p)
              | inr not ↦ rw not (moves.sends.error AapErrc.session_terminated s p)
            ])
    ]

    pub step-keeps :
        (e : Event V) (s : Session C V) → IsEnabled e s → P s → P (step strategy service auth e s)
    unfolding step
    step-keeps Event.start s _ p = begin-keeps s p
    step-keeps Event.stop s _ p = on_stop-keeps s p
    step-keeps Event.timeout s _ p = moves.expired s p
    step-keeps (Event.read_done bytes) s _ p = read-keeps strategy service auth P moves bytes s p
    step-keeps Event.read_aborted s _ p = p
    step-keeps Event.read_failed s _ p = moves.sends.error _ s p
    step-keeps Event.write_done s busy p = moves.written s busy p
    step-keeps Event.write_aborted s _ p = p
    step-keeps Event.write_failed s _ p = moves.sends.error _ s p
    step-keeps (Event.command c) s _ p = on_command-keeps strategy service auth P moves.sends c s p
    step-keeps (Event.call id program) s _ p =
        run-keeps strategy service auth P moves.sends id program s p
