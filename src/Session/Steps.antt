-- ===== src/Session/Steps.antt =====
-- Induction over the events of core/src/session/Session.cpp: a predicate that every primitive
-- operation keeps is kept by each step, and along every run.
use aa_v.Base.{ℕ, ◌≡◌, true, none, Bytes, ◌==◌, Bool-cases, inl, inr}
use aa_v.Protocol.{ControlMessageType, control_code, control_channel_id}
use aa_v.Crypto.{CryptoStrategy}
use aa_v.Framer.{AapMessage}
use aa_v.Assembler.{Assembler}
use aa_v.Assembler.Keeps.{feed-keeps_message}
use aa_v.Encoder.Keeps.{send_plaintext-keeps}
use aa_v.Handshake.Keeps.{on_version_response-keeps, on_ssl_data_received-keeps}
use aa_v.Service.{IService}
use aa_v.Session.{
  Session, SessionState, Effect, is_terminal, emit, enqueue_write, do_write_next, transition_to,
  start_state_timer, start_read, complete_disconnect, session_host,
}
use aa_v.Session.Handlers.{
  Event, send_message, popped, is_handshake_state, on_ssl_complete, on_version_response,
  handle_handshake_message, dispatch_decrypted, on_read_complete, on_state_timeout,
}
use aa_v.Session.Keeps.{Sends, deliver-keeps, host-Kept, send-keeps}

-- The other primitive operations of a session.
pub record Moves {C V : Type 0} (strategy : CryptoStrategy C) (service : IService V) (auth : Bytes)
    (P : Session C V → Type 0) : Type 0 where
  pub sends : Sends service P
  pub running : (s : Session C V) → P s → P (transition_to SessionState.running s)
  pub disconnected : (s : Session C V) → P s → P (complete_disconnect s)
  pub exchanging :
      (s : Session C V)
      → P s
      → P (
          start_state_timer s.config.version_exchange_timeout_ms
            (transition_to SessionState.version_exchange s))
  pub shaking :
      (s : Session C V)
      → P s
      → P (
          start_state_timer s.config.ssl_handshake_timeout_ms
            (transition_to SessionState.ssl_handshake s))
  pub leaving :
      (s : Session C V)
      → P s
      → P (
          start_state_timer s.config.byebye_timeout_ms (transition_to SessionState.disconnecting s))
  pub expired :
      (s : Session C V)
      → P s
      → P (on_state_timeout strategy service auth s.state (record s { timer = none }))
  pub read : (s : Session C V) → P s → P (emit Effect.async_read s)
  pub assembler : (a : Assembler) (s : Session C V) → P s → P (record s { assembler = a })
  pub written :
      (s : Session C V)
      → s.write_in_progress ≡ true
      → P s
      → P (do_write_next (record s { write_queue = popped s.write_queue }))

-- A write completes only while one is under way.
abbrev pub IsEnabled : {C V : Type 0} → Event V → Session C V → Type 0
IsEnabled Event.write_done s = s.write_in_progress ≡ true
IsEnabled _ s = Unit {0}

module _ {C V : Type 0} (strategy : CryptoStrategy C) (service : IService V) (auth : Bytes)
    (P : Session C V → Type 0) (moves : Moves strategy service auth P) where
  kept : Sends service P
  kept = moves.sends

  pub start_read-keeps : (s : Session C V) → P s → P (start_read s)
  unfolding start_read
  start_read-keeps s p = elim (Bool-cases (is_terminal s.state)) [
    | inl over ↦ rw over p
    | inr on ↦ rw on (moves.read s p)
  ]

  on_ssl_complete-keeps : (s : Session C V) → P s → P (on_ssl_complete strategy service auth s)
  unfolding on_ssl_complete
  on_ssl_complete-keeps s p = moves.running _ (
      send_plaintext-keeps strategy (session_host service) P
        (host-Kept strategy service auth P kept) enqueue_write (λ w t q. kept.enqueue w t q)
        (control_code ControlMessageType.auth_complete) auth s p)

  version-keeps :
      (payload : Bytes) (s : Session C V)
      → P s
      → P (on_version_response strategy service auth payload s)
  unfolding on_version_response
  version-keeps payload s p =
      on_version_response-keeps strategy (session_host service) P
        (host-Kept strategy service auth P kept)
        (send_message strategy service auth control_channel_id)
        (send-keeps strategy service auth P kept control_channel_id)
        (on_ssl_complete strategy service auth) on_ssl_complete-keeps payload _ (moves.shaking s p)

  handshake-keeps :
      (t : ℕ) (payload : Bytes) (s : Session C V)
      → P s
      → P (handle_handshake_message strategy service auth t payload s)
  unfolding handle_handshake_message
  handshake-keeps t payload s p =
      elim (Bool-cases (t == control_code ControlMessageType.version_response)) [
        | inl version ↦ rw version (version-keeps payload s p)
        | inr other ↦
            rw other (elim (Bool-cases (t == control_code ControlMessageType.encapsulated_ssl)) [
              | inl ssl ↦ rw ssl (
                  on_ssl_data_received-keeps strategy (session_host service) P
                    (host-Kept strategy service auth P kept)
                    (send_message strategy service auth control_channel_id)
                    (send-keeps strategy service auth P kept control_channel_id)
                    (on_ssl_complete strategy service auth) on_ssl_complete-keeps payload s p)
              | inr unknown ↦ rw unknown p
            ])
      ]

  dispatch-keeps :
      (m : AapMessage) (s : Session C V) → P s → P (dispatch_decrypted strategy service auth m s)
  unfolding dispatch_decrypted
  dispatch-keeps m s p = elim (Bool-cases (is_handshake_state s.state)) [
    | inl shaking ↦ rw (shaking, dispatch_decrypted) (handshake-keeps m.message_type m.payload s p)
    | inr over ↦ deliver-keeps strategy service auth P kept m s p over
  ]

  pub read-keeps :
      (bytes : Bytes) (s : Session C V) → P s → P (on_read_complete strategy service auth bytes s)
  unfolding on_read_complete
  read-keeps bytes s p = start_read-keeps _ (
      moves.assembler _ _ (
        feed-keeps_message strategy (session_host service) P
          (host-Kept strategy service auth P kept) (dispatch_decrypted strategy service auth)
          dispatch-keeps s.assembler bytes s p))
