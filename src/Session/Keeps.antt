-- ===== src/Session/Keeps.antt =====
-- Induction over the calls of core/src/session/Session.cpp: what the primitive operations keep,
-- sending and a service's method keep.
use aa_v.Base.{ℕ, ◌≡◌, false, none, List, [], ◌∷◌, Bytes, Option-cases, if_elim, inl, inr}
use aa_v.Base.Assoc.{Assoc, find, insert}
use aa_v.Protocol.{AapErrc}
use aa_v.Crypto.{CryptoStrategy}
use aa_v.Framer.{AapMessage}
use aa_v.Assembler.Keeps.{Kept}
use aa_v.Encoder.Keeps.{send_message-keeps}
use aa_v.Service.{IService, Program}
use aa_v.Session.{
  Session, SessionState, Effect, is_terminal, enqueue_write, transition_to,
  close_transport_and_services, handle_error, session_host, emit,
}
use aa_v.Session.Handlers.{
  send_message, run, for_each, Command, find_bluetooth_service, with_bluetooth, on_command,
  is_handshake_state, dispatch_decrypted,
}

-- What sending and the services' methods do to a session, one primitive operation at a time.
pub record Sends {C V : Type 0} (service : IService V) (P : Session C V → Type 0) : Type 0 where
  pub crypto : (c : C) (s : Session C V) → P s → P (record s { crypto = c })
  pub services : (m : Assoc V) (s : Session C V) → P s → P (record s { services = m })
  pub post_stop : (s : Session C V) → P s → P (emit Effect.post_stop s)
  pub enqueue : (wire : Bytes) (s : Session C V) → P s → P (enqueue_write wire s)
  pub error : (e : AapErrc) (s : Session C V) → P s → P (handle_error service e s)

pub handle_error-keeps :
    {C V : Type 0} (service : IService V) (P : Session C V → Type 0)
    → ((s : Session C V) → P s → P (transition_to SessionState.error s))
    → ((s : Session C V) → P s → P (emit Effect.transport_close s))
    → ((s : Session C V) → P s → P (record s { timer = none }))
    → ((m : Assoc V) (s : Session C V) → P s → P (record s { services = m }))
    → ((id : ℕ) (e : AapErrc) (s : Session C V) → P s → P (emit (Effect.session_error id e) s))
    → (e : AapErrc) (s : Session C V) → P s
    → P (handle_error service e s)
unfolding handle_error close_transport_and_services
handle_error-keeps service P to_error close timer services told e s p =
    if_elim P (is_terminal s.state) s _ (λ over. p)
      (λ on.
        let failed = close_transport_and_services service (transition_to SessionState.error s) in
        let kept = services _ _ (close _ (timer _ (to_error s p))) in
        if_elim P s.has_observer (emit (Effect.session_error s.config.session_id e) failed) failed
          (λ seen. told s.config.session_id e failed kept) (λ unseen. kept))

module _ {C V : Type 0} (strategy : CryptoStrategy C) (service : IService V)
    (serialized_auth : Bytes) (P : Session C V → Type 0) (kept : Sends service P) where
  pub host-Kept : Kept (session_host service) P
  host-Kept = record { set_crypto = kept.crypto; on_error = kept.error }

  pub send-keeps :
      (id message_type : ℕ) (payload : Bytes) (s : Session C V)
      → P s
      → P (send_message strategy service serialized_auth id message_type payload s)
  unfolding send_message
  send-keeps =
      send_message-keeps strategy (session_host service) P host-Kept enqueue_write kept.enqueue

  pub run-keeps :
      (id : ℕ) (program : Program V) (s : Session C V)
      → P s
      → P (run strategy service serialized_auth id program s)
  unfolding run
  run-keeps id Program.done s p = p
  run-keeps id (Program.get k) s p = elim (Option-cases (find id s.services)) [
    | inl e ↦ rw (e, run) p
    | inr (v, e) ↦ rw (e, run) (run-keeps id (k v) s p)
  ]
  run-keeps id (Program.put v rest) s p =
      run-keeps id rest _ (kept.services (insert id v s.services) s p)
  run-keeps id (Program.send channel_id message_type payload rest) s p =
      run-keeps id rest _ (send-keeps channel_id message_type payload s p)
  run-keeps id (Program.request_stop rest) s p = run-keeps id rest _ (kept.post_stop s p)

  pub for_each-keeps :
      (program : Program V) (ids : List ℕ) (s : Session C V)
      → P s
      → P (for_each strategy service serialized_auth program ids s)
  unfolding for_each
  for_each-keeps program [] s p = p
  for_each-keeps program (id ∷ ids) s p = for_each-keeps program ids _ (run-keeps id program s p)

  bluetooth-keeps :
      (program : Program V) (s : Session C V)
      → P s
      → P (with_bluetooth strategy service serialized_auth program s)
  unfolding with_bluetooth
  bluetooth-keeps program s p =
      elim (Option-cases (find_bluetooth_service service.type s.services)) [
        | inl e ↦ rw (e, with_bluetooth) p
        | inr (id, e) ↦ rw (e, with_bluetooth) (run-keeps id program s p)
      ]

  pub on_command-keeps :
      (c : Command) (s : Session C V) → P s → P (on_command strategy service serialized_auth c s)
  unfolding on_command
  on_command-keeps (Command.complete_pairing status paired) s p = bluetooth-keeps _ s p
  on_command-keeps (Command.complete_auth status) s p = bluetooth-keeps _ s p
  on_command-keeps (Command.set_video_surface w) s p = for_each-keeps _ _ s p
  on_command-keeps (Command.set_video_focus b) s p = for_each-keeps _ _ s p
  on_command-keeps Command.attach_all_sinks s p = for_each-keeps _ _ s p
  on_command-keeps Command.detach_all_sinks s p = for_each-keeps _ _ s p
  on_command-keeps (Command.send_touch_event x y action) s p = for_each-keeps _ _ s p
  on_command-keeps (Command.send_media_key keycode) s p = for_each-keeps _ _ s p
  on_command-keeps Command.release_audio_focus s p = for_each-keeps _ _ s p
  on_command-keeps Command.gain_audio_focus s p = for_each-keeps _ _ s p

  -- A message for the services.
  pub deliver-keeps :
      (m : AapMessage) (s : Session C V)
      → P s
      → is_handshake_state s.state ≡ false
      → P (dispatch_decrypted strategy service serialized_auth m s)
  unfolding dispatch_decrypted
  deliver-keeps m s p e = rw e (elim (Option-cases (find m.channel_id s.services)) [
    | inl missing ↦ rw missing p
    | inr (v, found) ↦
        rw found (run-keeps m.channel_id (service.on_message m.message_type m.payload) s p)
  ])
