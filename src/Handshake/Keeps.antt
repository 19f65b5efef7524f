-- ===== src/Handshake/Keeps.antt =====
-- Induction over the handshake steps of core/src/session/HandshakeCoordinator.cpp.
use aa_v.Base.{
  ℕ, not, ◌&&◌, Option, Bytes, leb, length, ◌==◌, if◌then◌else◌, Bool-cases, inl, inr, none,
}
use aa_v.Crypto.{CryptoStrategy, HandshakeResult, Result, ok, err}
use aa_v.Assembler.{Host}
use aa_v.Assembler.Keeps.{Kept}
use aa_v.Handshake.{
  is_empty, version_status, handle_handshake_step_result, handshake_step, on_ssl_data_received,
  on_version_response,
}

module _ {S C : Type 0} (strategy : CryptoStrategy C) (host : Host S C) (P : S → Type 0)
    (kept : Kept host P) (send_control_message : ℕ → Bytes → S → S)
    (keep_send : (t : ℕ) (payload : Bytes) (s : S) → P s → P (send_control_message t payload s))
    (on_complete : S → S) (keep_complete : (s : S) → P s → P (on_complete s)) where
  result-keeps :
      (r : Result HandshakeResult) (s : S)
      → P s
      → P (handle_handshake_step_result strategy host send_control_message on_complete r s)
  unfolding handle_handshake_step_result
  result-keeps (err e) s p = kept.on_error _ s p
  result-keeps (ok r) s p = elim (Bool-cases (not (is_empty r.output_bytes))) [
    | inl out ↦ rw out (completed _ (keep_send _ r.output_bytes s p))
    | inr quiet ↦ rw quiet (completed s p)
  ]
    where
      completed : (t : S) → P t → P (if r.complete then on_complete t else t)
      completed t q = elim (Bool-cases r.complete) [
        | inl over ↦ rw over (keep_complete t q)
        | inr on ↦ rw on q
      ]

  handshake_step-keeps :
      (input : Option Bytes) (s : S)
      → P s
      → P (handshake_step strategy host send_control_message on_complete input s)
  unfolding handshake_step
  handshake_step-keeps input s p =
      let r = strategy.handshake_step (host.crypto s) input in
      result-keeps r.1 (host.set_crypto r.0 s) (kept.set_crypto r.0 s p)

  pub on_ssl_data_received-keeps :
      (bytes : Bytes) (s : S)
      → P s
      → P (on_ssl_data_received strategy host send_control_message on_complete bytes s)
  unfolding on_ssl_data_received
  on_ssl_data_received-keeps bytes s p = handshake_step-keeps _ s p

  pub on_version_response-keeps :
      (payload : Bytes) (s : S)
      → P s
      → P (on_version_response strategy host send_control_message on_complete payload s)
  unfolding on_version_response
  on_version_response-keeps payload s p =
      elim (Bool-cases (leb 6 (length payload) && not (version_status payload == 0))) [
        | inl refused ↦ rw refused (kept.on_error _ s p)
        | inr passed ↦ rw passed (handshake_step-keeps none s p)
      ]
