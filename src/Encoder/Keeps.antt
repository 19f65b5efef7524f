-- ===== src/Encoder/Keeps.antt =====
-- Induction over a call of `send_message` in core/src/session/OutboundMessageEncoder.cpp.
use aa_v.Base.{ℕ, Bool, true, false, List, [], ◌∷◌, Bytes, Bool-cases, inl, inr}
use aa_v.Protocol.{control_channel_id, compute_frame_flags}
use aa_v.Crypto.{CryptoStrategy, Result, ok, err}
use aa_v.Framer.{encode}
use aa_v.Assembler.{Host}
use aa_v.Assembler.Keeps.{Kept}
use aa_v.Encoder.{
  build_message_payload, enqueue_frames, outbound_frame, queue_ciphertext, queue_encoded_frame,
  send_message, send_plaintext_control_message,
}

module _ {S C : Type 0} (strategy : CryptoStrategy C) (host : Host S C) (P : S → Type 0)
    (kept : Kept host P) (enqueue_frame : Bytes → S → S)
    (keep : (wire : Bytes) (s : S) → P s → P (enqueue_frame wire s)) where
  enqueue_frames-keeps :
      (wires : List Bytes) (s : S) → P s → P (enqueue_frames enqueue_frame wires s)
  enqueue_frames-keeps [] s p = p
  enqueue_frames-keeps (wire ∷ wires) s p =
      enqueue_frames-keeps wires (enqueue_frame wire s) (keep wire s p)

  queue_ciphertext-keeps :
      (id flags : ℕ) (r : C × Result Bytes) (s : S)
      → P s
      → P (queue_ciphertext strategy host enqueue_frame id flags r s)
  queue_ciphertext-keeps id flags (c, ok ciphertext) s p =
      enqueue_frames-keeps (encode (outbound_frame id flags ciphertext)) _ (kept.set_crypto c s p)
  queue_ciphertext-keeps id flags (c, err e) s p = kept.on_error e _ (kept.set_crypto c s p)

  queue_encoded-keeps :
      (id message_type : ℕ) (encrypted : Bool) (payload : Bytes) (s : S)
      → P s
      → P (queue_encoded_frame strategy host enqueue_frame id message_type encrypted payload s)
  unfolding queue_encoded_frame
  queue_encoded-keeps id message_type encrypted payload s p =
      enqueue_frames-keeps
        (encode (outbound_frame id (compute_frame_flags id message_type encrypted) payload)) s p

  pub send_message-keeps :
      (id message_type : ℕ) (payload : Bytes) (s : S)
      → P s
      → P (send_message strategy host enqueue_frame id message_type payload s)
  unfolding send_message
  send_message-keeps id message_type payload s p =
      elim (Bool-cases (strategy.is_established (host.crypto s))) [
        | inl sealed ↦ rw sealed (
            queue_ciphertext-keeps id (compute_frame_flags id message_type true)
              (strategy.encrypt (host.crypto s) (build_message_payload message_type payload)) s p)
        | inr plainly ↦ rw plainly (
            queue_encoded-keeps id message_type false (build_message_payload message_type payload) s
              p)
      ]

  pub send_plaintext-keeps :
      (message_type : ℕ) (payload : Bytes) (s : S)
      → P s
      → P (send_plaintext_control_message strategy host enqueue_frame message_type payload s)
  unfolding send_plaintext_control_message
  send_plaintext-keeps message_type payload s p =
      queue_encoded-keeps control_channel_id message_type false
        (build_message_payload message_type payload) s p
