-- ===== src/Encoder.antt =====
-- core/include/aauto/session/OutboundMessageEncoder.hpp and
-- core/src/session/OutboundMessageEncoder.cpp: a message becomes a payload, is encrypted once the
-- strategy is established, and goes to the write queue as wire frames.
pub mod Conversation
pub mod Delivery
pub mod EndToEnd
pub mod Keeps
use aa_v.Base.{ℕ, ◌/◌, ◌%◌, Bool, true, false, List, [], ◌∷◌, Bytes, bit_and, if◌then◌else◌}
use aa_v.Protocol.{control_channel_id, compute_frame_flags}
use aa_v.Crypto.{CryptoStrategy, Result, ok, err}
use aa_v.Framer.{OutboundFrame, byte_at, encode}
use aa_v.Assembler.{Host}

-- `message_type` is a `uint16_t`; its two bytes come first.
unfoldable pub build_message_payload : ℕ → Bytes → Bytes
build_message_payload message_type payload =
    byte_at message_type 1 ∷ byte_at message_type 0 ∷ payload

-- `for (auto& wire : wire_frames) enqueue_frame_(std::move(wire));`
abbrev pub enqueue_frames {ℓ} : {S : Type ℓ} → (Bytes → S → S) → List Bytes → S → S
enqueue_frames enqueue_frame [] s = s
enqueue_frames enqueue_frame (wire ∷ wires) s =
    enqueue_frames enqueue_frame wires (enqueue_frame wire s)

abbrev pub outbound_frame : ℕ → ℕ → Bytes → OutboundFrame
outbound_frame channel_id flags payload = record {
  channel_id = channel_id;
  flags = flags;
  payload = payload;
}

module _ {S C : Type 0} (strategy : CryptoStrategy C) (host : Host S C)
    (enqueue_frame : Bytes → S → S) where
  unfoldable pub queue_encoded_frame : ℕ → ℕ → Bool → Bytes → S → S
  queue_encoded_frame channel_id message_type encrypted payload s =
      let flags = compute_frame_flags channel_id message_type encrypted in
      enqueue_frames enqueue_frame (encode (outbound_frame channel_id flags payload)) s

  -- The handler of `encrypt`.
  abbrev pub queue_ciphertext : ℕ → ℕ → C × Result Bytes → S → S
  queue_ciphertext channel_id flags (c, err e) s = host.on_error e (host.set_crypto c s)
  queue_ciphertext channel_id flags (c, ok ciphertext) s =
      enqueue_frames enqueue_frame (encode (outbound_frame channel_id flags ciphertext))
        (host.set_crypto c s)

  unfoldable pub encrypt_and_queue_frame : ℕ → ℕ → Bytes → S → S
  encrypt_and_queue_frame channel_id flags plaintext s =
      queue_ciphertext channel_id flags (strategy.encrypt (host.crypto s) plaintext) s

  unfoldable pub send_message : ℕ → ℕ → Bytes → S → S
  unfolding build_message_payload encrypt_and_queue_frame queue_encoded_frame
  send_message channel_id message_type payload s =
      let full_payload = build_message_payload message_type payload in
      if strategy.is_established (host.crypto s)
      then encrypt_and_queue_frame channel_id (compute_frame_flags channel_id message_type true)
          full_payload s
      else queue_encoded_frame channel_id message_type false full_payload s

  unfoldable pub send_plaintext_control_message : ℕ → Bytes → S → S
  unfolding build_message_payload queue_encoded_frame
  send_plaintext_control_message message_type payload s =
      queue_encoded_frame control_channel_id message_type false
        (build_message_payload message_type payload) s
