-- ===== src/Encoder/EndToEnd.antt =====
-- A message sent by core/src/session/OutboundMessageEncoder.cpp and received by
-- core/src/session/InboundMessageAssembler.cpp, before and after the TLS handshake.
use aa_v.Base.{
  ℕ, ◌≡◌, ap, ◌∙◌, Bool, true, false, some, List, [], ◌∷◌, Bytes, concat, map, All, arith,
}
use aa_v.Base.Bits.{IsByte}
use aa_v.Base.Assoc.{Assoc, insert}
use aa_v.Protocol.{compute_frame_flags}
use aa_v.Protocol.Flags.{compute_frame_flags_lem}
use aa_v.Crypto.{CryptoStrategy, ok}
use aa_v.Framer
use aa_v.Framer.{AapMessage, AapFragment, OutboundFrame, has_flag, encode}
use aa_v.Framer.Encode.{IsFrame}
use aa_v.Assembler
use aa_v.Assembler.{Assembler, Host, extract_complete_message, message_of, send_on}
use aa_v.Assembler.Messages.{HasField}
use aa_v.Assembler.Reads.{between}
use aa_v.Encoder.{build_message_payload, enqueue_frames, outbound_frame, send_message}
use aa_v.Encoder.Delivery.{
  IsMessage, Deciphers, message_of-build, build-bytes, receive_frame, open_parts-plain,
  open_parts-sealed,
}

-- The flags that the encoder computes are those of a whole frame.
message_frame_lem :
    (message : AapMessage) (encrypted : Bool) (payload : Bytes)
    → IsMessage message
    → All IsByte payload
    → IsFrame (
        outbound_frame message.channel_id
          (compute_frame_flags message.channel_id message.message_type encrypted)
          payload)
message_frame_lem message encrypted payload v h = record {
  channel_byte = v.channel_byte;
  flags_byte = (compute_frame_flags_lem message.channel_id message.message_type encrypted).0;
  payload_bytes = h;
  unfragmented = (compute_frame_flags_lem message.channel_id message.message_type encrypted).1;
}

flags-encrypted :
    (channel_id message_type : ℕ) (encrypted : Bool)
    → has_flag (compute_frame_flags channel_id message_type encrypted) 0x08 ≡ encrypted
unfolding compute_frame_flags
flags-encrypted channel_id message_type encrypted = ground arith

extract-build :
    (message : AapMessage)
    → IsMessage message
    → (extract_complete_message message.channel_id
        (build_message_payload message.message_type message.payload)).1
      ≡ some message
unfolding extract_complete_message build_message_payload
extract-build message v = ground (arith, message_of-build message v.type_word)

abbrev message_payload : AapMessage → Bytes
message_payload message = build_message_payload message.message_type message.payload

abbrev message_frame : AapMessage → Bool → Bytes → OutboundFrame
message_frame message encrypted =
    outbound_frame message.channel_id
      (compute_frame_flags message.channel_id message.message_type encrypted)

-- What a receiver becomes by one message that came in whole.
abbrev pub delivered {ℓ} : {T : Type ℓ} → (AapMessage → T → T) → AapMessage → T → Assembler × T
delivered on_message message t = (
  record { framer = Framer.init; channel_payloads = (message.channel_id, []) ∷ [] },
  on_message message t,
)

module _ {S C : Type 0} (sender : CryptoStrategy C) (from : Host S C)
    (enqueue_frame : Bytes → S → S) (message : AapMessage) (s : S) where
  abbrev sent : S
  sent =
      send_message sender from enqueue_frame message.channel_id message.message_type message.payload
        s

  send_message-plain :
      sender.is_established (from.crypto s) ≡ false
      → sent
        ≡ enqueue_frames enqueue_frame
            (encode (message_frame message false (message_payload message)))
            s
  unfolding send_message
  send_message-plain e = rw e

  send_message-sealed :
      {c : C} {ciphertext : Bytes}
      → sender.is_established (from.crypto s) ≡ true
      → sender.encrypt (from.crypto s) (message_payload message) ≡ (c, ok ciphertext)
      → sent
        ≡ enqueue_frames enqueue_frame
            (encode (message_frame message true ciphertext))
            (from.set_crypto c s)
  unfolding send_message
  send_message-sealed e f = rw e (rw f)

-- The same, at a receiver between two messages.
abbrev pub arrived {ℓ} :
    {T : Type ℓ} → (AapMessage → T → T) → AapMessage → Assoc Bytes → T → Assembler × T
arrived on_message message payloads t =
    (between (insert message.channel_id [] payloads), on_message message t)

module _ {T D : Type 0} (receiver : CryptoStrategy D) (to : Host T D) (laws : HasField to)
    (on_message : AapMessage → T → T) (message : AapMessage) (v : IsMessage message)
    (payloads : Assoc Bytes) (t : T) where
  abbrev received : List Bytes → Assembler × T
  received wires = Assembler.feed receiver to (between payloads) (concat wires) (some on_message) t

  finished :
      (d : D)
      → send_on on_message
          (extract_complete_message message.channel_id (message_payload message)).1
          (to.set_crypto d t)
        ≡ on_message message (to.set_crypto d t)
  finished d = rw (extract-build message v)

  receive_plain :
      received (encode (message_frame message false (message_payload message)))
      ≡ arrived on_message message payloads t
  receive_plain =
      receive_frame receiver to laws on_message frame payloads t
        (to.crypto t, message_payload message)
        (message_frame_lem message false (message_payload message) v (build-bytes message v))
        (λ parts marks joined.
          open_parts-plain receiver frame true parts (to.crypto t) []
            (flags-encrypted message.channel_id message.message_type false) marks
          ∙ ap (λ b. some (to.crypto t, b)) joined)
      ∙ rw (finished (to.crypto t), laws.set-crypto t)
    where
      frame : OutboundFrame
      frame = message_frame message false (message_payload message)

  receive_sealed :
      (ciphertext : Bytes)
      → All IsByte ciphertext
      → (d : Deciphers receiver (to.crypto t) ciphertext (message_payload message))
      → received (encode (message_frame message true ciphertext))
        ≡ arrived on_message message payloads (to.set_crypto d.final t)
  receive_sealed ciphertext bytes d =
      receive_frame receiver to laws on_message frame payloads t (d.final, message_payload message)
        (message_frame_lem message true ciphertext v bytes)
        (λ parts marks joined.
          open_parts-sealed receiver frame true parts (to.crypto t) []
            (flags-encrypted message.channel_id message.message_type true) d.established d.stays
            marks
          ∙ d.pieces (map (λ (part : AapFragment). part.payload) parts) joined)
      ∙ rw (finished d.final)
    where
      frame : OutboundFrame
      frame = message_frame message true ciphertext

-- The two ends of a connection.
module _ {S C T D : Type 0} (sender : CryptoStrategy C) (from : Host S C)
    (enqueue_frame : Bytes → S → S) (receiver : CryptoStrategy D) (to : Host T D)
    (laws : HasField to) (on_message : AapMessage → T → T) where
  -- Before the handshake is complete, a message of any number of bytes with a one-byte channel and
  -- a two-byte type reaches the other end: the wire frames that the sender enqueues, in order, make
  -- a receiver with empty buffers call its message handler once, with this channel, type and
  -- payload, and leave its buffers empty.
  pub feed-send_message_plain :
      (message : AapMessage) (s : S) (t : T)
      → IsMessage message
      → sender.is_established (from.crypto s) ≡ false
      → (wires : List Bytes) × (send_message sender from enqueue_frame message.channel_id
            message.message_type message.payload s
          ≡ enqueue_frames enqueue_frame wires s)
        × (Assembler.feed receiver to Assembler.init (concat wires) (some on_message) t
            ≡ delivered on_message message t)
  unfolding insert
  feed-send_message_plain message s t v plainly = (
    encode (message_frame message false (message_payload message)),
    send_message-plain sender from enqueue_frame message s plainly,
    receive_plain receiver to laws on_message message v [] t,
  )

  -- A sealed message, at a receiver between two messages.
  pub send_and_receive :
      (message : AapMessage) (payloads : Assoc Bytes) (s : S) (t : T) (c : C) (ciphertext : Bytes)
      → IsMessage message
      → sender.is_established (from.crypto s) ≡ true
      → sender.encrypt (from.crypto s) (build_message_payload message.message_type message.payload)
        ≡ (c, ok ciphertext)
      → All IsByte ciphertext
      → (d : Deciphers receiver
          (to.crypto t)
          ciphertext
          (build_message_payload message.message_type message.payload))
      → (wires : List Bytes) × (send_message sender from enqueue_frame message.channel_id
            message.message_type message.payload s
          ≡ enqueue_frames enqueue_frame wires (from.set_crypto c s))
        × (Assembler.feed receiver to (between payloads) (concat wires) (some on_message) t
            ≡ arrived on_message message payloads (to.set_crypto d.final t))
  send_and_receive message payloads s t c ciphertext v est e bytes d = (
    encode (message_frame message true ciphertext),
    send_message-sealed sender from enqueue_frame message s est e,
    receive_sealed receiver to laws on_message message v payloads t ciphertext bytes d,
  )

  -- After the handshake, a message of bytes with a one-byte channel and a two-byte type reaches the
  -- other end, when the sender's strategy encrypts its payload to bytes that the receiver's
  -- strategy, established too, deciphers however they are cut: the wire frames that the sender
  -- enqueues, in order, make a receiver with empty buffers call its message handler once, with this
  -- channel, type and payload, and leave its buffers empty. This is so although the ciphertext is
  -- cut into fragments that are decrypted one by one.
  pub feed-send_message_sealed :
      (message : AapMessage) (s : S) (t : T) (c : C) (ciphertext : Bytes)
      → IsMessage message
      → sender.is_established (from.crypto s) ≡ true
      → sender.encrypt (from.crypto s) (build_message_payload message.message_type message.payload)
        ≡ (c, ok ciphertext)
      → All IsByte ciphertext
      → (d : Deciphers receiver
          (to.crypto t)
          ciphertext
          (build_message_payload message.message_type message.payload))
      → (wires : List Bytes) × (send_message sender from enqueue_frame message.channel_id
            message.message_type message.payload s
          ≡ enqueue_frames enqueue_frame wires (from.set_crypto c s))
        × (Assembler.feed receiver to Assembler.init (concat wires) (some on_message) t
            ≡ delivered on_message message (to.set_crypto d.final t))
  unfolding insert
  feed-send_message_sealed message s t c ciphertext v est e bytes d =
      send_and_receive message [] s t c ciphertext v est e bytes d
