-- ===== src/Encoder/Delivery.antt =====
-- From core/src/session/OutboundMessageEncoder.cpp of one end to
-- core/src/session/InboundMessageAssembler.cpp of the other.
use aa_v.Base.{
  ◌<◌, ◌≡◌, refl, ap, ap₂, ◌∙◌, Bool, true, false, ◌&&◌, Option, some, List, [], ◌∷◌, ◌++◌, Bytes,
  concat, map, if◌then◌else◌, All, append-nil, append_assoc, arith,
}
use aa_v.Base.Bits.{IsByte}
use aa_v.Base.Assoc.{Assoc, insert}
use aa_v.Crypto.{CryptoStrategy, Result, ok, err}
use aa_v.Framer
use aa_v.Framer.{Framer, AapFragment, AapMessage, OutboundFrame, has_flag, byte_at, encode}
use aa_v.Framer.Encode.{IsFrame, two_bytes}
use aa_v.Framer.RoundTrip.{AreParts, payloads as payloads_of, feed-encode}
use aa_v.Assembler
use aa_v.Assembler.{
  Assembler, Host, message_of, extract_complete_message, on_fragment, feed, send_on,
}
use aa_v.Assembler.Messages.{HasField, opened, open_part, open_parts, and_then, deliver-open}
use aa_v.Assembler.Reads.{between, feed-framer}
use aa_v.Encoder.{build_message_payload}

-- A message that `send_message` is called with: a `uint8_t`, a `uint16_t` and bytes.
pub record IsMessage (message : AapMessage) : Type 0 where
  pub channel_byte : IsByte message.channel_id
  pub type_word : message.message_type < 65536
  pub payload_bytes : All IsByte message.payload

-- Two bytes of type, put in front and taken off again.
pub message_of-build :
    (message : AapMessage)
    → message.message_type < 65536
    → message_of message.channel_id (build_message_payload message.message_type message.payload)
      ≡ message
unfolding build_message_payload
message_of-build message h =
    ap (λ t. record message { message_type = t }) (two_bytes message.message_type h)

pub build-bytes :
    (message : AapMessage)
    → IsMessage message
    → All IsByte (build_message_payload message.message_type message.payload)
unfolding build_message_payload
build-bytes message v = (omega arith, (omega arith, v.payload_bytes))

-- Decryption of pieces of a ciphertext, one after another.
module _ {C : Type 0} (strategy : CryptoStrategy C) where
  abbrev pub decrypt_all : List Bytes → C → Bytes → Option (C × Bytes)
  decrypt_all [] c plain = some (c, plain)
  decrypt_all (piece ∷ pieces) c plain =
      and_then strategy (opened strategy plain (strategy.decrypt c piece)) (decrypt_all pieces)

  -- What TLS promises of a record stream: however the ciphertext is cut, its pieces decrypt to the
  -- plaintext, bit by bit, and the connection stays established.
  pub record Deciphers (c : C) (ciphertext plaintext : Bytes) : Type 0 where
    pub final : C
    pub pieces :
        (ps : List Bytes) → concat ps ≡ ciphertext → decrypt_all ps c [] ≡ some (final, plaintext)
    pub established : strategy.is_established c ≡ true
    pub stays :
        (d : C) (piece : Bytes)
        → strategy.is_established d ≡ true
        → strategy.is_established (strategy.decrypt d piece).0 ≡ true

  open_part-plain :
      (part : AapFragment) (c : C) (plain : Bytes)
      → part.encrypted ≡ false
      → open_part strategy part c plain ≡ some (c, plain ++ part.payload)
  open_part-plain part c plain e =
      ap
        (λ b.
          if b && strategy.is_established c
          then opened strategy plain (strategy.decrypt c part.payload)
          else some (c, plain ++ part.payload))
        e

  open_part-sealed :
      (part : AapFragment) (c : C) (plain : Bytes)
      → part.encrypted ≡ true
      → strategy.is_established c ≡ true
      → open_part strategy part c plain ≡ opened strategy plain (strategy.decrypt c part.payload)
  open_part-sealed part c plain e est =
      ap₂
        (λ b d.
          if b && d
          then opened strategy plain (strategy.decrypt c part.payload)
          else some (c, plain ++ part.payload))
        e est

  and_then-congr :
      (plain : Bytes) (r : C × Result Bytes) (k k' : C → Bytes → Option (C × Bytes))
      → ((p : Bytes) → k r.0 p ≡ k' r.0 p)
      → and_then strategy (opened strategy plain r) k
        ≡ and_then strategy (opened strategy plain r) k'
  and_then-congr plain (c, ok plaintext) k k' h = h (plain ++ plaintext)
  and_then-congr plain (c, err x) k k' h = refl

  pub open_parts-plain :
      (frame : OutboundFrame) (is_first : Bool) (parts : List AapFragment) (c : C) (plain : Bytes)
      → has_flag frame.flags 0x08 ≡ false
      → AreParts frame is_first parts
      → open_parts strategy parts c plain ≡ some (c, plain ++ payloads_of parts)
  open_parts-plain frame is_first [] c plain e ps = absurd ps
  open_parts-plain frame is_first (part ∷ []) c plain e p =
      ap (λ o. and_then strategy o (open_parts strategy []))
        (open_part-plain part c plain (p.1 ∙ e))
      ∙ rw append-nil
  open_parts-plain frame is_first (part ∷ next ∷ parts) c plain e (p, ps) =
      ap (λ o. and_then strategy o (open_parts strategy (next ∷ parts)))
        (open_part-plain part c plain (p.1 ∙ e))
      ∙ open_parts-plain frame false (next ∷ parts) c (plain ++ part.payload) e ps
      ∙ ap (λ b. some (c, b)) (append_assoc plain part.payload (payloads_of (next ∷ parts)))

  pub open_parts-sealed :
      (frame : OutboundFrame) (is_first : Bool) (parts : List AapFragment) (c : C) (plain : Bytes)
      → has_flag frame.flags 0x08 ≡ true
      → strategy.is_established c ≡ true
      → ((d : C) (piece : Bytes)
          → strategy.is_established d ≡ true
          → strategy.is_established (strategy.decrypt d piece).0 ≡ true)
      → AreParts frame is_first parts
      → open_parts strategy parts c plain
        ≡ decrypt_all (map (λ (part : AapFragment). part.payload) parts) c plain
  open_parts-sealed frame is_first [] c plain e est stays ps = absurd ps
  open_parts-sealed frame is_first (part ∷ []) c plain e est stays p =
      ap (λ o. and_then strategy o (open_parts strategy []))
        (open_part-sealed part c plain (p.1 ∙ e) est)
  open_parts-sealed frame is_first (part ∷ next ∷ parts) c plain e est stays (p, ps) =
      ap (λ o. and_then strategy o (open_parts strategy (next ∷ parts)))
        (open_part-sealed part c plain (p.1 ∙ e) est)
      ∙ and_then-congr plain (strategy.decrypt c part.payload) (open_parts strategy (next ∷ parts))
          (decrypt_all (map (λ (part : AapFragment). part.payload) (next ∷ parts)))
          (λ b.
            open_parts-sealed frame false (next ∷ parts) (strategy.decrypt c part.payload).0 b e
              (stays c part.payload est) stays ps)

module _ {S C : Type 0} (strategy : CryptoStrategy C) (host : Host S C) (laws : HasField host)
    (on_message : AapMessage → S → S) where
  -- The receiver of the wire bytes of one frame whose fragments can be opened.
  pub receive_frame :
      (frame : OutboundFrame) (payloads : Assoc Bytes) (t : S) (r : C × Bytes)
      → IsFrame frame
      → ((parts : List AapFragment)
          → AreParts frame true parts
          → payloads_of parts ≡ frame.payload
          → open_parts strategy parts (host.crypto t) [] ≡ some r)
      → Assembler.feed strategy host (between payloads) (concat (encode frame)) (some on_message) t
        ≡ (
          between (insert frame.channel_id [] payloads),
          send_on on_message
              (extract_complete_message frame.channel_id r.1).1
              (host.set_crypto r.0 t),
        )
  receive_frame frame payloads t r v opens =
      let (parts, fed, marks, joined) =
        feed-encode (on_fragment strategy host on_message) frame (payloads, t) v in
      feed-framer strategy host on_message (between payloads) (concat (encode frame)) t
      ∙ ap (λ x. (record { framer = x.0; channel_payloads = x.1.0 }, x.1.1))
          (fed
            ∙ ap (λ x. (Framer.init, x))
                (deliver-open strategy host laws on_message frame true parts payloads t {r = r}
                  marks (opens parts marks joined)))
