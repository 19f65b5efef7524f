-- ===== src/Assembler.antt =====
-- core/include/aauto/session/InboundMessageAssembler.hpp and
-- core/src/session/InboundMessageAssembler.cpp: decryption fragment by fragment, and reassembly of
-- each channel's message.
pub mod Messages
pub mod Reads
pub mod Keeps
use aa_v.Base.{
  ℕ, ◌*◌, Bool, true, false, not, ◌&&◌, Option, none, some, [], ◌∷◌, ◌++◌, Bytes, length, get_or,
  drop, ltb, bit_or, if◌then◌else◌,
}
use aa_v.Base.Assoc.{Assoc, find, insert}
use aa_v.Protocol.{AapErrc}
use aa_v.Crypto.{CryptoStrategy, Result, ok, err}
use aa_v.Framer
use aa_v.Framer.{AapFragment, AapMessage, Framer}

pub record Assembler : Type 0 where
  pub framer : Framer
  pub channel_payloads : Assoc Bytes

abbrev pub init : Assembler
init = record { framer = Framer.init; channel_payloads = [] }

-- What the assembler shares with its owner, whose state is `S`: the strategy `crypto_`, and the
-- handler `on_error_`.
pub record Host (S C : Type 0) : Type 0 where
  pub crypto : S → C
  pub set_crypto : C → S → S
  pub on_error : AapErrc → S → S

-- `channel_payloads_[id]`, which makes an empty entry of a missing one
abbrev pub or_empty : Option Bytes → Bytes
or_empty none = []
or_empty (some payload) = payload

abbrev pub payload_of : ℕ → Assoc Bytes → Bytes
payload_of id payloads = or_empty (find id payloads)

-- The message of a complete payload: two bytes of type, most significant first, and the rest.
abbrev pub message_of : ℕ → Bytes → AapMessage
message_of channel_id payload = record {
  channel_id = channel_id;
  message_type = bit_or (get_or payload 0 0 * 256) (get_or payload 1 0);
  payload = drop 2 payload;
}

-- The payload is left empty on both branches; `none` is the result false.
unfoldable pub extract_complete_message : ℕ → Bytes → Bytes × Option AapMessage
extract_complete_message channel_id payload =
    if ltb (length payload) 2 then ([], none) else ([], some (message_of channel_id payload))

abbrev pub send_on {ℓ} : {T : Type ℓ} → (AapMessage → T → T) → Option AapMessage → T → T
send_on on_message none s = s
send_on on_message (some message) s = on_message message s

module _ {S C : Type 0} (strategy : CryptoStrategy C) (host : Host S C) where
  -- The handler of `decrypt`: on an error it reports `decryption_failed`.
  pub decrypted : Bytes → Bytes → C × Result Bytes → S → Bool × Bytes × S
  decrypted channel_payload cipher (c, ok plaintext) s =
      (true, channel_payload ++ plaintext, host.set_crypto c s)
  decrypted channel_payload cipher (c, err e) s =
      (false, [], host.on_error AapErrc.decryption_failed (host.set_crypto c s))

  unfoldable pub append_fragment_payload : AapFragment → Bytes → S → Bool × Bytes × S
  unfolding decrypted
  append_fragment_payload frag channel_payload s =
      let start = if frag.is_first then [] else channel_payload in
      if frag.encrypted && strategy.is_established (host.crypto s)
      then decrypted start frag.payload (strategy.decrypt (host.crypto s) frag.payload) s
      else (true, start ++ frag.payload, s)

  -- The lambda that `feed` hands to the framer.
  unfoldable pub on_fragment :
      (AapMessage → S → S) → AapFragment → Assoc Bytes × S → Assoc Bytes × S
  on_fragment on_message frag (payloads, s) =
      let (appended, payload, s') =
        append_fragment_payload frag (payload_of frag.channel_id payloads) s in
      if not (appended && frag.is_last)
      then (insert frag.channel_id payload payloads, s')
      else let (cleared, message) = extract_complete_message frag.channel_id payload in
        (insert frag.channel_id cleared payloads, send_on on_message message s')

  unfoldable pub feed : Assembler → Bytes → Option (AapMessage → S → S) → S → Assembler × S
  feed a bytes none s = (a, s)
  feed a [] (some on_message) s = (a, s)
  feed a (b ∷ bytes) (some on_message) s =
      let (framer, after) =
        Framer.feed a.framer (b ∷ bytes) (some (on_fragment on_message)) (a.channel_payloads, s) in
      (record { framer = framer; channel_payloads = after.0 }, after.1)
