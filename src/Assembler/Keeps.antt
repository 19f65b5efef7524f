-- ===== src/Assembler/Keeps.antt =====
-- Induction over a call of `feed` in core/src/session/InboundMessageAssembler.cpp.
use aa_v.Base.{◌&&◌, Option, none, some, [], ◌∷◌, Bytes, if◌then◌else◌, Bool-cases, inl, inr}
use aa_v.Base.Assoc.{Assoc}
use aa_v.Protocol.{AapErrc}
use aa_v.Crypto.{CryptoStrategy, Result, ok, err}
use aa_v.Framer.{AapFragment, AapMessage}
use aa_v.Framer.Keeps.{feed-keeps}
use aa_v.Assembler.{
  Assembler, Host, decrypted, append_fragment_payload, on_fragment, send_on,
  extract_complete_message, payload_of, feed,
}

-- The owner's handlers keep `P`.
pub record Kept {S C : Type 0} (host : Host S C) (P : S → Type 0) : Type 0 where
  pub set_crypto : (c : C) (s : S) → P s → P (host.set_crypto c s)
  pub on_error : (e : AapErrc) (s : S) → P s → P (host.on_error e s)

module _ {S C : Type 0} (strategy : CryptoStrategy C) (host : Host S C) (P : S → Type 0)
    (kept : Kept host P) where
  decrypted-keeps :
      (payload cipher : Bytes) (r : C × Result Bytes) (s : S)
      → P s
      → P (decrypted strategy host payload cipher r s).2
  unfolding decrypted
  decrypted-keeps payload cipher (c, ok plaintext) s p = kept.set_crypto c s p
  decrypted-keeps payload cipher (c, err e) s p = kept.on_error _ _ (kept.set_crypto c s p)

  append-keeps :
      (part : AapFragment) (payload : Bytes) (s : S)
      → P s
      → P (append_fragment_payload strategy host part payload s).2
  unfolding append_fragment_payload
  append-keeps part payload s p =
      elim (Bool-cases (part.encrypted && strategy.is_established (host.crypto s))) [
        | inl sealed ↦ rw sealed (
            decrypted-keeps (if part.is_first then [] else payload) part.payload
              (strategy.decrypt (host.crypto s) part.payload) s p)
        | inr plainly ↦ rw plainly p
      ]

  module _ (on_message : AapMessage → S → S)
      (keep : (m : AapMessage) (s : S) → P s → P (on_message m s)) where
    send_on-keeps : (m : Option AapMessage) (s : S) → P s → P (send_on on_message m s)
    send_on-keeps none s p = p
    send_on-keeps (some m) s p = keep m s p

    on_fragment-keeps :
        (part : AapFragment) (payloads : Assoc Bytes) (s : S)
        → P s
        → P (on_fragment strategy host on_message part (payloads, s)).1
    unfolding on_fragment
    on_fragment-keeps part payloads s p =
        let r =
          append_fragment_payload strategy host part (payload_of part.channel_id payloads) s in
        let kept' : P r.2 = append-keeps part (payload_of part.channel_id payloads) s p in
        elim (Bool-cases (r.0 && part.is_last)) [
          | inl last ↦
              rw last (send_on-keeps (extract_complete_message part.channel_id r.1).1 r.2 kept')
          | inr more ↦ rw more kept'
        ]

    pub feed-keeps_message :
        (a : Assembler) (bytes : Bytes) (s : S)
        → P s
        → P (feed strategy host a bytes (some on_message) s).1
    unfolding feed
    feed-keeps_message a [] s p = p
    feed-keeps_message a (b ∷ bytes) s p =
        feed-keeps (λ (q : Assoc Bytes × S). P q.1) (on_fragment strategy host on_message)
          (λ part q r. on_fragment-keeps part q.0 q.1 r) a.framer (b ∷ bytes)
          (a.channel_payloads, s) p
