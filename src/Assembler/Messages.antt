-- ===== src/Assembler/Messages.antt =====
-- Which messages core/src/session/InboundMessageAssembler.cpp hands over.
use aa_v.Base.{
  ℕ, ◌≡◌, refl, sym, ap, ap₂, ◌∙◌, Bool, true, false, ◌&&◌, Option, none, some, List, [], ◌∷◌, ◌++◌,
  Bytes, if◌then◌else◌, arith, Bool-cases, inl, inr,
}
use mathlib.Core.Path.{subst}
use aa_v.Base.Assoc.{Assoc, insert, find-insert_self, insert-insert}
use aa_v.Crypto.{CryptoStrategy, Result, ok, err}
use aa_v.Framer.{AapFragment, AapMessage, OutboundFrame}
use aa_v.Framer.RoundTrip.{AreParts, deliver}
use aa_v.Assembler.{
  Host, or_empty, payload_of, extract_complete_message, decrypted, append_fragment_payload, send_on,
  on_fragment,
}

-- The owner's state holds the strategy's state as a field.
pub record HasField {S C : Type 0} (host : Host S C) : Type 0 where
  pub crypto-set : (c : C) (s : S) → host.crypto (host.set_crypto c s) ≡ c
  pub set-set : (c d : C) (s : S) → host.set_crypto c (host.set_crypto d s) ≡ host.set_crypto c s
  pub set-crypto : (s : S) → host.set_crypto (host.crypto s) s ≡ s

module _ {C : Type 0} (strategy : CryptoStrategy C) where
  abbrev pub opened : Bytes → C × Result Bytes → Option (C × Bytes)
  opened plain (c, ok plaintext) = some (c, plain ++ plaintext)
  opened plain (c, err e) = none

  -- The plaintext of fragments that are decrypted one after another, behind `plain`.
  abbrev pub open_part : AapFragment → C → Bytes → Option (C × Bytes)
  open_part part c plain =
      if part.encrypted && strategy.is_established c
      then opened plain (strategy.decrypt c part.payload)
      else some (c, plain ++ part.payload)

  abbrev pub and_then : Option (C × Bytes) → (C → Bytes → Option (C × Bytes)) → Option (C × Bytes)
  and_then none k = none
  and_then (some (c, plain)) k = k c plain

  abbrev pub open_parts : List AapFragment → C → Bytes → Option (C × Bytes)
  open_parts [] c plain = some (c, plain)
  open_parts (part ∷ parts) c plain = and_then (open_part part c plain) (open_parts parts)

payload_of-insert :
    (id : ℕ) (plain : Bytes) (payloads : Assoc Bytes)
    → payload_of id (insert id plain payloads) ≡ plain
payload_of-insert id plain payloads = ap or_empty (find-insert_self id plain payloads)

module _ {S C : Type 0} (strategy : CryptoStrategy C) (host : Host S C) (laws : HasField host) where
  decrypted-ok :
      (plain cipher : Bytes) (r : C × Result Bytes) (s : S) {c : C} {plain' : Bytes}
      → opened strategy plain r ≡ some (c, plain')
      → decrypted strategy host plain cipher r s ≡ (true, plain', host.set_crypto c s)
  unfolding decrypted
  decrypted-ok plain cipher (c, ok plaintext) s e = ground arith
  decrypted-ok plain cipher (c, err x) s e = cc

  append_ok :
      (part : AapFragment) (payload : Bytes) (s : S) {c : C} {plain : Bytes}
      → open_part strategy part (host.crypto s) (if part.is_first then [] else payload)
        ≡ some (c, plain)
      → append_fragment_payload strategy host part payload s ≡ (true, plain, host.set_crypto c s)
  unfolding append_fragment_payload
  append_ok part payload s e =
      elim (Bool-cases (part.encrypted && strategy.is_established (host.crypto s))) [
        | inl sealed ↦ rw sealed (
            decrypted-ok (if part.is_first then [] else payload) part.payload
              (strategy.decrypt (host.crypto s) part.payload) s (rw sealed at e))
        | inr plainly ↦
            rw plainly (let e' = rw plainly at e in ground (arith, e', laws.set-crypto s))
      ]

  module _ (on_message : AapMessage → S → S) where
    -- One fragment, given the plaintext behind it and what its flags say.
    on_fragment_step :
        (part : AapFragment) (id : ℕ) (is_first is_last : Bool) (payloads : Assoc Bytes) (s : S)
        {c : C} {plain : Bytes}
        → part.channel_id ≡ id
        → part.is_first ≡ is_first
        → part.is_last ≡ is_last
        → open_part strategy part (host.crypto s) (if is_first then [] else payload_of id payloads)
          ≡ some (c, plain)
        → on_fragment strategy host on_message part (payloads, s) ≡ (
            if is_last
            then (
              insert id (extract_complete_message id plain).0 payloads,
              send_on on_message (extract_complete_message id plain).1 (host.set_crypto c s),
            )
            else (insert id plain payloads, host.set_crypto c s))
    unfolding on_fragment
    on_fragment_step part id is_first is_last payloads s {c} {plain} pid pf pl e =
        rw (append_ok part (payload_of part.channel_id payloads) s e', on_fragment) (ground arith)
      where
        start :
            (if part.is_first then [] else payload_of part.channel_id payloads)
            ≡ (if is_first then [] else payload_of id payloads)
        start = ap₂ (λ f i. if f then [] else payload_of i payloads) pf pid

        e' :
            open_part strategy part
              (host.crypto s)
              (if part.is_first then [] else payload_of part.channel_id payloads)
            ≡ some (c, plain)
        e' = subst (λ b. open_part strategy part (host.crypto s) b ≡ some (c, plain)) (sym start) e

    -- What is done with the plaintext of a whole message.
    abbrev finish : ℕ → Assoc Bytes → S → C × Bytes → Assoc Bytes × S
    finish channel_id payloads s (c, plain) = (
      insert channel_id [] payloads,
      send_on on_message (extract_complete_message channel_id plain).1 (host.set_crypto c s),
    )

    finish-finish :
        (id : ℕ) (plain : Bytes) (payloads : Assoc Bytes) (c : C) (s : S) (r : C × Bytes)
        → finish id (insert id plain payloads) (host.set_crypto c s) r ≡ finish id payloads s r
    finish-finish id plain payloads c s (d, message) = rw (insert-insert, laws.set-set)

    extract_clears : (id : ℕ) (plain : Bytes) → (extract_complete_message id plain).0 ≡ []
    unfolding extract_complete_message
    extract_clears id plain = ground arith

    and_then-some :
        (o : Option (C × Bytes)) (k : C → Bytes → Option (C × Bytes)) {r : C × Bytes}
        → and_then strategy o k ≡ some r
        → (q : C × Bytes) × (o ≡ some q) × (k q.0 q.1 ≡ some r)
    and_then-some none k e = cc
    and_then-some (some q) k e = (q, refl, e)

    -- Fragments that make up one message of a channel and can all be decrypted, where a host's
    -- strategy is a field of its state: once the last one is in, the message of their plaintext is
    -- handed over (or dropped, if it is shorter than its two bytes of type), and the channel's
    -- buffer is empty, whatever it held.
    pub deliver-open :
        (frame : OutboundFrame) (is_first : Bool) (parts : List AapFragment)
        (payloads : Assoc Bytes) (s : S) {r : C × Bytes}
        → AreParts frame is_first parts
        → open_parts strategy parts
            (host.crypto s)
            (if is_first then [] else payload_of frame.channel_id payloads)
          ≡ some r
        → deliver (on_fragment strategy host on_message) parts (payloads, s)
          ≡ finish frame.channel_id payloads s r
    deliver-open frame is_first [] payloads s ps e = absurd ps
    deliver-open frame is_first (part ∷ []) payloads s ps e =
        let id = frame.channel_id in
        let ((c, plain), o, k) =
          and_then-some
            (open_part strategy part (host.crypto s)
              (if is_first then [] else payload_of id payloads))
            (open_parts strategy []) e in
        on_fragment_step part id is_first true payloads s ps.0 ps.2 ps.3 o
        ∙ ground (arith, extract_clears id plain, k)
    deliver-open frame is_first (part ∷ next ∷ parts) payloads s {r} (p, ps) e =
        let id = frame.channel_id in
        let ((c, plain), o, k) =
          and_then-some
            (open_part strategy part (host.crypto s)
              (if is_first then [] else payload_of id payloads))
            (open_parts strategy (next ∷ parts)) e in
        ap (deliver (on_fragment strategy host on_message) (next ∷ parts))
          (on_fragment_step part id is_first false payloads s p.0 p.2 p.3 o)
        ∙ deliver-open frame false (next ∷ parts) (insert id plain payloads) (host.set_crypto c s)
            {r = r} ps
            (ap₂ (open_parts strategy (next ∷ parts)) (laws.crypto-set c s)
                (payload_of-insert id plain payloads)
              ∙ k)
        ∙ finish-finish id plain payloads c s r
