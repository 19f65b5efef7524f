-- ===== src/Assembler/Reads.antt =====
-- `InboundMessageAssembler::feed` in core/src/session/InboundMessageAssembler.cpp over a stream of
-- reads: its framer is fed the bytes.
use aa_v.Base.{◌≡◌, refl, sym, ap, ◌∙◌, some, List, [], ◌∷◌, ◌++◌, Bytes, concat}
use aa_v.Base.Assoc.{Assoc}
use aa_v.Crypto.{CryptoStrategy}
use aa_v.Framer
use aa_v.Framer.{AapMessage, Framer}
use aa_v.Framer.Stream
use aa_v.Framer.Stream.{feed-init_append, feed_reads-concat}
use aa_v.Assembler
use aa_v.Assembler.{Assembler, Host, on_fragment, feed}

-- An assembler between two messages.
abbrev pub between : Assoc Bytes → Assembler
between payloads = record { framer = Framer.init; channel_payloads = payloads }

abbrev with_framer : {S : Type 0} → Framer × (Assoc Bytes × S) → Assembler × S
with_framer x = (record { framer = x.0; channel_payloads = x.1.0 }, x.1.1)

abbrev without : {S : Type 0} → Assembler × S → Framer × (Assoc Bytes × S)
without x = (x.0.framer, (x.0.channel_payloads, x.1))

module _ {S C : Type 0} (strategy : CryptoStrategy C) (host : Host S C)
    (on_message : AapMessage → S → S) where
  pub feed-framer :
      (a : Assembler) (bytes : Bytes) (t : S)
      → Assembler.feed strategy host a bytes (some on_message) t ≡ (
          let (framer, after) =
            Framer.feed a.framer bytes
              (some (on_fragment strategy host on_message))
              (a.channel_payloads, t) in
          (record { framer = framer; channel_payloads = after.0 }, after.1))
  unfolding Assembler.feed Framer.feed
  feed-framer a [] t = refl
  feed-framer a (b ∷ bytes) t = refl

  -- After bytes that end a message, the rest of the bytes find the receiver between two messages.
  pub feed-after :
      (payloads payloads' : Assoc Bytes) (xs ys : Bytes) (t u : S)
      → Assembler.feed strategy host (between payloads) xs (some on_message) t
        ≡ (between payloads', u)
      → Assembler.feed strategy host (between payloads) (xs ++ ys) (some on_message) t
        ≡ Assembler.feed strategy host (between payloads') ys (some on_message) u
  feed-after payloads payloads' xs ys t u h =
      feed-framer (between payloads) (xs ++ ys) t
      ∙ ap with_framer (
          feed-init_append (on_fragment strategy host on_message) xs ys (payloads, t) (payloads', u)
            (ap without (sym (feed-framer (between payloads) xs t) ∙ h)))
      ∙ sym (feed-framer (between payloads') ys u)

  -- Reads, one after another.
  abbrev pub feed_reads : List Bytes → Assembler → S → Assembler × S
  feed_reads [] a t = (a, t)
  feed_reads (bytes ∷ reads) a t =
      let (a', t') = Assembler.feed strategy host a bytes (some on_message) t in
      feed_reads reads a' t'

  feed_reads-framer :
      (reads : List Bytes) (a : Assembler) (t : S)
      → feed_reads reads a t
        ≡ with_framer (
            Stream.feed_reads
              (on_fragment strategy host on_message)
              reads
              a.framer
              (a.channel_payloads, t))
  feed_reads-framer [] a t = refl
  feed_reads-framer (bytes ∷ reads) a t =
      let (a', t') = Assembler.feed strategy host a bytes (some on_message) t in
      feed_reads-framer reads a' t'
      ∙ ap
          (λ (r : Assembler × S). with_framer (
            Stream.feed_reads (on_fragment strategy host on_message) reads r.0.framer
              (r.0.channel_payloads, r.1)))
          (feed-framer a bytes t)

  -- To a receiver between two messages, reads are their bytes.
  pub feed_reads-joined :
      (reads : List Bytes) (payloads : Assoc Bytes) (t : S)
      → feed_reads reads (between payloads) t
        ≡ Assembler.feed strategy host (between payloads) (concat reads) (some on_message) t
  feed_reads-joined reads payloads t =
      feed_reads-framer reads (between payloads) t
      ∙ ap with_framer
          (feed_reads-concat (on_fragment strategy host on_message) reads (payloads, t))
      ∙ sym (feed-framer (between payloads) (concat reads) t)
