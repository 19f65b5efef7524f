-- ===== src/Tls/Delivery.antt =====
-- A message between two ends that use impl/common/crypto/OpenSslCryptoStrategy.cpp.
use aa_v.Base.{
  ◌≡◌, refl, sym, ap, ap₂, ◌∙◌, true, some, List, [], ◌∷◌, ◌++◌, Bytes, concat, append-nil,
  append_assoc, append-cancel, All, arith, if◌then◌else◌,
}
use mathlib.Core.Logic.{◌≢◌}
use aa_v.Base.Bits.{IsByte}
use mathlib.Core.Path.{subst}
use aa_v.Protocol.{AapErrc}
use aa_v.Crypto.{Result, ok, err}
use aa_v.Framer.{AapMessage}
use aa_v.Assembler
use aa_v.Assembler.{Host}
use aa_v.Assembler.Messages.{HasField, and_then, opened}
use aa_v.Encoder.{build_message_payload, enqueue_frames, send_message}
use aa_v.Encoder.Delivery.{IsMessage, Deciphers, decrypt_all}
use aa_v.Encoder.EndToEnd.{delivered, feed-send_message_sealed}
use aa_v.Tls.{
  OpenSsl, OpenSslCryptoStrategy, encrypt, seal, decrypt, read_bio_output, openssl_strategy,
}
use aa_v.Tls.Loops.{HasOutbox, read_bio_output-empties}
use aa_v.Tls.Records.{IsTls, After, IsSettled, decrypt-After}

decrypt-established :
    {Context Ssl : Type 0} (lib : OpenSsl Context Ssl) (s : OpenSslCryptoStrategy Context Ssl)
    (c : Bytes)
    → (decrypt lib s c).0.established ≡ s.established
unfolding decrypt
decrypt-established lib s c = ground arith

module _ {Context Ssl : Type 0} (lib : OpenSsl Context Ssl) (tls : IsTls lib) where
  After-After :
      (x y z : Ssl) (c d out more : Bytes)
      → After lib tls x c y out
      → After lib tls y d z more
      → After lib tls x (c ++ d) z (out ++ more)
  After-After x y z c d out more f g = record {
    got = g.got ∙ ap (λ r. r ++ d) f.got ∙ append_assoc (tls.received x) c d;
    same_rest = g.same_rest ∙ f.same_rest;
    settled = g.settled;
    handed = g.handed ∙ ap (λ r. r ++ more) f.handed ∙ append_assoc (tls.delivered x) out more;
  }

  decrypt_all-After :
      (ps : List Bytes) (s : OpenSslCryptoStrategy Context Ssl) (x : Ssl) (plain : Bytes)
      → s.established ≡ true
      → s.ssl ≡ some x
      → IsSettled lib tls x
      → tls.IsAuthentic (tls.rest x) (tls.received x ++ concat ps)
      → (y : Ssl) × (out : Bytes) × After lib tls x (concat ps) y out
        × (decrypt_all (openssl_strategy lib) ps s plain
            ≡ some (record s { ssl = some y }, plain ++ out))
  decrypt_all-After [] s x plain est there settled safe = (
    x,
    [],
    record {
      got = sym (append-nil (tls.received x));
      same_rest = refl;
      settled = settled;
      handed = sym (append-nil (tls.delivered x));
    },
    ap₂ (λ o b. some (record s { ssl = o }, b)) there (sym (append-nil plain)),
  )
  decrypt_all-After (p ∷ ps) s x plain est there settled safe =
      let cut =
        subst (tls.IsAuthentic (tls.rest x)) (sym (append_assoc (tls.received x) p (concat ps)))
          safe in
      let (y, out, first, run) =
        decrypt-After lib tls s x p est there settled
          (tls.authentic-front (tls.rest x) (tls.received x ++ p) (concat ps) cut) in
      let still =
        subst (λ k. tls.IsAuthentic k (tls.received y ++ concat ps)) (sym first.same_rest)
          (subst (λ g. tls.IsAuthentic (tls.rest x) (g ++ concat ps)) (sym first.got) cut) in
      let (z, more, rest, runs) =
        decrypt_all-After ps (record s { ssl = some y }) y (plain ++ out) est refl first.settled
          still in
      (
        z,
        out ++ more,
        After-After x y z p (concat ps) out more first rest,
        ap
              (λ r.
                and_then (openssl_strategy lib) (opened (openssl_strategy lib) plain r)
                  (decrypt_all (openssl_strategy lib) ps))
              run
            ∙ runs
            ∙ ap (λ b. some (record s { ssl = some z }, b)) (append_assoc plain out more),
      )

  -- The object after a ciphertext, however it came.
  After-same :
      (x y z : Ssl) (c out more : Bytes)
      → After lib tls x c y out
      → After lib tls x c z more
      → y ≡ z
  After-same x y z c out more f g =
      tls.shows y z (f.got ∙ sym g.got)
        (f.settled
          ∙ ap₂ (λ o r. tls.opens o r) (f.same_rest ∙ sym g.same_rest) (f.got ∙ sym g.got)
          ∙ sym g.settled)
        (f.same_rest ∙ sym g.same_rest)

  After-plaintext :
      (x y : Ssl) (c out plaintext : Bytes)
      → After lib tls x c y out
      → tls.opens (tls.rest x) (tls.received x ++ c) ≡ tls.delivered x ++ plaintext
      → out ≡ plaintext
  After-plaintext x y c out plaintext f e =
      append-cancel (tls.delivered x) out plaintext
        (sym f.handed ∙ f.settled ∙ ap₂ (λ o r. tls.opens o r) f.same_rest f.got ∙ e)

  -- The ciphertext is deciphered, and the object that the strategy is left with.
  pub deciphers-After :
      (s : OpenSslCryptoStrategy Context Ssl) (x : Ssl) (ciphertext plaintext : Bytes)
      → s.established ≡ true
      → s.ssl ≡ some x
      → IsSettled lib tls x
      → tls.IsAuthentic (tls.rest x) (tls.received x ++ ciphertext)
      → tls.opens (tls.rest x) (tls.received x ++ ciphertext) ≡ tls.delivered x ++ plaintext
      → (d : Deciphers (openssl_strategy lib) s ciphertext plaintext) × (y : Ssl) × (d.final
          ≡ record s { ssl = some y })
        × After lib tls x ciphertext y plaintext
  deciphers-After s x ciphertext plaintext est there settled safe e =
      let (y, out, whole, _) = decrypt-After lib tls s x ciphertext est there settled safe in
      (
        record {
          final = record s { ssl = some y };
          pieces = λ ps cut.
              let (z, more, after, run) =
                decrypt_all-After ps s x [] est there settled (
                  subst (λ c. tls.IsAuthentic (tls.rest x) (tls.received x ++ c)) (sym cut) safe) in
              let after' = subst (λ c. After lib tls x c z more) cut after in
              run
              ∙ ap₂ (λ w b. some (record s { ssl = some w }, b))
                  (After-same x z y ciphertext more out after' whole)
                  (After-plaintext x z ciphertext more plaintext after' e);
          established = est;
          stays = λ d piece h. decrypt-established lib d piece ∙ h;
        },
        y,
        refl,
        subst (After lib tls x ciphertext y) (After-plaintext x y ciphertext out plaintext whole e)
            whole,
      )

  -- With OpenSSL behaving as a TLS connection does, an established strategy that has handed out all
  -- the plaintext it could, and whose keys open a further, authentic ciphertext to a plaintext,
  -- deciphers it however it is cut into pieces: the pieces, decrypted one after another, give the
  -- plaintext bit by bit and leave one and the same state, although a piece may end inside a
  -- record.
  pub openssl_strategy-Deciphers :
      (s : OpenSslCryptoStrategy Context Ssl) (x : Ssl) (ciphertext plaintext : Bytes)
      → s.established ≡ true
      → s.ssl ≡ some x
      → IsSettled lib tls x
      → tls.IsAuthentic (tls.rest x) (tls.received x ++ ciphertext)
      → tls.opens (tls.rest x) (tls.received x ++ ciphertext) ≡ tls.delivered x ++ plaintext
      → Deciphers (openssl_strategy lib) s ciphertext plaintext
  openssl_strategy-Deciphers s x ciphertext plaintext est there settled safe e =
      (deciphers-After s x ciphertext plaintext est there settled safe e).0

module _ {Context Ssl : Type 0} (lib : OpenSsl Context Ssl) (box : HasOutbox lib) where
  -- Documented behaviour of `SSL_write` of some bytes: it puts their records behind what the write
  -- BIO holds.
  pub record Seals : Type 0 where
    pub sealed : Ssl → Bytes → Bytes
    pub ssl_write-writes : (x : Ssl) (bytes : Bytes) → bytes ≢ [] → (lib.ssl_write bytes x).1 ≡ true
    pub ssl_write-outbox :
        (x : Ssl) (bytes : Bytes)
        → bytes ≢ []
        → box.outbox (lib.ssl_write bytes x).0 ≡ box.outbox x ++ sealed x bytes

  encrypt-seal :
      (s : OpenSslCryptoStrategy Context Ssl) (x : Ssl) (plaintext : Bytes)
      → s.established ≡ true
      → s.ssl ≡ some x
      → encrypt lib s plaintext
        ≡ (record s { ssl = some (seal lib plaintext x).0 }, (seal lib plaintext x).1)
  unfolding encrypt
  encrypt-seal s x plaintext est there = rw (est, there)

  seal-sealed :
      (seals : Seals) (x : Ssl) (plaintext : Bytes)
      → box.outbox x ≡ []
      → plaintext ≢ []
      → seal lib plaintext x
        ≡ ((read_bio_output lib (lib.ssl_write plaintext x).0).0, ok (seals.sealed x plaintext))
  seal-sealed seals x plaintext empty some_bytes =
      let output =
        (read_bio_output-empties lib box (lib.ssl_write plaintext x).0).0
        ∙ seals.ssl_write-outbox x plaintext some_bytes
        ∙ ap (λ b. b ++ seals.sealed x plaintext) empty in
      ap
        (λ w.
          if w
          then (
            (read_bio_output lib (lib.ssl_write plaintext x).0).0,
            ok (read_bio_output lib (lib.ssl_write plaintext x).0).1,
          )
          else ((lib.ssl_write plaintext x).0, err AapErrc.internal_error))
        (seals.ssl_write-writes x plaintext some_bytes)
      ∙ ap (λ b. ((read_bio_output lib (lib.ssl_write plaintext x).0).0, ok b)) output

  pub encrypt-sealed :
      (seals : Seals) (s : OpenSslCryptoStrategy Context Ssl) (x : Ssl) (plaintext : Bytes)
      → s.established ≡ true
      → s.ssl ≡ some x
      → box.outbox x ≡ []
      → plaintext ≢ []
      → encrypt lib s plaintext ≡ (
        record s { ssl = some (read_bio_output lib (lib.ssl_write plaintext x).0).0 },
        ok (seals.sealed x plaintext),
      )
  encrypt-sealed seals s x plaintext est there empty some_bytes =
      encrypt-seal s x plaintext est there
      ∙ ap (λ (r : Ssl × Result Bytes). (record s { ssl = some r.0 }, r.1))
          (seal-sealed seals x plaintext empty some_bytes)

module _ {Context Ssl Context' Ssl' S T : Type 0} (lib : OpenSsl Context Ssl) (box : HasOutbox lib)
    (seals : Seals lib box) (peer : OpenSsl Context' Ssl') (tls : IsTls peer)
    (from : Host S (OpenSslCryptoStrategy Context Ssl)) (enqueue_frame : Bytes → S → S)
    (to : Host T (OpenSslCryptoStrategy Context' Ssl')) (laws : HasField to)
    (on_message : AapMessage → T → T) where
  -- Two established ends that use the OpenSSL strategy, the sender with an empty write BIO, the
  -- receiver with all its plaintext handed out and with the keys for the sender's next record: a
  -- message of bytes with a one-byte channel and a two-byte type reaches the receiver. What the
  -- sender enqueues makes a receiver with empty buffers call its message handler once, with this
  -- channel, type and payload, and leave its buffers empty.
  pub openssl-delivers :
      (message : AapMessage) (s : S) (t : T) (x : Ssl) (y : Ssl')
      → IsMessage message
      → (from.crypto s).established ≡ true
      → (from.crypto s).ssl ≡ some x
      → box.outbox x ≡ []
      → (to.crypto t).established ≡ true
      → (to.crypto t).ssl ≡ some y
      → IsSettled peer tls y
      → tls.IsAuthentic (tls.rest y) (
          tls.received y
          ++ seals.sealed x (build_message_payload message.message_type message.payload))
      → All IsByte (seals.sealed x (build_message_payload message.message_type message.payload))
      → tls.opens (tls.rest y) (
          tls.received y
          ++ seals.sealed x (build_message_payload message.message_type message.payload))
        ≡ tls.delivered y ++ build_message_payload message.message_type message.payload
      → (wires : List Bytes) × (c : OpenSslCryptoStrategy Context Ssl) × (d : OpenSslCryptoStrategy
          Context' Ssl')
        × (send_message
              (openssl_strategy lib)
              from
              enqueue_frame
              message.channel_id
              message.message_type
              message.payload
              s
            ≡ enqueue_frames enqueue_frame wires (from.set_crypto c s))
        × (Assembler.feed
              (openssl_strategy peer)
              to
              Assembler.init
              (concat wires)
              (some on_message)
              t
            ≡ delivered on_message message (to.set_crypto d t))
  unfolding build_message_payload
  openssl-delivers message s t x y v est there empty est' there' settled safe bytes keys =
      let d =
        openssl_strategy-Deciphers peer tls (to.crypto t) y
          (seals.sealed x (build_message_payload message.message_type message.payload))
          (build_message_payload message.message_type message.payload) est' there' settled safe
          keys in
      let (wires, sent, received) =
        feed-send_message_sealed (openssl_strategy lib) from enqueue_frame (openssl_strategy peer)
          to laws on_message message s t _ _ v est
          (encrypt-sealed lib box seals (from.crypto s) x
            (build_message_payload message.message_type message.payload) est there empty
            (λ c. cc c))
          bytes d in
      (wires, _, d.final, sent, received)
