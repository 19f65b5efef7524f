-- ===== src/Tls/Records.antt =====
-- The records that impl/common/crypto/OpenSslCryptoStrategy.cpp decrypts, piece by piece.
use aa_v.Base.{
  ◌≡◌, refl, sym, ap, ap₂, ◌∙◌, true, some, [], ◌∷◌, ◌++◌, Bytes, append-nil, append_assoc,
}
use mathlib.Core.Path.{subst}
use mathlib.Core.Logic.{◌≢◌}
use aa_v.Crypto.{ok}
use aa_v.Tls.{SslError, SslRead, OpenSsl, OpenSslCryptoStrategy, read_size, read_end, decrypt}
use aa_v.Tls.Loops.{Consumes, Reads, decrypt-read_all}

module _ {Context Ssl : Type 0} (lib : OpenSsl Context Ssl) where
  -- Documented behaviour of a TLS connection. An object has been given `received` since the
  -- handshake and has handed out `delivered`; `rest` is what else it consists of, the keys and the
  -- write BIO. `opens` is the plaintext of the whole records of a ciphertext, which grows as the
  -- ciphertext does. As long as the ciphertext is authentic, the beginning of what the peer sealed
  -- for this object with no close among it, a read hands out a part of what is there, and wants
  -- more input when nothing is. Of other ciphertext nothing is said: a read may fail in any way.
  pub record IsTls : Type 1 where
    pub received : Ssl → Bytes
    pub delivered : Ssl → Bytes
    pub Rest : Type 0
    pub rest : Ssl → Rest
    pub opens : Rest → Bytes → Bytes
    pub IsAuthentic : Rest → Bytes → Type 0
    pub authentic-front : (r : Rest) (a b : Bytes) → IsAuthentic r (a ++ b) → IsAuthentic r a
    pub consumes : Consumes lib
    pub opens-grows :
        (r : Rest) (a b : Bytes) → (more : Bytes) × (opens r (a ++ b) ≡ opens r a ++ more)
    pub write-received :
        (x : Ssl) (bytes : Bytes) → received (lib.bio_write bytes x) ≡ received x ++ bytes
    pub write-delivered :
        (x : Ssl) (bytes : Bytes) → delivered (lib.bio_write bytes x) ≡ delivered x
    pub write-rest : (x : Ssl) (bytes : Bytes) → rest (lib.bio_write bytes x) ≡ rest x
    pub read-empty :
        (x : Ssl)
        → IsAuthentic (rest x) (received x)
        → delivered x ≡ opens (rest x) (received x)
        → lib.ssl_read read_size x ≡ (x, SslRead.read_failed SslError.want_read)
    pub read-some :
        (x : Ssl) (left : Bytes)
        → IsAuthentic (rest x) (received x)
        → delivered x ++ left ≡ opens (rest x) (received x)
        → left ≢ []
        → (bytes : Bytes) × ((lib.ssl_read read_size x).1 ≡ SslRead.bytes_read bytes)
    pub read-part :
        (x y : Ssl) (bytes left : Bytes)
        → IsAuthentic (rest x) (received x)
        → delivered x ++ left ≡ opens (rest x) (received x)
        → lib.ssl_read read_size x ≡ (y, SslRead.bytes_read bytes)
        → (more : Bytes) × (bytes ++ more ≡ left)
          × (received y ≡ received x)
          × (delivered y ≡ delivered x ++ bytes)
          × (rest y ≡ rest x)
    pub shows :
        (x y : Ssl) → received x ≡ received y → delivered x ≡ delivered y → rest x ≡ rest y → x ≡ y

  module _ (tls : IsTls) where
    -- `y` is `x` after the ciphertext `c`, with the plaintext `out` handed out.
    pub record After (x : Ssl) (c : Bytes) (y : Ssl) (out : Bytes) : Type 0 where
      pub got : tls.received y ≡ tls.received x ++ c
      pub same_rest : tls.rest y ≡ tls.rest x
      pub settled : tls.delivered y ≡ tls.opens (tls.rest y) (tls.received y)
      pub handed : tls.delivered y ≡ tls.delivered x ++ out

    read-empty_at :
        (x y : Ssl) (r : SslRead)
        → tls.IsAuthentic (tls.rest x) (tls.received x)
        → tls.delivered x ++ [] ≡ tls.opens (tls.rest x) (tls.received x)
        → lib.ssl_read read_size x ≡ (y, r)
        → (y ≡ x) × (r ≡ SslRead.read_failed SslError.want_read)
    read-empty_at x y r safe h q =
        let e = sym q ∙ tls.read-empty x safe (sym (append-nil (tls.delivered x)) ∙ h) in
        (ap (λ p. p.0) e, ap (λ p. p.1) e)

    -- All that is there is read.
    Reads-all :
        (x y : Ssl) (bytes rest : Bytes) (e : SslError)
        → Reads lib x bytes y e
        → tls.IsAuthentic (tls.rest x) (tls.received x)
        → tls.delivered x ++ rest ≡ tls.opens (tls.rest x) (tls.received x)
        → (e ≡ SslError.want_read) × (bytes ≡ rest) × After x [] y rest
    Reads-all x y bytes [] e (Reads.fails _ _ _ q) safe h =
        let (same, failed) = read-empty_at x y (SslRead.read_failed e) safe h q in
        (
          cc failed,
          refl,
          subst (λ (z : Ssl). After x [] z []) (sym same)
              (record {
                got = sym (append-nil (tls.received x));
                same_rest = refl;
                settled = sym (append-nil (tls.delivered x)) ∙ h;
                handed = sym (append-nil (tls.delivered x));
              }),
        )
    Reads-all x y bytes (b ∷ rest) e (Reads.fails _ _ _ q) safe h =
        let (front, read) = tls.read-some x (b ∷ rest) safe h (λ c. cc c) in
        absurd (cc (sym (ap (λ p. p.1) q) ∙ read))
    Reads-all x y bytes [] e (Reads.delivers _ next _ front more _ q reads) safe h =
        absurd (cc ((read-empty_at x next (SslRead.bytes_read front) safe h q).1))
    Reads-all x y bytes (b ∷ rest) e (Reads.delivers _ next _ front more _ q reads) safe h =
        let (left, sum, got, handed, keys) = tls.read-part x next front (b ∷ rest) safe h q in
        let still : tls.IsAuthentic (tls.rest next) (tls.received next) =
          subst (λ k. tls.IsAuthentic k (tls.received next)) (sym keys)
            (subst (tls.IsAuthentic (tls.rest x)) (sym got) safe) in
        let in_step : tls.delivered next ++ left ≡ tls.opens (tls.rest next) (tls.received next) =
          ap (λ d. d ++ left) handed
          ∙ append_assoc (tls.delivered x) front left
          ∙ ap (λ r. tls.delivered x ++ r) sum
          ∙ h
          ∙ sym (ap₂ (λ o r. tls.opens o r) keys got) in
        let (failed, all, after) = Reads-all next y more left e reads still in_step in
        (
          failed,
          ap (λ m. front ++ m) all ∙ sum,
          record {
            got = after.got ∙ ap (λ r. r ++ []) got;
            same_rest = after.same_rest ∙ keys;
            settled = after.settled;
            handed =
                after.handed
                ∙ ap (λ d. d ++ left) handed
                ∙ append_assoc (tls.delivered x) front left
                ∙ ap (λ r. tls.delivered x ++ r) sum;
          },
        )

    abbrev pub IsSettled : Ssl → Type 0
    IsSettled x = tls.delivered x ≡ tls.opens (tls.rest x) (tls.received x)

    -- One piece.
    pub decrypt-After :
        (s : OpenSslCryptoStrategy Context Ssl) (x : Ssl) (c : Bytes)
        → s.established ≡ true
        → s.ssl ≡ some x
        → IsSettled x
        → tls.IsAuthentic (tls.rest x) (tls.received x ++ c)
        → (y : Ssl) × (out : Bytes) × After x c y out
          × (decrypt lib s c ≡ (record s { ssl = some y }, ok out))
    decrypt-After s x c est there settled safe =
        let fresh : tls.IsAuthentic (tls.rest (lib.bio_write c x))
            (tls.received (lib.bio_write c x)) =
          subst (λ k. tls.IsAuthentic k (tls.received (lib.bio_write c x)))
            (sym (tls.write-rest x c))
            (subst (tls.IsAuthentic (tls.rest x)) (sym (tls.write-received x c)) safe) in
        let (more, grown) = tls.opens-grows (tls.rest x) (tls.received x) c in
        let in_step : tls.delivered (lib.bio_write c x) ++ more
            ≡ tls.opens (tls.rest (lib.bio_write c x)) (tls.received (lib.bio_write c x)) =
          ap (λ d. d ++ more) (tls.write-delivered x c ∙ settled)
          ∙ sym grown
          ∙ sym (ap₂ (λ o r. tls.opens o r) (tls.write-rest x c) (tls.write-received x c)) in
        let (bytes, y, e, reads, run) = decrypt-read_all lib tls.consumes s x c est there in
        let (wants, all, after) =
          Reads-all (lib.bio_write c x) y bytes more e reads fresh in_step in
        (
          y,
          more,
          record {
            got = after.got ∙ append-nil _ ∙ tls.write-received x c;
            same_rest = after.same_rest ∙ tls.write-rest x c;
            settled = after.settled;
            handed = after.handed ∙ ap (λ d. d ++ more) (tls.write-delivered x c);
          },
          run ∙ ap₂ (λ f b. (record s { ssl = some y }, read_end lib f b)) wants all,
        )
