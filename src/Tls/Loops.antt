-- ===== src/Tls/Loops.antt =====
-- The two loops of impl/common/crypto/OpenSslCryptoStrategy.cpp come to their ends.
use aa_v.Base.{
  ℕ, zero, suc, ◌≤◌, ◌<◌, min, ◌≡◌, refl, sym, ap, ◌∙◌, true, some, [], ◌-◌, ◌++◌, ap₂, length-zero,
  Bytes, length, take, drop, append-nil, append_assoc, length-drop, take-append-drop, arith,
}
use mathlib.Core.Path.{subst}
use aa_v.Protocol.{AapErrc}
use aa_v.Crypto.{Result, ok, err}
use aa_v.Tls.{
  SslError, SslRead, OpenSsl, OpenSslCryptoStrategy, read_size, output_size, drain, read_bio_output,
  read_end, read_all, decrypt, unseal,
}

-- What becomes of the bytes read before a read that failed.
pub data Outcome : SslError → Bytes → Result Bytes → Type 0 where
  no_more : {bytes : Bytes} → Outcome SslError.want_read bytes (ok bytes)
  closed_by_peer : {bytes : Bytes} → Outcome SslError.zero_return bytes (ok bytes)
  blocked : {bytes : Bytes} → Outcome SslError.want_write bytes (err AapErrc.decryption_failed)
  broken : {bytes : Bytes} → Outcome SslError.other_error bytes (err AapErrc.decryption_failed)

module _ {Context Ssl : Type 0} (lib : OpenSsl Context Ssl) where
  read_end-Outcome : (e : SslError) (bytes : Bytes) → Outcome e bytes (read_end lib e bytes)
  read_end-Outcome SslError.want_read bytes = Outcome.no_more
  read_end-Outcome SslError.zero_return bytes = Outcome.closed_by_peer
  read_end-Outcome SslError.want_write bytes = Outcome.blocked
  read_end-Outcome SslError.other_error bytes = Outcome.broken

  -- Documented behaviour of a memory BIO: `BIO_ctrl_pending` is the number of bytes in it, and
  -- `BIO_read` takes as many as it asks for off its front.
  pub record HasOutbox : Type 0 where
    pub outbox : Ssl → Bytes
    pub pending-outbox : (ssl : Ssl) → lib.pending ssl ≡ length (outbox ssl)
    pub bio_read-front : (n : ℕ) (ssl : Ssl) → (lib.bio_read n ssl).1 ≡ take n (outbox ssl)
    pub bio_read-rest : (n : ℕ) (ssl : Ssl) → outbox (lib.bio_read n ssl).0 ≡ drop n (outbox ssl)

  -- Documented behaviour of `SSL_read`: a read that delivers bytes leaves fewer to deliver.
  abbrev pub Consumes : Type 0
  Consumes =
      (ssl : Ssl) (bytes : Bytes)
      → (lib.ssl_read read_size ssl).1 ≡ SslRead.bytes_read bytes
      → lib.unread (lib.ssl_read read_size ssl).0 < lib.unread ssl

  -- Reads of an object, up to the first one that fails: their bytes, the object after them, the
  -- error.
  pub data Reads : Ssl → Bytes → Ssl → SslError → Type 0 where
    fails :
        (ssl after : Ssl) (e : SslError)
        → lib.ssl_read read_size ssl ≡ (after, SslRead.read_failed e)
        → Reads ssl [] after e
    delivers :
        (ssl next after : Ssl) (bytes more : Bytes) (e : SslError)
        → lib.ssl_read read_size ssl ≡ (next, SslRead.bytes_read bytes)
        → Reads next more after e
        → Reads ssl (bytes ++ more) after e

  module _ (box : HasOutbox) where
    front-rest :
        (n : ℕ) (output : Bytes) (ssl : Ssl)
        → (output ++ (lib.bio_read n ssl).1) ++ box.outbox (lib.bio_read n ssl).0
          ≡ output ++ box.outbox ssl
    front-rest n output ssl =
        append_assoc output (lib.bio_read n ssl).1 (box.outbox (lib.bio_read n ssl).0)
        ∙ ap (λ b. output ++ b)
            (ap₂ ◌++◌ (box.bio_read-front n ssl) (box.bio_read-rest n ssl)
              ∙ take-append-drop n (box.outbox ssl))

    pending-bio_read :
        (n : ℕ) (ssl : Ssl) → lib.pending (lib.bio_read n ssl).0 ≡ lib.pending ssl - n
    pending-bio_read n ssl = rw (
      box.pending-outbox (lib.bio_read n ssl).0,
      box.bio_read-rest n ssl,
      length-drop n (box.outbox ssl),
      box.pending-outbox ssl,
    )

    pub empty_outbox : (ssl : Ssl) → lib.pending ssl ≡ 0 → box.outbox ssl ≡ []
    empty_outbox ssl e = length-zero (box.outbox ssl) (sym (box.pending-outbox ssl) ∙ e)

    nothing_left :
        (output : Bytes) (ssl : Ssl)
        → lib.pending ssl ≡ 0
        → (output ≡ output ++ box.outbox ssl) × (lib.pending ssl ≡ 0)
    nothing_left output ssl e =
        (sym (append-nil output) ∙ ap (λ b. output ++ b) (sym (empty_outbox ssl e)), e)

    drain_lem :
        (fuel : ℕ) (output : Bytes) (ssl : Ssl)
        → lib.pending ssl ≤ fuel
        → ((drain lib fuel output ssl).1 ≡ output ++ box.outbox ssl)
          × (lib.pending (drain lib fuel output ssl).0 ≡ 0)
    unfolding drain
    drain_lem zero output ssl h = nothing_left output ssl (omega arith)
    drain_lem (suc fuel) output ssl h = ground (
      arith,
      nothing_left output ssl,
      drain_lem fuel (output ++ (lib.bio_read (min (lib.pending ssl) output_size) ssl).1)
          (lib.bio_read (min (lib.pending ssl) output_size) ssl).0,
      front-rest (min (lib.pending ssl) output_size) output ssl,
      pending-bio_read (min (lib.pending ssl) output_size) ssl,
    )

    -- When BIO_ctrl_pending and BIO_read behave as documented, the loop of read_bio_output, run for
    -- as many rounds as there are pending bytes, ends by its own test with no byte pending, and its
    -- output is all that was in the BIO, in order, although it is read in pieces of 4096.
    pub read_bio_output-empties :
        (ssl : Ssl)
        → ((read_bio_output lib ssl).1 ≡ box.outbox ssl)
          × (lib.pending (read_bio_output lib ssl).0 ≡ 0)
    unfolding read_bio_output
    read_bio_output-empties ssl = drain_lem (lib.pending ssl) [] ssl (omega arith)

  pub decrypt-unseal :
      (s : OpenSslCryptoStrategy Context Ssl) (ssl : Ssl) (ciphertext : Bytes)
      → s.established ≡ true
      → s.ssl ≡ some ssl
      → decrypt lib s ciphertext
        ≡ (record s { ssl = some (unseal lib ciphertext ssl).0 }, (unseal lib ciphertext ssl).1)
  unfolding decrypt
  decrypt-unseal s ssl ciphertext est there = rw (est, there)

  module _ (consumes : Consumes) where
    -- The rounds of a loop that starts with the read `r` and `fuel` more.
    read_all_lem :
        (fuel : ℕ) (plaintext : Bytes) (ssl : Ssl) (r : Ssl × SslRead)
        → lib.ssl_read read_size ssl ≡ r
        → lib.unread ssl ≤ fuel
        → (bytes : Bytes) × (after : Ssl) × (e : SslError) × Reads ssl bytes after e
          × (read_all lib fuel plaintext r ≡ (after, read_end lib e (plaintext ++ bytes)))
    unfolding read_all
    read_all_lem fuel plaintext ssl (after, SslRead.read_failed e) q h = (
      [],
      after,
      e,
      Reads.fails ssl after e q,
      ap (λ b. (after, read_end lib e b)) (sym (append-nil plaintext)),
    )
    read_all_lem zero plaintext ssl (next, SslRead.bytes_read bytes) q h =
        absurd (omega (arith, consumes ssl bytes (ap (λ r. r.1) q)))
    read_all_lem (suc fuel) plaintext ssl (next, SslRead.bytes_read bytes) q h =
        let smaller : lib.unread next < lib.unread ssl =
          subst (λ (x : Ssl). lib.unread x < lib.unread ssl) (ap (λ r. r.0) q)
            (consumes ssl bytes (ap (λ r. r.1) q)) in
        let (more, after, e, reads, run) =
          read_all_lem fuel (plaintext ++ bytes) next (lib.ssl_read read_size next) refl
            (omega arith) in
        (
          bytes ++ more,
          after,
          e,
          Reads.delivers ssl next after bytes more e q reads,
          run ∙ ap (λ b. (after, read_end lib e b)) (append_assoc plaintext bytes more),
        )

    pub decrypt-read_all :
        (s : OpenSslCryptoStrategy Context Ssl) (ssl : Ssl) (ciphertext : Bytes)
        → s.established ≡ true
        → s.ssl ≡ some ssl
        → (bytes : Bytes) × (after : Ssl) × (e : SslError) × Reads
            (lib.bio_write ciphertext ssl)
            bytes
            after
            e
          × (decrypt lib s ciphertext ≡ (record s { ssl = some after }, read_end lib e bytes))
    unfolding decrypt
    decrypt-read_all s ssl ciphertext est there =
        let (bytes, after, e, reads, run) =
          read_all_lem (lib.unread (lib.bio_write ciphertext ssl)) [] (lib.bio_write ciphertext ssl)
            _ refl (omega arith) in
        (
          bytes,
          after,
          e,
          reads,
          decrypt-unseal s ssl ciphertext est there
              ∙ ap (λ (r : Ssl × Result Bytes). (record s { ssl = some r.0 }, r.1)) run,
        )

    -- When every read that delivers bytes leaves fewer to deliver, the endless loop of decrypt, on
    -- an established connection whose object is there, ends: the object reads bytes until a read
    -- fails, and decrypt returns all these bytes in order when that read wants more input or the
    -- phone has closed the connection, and DecryptionFailed when it wants to write or fails
    -- otherwise. The connection stays established, with the object that the reads left.
    pub decrypt-ends :
        (s : OpenSslCryptoStrategy Context Ssl) (ssl : Ssl) (ciphertext : Bytes)
        → s.established ≡ true
        → s.ssl ≡ some ssl
        → (bytes : Bytes) × (after : Ssl) × (e : SslError) × (result : Result Bytes) × Reads
            (lib.bio_write ciphertext ssl)
            bytes
            after
            e
          × Outcome e bytes result
          × (decrypt lib s ciphertext ≡ (record s { ssl = some after }, result))
    decrypt-ends s ssl ciphertext est there =
        let (bytes, after, e, reads, run) = decrypt-read_all s ssl ciphertext est there in
        (bytes, after, e, read_end lib e bytes, reads, read_end-Outcome e bytes, run)
