-- ===== src/Tls/Tunnel.antt =====
-- All messages between two ends that use impl/common/crypto/OpenSslCryptoStrategy.cpp.
use aa_v.Base.{ℕ, ◌≡◌, true, some, [], ◌++◌, Bytes, All}
use aa_v.Base.Bits.{IsByte}
use aa_v.Base.Assoc.{Assoc}
use mathlib.Core.Logic.{◌≢◌}
use aa_v.Assembler
use aa_v.Tls.{OpenSsl, OpenSslCryptoStrategy}
use aa_v.Tls.Loops.{HasOutbox}
use aa_v.Tls.Records.{IsTls, IsSettled}
use aa_v.Tls.Delivery.{Seals}

module _ {Context Ssl Context' Ssl' : Type 0} (lib : OpenSsl Context Ssl) (box : HasOutbox lib)
    (seals : Seals lib box) (peer : OpenSsl Context' Ssl') (tls : IsTls peer) where
  -- Documented behaviour of the two objects of one TLS connection: `Keyed x y` says that `y` has
  -- got all the records that `x` has written and has the key and the number of the next one. Then
  -- it opens that record to the bytes written, and the two are keyed for the record after it.
  pub record IsKeyed (Keyed : Ssl → Ssl' → Type 0) : Type 0 where
    pub sealed-bytes :
        (x : Ssl) (bytes : Bytes) → All IsByte bytes → All IsByte (seals.sealed x bytes)
    pub opens-sealed :
        (x : Ssl) (y : Ssl') (bytes : Bytes)
        → Keyed x y
        → bytes ≢ []
        → tls.opens (tls.rest y) (tls.received y ++ seals.sealed x bytes)
          ≡ tls.opens (tls.rest y) (tls.received y) ++ bytes
    pub sealed-IsAuthentic :
        (x : Ssl) (y : Ssl') (bytes : Bytes)
        → Keyed x y
        → bytes ≢ []
        → tls.IsAuthentic (tls.rest y) (tls.received y ++ seals.sealed x bytes)
    pub next-Keyed :
        (x : Ssl) (y z : Ssl') (bytes : Bytes)
        → Keyed x y
        → tls.received z ≡ tls.received y ++ seals.sealed x bytes
        → tls.rest z ≡ tls.rest y
        → Keyed (lib.ssl_write bytes x).0 z
    pub bio_read-Keyed : (n : ℕ) (x : Ssl) (y : Ssl') → Keyed x y → Keyed (lib.bio_read n x).0 y

  -- Two strategies at the ends of one connection, with nothing on its way.
  pub record IsTied (Keyed : Ssl → Ssl' → Type 0) (c : OpenSslCryptoStrategy Context Ssl)
      (d : OpenSslCryptoStrategy Context' Ssl') : Type 0 where
    pub here : Ssl
    pub there : Ssl'
    pub sender_established : c.established ≡ true
    pub receiver_established : d.established ≡ true
    pub sender_object : c.ssl ≡ some here
    pub receiver_object : d.ssl ≡ some there
    pub nothing_written : box.outbox here ≡ []
    pub settled : IsSettled peer tls there
    pub keyed : Keyed here there
