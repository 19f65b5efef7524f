-- ===== src/Tls.antt =====
-- impl/common/crypto/OpenSslCryptoStrategy.hpp and impl/common/crypto/OpenSslCryptoStrategy.cpp:
-- the crypto strategy that calls OpenSSL, as a TLS client whose bytes go through memory BIOs.
pub mod Loops
pub mod Records
pub mod Delivery
pub mod Tunnel
pub mod Lifetime
pub mod Credentials
use aa_v.Base.{
  ℕ, zero, suc, min, Bool, true, false, not, ◌&&◌, Option, none, some, [], ◌∷◌, ◌++◌, Bytes, ltb,
  if◌then◌else◌,
}
use aa_v.Protocol.{AapErrc}
use aa_v.Crypto.{CryptoStrategy, HandshakeResult, Result, ok, err}
use aa_v.Handshake.{is_empty}

-- What `SSL_get_error` returns, as far as the code tells it apart.
pub data SslError : Type 0 where
  want_read want_write zero_return other_error : SslError

-- `SSL_read`: bytes for a positive count, and else the error.
pub data SslRead : Type 0 where
  bytes_read : Bytes → SslRead
  read_failed : SslError → SslRead

-- The calls of OpenSSL. A context is an `SSL_CTX`, and an object an `SSL` with its two memory BIOs.
-- A loading call says whether it succeeded, `do_handshake` whether it returned 1 and the error,
-- `ssl_write` whether it wrote. `bio_read` returns no bytes for a count of 0 or less. The code does
-- not ask `unread`, the number of bytes that `ssl_read` can still deliver; it bounds the read loop.
pub record OpenSsl (Context Ssl : Type 0) : Type 0 where
  pub ctx_new : Option Context
  pub restrict : Context → Context
  pub use_certificate_file : Bytes → Context → Context × Bool
  pub use_certificate : Bytes → Context → Context × Bool
  pub use_private_key_file : Bytes → Context → Context × Bool
  pub use_private_key : Bytes → Context → Context × Bool
  pub ssl_new : Context → Option Ssl
  pub bio_write : Bytes → Ssl → Ssl
  pub do_handshake : Ssl → Ssl × Bool × SslError
  pub ssl_write : Bytes → Ssl → Ssl × Bool
  pub ssl_read : ℕ → Ssl → Ssl × SslRead
  pub pending : Ssl → ℕ
  pub bio_read : ℕ → Ssl → Ssl × Bytes
  pub unread : Ssl → ℕ

pub record CryptoConfig : Type 0 where
  pub cert_pem_path : Bytes
  pub key_pem_path : Bytes
  pub cert_pem : Bytes
  pub key_pem : Bytes

-- The fields: `ctx_`, `ssl_` with the BIOs it owns, `established_`.
pub record OpenSslCryptoStrategy (Context Ssl : Type 0) : Type 0 where
  pub ctx : Option Context
  pub ssl : Option Ssl
  pub established : Bool

abbrev pub read_size : ℕ
read_size = 16384

abbrev pub output_size : ℕ
output_size = 4096

module _ {Context Ssl : Type 0} (lib : OpenSsl Context Ssl) where
  -- The loop of `read_bio_output`.
  unfoldable pub drain : ℕ → Bytes → Ssl → Ssl × Bytes
  drain zero output ssl = (ssl, output)
  drain (suc fuel) output ssl = elim (ltb 0 (lib.pending ssl)) [
    | true ↦
        let (after, bytes) = lib.bio_read (min (lib.pending ssl) output_size) ssl in
        drain fuel (output ++ bytes) after
    | false ↦ (ssl, output)
  ]

  unfoldable pub read_bio_output : Ssl → Ssl × Bytes
  unfolding drain
  read_bio_output ssl = drain (lib.pending ssl) [] ssl

  -- How the loop of `decrypt` ends at a failed read.
  abbrev pub read_end : SslError → Bytes → Result Bytes
  read_end SslError.want_read plaintext = ok plaintext
  read_end SslError.zero_return plaintext = ok plaintext
  read_end SslError.want_write plaintext = err AapErrc.decryption_failed
  read_end SslError.other_error plaintext = err AapErrc.decryption_failed

  -- The loop of `decrypt`, by the read that a round starts with.
  unfoldable pub read_all : ℕ → Bytes → Ssl × SslRead → Ssl × Result Bytes
  read_all fuel plaintext (ssl, SslRead.read_failed e) = (ssl, read_end e plaintext)
  read_all zero plaintext (ssl, SslRead.bytes_read bytes) = (ssl, ok (plaintext ++ bytes))
  read_all (suc fuel) plaintext (ssl, SslRead.bytes_read bytes) =
      read_all fuel (plaintext ++ bytes) (lib.ssl_read read_size ssl)

  abbrev pub feed_input : Option Bytes → Ssl → Ssl
  feed_input none ssl = ssl
  feed_input (some input) ssl = if is_empty input then ssl else lib.bio_write input ssl

  -- The branches behind `SSL_do_handshake`.
  abbrev pub handshake_result : Bool → SslError → Bytes → Result HandshakeResult
  handshake_result true e output = ok (record { output_bytes = output; complete = true })
  handshake_result false SslError.want_read output =
      ok (record { output_bytes = output; complete = false })
  handshake_result false SslError.want_write output =
      ok (record { output_bytes = output; complete = false })
  handshake_result false SslError.zero_return output = err AapErrc.ssl_handshake_failed
  handshake_result false SslError.other_error output = err AapErrc.ssl_handshake_failed

  -- An operation on `ssl_` when it is not null, and else the error.
  abbrev pub with_ssl :
      {A : Type 0}
      → OpenSslCryptoStrategy Context Ssl
      → AapErrc
      → (Ssl → Ssl × Result A)
      → OpenSslCryptoStrategy Context Ssl × Result A
  with_ssl s e f = elim s.ssl [
    | none ↦ (s, err e)
    | some ssl ↦ let (after, result) = f ssl in (record s { ssl = some after }, result)
  ]

  unfoldable pub init_ssl : OpenSslCryptoStrategy Context Ssl → OpenSslCryptoStrategy Context Ssl
  init_ssl s = elim s.ctx [
    | none ↦ record s { ssl = none }
    | some ctx ↦ elim (lib.ssl_new ctx) [
      | none ↦ record s { ssl = none }
      | some ssl ↦ record s { ssl = some ssl; established = false }
    ]
  ]

  unfoldable pub handshake_step :
      OpenSslCryptoStrategy Context Ssl
      → Option Bytes
      → OpenSslCryptoStrategy Context Ssl × Result HandshakeResult
  unfolding read_bio_output
  handshake_step s input = elim s.ssl [
    | none ↦ (s, err AapErrc.ssl_handshake_failed)
    | some ssl ↦
        let (shaken, finished, e) = lib.do_handshake (feed_input input ssl) in
        let (after, output) = read_bio_output shaken in
        (
          record s { ssl = some after; established = if finished then true else s.established },
          handshake_result finished e output,
        )
  ]

  -- `encrypt` behind its guard.
  abbrev pub seal : Bytes → Ssl → Ssl × Result Bytes
  seal plaintext ssl =
      let (wrote, written) = lib.ssl_write plaintext ssl in
      let (after, ciphertext) = read_bio_output wrote in
      if written then (after, ok ciphertext) else (wrote, err AapErrc.internal_error)

  unfoldable pub encrypt :
      OpenSslCryptoStrategy Context Ssl → Bytes → OpenSslCryptoStrategy Context Ssl × Result Bytes
  unfolding read_bio_output
  encrypt s plaintext =
      if s.established
      then with_ssl s AapErrc.internal_error (seal plaintext)
      else (s, err AapErrc.internal_error)

  -- `decrypt` behind its guard.
  abbrev pub unseal : Bytes → Ssl → Ssl × Result Bytes
  unseal ciphertext ssl =
      let fed = lib.bio_write ciphertext ssl in
      read_all (lib.unread fed) [] (lib.ssl_read read_size fed)

  unfoldable pub decrypt :
      OpenSslCryptoStrategy Context Ssl → Bytes → OpenSslCryptoStrategy Context Ssl × Result Bytes
  unfolding read_all
  decrypt s ciphertext =
      if s.established
      then with_ssl s AapErrc.decryption_failed (unseal ciphertext)
      else (s, err AapErrc.decryption_failed)

  unfoldable pub reset : OpenSslCryptoStrategy Context Ssl → OpenSslCryptoStrategy Context Ssl
  unfolding init_ssl
  reset s = init_ssl (record s { ssl = none; established = false })

  -- The class as a crypto strategy.
  abbrev pub openssl_strategy : CryptoStrategy (OpenSslCryptoStrategy Context Ssl)
  openssl_strategy = record {
    handshake_step = handshake_step;
    encrypt = encrypt;
    decrypt = decrypt;
    is_established = λ s. s.established;
    reset = reset;
  }

  module _ (aap_certificate aap_private_key : Bytes) where
    -- A credential, by whether it is loaded from a file and the path or the text.
    abbrev pub resolve : Bytes → Bytes → Bytes → Bool × Bytes
    resolve pem pem_path built_in = (
      is_empty pem && not (is_empty pem_path),
      if not (is_empty pem) then pem else if not (is_empty pem_path) then pem_path else built_in,
    )

    abbrev pub load_key : CryptoConfig → Context → Context × Bool
    load_key config ctx =
        let (use_file_key, key) = resolve config.key_pem config.key_pem_path aap_private_key in
        if use_file_key then lib.use_private_key_file key ctx else lib.use_private_key key ctx

    abbrev pub load_credentials : CryptoConfig → Context → Context × Bool
    load_credentials config ctx =
        let (use_file_cert, cert) = resolve config.cert_pem config.cert_pem_path aap_certificate in
        let (certified, loaded) =
          if use_file_cert
          then lib.use_certificate_file cert ctx
          else lib.use_certificate cert ctx in
        if loaded then load_key config certified else (certified, false)

    -- The context, and whether it has all it needs; a context that lacks some is kept.
    unfoldable pub init_ssl_context : CryptoConfig → Option Context × Bool
    init_ssl_context config = elim lib.ctx_new [
      | none ↦ (none, false)
      | some ctx ↦
          let (loaded, fine) = load_credentials config (lib.restrict ctx) in (some loaded, fine)
    ]

    -- The constructor, which only logs that the context is not complete.
    unfoldable pub create : CryptoConfig → OpenSslCryptoStrategy Context Ssl
    unfolding init_ssl init_ssl_context
    create config =
        init_ssl (record { ctx = (init_ssl_context config).0; ssl = none; established = false })
