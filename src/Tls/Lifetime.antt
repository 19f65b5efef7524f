-- ===== src/Tls/Lifetime.antt =====
-- A strategy of impl/common/crypto/OpenSslCryptoStrategy.cpp from its construction on.
use aa_v.Base.{
  ◌≡◌, refl, Bool, true, false, Option, none, List, [], ◌∷◌, Bytes, arith, if◌then◌else◌,
}
use aa_v.Crypto.{HandshakeResult, Result, ok, err}
use aa_v.Tls.{
  OpenSsl, CryptoConfig, OpenSslCryptoStrategy, init_ssl, init_ssl_context, handshake_step, encrypt,
  decrypt, reset, create,
}

-- The calls of a strategy.
pub data Operation : Type 0 where
  shake : Option Bytes → Operation
  sealing unsealing : Bytes → Operation
  restart : Operation

-- Whether the handshake is complete, from what the calls answered: a completed handshake step makes
-- it so, a reset ends it, and an answer of another kind changes nothing.
abbrev pub completes : Result HandshakeResult → Bool → Bool
completes (ok result) before = if result.complete then true else before
completes (err e) before = before

module _ {Context Ssl : Type 0} (lib : OpenSsl Context Ssl) where
  abbrev pub perform :
      Operation → OpenSslCryptoStrategy Context Ssl → OpenSslCryptoStrategy Context Ssl
  perform (Operation.shake input) s = (handshake_step lib s input).0
  perform (Operation.sealing plaintext) s = (encrypt lib s plaintext).0
  perform (Operation.unsealing ciphertext) s = (decrypt lib s ciphertext).0
  perform Operation.restart s = reset lib s

  abbrev pub completed : Operation → OpenSslCryptoStrategy Context Ssl → Bool → Bool
  completed (Operation.shake input) s before = completes (handshake_step lib s input).1 before
  completed (Operation.sealing plaintext) s before = before
  completed (Operation.unsealing ciphertext) s before = before
  completed Operation.restart s before = false

  -- After some calls: the strategy, and whether their answers told of a complete handshake.
  abbrev pub perform_all :
      List Operation
      → OpenSslCryptoStrategy Context Ssl × Bool
      → OpenSslCryptoStrategy Context Ssl × Bool
  perform_all [] (s, complete) = (s, complete)
  perform_all (o ∷ os) (s, complete) = perform_all os (perform o s, completed o s complete)

  -- Without an object no connection is established.
  unfoldable pub IsSound : OpenSslCryptoStrategy Context Ssl → Type 0
  IsSound s = s.ssl ≡ none → s.established ≡ false

  perform-IsSound :
      (o : Operation) (s : OpenSslCryptoStrategy Context Ssl) (complete : Bool)
      → IsSound s
      → s.established ≡ complete
      → IsSound (perform o s) × ((perform o s).established ≡ completed o s complete)
  unfolding IsSound handshake_step encrypt decrypt reset init_ssl
  perform-IsSound (Operation.shake input) s complete h e = ground (arith, h, e)
  perform-IsSound (Operation.sealing bytes) s complete h e = ground (arith, h, e)
  perform-IsSound (Operation.unsealing bytes) s complete h e = ground (arith, h, e)
  perform-IsSound Operation.restart s complete h e = ground (arith, h, e)

  init_ssl-IsSound :
      (s : OpenSslCryptoStrategy Context Ssl)
      → s.established ≡ false
      → IsSound (init_ssl lib s) × ((init_ssl lib s).established ≡ false)
  unfolding IsSound init_ssl
  init_ssl-IsSound s e = ground (arith, e)

  perform_all-IsSound :
      (os : List Operation) (s : OpenSslCryptoStrategy Context Ssl) (complete : Bool)
      → IsSound s
      → s.established ≡ complete
      → let (t, done) = perform_all os (s, complete) in IsSound t × (t.established ≡ done)
  perform_all-IsSound [] s complete h e = (h, e)
  perform_all-IsSound (o ∷ os) s complete h e =
      let (sound, same) = perform-IsSound o s complete h e in
      perform_all-IsSound os (perform o s) (completed o s complete) sound same

  -- Whatever OpenSSL does and whatever calls a constructed strategy gets, it says that it is
  -- established exactly when, by what its calls answered, a handshake step has reported completion
  -- since the construction or the last reset. Encryption, decryption and failing steps change
  -- nothing about it. A strategy without an object, as after a failed construction, is never
  -- established.
  pub perform_all-established :
      (certificate private_key : Bytes) (config : CryptoConfig) (os : List Operation)
      → let (t, done) = perform_all os (create lib certificate private_key config, false) in
        IsSound t × (t.established ≡ done)
  unfolding create
  perform_all-established certificate private_key config os =
      let (sound, e) =
        init_ssl-IsSound
          (record {
            ctx = (init_ssl_context lib certificate private_key config).0;
            ssl = none;
            established = false;
          })
          refl in
      perform_all-IsSound os (create lib certificate private_key config) false sound e
