-- ===== src/Crypto.antt =====
-- core/include/aauto/crypto/ICryptoStrategy.hpp: the port behind which TLS stands. An operation
-- changes the strategy's own state `C` and calls its handler once, with a result or an error code.
use aa_v.Base.{Bool, Bytes, Option}
use aa_v.Protocol.{AapErrc}

pub data Result {ℓ} (A : Type ℓ) : Type ℓ where
  ok : A → Result A
  err : AapErrc → Result A

pub record HandshakeResult : Type 0 where
  pub output_bytes : Bytes
  pub complete : Bool

pub record CryptoStrategy (C : Type 0) : Type 0 where
  -- `none` is the null input of the first step.
  pub handshake_step : C → Option Bytes → C × Result HandshakeResult
  pub encrypt : C → Bytes → C × Result Bytes
  pub decrypt : C → Bytes → C × Result Bytes
  pub is_established : C → Bool
  pub reset : C → C
