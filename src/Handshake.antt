-- ===== src/Handshake.antt =====
-- core/include/aauto/session/HandshakeCoordinator.hpp and
-- core/src/session/HandshakeCoordinator.cpp: the version check and the TLS handshake steps.
pub mod Keeps
use aa_v.Base.{
  ℕ, ◌*◌, Bool, true, false, not, ◌&&◌, Option, none, some, [], ◌∷◌, Bytes, length, get_or, leb,
  ◌==◌, bit_or, if◌then◌else◌,
}
use aa_v.Protocol.{AapErrc, ControlMessageType, control_code}
use aa_v.Crypto.{CryptoStrategy, HandshakeResult, Result, ok, err}
use aa_v.Assembler.{Host}

-- The status word of a VERSION_RESPONSE, of which only `status != 0` is asked: the `int16_t` is 0
-- exactly where these sixteen bits are.
abbrev pub version_status : Bytes → ℕ
version_status payload = bit_or (get_or payload 4 0 * 256) (get_or payload 5 0)

abbrev pub is_empty : Bytes → Bool
is_empty [] = true
is_empty (b ∷ bytes) = false

module _ {S C : Type 0} (strategy : CryptoStrategy C) (host : Host S C)
    (send_control_message : ℕ → Bytes → S → S) (on_complete : S → S) where
  unfoldable pub handle_handshake_step_result : Result HandshakeResult → S → S
  handle_handshake_step_result (err e) s = host.on_error AapErrc.ssl_handshake_failed s
  handle_handshake_step_result (ok result) s =
      let sent =
        if not (is_empty result.output_bytes)
        then send_control_message (control_code ControlMessageType.encapsulated_ssl)
            result.output_bytes s
        else s in
      if result.complete then on_complete sent else sent

  -- `handshake_step` with its handler; `none` is the null input.
  unfoldable pub handshake_step : Option Bytes → S → S
  unfolding handle_handshake_step_result
  handshake_step input s =
      let (c, result) = strategy.handshake_step (host.crypto s) input in
      handle_handshake_step_result result (host.set_crypto c s)

  unfoldable pub begin_ssl_handshake : S → S
  unfolding handshake_step
  begin_ssl_handshake = handshake_step none

  unfoldable pub on_ssl_data_received : Bytes → S → S
  unfolding handshake_step
  on_ssl_data_received bytes = handshake_step (some bytes)

  -- A response shorter than six bytes passes.
  unfoldable pub on_version_response : Bytes → S → S
  unfolding begin_ssl_handshake
  on_version_response payload s =
      if leb 6 (length payload) && not (version_status payload == 0)
      then host.on_error AapErrc.version_mismatch s
      else begin_ssl_handshake s
