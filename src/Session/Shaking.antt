-- ===== src/Session/Shaking.antt =====
-- The TLS handshake as core/src/session/Session.cpp and core/src/session/HandshakeCoordinator.cpp
-- go through it.
use aa_v.Base.{ℕ, ◌≡◌, true, Bytes, if◌then◌else◌, ◌⊎◌}
use aa_v.Protocol.{AapErrc, ControlMessageType, control_code}
use aa_v.Crypto.{CryptoStrategy, Result, HandshakeResult, ok, err}
use aa_v.Framer.{AapMessage}
use aa_v.Handshake
use aa_v.Service.{IService}
use aa_v.Session.{Session, SessionState}
use aa_v.Encoder
use aa_v.Encoder.{build_message_payload, enqueue_frames}
use aa_v.Session.Loose.{Loose}
use aa_v.Session.Ends.{IsFailure}

module _ {C V : Type 0} (strategy : CryptoStrategy C) (service : IService V) (auth : Bytes) where
  abbrev pub ssl_message : ℕ → Bytes → AapMessage
  ssl_message channel_id payload = record {
    channel_id = channel_id;
    message_type = control_code ControlMessageType.encapsulated_ssl;
    payload = payload;
  }

  -- The strategy is established already, and cannot encrypt TLS bytes for the phone.
  abbrev pub IsUnsealed : C → Bytes → Type 0
  IsUnsealed c output =
      (strategy.is_established c ≡ true)
      × (d : C) × (e : AapErrc) × (strategy.encrypt c
            (build_message_payload (control_code ControlMessageType.encapsulated_ssl) output)
          ≡ (d, err e))

  -- A session that answers the phone stays in its state, or fails since it cannot encrypt.
  abbrev Answered : C → Bytes → SessionState → Session C V → Type 0
  Answered c output st t = (t.state ≡ st) ⊎ ((t.state ≡ SessionState.error) × IsUnsealed c output)

  -- What the strategy's answer to the phone's bytes makes of a session: an error fails it; the last
  -- step of the handshake makes it run; and any other step leaves it where it is, but for a reply
  -- that cannot be encrypted, which fails it.
  unfoldable pub IsSslStep : Session C V → C × Result HandshakeResult → Session C V → Type 0
  IsSslStep s (c, err e) t = IsFailure service s t
  IsSslStep s (c, ok r) t =
      if r.complete then t.state ≡ SessionState.running else Answered c r.output_bytes s.state t
