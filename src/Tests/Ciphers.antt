-- ===== src/Tests/Ciphers.antt =====
-- impl/common/crypto/OpenSslCryptoStrategy.cpp over a library with records of two
-- bytes.
use aa_v.Base.{ℕ, ◌≡◌, refl, true, false, none, some, List, [], ◌∷◌, ◌++◌, Bytes}
use aa_v.Framer.{AapMessage}
use aa_v.Assembler
use aa_v.Assembler.{Host}
use aa_v.Encoder.{send_message}
use aa_v.Encoder.Delivery.{Deciphers}
use aa_v.Tls.{
  SslError, OpenSslCryptoStrategy, CryptoConfig, decrypt, init_ssl_context, create,
  openssl_strategy,
}
use aa_v.Tls.Loops.{Reads, Outcome, decrypt-ends}
use aa_v.Tls.Delivery.{openssl_strategy-Deciphers}
use aa_v.Encoder.Conversation.{Sends}
use aa_v.Session
use aa_v.Session.{Session, SessionState, default_config, enqueue_write, session_host}
use aa_v.Crypto.{Result}
use aa_v.Tests.Sessions.{counter}
use aa_v.Tests.Pairs.{Object, lib, lib-IsTls}
use aa_v.Base.Assoc.{Assoc}
use aa_v.Tls.Credentials.{Source, prepared, init_ssl_context-preferred}
use aa_v.Tls.Lifetime.{Operation, IsSound, perform_all, perform_all-established}

abbrev object : Object
object = record { received = []; handed = []; outbox = [] }

abbrev strategy : OpenSslCryptoStrategy ℕ Object
strategy = record { ctx = some 3; ssl = some object; established = true }

-- A record that checks and one that does not.
decrypt-ends_example :
    (bytes : Bytes) × (after : Object) × (e : SslError) × (result : Result Bytes) × Reads lib
      (lib.bio_write (5 ∷ 5 ∷ 6 ∷ 7 ∷ []) object)
      bytes
      after
      e
    × Outcome e bytes result
    × (decrypt lib strategy (5 ∷ 5 ∷ 6 ∷ 7 ∷ []) ≡ (record strategy { ssl = some after }, result))
decrypt-ends_example =
    decrypt-ends lib lib-IsTls.consumes strategy object (5 ∷ 5 ∷ 6 ∷ 7 ∷ []) refl refl

openssl_strategy-Deciphers_example :
    Deciphers (openssl_strategy lib) strategy (5 ∷ 5 ∷ 6 ∷ 6 ∷ []) (5 ∷ 6 ∷ [])
unfolding lib-IsTls
openssl_strategy-Deciphers_example =
    openssl_strategy-Deciphers lib lib-IsTls strategy object (5 ∷ 5 ∷ 6 ∷ 6 ∷ []) (5 ∷ 6 ∷ []) refl
      refl refl (refl, (refl, tt)) refl

abbrev config : CryptoConfig
config = record { cert_pem_path = 1 ∷ []; key_pem_path = []; cert_pem = 2 ∷ []; key_pem = [] }

init_ssl_context-preferred_example :
    init_ssl_context lib (8 ∷ []) (9 ∷ []) config
    ≡ prepared lib
        (8 ∷ [])
        (9 ∷ [])
        (Source.in_memory (2 ∷ []))
        (Source.in_memory (9 ∷ []))
        (some 0)
init_ssl_context-preferred_example = init_ssl_context-preferred lib (8 ∷ []) (9 ∷ []) config

-- A handshake that completes, a packet, a reset.
abbrev calls : List Operation
calls = Operation.shake none ∷ Operation.sealing (5 ∷ []) ∷ Operation.restart ∷ []

perform_all-established_example :
    let (t, done) = perform_all lib calls (create lib (8 ∷ []) (9 ∷ []) config, false) in
    IsSound lib t × (t.established ≡ done)
perform_all-established_example = perform_all-established lib (8 ∷ []) (9 ∷ []) config calls

-- One end of a connection.
record Peer : Type 0 where
  crypto : OpenSslCryptoStrategy ℕ Object
  wires : List Bytes
  inbox : List AapMessage

abbrev host : Host Peer (OpenSslCryptoStrategy ℕ Object)
host = record {
  crypto = λ s. s.crypto;
  set_crypto = λ c s. record s { crypto = c };
  on_error = λ e s. s;
}

abbrev receive : AapMessage → Peer → Peer
receive message s = record s { inbox = s.inbox ++ message ∷ [] }

abbrev peer : Peer
peer = record { crypto = strategy; wires = []; inbox = [] }

abbrev ping : AapMessage
ping = record { channel_id = 0; message_type = 11; payload = 7 ∷ [] }

abbrev pong : AapMessage
pong = record { channel_id = 3; message_type = 32768; payload = 8 ∷ 9 ∷ [] }

-- Two messages in reads that end inside the first header and inside a record.
abbrev reads : List Bytes
reads =
    (0 ∷ 11 ∷ [])
    ∷ (0 ∷ 6 ∷ 0 ∷ 0 ∷ 11 ∷ 11 ∷ 7 ∷ 7 ∷ 3 ∷ 11 ∷ 0 ∷ 8 ∷ 128 ∷ [])
    ∷ (128 ∷ 0 ∷ 0 ∷ 8 ∷ 8 ∷ 9 ∷ 9 ∷ [])
    ∷ []

abbrev sender : Session (OpenSslCryptoStrategy ℕ Object) ℕ
sender = record (Session.create (default_config 1) strategy true) { state = SessionState.running }

abbrev after :
    AapMessage
    → Session (OpenSslCryptoStrategy ℕ Object) ℕ
    → Session (OpenSslCryptoStrategy ℕ Object) ℕ
after message =
    send_message (openssl_strategy lib) (session_host counter) enqueue_write message.channel_id
      message.message_type message.payload
