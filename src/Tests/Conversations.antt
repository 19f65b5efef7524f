-- ===== src/Tests/Conversations.antt =====
-- Messages of a session of core/src/session/Session.cpp, with the pass-through strategy of
-- tests/core/mock/MockCrypto.hpp, at the assembler of the other end.
use aa_v.Base.{◌≡◌, refl, Bool, ℕ, true, List, [], ◌∷◌, Bytes, arith}
use aa_v.Base.Assoc.{Assoc}
use aa_v.Protocol.{compute_frame_flags}
use aa_v.Framer.{encode}
use aa_v.Assembler
use aa_v.Assembler.Reads.{between, feed_reads}
use aa_v.Encoder.{send_message}
use aa_v.Encoder.Conversation.{Sends, HandedOver, Sends-arrive}
use aa_v.Session
use aa_v.Session.{Session, SessionState, default_config, do_write_next, enqueue_write, session_host}
use aa_v.Session.Sends.{session-IsWriteQueue}
use aa_v.Tests.Delivery.{
  End, host, host-HasField, note, sealed_end, small, small-IsMessage, mock_crypto, Tied,
  mock-IsTunnel,
}
use aa_v.Tests.Sessions.{counter}

abbrev sender : Session Bool ℕ
sender = record (Session.create (default_config 1) true true) { state = SessionState.running }

abbrev after : Session Bool ℕ → Session Bool ℕ
after =
    send_message mock_crypto (session_host counter) enqueue_write small.channel_id
      small.message_type small.payload

-- The first message's write completes before the second is sent.
abbrev written : Session Bool ℕ
written = do_write_next (record (after sender) { write_queue = [] })

-- Two messages in reads that end inside a header and inside a payload.
abbrev reads : List Bytes
reads = (3 ∷ 11 ∷ 0 ∷ []) ∷ (4 ∷ 1 ∷ 2 ∷ 8 ∷ 9 ∷ 3 ∷ 11 ∷ 0 ∷ 4 ∷ 1 ∷ []) ∷ (2 ∷ 8 ∷ 9 ∷ []) ∷ []

Sends-arrive_example :
    (payloads : Assoc Bytes) × (w : End) × (feed_reads mock_crypto host note reads Assembler.init
        sealed_end
      ≡ (between payloads, w))
    × HandedOver host note (small ∷ small ∷ []) sealed_end w
unfolding session-IsWriteQueue send_message encode compute_frame_flags enqueue_write do_write_next
Sends-arrive_example =
    Sends-arrive mock_crypto (session_host counter) enqueue_write (session-IsWriteQueue counter)
      mock_crypto host host-HasField note Tied mock-IsTunnel (λ message c t tied. tied)
      (small ∷ small ∷ []) reads sender (after written) sealed_end
      (Sends.sends small (ground arith)
        (Sends.steps written refl refl (Sends.sends small (ground arith) Sends.no_more)))
      (small-IsMessage, (small-IsMessage, tt)) (refl, refl) refl
