-- ===== src/Tests/Delivery.antt =====
-- core/src/session/OutboundMessageEncoder.cpp and core/src/session/InboundMessageAssembler.cpp with
-- the pass-through strategy of tests/core/mock/MockCrypto.hpp.
use aa_v.Base.{
  ◌≡◌, refl, ap, ◌∙◌, Bool, true, false, some, List, [], ◌∷◌, ◌++◌, Bytes, concat, append-nil,
  append_assoc, arith, replicate, All-replicate,
}
use aa_v.Base.Bits.{IsByte}
use aa_v.Crypto.{CryptoStrategy, ok}
use aa_v.Framer.{AapFragment, AapMessage}
use aa_v.Framer.RoundTrip.{deliver}
use aa_v.Base.Assoc.{find, insert}
use aa_v.Assembler
use aa_v.Assembler.{Host, on_fragment, append_fragment_payload, extract_complete_message}
use aa_v.Assembler.Messages.{HasField, deliver-open}
use aa_v.Encoder.{enqueue_frames, send_message}
use aa_v.Encoder.Delivery.{IsMessage, Deciphers, decrypt_all}
use aa_v.Encoder.EndToEnd.{delivered, feed-send_message_plain}
use aa_v.Encoder.Conversation.{IsTunnel}

abbrev pub mock_crypto : CryptoStrategy Bool
mock_crypto = record {
  handshake_step = λ c input. (true, ok (record { output_bytes = []; complete = true }));
  encrypt = λ c plaintext. (c, ok plaintext);
  decrypt = λ c ciphertext. (c, ok ciphertext);
  is_established = λ c. c;
  reset = λ c. false;
}

decrypt_all-mock :
    (ps : List Bytes) (c : Bool) (plain : Bytes)
    → decrypt_all mock_crypto ps c plain ≡ some (c, plain ++ concat ps)
decrypt_all-mock [] c plain = rw append-nil
decrypt_all-mock (p ∷ ps) c plain =
    decrypt_all-mock ps c (plain ++ p) ∙ ap (λ b. some (c, b)) (append_assoc plain p (concat ps))

mock-Deciphers : (bytes : Bytes) → Deciphers mock_crypto true bytes bytes
mock-Deciphers bytes = record {
  final = true;
  pieces = λ ps e. decrypt_all-mock ps true [] ∙ ap (λ b. some (true, b)) e;
  established = refl;
  stays = λ d piece e. e;
}

ciphered :
    (d : Bool) (bytes : Bytes)
    → d ≡ true
    → (x : Deciphers mock_crypto d bytes bytes) × (x.final ≡ true)
unfolding mock-Deciphers
ciphered true bytes e = (mock-Deciphers bytes, refl)
ciphered false bytes e = absurd (cc e)

-- One end of a connection.
pub record End : Type 0 where
  crypto : Bool
  wires : List Bytes
  inbox : List AapMessage

abbrev pub host : Host End Bool
host = record {
  crypto = λ s. s.crypto;
  set_crypto = λ c s. record s { crypto = c };
  on_error = λ e s. s;
}

pub host-HasField : HasField host
host-HasField = record { crypto-set = λ c s. refl; set-set = λ c d s. refl; set-crypto = λ s. refl }

abbrev write : Bytes → End → End
write wire s = record s { wires = s.wires ++ wire ∷ [] }

abbrev pub note : AapMessage → End → End
note message s = record s { inbox = s.inbox ++ message ∷ [] }

abbrev plain_end : End
plain_end = record { crypto = false; wires = []; inbox = [] }

abbrev pub sealed_end : End
sealed_end = record { crypto = true; wires = []; inbox = [] }

-- 40000 bytes go in three fragments.
abbrev message : AapMessage
message = record { channel_id = 1; message_type = 32769; payload = replicate 40000 5 }

message-IsMessage : IsMessage message
message-IsMessage = record {
  channel_byte = omega arith;
  type_word = omega arith;
  payload_bytes = All-replicate IsByte 40000 5 (omega arith);
}

feed-send_message_plain_example :
    (wires : List Bytes) × (send_message mock_crypto host write 1 32769 message.payload plain_end
      ≡ enqueue_frames write wires plain_end)
    × (Assembler.feed mock_crypto host Assembler.init (concat wires) (some note) plain_end
        ≡ delivered note message plain_end)
feed-send_message_plain_example =
    feed-send_message_plain mock_crypto host write mock_crypto host host-HasField note message
      plain_end plain_end message-IsMessage refl

abbrev pub Tied : Bool → Bool → Type 0
Tied c d = (c ≡ true) × (d ≡ true)

pub mock-IsTunnel : IsTunnel mock_crypto mock_crypto Tied
unfolding mock-Deciphers
mock-IsTunnel = record {
  established = λ c d t. t.0;
  carries = λ c d plaintext t bytes h.
      let (x, same) = ciphered d plaintext t.1 in (c, plaintext, refl, bytes, x, (t.0, same));
}

abbrev pub small : AapMessage
small = record { channel_id = 3; message_type = 258; payload = 8 ∷ 9 ∷ [] }

pub small-IsMessage : IsMessage small
small-IsMessage = record {
  channel_byte = omega arith;
  type_word = omega arith;
  payload_bytes = (omega arith, (omega arith, tt));
}

abbrev piece : Bool → Bool → Bytes → AapFragment
piece is_first is_last bytes = record {
  channel_id = 1;
  is_first = is_first;
  is_last = is_last;
  encrypted = true;
  payload = bytes;
}

-- Message 258 in two fragments, on a channel whose buffer holds the rest of another.
deliver-open_example :
    deliver
      (on_fragment mock_crypto host note)
      (piece true false (1 ∷ 2 ∷ 3 ∷ []) ∷ piece false true (4 ∷ []) ∷ [])
      (((1, 9 ∷ []) ∷ []), sealed_end)
    ≡ (
      ((1, []) ∷ []),
      record sealed_end {
        inbox = record { channel_id = 1; message_type = 258; payload = 3 ∷ 4 ∷ [] } ∷ [];
      },
    )
unfolding on_fragment append_fragment_payload extract_complete_message insert find
deliver-open_example =
    deliver-open mock_crypto host host-HasField note
      (record { channel_id = 1; flags = 11; payload = 1 ∷ 2 ∷ 3 ∷ 4 ∷ [] }) true
      (piece true false (1 ∷ 2 ∷ 3 ∷ []) ∷ piece false true (4 ∷ []) ∷ []) ((1, 9 ∷ []) ∷ [])
      sealed_end ((refl, refl, refl, refl, omega arith), (refl, refl, refl, refl, omega arith)) refl
