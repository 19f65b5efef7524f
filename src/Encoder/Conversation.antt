-- ===== src/Encoder/Conversation.antt =====
-- All that core/src/session/OutboundMessageEncoder.cpp of one end sends after the handshake, and
-- core/src/session/InboundMessageAssembler.cpp of the other end.
use aa_v.Base.{
  ℕ, ◌≤◌, ◌<◌, arith, ◌≡◌, refl, sym, ap, ◌∙◌, true, some, List, [], ◌∷◌, ◌++◌, Bytes, concat, All,
  append-nil, append_assoc, append-cancel,
}
use mathlib.Core.Logic.{◌≢◌}
use mathlib.Core.Path.{subst}
use aa_v.Base.Bits.{IsByte}
use aa_v.Base.Assoc.{Assoc, insert}
use aa_v.Crypto.{CryptoStrategy, ok}
use aa_v.Framer.{AapMessage}
use aa_v.Assembler
use aa_v.Assembler.{Host}
use aa_v.Assembler.Messages.{HasField}
use aa_v.Assembler.Reads.{between, feed-after, feed_reads, feed_reads-joined}
use aa_v.Encoder.{build_message_payload, enqueue_frames, send_message}
use aa_v.Encoder.Delivery.{IsMessage, Deciphers, build-bytes}
use aa_v.Encoder.EndToEnd.{arrived, send_and_receive}

-- What TLS promises of two connected ends: `Tied c d` says that the states belong together. Then
-- the sender encrypts any bytes, the receiver deciphers them however they are cut, and the states
-- belong together again.
pub record IsTunnel {C D : Type 0} (sender : CryptoStrategy C) (receiver : CryptoStrategy D)
    (Tied : C → D → Type 0) : Type 0 where
  pub established : (c : C) (d : D) → Tied c d → sender.is_established c ≡ true
  pub carries :
      (c : C) (d : D) (plaintext : Bytes)
      → Tied c d
      → All IsByte plaintext
      → plaintext ≢ []
      → (c' : C) × (ciphertext : Bytes) × (sender.encrypt c plaintext ≡ (c', ok ciphertext))
        × All IsByte ciphertext
        × (x : Deciphers receiver d ciphertext plaintext) × Tied c' x.final

-- The sender's write queue and the room in it. While there is room, a frame goes behind what the
-- queue has taken; without room it may be dropped. Enqueuing makes no room, and neither it nor the
-- strategy's state disturbs the other.
pub record IsWriteQueue {S C : Type 0} (from : Host S C) (enqueue_frame : Bytes → S → S)
    : Type 0 where
  pub queued : S → Bytes
  pub room : S → ℕ
  pub enqueue-queued :
      (wire : Bytes) (s : S) → 0 < room s → queued (enqueue_frame wire s) ≡ queued s ++ wire
  pub enqueue-room : (wire : Bytes) (s : S) → room (enqueue_frame wire s) ≤ room s
  pub enqueue-crypto : (wire : Bytes) (s : S) → from.crypto (enqueue_frame wire s) ≡ from.crypto s
  pub set-queued : (c : C) (s : S) → queued (from.set_crypto c s) ≡ queued s
  pub crypto-set : (c : C) (s : S) → from.crypto (from.set_crypto c s) ≡ c

module _ {S C : Type 0} (from : Host S C) (enqueue_frame : Bytes → S → S)
    (queue : IsWriteQueue from enqueue_frame) where
  enqueue_frames-room :
      (wires : List Bytes) (s : S)
      → queue.room (enqueue_frames enqueue_frame wires s) ≤ queue.room s
  enqueue_frames-room [] s = omega arith
  enqueue_frames-room (wire ∷ wires) s =
      omega (arith, enqueue_frames-room wires (enqueue_frame wire s), queue.enqueue-room wire s)

  enqueue_frames-queued :
      (wires : List Bytes) (s : S)
      → 0 < queue.room (enqueue_frames enqueue_frame wires s)
      → queue.queued (enqueue_frames enqueue_frame wires s) ≡ queue.queued s ++ concat wires
  enqueue_frames-queued [] s room = sym (append-nil (queue.queued s))
  enqueue_frames-queued (wire ∷ wires) s room =
      enqueue_frames-queued wires (enqueue_frame wire s) room
      ∙ ap (λ b. b ++ concat wires)
          (queue.enqueue-queued wire s (omega (arith, enqueue_frames-room (wire ∷ wires) s)))
      ∙ append_assoc (queue.queued s) wire (concat wires)

  enqueue_frames-crypto :
      (wires : List Bytes) (s : S)
      → from.crypto (enqueue_frames enqueue_frame wires s) ≡ from.crypto s
  enqueue_frames-crypto [] s = refl
  enqueue_frames-crypto (wire ∷ wires) s =
      enqueue_frames-crypto wires (enqueue_frame wire s) ∙ queue.enqueue-crypto wire s

-- `Sends messages s u`: the sender goes from `s` to `u` by sending the messages in their order,
-- each of which leaves room in the queue. Before, between and after them come other steps, a write
-- that completes for one, which neither enqueue anything nor change the strategy's state.
pub data Sends {S C : Type 0} (sender : CryptoStrategy C) (from : Host S C)
    (enqueue_frame : Bytes → S → S) (queue : IsWriteQueue from enqueue_frame)
    : List AapMessage → S → S → Type 0 where
  no_more : {s : S} → Sends sender from enqueue_frame queue [] s s
  sends :
      {messages : List AapMessage} {s u : S}
      → (message : AapMessage)
      → 0
        < queue.room (
            send_message sender from enqueue_frame message.channel_id message.message_type
              message.payload s)
      → Sends sender from enqueue_frame queue messages
          (send_message sender from enqueue_frame message.channel_id message.message_type
            message.payload s)
          u
      → Sends sender from enqueue_frame queue (message ∷ messages) s u
  steps :
      {messages : List AapMessage} {s u : S}
      → (t : S) → queue.queued t ≡ queue.queued s
      → from.crypto t ≡ from.crypto s
      → Sends sender from enqueue_frame queue messages t u
      → Sends sender from enqueue_frame queue messages s u

-- `HandedOver messages t u`: the handler is called once for each of the messages, in order, and
-- between the calls only the strategy's state changes.
pub data HandedOver {T D : Type 0} (to : Host T D) (on_message : AapMessage → T → T)
    : List AapMessage → T → T → Type 0 where
  none_left : {t : T} → HandedOver to on_message [] t t
  handed_over :
      {message : AapMessage} {messages : List AapMessage} {t u : T}
      → (d : D) → HandedOver to on_message messages (on_message message (to.set_crypto d t)) u
      → HandedOver to on_message (message ∷ messages) t u

module _ {S C T D : Type 0} (sender : CryptoStrategy C) (from : Host S C)
    (enqueue_frame : Bytes → S → S) (queue : IsWriteQueue from enqueue_frame)
    (receiver : CryptoStrategy D) (to : Host T D) (laws : HasField to)
    (on_message : AapMessage → T → T) (Tied : C → D → Type 0)
    (tunnel : IsTunnel sender receiver Tied)
    (undisturbed : (message : AapMessage) (c : C) (t : T)
      → Tied c (to.crypto t)
      → Tied c (to.crypto (on_message message t))) where
  abbrev sealed_payload : AapMessage → Bytes
  sealed_payload message = build_message_payload message.message_type message.payload

  abbrev after : AapMessage → S → S
  after message =
      send_message sender from enqueue_frame message.channel_id message.message_type message.payload

  -- One message, which leaves the ends tied.
  send-between :
      (message : AapMessage) (payloads : Assoc Bytes) (s : S) (t : T)
      → IsMessage message
      → Tied (from.crypto s) (to.crypto t)
      → 0 < queue.room (after message s)
      → (bytes : Bytes) × (d : D) × (queue.queued (after message s) ≡ queue.queued s ++ bytes)
        × (Assembler.feed receiver to (between payloads) bytes (some on_message) t
            ≡ arrived on_message message payloads (to.set_crypto d t))
        × Tied (from.crypto (after message s)) (to.crypto (on_message message (to.set_crypto d t)))
  unfolding build_message_payload
  send-between message payloads s t v tied room =
      let (c, ciphertext, encrypted, bytes, x, tied') =
        tunnel.carries (from.crypto s) (to.crypto t) (sealed_payload message) tied
          (build-bytes message v) (λ e. cc e) in
      let (wires, sent, fed) =
        send_and_receive sender from enqueue_frame receiver to laws on_message message payloads s t
          c ciphertext v (tunnel.established _ _ tied) encrypted bytes x in
      (
        concat wires,
        x.final,
        ap queue.queued sent
            ∙ enqueue_frames-queued from enqueue_frame queue wires (from.set_crypto c s)
                (subst (λ n. 0 < queue.room n) sent room)
            ∙ ap (λ b. b ++ concat wires) (queue.set-queued c s),
        fed,
        subst (λ c'. Tied c' (to.crypto (on_message message (to.set_crypto x.final t))))
            (sym (
              ap from.crypto sent
              ∙ enqueue_frames-crypto from enqueue_frame queue wires (from.set_crypto c s)
              ∙ queue.crypto-set c s))
            (undisturbed message c (to.set_crypto x.final t)
              (subst (Tied c) (sym (laws.crypto-set x.final t)) tied')),
      )

  Sends-between :
      (messages : List AapMessage) (payloads : Assoc Bytes) (s u : S) (t : T)
      → Sends sender from enqueue_frame queue messages s u
      → All IsMessage messages
      → Tied (from.crypto s) (to.crypto t)
      → (bytes : Bytes) × (payloads' : Assoc Bytes) × (w : T) × (queue.queued u
          ≡ queue.queued s ++ bytes)
        × (Assembler.feed receiver to (between payloads) bytes (some on_message) t
            ≡ (between payloads', w))
        × HandedOver to on_message messages t w
  unfolding Assembler.feed
  Sends-between messages payloads s u t Sends.no_more vs tied =
      ([], payloads, t, sym (append-nil (queue.queued s)), refl, HandedOver.none_left)
  Sends-between messages payloads s u t (Sends.steps r same still rest) vs tied =
      let (bytes, payloads', w, sent, fed, handed) =
        Sends-between messages payloads r u t rest vs
          (subst (λ c. Tied c (to.crypto t)) (sym still) tied) in
      (bytes, payloads', w, sent ∙ ap (λ b. b ++ bytes) same, fed, handed)
  Sends-between (_ ∷ messages) payloads s u t (Sends.sends message room rest) (v, vs) tied =
      let (first, d, sent, fed, tied') = send-between message payloads s t v tied room in
      let (bytes, payloads', w, sent', fed', handed) =
        Sends-between messages (insert message.channel_id [] payloads) (after message s) u
          (on_message message (to.set_crypto d t)) rest vs tied' in
      (
        first ++ bytes,
        payloads',
        w,
        sent' ∙ ap (λ b. b ++ bytes) sent ∙ append_assoc (queue.queued s) first bytes,
        feed-after receiver to on_message payloads (insert message.channel_id [] payloads) first
              bytes t _ fed
            ∙ fed',
        HandedOver.handed_over d handed,
      )

  -- After the handshake, messages of bytes with one-byte channels and two-byte types that one end
  -- sends one after another reach the other end in this order, each once, provided that each leaves
  -- room in the sender's write queue, which may drop a frame when it is full. Between them the
  -- sender may do what neither enqueues nor changes its strategy's state. The two strategies make a
  -- tunnel, whose states belong together at the start and which the receiver's handler does not
  -- disturb. The queue takes some bytes behind what it took before; a receiver with empty buffers
  -- that gets these bytes in any reads, which may end inside a frame or a TLS record, calls its
  -- message handler once for each of the messages, in the order sent, with its channel, type and
  -- payload, and has no bytes left in its receive buffer.
  pub Sends-arrive :
      (messages : List AapMessage) (reads : List Bytes) (s u : S) (t : T)
      → Sends sender from enqueue_frame queue messages s u
      → All IsMessage messages
      → Tied (from.crypto s) (to.crypto t)
      → queue.queued u ≡ queue.queued s ++ concat reads
      → (payloads : Assoc Bytes) × (w : T) × (feed_reads receiver to on_message reads Assembler.init
            t
          ≡ (between payloads, w))
        × HandedOver to on_message messages t w
  Sends-arrive messages reads s u t sent_all vs tied cut =
      let (bytes, payloads, w, sent, fed, handed) =
        Sends-between messages [] s u t sent_all vs tied in
      let same = append-cancel (queue.queued s) bytes (concat reads) (sym sent ∙ cut) in
      (
        payloads,
        w,
        feed_reads-joined receiver to on_message reads [] t
            ∙ ap (λ b. Assembler.feed receiver to (between []) b (some on_message) t) (sym same)
            ∙ fed,
        handed,
      )
