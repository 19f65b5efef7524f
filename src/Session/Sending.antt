-- ===== src/Session/Sending.antt =====
-- core/src/session/Session.cpp: a message that can be sealed is sent without a look at the services
-- and the state of the session.
use aa_v.Base.{
  ℕ, ◌≡◌, refl, sym, ap, ◌∙◌, true, false, List, [], ◌∷◌, ◌++◌, Bytes, length, leb, Bool-cases, inl,
  inr,
}
use aa_v.Base.Assoc.{Assoc}
use aa_v.Protocol.{compute_frame_flags}
use aa_v.Crypto.{CryptoStrategy, ok}
use aa_v.Framer.{encode}
use aa_v.Encoder
use aa_v.Encoder.{
  build_message_payload, enqueue_frames, outbound_frame, encrypt_and_queue_frame, queue_ciphertext,
  queue_encoded_frame,
}
use aa_v.Service.{IService}
use aa_v.Services.{Call}
use aa_v.Session.{
  Session, SessionState, Effect, max_write_queue_size, emit, do_write_next, enqueue_write,
}
use aa_v.Session.Handlers.{send_message}

-- In the states of the strategy that `Ready` holds in, every plaintext can be sealed.
pub record CanSeal {C : Type 0} (strategy : CryptoStrategy C) (Ready : C → Type 0) : Type 0 where
  pub seals :
      (c : C) (plaintext : Bytes)
      → Ready c
      → (d : C) × (ciphertext : Bytes) × (strategy.encrypt c plaintext ≡ (d, ok ciphertext))
        × Ready d

module _ {C V : Type 0} where
  -- A session with these services, this crypto strategy and this state.
  abbrev pub over : Assoc V → C → SessionState → Session C V → Session C V
  over m c st s = record s { services = m; crypto = c; state = st }

  do_write_next-over :
      (m : Assoc V) (c : C) (st : SessionState) (q : List Bytes) (s : Session C V)
      → do_write_next (over m c st (record s { write_queue = q }))
        ≡ over m c st (do_write_next (record s { write_queue = q }))
  unfolding do_write_next
  do_write_next-over m c st [] s = refl
  do_write_next-over m c st (front ∷ rest) s = refl

  enqueue-over :
      (m : Assoc V) (c : C) (st : SessionState) (wire : Bytes) (s : Session C V)
      → enqueue_write wire (over m c st s) ≡ over m c st (enqueue_write wire s)
  unfolding enqueue_write
  enqueue-over m c st wire s = elim (Bool-cases (leb max_write_queue_size (length s.write_queue))) [
    | inl full ↦ rw full refl
    | inr free ↦ rw free (elim (Bool-cases s.write_in_progress) [
      | inl on ↦ rw on refl
      | inr off ↦
          rw off
            (do_write_next-over m c st (s.write_queue ++ wire ∷ []) (emit (Effect.queued wire) s))
    ])
  ]

  pub frames-over :
      (m : Assoc V) (c : C) (st : SessionState) (wires : List Bytes) (s : Session C V)
      → enqueue_frames enqueue_write wires (over m c st s)
        ≡ over m c st (enqueue_frames enqueue_write wires s)
  frames-over m c st [] s = refl
  frames-over m c st (wire ∷ wires) s =
      ap (enqueue_frames enqueue_write wires) (enqueue-over m c st wire s)
      ∙ frames-over m c st wires (enqueue_write wire s)

  pub frames-crypto :
      (wires : List Bytes) (s : Session C V)
      → (enqueue_frames enqueue_write wires s).crypto ≡ s.crypto
  frames-crypto wires s =
      ap (λ (t : Session C V). t.crypto) (frames-over s.services s.crypto s.state wires s)

  -- From a session with this crypto strategy's state on, the services and the state do not matter.
  abbrev pub Blind : (C → Type 0) → (Session C V → Session C V) → Session C V → Type 0
  Blind Ready f s =
      ((m : Assoc V) (st : SessionState) → f (over m s.crypto st s) ≡ over m (f s).crypto st (f s))
      × Ready (f s).crypto

  frames-Blind :
      (Ready : C → Type 0) (wires : List Bytes) (c : C) (s : Session C V)
      → Ready c
      → let f = λ (t : Session C V). enqueue_frames enqueue_write wires (record t { crypto = c }) in
        Blind Ready f s
  frames-Blind Ready wires c s r = (
    λ m st.
        frames-over m c st wires (record s { crypto = c })
        ∙ ap (λ d. over m d st (enqueue_frames enqueue_write wires (record s { crypto = c })))
            (sym (frames-crypto wires (record s { crypto = c }))),
    rw (frames-crypto wires (record s { crypto = c })) r,
  )

module _ {C V : Type 0} (strategy : CryptoStrategy C) (service : IService V)
    (serialized_auth : Bytes) where
  -- What a service's calls do to its session.
  unfoldable pub deliver : List Call → Session C V → Session C V
  deliver [] s = s
  deliver (Call.sent id message_type payload ∷ calls) s =
      deliver calls (send_message strategy service serialized_auth id message_type payload s)
  deliver (Call.stop_requested ∷ calls) s = deliver calls (emit Effect.post_stop s)

module _ {C V : Type 0} (strategy : CryptoStrategy C) (service : IService V)
    (serialized_auth : Bytes) (Ready : C → Type 0) (sealing : CanSeal strategy Ready) where
  pub send-Blind :
      (id message_type : ℕ) (payload : Bytes) (s : Session C V)
      → Ready s.crypto
      → Blind Ready (send_message strategy service serialized_auth id message_type payload) s
  unfolding send_message Encoder.send_message encrypt_and_queue_frame queue_encoded_frame
  send-Blind id message_type payload s r = elim (Bool-cases (strategy.is_established s.crypto)) [
    | inl sealed ↦
        let full = build_message_payload message_type payload in
        let (d, ciphertext, e, after) = sealing.seals s.crypto full r in
        rw (sealed, e)
          (frames-Blind Ready
            (encode (outbound_frame id (compute_frame_flags id message_type true) ciphertext)) d s
            after)
    | inr plain ↦ rw plain (
        frames-Blind Ready
          (encode (
            outbound_frame id (compute_frame_flags id message_type false)
              (build_message_payload message_type payload)))
          s.crypto s r)
  ]

  pub deliver-Blind :
      (calls : List Call) (s : Session C V)
      → Ready s.crypto
      → Blind Ready (deliver strategy service serialized_auth calls) s
  unfolding deliver
  deliver-Blind [] s r = (λ m st. refl, r)
  deliver-Blind (Call.sent id message_type payload ∷ calls) s r =
      let (same, ready) = send-Blind id message_type payload s r in
      let sent = send_message strategy service serialized_auth id message_type payload s in
      let (after, still) = deliver-Blind calls sent ready in
      (λ m st. ap (deliver strategy service serialized_auth calls) (same m st) ∙ after m st, still)
  deliver-Blind (Call.stop_requested ∷ calls) s r = deliver-Blind calls (emit Effect.post_stop s) r
