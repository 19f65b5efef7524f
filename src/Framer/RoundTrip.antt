-- ===== src/Framer/RoundTrip.antt =====
-- `Framer::encode` against `Framer::feed` in core/src/session/Framer.cpp.
use aa_v.Base.{
  ℕ, zero, suc, ◌+◌, ◌-◌, ◌≤◌, ◌<◌, ◌≡◌, refl, ap, ◌∙◌, inl, inr, ◌⊎◌, Bool, true, false, not, ◌&&◌,
  some, List, [], ◌∷◌, ◌++◌, Bytes, length, drop, concat, map, leb, ltb, ◌==◌, if◌then◌else◌,
  length-append, length-take, take-append-drop, drop-drop, drop-all, append-nil, append_assoc,
  Bool-cases, lt→ltb, le→ltb, leb→le, leb→lt, pos→ne_zero, arith,
}
use aa_v.Protocol.{max_frame_payload_size}
use aa_v.Framer.{
  AapFragment, OutboundFrame, init, has_flag, feed, whole_frame, chunk_size_at, chunk_at, wire_at,
  encode_loop, encode, try_parse_fragment, parse_loop,
}
use aa_v.Framer.Parse.{parse_all, parse_all-step}
use aa_v.Framer.Stream.{feed-parse_all, buffered, init-IsDrained}
use aa_v.Framer.Encode.{
  IsFrame, whole_fragment, part_fragment, parse-whole_frame, parse-fragment_frame,
}

-- The fragments that a receiver is meant to see of a frame, from an offset of its payload on.
part_at : OutboundFrame → ℕ → AapFragment
part_at frame offset =
    part_fragment frame (offset == 0)
      (not (offset == 0) && leb (length frame.payload) (offset + chunk_size_at frame offset))
      (chunk_at frame offset)

fragments_from : ℕ → OutboundFrame → ℕ → List AapFragment
fragments_from zero frame offset = []
fragments_from (suc rounds) frame offset =
    let more = fragments_from rounds frame (offset + chunk_size_at frame offset) in
    if ltb offset (length frame.payload) then part_at frame offset ∷ more else []

pub fragments : OutboundFrame → List AapFragment
unfolding fragments_from
fragments frame =
    if leb (length frame.payload) max_frame_payload_size
    then whole_fragment frame ∷ []
    else fragments_from (length frame.payload) frame 0

-- A message in fragments: the first one and only that is marked first, the last one and only that
-- is marked last, and each has the frame's channel and encryption flag and at most 16 KiB of
-- payload.
abbrev pub IsPart : OutboundFrame → Bool → Bool → AapFragment → Type 0
IsPart frame is_first is_last part =
    (part.channel_id ≡ frame.channel_id)
    × (part.encrypted ≡ has_flag frame.flags 0x08)
    × (part.is_first ≡ is_first)
    × (part.is_last ≡ is_last)
    × (length part.payload ≤ max_frame_payload_size)

abbrev pub AreParts : OutboundFrame → Bool → List AapFragment → Type 0
AreParts frame is_first [] = ⊥
AreParts frame is_first (part ∷ []) = IsPart frame is_first true part
AreParts frame is_first (part ∷ next ∷ parts) =
    IsPart frame is_first false part × AreParts frame false (next ∷ parts)

abbrev pub payloads : List AapFragment → Bytes
payloads parts = concat (map (λ (part : AapFragment). part.payload) parts)

-- The handler called on each fragment in turn.
abbrev pub deliver {ℓ} : {S : Type ℓ} → (AapFragment → S → S) → List AapFragment → S → S
deliver on_fragment [] s = s
deliver on_fragment (part ∷ parts) s = deliver on_fragment parts (on_fragment part s)

module _ {ℓ} {S : Type ℓ} (on_fragment : AapFragment → S → S) (frame : OutboundFrame)
    (v : IsFrame frame) where
  parse_one :
      (wire more : Bytes) (part : AapFragment) (s : S)
      → try_parse_fragment (wire ++ more) ≡ some (part, more)
      → 4 ≤ length wire
      → parse_all on_fragment (wire ++ more) s ≡ parse_all on_fragment more (on_fragment part s)
  parse_one wire more part s e h =
      parse_all-step on_fragment (wire ++ more) s e (omega (arith, length-append wire more))

  chunk-le : (offset : ℕ) → length (chunk_at frame offset) ≤ max_frame_payload_size
  chunk-le offset =
      omega (arith, length-take (chunk_size_at frame offset) (drop offset frame.payload))

  parse-wire_at :
      (offset : ℕ) (more : Bytes)
      → try_parse_fragment (wire_at frame offset ++ more) ≡ some (part_at frame offset, more)
  unfolding wire_at part_at
  parse-wire_at offset more =
      parse-fragment_frame frame (offset == 0)
        (leb (length frame.payload) (offset + chunk_size_at frame offset)) (chunk_at frame offset)
        more v.flags_byte (chunk-le offset)

  wire_at-header : (offset : ℕ) → 4 ≤ length (wire_at frame offset)
  unfolding wire_at
  wire_at-header offset = omega arith

  parse_all-encode_loop :
      (n offset : ℕ) (more : Bytes) (s : S)
      → parse_all on_fragment (concat (encode_loop n frame offset) ++ more) s
        ≡ parse_all on_fragment more (deliver on_fragment (fragments_from n frame offset) s)
  unfolding encode_loop fragments_from
  parse_all-encode_loop zero offset more s = refl
  parse_all-encode_loop (suc n) offset more s =
      elim (Bool-cases (ltb offset (length frame.payload))) [
        | inr done ↦ rw done
        | inl on ↦
            let next = offset + chunk_size_at frame offset in
            let rest = concat (encode_loop n frame next) in
            rw on (
              ap (λ b. parse_all on_fragment b s) (append_assoc (wire_at frame offset) rest more)
              ∙ parse_one (wire_at frame offset) (rest ++ more) (part_at frame offset) s
                  (parse-wire_at offset (rest ++ more)) (wire_at-header offset)
              ∙ parse_all-encode_loop n next more (on_fragment (part_at frame offset) s))
      ]

  -- The wire bytes of a frame, then any others: the receiver handles the fragments of the frame in
  -- order, and goes on with the others.
  pub parse_all-encode :
      (more : Bytes) (s : S)
      → parse_all on_fragment (concat (encode frame) ++ more) s
        ≡ parse_all on_fragment more (deliver on_fragment (fragments frame) s)
  unfolding encode fragments
  parse_all-encode more s = elim (Bool-cases (leb (length frame.payload) max_frame_payload_size)) [
    | inr large ↦ rw large (parse_all-encode_loop (length frame.payload) 0 more s)
    | inl small ↦
        rw (small, append-nil)
          (parse_one (whole_frame frame) more (whole_fragment frame) s
            (parse-whole_frame frame more v (leb→le _ _ small)) (omega arith))
  ]

module _ (frame : OutboundFrame) where
  part_at-IsPart :
      (offset : ℕ) (is_last : Bool)
      → (not (offset == 0) && leb (length frame.payload) (offset + chunk_size_at frame offset))
        ≡ is_last
      → IsPart frame (offset == 0) is_last (part_at frame offset)
  unfolding part_at
  part_at-IsPart offset is_last e = (
    refl,
    refl,
    refl,
    e,
    omega (arith, length-take (chunk_size_at frame offset) (drop offset frame.payload)),
  )

  payload-part_at : (offset : ℕ) → (part_at frame offset).payload ≡ chunk_at frame offset
  unfolding part_at
  payload-part_at offset = refl

  fragments_from-step :
      (n offset : ℕ)
      → offset < length frame.payload
      → fragments_from (suc n) frame offset
        ≡ part_at frame offset ∷ fragments_from n frame (offset + chunk_size_at frame offset)
  unfolding fragments_from
  fragments_from-step n offset h = rw (lt→ltb _ _ h)

  fragments_from-end :
      (n offset : ℕ) → length frame.payload ≤ offset → fragments_from n frame offset ≡ []
  unfolding fragments_from
  fragments_from-end zero offset h = refl
  fragments_from-end (suc n) offset h = rw (le→ltb _ _ h)

  AreParts-cons :
      (is_first : Bool) (part : AapFragment) (parts : List AapFragment)
      → IsPart frame is_first false part
      → AreParts frame false parts
      → AreParts frame is_first (part ∷ parts)
  AreParts-cons is_first part [] p ps = absurd ps
  AreParts-cons is_first part (next ∷ parts) p ps = (p, ps)

  chunk-append-drop :
      (offset : ℕ)
      → chunk_at frame offset ++ drop (offset + chunk_size_at frame offset) frame.payload
        ≡ drop offset frame.payload
  chunk-append-drop offset =
      rw (← drop-drop (chunk_size_at frame offset) offset frame.payload)
        (take-append-drop (chunk_size_at frame offset) (drop offset frame.payload))

  -- A round that ends the payload, and one that does not.
  fragments_from-AreParts :
      (n offset : ℕ)
      → length frame.payload - offset ≤ n
      → offset < length frame.payload
      → (max_frame_payload_size < length frame.payload) ⊎ (0 < offset)
      → AreParts frame (offset == 0) (fragments_from n frame offset)
        × (payloads (fragments_from n frame offset) ≡ drop offset frame.payload)
  fragments_from-AreParts zero offset hn lt far = absurd (omega arith)
  fragments_from-AreParts (suc n) offset hn lt far =
      rw (fragments_from-step n offset lt)
        (elim (Bool-cases (leb (length frame.payload) (offset + chunk_size_at frame offset))) [
          | inl last ↦
              let over : length frame.payload ≤ offset + chunk_size_at frame offset =
                leb→le _ _ last in
              rw (fragments_from-end n _ over) (
                part_at-IsPart offset true (ground arith),
                rw (payload-part_at offset, ← drop-all _ frame.payload over)
                    (chunk-append-drop offset),
              )
          | inr more ↦
              let next = offset + chunk_size_at frame offset in
              let left : next < length frame.payload = leb→lt _ _ more in
              let (parts, joined) =
                fragments_from-AreParts n next (omega arith) left (inr (omega arith)) in
              (
                AreParts-cons (offset == 0) (part_at frame offset) (fragments_from n frame next)
                    (part_at-IsPart offset false (ground arith))
                    (rw (pos→ne_zero next (omega arith)) at parts),
                rw (payload-part_at offset, joined) (chunk-append-drop offset),
              )
        ])

-- Every frame, however large, is cut into at most 16 KiB pieces that are marked first and last as a
-- message needs, and whose payloads in order are the payload of the frame.
fragments_lem :
    (frame : OutboundFrame)
    → AreParts frame true (fragments frame) × (payloads (fragments frame) ≡ frame.payload)
unfolding fragments
fragments_lem frame = elim (Bool-cases (leb (length frame.payload) max_frame_payload_size)) [
  | inl small ↦ rw small ((refl, refl, refl, refl, leb→le _ _ small), append-nil frame.payload)
  | inr large ↦ rw large (
      fragments_from-AreParts frame (length frame.payload) 0 (omega arith)
        (omega (arith, leb→lt _ _ large)) (inl (leb→lt _ _ large)))
]

-- `feed` undoes `encode` on a frame of bytes whose flags mark a whole message: an empty framer that
-- is fed the wire bytes of the frame hands over fragments with the frame's channel and encryption
-- flag, of at most 16 KiB each, the first one and no other marked first and the last one and no
-- other marked last, whose payloads make up the payload of the frame; and no byte is left in its
-- buffer.
pub feed-encode {ℓ} :
    {S : Type ℓ} (on_fragment : AapFragment → S → S) (frame : OutboundFrame) (s : S)
    → IsFrame frame
    → (parts : List AapFragment) × (feed init (concat (encode frame)) (some on_fragment) s
        ≡ (init, deliver on_fragment parts s))
      × AreParts frame true parts
      × (payloads parts ≡ frame.payload)
unfolding try_parse_fragment parse_loop
feed-encode on_fragment frame s v = (
  fragments frame,
  feed-parse_all on_fragment init (concat (encode frame)) s init-IsDrained.no_frame
      ∙ ap (buffered on_fragment) all,
  (fragments_lem frame).0,
  (fragments_lem frame).1,
)
  where
    all :
        parse_all on_fragment (concat (encode frame)) s
        ≡ ([], deliver on_fragment (fragments frame) s)
    all = rw append-nil at (parse_all-encode on_fragment frame v [] s)
