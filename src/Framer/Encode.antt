-- ===== src/Framer/Encode.antt =====
-- `Framer::encode` in core/src/session/Framer.cpp, one wire frame at a time.
use aa_v.Base.{
  ℕ, suc, ◌+◌, ◌*◌, ◌/◌, ◌%◌, ◌^◌, ◌≤◌, ◌<◌, ◌≡◌, refl, sym, ap, ap₂, ◌∙◌, Bool, true, false, not,
  ◌&&◌, some, [], ◌∷◌, ◌++◌, Bytes, length, take, drop-drop, All, drop, bit_and, bit_or, ◌==◌,
  if◌then◌else◌, length-append, take-length_append, drop-length_append, arith,
}
use aa_v.Base.Bits.{
  IsByte, low_byte, or_bytes, bit_and-first, bit_and-last, bit_and-encrypted, or_zero_frag,
  or_first_frag, or_last_frag, bit_and-frag_info,
}
use aa_v.Protocol.{frag_code, max_frame_payload_size}
use aa_v.Framer.{
  AapFragment, OutboundFrame, has_flag, extra_skip, payload_length, total_frame_size,
  parsed_fragment, try_parse_fragment, byte_at, whole_frame, fragment_frame, frag_info_at,
}
use aa_v.Framer.Parse.{try_parse_fragment_whole}

drop_past :
    (n m : ℕ) (bytes : Bytes) → n ≡ m → drop (4 + n) bytes ≡ drop (suc (suc (suc (suc m)))) bytes
drop_past n m bytes e =
    ap (λ k. drop k bytes) (let q : 4 + n ≡ suc (suc (suc (suc m))) = omega arith in q)

-- A frame on the wire with `total` between its header and its payload, followed by other bytes.
module _ (c f h l : ℕ) (total chunk more : Bytes) where
  frame_fragment : AapFragment
  frame_fragment = record {
    channel_id = c;
    is_first = has_flag f 0x01;
    is_last = has_flag f 0x02;
    encrypted = has_flag f 0x08;
    payload = chunk;
  }

  wire_bytes : Bytes
  wire_bytes = c ∷ f ∷ h ∷ l ∷ (total ++ (chunk ++ more))

  try_parse_fragment-wire :
      bit_or (h * 256) l ≡ length chunk
      → (if has_flag f 0x01 && not (has_flag f 0x02) then 4 else 0) ≡ length total
      → try_parse_fragment wire_bytes ≡ some (frame_fragment, more)
  unfolding frame_fragment wire_bytes
  try_parse_fragment-wire size extra =
      try_parse_fragment_whole wire_bytes (omega arith, fits)
      ∙ ap some (ap₂ (λ x y. (x, y)) fragment rest)
    where
      fits : total_frame_size wire_bytes ≤ length wire_bytes
      fits =
          omega (arith, extra, size, length-append total (chunk ++ more), length-append chunk more)

      body : drop (4 + extra_skip wire_bytes) wire_bytes ≡ chunk ++ more
      body =
          drop_past (extra_skip wire_bytes) (length total) wire_bytes extra
          ∙ drop-length_append total (chunk ++ more)

      fragment : parsed_fragment wire_bytes ≡ frame_fragment
      fragment =
          ap (λ p. record frame_fragment { payload = p })
            (ap₂ take size body ∙ take-length_append chunk more)

      rest : drop (total_frame_size wire_bytes) wire_bytes ≡ more
      rest =
          sym (drop-drop (payload_length wire_bytes) (4 + extra_skip wire_bytes) wire_bytes)
          ∙ ap₂ drop size body
          ∙ drop-length_append chunk more

-- A number below 2 ^ 16, cut into its two bytes and put together again.
pub two_bytes : (n : ℕ) → n < 65536 → bit_or (byte_at n 1 * 256) (byte_at n 0) ≡ n
two_bytes n h = omega (
  arith,
  low_byte (n / 256 ^ 1),
  low_byte (n / 256 ^ 0),
  or_bytes (byte_at n 1) (byte_at n 0) (omega (arith, low_byte (n / 256 ^ 0))),
)

-- The flags of a frame that is sent whole: both FragInfo bits are set.
pub record IsFrame (frame : OutboundFrame) : Type 0 where
  pub channel_byte : IsByte frame.channel_id
  pub flags_byte : IsByte frame.flags
  pub payload_bytes : All IsByte frame.payload
  pub unfragmented : bit_and frame.flags 0x03 ≡ 3

abbrev pub whole_fragment : OutboundFrame → AapFragment
whole_fragment frame = record {
  channel_id = frame.channel_id;
  is_first = true;
  is_last = true;
  encrypted = has_flag frame.flags 0x08;
  payload = frame.payload;
}

abbrev pub part_fragment : OutboundFrame → Bool → Bool → Bytes → AapFragment
part_fragment frame is_first is_last chunk = record {
  channel_id = frame.channel_id;
  is_first = is_first;
  is_last = is_last;
  encrypted = has_flag frame.flags 0x08;
  payload = chunk;
}

-- The bits that the receiver reads from the flags of a fragment.
HasBits : ℕ → Bool → Bool → Bool → Type 0
HasBits f is_first is_last encrypted =
    (has_flag f 0x01 ≡ is_first) × (has_flag f 0x02 ≡ is_last) × (has_flag f 0x08 ≡ encrypted)

whole_bits : (f : ℕ) → IsByte f → bit_and f 0x03 ≡ 3 → HasBits f true true (has_flag f 0x08)
unfolding HasBits
whole_bits f h e = (
  ground (arith, bit_and-first f h, bit_and-frag_info f h),
  ground (arith, bit_and-last f h, bit_and-frag_info f h),
  refl,
)

-- `g` is what `encode` writes from the flags `f`, with the FragInfo `k`.
part_bits :
    (f g k : ℕ)
    → IsByte f
    → k < 3
    → g ≡ f / 4 * 4 + k
    → HasBits g (k == 1) (k == 2) (has_flag f 0x08)
unfolding HasBits
part_bits f g k h hk e = (
  ground (arith, bit_and-first g (omega arith)),
  ground (arith, bit_and-last g (omega arith)),
  ground (arith, bit_and-encrypted g (omega arith), bit_and-encrypted f h),
)

part_frame_bits :
    (f : ℕ) (is_first is_last : Bool)
    → IsByte f
    → HasBits
        (bit_or (bit_and f 0xFC) (frag_code (frag_info_at is_first is_last)))
        is_first
        (not is_first && is_last)
        (has_flag f 0x08)
part_frame_bits f true is_last h = part_bits f _ 1 h (omega arith) (or_first_frag f h)
part_frame_bits f false true h = part_bits f _ 2 h (omega arith) (or_last_frag f h)
part_frame_bits f false false h = part_bits f _ 0 h (omega arith) (or_zero_frag f h ∙ omega arith)

-- What `try_parse_fragment` makes of one wire frame, given the bits of its flags.
parse_bits :
    (c f n : ℕ) (total chunk more : Bytes) (frame : OutboundFrame) (is_first is_last : Bool)
    → HasBits f is_first is_last (has_flag frame.flags 0x08)
    → n ≡ length chunk
    → n ≤ max_frame_payload_size
    → (if is_first && not is_last then 4 else 0) ≡ length total
    → c ≡ frame.channel_id
    → try_parse_fragment (c ∷ f ∷ byte_at n 1 ∷ byte_at n 0 ∷ (total ++ (chunk ++ more)))
      ≡ some (part_fragment frame is_first is_last chunk, more)
unfolding HasBits frame_fragment wire_bytes
parse_bits c f n total chunk more frame is_first is_last bits size small extra channel =
    try_parse_fragment-wire c f (byte_at n 1) (byte_at n 0) total chunk more
      (two_bytes n (omega arith) ∙ size) (rw (bits.0, bits.1) extra)
    ∙ rw (bits.0, bits.1, bits.2, channel)

pub parse-whole_frame :
    (frame : OutboundFrame) (more : Bytes)
    → IsFrame frame
    → length frame.payload ≤ max_frame_payload_size
    → try_parse_fragment (whole_frame frame ++ more) ≡ some (whole_fragment frame, more)
parse-whole_frame frame more v small =
    parse_bits frame.channel_id frame.flags (length frame.payload) [] frame.payload more frame true
      true (whole_bits frame.flags v.flags_byte v.unfragmented) refl small refl refl

pub parse-fragment_frame :
    (frame : OutboundFrame) (is_first is_last : Bool) (chunk more : Bytes)
    → IsByte frame.flags
    → length chunk ≤ max_frame_payload_size
    → try_parse_fragment
        (fragment_frame frame (frag_info_at is_first is_last) is_first chunk ++ more)
      ≡ some (part_fragment frame is_first (not is_first && is_last) chunk, more)
parse-fragment_frame frame true is_last chunk more h small =
    parse_bits frame.channel_id (bit_or (bit_and frame.flags 0xFC) 1) (length chunk)
      (byte_at total 3 ∷ byte_at total 2 ∷ byte_at total 1 ∷ byte_at total 0 ∷ []) chunk more frame
      true false (part_frame_bits frame.flags true is_last h) refl small refl refl
  where
    total : ℕ
    total = length frame.payload % 2 ^ 32
parse-fragment_frame frame false true chunk more h small =
    parse_bits frame.channel_id (bit_or (bit_and frame.flags 0xFC) 2) (length chunk) [] chunk more
      frame false true (part_frame_bits frame.flags false true h) refl small refl refl
parse-fragment_frame frame false false chunk more h small =
    parse_bits frame.channel_id (bit_or (bit_and frame.flags 0xFC) 0) (length chunk) [] chunk more
      frame false false (part_frame_bits frame.flags false false h) refl small refl refl
