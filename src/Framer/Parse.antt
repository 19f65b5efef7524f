-- ===== src/Framer/Parse.antt =====
-- `try_parse_fragment` and its loop in core/src/session/Framer.cpp on a growing buffer.
use aa_v.Base.{
  ℕ, zero, suc, ◌+◌, ◌≤◌, ◌<◌, ◌≡◌, refl, sym, ap, ap₂, ◌∙◌, ◌⊎◌, inl, inr, none, some, ◌++◌, Bytes,
  length, get_or, drop, ltb, arith, length-append, length-drop, take-append, drop-append,
  get_or-append, Bool-cases, le→ltb, ltb→le,
}
use aa_v.Protocol.{frame_header_size}
use aa_v.Framer.{
  AapFragment, payload_length, extra_skip, total_frame_size, parsed_fragment, try_parse_fragment,
  parse_loop,
}

-- The buffer holds a whole frame.
abbrev pub HasFrame : Bytes → Type 0
HasFrame buf = (frame_header_size ≤ length buf) × (total_frame_size buf ≤ length buf)

pub try_parse_fragment_whole :
    (buf : Bytes)
    → HasFrame buf
    → try_parse_fragment buf ≡ some (parsed_fragment buf, drop (total_frame_size buf) buf)
unfolding try_parse_fragment
try_parse_fragment_whole buf (h, k) = rw (le→ltb _ _ h, le→ltb _ _ k)

pub try_parse_fragment_cases : (buf : Bytes) → (try_parse_fragment buf ≡ none) ⊎ HasFrame buf
unfolding try_parse_fragment
try_parse_fragment_cases buf = elim (Bool-cases (ltb (length buf) frame_header_size)) [
  | inl short ↦ inl (rw short)
  | inr long ↦ elim (Bool-cases (ltb (length buf) (total_frame_size buf))) [
    | inl cut ↦ inl (rw (long, cut))
    | inr full ↦ inr (ltb→le _ _ long, ltb→le _ _ full)
  ]
]

header-append :
    (buf more : Bytes) (i : ℕ)
    → frame_header_size ≤ length buf
    → i < 4
    → get_or (buf ++ more) i 0 ≡ get_or buf i 0
header-append buf more i h k = get_or-append buf more i 0 (omega arith)

module _ (buf more : Bytes) (h : frame_header_size ≤ length buf) where
  payload_length-append : payload_length (buf ++ more) ≡ payload_length buf
  payload_length-append =
      rw (header-append buf more 2 h (omega arith), header-append buf more 3 h (omega arith))

  extra_skip-append : extra_skip (buf ++ more) ≡ extra_skip buf
  extra_skip-append = rw (header-append buf more 1 h (omega arith))

  total-append : total_frame_size (buf ++ more) ≡ total_frame_size buf
  total-append = rw (extra_skip-append, payload_length-append)

HasFrame-append : (buf more : Bytes) → HasFrame buf → HasFrame (buf ++ more)
HasFrame-append buf more (h, k) = (
  rw (length-append buf more) (omega arith),
  rw (total-append buf more h, length-append buf more) (omega arith),
)

-- A frame that is parsed from a buffer is parsed from every longer one, and the rest is longer.
pub try_parse_fragment-append :
    (buf more : Bytes)
    → HasFrame buf
    → try_parse_fragment (buf ++ more)
      ≡ some (parsed_fragment buf, drop (total_frame_size buf) buf ++ more)
try_parse_fragment-append buf more f =
    try_parse_fragment_whole (buf ++ more) (HasFrame-append buf more f)
    ∙ ap some (ap₂ (λ x y. (x, y)) fragment rest)
  where
    skip : frame_header_size + extra_skip (buf ++ more) ≡ frame_header_size + extra_skip buf
    skip = rw (extra_skip-append buf more f.0)

    body :
        drop (frame_header_size + extra_skip buf) (buf ++ more)
        ≡ drop (frame_header_size + extra_skip buf) buf ++ more
    body = drop-append _ buf more (omega (arith, f.1))

    fits : payload_length buf ≤ length (drop (frame_header_size + extra_skip buf) buf)
    fits = omega (arith, f.1, length-drop (frame_header_size + extra_skip buf) buf)

    fragment : parsed_fragment (buf ++ more) ≡ parsed_fragment buf
    fragment = rw (header-append buf more 0 f.0 (omega arith)) (
        rw (header-append buf more 1 f.0 (omega arith)) (
          rw (payload_length-append buf more f.0, body)
            (rw (
              take-append (payload_length buf) (drop (frame_header_size + extra_skip buf) buf) more
                fits))))

    rest :
        drop (total_frame_size (buf ++ more)) (buf ++ more)
        ≡ drop (total_frame_size buf) buf ++ more
    rest = rw (total-append buf more f.0) (drop-append _ buf more f.1)

rest_shorter : (buf : Bytes) → HasFrame buf → length (drop (total_frame_size buf) buf) < length buf
rest_shorter buf (h, k) = omega (arith, h, k, length-drop (total_frame_size buf) buf)

module _ {ℓ} {S : Type ℓ} (on_fragment : AapFragment → S → S) where
  parse_loop-stop :
      (n : ℕ) (buf : Bytes) (s : S)
      → try_parse_fragment buf ≡ none
      → parse_loop n on_fragment buf s ≡ (buf, s)
  unfolding parse_loop
  parse_loop-stop zero buf s e = refl
  parse_loop-stop (suc n) buf s e = rw (e, parse_loop)

  parse_loop-step :
      (n : ℕ) (buf : Bytes) (s : S) {frag : AapFragment} {rest : Bytes}
      → try_parse_fragment buf ≡ some (frag, rest)
      → parse_loop (suc n) on_fragment buf s ≡ parse_loop n on_fragment rest (on_fragment frag s)
  unfolding parse_loop
  parse_loop-step n buf s e = rw (e, parse_loop)

  -- Spare rounds change nothing.
  parse_loop_rounds :
      (n m : ℕ) (buf : Bytes) (s : S)
      → length buf ≤ n
      → length buf ≤ m
      → parse_loop n on_fragment buf s ≡ parse_loop m on_fragment buf s
  parse_loop_rounds zero m buf s hn hm = elim (try_parse_fragment_cases buf) [
    | inl e ↦ parse_loop-stop zero buf s e ∙ sym (parse_loop-stop m buf s e)
    | inr f ↦ absurd (omega (arith, f.0))
  ]
  parse_loop_rounds (suc n) zero buf s hn hm = elim (try_parse_fragment_cases buf) [
    | inl e ↦ parse_loop-stop (suc n) buf s e ∙ sym (parse_loop-stop zero buf s e)
    | inr f ↦ absurd (omega (arith, f.0))
  ]
  parse_loop_rounds (suc n) (suc m) buf s hn hm = elim (try_parse_fragment_cases buf) [
    | inl e ↦ parse_loop-stop (suc n) buf s e ∙ sym (parse_loop-stop (suc m) buf s e)
    | inr f ↦
        parse_loop-step n buf s (try_parse_fragment_whole buf f)
        ∙ parse_loop_rounds n m (drop (total_frame_size buf) buf)
            (on_fragment (parsed_fragment buf) s) (omega (arith, rest_shorter buf f))
            (omega (arith, rest_shorter buf f))
        ∙ sym (parse_loop-step m buf s (try_parse_fragment_whole buf f))
  ]

  -- The loop run until no frame is left.
  abbrev pub parse_all : Bytes → S → Bytes × S
  parse_all buf s = parse_loop (length buf) on_fragment buf s

  pub parse_all-stop :
      (buf : Bytes) (s : S) → try_parse_fragment buf ≡ none → parse_all buf s ≡ (buf, s)
  parse_all-stop buf s e = parse_loop-stop (length buf) buf s e

  pub parse_all-step :
      (buf : Bytes) (s : S) {frag : AapFragment} {rest : Bytes}
      → try_parse_fragment buf ≡ some (frag, rest)
      → length rest < length buf
      → parse_all buf s ≡ parse_all rest (on_fragment frag s)
  parse_all-step buf s {frag} {rest} e h =
      parse_loop_rounds (length buf) (suc (length buf)) buf s (omega arith) (omega arith)
      ∙ parse_loop-step (length buf) buf s e
      ∙ parse_loop_rounds (length buf) (length rest) rest (on_fragment frag s) (omega arith)
          (omega arith)

  -- The loop ended by its test: what it leaves holds no whole frame.
  pub parse_loop-none :
      (n : ℕ) (buf : Bytes) (s : S)
      → length buf ≤ n
      → try_parse_fragment (parse_loop n on_fragment buf s).0 ≡ none
  parse_loop-none zero buf s h = elim (try_parse_fragment_cases buf) [
    | inl e ↦ rw (parse_loop-stop zero buf s e) e
    | inr f ↦ absurd (omega (arith, f.0))
  ]
  parse_loop-none (suc n) buf s h = elim (try_parse_fragment_cases buf) [
    | inl e ↦ rw (parse_loop-stop (suc n) buf s e) e
    | inr f ↦ rw (parse_loop-step n buf s (try_parse_fragment_whole buf f)) (
        parse_loop-none n (drop (total_frame_size buf) buf) (on_fragment (parsed_fragment buf) s)
          (omega (arith, rest_shorter buf f)))
  ]

  -- Bytes that come later are parsed after those at hand: the loop goes on from what it left.
  parse_loop-append :
      (n : ℕ) (buf more : Bytes) (s : S)
      → length buf ≤ n
      → let (rest, s') = parse_loop n on_fragment buf s in
        parse_all (buf ++ more) s ≡ parse_all (rest ++ more) s'
  parse_loop-append zero buf more s h = elim (try_parse_fragment_cases buf) [
    | inl e ↦ rw (parse_loop-stop zero buf s e)
    | inr f ↦ absurd (omega (arith, f.0))
  ]
  parse_loop-append (suc n) buf more s h = elim (try_parse_fragment_cases buf) [
    | inl e ↦ rw (parse_loop-stop (suc n) buf s e)
    | inr f ↦
        let rest = drop (total_frame_size buf) buf in
        rw (parse_loop-step n buf s (try_parse_fragment_whole buf f)) (
          parse_all-step (buf ++ more) s (try_parse_fragment-append buf more f)
            (omega (arith, rest_shorter buf f, length-append buf more, length-append rest more))
          ∙ parse_loop-append n rest more (on_fragment (parsed_fragment buf) s)
              (omega (arith, rest_shorter buf f)))
  ]

  pub parse_all-append :
      (buf more : Bytes) (s : S)
      → let (rest, s') = parse_all buf s in parse_all (buf ++ more) s ≡ parse_all (rest ++ more) s'
  parse_all-append buf more s = parse_loop-append (length buf) buf more s (omega arith)
