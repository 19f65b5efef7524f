-- ===== src/Framer/Keeps.antt =====
-- Induction over a call of `feed` in core/src/session/Framer.cpp.
use aa_v.Base.{ℕ, zero, suc, Option-cases, inl, inr, some, [], ◌∷◌, Bytes}
use aa_v.Framer.{AapFragment, Framer, try_parse_fragment, parse_loop, feed}

-- A predicate that the handler keeps on every fragment is kept by the parsing loop.
module _ {ℓ κ} {S : Type ℓ} (P : S → Type κ) (h : AapFragment → S → S)
    (keep : (part : AapFragment) (s : S) → P s → P (h part s)) where
  parse_loop-keeps : (n : ℕ) (buf : Bytes) (s : S) → P s → P (parse_loop n h buf s).1
  unfolding parse_loop
  parse_loop-keeps zero buf s p = p
  parse_loop-keeps (suc n) buf s p = elim (Option-cases (try_parse_fragment buf)) [
    | inl e ↦ rw (e, parse_loop) p
    | inr ((part, rest), e) ↦
        rw (e, parse_loop) (parse_loop-keeps n rest (h part s) (keep part s p))
  ]

  pub feed-keeps : (fr : Framer) (bytes : Bytes) (s : S) → P s → P (feed fr bytes (some h) s).1
  unfolding feed
  feed-keeps fr [] s p = p
  feed-keeps fr (b ∷ bytes) s p = parse_loop-keeps _ _ s p
