-- ===== src/Platform/Decimal.antt =====
-- The numbers in a transport's descriptor: what `std::to_string` writes, `std::stoi` reads.
use native.Mathlib.Numerals.{unary_clauses}
use aa_v.Base.{
  ℕ, zero, suc, ◌+◌, ◌*◌, ◌/◌, ◌%◌, ◌^◌, ◌<◌, ◌≡◌, refl, ap, ◌∙◌, Bool, true, false, some, [], ◌∷◌,
  ◌++◌, Bytes, ltb, All, if_elim, ◌==◌, arith,
}
use aa_v.Platform.{
  ℤ, digits, to_string, is_space, is_digit, skip_space, scan, unsigned, in_int, checked, signed,
  stoi,
}

digit_lem : (n : ℕ) → is_digit (48 + n % 10) ≡ true
digit_lem n = ground arith

-- Digits in front of a text are written in front of it.
digits-append : (fuel n : ℕ) (xs ys : Bytes) → digits fuel n xs ++ ys ≡ digits fuel n (xs ++ ys)
unfolding digits
digits-append zero n xs ys = refl
digits-append (suc fuel) n xs ys =
    ground (arith, digits-append fuel (n / 10) ((48 + n % 10) ∷ xs) ys)

-- The digits are all that is written.
pub digits-All :
    (P : ℕ → Type 0) (fuel n : ℕ) (xs : Bytes)
    → ((m : ℕ) → P (48 + m % 10))
    → All P xs
    → All P (digits fuel n xs)
unfolding digits
digits-All P zero n xs d h = h
digits-All P (suc fuel) n xs d h =
    if_elim (All P) (n / 10 == 0) _ _ (λ e. (d n, h)) (λ e. digits-All P fuel (n / 10) _ d (d n, h))

scan-digit :
    (value n : ℕ) (text : Bytes)
    → scan value ((48 + n % 10) ∷ text) ≡ scan (value * 10 + n % 10) text
scan-digit value n text = rw (digit_lem n) (ap (λ v. scan v text) (omega arith))

div-lt : (n p : ℕ) → n < p * 10 → n / 10 < p
div-lt n p h = omega arith

-- The digits of a number are read as that number.
scan-digits :
    (fuel n : ℕ) (text : Bytes)
    → n < 10 ^ suc fuel
    → scan 0 (digits (suc fuel) n text) ≡ scan n text
unfolding digits
scan-digits zero n text h =
    if_elim (λ s. scan 0 s ≡ scan n text) (n / 10 == 0) _ _
      (λ e. scan-digit 0 n text ∙ ap (λ v. scan v text) (ground (arith, e, h)))
      (λ e. absurd (ground (arith, e, h)))
scan-digits (suc fuel) n text h =
    if_elim (λ s. scan 0 s ≡ scan n text) (n / 10 == 0) _ _
      (λ e. scan-digit 0 n text ∙ ap (λ v. scan v text) (ground (arith, e)))
      (λ e.
        scan-digits fuel (n / 10) ((48 + n % 10) ∷ text)
          (simp unary_clauses (div-lt n (10 ^ fuel * 10) (simp unary_clauses at h)))
        ∙ scan-digit (n / 10) n text
        ∙ ap (λ v. scan v text) (omega arith))

abbrev pub first_is_digit : Bytes → Bool
first_is_digit [] = false
first_is_digit (c ∷ text) = is_digit c

digits_first : (fuel n : ℕ) (text : Bytes) → first_is_digit (digits (suc fuel) n text) ≡ true
unfolding digits
digits_first zero n text =
    if_elim (λ s. first_is_digit s ≡ true) (n / 10 == 0) _ _ (λ e. digit_lem n) (λ e. digit_lem n)
digits_first (suc fuel) n text =
    if_elim (λ s. first_is_digit s ≡ true) (n / 10 == 0) _ _ (λ e. digit_lem n)
      (λ e. digits_first fuel (n / 10) ((48 + n % 10) ∷ text))

digit-others :
    (c : ℕ) → is_digit c ≡ true → ((c == 45) ≡ false) × ((c == 43) ≡ false) × (is_space c ≡ false)
digit-others c h = (ground (arith, h), ground (arith, h), ground (arith, h))

digit-signed :
    (text : Bytes)
    → first_is_digit text ≡ true
    → (signed text ≡ checked ℤ.pos (some (scan 0 text)))
      × (skip_space text ≡ text)
      × (unsigned text ≡ some (scan 0 text))
digit-signed [] h = absurd (cc h)
digit-signed (c ∷ text) h =
    let (minus, plus, space) = digit-others c h in
    (rw (minus, plus, h) refl, rw space refl, rw h refl)

scan-other : (n : ℕ) (rest : Bytes) → first_is_digit rest ≡ false → scan n rest ≡ n
scan-other n [] h = refl
scan-other n (c ∷ rest) h = rw h refl

int_lt : (n : ℕ) → ltb n (2 ^ 31) ≡ true → suc n < 10 ^ 10
int_lt n h = ground (arith, h)

-- An `int` that is written in front of a text without a first digit is read again.
pub stoi-to_string :
    (z : ℤ) (rest : Bytes)
    → in_int z ≡ true
    → first_is_digit rest ≡ false
    → stoi (to_string z ++ rest) ≡ some z
unfolding stoi to_string
stoi-to_string (ℤ.pos n) rest small other =
    let shape = digit-signed (digits 10 n rest) (digits_first 9 n rest) in
    rw
      (
        digits-append 10 n [] rest,
        shape.1,
        shape.0,
        scan-digits 9 n rest (omega (arith, int_lt n small)),
        scan-other n rest other,
        small,
      )
      refl
stoi-to_string (ℤ.negsuc n) rest small other =
    let shape = digit-signed (digits 10 (suc n) rest) (digits_first 9 (suc n) rest) in
    rw
      (
        digits-append 10 (suc n) [] rest,
        shape.2,
        scan-digits 9 (suc n) rest (int_lt n small),
        scan-other (suc n) rest other,
        small,
      )
      refl
