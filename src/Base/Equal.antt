-- ===== src/Base/Equal.antt =====
-- Boolean equality of the values that messages carry.
use Prim.Native.Nat.{ℕ}
use mathlib.Core.Path.{◌≡◌, refl}
use mathlib.Core.Bool.{Bool, true, false, not, ◌&&◌}
use mathlib.Core.List.{List, [], ◌∷◌}
use native.Mathlib.Omega.{arith}
use aa_v.Base.Tests.{◌==◌, ==_refl}

abbrev pub same_bool : Bool → Bool → Bool
same_bool true b = b
same_bool false b = not b

abbrev pub same_bytes : List ℕ → List ℕ → Bool
same_bytes [] [] = true
same_bytes [] (b ∷ ys) = false
same_bytes (a ∷ xs) [] = false
same_bytes (a ∷ xs) (b ∷ ys) = (a == b) && same_bytes xs ys

pub same_bool_refl : (a : Bool) → same_bool a a ≡ true
same_bool_refl true = refl
same_bool_refl false = refl

pub same_bytes_refl : (bytes : List ℕ) → same_bytes bytes bytes ≡ true
same_bytes_refl [] = refl
same_bytes_refl (b ∷ bytes) = ground (arith, same_bytes_refl bytes, ==_refl b)

pub same_bool→≡ : (a b : Bool) → same_bool a b ≡ true → a ≡ b
same_bool→≡ true true e = refl
same_bool→≡ true false e = absurd (cc e)
same_bool→≡ false true e = absurd (cc e)
same_bool→≡ false false e = refl

pub same_bytes→≡ : (xs ys : List ℕ) → same_bytes xs ys ≡ true → xs ≡ ys
same_bytes→≡ [] [] e = refl
same_bytes→≡ [] (b ∷ ys) e = absurd (cc e)
same_bytes→≡ (a ∷ xs) [] e = absurd (cc e)
same_bytes→≡ (a ∷ xs) (b ∷ ys) e = ground (arith, e, same_bytes→≡ xs ys)
