-- ===== src/Base/Bits.antt =====
-- The bit operations of the wire format as arithmetic: masks on a byte by tables, and the
-- joining of a high and a low part by the digit recursion.
use Prim.Native.Nat.{
  ℕ, zero, suc, ◌+◌, ◌*◌, ◌/◌, ◌%◌, ◌≤◌, ◌<◌, max, min, bit_and, bit_or, digits, bit_and-bitwise,
  bit_or-bitwise,
}
use mathlib.Core.Path.{◌≡◌, refl}
use mathlib.Core.Bool.{Bool, true, ◌&&◌}
use native.Mathlib.Nat.{le_refl}
use native.Mathlib.Omega.{arith}
use aa_v.Base.Tests.{◌==◌, ==_iff}

abbrev pub IsByte : ℕ → Type 0
IsByte b = b < 256

-- Two functions that agree on a table of the first `count` numbers.
pub same_table : (ℕ → ℕ) → (ℕ → ℕ) → ℕ → Bool
same_table f g zero = true
same_table f g (suc count) = same_table f g count && (f count == g count)

module _ (f g : ℕ → ℕ) where
  pub eq_below : (count : ℕ) → same_table f g count ≡ true → (i : ℕ) → i < count → f i ≡ g i
  unfolding same_table
  eq_below zero e i h = absurd (omega arith)
  eq_below (suc count) e i h = grind (arith, eq_below count, ==_iff (f count) (g count))

pub bit_and-first : (f : ℕ) → IsByte f → bit_and f 0x01 ≡ f % 2
unfolding same_table
bit_and-first = eq_below _ _ 256 refl

pub bit_and-last : (f : ℕ) → IsByte f → bit_and f 0x02 ≡ f / 2 % 2 * 2
unfolding same_table
bit_and-last = eq_below _ _ 256 refl

pub bit_and-encrypted : (f : ℕ) → IsByte f → bit_and f 0x08 ≡ f / 8 % 2 * 8
unfolding same_table
bit_and-encrypted = eq_below _ _ 256 refl

pub or_zero_frag : (f : ℕ) → IsByte f → bit_or (bit_and f 0xFC) 0 ≡ f / 4 * 4
unfolding same_table
or_zero_frag = eq_below _ _ 256 refl

pub or_first_frag : (f : ℕ) → IsByte f → bit_or (bit_and f 0xFC) 1 ≡ f / 4 * 4 + 1
unfolding same_table
or_first_frag = eq_below _ _ 256 refl

pub or_last_frag : (f : ℕ) → IsByte f → bit_or (bit_and f 0xFC) 2 ≡ f / 4 * 4 + 2
unfolding same_table
or_last_frag = eq_below _ _ 256 refl

-- The digit recursion does not depend on spare fuel.
module _ (alone : ℕ → ℕ) (join : ℕ → ℕ → ℕ) where
  spare_fuel : (m k x y : ℕ) → x ≤ m → x ≤ k → digits alone join m x y ≡ digits alone join k x y
  spare_fuel zero zero x y hm hk = refl
  spare_fuel (suc m) zero zero y hm hk = refl
  spare_fuel zero (suc k) zero y hm hk = refl
  spare_fuel (suc m) (suc k) zero y hm hk = refl
  spare_fuel zero k (suc x) y hm hk = absurd (omega arith)
  spare_fuel (suc m) zero (suc x) y hm hk = absurd (omega arith)
  spare_fuel (suc m) (suc k) (suc x) y hm hk =
      omega (arith, spare_fuel m k (suc x / 2) (y / 2) (omega arith) (omega arith))

and_lowest : (x y : ℕ) → bit_and x y ≡ bit_and (x / 2) (y / 2) * 2 + min (x % 2) (y % 2)
and_lowest zero y = omega (arith, bit_and-bitwise 0 y, bit_and-bitwise 0 (y / 2))
and_lowest (suc x) y = omega (
  arith,
  bit_and-bitwise (suc x) y,
  bit_and-bitwise (suc x / 2) (y / 2),
  spare_fuel (λ y. 0) min x (suc x / 2) (suc x / 2) (y / 2) (omega arith) (le_refl _),
)

or_lowest : (x y : ℕ) → bit_or x y ≡ bit_or (x / 2) (y / 2) * 2 + max (x % 2) (y % 2)
or_lowest zero y = omega (arith, bit_or-bitwise 0 y, bit_or-bitwise 0 (y / 2))
or_lowest (suc x) y = omega (
  arith,
  bit_or-bitwise (suc x) y,
  bit_or-bitwise (suc x / 2) (y / 2),
  spare_fuel (λ y. y) max x (suc x / 2) (suc x / 2) (y / 2) (omega arith) (le_refl _),
)

and_nothing : (k x : ℕ) → x ≤ k → bit_and x 0 ≡ 0
and_nothing k zero h = refl
and_nothing zero (suc x) h = absurd (omega arith)
and_nothing (suc k) (suc x) h =
    omega (arith, and_lowest (suc x) 0, and_nothing k (suc x / 2) (omega arith))

or_nothing : (k x : ℕ) → x ≤ k → bit_or x 0 ≡ x
or_nothing k zero h = refl
or_nothing zero (suc x) h = absurd (omega arith)
or_nothing (suc k) (suc x) h =
    omega (arith, or_lowest (suc x) 0, or_nothing k (suc x / 2) (omega arith))

-- `x & m` for a mask of ones, four bits at a time.
and_nibble : (x m : ℕ) → bit_and x (m * 16 + 15) ≡ bit_and (x / 16) m * 16 + x % 16
and_nibble x m = ground (
  arith,
  and_lowest x (m * 16 + 15),
  and_lowest (x / 2) (m * 8 + 7),
  and_lowest (x / 2 / 2) (m * 4 + 3),
  and_lowest (x / 2 / 2 / 2) (m * 2 + 1),
)

pub low_byte : (x : ℕ) → bit_and x 0xFF ≡ x % 256
low_byte x = omega (
  arith,
  and_nibble x 15,
  and_nibble (x / 16) 0,
  and_nothing (x / 16 / 16) (x / 16 / 16) (le_refl _),
)

-- `(x << 4) | r` by its low four bits.
or_nibble : (x r : ℕ) → bit_or (x * 16) r ≡ bit_or x (r / 16) * 16 + r % 16
or_nibble x r = ground (
  arith,
  or_lowest (x * 16) r,
  or_lowest (x * 8) (r / 2),
  or_lowest (x * 4) (r / 2 / 2),
  or_lowest (x * 2) (r / 2 / 2 / 2),
)

pub or_bytes : (hi lo : ℕ) → IsByte lo → bit_or (hi * 256) lo ≡ hi * 256 + lo
or_bytes hi lo h =
    ground (arith, or_nibble (hi * 16) lo, or_nibble hi (lo / 16), or_nothing hi hi (le_refl _))

pub bit_and-frag_info : (f : ℕ) → IsByte f → bit_and f 0x03 ≡ f % 4
unfolding same_table
bit_and-frag_info = eq_below _ _ 256 refl
