-- ===== src/Base/Assoc.antt =====
-- `std::map` with an integer key: entries in the order of their keys, as an iteration meets them.
use aa_v.Base.Tests.{ltb, ◌==◌, ==_refl, if◌then◌else◌}
use Prim.Native.Nat.{ℕ, ◌<◌}
use mathlib.Core.Path.{◌≡◌, refl}
use mathlib.Core.Option.{Option, none, some}
use mathlib.Core.List.{List, [], ◌∷◌}
use native.Mathlib.Omega.{arith}

abbrev pub Assoc {ℓ} : Type ℓ → Type ℓ
Assoc V = List (ℕ × V)

module _ {ℓ} {V : Type ℓ} where
  unfoldable pub find : ℕ → Assoc V → Option V
  find k [] = none
  find k ((j, v) ∷ m) = if j == k then some v else find k m

  -- `m[k] = v`
  unfoldable pub insert : ℕ → V → Assoc V → Assoc V
  insert k v [] = (k, v) ∷ []
  insert k v ((j, w) ∷ m) =
      if j == k then (k, v) ∷ m else if ltb k j then (k, v) ∷ (j, w) ∷ m else (j, w) ∷ insert k v m

  -- `m.erase(k)`
  unfoldable pub erase : ℕ → Assoc V → Assoc V
  erase k [] = []
  erase k ((j, w) ∷ m) = if j == k then erase k m else (j, w) ∷ erase k m

  pub find-insert :
      (k j : ℕ) (v : V) (m : Assoc V)
      → find j (insert k v m) ≡ (if k == j then some v else find j m)
  unfolding find insert
  find-insert k j v [] = refl
  find-insert k j v ((i, w) ∷ m) = ground (arith, find-insert k j v m)

  pub find-insert_self : (k : ℕ) (v : V) (m : Assoc V) → find k (insert k v m) ≡ some v
  find-insert_self k v m = simp (find-insert, ==_refl)

  pub find-erase :
      (k j : ℕ) (m : Assoc V) → find j (erase k m) ≡ (if k == j then none else find j m)
  unfolding find erase
  find-erase k j [] = ground arith
  find-erase k j ((i, w) ∷ m) = ground (arith, find-erase k j m)

  pub insert-insert : (k : ℕ) (v w : V) (m : Assoc V) → insert k v (insert k w m) ≡ insert k v m
  unfolding insert
  insert-insert k v w [] = simp ==_refl
  insert-insert k v w ((i, x) ∷ m) = ground (arith, insert-insert k v w m)

-- The keys rise along the entries.
module _ {ℓ} {V : Type ℓ} where
  abbrev pub Above : ℕ → Assoc V → Type 0
  Above k [] = Unit
  Above k ((j, v) ∷ m) = (k < j) × Above j m

  abbrev pub IsSorted : Assoc V → Type 0
  IsSorted [] = Unit
  IsSorted ((j, v) ∷ m) = Above j m

  insert-Above : (b k : ℕ) (v : V) (m : Assoc V) → b < k → Above b m → Above b (insert k v m)
  unfolding insert
  insert-Above b k v [] h a = (h, tt)
  insert-Above b k v ((j, w) ∷ m) h (hj, a) = ground (arith, insert-Above j k v m)

  pub insert-IsSorted : (k : ℕ) (v : V) (m : Assoc V) → IsSorted m → IsSorted (insert k v m)
  unfolding insert
  insert-IsSorted k v [] a = tt
  insert-IsSorted k v ((j, w) ∷ m) a = ground (arith, insert-Above j k v m)
