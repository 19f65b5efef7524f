-- ===== src/Services/News.antt =====
-- What a log shows of messages that repeat: core/src/service/MediaPlaybackService.cpp and
-- core/src/service/PhoneStatusService.cpp write a line when a message differs from the one before.
use aa_v.Base.{
  ◌≡◌, refl, Bool, true, false, not, Option, none, some, List, [], ◌∷◌, ◌++◌, append-nil,
  append_assoc, arith, if◌then◌else◌,
}

abbrev pub to_list {ℓ} : {A : Type ℓ} → Option A → List A
to_list none = []
to_list (some a) = a ∷ []

abbrev pub collect {ℓ κ} : {A : Type ℓ} {B : Type κ} → (A → Option B) → List A → List B
collect f [] = []
collect f (a ∷ rest) = to_list (f a) ++ collect f rest

-- The later of what came before and what comes now.
abbrev pub last_of {ℓ} : {A : Type ℓ} → Option A → Option A → Option A
last_of previous none = previous
last_of previous (some a) = some a

-- `same` tells the messages between which the log sees no difference.
module _ {A : Type 0} (same : A → A → Bool) where
  abbrev pub is_news : Option A → A → Bool
  is_news none a = true
  is_news (some previous) a = not (same a previous)

  -- The messages that are not like the one before; `previous` came before the first.
  abbrev pub news : Option A → List A → List A
  news previous [] = []
  news previous (a ∷ rest) =
      if is_news previous a then a ∷ news (some a) rest else news (some a) rest

  pub news-append :
      (previous parsed : Option A) (rest : List A)
      → news previous (to_list parsed) ++ news (last_of previous parsed) rest
        ≡ news previous (to_list parsed ++ rest)
  news-append previous none rest = refl
  news-append previous (some a) rest = ground arith

-- One answer and the rest, when a callback hears of them.
pub heard :
    {A : Type 0} (b : Bool) (before x y : List A)
    → (before ++ (if b then x else [])) ++ (if b then y else [])
      ≡ before ++ (if b then x ++ y else [])
heard true before x y = append_assoc before x y
heard false before x y = append-nil (before ++ [])
