-- ===== src/Common/Sorting.antt =====
-- The order of a sorted list.
use mathlib.Core.Path.{◌≡◌}
use mathlib.Core.Bool.{Bool, true, false}
use mathlib.Core.List.{List, [], ◌∷◌, map}
use mathlib.Core.Logic.{inl, inr}
use grid_bot.Common.Tests.{Bool-cases}
use grid_bot.Common.Lists.{sort_by, insert_by, keep, All}

module _ {ℓ} {A : Type ℓ} where
  -- whether `R` holds of an item and the head of a list
  abbrev pub Leads {κ} : (A → A → Type κ) → A → List A → Type κ
  Leads R x [] = Unit
  Leads R x (y ∷ ys) = R x y

  -- `R` holds of every two neighbours
  abbrev pub IsChain {κ} : (A → A → Type κ) → List A → Type κ
  IsChain R [] = Unit
  IsChain R (x ∷ xs) = Leads R x xs × IsChain R xs

  module _ {κ} (R : A → A → Type κ) (before : A → A → Bool)
      (put : (x y : A) → before x y ≡ true → R x y)
      (keep_place : (x y : A) → before y x ≡ false → R x y) where
    Leads-insert_by :
        (z x : A) (ys : List A) → R z x → Leads R z ys → Leads R z (insert_by before x ys)
    Leads-insert_by z x [] r l = r
    Leads-insert_by z x (y ∷ ys) r l = elim (Bool-cases (before y x)) [
      | inl e ↦ rw e l
      | inr e ↦ rw e r
    ]

    IsChain-insert_by : (x : A) (ys : List A) → IsChain R ys → IsChain R (insert_by before x ys)
    IsChain-insert_by x [] c = (tt, tt)
    IsChain-insert_by x (y ∷ ys) (l, c) = elim (Bool-cases (before y x)) [
      | inl e ↦ rw e (Leads-insert_by y x ys (put y x e) l, IsChain-insert_by x ys c)
      | inr e ↦ rw e (keep_place x y e, (l, c))
    ]

    -- Sorting by `before` makes a chain of every relation that `before` decides.
    pub sort_by-IsChain : (xs : List A) → IsChain R (sort_by before xs)
    sort_by-IsChain [] = tt
    sort_by-IsChain (x ∷ xs) = IsChain-insert_by x (sort_by before xs) (sort_by-IsChain xs)

pub IsChain-map {ℓ ℓ' κ} :
    {A : Type ℓ} {B : Type ℓ'} (R : B → B → Type κ) (g : A → B) (xs : List A)
    → IsChain (λ x y. R (g x) (g y)) xs
    → IsChain R (map g xs)
IsChain-map R g [] c = tt
IsChain-map R g (x ∷ []) (l, c) = (tt, tt)
IsChain-map R g (x ∷ y ∷ ys) (l, c) = (l, IsChain-map R g (y ∷ ys) c)

-- What a filter leaves passed it, and has what it had.
pub All-keep_with {ℓ κ} :
    {A : Type ℓ} (P : A → Type κ) (p : A → Bool) (xs : List A)
    → All P xs
    → All (λ x. P x × (p x ≡ true)) (keep p xs)
All-keep_with P p [] _ = tt
All-keep_with P p (x ∷ xs) (h, hs) = elim (Bool-cases (p x)) [
  | inl e ↦ rw e ((h, e), All-keep_with P p xs hs)
  | inr e ↦ rw e (All-keep_with P p xs hs)
]
