-- ===== src/Common/Members.antt =====
-- Membership with its place, and invariants of a loop over a list.
use mathlib.Core.Path.{◌≡◌, ap, subst, sym, refl}
use mathlib.Core.Bool.{Bool, true, false}
use mathlib.Core.List.{List, [], ◌∷◌, ◌++◌, map, foldl, reverse, reverse_aux, Memᴰ}
use grid_bot.Common.Tests.{if◌then◌else◌, Bool-cases}
use grid_bot.Common.Lists.{keep, any, All, All-append, sort_by, insert_by}
use mathlib.Core.Logic.{◌⊎◌, inl, inr}

module _ {ℓ} {A : Type ℓ} where
  pub Mem-append_left : (x : A) (xs ys : List A) → Memᴰ x xs → Memᴰ x (xs ++ ys)
  Mem-append_left x [] ys m = elim m [ ]
  Mem-append_left x (z ∷ zs) ys (Memᴰ.head e) = Memᴰ.head e
  Mem-append_left x (z ∷ zs) ys (Memᴰ.tail m) = Memᴰ.tail (Mem-append_left x zs ys m)

  pub Mem-append_right : (x : A) (xs ys : List A) → Memᴰ x ys → Memᴰ x (xs ++ ys)
  Mem-append_right x [] ys m = m
  Mem-append_right x (z ∷ zs) ys m = Memᴰ.tail (Mem-append_right x zs ys m)

  pub Mem-keep : (x : A) (p : A → Bool) (xs : List A) → p x ≡ true → Memᴰ x xs → Memᴰ x (keep p xs)
  Mem-keep x p [] t m = elim m [ ]
  Mem-keep x p (z ∷ zs) t (Memᴰ.head e) = rw (subst (λ y. p y ≡ true) e t) (Memᴰ.head e)
  Mem-keep x p (z ∷ zs) t (Memᴰ.tail m) = elim (Bool-cases (p z)) [
    | inl e ↦ rw e (Memᴰ.tail (Mem-keep x p zs t m))
    | inr e ↦ rw e (Mem-keep x p zs t m)
  ]

  pub Mem-any : (p : A → Bool) (x : A) (xs : List A) → Memᴰ x xs → p x ≡ true → any p xs ≡ true
  Mem-any p x [] m t = elim m [ ]
  Mem-any p x (z ∷ zs) (Memᴰ.head e) t = rw (subst (λ y. p y ≡ true) e t) refl
  Mem-any p x (z ∷ zs) (Memᴰ.tail m) t = elim (Bool-cases (p z)) [
    | inl e ↦ rw e refl
    | inr e ↦ rw e (Mem-any p x zs m t)
  ]

  pub All-reverse {κ} : (P : A → Type κ) (xs : List A) → All P xs → All P (reverse xs)
  All-reverse P xs h = go xs [] h tt
    where
      go : (xs ys : List A) → All P xs → All P ys → All P (reverse_aux xs ys)
      go [] ys h g = g
      go (x ∷ xs) ys (h, hs) g = go xs (x ∷ ys) hs (h, g)

  -- What holds of every item holds of a member.
  pub All-at {κ} : (P : A → Type κ) (xs : List A) (x : A) → All P xs → Memᴰ x xs → P x
  All-at P [] x _ m = elim m [ ]
  All-at P (z ∷ zs) x (h, _) (Memᴰ.head e) = subst P (sym e) h
  All-at P (z ∷ zs) x (_, hs) (Memᴰ.tail m) = All-at P zs x hs m

  -- A list to which an item is pushed if a test passes.
  pub All-push_if {κ} :
      (P : A → Type κ) (test : Bool) (xs : List A) (y : A)
      → All P xs
      → (test ≡ true → P y)
      → All P (if test then xs ++ y ∷ [] else xs)
  All-push_if P true xs y h g = All-append P xs (y ∷ []) h (g refl, tt)
  All-push_if P false xs y h g = h

module _ {ℓ κ} {A : Type ℓ} {S : Type κ} where
  -- An invariant that every step keeps holds at the end of the loop.
  pub foldl_inv {θ η} :
      (P : S → Type θ) (Q : A → Type η) (step : S → A → S) (xs : List A) (s : S)
      → ((s : S) (x : A) → P s → Q x → P (step s x))
      → All Q xs
      → P s
      → P (foldl step s xs)
  foldl_inv P Q step [] s g _ p = p
  foldl_inv P Q step (x ∷ xs) s g (q, qs) p = foldl_inv P Q step xs (step s x) g qs (g s x p q)

-- Sorting keeps the members.
module _ {ℓ} {A : Type ℓ} (before : A → A → Bool) where
  Mem-insert_by : (x y : A) (ys : List A) → (x ≡ y) ⊎ Memᴰ x ys → Memᴰ x (insert_by before y ys)
  Mem-insert_by x y [] (inl e) = Memᴰ.head e
  Mem-insert_by x y [] (inr m) = elim m [ ]
  Mem-insert_by x y (z ∷ zs) (inl e) = elim (Bool-cases (before z y)) [
    | inl t ↦ rw t (Memᴰ.tail (Mem-insert_by x y zs (inl e)))
    | inr t ↦ rw t (Memᴰ.head e)
  ]
  Mem-insert_by x y (z ∷ zs) (inr (Memᴰ.head e)) = elim (Bool-cases (before z y)) [
    | inl t ↦ rw t (Memᴰ.head e)
    | inr t ↦ rw t (Memᴰ.tail (Memᴰ.head e))
  ]
  Mem-insert_by x y (z ∷ zs) (inr (Memᴰ.tail m)) = elim (Bool-cases (before z y)) [
    | inl t ↦ rw t (Memᴰ.tail (Mem-insert_by x y zs (inr m)))
    | inr t ↦ rw t (Memᴰ.tail (Memᴰ.tail m))
  ]

  pub Mem-sort_by : (x : A) (xs : List A) → Memᴰ x xs → Memᴰ x (sort_by before xs)
  Mem-sort_by x [] m = elim m [ ]
  Mem-sort_by x (y ∷ ys) (Memᴰ.head e) = Mem-insert_by x y (sort_by before ys) (inl e)
  Mem-sort_by x (y ∷ ys) (Memᴰ.tail m) =
      Mem-insert_by x y (sort_by before ys) (inr (Mem-sort_by x ys m))

pub Mem-map {ℓ κ} :
    {A : Type ℓ} {B : Type κ} (g : A → B) (x : A) (xs : List A) → Memᴰ x xs → Memᴰ (g x) (map g xs)
Mem-map g x [] m = elim m [ ]
Mem-map g x (y ∷ ys) (Memᴰ.head e) = Memᴰ.head (ap g e)
Mem-map g x (y ∷ ys) (Memᴰ.tail m) = Memᴰ.tail (Mem-map g x ys m)

pub All-any {ℓ} :
    {A : Type ℓ} (p : A → Bool) (xs : List A) → All (λ x. p x ≡ false) xs → any p xs ≡ false
All-any p [] _ = refl
All-any p (x ∷ xs) (e, es) = rw e (All-any p xs es)

pub foldl-push {ℓ κ} :
    {A : Type ℓ} {S : Type κ} (step : S → A → S) (s : S) (xs : List A) (x : A)
    → foldl step s (xs ++ x ∷ []) ≡ step (foldl step s xs) x
foldl-push step s [] x = refl
foldl-push step s (y ∷ ys) x = foldl-push step (step s y) ys x
