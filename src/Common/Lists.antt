-- ===== src/Common/Lists.antt =====
-- Lists with counters in the native numbers, and the array methods that the services call.
use Prim.Native.Nat.{ℕ, zero, suc, ◌+◌, ◌≤◌}
use mathlib.Core.Path.{◌≡◌, refl, subst}
use mathlib.Core.Bool.{Bool, true, false, ◌&&◌, ◌||◌, false≢true}
use mathlib.Core.Option.{Option, none, some, some-injective}
use mathlib.Core.List.{List, [], ◌∷◌, ◌++◌, map, Memᴰ}
use native.Mathlib.Omega.{arith}
use mathlib.Core.Logic.{inl, inr}
use grid_bot.Common.Tests.{if◌then◌else◌, Bool-cases}

module _ {ℓ} {A : Type ℓ} where
  abbrev pub length : List A → ℕ
  length [] = 0
  length (_ ∷ xs) = suc (length xs)

  -- `array.filter(p)`
  abbrev pub keep : (A → Bool) → List A → List A
  keep p [] = []
  keep p (x ∷ xs) = if p x then x ∷ keep p xs else keep p xs

  -- `array.find(p)`, with `none` for undefined
  abbrev pub find : (A → Bool) → List A → Option A
  find p [] = none
  find p (x ∷ xs) = if p x then some x else find p xs

  -- `array.some(p)` and `array.every(p)`
  abbrev pub any : (A → Bool) → List A → Bool
  any p [] = false
  any p (x ∷ xs) = p x || any p xs

  abbrev pub all : (A → Bool) → List A → Bool
  all p [] = true
  all p (x ∷ xs) = p x && all p xs

  abbrev pub All {κ} : (A → Type κ) → List A → Type κ
  All P [] = Unit
  All P (x ∷ xs) = P x × All P xs

  -- `[...xs].sort(before)`: a stable insertion, `before a b` when `a` must precede `b`.
  abbrev pub insert_by : (A → A → Bool) → A → List A → List A
  insert_by before x [] = x ∷ []
  insert_by before x (y ∷ ys) = if before y x then y ∷ insert_by before x ys else x ∷ y ∷ ys

  abbrev pub sort_by : (A → A → Bool) → List A → List A
  sort_by before [] = []
  sort_by before (x ∷ xs) = insert_by before x (sort_by before xs)

  abbrev pub get_elem? : List A → ℕ → Option A
  get_elem? [] i = none
  get_elem? (x ∷ xs) zero = some x
  get_elem? (x ∷ xs) (suc i) = get_elem? xs i

  -- `xs[0]`
  abbrev pub first : List A → Option A
  first [] = none
  first (x ∷ _) = some x

  -- `o ?? d`, and tests of a value against null or undefined
  abbrev pub or_else : Option A → A → A
  or_else none d = d
  or_else (some a) d = a

  -- `o ?? p`, where `p` may be null too
  abbrev pub or_option : Option A → Option A → Option A
  or_option none p = p
  or_option (some a) p = some a

  abbrev pub is_some : Option A → Bool
  is_some none = false
  is_some (some _) = true

  abbrev pub is_none : Option A → Bool
  is_none none = true
  is_none (some _) = false

  pub length-append : (xs ys : List A) → length (xs ++ ys) ≡ length xs + length ys
  length-append [] ys = omega arith
  length-append (x ∷ xs) ys = omega (arith, length-append xs ys)

  pub length-keep : (p : A → Bool) (xs : List A) → length (keep p xs) ≤ length xs
  length-keep p [] = omega arith
  length-keep p (x ∷ xs) = ground (arith, length-keep p xs)

  pub All-append {κ} : (P : A → Type κ) (xs ys : List A) → All P xs → All P ys → All P (xs ++ ys)
  All-append P [] ys _ q = q
  All-append P (x ∷ xs) ys (p, ps) q = (p, All-append P xs ys ps q)

  -- What `find` returns passes the test.
  pub find-holds : (p : A → Bool) (xs : List A) (x : A) → find p xs ≡ some x → p x ≡ true
  find-holds p [] x h = ground arith
  find-holds p (y ∷ ys) x h = ground (arith, find-holds p ys x)

  pub All-keep : (p : A → Bool) (xs : List A) → All (λ x. p x ≡ true) (keep p xs)
  All-keep p [] = tt
  All-keep p (x ∷ xs) = elim (Bool-cases (p x)) [
    | inl e ↦ rw e (e, All-keep p xs)
    | inr e ↦ rw e (All-keep p xs)
  ]

  All-insert_by {κ} :
      (P : A → Type κ) (before : A → A → Bool) (x : A) (ys : List A)
      → P x
      → All P ys
      → All P (insert_by before x ys)
  All-insert_by P before x [] p q = (p, tt)
  All-insert_by P before x (y ∷ ys) p (q, qs) = elim (Bool-cases (before y x)) [
    | inl e ↦ rw e (q, All-insert_by P before x ys p qs)
    | inr e ↦ rw e (p, (q, qs))
  ]

  pub All-sort_by {κ} :
      (P : A → Type κ) (before : A → A → Bool) (xs : List A) → All P xs → All P (sort_by before xs)
  All-sort_by P before [] _ = tt
  All-sort_by P before (x ∷ xs) (p, ps) =
      All-insert_by P before x (sort_by before xs) p (All-sort_by P before xs ps)

  length-insert_by :
      (before : A → A → Bool) (x : A) (ys : List A)
      → length (insert_by before x ys) ≡ suc (length ys)
  length-insert_by before x [] = refl
  length-insert_by before x (y ∷ ys) = ground (arith, length-insert_by before x ys)

  pub length-sort_by :
      (before : A → A → Bool) (xs : List A) → length (sort_by before xs) ≡ length xs
  length-sort_by before [] = refl
  length-sort_by before (x ∷ xs) =
      omega (arith, length-insert_by before x (sort_by before xs), length-sort_by before xs)

  pub first-All {κ} : (P : A → Type κ) (xs : List A) (x : A) → All P xs → first xs ≡ some x → P x
  first-All P [] x h e = cc
  first-All P (y ∷ ys) x (h, _) e = subst P (some-injective _ _ e) h

  -- Both tests of two filters in a row hold of what is left.
  pub All-keep_of {κ} : (P : A → Type κ) (p : A → Bool) (xs : List A) → All P xs → All P (keep p xs)
  All-keep_of P p [] _ = tt
  All-keep_of P p (x ∷ xs) (h, hs) = elim (Bool-cases (p x)) [
    | inl e ↦ rw e (h, All-keep_of P p xs hs)
    | inr e ↦ rw e (All-keep_of P p xs hs)
  ]

  pub find-All {κ} :
      (P : A → Type κ) (p : A → Bool) (xs : List A) (x : A) → All P xs → find p xs ≡ some x → P x
  find-All P p [] x _ e = cc
  find-All P p (y ∷ ys) x (h, hs) e = elim (Bool-cases (p y)) [
    | inl t ↦ subst P (some-injective _ _ (rw t at e)) h
    | inr t ↦ find-All P p ys x hs (rw t at e)
  ]

  pub All-mono {κ κ'} :
      (P : A → Type κ) (Q : A → Type κ') (xs : List A) → ((x : A) → P x → Q x) → All P xs → All Q xs
  All-mono P Q [] g _ = tt
  All-mono P Q (x ∷ xs) g (h, hs) = (g x h, All-mono P Q xs g hs)

  -- Every item of a list is in it: with the lemmas above, what is chosen from it is too.
  pub All-Mem : (xs : List A) → All (λ x. Memᴰ x xs) xs
  All-Mem [] = tt
  All-Mem (x ∷ xs) = (
    Memᴰ.head refl,
    All-mono (λ y. Memᴰ y xs) (λ y. Memᴰ y (x ∷ xs)) xs (λ y m. Memᴰ.tail m) (All-Mem xs),
  )

  pub find-Mem : (p : A → Bool) (xs : List A) (x : A) → find p xs ≡ some x → Memᴰ x xs
  find-Mem p xs x e = find-All (λ y. Memᴰ y xs) p xs x (All-Mem xs) e

  -- What is left after two filters passed both, and kept what it had.
  pub All-keep_both {κ} :
      (P : A → Type κ) (p q : A → Bool) (xs : List A)
      → All P xs
      → All (λ x. P x × (p x ≡ true) × (q x ≡ true)) (keep p (keep q xs))
  All-keep_both P p q [] _ = tt
  All-keep_both P p q (x ∷ xs) (h, hs) = elim (Bool-cases (q x)) [
    | inr e ↦ rw e (All-keep_both P p q xs hs)
    | inl e ↦ rw e (elim (Bool-cases (p x)) [
      | inl d ↦ rw d ((h, d, e), All-keep_both P p q xs hs)
      | inr d ↦ rw d (All-keep_both P p q xs hs)
    ])
  ]

module _ {ℓ κ} {A : Type ℓ} {B : Type κ} where
  pub All-map {θ} :
      (P : B → Type θ) (g : A → B) (xs : List A) → All (λ x. P (g x)) xs → All P (map g xs)
  All-map P g [] _ = tt
  All-map P g (x ∷ xs) (h, hs) = (h, All-map P g xs hs)

  pub length-map : (g : A → B) (xs : List A) → length (map g xs) ≡ length xs
  length-map g [] = refl
  length-map g (x ∷ xs) = ground (arith, length-map g xs)

pub any-false {ℓ} :
    {A : Type ℓ} (p : A → Bool) (xs : List A) → any p xs ≡ false → All (λ x. p x ≡ false) xs
any-false p [] e = tt
any-false p (x ∷ xs) e = (ground arith, any-false p xs (ground arith))

pub All-pair {ℓ κ κ'} :
    {A : Type ℓ} (P : A → Type κ) (Q : A → Type κ') (xs : List A)
    → All P xs
    → All Q xs
    → All (λ x. P x × Q x) xs
All-pair P Q [] _ _ = tt
All-pair P Q (x ∷ xs) (p, ps) (q, qs) = ((p, q), All-pair P Q xs ps qs)

pub any-All {ℓ κ} :
    {A : Type ℓ} (Q : A → Type κ) (p : A → Bool) (xs : List A)
    → any p xs ≡ true
    → All Q xs
    → (x : A) × (p x ≡ true) × Q x
any-All Q p [] e _ = elim (false≢true e) [ ]
any-All Q p (x ∷ xs) e (q, qs) = elim (Bool-cases (p x)) [
  | inl t ↦ (x, t, q)
  | inr t ↦ any-All Q p xs (rw t at e) qs
]
