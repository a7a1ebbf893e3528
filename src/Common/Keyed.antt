-- ===== src/Common/Keyed.antt =====
-- Rows with a primary key: no two have the same, and an update that keeps the key keeps this.
use Prim.Native.String.{String}
use mathlib.Core.Path.{◌≡◌, refl, sym, ap, subst, ◌∙◌}
use mathlib.Core.Bool.{Bool, true, false, false≢true}
use mathlib.Core.Option.{Option, some, some-injective}
use mathlib.Core.List.{List, [], ◌∷◌, map, Memᴰ}
use mathlib.Core.Logic.{inl, inr}
use text.Mathlib.Text.{◌==◌ as str_eq}
use text.Mathlib.TextEquality.{eq_iff}
use text.Mathlib.TextPositions.{eq_refl}
use grid_bot.Common.Tests.{if◌then◌else◌, if-both, Bool-cases}
use grid_bot.Common.Lists.{All, All-mono, find}

-- `update({ where, data })`
abbrev pub update_rows : {A : Type 0} → (A → Bool) → (A → A) → List A → List A
update_rows p g rows = map (λ a. if p a then g a else a) rows

pub str_eq_sym : (a b : String) → str_eq a b ≡ false → str_eq b a ≡ false
str_eq_sym a b e = elim (Bool-cases (str_eq b a)) [
  | inl t ↦
      elim (false≢true (sym e ∙ subst (λ x. str_eq x b ≡ true) ((eq_iff b a).0 t) (eq_refl b))) [ ]
  | inr t ↦ t
]

pub All-update_rows :
    {A : Type 0} (P Q : A → Type 0) (p : A → Bool) (g : A → A) (xs : List A)
    → ((a : A) → p a ≡ true → P a → Q (g a))
    → ((a : A) → p a ≡ false → P a → Q a)
    → All P xs
    → All Q (update_rows p g xs)
All-update_rows P Q p g [] change stay _ = tt
All-update_rows P Q p g (x ∷ xs) change stay (h, hs) = elim (Bool-cases (p x)) [
  | inl e ↦ rw e (change x e h, All-update_rows P Q p g xs change stay hs)
  | inr e ↦ rw e (stay x e h, All-update_rows P Q p g xs change stay hs)
]

module _ {A : Type 0} (key : A → String) where
  abbrev pub IsAbsent : String → List A → Type 0
  IsAbsent id rows = All (λ q. str_eq (key q) id ≡ false) rows

  abbrev pub IsKeyed : List A → Type 0
  IsKeyed [] = Unit
  IsKeyed (r ∷ rs) = IsAbsent (key r) rs × IsKeyed rs

  abbrev pub by_key : String → List A → Option A
  by_key id rows = find (λ r. str_eq (key r) id) rows

  same_row :
      (r c : A) (rs : List A) → Memᴰ r rs → str_eq (key c) (key r) ≡ true → IsAbsent (key c) rs → ⊥
  same_row r c [] m t h = elim m [ ]
  same_row r c (z ∷ zs) (Memᴰ.head e) t (h, _) = false≢true (
      sym h
      ∙ subst (λ y. str_eq (key y) (key c) ≡ true) e
          (subst (λ y. str_eq (key r) y ≡ true) (sym ((eq_iff (key c) (key r)).0 t))
            (eq_refl (key r))))
  same_row r c (z ∷ zs) (Memᴰ.tail m) t (_, hs) = same_row r c zs m t hs

  -- The rows with the key of a row are that row.
  pub keyed_unique :
      (r : A) (rs : List A)
      → IsKeyed rs
      → Memᴰ r rs
      → All (λ c. str_eq (key c) (key r) ≡ true → c ≡ r) rs
  keyed_unique r [] k m = tt
  keyed_unique r (z ∷ zs) (a, k) (Memᴰ.head e) = (
    λ _. sym e,
    All-mono _ _ zs
        (λ c h t. elim (false≢true (sym h ∙ subst (λ y. str_eq (key c) (key y) ≡ true) e t)) [ ]) a,
  )
  keyed_unique r (z ∷ zs) (a, k) (Memᴰ.tail m) =
      (λ t. elim (same_row r z zs m t a) [ ], keyed_unique r zs k m)

  -- A row is found by its key.
  pub keyed_found : (r : A) (rs : List A) → IsKeyed rs → Memᴰ r rs → by_key (key r) rs ≡ some r
  keyed_found r [] k m = elim m [ ]
  keyed_found r (z ∷ zs) (a, k) (Memᴰ.head e) =
      rw (subst (λ y. str_eq (key y) (key r) ≡ true) e (eq_refl (key r))) (ap (λ y. some y) (sym e))
  keyed_found r (z ∷ zs) (a, k) (Memᴰ.tail m) = elim (Bool-cases (str_eq (key z) (key r))) [
    | inl t ↦ elim (same_row r z zs m t a) [ ]
    | inr t ↦ rw t (keyed_found r zs k m)
  ]

  module _ (p : A → Bool) (g : A → A) (keeps : (a : A) → key (g a) ≡ key a) where
    pub update_rows-IsAbsent :
        (id : String) (rs : List A) → IsAbsent id rs → IsAbsent id (update_rows p g rs)
    update_rows-IsAbsent id rs h =
        All-update_rows _ _ p g rs (λ a _ e. subst (λ y. str_eq y id ≡ false) (sym (keeps a)) e)
          (λ a _ e. e) h

    pub update_rows-IsKeyed : (rs : List A) → IsKeyed rs → IsKeyed (update_rows p g rs)
    update_rows-IsKeyed [] _ = tt
    update_rows-IsKeyed (r ∷ rs) (a, k) = elim (Bool-cases (p r)) [
      | inl e ↦ rw e (
        subst (λ y. IsAbsent y (update_rows p g rs)) (sym (keeps r))
            (update_rows-IsAbsent (key r) rs a),
        update_rows-IsKeyed rs k,
      )
      | inr e ↦ rw e (update_rows-IsAbsent (key r) rs a, update_rows-IsKeyed rs k)
    ]

    -- The row of a key after an update.
    pub by_key-update_rows :
        (id : String) (rs : List A) (r : A)
        → by_key id rs ≡ some r
        → by_key id (update_rows p g rs) ≡ some (if p r then g r else r)
    by_key-update_rows id [] r e = cc
    by_key-update_rows id (z ∷ zs) r e = elim (Bool-cases (str_eq (key z) id)) [
      | inl t ↦ rw (same_key z t) (
          subst (λ y. some (if p z then g z else z) ≡ some (if p y then g y else y))
            (some-injective _ _ (rw t at e)) refl)
      | inr t ↦ rw (same_key_not z t) (by_key-update_rows id zs r (rw t at e))
    ]
      where
        same_key :
            (y : A) → str_eq (key y) id ≡ true → str_eq (key (if p y then g y else y)) id ≡ true
        same_key y t =
            if-both (λ x. str_eq (key x) id ≡ true) (p y) _ _
              (λ _. subst (λ k. str_eq k id ≡ true) (sym (keeps y)) t) (λ _. t)

        same_key_not :
            (y : A) → str_eq (key y) id ≡ false → str_eq (key (if p y then g y else y)) id ≡ false
        same_key_not y t =
            if-both (λ x. str_eq (key x) id ≡ false) (p y) _ _
              (λ _. subst (λ k. str_eq k id ≡ false) (sym (keeps y)) t) (λ _. t)

    -- A key that is absent after an update was absent before it.
    pub IsAbsent-update_rows :
        (id : String) (rs : List A) → IsAbsent id (update_rows p g rs) → IsAbsent id rs
    IsAbsent-update_rows id [] _ = tt
    IsAbsent-update_rows id (z ∷ zs) (a, as_) = (
      elim (Bool-cases (p z)) [
        | inl t ↦ subst (λ k. str_eq k id ≡ false) (keeps z) (rw t at a)
        | inr t ↦ rw t at a
      ],
      IsAbsent-update_rows id zs as_,
    )
