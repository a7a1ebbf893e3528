-- ===== src/ShadowHash/Fixpoint.antt =====
-- packages/db/src/repositories/shadow-observation-repository.ts: what `canonicalize` returns is in
-- canonical form already.
use mathlib.Core.Option
use grid_bot.Common.{
  sym, ap, ◌∙◌, ◌≡◌, refl, subst, Bool, true, false, Option, none, some, String, arith,
  if◌then◌else◌, if-both,
}
use grid_bot.Float.{Float, IsIeee, num, ◌≈◌}
use grid_bot.Host.{Host, precedes}
use grid_bot.ShadowHash.{
  Digest, canonical_shadow_hash, Js, Items, Entries, undefined, null, boolean, number, text, bigint,
  date, convertible, unsupported, array, object, no_items, item, no_entries, field, is_undefined,
  insert_field, canonical_number, put_item, put_field, canonicalize, canonical_items,
  canonical_entries,
}

asymmetric : ⦃h : Host⦄ (a b : String) → precedes a b ≡ true → precedes b a ≡ false
asymmetric a b e = ground arith

-- What `canonicalize` does not change, as far as the theorem needs it: an object is a chain of entries
-- of which none precedes the entry before it, and each value is such a fixpoint.
module _ {D : Type 0} ⦃f : Float D⦄ ⦃h : Host⦄ where
  abbrev IsFixed : Js D → Type 0
  IsFixed v = (is_undefined v ≡ false) × (canonicalize v ≡ some v)

  abbrev Follows : String → Entries D → Type 0
  Follows k no_entries = Unit
  Follows k (field l w rest) = precedes l k ≡ false

  abbrev IsSorted : Entries D → Type 0
  IsSorted no_entries = Unit
  IsSorted (field k v rest) = IsFixed v × Follows k rest × IsSorted rest

  Fixes : Option (Js D) → Type 0
  Fixes none = Unit
  Fixes (some w) = IsFixed w

  FixesItems : Option (Items D) → Type 0
  FixesItems none = Unit
  FixesItems (some ws) = canonical_items ws ≡ some ws

  Sorts : Option (Entries D) → Type 0
  Sorts none = Unit
  Sorts (some ws) = IsSorted ws

  Follows-insert_field :
      (l k : String) (v : Js D) (es : Entries D)
      → precedes k l ≡ false
      → Follows l es
      → Follows l (insert_field k v es)
  Follows-insert_field l k v no_entries p q = p
  Follows-insert_field l k v (field m w rest) p q =
      if-both (Follows l) (precedes m k) _ _ (λ _. q) (λ _. p)

  insert_field-IsSorted :
      (k : String) (v : Js D) (es : Entries D)
      → IsFixed v
      → IsSorted es
      → IsSorted (insert_field k v es)
  insert_field-IsSorted k v no_entries p q = (p, tt, tt)
  insert_field-IsSorted k v (field l w rest) p (q, r, s) =
      if-both IsSorted (precedes l k) _ _
        (λ e. (
          q,
          Follows-insert_field l k v rest (asymmetric l k e) r,
          insert_field-IsSorted k v rest p s,
        ))
        (λ e. (p, e, (q, r, s)))

  insert_first :
      (k : String) (v : Js D) (es : Entries D) → Follows k es → insert_field k v es ≡ field k v es
  insert_first k v no_entries p = refl
  insert_first k v (field l w rest) p = rw p refl

  canonical_entries-fixed : (es : Entries D) → IsSorted es → canonical_entries es ≡ some es
  unfolding canonicalize
  canonical_entries-fixed no_entries _ = refl
  canonical_entries-fixed (field k v rest) ((d, e), r, s) =
      rw (d, e, canonical_entries-fixed rest s, insert_first k v rest r) refl

  put_item-FixesItems :
      (o : Option (Js D)) (rest : Option (Items D))
      → Fixes o
      → FixesItems rest
      → FixesItems (put_item o rest)
  unfolding Fixes FixesItems canonicalize
  put_item-FixesItems none rest p q = tt
  put_item-FixesItems (some w) none p q = tt
  put_item-FixesItems (some w) (some rest) (d, e) q = rw (d, e, q) refl

  put_field-Sorts :
      (k : String) (o : Option (Js D)) (rest : Option (Entries D))
      → Fixes o
      → Sorts rest
      → Sorts (put_field k o rest)
  unfolding Fixes Sorts
  put_field-Sorts k none rest p q = tt
  put_field-Sorts k (some w) none p q = tt
  put_field-Sorts k (some w) (some rest) p q = insert_field-IsSorted k w rest p q

  array-Fixes : (o : Option (Items D)) → FixesItems o → Fixes (Option.map array o)
  unfolding Fixes FixesItems canonicalize
  array-Fixes none p = tt
  array-Fixes (some ws) p = (refl, rw p refl)

  object-Fixes : (o : Option (Entries D)) → Sorts o → Fixes (Option.map object o)
  unfolding Fixes Sorts canonicalize
  object-Fixes none p = tt
  object-Fixes (some ws) p = (refl, rw (canonical_entries-fixed ws p) refl)

  zero_or_zero :
      (b : Bool)
      → ◌≡◌ {A = Option (Js D)} (some (number (if b then num 0 else num 0))) (some (number (num 0)))
  zero_or_zero true = refl
  zero_or_zero false = refl

  module _ (ieee : IsIeee D) where
    number-Fixes : (x : D) → Fixes (canonical_number x)
    unfolding Fixes canonicalize
    number-Fixes x =
        if-both Fixes (f.is_finite x) _ _
          (λ e.
            if-both (λ y. IsFixed (number y)) (x ≈ num 0) _ _
              (λ z. (refl, rw (ieee.decimal_finite 0 0 (omega arith)) (zero_or_zero _)))
              (λ z. (refl, rw (e, z) refl)))
          (λ e. tt)

    mutual
      unfolding Fixes FixesItems Sorts canonicalize

      canonicalize-Fixes : (v : Js D) → Fixes (canonicalize v)
      canonicalize-Fixes undefined = tt
      canonicalize-Fixes null = (refl, refl)
      canonicalize-Fixes (boolean b) = (refl, refl)
      canonicalize-Fixes (number x) = number-Fixes x
      canonicalize-Fixes (text s) = (refl, refl)
      canonicalize-Fixes (bigint s) = (refl, refl)
      canonicalize-Fixes (date t) = (refl, refl)
      canonicalize-Fixes (convertible v) = canonicalize-Fixes v
      canonicalize-Fixes unsupported = tt
      canonicalize-Fixes (array xs) = array-Fixes (canonical_items xs) (canonical_items-Fixes xs)
      canonicalize-Fixes (object es) =
          object-Fixes (canonical_entries es) (canonical_entries-Sorts es)

      canonical_items-Fixes : (xs : Items D) → FixesItems (canonical_items xs)
      canonical_items-Fixes no_items = refl
      canonical_items-Fixes (item x xs) =
          put_item-FixesItems _ (canonical_items xs)
            (if-both Fixes (is_undefined x) _ _ (λ _. (refl, refl)) (λ _. canonicalize-Fixes x))
            (canonical_items-Fixes xs)

      canonical_entries-Sorts : (es : Entries D) → Sorts (canonical_entries es)
      canonical_entries-Sorts no_entries = tt
      canonical_entries-Sorts (field k v es) =
          if-both Sorts (is_undefined v) _ _ (λ _. canonical_entries-Sorts es)
            (λ _.
              put_field-Sorts k (canonicalize v) (canonical_entries es) (canonicalize-Fixes v)
                (canonical_entries-Sorts es))

    -- The canonical form of a value is its own canonical form, so both have the same hash.
    pub canonicalize-idempotent :
        (v w : Js D)
        → canonicalize v ≡ some w
        → (canonicalize w ≡ some w)
          × ((g : Digest D) → canonical_shadow_hash g w ≡ canonical_shadow_hash g v)
    unfolding Fixes canonical_shadow_hash
    canonicalize-idempotent v w e =
        let c = (subst Fixes e (canonicalize-Fixes v)).1 in
        (c, λ g. ap (Option.map (λ x. g.sha256 (g.stringify x))) (c ∙ sym e))
