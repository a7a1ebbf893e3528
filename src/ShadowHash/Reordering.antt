-- ===== src/ShadowHash/Reordering.antt =====
-- packages/db/src/repositories/shadow-observation-repository.ts: the hash of an object does not depend
-- on the order of its entries.
use mathlib.Core.Option
use grid_bot.Common.{
  ◌≡◌, refl, sym, ap, ◌∙◌, true, false, Option, none, some, String, arith, inl, inr, Bool-cases,
  if◌then◌else◌,
}
use grid_bot.Float.{Float}
use grid_bot.Host.{Host, IsCollation, precedes}
use grid_bot.ShadowHash.{
  Js, Entries, object, no_entries, field, is_undefined, insert_field, put_field, canonicalize,
  canonical_entries, Digest, canonical_shadow_hash,
}

-- Two objects with the same entries: neighbours whose keys are told apart may be swapped.
pub data IsReordering {D : Type 0} ⦃h : Host⦄ : Entries D → Entries D → Type 0 where
  same : (es : Entries D) → IsReordering es es
  swap :
      (k l : String) (v w : Js D) (es : Entries D)
      → precedes k l ≡ true
      → IsReordering (field k v (field l w es)) (field l w (field k v es))
  swap_back :
      (k l : String) (v w : Js D) (es : Entries D)
      → precedes k l ≡ true
      → IsReordering (field l w (field k v es)) (field k v (field l w es))
  under :
      (k : String) (v : Js D) (es es' : Entries D)
      → IsReordering es es'
      → IsReordering (field k v es) (field k v es')
  then_also :
      (es es' es'' : Entries D) → IsReordering es es' → IsReordering es' es'' → IsReordering es es''

precedes_trans :
    ⦃h : Host⦄ (c : IsCollation h) (a b d : String)
    → precedes a b ≡ true
    → precedes b d ≡ true
    → precedes a d ≡ true
precedes_trans c a b d p q = ground (arith, c.collates_trans a b d, c.collates_trans d a b)

precedes_back : ⦃h : Host⦄ (a b : String) → precedes a b ≡ true → precedes b a ≡ false
precedes_back a b e = ground arith

module _ {D : Type 0} ⦃f : Float D⦄ ⦃h : Host⦄ (c : IsCollation h) where
  insert_field_swap :
      (k l : String) (v w : Js D) (es : Entries D)
      → precedes k l ≡ true
      → insert_field k v (insert_field l w es) ≡ insert_field l w (insert_field k v es)
  insert_field_swap k l v w no_entries e = rw (e, precedes_back k l e) refl
  insert_field_swap k l v w (field m x rest) e = elim (Bool-cases (precedes m k)) [
    | inl p ↦
        rw (precedes_trans c m k l p e, p, precedes_trans c m k l p e)
          (ap (field m x) (insert_field_swap k l v w rest e))
    | inr p ↦ elim (Bool-cases (precedes m l)) [
      | inl q ↦ rw (q, p, e, q) refl
      | inr q ↦ rw (q, p, precedes_back k l e, e, q) refl
    ]
  ]

  put_field_swap :
      (k l : String) (o p : Option (Js D)) (rest : Option (Entries D))
      → precedes k l ≡ true
      → put_field k o (put_field l p rest) ≡ put_field l p (put_field k o rest)
  put_field_swap k l none none rest e = refl
  put_field_swap k l none (some w) none e = refl
  put_field_swap k l none (some w) (some es) e = refl
  put_field_swap k l (some v) none none e = refl
  put_field_swap k l (some v) none (some es) e = refl
  put_field_swap k l (some v) (some w) none e = refl
  put_field_swap k l (some v) (some w) (some es) e = ap some (insert_field_swap k l v w es e)

  -- the canonical entries of two that come first
  canonical_swap :
      (k l : String) (v w : Js D) (es : Entries D)
      → precedes k l ≡ true
      → canonical_entries (field k v (field l w es)) ≡ canonical_entries (field l w (field k v es))
  unfolding canonicalize
  canonical_swap k l v w es e = elim (Bool-cases (is_undefined v)) [
    | inl p ↦ rw p refl
    | inr p ↦ elim (Bool-cases (is_undefined w)) [
      | inl q ↦ rw (p, q) refl
      | inr q ↦
          rw (p, q) (put_field_swap k l (canonicalize v) (canonicalize w) (canonical_entries es) e)
    ]
  ]

  canonical_entries-reordered :
      (es es' : Entries D) → IsReordering es es' → canonical_entries es ≡ canonical_entries es'
  unfolding canonicalize
  canonical_entries-reordered es _ (same _) = refl
  canonical_entries-reordered _ _ (swap k l v w es e) = canonical_swap k l v w es e
  canonical_entries-reordered _ _ (swap_back k l v w es e) = sym (canonical_swap k l v w es e)
  canonical_entries-reordered _ _ (under k v es es' r) =
      ap (λ o. if is_undefined v then o else put_field k (canonicalize v) o)
        (canonical_entries-reordered es es' r)
  canonical_entries-reordered es es'' (then_also _ es' _ r s) =
      canonical_entries-reordered es es' r ∙ canonical_entries-reordered es' es'' s

  -- The hash of an object, or the error in its place, does not depend on the order in which the object
  -- lists its entries, as far as `localeCompare` tells their keys apart.
  pub canonical_shadow_hash-reordered :
      (d : Digest D) (es es' : Entries D)
      → IsReordering es es'
      → canonical_shadow_hash d (object es) ≡ canonical_shadow_hash d (object es')
  unfolding canonical_shadow_hash canonicalize
  canonical_shadow_hash-reordered d es es' r =
      ap (λ o. Option.map (λ w. d.sha256 (d.stringify w)) (Option.map object o))
        (canonical_entries-reordered es es' r)
