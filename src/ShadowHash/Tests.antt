-- ===== src/ShadowHash/Tests.antt =====
-- packages/db/src/repositories/shadow-observation-repository.ts: the canonical form of one object.
use grid_bot.Common.{ℕ, suc, ◌≡◌, refl, true, none, some, String, arith, leb, leb→le, le→leb}
use grid_bot.Host.{Host, IsCollation, precedes}
use grid_bot.Float.Fixed.{Fixed, fixed_float, Fixed-IsIeee}
use grid_bot.ShadowHash.{
  Js, undefined, null, boolean, number, text, date, unsupported, array, object, no_items, item,
  no_entries, field, canonicalize, Digest, canonical_shadow_hash,
}
use grid_bot.ShadowHash.Fixpoint.{canonicalize-idempotent}
use grid_bot.ShadowHash.Reordering.{swap, canonical_shadow_hash-reordered}

unfoldable size : String → ℕ
size String.[] = 0
size (String.◌∷◌ c s) = suc (size s)

-- texts in the order of their sizes
instance abbrev by_size : Host
by_size = record {
  iso = λ n. "date";
  parse_date = λ s. none;
  show = λ n. "number";
  day = λ s. s;
  collates = λ a b. leb (size a) (size b);
}

by_size-IsCollation : IsCollation by_size
by_size-IsCollation = record {
  collates_trans = λ a b c p q.
      le→leb (size a) (size c)
        (omega (arith, leb→le (size a) (size b) p, leb→le (size b) (size c) q));
}

abbrev answer : Js Fixed
answer = object (
    field "score" (number (fixed_float.decimal 2 0)) (
      field "none" undefined (
        field "at" (date 7)
          (field "all" (array (item undefined (item (boolean true) no_items))) no_entries))))

abbrev canonical_answer : Js Fixed
canonical_answer = object (
    field "at" (text "date") (
      field "all" (array (item null (item (boolean true) no_items)))
        (field "score" (number (fixed_float.decimal 2 0)) no_entries)))

canonical : canonicalize answer ≡ some canonical_answer
unfolding canonicalize size
canonical = refl

abbrev callback : Js Fixed
callback = unsupported

throws : canonicalize (object (field "f" callback no_entries)) ≡ none
unfolding canonicalize
throws = refl

canonicalize-idempotent_example :
    (canonicalize canonical_answer ≡ some canonical_answer)
    × ((g : Digest Fixed)
        → canonical_shadow_hash g canonical_answer ≡ canonical_shadow_hash g answer)
canonicalize-idempotent_example =
    canonicalize-idempotent Fixed-IsIeee answer canonical_answer canonical

abbrev digest : Digest Fixed
digest = record { stringify = λ v. elim v [ object (field k _ _) ↦ k | _ ↦ "" ]; sha256 = λ s. s }

a_bc : precedes "a" "bc" ≡ true
unfolding size
a_bc = refl

canonical_shadow_hash-reordered_example :
    canonical_shadow_hash digest (object (field "a" null (field "bc" (boolean true) no_entries)))
    ≡ canonical_shadow_hash digest (object (field "bc" (boolean true) (field "a" null no_entries)))
canonical_shadow_hash-reordered_example =
    canonical_shadow_hash-reordered by_size-IsCollation digest _ _
      (swap "a" "bc" null (boolean true) no_entries a_bc)
