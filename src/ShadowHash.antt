-- ===== src/ShadowHash.antt =====
-- packages/db/src/repositories/shadow-observation-repository.ts: the canonical form of the values that
-- are stored as JSON, and the hash of it that names a snapshot, an observation or an outcome.
pub mod Fixpoint
pub mod Reordering
mod Tests
use mathlib.Core.Option
use Prim.Native.String
use grid_bot.Common.{
  ℕ, zero, suc, ◌+◌, ◌-◌, ◌*◌, ◌/◌, ◌%◌, ◌≤◌, ◌<◌, ◌≡◌, ◌≢◌, refl, sym, ap, subst, ◌∙◌, Bool, true,
  false, not, ◌&&◌, ◌||◌, Option, none, some, List, [], ◌∷◌, ◌++◌, String, arith, ◌⊎◌, ◌↔◌, inl,
  inr, Memᴰ, keep, find, any, all, first, sort_by, map, foldl, reverse, length, length-append,
  length-keep, length-sort_by, get_elem?, Bool-cases, Option-cases, All, All-Mem, All-keep,
  All-keep_of, All-append, All-mono, All-at, Mem-append_left, Mem-append_right, Mem-keep, foldl_inv,
  All-push_if, any-false, All-map, All-keep_both, length-map, All-sort_by, sort_by-IsChain,
  IsChain-map, All-keep_with, IsChain, Leads, first-All, find-All, find-Mem, find-holds,
  if◌then◌else◌, if-both, false≢true, if-true, if-false, ltb, leb, ◌==◌, leb→le, le→leb, or_else,
  or_option, none≢some, some-injective, max, min, is_some, is_none, str_eq, eq_iff, eq_refl, ℤ, pos,
  ◌+ℤ◌, ◌-ℤ◌, add_comm, add_zero, sum_assoc, swap_ends, under_sum, sub_of_sum, add_cancel, int_laws,
  and-left, and-right,
}
use grid_bot.Float.{Float, IsIeee, IsNumber, num, ◌⊕◌, ◌⊗◌, ◌⊖◌, ◌⊘◌, ◌≼◌, ◌≺◌, ◌≈◌}
use grid_bot.Host.{Host, IsRuntime, ◌===◌, ◌<>◌, same_text, precedes}

mutual
  -- A JavaScript value, by the cases that `canonicalize` tells apart. A bigint is its `toString()`, an
  -- object with a method `toJSON` is what that returns, an object is its entries.
  pub data Js (D : Type 0) : Type 0 where
    undefined : Js D
    null : Js D
    boolean : Bool → Js D
    number : D → Js D
    text : String → Js D
    bigint : String → Js D
    date : ℕ → Js D
    convertible : Js D → Js D
    unsupported : Js D
    array : Items D → Js D
    object : Entries D → Js D

  pub data Items (D : Type 0) : Type 0 where
    no_items : Items D
    item : Js D → Items D → Items D

  pub data Entries (D : Type 0) : Type 0 where
    no_entries : Entries D
    field : String → Js D → Entries D → Entries D

-- What the hash takes from outside: `JSON.stringify`, which returns a text for a canonical value, and
-- the hexadecimal SHA-256 digest of node:crypto.
pub record Digest (D : Type 0) : Type 0 where
  pub stringify : Js D → String
  pub sha256 : String → String

abbrev pub is_undefined : {D : Type 0} → Js D → Bool
is_undefined undefined = true
is_undefined _ = false

module _ {D : Type 0} ⦃f : Float D⦄ ⦃h : Host⦄ where
  -- the place of a key among sorted ones, after those that `localeCompare` puts before it
  abbrev pub insert_field : String → Js D → Entries D → Entries D
  insert_field k v no_entries = field k v no_entries
  insert_field k v (field l w rest) =
      if precedes l k then field l w (insert_field k v rest) else field k v (field l w rest)

  abbrev pub canonical_number : D → Option (Js D)
  canonical_number x =
      if f.is_finite x then some (number (if x ≈ num 0 then num 0 else x)) else none

  abbrev pub put_item : Option (Js D) → Option (Items D) → Option (Items D)
  put_item (some w) (some rest) = some (item w rest)
  put_item _ _ = none

  abbrev pub put_field : String → Option (Js D) → Option (Entries D) → Option (Entries D)
  put_field k (some w) (some rest) = some (insert_field k w rest)
  put_field k _ _ = none

  unfoldable mutual
    -- `none` is the error that it throws
    pub canonicalize : Js D → Option (Js D)
    canonicalize undefined = none
    canonicalize null = some null
    canonicalize (boolean b) = some (boolean b)
    canonicalize (number x) = canonical_number x
    canonicalize (text s) = some (text s)
    canonicalize (bigint s) = some (text s)
    canonicalize (date t) = some (text (h.iso t))
    canonicalize (convertible v) = canonicalize v
    canonicalize unsupported = none
    canonicalize (array xs) = Option.map array (canonical_items xs)
    canonicalize (object es) = Option.map object (canonical_entries es)

    pub canonical_items : Items D → Option (Items D)
    canonical_items no_items = some no_items
    canonical_items (item x xs) =
        put_item (if is_undefined x then some null else canonicalize x) (canonical_items xs)

    -- the entries without the undefined ones, sorted by their keys
    pub canonical_entries : Entries D → Option (Entries D)
    canonical_entries no_entries = some no_entries
    canonical_entries (field k v es) =
        if is_undefined v
        then canonical_entries es
        else put_field k (canonicalize v) (canonical_entries es)

  unfoldable pub canonical_shadow_hash : Digest D → Js D → Option String
  canonical_shadow_hash d v = Option.map (λ w. d.sha256 (d.stringify w)) (canonicalize v)
