-- ===== src/Host.antt =====
-- What the services take from the JavaScript runtime: dates as text, numbers in template literals
-- and the collation of `localeCompare`. A `Date` is its time in milliseconds since the epoch.
pub mod Binary
use Prim.Native.String.{◌++◌ as append}
use grid_bot.Common.{ℕ, ◌≡◌, Bool, true, false, not, ◌&&◌, Option, none, some, String, str_eq}

pub record Host : Type 0 where
  -- `new Date(n).toISOString()`
  pub iso : ℕ → String
  -- `new Date(s).getTime()`, with `none` for NaN
  pub parse_date : String → Option ℕ
  -- a number in a template literal, and `String(n)`
  pub show : ℕ → String
  -- `s.slice(0, 10)` of an ISO time: its day
  pub day : String → String
  -- `a.localeCompare(b) <= 0`
  pub collates : String → String → Bool

-- A valid date survives its ISO text.
pub record IsRuntime (h : Host) : Type 0 where
  pub parse-iso : (n : ℕ) → h.parse_date (h.iso n) ≡ some n

-- `localeCompare` orders the texts.
pub record IsCollation (h : Host) : Type 0 where
  pub collates_trans :
      (a b c : String) → h.collates a b ≡ true → h.collates b c ≡ true → h.collates a c ≡ true

infix 50 ◌===◌
abbrev pub ◌===◌ : String → String → Bool
◌===◌ = str_eq

-- The parts of a template literal, joined.
infixr 65 ◌<>◌
abbrev pub ◌<>◌ : String → String → String
◌<>◌ = append

-- Two optional texts are the same, as `===` finds undefined and null apart from every text.
abbrev pub same_text : Option String → String → Bool
same_text none s = false
same_text (some r) s = str_eq r s

module _ ⦃h : Host⦄ where
  -- `a < b` under `localeCompare`
  abbrev pub precedes : String → String → Bool
  precedes a b = h.collates a b && not (h.collates b a)
