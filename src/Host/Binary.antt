-- ===== src/Host/Binary.antt =====
-- A runtime that writes a number by its binary digits, the lowest first: it shows that the laws of
-- `IsRuntime` can be met, and runs in the tests.
use Prim.Native.Char.{code}
use mathlib.Core.Option
use grid_bot.Common.{
  ℕ, zero, suc, ◌+◌, ◌*◌, ◌/◌, ◌%◌, ◌≤◌, ◌≡◌, true, Option, none, some, String, arith, ◌==◌,
  if◌then◌else◌, inl, inr, Bool-cases,
}
use grid_bot.Host.{Host, IsRuntime}

unfoldable pub write : ℕ → ℕ → String
write zero n = ""
write (suc f) n =
    let low : String = write f (n / 2) in
    if n == 0 then "" else if n % 2 == 0 then String.◌∷◌ "0" low else String.◌∷◌ "1" low

unfoldable pub read : String → Option ℕ
read String.[] = some 0
read (String.◌∷◌ c s) =
    if code c == 48
    then Option.map (λ v. 2 * v) (read s)
    else if code c == 49
    then Option.map (λ v. 2 * v + 1) (read s)
    else none

read-write : (f n : ℕ) → n ≤ f → read (write f n) ≡ some n
unfolding read write
read-write zero n h = ground arith
read-write (suc f) n h = elim (Bool-cases (n == 0)) [
  | inl e ↦ rw e (ground arith)
  | inr e ↦ rw e (elim (Bool-cases (n % 2 == 0)) [
    | inl d ↦ rw d (rw (read-write f (n / 2) (ground arith)) (ground arith))
    | inr d ↦ rw d (rw (read-write f (n / 2) (ground arith)) (ground arith))
  ])
]

abbrev pub binary : Host
binary = record {
  iso = λ n. write n n;
  parse_date = read;
  show = λ n. write n n;
  day = λ s. s;
  collates = λ a b. true;
}

pub binary-IsRuntime : IsRuntime binary
binary-IsRuntime = record { parse-iso = λ n. read-write n n (omega arith) }
