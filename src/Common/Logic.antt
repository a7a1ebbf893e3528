-- ===== src/Common/Logic.antt =====
-- The parts of a conjunction that holds.
use mathlib.Core.Path.{◌≡◌, refl}
use mathlib.Core.Logic.{◌⊎◌, inl, inr}
use mathlib.Core.Bool.{Bool, true, false, ◌&&◌, ◌||◌}
use native.Mathlib.Omega.{arith}

pub and-left : (a b : Bool) → (a && b) ≡ true → a ≡ true
and-left true b h = refl
and-left false b h = h

pub and-right : (a b : Bool) → (a && b) ≡ true → b ≡ true
and-right true b h = h
and-right false b h = ground arith

pub or-cases : (a b : Bool) → (a || b) ≡ true → (a ≡ true) ⊎ (b ≡ true)
or-cases true b h = inl refl
or-cases false b h = inr h

pub or-false_left : (a b : Bool) → (a || b) ≡ false → a ≡ false
or-false_left true b h = h
or-false_left false b h = refl

pub or-false_right : (a b : Bool) → (a || b) ≡ false → b ≡ false
or-false_right true b h = ground arith
or-false_right false b h = h
