-- ===== src/ShadowOutbox/Numbers.antt =====
-- packages/db/src/repositories/shadow-jev-outbox-repository.ts: the numbers of a job's attempts.
use grid_bot.Common.{
  ℕ, zero, suc, ◌-◌, ◌≤◌, ◌≡◌, refl, ap, ◌∙◌, true, false, ◌&&◌, List, [], ◌∷◌, String, arith, inl,
  inr, keep, any, map, Bool-cases, if◌then◌else◌, leb, ◌==◌,
}
use grid_bot.Host.{◌===◌}
use grid_bot.ShadowOutbox.Rows.{JobRow, AttemptRow, is_processing, is_attempt}

-- n, n - 1, ..., 1
abbrev pub countdown : ℕ → List ℕ
countdown zero = []
countdown (suc n) = suc n ∷ countdown n

abbrev pub numbers : {D : Type 0} → String → List (AttemptRow D) → List ℕ
numbers id attempts = map (λ a. a.attempt_number) (keep (λ a. a.outbox_id === id) attempts)

-- the attempts of a job that have ended
abbrev pub settled_attempts : {D : Type 0} → JobRow D → ℕ
settled_attempts j = if is_processing j.status then j.attempt_count - 1 else j.attempt_count

any-countdown : (n m : ℕ) → any (λ k. k == n) (countdown m) ≡ (leb 1 n && leb n m)
any-countdown n zero = ground arith
any-countdown n (suc m) = ground (arith, any-countdown n m)

module _ {D : Type 0} where
  any-attempts :
      (id : String) (n : ℕ) (attempts : List (AttemptRow D))
      → any (is_attempt id n) attempts ≡ any (λ k. k == n) (numbers id attempts)
  any-attempts id n [] = refl
  any-attempts id n (a ∷ rest) = elim (Bool-cases (a.outbox_id === id)) [
    | inl e ↦ rw (e, any-attempts id n rest) refl
    | inr e ↦ rw (e, any-attempts id n rest) refl
  ]

  -- an attempt of this number is there exactly if it has ended
  pub any-attempt :
      (id : String) (n m : ℕ) (attempts : List (AttemptRow D))
      → numbers id attempts ≡ countdown m
      → any (is_attempt id n) attempts ≡ (leb 1 n && leb n m)
  any-attempt id n m attempts e =
      any-attempts id n attempts ∙ ap (any (λ k. k == n)) e ∙ any-countdown n m

  pub numbers-other :
      (id : String) (a : AttemptRow D) (attempts : List (AttemptRow D))
      → (a.outbox_id === id) ≡ false
      → numbers id (a ∷ attempts) ≡ numbers id attempts
  numbers-other id a attempts e = rw e refl

  pub numbers-own :
      (id : String) (a : AttemptRow D) (attempts : List (AttemptRow D)) (n m : ℕ)
      → (a.outbox_id === id) ≡ true
      → a.attempt_number ≡ n
      → 1 ≤ n
      → numbers id attempts ≡ countdown (n - 1)
      → numbers id (a ∷ attempts) ≡ countdown n
  numbers-own id a attempts zero m t e h c = elim h [ ]
  numbers-own id a attempts (suc n) m t e h c = rw t (cong₂ e (c ∙ ap countdown (less n)))
    where
      cong₂ : {k l : ℕ} {ks ls : List ℕ} → k ≡ l → ks ≡ ls → k ∷ ks ≡ l ∷ ls
      cong₂ p q = rw (p, q) refl

      less : (k : ℕ) → suc k - 1 ≡ k
      less k = omega arith
