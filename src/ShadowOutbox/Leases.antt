-- ===== src/ShadowOutbox/Leases.antt =====
-- packages/db/src/repositories/shadow-jev-outbox-repository.ts, claim: the attempts that a claim records
-- for lapsed leases.
use grid_bot.Common.{
  ℕ, zero, suc, ◌-◌, ◌≤◌, ◌≡◌, refl, sym, ap, ◌∙◌, Bool, true, false, not, ◌&&◌, ◌||◌, List, [],
  ◌∷◌, String, arith, inl, inr, any, foldl, Bool-cases, All, All-sort_by, All-keep_with,
  if◌then◌else◌, if-both, leb, eq_refl, or-true, or-false, or_assoc, take,
}
use grid_bot.Host.{◌===◌}
use grid_bot.ShadowOutbox.Rows.{JobRow, AttemptRow, Store, is_processing, is_attempt}
use grid_bot.ShadowOutbox.Claim.{
  record_abandoned, abandoned_attempt, is_among, candidates, is_older, is_claimable,
}
use grid_bot.ShadowOutbox.Numbers.{
  countdown, numbers, settled_attempts, any-attempt, numbers-other, numbers-own,
}

-- the attempts of a job that have ended, when a claim has recorded that of its lapsed lease or not
abbrev pub ended_after : {D : Type 0} → Bool → JobRow D → ℕ
ended_after b j = if b then j.attempt_count else settled_attempts j

-- a job of which a lease is the last attempt
abbrev pub IsStarted : {D : Type 0} → JobRow D → Type 0
IsStarted j = is_processing j.status ≡ true → 1 ≤ j.attempt_count

module _ {D : Type 0} (now : ℕ) (j : JobRow D) (first_lease : IsStarted j) where
  not_yet :
      (attempts : List (AttemptRow D)) (b : Bool)
      → is_processing j.status ≡ true
      → numbers j.id attempts ≡ countdown (ended_after b j)
      → any (is_attempt j.id j.attempt_count) attempts ≡ b
  not_yet attempts b p e =
      any-attempt j.id j.attempt_count (ended_after b j) attempts e
      ∙ test b (is_processing j.status) j.attempt_count p (first_lease p)
    where
      test :
          (b q : Bool) (n : ℕ)
          → q ≡ true
          → 1 ≤ n
          → (leb 1 n && leb n (if b then n else if q then n - 1 else n)) ≡ b
      test b q n e m = ground arith

  abandon_self :
      (attempts : List (AttemptRow D)) (b : Bool)
      → numbers j.id attempts ≡ countdown (ended_after b j)
      → numbers j.id (record_abandoned now attempts j) ≡ countdown j.attempt_count
  abandon_self attempts b e = elim (Bool-cases (is_processing j.status)) [
    | inr p ↦ rw p (e ∙ ap countdown (resting b (is_processing j.status) j.attempt_count p))
    | inl p ↦ elim (Bool-cases b) [
      | inl t ↦
          rw (p, not_yet attempts b p e, t)
            (e ∙ ap (λ c. countdown (if c then j.attempt_count else settled_attempts j)) t)
      | inr t ↦
          rw (p, not_yet attempts b p e, t)
            (numbers-own j.id (abandoned_attempt now j) attempts j.attempt_count
              (j.attempt_count - 1) (eq_refl j.id) refl (first_lease p)
              (e ∙ ap countdown (lapsing b (is_processing j.status) j.attempt_count t p)))
    ]
  ]
    where
      resting : (b q : Bool) (n : ℕ) → q ≡ false → (if b then n else if q then n - 1 else n) ≡ n
      resting b q n e = ground arith

      lapsing :
          (b q : Bool) (n : ℕ)
          → b ≡ false
          → q ≡ true
          → (if b then n else if q then n - 1 else n) ≡ n - 1
      lapsing b q n d e = ground arith

  unchanged : (b : Bool) → countdown (ended_after b j) ≡ countdown (ended_after (b || false) j)
  unchanged b = ap (λ x. countdown (ended_after x j)) (sym (or-false b))

  -- the attempts of the job after a candidate, which is this job or another
  abandon_one :
      (attempts : List (AttemptRow D)) (c : JobRow D) (b : Bool)
      → ((c.id === j.id) ≡ true → c ≡ j)
      → numbers j.id attempts ≡ countdown (ended_after b j)
      → numbers j.id (record_abandoned now attempts c)
        ≡ countdown (ended_after (b || (c.id === j.id)) j)
  abandon_one attempts c b same e = elim (Bool-cases (c.id === j.id)) [
    | inl t ↦ rw t (
        rw (same t) (
          abandon_self attempts b e
          ∙ ap (λ x. countdown (if x then j.attempt_count else settled_attempts j))
              (sym (or-true b))))
    | inr t ↦ rw t (
        if-both (λ rows. numbers j.id rows ≡ countdown (ended_after (b || false) j))
          (is_processing c.status && not (any (is_attempt c.id c.attempt_count) attempts)) _ _
          (λ _. numbers-other j.id (abandoned_attempt now c) attempts t ∙ (e ∙ unchanged b))
          (λ _. e ∙ unchanged b))
  ]

  -- the attempts of the job after a claim of candidates among which a job's id stands for that job
  pub abandoned-numbers :
      (cs : List (JobRow D)) (attempts : List (AttemptRow D)) (b : Bool)
      → All (λ c. (c.id === j.id) ≡ true → c ≡ j) cs
      → numbers j.id attempts ≡ countdown (ended_after b j)
      → numbers j.id (foldl (record_abandoned now) attempts cs)
        ≡ countdown (ended_after (b || is_among cs j) j)
  abandoned-numbers [] attempts b _ e = e ∙ unchanged b
  abandoned-numbers (c ∷ cs) attempts b (same, sames) e =
      abandoned-numbers cs (record_abandoned now attempts c) (b || (c.id === j.id)) sames
        (abandon_one attempts c b same e)
      ∙ ap (λ x. countdown (ended_after x j)) (or_assoc b (c.id === j.id) (is_among cs j))

-- What is chosen from the jobs has what they have, and can be claimed.
pub candidates-All :
    {D : Type 0} (s : Store D) (locked : String → Bool) (limit now : ℕ) (P : JobRow D → Type 0)
    (jobs : List (JobRow D))
    → All P jobs
    → All
        (λ c. P c × ((is_claimable now c && not (locked c.id)) ≡ true))
        (candidates s locked limit now jobs)
unfolding candidates
candidates-All s locked limit now P jobs h =
    All-take _ limit _ (All-sort_by _ (is_older s) _ (All-keep_with P _ jobs h))
  where
    All-take : {A : Type 0} (Q : A → Type 0) (n : ℕ) (xs : List A) → All Q xs → All Q (take n xs)
    All-take Q zero xs _ = tt
    All-take Q (suc n) [] _ = tt
    All-take Q (suc n) (x ∷ xs) (q, qs) = (q, All-take Q n xs qs)

-- The attempts of an id that no candidate has.
pub abandoned-elsewhere :
    {D : Type 0} (now : ℕ) (id : String) (cs : List (JobRow D)) (attempts : List (AttemptRow D))
    → All (λ c. (c.id === id) ≡ false) cs
    → numbers id (foldl (record_abandoned now) attempts cs) ≡ numbers id attempts
abandoned-elsewhere now id [] attempts _ = refl
abandoned-elsewhere now id (c ∷ cs) attempts (t, ts) =
    abandoned-elsewhere now id cs (record_abandoned now attempts c) ts
    ∙ if-both (λ rows. numbers id rows ≡ numbers id attempts)
        (is_processing c.status && not (any (is_attempt c.id c.attempt_count) attempts))
        (abandoned_attempt now c ∷ attempts) attempts
        (λ _. numbers-other id (abandoned_attempt now c) attempts t) (λ _. refl)
