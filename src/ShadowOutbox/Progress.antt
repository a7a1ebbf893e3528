-- ===== src/ShadowOutbox/Progress.antt =====
-- packages/db/src/repositories/shadow-jev-outbox-repository.ts, claim: how many jobs a worker gets.
use grid_bot.Common.{
  ◌+◌, keyed_found, Mem-any, ◌⊎◌, inl, inr, if◌then◌else◌, by_key-update_rows, eq_refl, ℕ, ◌≤◌, ◌≡◌,
  refl, sym, ap, subst, ◌∙◌, Bool, true, false, not, ◌&&◌, Option, none, some, List, String, arith,
  Memᴰ, keep, any, sort_by, map, length, length-sort_by, All-mono, Mem-keep, length-map, leb, min,
  is_some, is_none, take, length-take, take-all, Mem-sort_by, Mem-map, All-any,
}
use grid_bot.Host.{◌===◌}
use grid_bot.ShadowOutbox.Rows.{
  pending, processing, OutboxStatus, find_job, JobRow, Outbox, Store, done, require, is_processing,
}
use grid_bot.ShadowOutbox.Claim.{
  ClaimInput, claim, leased, is_among, claim_in, lease_all, is_claimable, lacks_worker, candidates,
  is_older, limit_of, lease_of,
}
use grid_bot.ShadowOutbox.Leases.{candidates-All}
use grid_bot.ShadowOutbox.Sound.{IsSound, IsSoundJob}

-- the jobs that a worker may take at a time
abbrev pub due_jobs : {D : Type 0} → (String → Bool) → ℕ → List (JobRow D) → List (JobRow D)
due_jobs locked now jobs = keep (λ j. is_claimable now j && not (locked j.id)) jobs

-- A job waits for a worker from a time on, or its last worker's lease has ended.
pub data IsDue {D : Type 0} (now : ℕ) (j : JobRow D) : Type 0 where
  waits :
      (j.status ≡ pending) ⊎ (j.status ≡ OutboxStatus.failed)
      → j.terminal ≡ false
      → j.available_at ≤ now
      → IsDue now j
  lapsed :
      (end : ℕ) → j.status ≡ processing → j.lease_expires_at ≡ some end → end ≤ now → IsDue now j

-- The row of a job that the worker of a claim holds now.
pub record IsHeldBy {D : Type 0} (i : ClaimInput) (j k : JobRow D) : Type 0 where
  pub in_work : k.status ≡ processing
  pub owner : k.claimed_by ≡ some i.worker_id
  pub lease : k.lease_expires_at ≡ some (i.now + lease_of i)
  pub attempt : k.attempt_count ≡ j.attempt_count + 1

due_claimable :
    {D : Type 0} (now : ℕ) (j : JobRow D) (held : Bool)
    → IsDue now j
    → held ≡ false
    → (is_claimable now j && not held) ≡ true
unfolding is_claimable
due_claimable now j held (waits (inl s) t a) e = rw (s, t, e) (ground arith)
due_claimable now j held (waits (inr s) t a) e = rw (s, t, e) (ground arith)
due_claimable now j held (lapsed end s l a) e = rw (s, l, e) (ground arith)

-- a claim in range
pub record IsValidClaim {D : Type 0} (s : Store D) (i : ClaimInput) : Type 0 where
  pub named : s.is_blank i.worker_id ≡ false
  pub limited : (leb 1 (limit_of i) && leb (limit_of i) 100) ≡ true
  pub timed : (leb 1000 (lease_of i) && leb (lease_of i) 3_600_000) ≡ true

module _ {D : Type 0} (s : Store D) (locked : String → Bool) (i : ClaimInput) (db : Outbox D) where
  -- Every job in work has a worker.
  has_worker : (attempts : _) (j : JobRow D) → IsSoundJob attempts j → lacks_worker j ≡ false
  has_worker attempts j h = test (is_processing j.status) j.claimed_by h.claimed
    where
      test : (b : Bool) (o : Option String) → is_some o ≡ b → (b && is_none o) ≡ false
      test b none e = rw (sym e) refl
      test b (some w) e = ground arith

  claim_done :
      IsSound db
      → IsValidClaim s i
      → claim s locked i db
        ≡ done
            (map (λ c. c.id) (candidates s locked (limit_of i) i.now db.jobs))
            (lease_all i (candidates s locked (limit_of i) i.now db.jobs) db)
  unfolding claim claim_in require
  claim_done h v = rw (v.named, v.limited, v.timed, nobody) refl
    where
      nobody : any lacks_worker (candidates s locked (limit_of i) i.now db.jobs) ≡ false
      nobody = All-any lacks_worker _ (
          All-mono _ _ _ (λ c q. q.0)
            (candidates-All s locked (limit_of i) i.now _ db.jobs
              (All-mono _ _ db.jobs (λ j q. has_worker db.attempts j q) h.sound)))

  -- The row of a job that is leased.
  lease_all-holds :
      (cs : List (JobRow D)) (j : JobRow D)
      → IsSound db
      → Memᴰ j db.jobs
      → Memᴰ j cs
      → (k : JobRow D) × (find_job (lease_all i cs db).jobs j.id ≡ some k) × IsHeldBy i j k
  unfolding lease_all
  lease_all-holds cs j h m c = (
    leased i j,
    by_key-update_rows (λ q. q.id) (is_among cs) (leased i) (λ q. refl) j.id db.jobs j
          (keyed_found (λ q. q.id) j db.jobs h.keyed m)
        ∙ ap (λ b. some (if b then leased i j else j))
            (Mem-any (λ q. q.id === j.id) j cs c (eq_refl j.id)),
    record { in_work = refl; owner = refl; lease = refl; attempt = refl },
  )

  -- A valid claim on a sound queue succeeds. It takes as many jobs as it may, or all that are due and
  -- not held by another transaction. If they are not more than its limit, it takes each of them: it
  -- returns its id, and the worker then holds its row, for one attempt more, until the lease from now
  -- ends. A job is due when it is pending or failed, not settled, and its time has come, or when it is
  -- in work and its lease has ended.
  pub claim-takes :
      IsSound db
      → IsValidClaim s i
      → (ids : List String) × (db' : Outbox D) × (claim s locked i db ≡ done ids db')
        × (length ids ≡ min (limit_of i) (length (due_jobs locked i.now db.jobs)))
        × (length (due_jobs locked i.now db.jobs) ≤ limit_of i
            → (j : JobRow D) → Memᴰ j db.jobs
            → IsDue i.now j
            → locked j.id ≡ false
            → Memᴰ j.id ids × (k : JobRow D) × (find_job db'.jobs j.id ≡ some k) × IsHeldBy i j k)
  unfolding candidates
  claim-takes h v = (
    _,
    _,
    claim_done h v,
    count,
    λ fits j m d l.
        let held = lease_all-holds (take (limit_of i) sorted) j h m (takes_each fits j m d l) in
        (
          Mem-map (λ c. c.id) j (take (limit_of i) sorted) (takes_each fits j m d l),
          held.0,
          held.1,
          held.2,
        ),
  )
    where
      sorted : List (JobRow D)
      sorted = sort_by (is_older s) (due_jobs locked i.now db.jobs)

      same_size : length sorted ≡ length (due_jobs locked i.now db.jobs)
      same_size = length-sort_by (is_older s) (due_jobs locked i.now db.jobs)

      count :
          length (map (λ c. c.id) (take (limit_of i) sorted))
          ≡ min (limit_of i) (length (due_jobs locked i.now db.jobs))
      count =
          length-map (λ c. c.id) (take (limit_of i) sorted)
          ∙ (length-take (limit_of i) sorted ∙ ap (min (limit_of i)) same_size)

      takes_each :
          length (due_jobs locked i.now db.jobs) ≤ limit_of i
          → (j : JobRow D) → Memᴰ j db.jobs
          → IsDue i.now j
          → locked j.id ≡ false
          → Memᴰ j (take (limit_of i) sorted)
      takes_each fits j m d l =
          subst (λ js. Memᴰ j js) (sym (take-all (limit_of i) sorted (omega (arith, same_size))))
            (Mem-sort_by (is_older s) j (due_jobs locked i.now db.jobs) (
              Mem-keep j (λ q. is_claimable i.now q && not (locked q.id)) db.jobs
                (due_claimable i.now j (locked j.id) d l) m))
