-- ===== src/ShadowOutbox/Moved.antt =====
-- packages/db/src/repositories/shadow-jev-outbox-repository.ts: what claim, fail and the insertion of a
-- job do to one row.
use grid_bot.Common.{
  ℕ, ◌+◌, ◌≤◌, ◌≡◌, refl, sym, ap, subst, ◌∙◌, Bool, true, false, not, ◌&&◌, Option, none, some,
  List, ◌∷◌, String, arith, inl, inr, any, foldl, All-at, any-false, find-Mem, if◌then◌else◌,
  if-both, false≢true, leb, leb→le, or_else, some-injective, eq_iff, and-left, and-right,
  update_rows, keyed_unique, by_key-update_rows, str_eq_sym, or-cases, any-All,
}
use grid_bot.Host.{◌===◌, same_text}
use grid_bot.ShadowOutbox.Rows.{
  OutboxStatus, JobRow, AttemptRow, Outbox, Store, is_processing, is_waiting, find_job,
}
use grid_bot.ShadowOutbox.Claim.{
  record_abandoned, ClaimInput, claim, claim_in, lease_all, lease_of, leased, is_among,
  is_claimable, has_lapsed, candidates, limit_of,
}
use grid_bot.ShadowOutbox.Report.{
  ends_job, completion_time, failure_time, failed_attempt, Completion, Failure, completed_job, fail,
  fail_at, fail_owned, failed_job, is_owned, runs_until, is_same_failure, retry_time,
}
use grid_bot.ShadowOutbox.Steps.{enqueue, NewJob}
use grid_bot.ShadowOutbox.Leases.{candidates-All}
use grid_bot.ShadowOutbox.Sound.{IsSound, IsSoundJob, Holds, require-Holds, record_attempt-Holds}
use grid_bot.ShadowOutbox.Machine.{
  View, free, taken, closed, Move, rest, take_free, take_lapsed, settle, give_back, Act, adds,
  claims, reports, view,
}

waiting_not_processing : (s : OutboxStatus) → is_waiting s ≡ true → is_processing s ≡ false
waiting_not_processing s e = ground arith

not-true : (b : Bool) → not b ≡ true → b ≡ false
not-true b e = ground arith

lapsed-le : (lease : Option ℕ) (now : ℕ) → has_lapsed lease now ≡ true → or_else lease 0 ≤ now
lapsed-le none now e = elim (false≢true e) [ ]
lapsed-le (some t) now e = leb→le t now e

runs-le : (lease : Option ℕ) (now : ℕ) → runs_until lease now ≡ true → now ≤ or_else lease 0
runs-le none now e = elim (false≢true e) [ ]
runs-le (some t) now e = leb→le now t e

owner-eq : (o : Option String) (w : String) → same_text o w ≡ true → or_else o "" ≡ w
owner-eq none w e = elim (false≢true e) [ ]
owner-eq (some v) w e = (eq_iff v w).0 e

module _ {D : Type 0} where
  -- the job of an id is in the tables, where one move has brought it
  abbrev pub IsMoved : Act → JobRow D → Outbox D → Type 0
  IsMoved a j db = (k : JobRow D) × (find_job db.jobs j.id ≡ some k) × Move j.id a (view j) (view k)

  -- the view of a job in work
  view-taken :
      (j : JobRow D)
      → is_processing j.status ≡ true
      → j.terminal ≡ false
      → view j ≡ taken (or_else j.claimed_by "") (or_else j.lease_expires_at 0) j.attempt_count
  view-taken j p t = rw (t, p) refl

  view-free :
      (j : JobRow D)
      → is_processing j.status ≡ false
      → j.terminal ≡ false
      → view j ≡ free j.available_at j.attempt_count
  view-free j p t = rw (t, p) refl

  -- A job that can be claimed is free, or its lease has ended.
  leased-Move :
      (i : ClaimInput) (attempts : List (AttemptRow D)) (j : JobRow D)
      → IsSoundJob attempts j
      → is_claimable i.now j ≡ true
      → Move j.id (claims i.worker_id i.now) (view j) (view (leased i j))
  unfolding is_claimable
  leased-Move i attempts j s e =
      elim (or-cases (is_waiting j.status && (not j.terminal && leb j.available_at i.now))
        (is_processing j.status && has_lapsed j.lease_expires_at i.now) e) [
          | inl w ↦
              subst (λ v. Move j.id (claims i.worker_id i.now) v (view (leased i j)))
                (sym (
                  view-free j (waiting_not_processing j.status (and-left _ _ w))
                    (not-true j.terminal (and-left _ _ (and-right _ _ w)))))
                (take_free j.available_at j.attempt_count i.now (i.now + lease_of i) i.worker_id
                  (leb→le _ _ (and-right _ _ (and-right _ _ w))) (omega arith))
          | inr p ↦
              subst (λ v. Move j.id (claims i.worker_id i.now) v (view (leased i j)))
                (sym (view-taken j (and-left _ _ p) (s.open_end (and-left _ _ p))))
                (take_lapsed _ i.worker_id _ j.attempt_count i.now (i.now + lease_of i)
                  (lapsed-le j.lease_expires_at i.now (and-right _ _ p)) (omega arith))
        ]

  -- the view of a job whose owner reports
  owned-view :
      (w : String) (now : ℕ) (attempts : List (AttemptRow D)) (j : JobRow D)
      → IsSoundJob attempts j
      → is_owned w now j ≡ true
      → (now ≤ or_else j.lease_expires_at 0)
        × (view j ≡ taken w (or_else j.lease_expires_at 0) j.attempt_count)
  unfolding is_owned
  owned-view w now attempts j s o = (
    runs-le j.lease_expires_at now (and-right _ _ (and-right _ _ o)),
    view-taken j (and-left _ _ o) (s.open_end (and-left _ _ o))
        ∙ ap (λ v. taken v (or_else j.lease_expires_at 0) j.attempt_count)
            (owner-eq j.claimed_by w (and-left _ _ (and-right _ _ o))),
  )

  pub completed-Move :
      (s : Store D) (i : Completion D) (attempts : List (AttemptRow D)) (j : JobRow D)
      → IsSoundJob attempts j
      → is_owned i.worker_id (completion_time i) j ≡ true
      → Move i.job_id
          (reports i.job_id i.worker_id (completion_time i))
          (view j)
          (view (completed_job s i j))
  completed-Move s i attempts j h o =
      let v = owned-view i.worker_id (completion_time i) attempts j h o in
      subst
        (λ x.
          Move i.job_id (reports i.job_id i.worker_id (completion_time i)) x
            (closed j.attempt_count))
        (sym v.1)
        (settle i.worker_id (or_else j.lease_expires_at 0) j.attempt_count (completion_time i) v.0)

  failed-Move :
      (s : Store D) (i : Failure D) (attempts : List (AttemptRow D)) (j : JobRow D)
      → IsSoundJob attempts j
      → is_owned i.worker_id (failure_time i) j ≡ true
      → leb (failure_time i) (retry_time i) ≡ true
      → Move i.job_id
          (reports i.job_id i.worker_id (failure_time i))
          (view j)
          (view (failed_job s i j))
  failed-Move s i attempts j h o e =
      let v = owned-view i.worker_id (failure_time i) attempts j h o in
      subst
        (λ x.
          Move i.job_id (reports i.job_id i.worker_id (failure_time i)) x (view (failed_job s i j)))
        (sym v.1)
        (if-both
          (λ x.
            Move i.job_id (reports i.job_id i.worker_id (failure_time i))
              (taken i.worker_id (or_else j.lease_expires_at 0) j.attempt_count) x)
          (ends_job i) _ _
          (λ _.
            settle i.worker_id (or_else j.lease_expires_at 0) j.attempt_count (failure_time i) v.0)
          (λ _.
            give_back i.worker_id (or_else j.lease_expires_at 0) j.attempt_count (failure_time i)
              (retry_time i) v.0 (leb→le _ _ e)))

  -- a move of the job that an act names
  pub at_id :
      (a : Act) (id : String) (j : JobRow D) (v : View)
      → (j.id === id) ≡ true
      → Move id a (view j) v
      → Move j.id a (view j) v
  at_id a id j v e move = subst (λ x. Move x a (view j) v) (sym ((eq_iff j.id id).0 e)) move

  -- The job of an id after an update.
  pub moved :
      (a : Act) (p : JobRow D → Bool) (g : JobRow D → JobRow D)
      (keeps : (q : JobRow D) → (g q).id ≡ q.id) (attempts : List (AttemptRow D))
      (jobs : List (JobRow D)) (j : JobRow D)
      → find_job jobs j.id ≡ some j
      → (p j ≡ true → Move j.id a (view j) (view (g j)))
      → IsMoved a j (record { jobs = update_rows p g jobs; attempts = attempts })
  moved a p g keeps attempts jobs j e move = (
    (if p j then g j else j),
    by_key-update_rows (λ q. q.id) p g keeps j.id jobs j e,
    if-both (λ q. Move j.id a (view j) (view q)) (p j) _ _ move (λ _. rest a (view j)),
  )

  lease_all-IsMoved :
      (s : Store D) (locked : String → Bool) (i : ClaimInput) (db : Outbox D) (j : JobRow D)
      → IsSound db
      → find_job db.jobs j.id ≡ some j
      → IsMoved
          (claims i.worker_id i.now)
          j
          (lease_all i (candidates s locked (limit_of i) i.now db.jobs) db)
  unfolding lease_all
  lease_all-IsMoved s locked i db j h e =
      moved (claims i.worker_id i.now) (is_among cs) (leased i) (λ q. refl)
        (foldl (record_abandoned i.now) db.attempts cs) db.jobs j e
        (λ t.
          let c =
            any-All _ (λ c. c.id === j.id) cs t
              (candidates-All s locked (limit_of i) i.now _ db.jobs
                (keyed_unique (λ q. q.id) j db.jobs h.keyed (find-Mem _ db.jobs j e))) in
          leased-Move i db.attempts j (All-at _ db.jobs j h.sound (find-Mem _ db.jobs j e))
            (subst (λ q. is_claimable i.now q ≡ true) (c.2.0 c.1) (and-left _ _ c.2.1)))
    where
      cs : List (JobRow D)
      cs = candidates s locked (limit_of i) i.now db.jobs

  pub enqueue-IsMoved :
      (i : NewJob) (db : Outbox D) (j : JobRow D)
      → find_job db.jobs j.id ≡ some j
      → Holds (IsMoved adds j) (enqueue i db)
  unfolding enqueue
  enqueue-IsMoved i db j e =
      if-both (Holds (IsMoved adds j)) (any (λ q. q.observation_id === i.observation_id) db.jobs) _
        _ (λ _. (j, e, rest adds (view j)))
        (λ _.
          if-both (Holds (IsMoved adds j)) (any (λ q. q.id === i.id) db.jobs) _ _ (λ _. tt)
            (λ fresh. (
              j,
              rw
                  (str_eq_sym j.id i.id
                    (All-at _ db.jobs j (any-false _ db.jobs fresh) (find-Mem _ db.jobs j e)))
                  e,
              rest adds (view j),
            )))

  pub claim-IsMoved :
      (s : Store D) (locked : String → Bool) (i : ClaimInput) (db : Outbox D) (j : JobRow D)
      → IsSound db
      → find_job db.jobs j.id ≡ some j
      → Holds (IsMoved (claims i.worker_id i.now) j) (claim s locked i db)
  unfolding claim claim_in
  claim-IsMoved s locked i db j h e = require-Holds _ _ _ _ (λ _. require-Holds _ _ _ _ (λ _.
      require-Holds _ _ _ _
        (λ _. require-Holds _ _ _ _ (λ _. lease_all-IsMoved s locked i db j h e))))

  -- the row of the id that a report names
  pub named :
      (jobs : List (JobRow D)) (id : String) (j q : JobRow D)
      → find_job jobs j.id ≡ some j
      → find_job jobs id ≡ some q
      → (j.id === id) ≡ true
      → q ≡ j
  named jobs id j q e d t =
      some-injective _ _ (sym d ∙ (ap (find_job jobs) (sym ((eq_iff j.id id).0 t)) ∙ e))

  pub fail-IsMoved :
      (s : Store D) (i : Failure D) (db : Outbox D) (j : JobRow D)
      → IsSound db
      → find_job db.jobs j.id ≡ some j
      → Holds (IsMoved (reports i.job_id i.worker_id (failure_time i)) j) (fail s i db)
  unfolding fail fail_owned
  fail-IsMoved s i db j h e = require-Holds _ _ _ _ (λ _.
      require-Holds _ _ _ _
        (λ _. require-Holds _ _ _ _ (λ t. at t (find_job db.jobs i.job_id) refl)))
    where
      at :
          leb (failure_time i) (retry_time i) ≡ true
          → (o : Option (JobRow D)) → find_job db.jobs i.job_id ≡ o
          → Holds (IsMoved (reports i.job_id i.worker_id (failure_time i)) j) (fail_at s i o db)
      at t none d = tt
      at t (some q) d =
          if-both (Holds (IsMoved (reports i.job_id i.worker_id (failure_time i)) j))
            (is_owned i.worker_id (failure_time i) q) _ _
            (λ o.
              record_attempt-Holds (IsMoved (reports i.job_id i.worker_id (failure_time i)) j)
                (failed_attempt s i q) tt
                (record db { jobs = update_rows (λ r. r.id === i.job_id) (failed_job s i) db.jobs })
                (moved (reports i.job_id i.worker_id (failure_time i)) (λ r. r.id === i.job_id)
                  (failed_job s i) (λ r. refl) (failed_attempt s i q ∷ db.attempts) db.jobs j e
                  (λ b.
                    at_id (reports i.job_id i.worker_id (failure_time i)) i.job_id j
                      (view (failed_job s i j)) b
                      (failed-Move s i db.attempts j
                        (All-at _ db.jobs j h.sound (find-Mem _ db.jobs j e))
                        (subst (λ r. is_owned i.worker_id (failure_time i) r ≡ true)
                          (named db.jobs i.job_id j q e d b) o)
                        t))))
            (λ _.
              require-Holds (IsMoved (reports i.job_id i.worker_id (failure_time i)) j)
                (is_same_failure i q db.attempts) _ _
                (λ _. (j, e, rest (reports i.job_id i.worker_id (failure_time i)) (view j))))
