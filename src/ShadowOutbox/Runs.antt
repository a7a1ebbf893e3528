-- ===== src/ShadowOutbox/Runs.antt =====
-- packages/db/src/repositories/shadow-jev-outbox-repository.ts: the invariant of the queue over every
-- sequence of transactions.
use grid_bot.Common.{
  ℕ, ◌≡◌, refl, subst, true, Option, none, some, ◌∷◌, String, find-Mem, find-holds, if-both,
  false≢true, eq_iff, and-left, update_rows,
}
use grid_bot.Float.{Float}
use grid_bot.Host.{Host, ◌===◌}
use grid_bot.ShadowHash.{Digest}
use grid_bot.ShadowOutbox.Rows.{JobRow, Outbox, Store, is_processing, is_completed, find_job}
use grid_bot.ShadowOutbox.Report.{
  completion_time, failure_time, Completion, Failure, complete, complete_at, complete_owned,
  completed_job, completed_attempt, fail, fail_at, fail_owned, failed_job, failed_attempt, is_owned,
  repeat_completion, compare_hashes, is_same_failure,
}
use grid_bot.ShadowOutbox.Steps.{
  Step, Run, enqueueing, claiming, completing, failing, start, then_step,
}
use grid_bot.ShadowOutbox.Sound.{
  IsSound, Holds, require-Holds, record_attempt-Holds, Holds-at, report-IsSound, enqueue-IsSound,
  claim-IsSound,
}

module _ {D : Type 0} where
  owned_processing :
      (w : String) (t : ℕ) (j : JobRow D) → is_owned w t j ≡ true → is_processing j.status ≡ true
  unfolding is_owned
  owned_processing w t j e = and-left _ _ e

  complete_owned-IsSound :
      (s : Store D) (i : Completion D) (j : JobRow D) (db : Outbox D)
      → find_job db.jobs i.job_id ≡ some j
      → is_owned i.worker_id (completion_time i) j ≡ true
      → IsSound db
      → Holds IsSound (complete_owned s i j db)
  unfolding complete_owned
  complete_owned-IsSound s i j db e o h = record_attempt-Holds IsSound _ tt _ (
      subst
        (λ k. IsSound (record {
          jobs = update_rows (λ q. q.id === k) (completed_job s i) db.jobs;
          attempts = completed_attempt s i j ∷ db.attempts;
        }))
        ((eq_iff j.id i.job_id).0 (find-holds _ db.jobs j e))
        (report-IsSound db j (completed_attempt s i j) (completed_job s i) (find-Mem _ db.jobs j e)
          (owned_processing _ _ j o) refl refl
          (λ q. record {
            same_id = refl;
            same_count = refl;
            over = refl;
            unclaimed = refl;
            untimed = refl;
            closed = λ _. refl;
          })
          h))

  fail_owned-IsSound :
      (s : Store D) (i : Failure D) (j : JobRow D) (db : Outbox D)
      → find_job db.jobs i.job_id ≡ some j
      → is_owned i.worker_id (failure_time i) j ≡ true
      → IsSound db
      → Holds IsSound (fail_owned s i j db)
  unfolding fail_owned
  fail_owned-IsSound s i j db e o h = record_attempt-Holds IsSound _ tt _ (
      subst
        (λ k. IsSound (record {
          jobs = update_rows (λ q. q.id === k) (failed_job s i) db.jobs;
          attempts = failed_attempt s i j ∷ db.attempts;
        }))
        ((eq_iff j.id i.job_id).0 (find-holds _ db.jobs j e))
        (report-IsSound db j (failed_attempt s i j) (failed_job s i) (find-Mem _ db.jobs j e)
          (owned_processing _ _ j o) refl refl
          (λ q. record {
            same_id = refl;
            same_count = refl;
            over = refl;
            unclaimed = refl;
            untimed = refl;
            closed = λ t. elim (false≢true t) [ ];
          })
          h))

  fail-IsSound :
      (s : Store D) (i : Failure D) (db : Outbox D) → IsSound db → Holds IsSound (fail s i db)
  unfolding fail
  fail-IsSound s i db h = require-Holds IsSound _ _ _ (λ _.
      require-Holds IsSound _ _ _
        (λ _. require-Holds IsSound _ _ _ (λ _. at (find_job db.jobs i.job_id) refl)))
    where
      at :
          (o : Option (JobRow D)) → find_job db.jobs i.job_id ≡ o → Holds IsSound (fail_at s i o db)
      at none e = tt
      at (some j) e =
          if-both (Holds IsSound) (is_owned i.worker_id (failure_time i) j) _ _
            (λ o. fail_owned-IsSound s i j db e o h)
            (λ _. require-Holds IsSound (is_same_failure i j db.attempts) _ _ (λ _. h))

-- The comparison of two hashes changes nothing.
pub compare_hashes-Holds :
    {D : Type 0} (P : Outbox D → Type 0) (a b : Option String) (db : Outbox D)
    → P db
    → Holds P (compare_hashes a b db)
compare_hashes-Holds P none b db h = tt
compare_hashes-Holds P (some a) none db h = tt
compare_hashes-Holds P (some a) (some b) db h = require-Holds P (a === b) _ _ (λ _. h)

module _ {D : Type 0} ⦃f : Float D⦄ ⦃host : Host⦄ (g : Digest D) (s : Store D) where
  repeat_completion-IsSound :
      (i : Completion D) (j : JobRow D) (db : Outbox D)
      → IsSound db
      → Holds IsSound (repeat_completion g s i j db)
  unfolding repeat_completion
  repeat_completion-IsSound i j db h =
      if-both (Holds IsSound) (is_completed j.status) _ _
        (λ _. compare_hashes-Holds IsSound _ _ db h) (λ _. tt)

  complete-IsSound :
      (i : Completion D) (db : Outbox D) → IsSound db → Holds IsSound (complete g s i db)
  unfolding complete
  complete-IsSound i db h = require-Holds IsSound _ _ _ (λ _. at (find_job db.jobs i.job_id) refl)
    where
      at :
          (o : Option (JobRow D))
          → find_job db.jobs i.job_id ≡ o
          → Holds IsSound (complete_at g s i o db)
      at none e = tt
      at (some j) e =
          if-both (Holds IsSound) (is_owned i.worker_id (completion_time i) j) _ _
            (λ o. complete_owned-IsSound s i j db e o h) (λ _. repeat_completion-IsSound i j db h)

  Step-IsSound : (db db' : Outbox D) → IsSound db → Step g s db db' → IsSound db'
  Step-IsSound db _ h (enqueueing i db' e) = Holds-at IsSound _ tt db' (enqueue-IsSound i db h) e
  Step-IsSound db _ h (claiming locked i ids db' e) =
      Holds-at IsSound _ ids db' (claim-IsSound s locked i db h) e
  Step-IsSound db _ h (completing i db' e) = Holds-at IsSound _ tt db' (complete-IsSound i db h) e
  Step-IsSound db _ h (failing i db' e) = Holds-at IsSound _ tt db' (fail-IsSound s i db h) e

  -- Whatever the workers do, in whatever order, with whatever clocks: if at the start each job has its
  -- ended attempts recorded under the numbers from 1 on, once each, has an owner and a lease exactly
  -- while it is in work, and is closed once it is completed, and each attempt has its job, then so it
  -- is at the end.
  pub Run-IsSound : (db db' : Outbox D) → IsSound db → Run g s db db' → IsSound db'
  Run-IsSound db _ h start = h
  Run-IsSound db _ h (then_step mid db' run step) =
      Step-IsSound mid db' (Run-IsSound db mid h run) step
