-- ===== src/ShadowOutbox/Refinement.antt =====
-- packages/db/src/repositories/shadow-jev-outbox-repository.ts: a transaction of the queue is a move of
-- each of its jobs.
use grid_bot.Common.{
  [], List, ◌≡◌, refl, sym, ap, subst, ◌∙◌, true, Option, none, some, ◌∷◌, All-at, find-Mem,
  find-holds, if-both, eq_iff, update_rows,
}
use grid_bot.Float.{Float}
use grid_bot.Host.{Host, ◌===◌}
use grid_bot.ShadowHash.{Digest}
use grid_bot.ShadowOutbox.Rows.{JobRow, Outbox, Store, is_completed, find_job}
use grid_bot.ShadowOutbox.Report.{
  failure_time, completion_time, completed_attempt, Completion, complete, complete_at,
  complete_owned, completed_job, is_owned, repeat_completion,
}
use grid_bot.ShadowOutbox.Steps.{
  Step, Run, enqueueing, claiming, completing, failing, start, then_step,
}
use grid_bot.ShadowOutbox.Sound.{IsSound, Holds, require-Holds, record_attempt-Holds, Holds-at}
use grid_bot.ShadowOutbox.Runs.{compare_hashes-Holds, Run-IsSound}
use grid_bot.ShadowOutbox.Machine.{
  claims, Move, adds, closed, rest, Moves, Act, reports, none_yet, then_move, Moves-closed, view,
}
use grid_bot.ShadowOutbox.Moved.{
  at_id, IsMoved, moved, named, completed-Move, enqueue-IsMoved, claim-IsMoved, fail-IsMoved,
}

module _ {D : Type 0} ⦃f : Float D⦄ ⦃host : Host⦄ (g : Digest D) (s : Store D) where
  complete-IsMoved :
      (i : Completion D) (db : Outbox D) (j : JobRow D)
      → IsSound db
      → find_job db.jobs j.id ≡ some j
      → Holds (IsMoved (reports i.job_id i.worker_id (completion_time i)) j) (complete g s i db)
  unfolding complete complete_owned repeat_completion
  complete-IsMoved i db j h e = require-Holds _ _ _ _ (λ _. at (find_job db.jobs i.job_id) refl)
    where
      at :
          (o : Option (JobRow D))
          → find_job db.jobs i.job_id ≡ o
          → Holds
              (IsMoved (reports i.job_id i.worker_id (completion_time i)) j)
              (complete_at g s i o db)
      at none d = tt
      at (some q) d =
          if-both (Holds (IsMoved (reports i.job_id i.worker_id (completion_time i)) j))
            (is_owned i.worker_id (completion_time i) q) _ _
            (λ o.
              record_attempt-Holds (IsMoved (reports i.job_id i.worker_id (completion_time i)) j)
                (completed_attempt s i q) tt
                (record db {
                  jobs = update_rows (λ r. r.id === i.job_id) (completed_job s i) db.jobs;
                })
                (moved (reports i.job_id i.worker_id (completion_time i)) (λ r. r.id === i.job_id)
                  (completed_job s i) (λ r. refl) (completed_attempt s i q ∷ db.attempts) db.jobs j
                  e
                  (λ b.
                    at_id (reports i.job_id i.worker_id (completion_time i)) i.job_id j
                      (view (completed_job s i j)) b
                      (completed-Move s i db.attempts j
                        (All-at _ db.jobs j h.sound (find-Mem _ db.jobs j e))
                        (subst (λ r. is_owned i.worker_id (completion_time i) r ≡ true)
                          (named db.jobs i.job_id j q e d b) o)))))
            (λ _.
              if-both (Holds (IsMoved (reports i.job_id i.worker_id (completion_time i)) j))
                (is_completed q.status) _ _
                (λ _.
                  compare_hashes-Holds
                    (IsMoved (reports i.job_id i.worker_id (completion_time i)) j) _ _ db
                    (j, e, rest (reports i.job_id i.worker_id (completion_time i)) (view j)))
                (λ _. tt))

  -- The act of a step, as its input says, and the acts of a run, the latest first.
  abbrev pub act_of : {db db' : Outbox D} → Step g s db db' → Act
  act_of (enqueueing i db' d) = adds
  act_of (claiming locked i ids db' d) = claims i.worker_id i.now
  act_of (completing i db' d) = reports i.job_id i.worker_id (completion_time i)
  act_of (failing i db' d) = reports i.job_id i.worker_id (failure_time i)

  abbrev pub acts_of : {db db' : Outbox D} → Run g s db db' → List Act
  acts_of start = []
  acts_of (then_step mid db' run step) = act_of step ∷ acts_of run

  Step-IsMoved :
      (db db' : Outbox D) (j : JobRow D)
      → IsSound db
      → find_job db.jobs j.id ≡ some j
      → (step : Step g s db db') → IsMoved (act_of step) j db'
  Step-IsMoved db _ j h e (enqueueing i db' d) = Holds-at _ _ tt db' (enqueue-IsMoved i db j e) d
  Step-IsMoved db _ j h e (claiming locked i ids db' d) =
      Holds-at _ _ ids db' (claim-IsMoved s locked i db j h e) d
  Step-IsMoved db _ j h e (completing i db' d) = Holds-at _ _ tt db' (complete-IsMoved i db j h e) d
  Step-IsMoved db _ j h e (failing i db' d) = Holds-at _ _ tt db' (fail-IsMoved s i db j h e) d

  -- From a sound queue on, whatever the workers do: a job stays in the tables, and the acts of the run,
  -- one after another, each leave it at rest or make a move of its contract. It is taken only by a
  -- claim, by the worker who claims, when it is due or its lease has ended, for one attempt more; it is
  -- settled or given back only by a report on this job from the worker who holds it, while the lease
  -- runs.
  pub Run-refines :
      (db db' : Outbox D) (j : JobRow D)
      → IsSound db
      → find_job db.jobs j.id ≡ some j
      → (run : Run g s db db')
      → (k : JobRow D) × (find_job db'.jobs j.id ≡ some k)
        × Moves j.id (view j) (acts_of run) (view k)
  Run-refines db _ j h e start = (j, e, none_yet)
  Run-refines db _ j h e (then_step mid db' run step) =
      let k = Run-refines db mid j h e run in
      let same = (eq_iff k.0.id j.id).0 (find-holds _ mid.jobs k.0 k.1) in
      let m =
        Step-IsMoved mid db' k.0 (Run-IsSound g s db mid h run) (ap (find_job mid.jobs) same ∙ k.1)
          step in
      (
        m.0,
        ap (find_job db'.jobs) (sym same) ∙ m.1,
        then_move (acts_of run) (act_of step) (view k.0) (view m.0) k.2
            (subst (λ x. Move x (act_of step) (view k.0) (view m.0)) same m.2),
      )

  -- A settled job is never taken again, and gets no more attempts.
  pub Run-settled :
      (db db' : Outbox D) (j : JobRow D)
      → IsSound db
      → find_job db.jobs j.id ≡ some j
      → j.terminal ≡ true
      → Run g s db db'
      → (k : JobRow D) × (find_job db'.jobs j.id ≡ some k) × (view k ≡ closed j.attempt_count)
  Run-settled db db' j h e t run =
      let k = Run-refines db db' j h e run in
      (
        k.0,
        k.1,
        Moves-closed j.id j.attempt_count (acts_of run) (view k.0)
            (subst (λ v. Moves j.id v (acts_of run) (view k.0)) (settled_view j t) k.2),
      )
    where
      settled_view : (q : JobRow D) → q.terminal ≡ true → view q ≡ closed q.attempt_count
      settled_view q t = rw t refl
