-- ===== src/ShadowOutbox/Steps.antt =====
-- packages/db/src/repositories/shadow-jev-outbox-repository.ts, and the insertion of a job in
-- packages/db/src/repositories/shadow-observation-repository.ts: the transactions on the queue, one
-- after another.
use grid_bot.Common.{ℕ, ◌≡◌, Bool, false, none, List, ◌∷◌, String, any, if◌then◌else◌}
use grid_bot.Float.{Float}
use grid_bot.Host.{Host, ◌===◌}
use grid_bot.ShadowHash.{Digest}
use grid_bot.ShadowOutbox.Rows.{
  pending, JobRow, Outbox, Store, Result, done, refused, duplicate_job, no_evidence, no_error,
}
use grid_bot.ShadowOutbox.Claim.{ClaimInput, claim}
use grid_bot.ShadowOutbox.Report.{Completion, Failure, complete, fail}

-- what `capture` knows of a job; `id` is a random UUID
pub record NewJob : Type 0 where
  pub id : String
  pub observation_id : String
  pub observed_at : ℕ
  pub question_set_version : String
  pub now : ℕ

module _ {D : Type 0} where
  abbrev pub pending_job : NewJob → JobRow D
  pending_job i = record {
    id = i.id;
    observation_id = i.observation_id;
    observed_at = i.observed_at;
    question_set_version = i.question_set_version;
    status = pending;
    terminal = false;
    attempt_count = 0;
    available_at = i.now;
    claimed_at = none;
    lease_expires_at = none;
    claimed_by = none;
    evidence = no_evidence;
    error = no_error;
    completed_at = none;
    failed_at = none;
  }

  -- ON CONFLICT ("observation_id") DO NOTHING
  unfoldable pub enqueue : NewJob → Outbox D → Result D Unit
  enqueue i db =
      if any (λ j. j.observation_id === i.observation_id) db.jobs
      then done tt db
      else if any (λ j. j.id === i.id) db.jobs
      then refused duplicate_job
      else done tt (record db { jobs = pending_job i ∷ db.jobs })

pub data Step {D : Type 0} ⦃f : Float D⦄ ⦃h : Host⦄ (g : Digest D) (s : Store D) (db : Outbox D)
    : Outbox D → Type 0 where
  enqueueing : (i : NewJob) (db' : Outbox D) → enqueue i db ≡ done tt db' → Step g s db db'
  claiming :
      (locked : String → Bool) (i : ClaimInput) (ids : List String) (db' : Outbox D)
      → claim s locked i db ≡ done ids db'
      → Step g s db db'
  completing :
      (i : Completion D) (db' : Outbox D) → complete g s i db ≡ done tt db' → Step g s db db'
  failing : (i : Failure D) (db' : Outbox D) → fail s i db ≡ done tt db' → Step g s db db'

pub data Run {D : Type 0} ⦃f : Float D⦄ ⦃h : Host⦄ (g : Digest D) (s : Store D) (db : Outbox D)
    : Outbox D → Type 0 where
  start : Run g s db db
  then_step : (db' db'' : Outbox D) → Run g s db db' → Step g s db' db'' → Run g s db db''
