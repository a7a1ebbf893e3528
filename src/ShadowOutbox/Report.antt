-- ===== src/ShadowOutbox/Report.antt =====
-- packages/db/src/repositories/shadow-jev-outbox-repository.ts, complete and fail: a worker reports the
-- result of a job whose lease it holds, or repeats such a report.
use mathlib.Core.Option
use grid_bot.Common.{
  update_rows, ℕ, Bool, true, false, not, ◌&&◌, Option, none, some, List, String, keep, first,
  sort_by, if◌then◌else◌, ltb, leb, ◌==◌, or_else, or_option,
}
use grid_bot.Float.{Float, num}
use grid_bot.Host.{Host, ◌===◌, same_text}
use grid_bot.ShadowHash.{
  Js, Digest, object, field, no_entries, text, number, date, null, canonical_shadow_hash,
}
use grid_bot.ShadowOutbox.Rows.{
  AttemptStatus, OutboxStatus, Evidence, ErrorColumns, JobRow, AttemptRow, Outbox, Store, Result,
  require, refused, done, is_processing, is_completed, is_failed, no_error, find_job,
  record_attempt, invalid_completion, invalid_failure, message_required, invalid_retry, lease_lost,
  unsupported_value,
}

pub record Completion (D : Type 0) : Type 0 where
  pub job_id : String
  pub worker_id : String
  pub raw_request : Js D
  pub raw_response : Js D
  pub probabilities : Js D
  pub model_version : String
  pub latency_ms : ℕ
  pub completed_at : Option ℕ
  pub now : ℕ

-- `input.completedAt ?? new Date()`
abbrev pub completion_time : {D : Type 0} → Completion D → ℕ
completion_time i = or_else i.completed_at i.now

-- `error` as an object; a text is the object with that message
pub record Failure (D : Type 0) : Type 0 where
  pub job_id : String
  pub worker_id : String
  pub code : Option String
  pub message : String
  pub details : Option (Js D)
  pub raw_request : Option (Js D)
  pub raw_response : Option (Js D)
  pub model_version : Option String
  pub latency_ms : Option ℕ
  pub retry_at : Option ℕ
  pub terminal : Option Bool
  pub failed_at : Option ℕ
  pub now : ℕ

-- `input.failedAt ?? new Date()`
abbrev pub failure_time : {D : Type 0} → Failure D → ℕ
failure_time i = or_else i.failed_at i.now

-- `input.terminal ?? false`
abbrev pub ends_job : {D : Type 0} → Failure D → Bool
ends_job i = or_else i.terminal false

-- `leaseExpiresAt: { gte: time }`
abbrev pub runs_until : Option ℕ → ℕ → Bool
runs_until none time = false
runs_until (some t) time = leb time t

module _ {D : Type 0} where
  -- the other columns of `where`, of the row with the job's id
  unfoldable pub is_owned : String → ℕ → JobRow D → Bool
  is_owned worker time j =
      is_processing j.status
      && (same_text j.claimed_by worker && runs_until j.lease_expires_at time)

  abbrev pub evidence_of : Store D → Completion D → Evidence D
  evidence_of s i = record {
    raw_request = some (s.json_value i.raw_request);
    raw_response = some (s.json_value i.raw_response);
    probabilities = some (s.json_value i.probabilities);
    model_version = some i.model_version;
    latency_ms = some i.latency_ms;
  }

  -- the comparison of the hashes; either of them may throw
  abbrev pub compare_hashes : Option String → Option String → Outbox D → Result D Unit
  compare_hashes (some a) (some b) db = require (a === b) lease_lost (done tt db)
  compare_hashes _ _ db = refused unsupported_value

  abbrev pub completed_job : Store D → Completion D → JobRow D → JobRow D
  completed_job s i j = record j {
    evidence = evidence_of s i;
    completed_at = some (completion_time i);
    status = OutboxStatus.completed;
    terminal = true;
    claimed_by = none;
    lease_expires_at = none;
    failed_at = none;
    error = no_error;
  }

  abbrev pub completed_attempt : Store D → Completion D → JobRow D → AttemptRow D
  completed_attempt s i j = record {
    outbox_id = j.id;
    attempt_number = j.attempt_count;
    worker_id = i.worker_id;
    status = AttemptStatus.completed;
    started_at = or_else j.claimed_at (completion_time i);
    finished_at = (completion_time i);
    evidence = evidence_of s i;
    error = no_error;
  }

  -- the transaction, for the owner of the lease
  unfoldable pub complete_owned : Store D → Completion D → JobRow D → Outbox D → Result D Unit
  complete_owned s i j db =
      record_attempt (completed_attempt s i j) tt
        (record db { jobs = update_rows (λ q. q.id === i.job_id) (completed_job s i) db.jobs })

  abbrev pub retry_time : Failure D → ℕ
  retry_time i = if ends_job i then (failure_time i) else or_else i.retry_at (failure_time i)

  abbrev pub failure_evidence : Store D → Failure D → Evidence D → Evidence D
  failure_evidence s i e = record {
    raw_request = Option.map s.json_value i.raw_request;
    raw_response = Option.map s.json_value i.raw_response;
    probabilities = e.probabilities;
    model_version = i.model_version;
    latency_ms = i.latency_ms;
  }

  -- An undefined code leaves the column as it was.
  abbrev pub failure_error : Store D → Failure D → ErrorColumns D
  failure_error s i = record {
    error_code = i.code;
    error_message = some i.message;
    error_details = Option.map s.json_value i.details;
  }

  abbrev pub failed_job : Store D → Failure D → JobRow D → JobRow D
  failed_job s i j = record j {
    status = OutboxStatus.failed;
    terminal = ends_job i;
    available_at = retry_time i;
    failed_at = some (failure_time i);
    claimed_by = none;
    lease_expires_at = none;
    error = record (failure_error s i) { error_code = or_option i.code j.error.error_code };
    evidence = failure_evidence s i j.evidence;
  }

  abbrev pub failed_attempt : Store D → Failure D → JobRow D → AttemptRow D
  failed_attempt s i j = record {
    outbox_id = j.id;
    attempt_number = j.attempt_count;
    worker_id = i.worker_id;
    status = AttemptStatus.failed;
    started_at = or_else j.claimed_at (failure_time i);
    finished_at = (failure_time i);
    evidence = record (failure_evidence s i j.evidence) { probabilities = none };
    error = failure_error s i;
  }

  unfoldable pub fail_owned : Store D → Failure D → JobRow D → Outbox D → Result D Unit
  fail_owned s i j db =
      record_attempt (failed_attempt s i j) tt
        (record db { jobs = update_rows (λ q. q.id === i.job_id) (failed_job s i) db.jobs })

  -- `attempts: { orderBy: { attemptNumber: "desc" }, take: 1 }`
  abbrev pub last_attempt : List (AttemptRow D) → String → Option (AttemptRow D)
  last_attempt attempts id = first (
      sort_by (λ a b. ltb b.attempt_number a.attempt_number)
        (keep (λ a. a.outbox_id === id) attempts))

  abbrev pub is_last_by : String → ℕ → Option (AttemptRow D) → Bool
  is_last_by worker n none = false
  is_last_by worker n (some a) = a.attempt_number == n && (a.worker_id === worker)

  -- a failure that this worker has reported before
  unfoldable pub is_same_failure : Failure D → JobRow D → List (AttemptRow D) → Bool
  is_same_failure i j attempts =
      is_failed j.status && is_last_by i.worker_id j.attempt_count (last_attempt attempts j.id)

  abbrev pub fail_at : Store D → Failure D → Option (JobRow D) → Outbox D → Result D Unit
  fail_at s i none db = refused lease_lost
  fail_at s i (some j) db =
      if is_owned i.worker_id (failure_time i) j
      then fail_owned s i j db
      else require (is_same_failure i j db.attempts) lease_lost (done tt db)

  unfoldable pub fail : Store D → Failure D → Outbox D → Result D Unit
  fail s i db = require (not (i.job_id === "") && not (i.worker_id === "")) invalid_failure (
      require (not (s.is_blank i.message)) message_required (
        require (leb (failure_time i) (retry_time i)) invalid_retry
          (fail_at s i (find_job db.jobs i.job_id) db)))

module _ {D : Type 0} ⦃f : Float D⦄ ⦃h : Host⦄ where
  abbrev pub or_null : Option (Js D) → Js D
  or_null none = null
  or_null (some v) = v

  abbrev pub version_value : Option String → Js D
  version_value none = null
  version_value (some t) = text t

  abbrev pub latency_value : Option ℕ → Js D
  latency_value none = null
  latency_value (some n) = number (num n)

  abbrev pub date_value : Option ℕ → Js D
  date_value none = null
  date_value (some t) = date t

  -- the object of which both sides of the comparison take the hash
  abbrev pub answer_value : Evidence D → Option ℕ → Js D
  answer_value e at = object (
      field "rawRequest" (or_null e.raw_request) (
        field "rawResponse" (or_null e.raw_response) (
          field "probabilities" (or_null e.probabilities) (
            field "modelVersion" (version_value e.model_version) (
              field "latencyMs" (latency_value e.latency_ms)
                (field "completedAt" (date_value at) no_entries))))))

  abbrev pub read_columns : Store D → Evidence D → Evidence D
  read_columns s e = record e {
    raw_request = Option.map s.column e.raw_request;
    raw_response = Option.map s.column e.raw_response;
    probabilities = Option.map s.column e.probabilities;
  }

  -- an earlier report of this answer, read back from its row after the transaction
  unfoldable pub repeat_completion :
      Digest D → Store D → Completion D → JobRow D → Outbox D → Result D Unit
  repeat_completion g s i j db =
      if is_completed j.status
      then compare_hashes
          (canonical_shadow_hash g (answer_value (read_columns s j.evidence) j.completed_at))
          (canonical_shadow_hash g (answer_value (evidence_of s i) (some (completion_time i)))) db
      else refused lease_lost

  abbrev pub complete_at :
      Digest D → Store D → Completion D → Option (JobRow D) → Outbox D → Result D Unit
  complete_at g s i none db = refused lease_lost
  complete_at g s i (some j) db =
      if is_owned i.worker_id (completion_time i) j
      then complete_owned s i j db
      else repeat_completion g s i j db

  unfoldable pub complete : Digest D → Store D → Completion D → Outbox D → Result D Unit
  complete g s i db =
      require
        (not (i.job_id === "") && (not (i.worker_id === "") && not (s.is_blank i.model_version)))
        invalid_completion (complete_at g s i (find_job db.jobs i.job_id) db)
