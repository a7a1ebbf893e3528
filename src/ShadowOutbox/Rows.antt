-- ===== src/ShadowOutbox/Rows.antt =====
-- packages/db/prisma/schema.prisma and the inputs of
-- packages/db/src/repositories/shadow-jev-outbox-repository.ts: the rows, the errors and the checks.
use grid_bot.ShadowHash.{Js}
use grid_bot.Common.{
  ℕ, Bool, true, false, ◌&&◌, Option, none, List, ◌∷◌, String, find, any, if◌then◌else◌, ◌==◌,
}
use grid_bot.Host.{◌===◌}

pub data OutboxStatus : Type 0 where
  pending processing completed failed : OutboxStatus

pub data AttemptStatus : Type 0 where
  completed failed : AttemptStatus

-- the columns that `complete` writes, and a failure may
pub record Evidence (D : Type 0) : Type 0 where
  pub raw_request : Option (Js D)
  pub raw_response : Option (Js D)
  pub probabilities : Option (Js D)
  pub model_version : Option String
  pub latency_ms : Option ℕ

pub record ErrorColumns (D : Type 0) : Type 0 where
  pub error_code : Option String
  pub error_message : Option String
  pub error_details : Option (Js D)

pub record JobRow (D : Type 0) : Type 0 where
  pub id : String
  pub observation_id : String
  pub observed_at : ℕ
  pub question_set_version : String
  pub status : OutboxStatus
  pub terminal : Bool
  pub attempt_count : ℕ
  pub available_at : ℕ
  pub claimed_at : Option ℕ
  pub lease_expires_at : Option ℕ
  pub claimed_by : Option String
  pub evidence : Evidence D
  pub error : ErrorColumns D
  pub completed_at : Option ℕ
  pub failed_at : Option ℕ

pub record AttemptRow (D : Type 0) : Type 0 where
  pub outbox_id : String
  pub attempt_number : ℕ
  pub worker_id : String
  pub status : AttemptStatus
  pub started_at : ℕ
  pub finished_at : ℕ
  pub evidence : Evidence D
  pub error : ErrorColumns D

-- A table is the list of its rows, the latest attempt first.
pub record Outbox (D : Type 0) : Type 0 where
  pub jobs : List (JobRow D)
  pub attempts : List (AttemptRow D)

-- What the database and the runtime do here: the order of `observed_at` and `id` in ORDER BY,
-- `!text.trim()`, `JSON.parse(JSON.stringify(value))`, and the value that a jsonb column gives back for
-- a value written to it.
pub record Store (D : Type 0) : Type 0 where
  pub id_before : String → String → Bool
  pub is_blank : String → Bool
  pub json_value : Js D → Js D
  pub column : Js D → Js D

pub data OutboxError : Type 0 where
  worker_required invalid_limit invalid_lease missing_worker duplicate_attempt lease_lost :
      OutboxError
  invalid_completion invalid_failure message_required invalid_retry unsupported_value
        duplicate_job :
      OutboxError

pub data Result (D A : Type 0) : Type 0 where
  done : A → Outbox D → Result D A
  refused : OutboxError → Result D A

-- `if (!test) throw error`
unfoldable pub require : {D A : Type 0} → Bool → OutboxError → Result D A → Result D A
require true error next = next
require false error next = refused error

abbrev pub is_processing : OutboxStatus → Bool
is_processing processing = true
is_processing _ = false

abbrev pub is_completed : OutboxStatus → Bool
is_completed OutboxStatus.completed = true
is_completed _ = false

abbrev pub is_failed : OutboxStatus → Bool
is_failed OutboxStatus.failed = true
is_failed _ = false

abbrev pub is_waiting : OutboxStatus → Bool
is_waiting pending = true
is_waiting OutboxStatus.failed = true
is_waiting _ = false

abbrev pub no_evidence : {D : Type 0} → Evidence D
no_evidence = record {
  raw_request = none;
  raw_response = none;
  probabilities = none;
  model_version = none;
  latency_ms = none;
}

abbrev pub no_error : {D : Type 0} → ErrorColumns D
no_error = record { error_code = none; error_message = none; error_details = none }

module _ {D : Type 0} where
  abbrev pub find_job : List (JobRow D) → String → Option (JobRow D)
  find_job jobs id = find (λ j. j.id === id) jobs

  abbrev pub is_attempt : String → ℕ → AttemptRow D → Bool
  is_attempt id n a = (a.outbox_id === id) && a.attempt_number == n

  -- The unique index of the attempts refuses a second one with this number.
  unfoldable pub record_attempt : {A : Type 0} → AttemptRow D → A → Outbox D → Result D A
  record_attempt a v db =
      if any (is_attempt a.outbox_id a.attempt_number) db.attempts
      then refused duplicate_attempt
      else done v (record db { attempts = a ∷ db.attempts })
