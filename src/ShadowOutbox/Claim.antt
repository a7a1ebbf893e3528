-- ===== src/ShadowOutbox/Claim.antt =====
-- packages/db/src/repositories/shadow-jev-outbox-repository.ts, claim: the statement that leases jobs
-- to a worker, and the lapsed leases that it records.
use grid_bot.Common.{
  [], ℕ, ◌+◌, Bool, false, not, ◌&&◌, ◌||◌, Option, none, some, List, ◌∷◌, String, keep, any,
  sort_by, map, foldl, if◌then◌else◌, ltb, leb, ◌==◌, or_else, is_none, update_rows, take,
}
use grid_bot.Host.{◌===◌}
use grid_bot.ShadowOutbox.Rows.{
  OutboxError, AttemptStatus, processing, JobRow, AttemptRow, Outbox, Store, Result, require, done,
  refused, is_processing, is_waiting, no_evidence, no_error, is_attempt, worker_required,
  invalid_limit, invalid_lease, missing_worker,
}

-- `now` is `input.now ?? new Date()`
pub record ClaimInput : Type 0 where
  pub worker_id : String
  pub limit : Option ℕ
  pub lease_ms : Option ℕ
  pub now : ℕ

abbrev pub limit_of : ClaimInput → ℕ
limit_of i = or_else i.limit 10

abbrev pub lease_of : ClaimInput → ℕ
lease_of i = or_else i.lease_ms 120_000

-- a lease that has ended, in SQL: a null is no match
abbrev pub has_lapsed : Option ℕ → ℕ → Bool
has_lapsed none now = false
has_lapsed (some t) now = leb t now

module _ {D : Type 0} where
  unfoldable pub is_claimable : ℕ → JobRow D → Bool
  is_claimable now j =
      (is_waiting j.status && (not j.terminal && leb j.available_at now))
      || (is_processing j.status && has_lapsed j.lease_expires_at now)

  -- ORDER BY "observed_at", "id"
  abbrev pub is_older : Store D → JobRow D → JobRow D → Bool
  is_older s a b =
      ltb a.observed_at b.observed_at || (a.observed_at == b.observed_at && s.id_before a.id b.id)

  -- SKIP LOCKED: the rows that another transaction holds are left out
  unfoldable pub candidates : Store D → (String → Bool) → ℕ → ℕ → List (JobRow D) → List (JobRow D)
  candidates s locked limit now jobs =
      take limit (sort_by (is_older s) (keep (λ j. is_claimable now j && not (locked j.id)) jobs))

  abbrev pub abandoned_attempt : ℕ → JobRow D → AttemptRow D
  abandoned_attempt now c = record {
    outbox_id = c.id;
    attempt_number = c.attempt_count;
    worker_id = or_else c.claimed_by "";
    status = AttemptStatus.failed;
    started_at = or_else c.claimed_at now;
    finished_at = now;
    evidence = record (c.evidence) { probabilities = none };
    error = record {
      error_code = some "LEASE_EXPIRED";
      error_message = some "Worker lease expired before the attempt was recorded.";
      error_details = none;
    };
  }

  -- ON CONFLICT ("outbox_id", "attempt_number") DO NOTHING
  abbrev pub record_abandoned : ℕ → List (AttemptRow D) → JobRow D → List (AttemptRow D)
  record_abandoned now attempts c =
      if is_processing c.status && not (any (is_attempt c.id c.attempt_count) attempts)
      then abandoned_attempt now c ∷ attempts
      else attempts

  -- the worker of an attempt is not null
  abbrev pub lacks_worker : JobRow D → Bool
  lacks_worker c = is_processing c.status && is_none c.claimed_by

  abbrev pub leased : ClaimInput → JobRow D → JobRow D
  leased i j = record j {
    status = processing;
    terminal = false;
    claimed_by = some i.worker_id;
    claimed_at = some i.now;
    lease_expires_at = some (i.now + lease_of i);
    attempt_count = j.attempt_count + 1;
    evidence = no_evidence;
    error = no_error;
    completed_at = none;
    failed_at = none;
  }

  abbrev pub is_among : List (JobRow D) → JobRow D → Bool
  is_among cs j = any (λ c. c.id === j.id) cs

  unfoldable pub lease_all : ClaimInput → List (JobRow D) → Outbox D → Outbox D
  lease_all i cs db = record {
    jobs = update_rows (is_among cs) (leased i) db.jobs;
    attempts = foldl (record_abandoned i.now) db.attempts cs;
  }

  -- The ids that it returns are those of the jobs it updates.
  unfoldable pub claim_in : ClaimInput → List (JobRow D) → Outbox D → Result D (List String)
  claim_in i cs db =
      require (not (any lacks_worker cs)) missing_worker
        (done (map (λ c. c.id) cs) (lease_all i cs db))

  -- `locked`: the rows that other transactions hold at this time
  unfoldable pub claim : Store D → (String → Bool) → ClaimInput → Outbox D → Result D (List String)
  claim s locked i db = require (not (s.is_blank i.worker_id)) worker_required (
      require (leb 1 (limit_of i) && leb (limit_of i) 100) invalid_limit (
        require (leb 1000 (lease_of i) && leb (lease_of i) 3_600_000) invalid_lease
          (claim_in i (candidates s locked (limit_of i) i.now db.jobs) db)))

-- What a worker gets of a job; `observation` has what the source reads of it from the other tables.
pub record ClaimedJob (A : Type 0) : Type 0 where
  pub job_id : String
  pub attempt_count : ℕ
  pub lease_expires_at : Option ℕ
  pub question_set_version : String
  pub observation : A

-- The claim may be rejected before it leases jobs, or after, when an observation cannot be read.
pub data ClaimAnswer (D A : Type 0) : Type 0 where
  answered : List (ClaimedJob A) → Outbox D → ClaimAnswer D A
  rejected : OutboxError → ClaimAnswer D A
  unread : Outbox D → ClaimAnswer D A

module _ {D A : Type 0} (read : JobRow D → Option A) where
  abbrev pub claimed_job : JobRow D → A → ClaimedJob A
  claimed_job j observation = record {
    job_id = j.id;
    attempt_count = j.attempt_count;
    lease_expires_at = j.lease_expires_at;
    question_set_version = j.question_set_version;
    observation = observation;
  }

  -- `Promise.all`, which is rejected with any of its promises
  abbrev pub add_read :
      JobRow D → Option A → Option (List (ClaimedJob A)) → Option (List (ClaimedJob A))
  add_read j (some observation) (some rest) = some (claimed_job j observation ∷ rest)
  add_read j _ _ = none

  abbrev pub read_jobs : List (JobRow D) → Option (List (ClaimedJob A))
  read_jobs [] = some []
  read_jobs (j ∷ js) = add_read j (read j) (read_jobs js)

  abbrev pub answer_of : Option (List (ClaimedJob A)) → Outbox D → ClaimAnswer D A
  answer_of none db = unread db
  answer_of (some jobs) db = answered jobs db

  abbrev pub answer_claim : Store D → Result D (List String) → ClaimAnswer D A
  answer_claim s (refused e) = rejected e
  answer_claim s (done ids db) =
      answer_of (read_jobs (sort_by (is_older s) (keep (λ j. any (λ id. id === j.id) ids) db.jobs)))
        db

  -- `claim` as a whole; `read` has the rows of the other tables, and is `none` where it throws
  unfoldable pub claim_jobs : Store D → (String → Bool) → ClaimInput → Outbox D → ClaimAnswer D A
  claim_jobs s locked i db = answer_claim s (claim s locked i db)
