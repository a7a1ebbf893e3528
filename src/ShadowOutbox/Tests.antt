-- ===== src/ShadowOutbox/Tests.antt =====
-- packages/db/src/repositories/shadow-jev-outbox-repository.ts: one job, from its claim to its result.
use grid_bot.Common.{
  ◌≤◌, ◌≡◌, refl, Bool, true, false, none, some, List, [], ◌∷◌, String, Memᴰ, length, false≢true,
  min,
}
use grid_bot.Host.{Host, ◌===◌, ◌<>◌}
use grid_bot.Float.Fixed.{Fixed, fixed_float}
use grid_bot.Host.Binary.{binary, write}
use grid_bot.ShadowHash.{
  Js, Entries, no_entries, object, field, text, Digest, null, boolean, canonicalize,
  canonical_shadow_hash,
}
use grid_bot.ShadowOutbox.Rows.{
  JobRow, Outbox, Store, done, refused, lease_lost, require, find_job, record_attempt,
}
use grid_bot.ShadowOutbox.Claim.{
  claim_jobs, unread, ClaimInput, claim, claim_in, lease_all, leased, is_claimable, candidates,
  limit_of,
}
use grid_bot.ShadowOutbox.Report.{
  Completion, complete, complete_owned, repeat_completion, completed_job, completed_attempt,
  is_owned,
}
use grid_bot.ShadowOutbox.Steps.{pending_job, claiming, completing, Run, start, then_step}
use grid_bot.ShadowOutbox.Sound.{IsSound}
use grid_bot.ShadowOutbox.Runs.{Run-IsSound}
use grid_bot.ShadowOutbox.Machine.{Moves, view, closed}
use grid_bot.ShadowOutbox.Refinement.{acts_of, Run-refines, Run-settled}
use grid_bot.ShadowOutbox.Progress.{IsDue, IsHeldBy, due_jobs, claim-takes}

instance abbrev host : Host
host = binary

abbrev digest : Digest Fixed
digest = record { stringify = λ v. "json"; sha256 = λ t. t }

abbrev store : Store Fixed
store = record {
  id_before = λ a b. true;
  is_blank = λ t. t === "";
  json_value = λ v. v;
  column = λ v. v;
}

abbrev job : JobRow Fixed
job = pending_job (record {
  id = "j1";
  observation_id = "o1";
  observed_at = 3;
  question_set_version = "v2";
  now = 4;
})

abbrev queue : Outbox Fixed
queue = record { jobs = job ∷ []; attempts = [] }

abbrev request : ClaimInput
request = record { worker_id = "w1"; limit = none; lease_ms = some 5000; now = 10 }

abbrev claimed : Outbox Fixed
claimed = record { jobs = leased request job ∷ []; attempts = [] }

abbrev unlocked : String → Bool
unlocked id = false

abbrev answer : Completion Fixed
answer = record {
  job_id = "j1";
  worker_id = "w1";
  raw_request = null;
  raw_response = boolean true;
  probabilities = null;
  model_version = "m";
  latency_ms = 40;
  completed_at = none;
  now = 60;
}

abbrev finished : Outbox Fixed
finished = record {
  jobs = completed_job store answer (leased request job) ∷ [];
  attempts = completed_attempt store answer (leased request job) ∷ [];
}

claims_it : claim store unlocked request queue ≡ done ("j1" ∷ []) claimed
unfolding claim claim_in lease_all is_claimable candidates require
claims_it = refl

-- A claim whose observation cannot be read has leased its jobs all the same.
leases_unread : claim_jobs {A = String} (λ j. none) store unlocked request queue ≡ unread claimed
unfolding claim_jobs claim claim_in lease_all is_claimable candidates require
leases_unread = refl

completes_it : complete digest store answer claimed ≡ done tt finished
unfolding complete complete_owned is_owned require record_attempt
completes_it = refl

-- another worker cannot report
refuses : complete digest store (record answer { worker_id = "w2" }) claimed ≡ refused lease_lost
unfolding complete complete_owned is_owned repeat_completion require record_attempt
refuses = refl

abbrev texts_in : Entries Fixed → String
texts_in no_entries = ""
texts_in (field k (text t) es) = t <> texts_in es
texts_in (field k _ es) = texts_in es

abbrev texts_of : Js Fixed → String
texts_of (object es) = texts_in es
texts_of _ = ""

-- a text that tells the time of a completion
abbrev dates : Digest Fixed
dates = record { stringify = texts_of; sha256 = λ t. t }

-- A report that is repeated later is refused, since its time has changed.
repeats_late :
    complete dates store (record answer { worker_id = "w1"; now = 61 }) finished
    ≡ refused lease_lost
unfolding complete is_owned repeat_completion require canonical_shadow_hash canonicalize write
repeats_late = refl

queue-IsSound : IsSound queue
queue-IsSound = record {
  keyed = (tt, tt);
  sound = (
    record {
      counted = refl;
      started = λ e. elim (false≢true e) [ ];
      claimed = refl;
      timed = refl;
      final = λ e. elim (false≢true e) [ ];
      open_end = λ e. refl;
    },
    tt,
  );
  linked = λ id absent. refl;
}

run : Run digest store queue finished
run =
    then_step claimed finished
      (then_step queue claimed start (claiming unlocked request ("j1" ∷ []) claimed claims_it))
      (completing answer finished completes_it)

Run-IsSound_example : IsSound finished
Run-IsSound_example = Run-IsSound digest store queue finished queue-IsSound run

Run-refines_example :
    (k : JobRow Fixed) × (find_job finished.jobs "j1" ≡ some k)
    × Moves "j1" (view job) (acts_of digest store run) (view k)
Run-refines_example = Run-refines digest store queue finished job queue-IsSound refl run

Run-settled_example :
    (k : JobRow Fixed) × (find_job finished.jobs "j1" ≡ some k) × (view k ≡ closed 1)
Run-settled_example =
    Run-settled digest store finished finished (completed_job store answer (leased request job))
      Run-IsSound_example refl refl start

claim-takes_example :
    (ids : List String) × (db' : Outbox Fixed) × (claim store unlocked request queue ≡ done ids db')
    × (length ids ≡ min (limit_of request) (length (due_jobs unlocked 10 queue.jobs)))
    × (length (due_jobs unlocked 10 queue.jobs) ≤ limit_of request
        → (j : JobRow Fixed) → Memᴰ j queue.jobs
        → IsDue 10 j
        → unlocked j.id ≡ false
        → Memᴰ j.id ids
          × (k : JobRow Fixed) × (find_job db'.jobs j.id ≡ some k)
          × IsHeldBy request j k)
claim-takes_example =
    claim-takes store unlocked request queue queue-IsSound
      (record { named = refl; limited = refl; timed = refl })
