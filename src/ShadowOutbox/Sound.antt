-- ===== src/ShadowOutbox/Sound.antt =====
-- packages/db/src/repositories/shadow-jev-outbox-repository.ts: every attempt of a job is recorded once,
-- under its number, and a lease belongs to a job in work.
use grid_bot.Common.{
  ℕ, ◌-◌, ◌≤◌, ◌≡◌, refl, sym, ap, subst, ◌∙◌, Bool, true, false, none, List, [], ◌∷◌, String,
  arith, Memᴰ, any, foldl, All, All-Mem, All-mono, All-at, any-false, if◌then◌else◌, if-both,
  false≢true, is_some, eq_refl, update_rows, All-update_rows, IsAbsent, IsKeyed, keyed_unique,
  update_rows-IsKeyed, str_eq_sym, IsAbsent-update_rows, All-pair,
}
use grid_bot.Host.{◌===◌}
use grid_bot.ShadowOutbox.Rows.{
  JobRow, AttemptRow, Outbox, Store, Result, done, refused, require, is_processing, is_completed,
  record_attempt, is_attempt, OutboxError,
}
use grid_bot.ShadowOutbox.Claim.{
  ClaimInput, claim, claim_in, lease_all, leased, is_among, candidates, record_abandoned, limit_of,
}
use grid_bot.ShadowOutbox.Numbers.{numbers-own, countdown, numbers, settled_attempts, numbers-other}
use grid_bot.ShadowOutbox.Leases.{
  ended_after, abandoned-numbers, abandoned-elsewhere, candidates-All,
}
use grid_bot.ShadowOutbox.Steps.{enqueue, NewJob}

-- The attempts of the job that have ended are recorded, each once, and numbered from 1. A job is in
-- work exactly while it has an owner and a lease, and it then has one attempt more.
pub record IsSoundJob {D : Type 0} (attempts : List (AttemptRow D)) (j : JobRow D) : Type 0 where
  pub counted : numbers j.id attempts ≡ countdown (settled_attempts j)
  pub started : is_processing j.status ≡ true → 1 ≤ j.attempt_count
  pub claimed : is_some j.claimed_by ≡ is_processing j.status
  pub timed : is_some j.lease_expires_at ≡ is_processing j.status
  pub final : is_completed j.status ≡ true → j.terminal ≡ true
  pub open_end : is_processing j.status ≡ true → j.terminal ≡ false

-- The ids of the jobs are distinct, each job is sound, and every attempt belongs to a job.
pub record IsSound {D : Type 0} (db : Outbox D) : Type 0 where
  pub keyed : IsKeyed (λ j. j.id) db.jobs
  pub sound : All (IsSoundJob db.attempts) db.jobs
  pub linked : (id : String) → IsAbsent (λ j. j.id) id db.jobs → numbers id db.attempts ≡ []

abbrev pub Holds : {D A : Type 0} → (Outbox D → Type 0) → Result D A → Type 0
Holds P (done _ db) = P db
Holds P (refused _) = Unit

module _ {D A : Type 0} (P : Outbox D → Type 0) where
  pub require-Holds :
      (test : Bool) (e : OutboxError) (next : Result D A)
      → (test ≡ true → Holds P next)
      → Holds P (require test e next)
  unfolding require
  require-Holds true e next h = h refl
  require-Holds false e next h = tt

  pub record_attempt-Holds :
      (a : AttemptRow D) (v : A) (db : Outbox D)
      → P (record db { attempts = a ∷ db.attempts })
      → Holds P (record_attempt a v db)
  unfolding record_attempt
  record_attempt-Holds a v db h =
      if-both (Holds P) (any (is_attempt a.outbox_id a.attempt_number) db.attempts) _ _ (λ _. tt)
        (λ _. h)

  pub Holds-at : (r : Result D A) (a : A) (db : Outbox D) → Holds P r → r ≡ done a db → P db
  Holds-at r a db h e = subst (Holds P) e h

module _ {D : Type 0} where
  -- a new job
  pub enqueue-IsSound : (i : NewJob) (db : Outbox D) → IsSound db → Holds IsSound (enqueue i db)
  unfolding enqueue
  enqueue-IsSound i db h =
      if-both (Holds IsSound) (any (λ j. j.observation_id === i.observation_id) db.jobs) _ _
        (λ _. h)
        (λ _.
          if-both (Holds IsSound) (any (λ j. j.id === i.id) db.jobs) _ _ (λ _. tt)
            (λ fresh. record {
              keyed = (any-false _ db.jobs fresh, h.keyed);
              sound = (
                record {
                  counted = h.linked i.id (any-false _ db.jobs fresh);
                  started = λ e. elim (false≢true e) [ ];
                  claimed = refl;
                  timed = refl;
                  final = λ e. elim (false≢true e) [ ];
                  open_end = λ e. refl;
                },
                h.sound,
              );
              linked = λ id absent. h.linked id absent.1;
            }))

  -- A job is as sound as before where its attempts are.
  same_attempts :
      (attempts attempts' : List (AttemptRow D)) (j : JobRow D)
      → numbers j.id attempts' ≡ numbers j.id attempts
      → IsSoundJob attempts j
      → IsSoundJob attempts' j
  same_attempts attempts attempts' j e h = record {
    counted = e ∙ h.counted;
    started = h.started;
    claimed = h.claimed;
    timed = h.timed;
    final = h.final;
    open_end = h.open_end;
  }

  module _ (i : ClaimInput) (cs : List (JobRow D)) (db : Outbox D)
      (chosen : (P : JobRow D → Type 0) → All P db.jobs → All P cs) (h : IsSound db) where
    lease_one :
        (j : JobRow D)
        → is_among cs j ≡ true
        → Memᴰ j db.jobs × IsSoundJob db.attempts j
        → IsSoundJob (foldl (record_abandoned i.now) db.attempts cs) (leased i j)
    lease_one j t (m, s) = record {
      counted =
          abandoned-numbers i.now j s.started cs db.attempts false
            (chosen _ (keyed_unique (λ q. q.id) j db.jobs h.keyed m)) s.counted
          ∙ (ap (λ b. countdown (ended_after b j)) t ∙ ap countdown (omega arith));
      started = λ e. omega arith;
      claimed = refl;
      timed = refl;
      final = λ e. elim (false≢true e) [ ];
      open_end = λ e. refl;
    }

    pass_one :
        (j : JobRow D)
        → is_among cs j ≡ false
        → Memᴰ j db.jobs × IsSoundJob db.attempts j
        → IsSoundJob (foldl (record_abandoned i.now) db.attempts cs) j
    pass_one j t (m, s) =
        same_attempts db.attempts _ j
          (abandoned-numbers i.now j s.started cs db.attempts false
              (chosen _ (keyed_unique (λ q. q.id) j db.jobs h.keyed m)) s.counted
            ∙ (ap (λ b. countdown (ended_after b j)) t ∙ sym s.counted))
          s

    lease_all-IsSound : IsSound (lease_all i cs db)
    unfolding lease_all
    lease_all-IsSound = record {
      keyed = update_rows-IsKeyed (λ j. j.id) (is_among cs) (leased i) (λ j. refl) db.jobs h.keyed;
      sound =
          All-update_rows _ _ (is_among cs) (leased i) db.jobs lease_one pass_one
            (All-pair _ _ db.jobs (All-Mem db.jobs) h.sound);
      linked = λ id absent.
          let old =
            IsAbsent-update_rows (λ j. j.id) (is_among cs) (leased i) (λ j. refl) id db.jobs
              absent in
          abandoned-elsewhere i.now id cs db.attempts (chosen _ old) ∙ h.linked id old;
    }

  pub claim-IsSound :
      (s : Store D) (locked : String → Bool) (i : ClaimInput) (db : Outbox D)
      → IsSound db
      → Holds IsSound (claim s locked i db)
  unfolding claim claim_in
  claim-IsSound s locked i db h = require-Holds IsSound _ _ _ (λ _.
      require-Holds IsSound _ _ _ (λ _. require-Holds IsSound _ _ _ (λ _.
        require-Holds IsSound _ _ _ (λ _.
          lease_all-IsSound i (candidates s locked (limit_of i) i.now db.jobs) db
            (λ P ps.
              All-mono _ P _ (λ c q. q.0) (candidates-All s locked (limit_of i) i.now P db.jobs ps))
            h))))

  -- a report ends the attempt
  pub record IsReported (q q' : JobRow D) : Type 0 where
    pub same_id : q'.id ≡ q.id
    pub same_count : q'.attempt_count ≡ q.attempt_count
    pub over : is_processing q'.status ≡ false
    pub unclaimed : q'.claimed_by ≡ none
    pub untimed : q'.lease_expires_at ≡ none
    pub closed : is_completed q'.status ≡ true → q'.terminal ≡ true

  module _ (db : Outbox D) (j : JobRow D) (a : AttemptRow D) (g : JobRow D → JobRow D)
      (m : Memᴰ j db.jobs) (p : is_processing j.status ≡ true) (own : a.outbox_id ≡ j.id)
      (last : a.attempt_number ≡ j.attempt_count) (ends : (q : JobRow D) → IsReported q (g q))
      (h : IsSound db) where
    settled_of : (b : Bool) (n m : ℕ) → b ≡ false → n ≡ m → m ≡ (if b then n - 1 else n)
    settled_of b n m e d = ground arith

    lapse : (b : Bool) (n : ℕ) → b ≡ true → (if b then n - 1 else n) ≡ n - 1
    lapse b n e = ground arith

    reported_self : IsSoundJob db.attempts j → IsSoundJob (a ∷ db.attempts) (g j)
    reported_self s = record {
      counted =
          subst (λ id. numbers id (a ∷ db.attempts) ≡ countdown (settled_attempts (g j)))
            (sym (ends j).same_id)
            (numbers-own j.id a db.attempts j.attempt_count 0
                (subst (λ id. (id === j.id) ≡ true) (sym own) (eq_refl j.id)) last (s.started p)
                (s.counted ∙ ap countdown (lapse (is_processing j.status) j.attempt_count p))
              ∙ ap countdown (
                  settled_of (is_processing (g j).status) (g j).attempt_count j.attempt_count
                    (ends j).over (ends j).same_count));
      started = λ e. elim (false≢true (sym (ends j).over ∙ e)) [ ];
      claimed = ap is_some (ends j).unclaimed ∙ sym (ends j).over;
      timed = ap is_some (ends j).untimed ∙ sym (ends j).over;
      final = (ends j).closed;
      open_end = λ e. elim (false≢true (sym (ends j).over ∙ e)) [ ];
    }

    pub report-IsSound :
        IsSound
          (record { jobs = update_rows (λ q. q.id === j.id) g db.jobs; attempts = a ∷ db.attempts })
    report-IsSound = record {
      keyed =
          update_rows-IsKeyed (λ q. q.id) (λ q. q.id === j.id) g (λ q. (ends q).same_id) db.jobs
            h.keyed;
      sound =
          All-update_rows _ _ (λ q. q.id === j.id) g db.jobs
            (λ q t b.
              subst (λ y. IsSoundJob (a ∷ db.attempts) (g y)) (sym (b.0 t))
                (reported_self (subst (IsSoundJob db.attempts) (b.0 t) b.1)))
            (λ q t b.
              same_attempts db.attempts _ q
                (numbers-other q.id a db.attempts
                  (subst (λ id. (id === q.id) ≡ false) (sym own) (str_eq_sym q.id j.id t)))
                b.1)
            (All-pair _ _ db.jobs (keyed_unique (λ q. q.id) j db.jobs h.keyed m) h.sound);
      linked = λ id absent.
          let old =
            IsAbsent-update_rows (λ q. q.id) (λ q. q.id === j.id) g (λ q. (ends q).same_id) id
              db.jobs absent in
          numbers-other id a db.attempts
            (subst (λ k. (k === id) ≡ false) (sym own) (All-at _ db.jobs j old m))
          ∙ h.linked id old;
    }
