-- ===== src/ExecutionRecoveryPoller/Polling.antt =====
-- apps/worker/src/execution-recovery-poller.ts: the poller between two `await`s. The state changes in
-- steps: a call of `start` or `stop`, the timer that fires, an answer of one of the two callbacks, and
-- the `finally` of a poll.
use grid_bot.Common.{
  ℕ, suc, ◌+◌, ◌≤◌, ◌≡◌, Bool, true, false, not, ◌||◌, Option, none, some, List, [], ◌∷◌, ◌++◌,
  String, if◌then◌else◌, keep, ◌==◌,
}
use grid_bot.Host.{◌===◌}

-- What a poll waits for: the list of ids, or the recovery of a bot with the ids that follow it. A
-- poll that is over waits for its `finally`.
pub data Poll : Type 0 where
  listing : Poll
  recovering : List String → Poll
  settled : Poll

-- A timer of the host that has neither fired nor been cleared.
pub record PendingTimer : Type 0 where
  pub timer_id : ℕ
  pub due : ℕ

-- The three fields, what the host holds of the poller, and the bots handed to `recoverBot` so far.
pub record Poller : Type 0 where
  pub stopped : Bool
  pub timer : Option ℕ
  pub running : Bool
  pub polls : List Poll
  pub pending : List PendingTimer
  pub next_timer : ℕ
  pub calls : List String

abbrev pub unstarted : Poller
unstarted = record {
  stopped = true;
  timer = none;
  running = false;
  polls = [];
  pending = [];
  next_timer = 0;
  calls = [];
}

-- `new Set(ids)`, in the order of insertion
unfoldable pub distinct : List String → List String
distinct [] = []
distinct (id ∷ ids) = id ∷ keep (λ q. not (q === id)) (distinct ids)

abbrev pub clear_timeout : Option ℕ → List PendingTimer → List PendingTimer
clear_timeout none pending = pending
clear_timeout (some t) pending = keep (λ p. not (p.timer_id == t)) pending

-- `poll` runs up to its first `await` at once
abbrev pub launch : Poller → Poller
launch st = record st { running = true; polls = listing ∷ st.polls }

unfoldable pub start : Poller → Poller
start st = if not st.stopped || st.running then st else launch (record st { stopped = false })

unfoldable pub stop : Poller → Poller
stop st = record st { stopped = true; timer = none; pending = clear_timeout st.timer st.pending }

-- The timer fires; `rest` are the other timers.
unfoldable pub fire : List PendingTimer → Poller → Poller
fire rest st = launch (record st { pending = rest })

-- The head of the loop over the ids; `others` are the other polls.
abbrev pub next_bot : List String → List Poll → Poller → Poller
next_bot [] others st = record st { polls = settled ∷ others }
next_bot (id ∷ rest) others st = record st {
  polls = (if st.stopped then settled else recovering rest) ∷ others;
  calls = if st.stopped then st.calls else st.calls ++ id ∷ [];
}

unfoldable pub enumerated : List String → List Poll → Poller → Poller
enumerated ids others st = next_bot (distinct ids) others st

-- The list of ids cannot be read.
unfoldable pub not_enumerated : List Poll → Poller → Poller
not_enumerated others st = record st { polls = settled ∷ others }

-- The recovery of a bot has ended, or it has failed and the error is logged.
unfoldable pub recovered : List String → List Poll → Poller → Poller
recovered rest others st = next_bot rest others st

unfoldable pub finish : ℕ → ℕ → List Poll → Poller → Poller
finish interval now others st = record st {
  running = false;
  polls = others;
  timer = if st.stopped then st.timer else some st.next_timer;
  pending =
      if st.stopped
      then st.pending
      else record { timer_id = st.next_timer; due = now + interval } ∷ st.pending;
  next_timer = if st.stopped then st.next_timer else suc st.next_timer;
}

pub data Step (interval : ℕ) (st : Poller) : Poller → Type 0 where
  starting : Step interval st (start st)
  stopping : Step interval st (stop st)
  -- a timer does not fire early
  firing :
      (now : ℕ) (t : PendingTimer) (rest : List PendingTimer)
      → st.pending ≡ t ∷ rest
      → t.due ≤ now
      → Step interval st (fire rest st)
  listed :
      (ids : List String) (others : List Poll)
      → st.polls ≡ listing ∷ others
      → Step interval st (enumerated ids others st)
  not_listed :
      (others : List Poll)
      → st.polls ≡ listing ∷ others
      → Step interval st (not_enumerated others st)
  recovering_bot :
      (rest : List String) (others : List Poll)
      → st.polls ≡ recovering rest ∷ others
      → Step interval st (recovered rest others st)
  finishing :
      (now : ℕ) (others : List Poll)
      → st.polls ≡ settled ∷ others
      → Step interval st (finish interval now others st)

pub data Run (interval : ℕ) (st : Poller) : Poller → Type 0 where
  begin : Run interval st st
  then_step :
      {st' st'' : Poller} → Run interval st st' → Step interval st' st'' → Run interval st st''
