-- ===== src/SymbolRunScheduler/Slots.antt =====
-- apps/worker/src/symbol-run-scheduler.ts: the scheduler between two `await`s. The event loop runs one
-- piece of code at a time, so the state changes in steps: a call of `schedule` or `stop`, a timer that
-- fires, and a run that ends.
use grid_bot.Common.{
  ℕ, zero, suc, ◌+◌, ◌-◌, ◌≤◌, ◌≡◌, Bool, true, false, not, ◌&&◌, Option, none, some, List, [], ◌∷◌,
  String, if◌then◌else◌, ltb, ◌==◌,
}
use grid_bot.Host.{◌===◌}

-- What a drain waits for: its timer, not before a time, or the run that it has started.
pub data Phase : Type 0 where
  sleeping : ℕ → Phase
  executing : Phase

-- The part of the scheduler's sets and maps that concerns one symbol.
pub record Slot : Type 0 where
  pub queued : Bool
  pub running : Bool
  pub last_run_started_at : Option ℕ
  pub drains : List Phase

pub record Scheduler : Type 0 where
  pub slots : String → Slot
  pub stopped : Bool

-- `getWaitMs`; a start at time 0 counts as none
unfoldable pub get_wait_ms : ℕ → Option ℕ → ℕ → ℕ
get_wait_ms min_interval none now = 0
get_wait_ms min_interval (some zero) now = 0
get_wait_ms min_interval (some (suc t)) now =
    if min_interval == 0 then 0 else min_interval + suc t - now

module _ (min_interval : ℕ) (stopped : Bool) (now : ℕ) where
  -- `drain` ends: nothing is queued, or the scheduler has stopped
  abbrev pub leave : Slot → Slot
  leave s = record s { running = false }

  -- after the wait
  abbrev pub run_or_break : Slot → Slot
  run_or_break s = if stopped then leave s else record s {
    queued = false;
    last_run_started_at = some now;
    drains = executing ∷ s.drains;
  }

  -- the head of the loop of `drain`
  abbrev pub enter : Slot → Slot
  enter s =
      let wait = get_wait_ms min_interval s.last_run_started_at now in
      if not s.queued
      then leave s
      else if ltb 0 wait
      then record s { drains = sleeping (now + wait) ∷ s.drains }
      else run_or_break s

  abbrev pub schedule_slot : Slot → Slot
  schedule_slot s =
      if stopped
      then s
      else if s.running
      then record s { queued = true }
      else enter (record s { queued = true; running = true })

  -- `finally`: a symbol that was queued while its drain failed gets a new one
  abbrev pub fail_slot : Slot → Slot
  fail_slot s = if not stopped && s.queued then enter s else leave s

  abbrev pub without_drain : List Phase → Slot → Slot
  without_drain rest s = record s { drains = rest }

abbrev pub set_slot : (String → Slot) → String → Slot → String → Slot
set_slot slots symbol s t = if t === symbol then s else slots t

-- `upper` is `toUpperCase`
unfoldable pub schedule : (String → String) → ℕ → ℕ → String → Scheduler → Scheduler
unfolding get_wait_ms
schedule upper min_interval now symbol st = record st {
  slots =
      set_slot st.slots (upper symbol)
        (schedule_slot min_interval st.stopped now (st.slots (upper symbol)));
}

-- The timer of a drain fires, with the other drains of its symbol.
unfoldable pub wake : ℕ → ℕ → String → List Phase → Scheduler → Scheduler
wake min_interval now symbol rest st = record st {
  slots =
      set_slot st.slots symbol
        (run_or_break min_interval st.stopped now (record (st.slots symbol) { drains = rest }));
}

-- The run of a drain ends, and it goes round its loop.
unfoldable pub complete : ℕ → ℕ → String → List Phase → Scheduler → Scheduler
unfolding get_wait_ms
complete min_interval now symbol rest st = record st {
  slots =
      set_slot st.slots symbol
        (enter min_interval st.stopped now (record (st.slots symbol) { drains = rest }));
}

-- The run of a drain throws.
unfoldable pub fail : ℕ → ℕ → String → List Phase → Scheduler → Scheduler
unfolding get_wait_ms
fail min_interval now symbol rest st = record st {
  slots =
      set_slot st.slots symbol
        (fail_slot min_interval st.stopped now (record (st.slots symbol) { drains = rest }));
}

unfoldable pub stop : Scheduler → Scheduler
stop st = record { slots = λ t. record (st.slots t) { queued = false }; stopped = true }

pub data Step (upper : String → String) (min_interval : ℕ) (st : Scheduler)
    : Scheduler → Type 0 where
  scheduling :
      (now : ℕ) (symbol : String)
      → Step upper min_interval st (schedule upper min_interval now symbol st)
  -- a timer does not fire early
  waking :
      (now due : ℕ) (symbol : String) (rest : List Phase)
      → (st.slots symbol).drains ≡ sleeping due ∷ rest
      → due ≤ now
      → Step upper min_interval st (wake min_interval now symbol rest st)
  completing :
      (now : ℕ) (symbol : String) (rest : List Phase)
      → (st.slots symbol).drains ≡ executing ∷ rest
      → Step upper min_interval st (complete min_interval now symbol rest st)
  failing :
      (now : ℕ) (symbol : String) (rest : List Phase)
      → (st.slots symbol).drains ≡ executing ∷ rest
      → Step upper min_interval st (fail min_interval now symbol rest st)
  stopping : Step upper min_interval st (stop st)

pub data Run (upper : String → String) (min_interval : ℕ) (st : Scheduler)
    : Scheduler → Type 0 where
  start : Run upper min_interval st st
  then_step :
      {st' st'' : Scheduler}
      → Run upper min_interval st st'
      → Step upper min_interval st' st''
      → Run upper min_interval st st''

-- A scheduler that was just made.
abbrev pub idle : Scheduler
idle = record {
  slots = λ t. record { queued = false; running = false; last_run_started_at = none; drains = [] };
  stopped = false;
}
