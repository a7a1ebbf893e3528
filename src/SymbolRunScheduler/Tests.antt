-- ===== src/SymbolRunScheduler/Tests.antt =====
-- apps/worker/src/symbol-run-scheduler.ts: a price that arrives during the run of its symbol.
use grid_bot.Common.{ℕ, false, ◌≡◌, refl, true, [], ◌∷◌, String}
use grid_bot.SymbolRunScheduler.Slots.{
  Step, sleeping, executing, Scheduler, schedule, complete, scheduling, completing, start,
  then_step, idle,
}
use grid_bot.SymbolRunScheduler.Order.{at_rest, IsOrderlyScheduler}
use grid_bot.SymbolRunScheduler.Exclusion.{IsServed, Run-IsOrderly}

abbrev same_text_as : String → String
same_text_as s = s

abbrev busy : Scheduler
busy = schedule same_text_as 10 5 "SOL" (schedule same_text_as 10 3 "SOL" idle)

-- The second price waits for the run of the first.
waits : (busy.slots "SOL").queued ≡ true
unfolding schedule
waits = refl

runs : (busy.slots "SOL").drains ≡ executing ∷ []
unfolding schedule
runs = refl

-- Its own run starts ten milliseconds after the first.
sleeps : ((complete 10 7 "SOL" [] busy).slots "SOL").drains ≡ sleeping 13 ∷ []
unfolding schedule complete
sleeps = refl

idle-IsOrderly : IsOrderlyScheduler idle
idle-IsOrderly = record { slots = λ t. at_rest refl refl refl; quiet = λ e t. refl }

abbrev waiting : Scheduler
waiting = complete 10 7 "SOL" [] busy

Run-IsOrderly_example :
    IsOrderlyScheduler waiting
    × ((now : ℕ) (symbol : String)
        → waiting.stopped ≡ false
        → IsServed now ((schedule same_text_as 10 now symbol waiting).slots symbol))
    × ((next : Scheduler)
        → Step same_text_as 10 waiting next
        → next.stopped ≡ false
        → (t : String) → (waiting.slots t).queued ≡ true
        → (n : ℕ) × IsServed n (next.slots t))
Run-IsOrderly_example = Run-IsOrderly same_text_as 10 idle waiting idle-IsOrderly (
    then_step (then_step (then_step start (scheduling 3 "SOL")) (scheduling 5 "SOL"))
      (completing 7 "SOL" [] runs))
