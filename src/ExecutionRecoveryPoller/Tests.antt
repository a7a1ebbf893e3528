-- ===== src/ExecutionRecoveryPoller/Tests.antt =====
-- apps/worker/src/execution-recovery-poller.ts: a list of three ids, of which two are the same.
use grid_bot.Common.{
  ◌+◌, suc, ◌≡◌, refl, false, some, List, [], ◌∷◌, ◌++◌, String, Memᴰ, All, IsKeyed, length,
}
use grid_bot.ExecutionRecoveryPoller.Polling.{
  listing, Poller, unstarted, distinct, start, stop, enumerated, recovered, finish, starting,
  stopping, listed, begin, then_step,
}
use grid_bot.ExecutionRecoveryPoller.Activity.{IsActive, Run-IsActive}
use grid_bot.ExecutionRecoveryPoller.Rounds.{answers, round-recovers}

abbrev ids : List String
ids = "bot-1" ∷ "bot-2" ∷ "bot-1" ∷ []

abbrev started : Poller
started = start unstarted

lists : started.polls ≡ listing ∷ []
unfolding start
lists = refl

recovers_each_once : distinct ids ≡ "bot-1" ∷ "bot-2" ∷ []
unfolding distinct
recovers_each_once = refl

-- A poller that is stopped while a bot recovers sets no timer.
stops_quietly :
    (finish 5000 9 [] (recovered ("bot-2" ∷ []) [] (stop (enumerated ids [] started)))).pending ≡ []
unfolding start stop enumerated recovered finish distinct
stops_quietly = refl

Run-IsActive_example : IsActive (stop (enumerated ids [] started))
Run-IsActive_example =
    Run-IsActive 5000 (stop (enumerated ids [] started))
      (then_step (then_step (then_step begin starting) (listed ids [] lists)) stopping)

started-stopped : started.stopped ≡ false
unfolding start
started-stopped = refl

round-recovers_example :
    (finish 5000 9 [] (answers (length (distinct ids)) (enumerated ids [] started))
      ≡ record started {
        running = false;
        polls = [];
        timer = some started.next_timer;
        pending = record { timer_id = started.next_timer; due = 9 + 5000 } ∷ started.pending;
        next_timer = suc started.next_timer;
        calls = started.calls ++ distinct ids;
      })
    × IsKeyed (λ q. q) (distinct ids)
    × ((id : String) → Memᴰ id ids → Memᴰ id (distinct ids))
    × All (λ id. Memᴰ id ids) (distinct ids)
round-recovers_example = round-recovers 5000 9 ids started started-stopped
