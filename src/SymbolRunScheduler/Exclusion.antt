-- ===== src/SymbolRunScheduler/Exclusion.antt =====
-- apps/worker/src/symbol-run-scheduler.ts: one run of a symbol at a time, and a price that arrives is
-- run.
use grid_bot.Common.{
  some, ◌⊎◌, inl, inr, subst, eq_iff, eq_refl, ℕ, ◌≡◌, refl, sym, ap, ◌∙◌, Bool, true, false, not,
  ◌&&◌, [], ◌∷◌, String, if-both, false≢true, ltb,
}
use grid_bot.Host.{◌===◌}
use grid_bot.SymbolRunScheduler.Slots.{
  executing, Slot, Scheduler, get_wait_ms, run_or_break, enter, schedule_slot, fail_slot, set_slot,
  schedule, wake, complete, fail, stop, Step, scheduling, waking, completing, failing, stopping,
  Run, start, then_step,
}
use grid_bot.SymbolRunScheduler.Order.{
  IsOrderly, at_rest, draining, IsOrderlyScheduler, IsFreed, drain_end-IsFreed, Step-IsOrderly,
}

-- A price waits to be run, or its run has just begun and is the only drain of its symbol.
abbrev pub IsServed : ℕ → Slot → Type 0
IsServed now s =
    (s.queued ≡ true) ⊎ ((s.last_run_started_at ≡ some now) × (s.drains ≡ executing ∷ []))

module _ (min_interval : ℕ) (stopped : Bool) (now : ℕ) (e : stopped ≡ false) where
  run_or_break-IsServed :
      (s : Slot) → IsFreed stopped s → IsServed now (run_or_break min_interval stopped now s)
  run_or_break-IsServed s h =
      if-both (IsServed now) stopped _ _ (λ t. elim (false≢true (sym e ∙ t)) [ ])
        (λ _. inr (refl, ap (λ ds. executing ∷ ds) h.alone))

  enter-IsServed :
      (s : Slot)
      → IsFreed stopped s
      → s.queued ≡ true
      → IsServed now (enter min_interval stopped now s)
  enter-IsServed s h q =
      if-both (IsServed now) (not s.queued) _ _ (λ n. elim (false≢true (sym (ap not q) ∙ n)) [ ])
        (λ _.
          if-both (IsServed now) (ltb 0 (get_wait_ms min_interval s.last_run_started_at now)) _ _
            (λ _. inl q) (λ _. run_or_break-IsServed s h))

  fail_slot-IsServed :
      (s : Slot)
      → IsFreed stopped s
      → s.queued ≡ true
      → IsServed now (fail_slot min_interval stopped now s)
  fail_slot-IsServed s h q =
      if-both (IsServed now) (not stopped && s.queued) _ _ (λ _. enter-IsServed s h q)
        (λ n. elim (false≢true (sym n ∙ rw (e, q) refl)) [ ])

  schedule_slot-IsServed :
      (s : Slot) → IsOrderly s → IsServed now (schedule_slot min_interval stopped now s)
  schedule_slot-IsServed s h =
      if-both (IsServed now) stopped _ _ (λ t. elim (false≢true (sym e ∙ t)) [ ])
        (λ _.
          if-both (IsServed now) s.running _ _ (λ _. inl refl)
            (λ r.
              enter-IsServed (record s { queued = true; running = true })
                (record {
                  marked = refl;
                  alone = idle_drains h r;
                  quiet = λ c. elim (false≢true (sym e ∙ c)) [ ];
                })
                refl))
    where
      idle_drains : IsOrderly s → s.running ≡ false → s.drains ≡ []
      idle_drains (at_rest _ d _) r = d
      idle_drains (draining p m d) r = elim (false≢true (sym r ∙ m)) [ ]

-- A queued price of a symbol after the change of one slot.
set_slot-IsServed :
    (slots : String → Slot) (symbol : String) (s : Slot) (now : ℕ) (t : String)
    → (slots t).queued ≡ true
    → ((slots symbol).queued ≡ true → IsServed now s)
    → (n : ℕ) × IsServed n (set_slot slots symbol s t)
set_slot-IsServed slots symbol s now t q g = (
  now,
  if-both (IsServed now) (t === symbol) _ _
      (λ c. g (subst (λ x. (slots x).queued ≡ true) ((eq_iff t symbol).0 c) q)) (λ _. inl q),
)

-- A queued price stays queued until its run begins, while the scheduler runs.
Step-IsServed :
    (upper : String → String) (min_interval : ℕ) (st st' : Scheduler)
    → IsOrderlyScheduler st
    → Step upper min_interval st st'
    → st'.stopped ≡ false
    → (t : String) → (st.slots t).queued ≡ true
    → (n : ℕ) × IsServed n (st'.slots t)
unfolding schedule wake complete fail stop
Step-IsServed upper m st _ h (scheduling now symbol) e t q =
    set_slot-IsServed st.slots (upper symbol) _ now t q
      (λ _. schedule_slot-IsServed m st.stopped now e _ (h.slots (upper symbol)))
Step-IsServed upper m st _ h (waking now due symbol rest d _) e t q =
    set_slot-IsServed st.slots symbol _ now t q (λ _. run_or_break-IsServed m st.stopped now e _ (
      drain_end-IsFreed st.stopped (st.slots symbol) _ rest (h.slots symbol) (λ c. h.quiet c symbol)
        d))
Step-IsServed upper m st _ h (completing now symbol rest d) e t q =
    set_slot-IsServed st.slots symbol _ now t q (λ w.
      enter-IsServed m st.stopped now e _
        (drain_end-IsFreed st.stopped (st.slots symbol) _ rest (h.slots symbol)
          (λ c. h.quiet c symbol) d)
        w)
Step-IsServed upper m st _ h (failing now symbol rest d) e t q =
    set_slot-IsServed st.slots symbol _ now t q (λ w.
      fail_slot-IsServed m st.stopped now e _
        (drain_end-IsFreed st.stopped (st.slots symbol) _ rest (h.slots symbol)
          (λ c. h.quiet c symbol) d)
        w)
Step-IsServed upper m st _ h stopping e t q = elim (false≢true (sym e)) [ ]

own_slot : (slots : String → Slot) (symbol : String) (s : Slot) → set_slot slots symbol s symbol ≡ s
own_slot slots symbol s = rw (eq_refl symbol) refl

-- In whatever order prices arrive, timers fire and runs end or throw: a symbol never has two drains,
-- so never two runs at once, it is marked running exactly while it has one, and while it is queued it
-- has one. Until the scheduler stops, a price that arrives is queued or its run begins at once, and a
-- queued symbol stays queued until its run begins. Once the scheduler has stopped nothing is queued.
pub Run-IsOrderly :
    (upper : String → String) (min_interval : ℕ) (st st' : Scheduler)
    → IsOrderlyScheduler st
    → Run upper min_interval st st'
    → IsOrderlyScheduler st'
      × ((now : ℕ) (symbol : String)
          → st'.stopped ≡ false
          → IsServed now ((schedule upper min_interval now symbol st').slots (upper symbol)))
      × ((next : Scheduler)
          → Step upper min_interval st' next
          → next.stopped ≡ false
          → (t : String) → (st'.slots t).queued ≡ true
          → (n : ℕ) × IsServed n (next.slots t))
unfolding schedule
Run-IsOrderly upper m st st' h run = (
  orderly run,
  λ now symbol e.
      subst (IsServed now) (sym (own_slot st'.slots (upper symbol) _))
        (schedule_slot-IsServed m st'.stopped now e _ ((orderly run).slots (upper symbol))),
  λ next step e t q. Step-IsServed upper m st' next (orderly run) step e t q,
)
  where
    orderly : {s : Scheduler} → Run upper m st s → IsOrderlyScheduler s
    orderly start = h
    orderly (then_step run step) = Step-IsOrderly upper m _ _ (orderly run) step
