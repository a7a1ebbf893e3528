-- ===== src/SymbolRunScheduler/Order.antt =====
-- apps/worker/src/symbol-run-scheduler.ts: a symbol has one drain while it is marked running.
use grid_bot.Common.{
  ℕ, ◌+◌, ◌≡◌, ◌≢◌, refl, sym, ap, ◌∙◌, Bool, true, false, not, ◌&&◌, List, [], ◌∷◌, String, arith,
  if-both, false≢true, ltb,
}
use grid_bot.Host.{◌===◌}
use grid_bot.SymbolRunScheduler.Slots.{
  Phase, sleeping, executing, Slot, Scheduler, get_wait_ms, run_or_break, enter, schedule_slot,
  fail_slot, set_slot, schedule, wake, complete, fail, stop, Step, scheduling, waking, completing,
  failing, stopping,
}

-- A symbol is marked running exactly while it has a drain, has one at most, and is queued only then.
pub data IsOrderly (s : Slot) : Type 0 where
  at_rest : s.running ≡ false → s.drains ≡ [] → s.queued ≡ false → IsOrderly s
  draining : (p : Phase) → s.running ≡ true → s.drains ≡ p ∷ [] → IsOrderly s

-- In a scheduler that has stopped nothing is queued.
pub record IsOrderlyScheduler (st : Scheduler) : Type 0 where
  pub slots : (t : String) → IsOrderly (st.slots t)
  pub quiet : st.stopped ≡ true → (t : String) → (st.slots t).queued ≡ false

abbrev IsUnqueued : Slot → Type 0
IsUnqueued s = s.queued ≡ false

-- The slot of a drain that has ended its wait.
pub record IsFreed (stopped : Bool) (s : Slot) : Type 0 where
  pub marked : s.running ≡ true
  pub alone : s.drains ≡ []
  pub quiet : stopped ≡ true → s.queued ≡ false

module _ (min_interval : ℕ) (stopped : Bool) (now : ℕ) where
  run_or_break-IsOrderly :
      (s : Slot) → IsFreed stopped s → IsOrderly (run_or_break min_interval stopped now s)
  run_or_break-IsOrderly s h =
      if-both IsOrderly stopped _ _ (λ e. at_rest refl h.alone (h.quiet e))
        (λ e. draining executing h.marked (ap (λ ds. executing ∷ ds) h.alone))

  enter-IsOrderly : (s : Slot) → IsFreed stopped s → IsOrderly (enter min_interval stopped now s)
  enter-IsOrderly s h =
      if-both IsOrderly (not s.queued) _ _ (λ q. at_rest refl h.alone (ground arith))
        (λ q.
          if-both IsOrderly (ltb 0 (get_wait_ms min_interval s.last_run_started_at now)) _ _
            (λ w.
              draining (sleeping (now + get_wait_ms min_interval s.last_run_started_at now))
                h.marked
                (ap (λ ds. sleeping (now + get_wait_ms min_interval s.last_run_started_at now) ∷ ds)
                  h.alone))
            (λ w. run_or_break-IsOrderly s h))

  fail_slot-IsOrderly :
      (s : Slot) → IsFreed stopped s → IsOrderly (fail_slot min_interval stopped now s)
  fail_slot-IsOrderly s h =
      if-both IsOrderly (not stopped && s.queued) _ _ (λ e. enter-IsOrderly s h)
        (λ e. at_rest refl h.alone (idle_queue stopped s.queued e h.quiet))
    where
      idle_queue : (a b : Bool) → (not a && b) ≡ false → (a ≡ true → b ≡ false) → b ≡ false
      idle_queue true b e q = q refl
      idle_queue false b e q = e

  schedule_slot-IsOrderly :
      (s : Slot) → IsOrderly s → IsOrderly (schedule_slot min_interval stopped now s)
  schedule_slot-IsOrderly s (at_rest r d q) =
      if-both IsOrderly stopped _ _ (λ e. at_rest r d q)
        (λ e.
          if-both IsOrderly s.running _ _ (λ t. elim (false≢true (sym r ∙ t)) [ ])
            (λ t.
              enter-IsOrderly (record s { queued = true; running = true })
                (record {
                  marked = refl;
                  alone = d;
                  quiet = λ c. elim (false≢true (sym e ∙ c)) [ ];
                })))
  schedule_slot-IsOrderly s (draining p r d) =
      if-both IsOrderly stopped _ _ (λ e. draining p r d)
        (λ e.
          if-both IsOrderly s.running _ _ (λ t. draining p r d)
            (λ t. elim (false≢true (sym t ∙ r)) [ ]))

abbrev tail : List Phase → List Phase
tail [] = []
tail (_ ∷ ps) = ps

nil_cons : (p : Phase) (ps : List Phase) → [] ≢ p ∷ ps
nil_cons p ps e = cc

-- The slot without the drain that ends its wait.
pub drain_end-IsFreed :
    (stopped : Bool) (s : Slot) (p : Phase) (rest : List Phase)
    → IsOrderly s
    → (stopped ≡ true → s.queued ≡ false)
    → s.drains ≡ p ∷ rest
    → IsFreed stopped (record s { drains = rest })
drain_end-IsFreed stopped s p rest (at_rest r d q) quiet e = elim (nil_cons p rest (sym d ∙ e)) [ ]
drain_end-IsFreed stopped s p rest (draining p' r d) quiet e = record {
  marked = r;
  alone = ap tail (sym e ∙ d);
  quiet = quiet;
}

-- A change of one slot.
set_slot-IsOrderly :
    (slots : String → Slot) (symbol : String) (s : Slot)
    → ((t : String) → IsOrderly (slots t))
    → IsOrderly s
    → (t : String) → IsOrderly (set_slot slots symbol s t)
set_slot-IsOrderly slots symbol s h hs t = if-both IsOrderly (t === symbol) _ _ (λ _. hs) (λ _. h t)

-- A step of one slot in an orderly scheduler.
slot-IsOrderly :
    (st : Scheduler) (symbol : String) (s : Slot)
    → IsOrderlyScheduler st
    → IsOrderly s
    → (st.stopped ≡ true → s.queued ≡ false)
    → IsOrderlyScheduler (record st { slots = set_slot st.slots symbol s })
slot-IsOrderly st symbol s h hs q = record {
  slots = set_slot-IsOrderly st.slots symbol s h.slots hs;
  quiet = λ e t. if-both IsUnqueued (t === symbol) _ _ (λ _. q e) (λ _. h.quiet e t);
}

module _ (min_interval : ℕ) (stopped : Bool) (now : ℕ) (e : stopped ≡ true) (s : Slot)
    (q : s.queued ≡ false) where
  run_or_break-quiet : (run_or_break min_interval stopped now s).queued ≡ false
  run_or_break-quiet = if-both IsUnqueued stopped _ _ (λ _. q) (λ _. refl)

  enter-quiet : (enter min_interval stopped now s).queued ≡ false
  enter-quiet =
      if-both IsUnqueued (not s.queued) _ _ (λ _. q) (λ n. elim (false≢true (sym n ∙ ap not q)) [ ])

  fail_slot-quiet : (fail_slot min_interval stopped now s).queued ≡ false
  fail_slot-quiet = if-both IsUnqueued (not stopped && s.queued) _ _ (λ _. enter-quiet) (λ _. q)

  schedule_slot-quiet : (schedule_slot min_interval stopped now s).queued ≡ false
  schedule_slot-quiet =
      if-both IsUnqueued stopped _ _ (λ _. q) (λ n. elim (false≢true (sym n ∙ e)) [ ])

-- A step keeps the scheduler orderly.
pub Step-IsOrderly :
    (upper : String → String) (min_interval : ℕ) (st st' : Scheduler)
    → IsOrderlyScheduler st
    → Step upper min_interval st st'
    → IsOrderlyScheduler st'
unfolding schedule wake complete fail stop
Step-IsOrderly upper m st _ h (scheduling now symbol) =
    slot-IsOrderly st (upper symbol) _ h
      (schedule_slot-IsOrderly m st.stopped now _ (h.slots (upper symbol)))
      (λ e. schedule_slot-quiet m st.stopped now e _ (h.quiet e (upper symbol)))
Step-IsOrderly upper m st _ h (waking now due symbol rest d _) =
    slot-IsOrderly st symbol _ h
      (run_or_break-IsOrderly m st.stopped now _ (
        drain_end-IsFreed st.stopped (st.slots symbol) _ rest (h.slots symbol)
          (λ e. h.quiet e symbol) d))
      (λ e. run_or_break-quiet m st.stopped now e _ (h.quiet e symbol))
Step-IsOrderly upper m st _ h (completing now symbol rest d) =
    slot-IsOrderly st symbol _ h
      (enter-IsOrderly m st.stopped now _ (
        drain_end-IsFreed st.stopped (st.slots symbol) _ rest (h.slots symbol)
          (λ e. h.quiet e symbol) d))
      (λ e. enter-quiet m st.stopped now e _ (h.quiet e symbol))
Step-IsOrderly upper m st _ h (failing now symbol rest d) =
    slot-IsOrderly st symbol _ h
      (fail_slot-IsOrderly m st.stopped now _ (
        drain_end-IsFreed st.stopped (st.slots symbol) _ rest (h.slots symbol)
          (λ e. h.quiet e symbol) d))
      (λ e. fail_slot-quiet m st.stopped now e _ (h.quiet e symbol))
Step-IsOrderly upper m st _ h stopping = record {
  slots = λ t. cleared (h.slots t);
  quiet = λ _ t. refl;
}
  where
    cleared : {s : Slot} → IsOrderly s → IsOrderly (record s { queued = false })
    cleared (at_rest r d q) = at_rest r d refl
    cleared (draining p r d) = draining p r d
