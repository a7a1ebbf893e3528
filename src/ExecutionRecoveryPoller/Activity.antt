-- ===== src/ExecutionRecoveryPoller/Activity.antt =====
-- apps/worker/src/execution-recovery-poller.ts: the poller has one poll or one timer while it is started.
use grid_bot.Common.{
  ℕ, ◌+◌, ◌≡◌, refl, sym, ap, ◌∙◌, true, false, not, ◌||◌, Option, none, some, List, [], ◌∷◌,
  String, if◌then◌else◌, if-both, false≢true, keep, ◌==◌, arith, Bool-cases, inl, inr, ◌≢◌, or-true,
}
use grid_bot.ExecutionRecoveryPoller.Polling.{
  Poll, listing, recovering, settled, PendingTimer, Poller, unstarted, distinct, clear_timeout,
  launch, start, stop, fire, next_bot, enumerated, not_enumerated, recovered, finish, Step,
  starting, stopping, firing, listed, not_listed, recovering_bot, finishing, Run, begin, then_step,
}

-- The poller is stopped with nothing left to do, or is started and waits for its own timer, or has
-- one poll.
pub data IsActive (st : Poller) : Type 0 where
  ended : st.stopped ≡ true → st.running ≡ false → st.polls ≡ [] → st.pending ≡ [] → IsActive st
  waiting :
      (t : PendingTimer)
      → st.stopped ≡ false
      → st.running ≡ false
      → st.polls ≡ []
      → st.pending ≡ t ∷ []
      → st.timer ≡ some t.timer_id
      → IsActive st
  polling : (p : Poll) → st.running ≡ true → st.polls ≡ p ∷ [] → st.pending ≡ [] → IsActive st

module _ {A : Type 0} where
  nil_cons : (x : A) (xs : List A) → [] ≢ x ∷ xs
  nil_cons x xs e = cc

  abbrev tail : List A → List A
  tail [] = []
  tail (_ ∷ xs) = xs

  -- What follows the head of a list of one element, however its head is read.
  single_rest : (x y : A) (xs ys : List A) → xs ≡ x ∷ [] → xs ≡ y ∷ ys → ys ≡ []
  single_rest x y xs ys e h = ap tail (sym h ∙ e)

keeps_none :
    (t : PendingTimer) → keep (λ (p : PendingTimer). not (p.timer_id == t.timer_id)) (t ∷ []) ≡ []
keeps_none t = ground arith

cleared : (t : Option ℕ) (ts : List PendingTimer) → ts ≡ [] → clear_timeout t ts ≡ []
cleared none ts e = e
cleared (some t) ts e = rw e refl

cleared_own :
    (t : PendingTimer) (o : Option ℕ) (ts : List PendingTimer)
    → o ≡ some t.timer_id
    → ts ≡ t ∷ []
    → clear_timeout o ts ≡ []
cleared_own t o ts e h = rw e (rw h (keeps_none t))

start-IsActive : (st : Poller) → IsActive st → IsActive (start st)
unfolding start
start-IsActive st h =
    if-both IsActive (not st.stopped || st.running) _ _ (λ _. h) (λ e. started e h)
  where
    started :
        (not st.stopped || st.running) ≡ false
        → IsActive st
        → IsActive (launch (record st { stopped = false }))
    started e (ended _ _ p q) = polling listing refl (ap (λ ps. listing ∷ ps) p) q
    started e (waiting t s r p q o) = elim (false≢true (sym e ∙ rw s refl)) [ ]
    started e (polling x r p q) = elim (false≢true (sym e ∙ rw r (or-true (not st.stopped)))) [ ]

stop-IsActive : (st : Poller) → IsActive st → IsActive (stop st)
unfolding stop
stop-IsActive st (ended s r p q) = ended refl r p (cleared st.timer st.pending q)
stop-IsActive st (waiting t s r p q o) = ended refl r p (cleared_own t st.timer st.pending o q)
stop-IsActive st (polling x r p q) = polling x r p (cleared st.timer st.pending q)

fire-IsActive :
    (st : Poller) (t : PendingTimer) (rest : List PendingTimer)
    → IsActive st
    → st.pending ≡ t ∷ rest
    → IsActive (fire rest st)
unfolding fire
fire-IsActive st t rest (ended s r p q) e = elim (nil_cons t rest (sym q ∙ e)) [ ]
fire-IsActive st t rest (waiting t' s r p q o) e =
    polling listing refl (ap (λ ps. listing ∷ ps) p) (single_rest t' t st.pending rest q e)
fire-IsActive st t rest (polling x r p q) e = elim (nil_cons t rest (sym q ∙ e)) [ ]

-- What is left when one poll of an active poller has been taken out.
record IsBusy (st : Poller) (others : List Poll) : Type 0 where
  pub marked : st.running ≡ true
  pub alone : others ≡ []
  pub untimed : st.pending ≡ []

active-IsBusy :
    (st : Poller) (p : Poll) (others : List Poll)
    → IsActive st
    → st.polls ≡ p ∷ others
    → IsBusy st others
active-IsBusy st p others (ended s r ps q) e = elim (nil_cons p others (sym ps ∙ e)) [ ]
active-IsBusy st p others (waiting t s r ps q o) e = elim (nil_cons p others (sym ps ∙ e)) [ ]
active-IsBusy st p others (polling x r ps q) e = record {
  marked = r;
  alone = single_rest x p st.polls others ps e;
  untimed = q;
}

next_bot-IsActive :
    (ids : List String) (others : List Poll) (st : Poller)
    → IsBusy st others
    → IsActive (next_bot ids others st)
next_bot-IsActive [] others st h =
    polling settled h.marked (ap (λ ps. settled ∷ ps) h.alone) h.untimed
next_bot-IsActive (id ∷ rest) others st h =
    polling (if st.stopped then settled else recovering rest) h.marked
      (ap (λ ps. (if st.stopped then settled else recovering rest) ∷ ps) h.alone) h.untimed

finish-IsActive :
    (interval now : ℕ) (others : List Poll) (st : Poller)
    → IsBusy st others
    → IsActive (finish interval now others st)
unfolding finish
finish-IsActive interval now others st h = elim (Bool-cases st.stopped) [
  | inl e ↦ ended e refl h.alone (rw e h.untimed)
  | inr e ↦
      waiting (record { timer_id = st.next_timer; due = now + interval }) e refl h.alone
        (rw e (ap (λ ts. record { timer_id = st.next_timer; due = now + interval } ∷ ts) h.untimed))
        (rw e refl)
]

Step-IsActive : (interval : ℕ) (st st' : Poller) → IsActive st → Step interval st st' → IsActive st'
unfolding enumerated not_enumerated recovered
Step-IsActive interval st _ h starting = start-IsActive st h
Step-IsActive interval st _ h stopping = stop-IsActive st h
Step-IsActive interval st _ h (firing now t rest e _) = fire-IsActive st t rest h e
Step-IsActive interval st _ h (listed ids others e) =
    next_bot-IsActive (distinct ids) others st (active-IsBusy st listing others h e)
Step-IsActive interval st _ h (not_listed others e) =
    next_bot-IsActive [] others st (active-IsBusy st listing others h e)
Step-IsActive interval st _ h (recovering_bot rest others e) =
    next_bot-IsActive rest others st (active-IsBusy st (recovering rest) others h e)
Step-IsActive interval st _ h (finishing now others e) =
    finish-IsActive interval now others st (active-IsBusy st settled others h e)

-- In whatever order the poller is started and stopped, its timers fire and its callbacks answer or
-- fail: from its construction on it never has two polls, nor a poll and a timer. While it is started
-- it always has one of the two, so it never falls silent, and once it has stopped and its poll is over
-- no timer is left.
pub Run-IsActive : (interval : ℕ) (st : Poller) → Run interval unstarted st → IsActive st
Run-IsActive interval _ begin = ended refl refl refl refl
Run-IsActive interval _ (then_step {st'} {st''} r s) =
    Step-IsActive interval st' st'' (Run-IsActive interval st' r) s
