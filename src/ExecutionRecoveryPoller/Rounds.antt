-- ===== src/ExecutionRecoveryPoller/Rounds.antt =====
-- apps/worker/src/execution-recovery-poller.ts: a round of a started poller, from its list to its timer.
use grid_bot.Common.{
  ℕ, zero, suc, ◌+◌, ◌≡◌, sym, ap, subst, ◌∙◌, Bool, true, false, not, some, List, [], ◌∷◌, ◌++◌,
  String, Memᴰ, keep, Bool-cases, inl, inr, All, All-mono, All-keep, All-keep_of, All-Mem, Mem-keep,
  IsKeyed, eq_iff, length, arith,
}
use mathlib.Core.List.{append-nil, append_assoc}
use grid_bot.Host.{◌===◌}
use grid_bot.ExecutionRecoveryPoller.Polling.{
  Poll, recovering, settled, Poller, distinct, next_bot, enumerated, recovered, finish,
}

IsKeyed-keep :
    (p : String → Bool) (ids : List String) → IsKeyed (λ q. q) ids → IsKeyed (λ q. q) (keep p ids)
IsKeyed-keep p [] h = tt
IsKeyed-keep p (id ∷ ids) (h, hs) = elim (Bool-cases (p id)) [
  | inl e ↦ rw e (All-keep_of _ p ids h, IsKeyed-keep p ids hs)
  | inr e ↦ rw e (IsKeyed-keep p ids hs)
]

not-true : (b : Bool) → not b ≡ true → b ≡ false
not-true b e = ground arith

distinct-IsKeyed : (ids : List String) → IsKeyed (λ q. q) (distinct ids)
unfolding distinct
distinct-IsKeyed [] = tt
distinct-IsKeyed (id ∷ ids) = (
  All-mono _ _ _ (λ q e. not-true (q === id) e) (All-keep (λ q. not (q === id)) (distinct ids)),
  IsKeyed-keep (λ q. not (q === id)) (distinct ids) (distinct-IsKeyed ids),
)

Mem-distinct : (id : String) (ids : List String) → Memᴰ id ids → Memᴰ id (distinct ids)
unfolding distinct
Mem-distinct id [] m = elim m [ ]
Mem-distinct id (x ∷ ids) (Memᴰ.head e) = Memᴰ.head e
Mem-distinct id (x ∷ ids) (Memᴰ.tail m) = elim (Bool-cases (id === x)) [
  | inl e ↦ Memᴰ.head ((eq_iff id x).0 e)
  | inr e ↦
      Memᴰ.tail (Mem-keep id (λ q. not (q === x)) (distinct ids) (ap not e) (Mem-distinct id ids m))
]

distinct-All : (P : String → Type 0) (ids : List String) → All P ids → All P (distinct ids)
unfolding distinct
distinct-All P [] h = tt
distinct-All P (id ∷ ids) (h, hs) = (h, All-keep_of _ _ _ (distinct-All P ids hs))

-- The recovery that the poll waits for has ended or failed.
abbrev pub answer : Poller → List Poll → Poller
answer st (recovering rest ∷ others) = recovered rest others st
answer st _ = st

abbrev pub answers : ℕ → Poller → Poller
answers zero st = st
answers (suc n) st = answers n (answer st st.polls)

answers-next_bot :
    (ids : List String) (st : Poller)
    → answers (length ids) (next_bot ids [] (record st { stopped = false }))
      ≡ record st { stopped = false; polls = settled ∷ []; calls = st.calls ++ ids }
unfolding recovered
answers-next_bot [] st =
    ap (λ c. record st { stopped = false; polls = settled ∷ []; calls = c })
      (sym (append-nil st.calls))
answers-next_bot (id ∷ rest) st =
    answers-next_bot rest (record st { polls = recovering rest ∷ []; calls = st.calls ++ id ∷ [] })
    ∙ ap (λ c. record st { stopped = false; polls = settled ∷ []; calls = c })
        (append_assoc st.calls (id ∷ []) rest)

-- A poll ends: when the poller stays started, the poll is over after one answer for each of the
-- distinct ids, whether their recoveries succeed or fail. It has then handed each listed id to
-- recoverBot, each once, and the poller waits for one timer more, due after the interval.
pub round-recovers :
    (interval now : ℕ) (ids : List String) (st : Poller)
    → st.stopped ≡ false
    → (finish interval now [] (answers (length (distinct ids)) (enumerated ids [] st)) ≡ record st {
      running = false;
      polls = [];
      timer = some st.next_timer;
      pending = record { timer_id = st.next_timer; due = now + interval } ∷ st.pending;
      next_timer = suc st.next_timer;
      calls = st.calls ++ distinct ids;
    })
      × IsKeyed (λ q. q) (distinct ids)
      × ((id : String) → Memᴰ id ids → Memᴰ id (distinct ids))
      × All (λ id. Memᴰ id ids) (distinct ids)
unfolding finish enumerated
round-recovers interval now ids st e = (
  subst IsRound (ap (λ b. record st { stopped = b }) (sym e))
      (ap (finish interval now []) (answers-next_bot (distinct ids) st)),
  distinct-IsKeyed ids,
  λ id m. Mem-distinct id ids m,
  distinct-All _ ids (All-Mem ids),
)
  where
    IsRound : Poller → Type 0
    IsRound s =
        finish interval now [] (answers (length (distinct ids)) (enumerated ids [] s)) ≡ record s {
          running = false;
          polls = [];
          timer = some s.next_timer;
          pending = record { timer_id = s.next_timer; due = now + interval } ∷ s.pending;
          next_timer = suc s.next_timer;
          calls = s.calls ++ distinct ids;
        }
