-- ===== src/ShadowOutbox/Machine.antt =====
-- What the queue promises of one job: who may work on it, until when, and which attempt that is. The
-- states and moves are those of the job's contract with its workers; the columns of a row, the order of
-- the queue and the other jobs are left out.
use grid_bot.Common.{◌∷◌, [], List, ℕ, ◌+◌, ◌≤◌, ◌≡◌, refl, subst, String, if◌then◌else◌, or_else}
use grid_bot.ShadowOutbox.Rows.{JobRow, is_processing}

pub data View : Type 0 where
  -- anyone may take it from a time on; so many attempts have ended
  free : ℕ → ℕ → View
  -- a worker holds it until a time, for the attempt of this number
  taken : String → ℕ → ℕ → View
  -- it is settled after so many attempts
  closed : ℕ → View

-- What is done to the queue: a job is added, a worker asks for jobs at a time, or a worker reports on
-- the job of an id at a time.
pub data Act : Type 0 where
  adds : Act
  claims : String → ℕ → Act
  reports : String → String → ℕ → Act

-- What an act may do to the job of an id.
pub data Move (id : String) : Act → View → View → Type 0 where
  rest : (a : Act) (v : View) → Move id a v v
  take_free :
      (from n now until : ℕ) (worker : String)
      → from ≤ now
      → now ≤ until
      → Move id (claims worker now) (free from n) (taken worker until (n + 1))
  take_lapsed :
      (owner worker : String) (end n now until : ℕ)
      → end ≤ now
      → now ≤ until
      → Move id (claims worker now) (taken owner end n) (taken worker until (n + 1))
  -- only a report on this job by its owner, while the lease runs
  settle :
      (owner : String) (end n now : ℕ)
      → now ≤ end
      → Move id (reports id owner now) (taken owner end n) (closed n)
  give_back :
      (owner : String) (end n now from : ℕ)
      → now ≤ end
      → now ≤ from
      → Move id (reports id owner now) (taken owner end n) (free from n)

-- The moves that acts make, one after another; the latest act stands first.
pub data Moves (id : String) (v : View) : List Act → View → Type 0 where
  none_yet : Moves id v [] v
  then_move :
      (acts : List Act) (a : Act) (w x : View)
      → Moves id v acts w
      → Move id a w x
      → Moves id v (a ∷ acts) x

-- A settled job makes no move.
pub Moves-closed :
    (id : String) (n : ℕ) (acts : List Act) (v : View) → Moves id (closed n) acts v → v ≡ closed n
Moves-closed id n _ _ none_yet = refl
Moves-closed id n _ x (then_move acts a w _ moves move) =
    last w x (Moves-closed id n acts w moves) move
  where
    still : (b : Act) (x : View) → Move id b (closed n) x → x ≡ closed n
    still b _ (rest _ _) = refl

    last : (w x : View) → w ≡ closed n → Move id a w x → x ≡ closed n
    last w x e move = still a x (subst (λ y. Move id a y x) e move)

abbrev pub view : {D : Type 0} → JobRow D → View
view j =
    if j.terminal
    then closed j.attempt_count
    else if is_processing j.status
    then taken (or_else j.claimed_by "") (or_else j.lease_expires_at 0) j.attempt_count
    else free j.available_at j.attempt_count
