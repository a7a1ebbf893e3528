-- ===== src/CapitalLedger/Rules.antt =====
-- packages/db/src/repositories/portfolio-repository.ts: what is known of a transaction that commits.
use grid_bot.Common.{
  subst, ◌≡◌, refl, Bool, true, false, Option, none, some, List, [], ◌∷◌, inl, inr, Bool-cases, All,
  is_some,
}
use grid_bot.CapitalLedger.Tables.{
  Tables, Outcome, done, refused, LedgerError, EntryRow, require, found, update_where, entry_by_key,
  post,
}

-- A transaction that commits returns a value and tables that meet `P`.
abbrev pub Holds : {D A : Type 0} → (A → Tables D → Type 0) → Outcome D A → Type 0
Holds P (done a db) = P a db
Holds P (refused _) = Unit

module _ {D A : Type 0} (P : A → Tables D → Type 0) where
  pub require-Holds :
      (test : Bool) (e : LedgerError) (next : Outcome D A)
      → (test ≡ true → Holds P next)
      → Holds P (require test e next)
  unfolding require
  require-Holds true e next h = h refl
  require-Holds false e next h = tt

  pub found-Holds :
      {B : Type 0} (o : Option B) (e : LedgerError) (next : B → Outcome D A)
      → ((b : B) → o ≡ some b → Holds P (next b))
      → Holds P (found o e next)
  unfolding found
  found-Holds none e next h = tt
  found-Holds (some b) e next h = h b refl

  pub post-Holds :
      (db : Tables D) (e : EntryRow D) (a : A)
      → (is_some (entry_by_key db e.portfolio_id e.idempotency_key) ≡ false
          → P a (record db { entries = e ∷ db.entries }))
      → Holds P (post db e a)
  unfolding post
  post-Holds db e a h =
      elim (Bool-cases (is_some (entry_by_key db e.portfolio_id e.idempotency_key))) [
        | inl t ↦ rw t tt
        | inr t ↦ rw t (h t)
      ]

-- A table after an update, row by row.
pub All-update_where :
    {A : Type 0} (P Q : A → Type 0) (p : A → Bool) (g : A → A) (xs : List A)
    → ((a : A) → p a ≡ true → P a → Q (g a))
    → ((a : A) → p a ≡ false → P a → Q a)
    → All P xs
    → All Q (update_where p g xs)
All-update_where P Q p g [] change stay _ = tt
All-update_where P Q p g (x ∷ xs) change stay (h, hs) = elim (Bool-cases (p x)) [
  | inl e ↦ rw e (change x e h, All-update_where P Q p g xs change stay hs)
  | inr e ↦ rw e (stay x e h, All-update_where P Q p g xs change stay hs)
]

pub Holds-at :
    {D A : Type 0} (P : A → Tables D → Type 0) (o : Outcome D A) (a : A) (db : Tables D)
    → Holds P o
    → o ≡ done a db
    → P a db
Holds-at P o a db h e = subst (Holds P) e h
