-- ===== src/CapitalLedger/Audit.antt =====
-- packages/db/src/repositories/portfolio-repository.ts: the ledger explains the balances of the bands.
use grid_bot.Common.{
  ◌≡◌, refl, sym, ap, subst, ◌∙◌, Bool, true, false, List, [], ◌∷◌, String, All, All-mono,
  if◌then◌else◌, if-both, ℤ, pos, ◌+ℤ◌, ◌-ℤ◌, add_comm, add_zero, int_laws,
}
use grid_bot.Host.{◌===◌}
use grid_bot.CapitalLedger.Tables.{Tables, EntryRow, BandRow, update_where}
use grid_bot.CapitalLedger.Rules.{All-update_where}

-- the balances of a band that ledger entries have deltas for
pub data Column : Type 0 where
  allocated available held deployed : Column

abbrev pub balance : Column → BandRow → ℤ
balance allocated b = b.allocated_quote_amount
balance available b = b.available_quote_amount
balance held b = b.reserved_quote_amount
balance deployed b = b.deployed_cost_quote

module _ {D : Type 0} where
  abbrev pub delta : Column → EntryRow D → ℤ
  delta allocated e = e.band_allocated_quote_delta
  delta available e = e.band_available_quote_delta
  delta held e = e.band_reserved_quote_delta
  delta deployed e = e.band_deployed_cost_delta

  abbrev pub share : Column → String → EntryRow D → ℤ
  share c id e = if id === e.band_id then delta c e else pos 0

  abbrev pub total : Column → String → List (EntryRow D) → ℤ
  total c id [] = pos 0
  total c id (e ∷ es) = share c id e +ℤ total c id es

  abbrev pub IsExplained : List (EntryRow D) → BandRow → Type 0
  IsExplained es b = (c : Column) → balance c b ≡ total c b.id es

  -- Every balance of every band is the sum of the deltas that the ledger has for it.
  abbrev pub IsAudited : Tables D → Type 0
  IsAudited db = All (IsExplained db.entries) db.bands

  picked :
      (c : Column) (id : String) (e : EntryRow D) (test : Bool)
      → (id === e.band_id) ≡ test
      → share c id e ≡ (if test then delta c e else pos 0)
  picked c id e test t = rw t refl

  -- A change of a band with the entry that says so.
  pub post-Audits :
      (bands : List BandRow) (es : List (EntryRow D)) (id : String) (g : BandRow → BandRow)
      (e : EntryRow D)
      → ((b : BandRow) → (g b).id ≡ b.id)
      → e.band_id ≡ id
      → ((c : Column) (b : BandRow) → balance c (g b) ≡ balance c b +ℤ delta c e)
      → All (IsExplained es) bands
      → All (IsExplained (e ∷ es)) (update_where (λ b. b.id === id) g bands)
  post-Audits bands es id g e ids at change h =
      All-update_where _ _ (λ b. b.id === id) g bands
        (λ b t p c.
          change c b
          ∙ ap (λ x. x +ℤ delta c e) (p c)
          ∙ add_comm (total c b.id es) (delta c e)
          ∙ ap (λ x. x +ℤ total c b.id es)
              (sym (picked c b.id e true (subst (λ y. (b.id === y) ≡ true) (sym at) t)))
          ∙ ap (λ y. total c y (e ∷ es)) (sym (ids b)))
        (λ b t p c.
          p c
          ∙ sym (add_comm (pos 0) (total c b.id es) ∙ add_zero (total c b.id es))
          ∙ ap (λ x. x +ℤ total c b.id es)
              (sym (picked c b.id e false (subst (λ y. (b.id === y) ≡ false) (sym at) t))))
        h

  -- An entry without amounts for a band changes no sum.
  pub note-Audits :
      (bands : List BandRow) (es : List (EntryRow D)) (e : EntryRow D)
      → ((c : Column) → delta c e ≡ pos 0)
      → All (IsExplained es) bands
      → All (IsExplained (e ∷ es)) bands
  note-Audits bands es e none_of h =
      All-mono _ _ bands
        (λ b p c.
          p c
          ∙ sym (add_comm (pos 0) (total c b.id es) ∙ add_zero (total c b.id es))
          ∙ ap (λ x. x +ℤ total c b.id es)
              (sym (
                if-both (λ x. x ≡ pos 0) (b.id === e.band_id) (delta c e) (pos 0) (λ _. none_of c)
                  (λ _. refl))))
        h

-- An entry whose deltas for the band are all zero.
pub silent :
    {D : Type 0} (e : EntryRow D)
    → delta allocated e ≡ pos 0
    → delta available e ≡ pos 0
    → delta held e ≡ pos 0
    → delta deployed e ≡ pos 0
    → (c : Column) → delta c e ≡ pos 0
silent e a v q d allocated = a
silent e a v q d available = v
silent e a v q d held = q
silent e a v q d deployed = d

pub sub_as_add : (a b : ℤ) → a -ℤ b ≡ a +ℤ (pos 0 -ℤ b)
sub_as_add a b = omega int_laws
