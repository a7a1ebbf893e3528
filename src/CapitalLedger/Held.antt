-- ===== src/CapitalLedger/Held.antt =====
-- packages/db/src/repositories/portfolio-repository.ts: what is reserved at a band is the sum of its
-- open reservations.
use grid_bot.Common.{
  ◌≡◌, refl, sym, ap, subst, ◌∙◌, Bool, true, false, ◌&&◌, List, [], ◌∷◌, String, inl, inr, Memᴰ,
  Bool-cases, All, All-at, if◌then◌else◌, eq_iff, eq_refl, ℤ, pos, ◌+ℤ◌, ◌-ℤ◌, add_comm, add_zero,
  swap_ends, under_sum, sub_of_sum, add_cancel,
}
use grid_bot.Host.{◌===◌}
use grid_bot.CapitalLedger.Rules.{All-update_where}
use grid_bot.CapitalLedger.Tables.{
  Database, Tables, ReservationStatus, reserved, uncertain, settled, released, ReservationRow,
  update_where,
}

abbrev pub is_open : ReservationStatus → Bool
is_open reserved = true
is_open uncertain = true
is_open settled = false
is_open released = false

-- what a reservation holds back at a band
abbrev pub held_at : String → ReservationRow → ℤ
held_at id r = if (id === r.band_id) && is_open r.status then r.quote_amount else pos 0

abbrev pub held : String → List ReservationRow → ℤ
held id [] = pos 0
held id (r ∷ rs) = held_at id r +ℤ held id rs

-- No two reservations have one id.
abbrev pub IsDistinct : List ReservationRow → Type 0
IsDistinct [] = Unit
IsDistinct (r ∷ rs) = All (λ q. (q.id === r.id) ≡ false) rs × IsDistinct rs

-- nothing changes where the id does not stand
update-absent :
    (id : String) (g : ReservationRow → ReservationRow) (rs : List ReservationRow)
    → All (λ q. (q.id === id) ≡ false) rs
    → update_where (λ q. q.id === id) g rs ≡ rs
update-absent id g [] _ = refl
update-absent id g (r ∷ rs) (h, hs) = rw (h, update-absent id g rs hs) refl

text_apart : (a b : String) → (a === b) ≡ false → (b === a) ≡ false
text_apart a b h = elim (Bool-cases (b === a)) [
  | inl e ↦ e ∙ sym (subst (λ x. (a === x) ≡ true) (sym ((eq_iff b a).0 e)) (eq_refl a)) ∙ h
  | inr e ↦ e
]

-- The change of one reservation changes what is held by what it holds.
pub held-update :
    (id : String) (r : ReservationRow) (g : ReservationRow → ReservationRow)
    (rs : List ReservationRow)
    → IsDistinct rs
    → Memᴰ r rs
    → held id (update_where (λ q. q.id === r.id) g rs) +ℤ held_at id r
      ≡ held id rs +ℤ held_at id (g r)
held-update id r g [] d m = elim m [ ]
held-update id r g (z ∷ zs) (a, d) (Memᴰ.head e) =
    subst
      (λ y.
        held id (update_where (λ q. q.id === r.id) g (y ∷ zs)) +ℤ held_at id r
        ≡ held id (y ∷ zs) +ℤ held_at id (g r))
      e
      (rw
        (
          eq_refl r.id,
          update-absent r.id g zs (subst (λ y. All (λ q. (q.id === y.id) ≡ false) zs) (sym e) a),
        )
        (swap_ends (held_at id (g r)) (held id zs) (held_at id r)))
held-update id r g (z ∷ zs) (a, d) (Memᴰ.tail m) =
    rw (text_apart r.id z.id (All-at (λ q. (q.id === z.id) ≡ false) zs r a m)) (
      under_sum (held_at id z) (held id (update_where (λ q. q.id === r.id) g zs)) (held id zs)
        (held_at id r) (held_at id (g r)) (held-update id r g zs d m))

held-in :
    (id : String) (r : ReservationRow)
    → (id === r.band_id) ≡ true
    → is_open r.status ≡ true
    → held_at id r ≡ r.quote_amount
held-in id r a b = rw (a, b) refl

held-out : (id : String) (r : ReservationRow) → (id === r.band_id) ≡ false → held_at id r ≡ pos 0
held-out id r a = rw a refl

held-closed : (id : String) (r : ReservationRow) → is_open r.status ≡ false → held_at id r ≡ pos 0
held-closed id r b = elim (Bool-cases (id === r.band_id)) [
  | inl a ↦ rw (a, b) refl
  | inr a ↦ rw a refl
]

-- A new reservation is held at its band and at no other.
pub held-new :
    (id : String) (total : ℤ) (r : ReservationRow) (rs : List ReservationRow)
    → is_open r.status ≡ true
    → total ≡ held id rs
    → ((id === r.band_id) ≡ true → total +ℤ r.quote_amount ≡ held id (r ∷ rs))
      × ((id === r.band_id) ≡ false → total ≡ held id (r ∷ rs))
held-new id total r rs o p = (
  λ e. rw (p, held-in id r e o) (add_comm (held id rs) r.quote_amount),
  λ e. rw (p, held-out id r e) (sym (add_comm (pos 0) (held id rs) ∙ add_zero (held id rs))),
)

module _ (r : ReservationRow) (g : ReservationRow → ReservationRow) (rs : List ReservationRow)
    (d : IsDistinct rs) (m : Memᴰ r rs) (o : is_open r.status ≡ true)
    (same : (g r).band_id ≡ r.band_id) where
  abbrev changed : List ReservationRow
  changed = update_where (λ q. q.id === r.id) g rs

  elsewhere : (id : String) → (id === r.band_id) ≡ false → held id changed ≡ held id rs
  elsewhere id e = add_cancel (held id changed) (held id rs) (held_at id r) (
      held-update id r g rs d m
      ∙ ap (λ x. held id rs +ℤ x)
          (held-out id (g r) (subst (λ y. (id === y) ≡ false) (sym same) e)
            ∙ sym (held-out id r e)))

  -- A reservation that is closed is no longer held at its band.
  pub held-close :
      (id : String) (total : ℤ)
      → is_open (g r).status ≡ false
      → total ≡ held id rs
      → ((id === r.band_id) ≡ true → total -ℤ r.quote_amount ≡ held id changed)
        × ((id === r.band_id) ≡ false → total ≡ held id changed)
  held-close id total closed p = (
    λ e. sub_of_sum (held id changed) r.quote_amount total (
        ap (λ x. held id changed +ℤ x) (sym (held-in id r e o))
        ∙ held-update id r g rs d m
        ∙ ap (λ x. held id rs +ℤ x) (held-closed id (g r) closed)
        ∙ add_zero (held id rs)
        ∙ sym p),
    λ e. p ∙ sym (elsewhere id e),
  )

  -- One that stays open is held as before.
  pub held-stay :
      (id : String)
      → is_open (g r).status ≡ true
      → (g r).quote_amount ≡ r.quote_amount
      → held id changed ≡ held id rs
  held-stay id stays amount = elim (Bool-cases (id === r.band_id)) [
    | inr e ↦ elsewhere id e
    | inl e ↦ add_cancel (held id changed) (held id rs) (held_at id r) (
        held-update id r g rs d m
        ∙ ap (λ x. held id rs +ℤ x)
            (held-in id (g r) (subst (λ y. (id === y) ≡ true) (sym same) e) stays
              ∙ amount
              ∙ sym (held-in id r e o)))
  ]

update-fresh :
    (p : ReservationRow → Bool) (g : ReservationRow → ReservationRow)
    → ((r : ReservationRow) → (g r).id ≡ r.id)
    → (id : String) (rs : List ReservationRow) → All (λ q. (q.id === id) ≡ false) rs
    → All (λ q. (q.id === id) ≡ false) (update_where p g rs)
update-fresh p g keeps id rs h =
    All-update_where _ _ p g rs (λ r _ e. subst (λ y. (y === id) ≡ false) (sym (keeps r)) e)
      (λ r _ e. e) h

pub update-IsDistinct :
    (p : ReservationRow → Bool) (g : ReservationRow → ReservationRow)
    → ((r : ReservationRow) → (g r).id ≡ r.id)
    → (rs : List ReservationRow) → IsDistinct rs
    → IsDistinct (update_where p g rs)
update-IsDistinct p g keeps [] _ = tt
update-IsDistinct p g keeps (r ∷ rs) (a, d) = elim (Bool-cases (p r)) [
  | inl e ↦ rw e (
    subst (λ y. All (λ q. (q.id === y) ≡ false) (update_where p g rs)) (sym (keeps r))
        (update-fresh p g keeps r.id rs a),
    update-IsDistinct p g keeps rs d,
  )
  | inr e ↦ rw e (update-fresh p g keeps r.id rs a, update-IsDistinct p g keeps rs d)
]

-- Every band's reserved amount is the sum of its open reservations, which have distinct ids and
-- amounts that survive the trip to a number and back.
pub record IsHeld {D : Type 0} (s : Database D) (db : Tables D) : Type 0 where
  pub sums : All (λ b. b.reserved_quote_amount ≡ held b.id db.reservations) db.bands
  pub distinct : IsDistinct db.reservations
  pub stable : All (λ r. s.amount (s.value r.quote_amount) ≡ r.quote_amount) db.reservations
