-- ===== src/Remittances/Settling/Within.antt =====
-- That settlements never allot more than a remittance amounts to.
use gold_nest.Tx.{throw_if, remittance_not_found}
use gold_nest.Tx.Ensures.{Ensures, Ensures-bind, throw_if-same}
use gold_nest.Int.{ℤ, ◌+ℤ◌, ◌≤ℤ◌, ◌-ℤ◌, int_laws, pos}
use gold_nest.Remittances.Settling.{
  Totals, SettlementInput, get_total, link_to, settled_total, status_after, settle_one, settle_all,
  settle_each, rows_in, source_ids, totals_before, is_missing,
}
use gold_nest.Records.{Remittance, SettlementLink}
use gold_nest.Table.{Table, find_unique, find_unique-update}
use gold_nest.Db.{Db}
use gold_nest.Base.{
  ℕ, ◌≡◌, some, ◌∷◌, ◌∙◌, Bool-cases, ◌==◌, inl, ==_iff, ap, inr, some_unique, arith, sym, refl,
  Option-cases, List, [], any, true, false,
}

-- No remittance is settled beyond its amount.
abbrev pub SettledWithin : Db → Type 0
SettledWithin d =
    (s : ℕ) (r : Remittance)
    → find_unique s d.remittances ≡ some r
    → settled_total s d.settlement_links ≤ℤ r.amount

-- What the loop knows: the sources have the amounts of the table, and their totals are those of the
-- links.
pub record IsTracked (sources : Table Remittance) (totals : Totals) (d : Db) : Type 0 where
  pub within : SettledWithin d
  pub amounts :
      (s : ℕ) (r : Remittance)
      → find_unique s sources ≡ some r
      → (x : Remittance) × (find_unique s d.remittances ≡ some x) × (x.amount ≡ r.amount)
  pub tracked :
      (s : ℕ) (r : Remittance)
      → find_unique s sources ≡ some r
      → get_total s totals.by_source ≡ settled_total s d.settlement_links

room-left :
    (total amount source_amount row_amount links linked : ℤ)
    → amount ≤ℤ source_amount -ℤ total
    → row_amount ≡ source_amount
    → links ≡ total
    → linked ≡ amount +ℤ links
    → linked ≤ℤ row_amount
room-left total amount source_amount row_amount links linked enough same at_total new =
    rw (new, same, at_total) (omega int_laws)

skip-zero : (links amount : ℤ) → links ≤ℤ amount → pos 0 +ℤ links ≤ℤ amount
skip-zero links amount h = omega int_laws

module _ (sources : Table Remittance) (totals : Totals) (d : Db) (k : IsTracked sources totals d)
    (i : SettlementInput) (source : Remittance)
    (found : find_unique i.source_id sources ≡ some source) where
  settled_now : ℤ
  settled_now = get_total i.source_id totals.by_source +ℤ i.amount

  linked : Db
  linked = link_to i settled_now d source

  totals_now : ℤ → Totals
  totals_now leg_total = record {
    by_source = (i.source_id, settled_now) ∷ totals.by_source;
    by_leg = (i.leg_id, leg_total) ∷ totals.by_leg;
  }

  at_source :
      (x : Remittance) × (find_unique i.source_id d.remittances ≡ some x)
      × (x.amount ≡ source.amount)
  at_source = k.amounts i.source_id source found

  linked-amounts :
      (s : ℕ) (x : Remittance)
      → find_unique s d.remittances ≡ some x
      → (y : Remittance) × (find_unique s linked.remittances ≡ some y) × (y.amount ≡ x.amount)
  unfolding linked
  linked-amounts s x e =
      let law =
        find_unique-update s i.source_id
          (λ (x : Remittance). record x { status = status_after settled_now source.amount })
          d.remittances at_source.0 at_source.1 in
      elim (Bool-cases (i.source_id == s)) [
        | inl this ↦
            let at_s : i.source_id ≡ s = (==_iff i.source_id s).0 this in
            let here : find_unique i.source_id d.remittances ≡ some x = rw (at_s) e in
            let same : at_source.0 ≡ x = some_unique _ at_source.0 x at_source.1 here in
            (
              record at_source.0 { status = status_after settled_now source.amount },
              ground arith,
              ap (λ (r : Remittance). r.amount) same,
            )
        | inr other ↦ (x, ground arith, refl)
      ]

  linked-SettledWithin :
      i.amount ≤ℤ source.amount -ℤ get_total i.source_id totals.by_source → SettledWithin linked
  unfolding linked
  linked-SettledWithin enough s r e =
      let law =
        find_unique-update s i.source_id
          (λ (x : Remittance). record x { status = status_after settled_now source.amount })
          d.remittances at_source.0 at_source.1 in
      elim (Bool-cases (i.source_id == s)) [
        | inl this ↦
            let at_s : i.source_id ≡ s = (==_iff i.source_id s).0 this in
            let amount_of : r.amount ≡ source.amount =
              ap (λ (x : Remittance). x.amount)
                (some_unique _ r
                  (record at_source.0 { status = status_after settled_now source.amount }) e
                  (ground arith))
              ∙ at_source.2 in
            let before = k.tracked i.source_id source found in
            let total : settled_total s d.settlement_links
                ≡ get_total i.source_id totals.by_source =
              rw (← at_s) (sym before) in
            room-left (get_total i.source_id totals.by_source) i.amount source.amount r.amount
              (settled_total s d.settlement_links) (settled_total s linked.settlement_links) enough
              amount_of total (ground (arith, this))
        | inr other ↦
            let old = k.within s r (ground arith) in
            rw (other) (skip-zero (settled_total s d.settlement_links) r.amount old)
      ]

  linked-IsTracked :
      (leg_total : ℤ)
      → i.amount ≤ℤ source.amount -ℤ get_total i.source_id totals.by_source
      → IsTracked sources (totals_now leg_total) linked
  unfolding linked totals_now settled_now
  linked-IsTracked leg_total enough = record {
    within = linked-SettledWithin enough;
    amounts = λ s r e.
        (let x = k.amounts s r e in let y = linked-amounts s x.0 x.1 in (y.0, y.1, y.2 ∙ x.2));
    tracked = λ s r e. elim (Bool-cases (i.source_id == s)) [
      | inl this ↦
          let at_s : i.source_id ≡ s = (==_iff i.source_id s).0 this in
          let before = k.tracked s r e in grind (int_laws, this, before, at_s)
      | inr other ↦ let before = k.tracked s r e in grind (int_laws, other, before)
    ];
  }

step-IsTracked :
    (sources : Table Remittance) (totals : Totals) (i : SettlementInput) (d : Db)
    → IsTracked sources totals d
    → Ensures (IsTracked sources) (settle_one sources totals i d)
unfolding settle_one linked totals_now settled_now
step-IsTracked sources totals i d k = elim (Option-cases (find_unique i.source_id sources)) [
  | inl missing ↦ ground (arith, missing)
  | inr (source, found) ↦
      let law =
        linked-IsTracked sources totals d k i source found
          (get_total i.leg_id totals.by_leg +ℤ i.amount) in
      ground (arith, found, law)
]

loop-IsTracked :
    (sources : Table Remittance) (is : List SettlementInput) (totals : Totals) (d : Db)
    → IsTracked sources totals d
    → Ensures (λ _ d'. SettledWithin d') (settle_each sources totals is d)
unfolding settle_each
loop-IsTracked sources [] totals d k = k.within
loop-IsTracked sources (i ∷ is) totals d k =
    Ensures-bind (IsTracked sources) (λ _ d'. SettledWithin d') (settle_one sources totals i)
      (λ after. settle_each sources after is) d (step-IsTracked sources totals i d k)
      (λ after d' k'. loop-IsTracked sources is after d' k')

pub rows_in-found :
    (ids : List ℕ) (s : ℕ) (rows : Table Remittance) (r : Remittance)
    → find_unique s (rows_in ids rows) ≡ some r
    → (any (λ i. i == s) ids ≡ true) × (find_unique s rows ≡ some r)
rows_in-found ids s [] r e = cc
rows_in-found ids s ((j, x) ∷ rows) r e = elim (Bool-cases (any (λ i. i == j) ids)) [
  | inl listed ↦ elim (Bool-cases (j == s)) [
    | inl this ↦
        let at_s : j ≡ s = (==_iff j s).0 this in
        (rw (← at_s) listed, ground (arith, listed, this, e))
    | inr other ↦
        let rest = rows_in-found ids s rows r (ground (arith, listed, other, e)) in
        (rest.0, ground (arith, other, rest.1))
  ]
  | inr left_out ↦
      let rest = rows_in-found ids s rows r (ground (arith, left_out, e)) in
      elim (Bool-cases (j == s)) [
        | inl this ↦
            let at_s : j ≡ s = (==_iff j s).0 this in
            let clash : any (λ i. i == s) ids ≡ false = rw (← at_s) left_out in
            absurd (ground (arith, clash, rest.0))
        | inr other ↦ (rest.0, ground (arith, other, rest.1))
      ]
]

totals_before-tracked :
    (links : List SettlementLink) (s : ℕ) (rows : Table Remittance) (r : Remittance)
    → find_unique s rows ≡ some r
    → get_total s (totals_before links rows) ≡ settled_total s links
totals_before-tracked links s [] r e = cc
totals_before-tracked links s ((j, x) ∷ rows) r e = elim (Bool-cases (j == s)) [
  | inl this ↦
      let at_s : j ≡ s = (==_iff j s).0 this in rw (this) (ap (λ n. settled_total n links) at_s)
  | inr other ↦
      let rest = totals_before-tracked links s rows r (ground (arith, other, e)) in rw (other) rest
]

-- Where no remittance is settled beyond its amount, the settlements of a group that go through leave
-- it so: what all links together allot to a remittance stays within its amount, also where several
-- settlements of the group have the same source.
pub settle_all-SettledWithin :
    (is : List SettlementInput) (d : Db)
    → SettledWithin d
    → Ensures (λ _ d'. SettledWithin d') (settle_all is d)
unfolding settle_all
settle_all-SettledWithin is d v =
    let sources = rows_in (source_ids is) d.remittances in
    let before : Totals = record {
      by_source = totals_before d.settlement_links sources;
      by_leg = [];
    } in
    Ensures-bind (λ _ d'. d' ≡ d) (λ _ d'. SettledWithin d')
      (throw_if (any (is_missing sources) is) remittance_not_found)
      (λ _ d'.
        settle_each sources
          (record { by_source = totals_before d'.settlement_links sources; by_leg = [] }) is d')
      d (throw_if-same _ _ d)
      (λ _ d' same. rw same (
        loop-IsTracked sources is before d (record {
          within = v;
          amounts = λ s r e. (r, (rows_in-found (source_ids is) s d.remittances r e).1, refl);
          tracked = λ s r e. totals_before-tracked d.settlement_links s sources r e;
        })))
