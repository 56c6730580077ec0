-- ===== src/Remittances/Settling/Stuck.antt =====
-- What settlements leave of the remittances that they settle: whatever such a remittance holds of
-- its sender's balance, no later decision gives it back or spends it.
use gold_nest.Remittances.Settling.Within.{rows_in-found}
use gold_nest.Tx.{err, invalid_status, Error, remittance_not_found, throw_if}
use gold_nest.Tx.Ensures.{Ensures, Ensures-bind, Ensures-map, throw_if-same}
use gold_nest.Table.{Table, find_unique, find_unique-update}
use gold_nest.Remittances.Settling.{
  settle_all, settle_each, settle_one, SettlementInput, status_after, Totals, rows_in, link_to,
  source_ids, totals_before, get_total, is_missing,
}
use gold_nest.Remittances.Deciding.{
  approve_by, approve_remittance, decline_by, reject_remittance, cancel_by_user, find_remittance,
}
use gold_nest.Records.{RemittanceStatus, Remittance, partial, completed, pending, cancelled}
use gold_nest.Int.{ℤ, leb_ℤ, ◌+ℤ◌}
use gold_nest.Db.{Db}
use gold_nest.Base.{
  ℕ, ◌≡◌, List, Bool, All, true, Bool-cases, Option-cases, false, some, ◌∷◌, inl, refl, ◌==◌, [],
  arith, inr, ◌&&◌, ==_refl, ◌∙◌, any,
}

-- The statuses in which a settlement leaves its source.
abbrev is_settled : RemittanceStatus → Bool
is_settled partial = true
is_settled completed = true
is_settled _ = false

abbrev IsSettled : Db → ℕ → Type 0
IsSettled d s =
    (r : Remittance) × (find_unique s d.remittances ≡ some r) × (is_settled r.status ≡ true)

-- An approval changes nothing, and a rejection or a cancellation throws, whoever asks for it.
pub record IsStuck (d : Db) (s : ℕ) : Type 0 where
  pub approving : (admin_id : ℕ) → Ensures (λ _ d'. d' ≡ d) (approve_remittance s admin_id d)
  pub rejecting : reject_remittance s d ≡ err invalid_status
  pub cancelling : (user_id : ℕ) → (e : Error) × (cancel_by_user s user_id d ≡ err e)

decline_by-settled :
    (s : ℕ) (d : Db) (r : Remittance) (status : RemittanceStatus)
    → is_settled status ≡ true
    → decline_by s r status d ≡ err invalid_status
unfolding decline_by
decline_by-settled s d r partial h = refl
decline_by-settled s d r completed h = refl
decline_by-settled s d r pending h = absurd (ground (arith, h))
decline_by-settled s d r cancelled h = absurd (ground (arith, h))

approve_by-settled :
    (s admin_id : ℕ) (d : Db) (r : Remittance) (status : RemittanceStatus)
    → is_settled status ≡ true
    → Ensures (λ _ d'. d' ≡ d) (approve_by s r admin_id status d)
unfolding approve_by
approve_by-settled s admin_id d r partial h = tt
approve_by-settled s admin_id d r completed h = refl
approve_by-settled s admin_id d r pending h = absurd (ground (arith, h))
approve_by-settled s admin_id d r cancelled h = absurd (ground (arith, h))

IsSettled-IsStuck : (d : Db) (s : ℕ) → IsSettled d s → IsStuck d s
unfolding approve_remittance reject_remittance cancel_by_user find_remittance
IsSettled-IsStuck d s (r, e, h) =
    let declined = decline_by-settled s d r r.status h in
    record {
      approving = λ admin_id.
          (let approved = approve_by-settled s admin_id d r r.status h in
            ground (arith, e, approved));
      rejecting = ground (arith, e, declined);
      cancelling = λ user_id. elim (Bool-cases (r.from_user_id == user_id)) [
        | inl mine ↦ (invalid_status, ground (arith, e, mine, declined))
        | inr other ↦ (remittance_not_found, ground (arith, e, other))
      ];
    }

-- What a step of the loop does to the remittances.
record Settles (sources : Table Remittance) (d d' : Db) : Type 0 where
  ledger_kept : d'.ledger ≡ d.ledger
  grows : (s : ℕ) → IsSettled d s → IsSettled d' s
  present :
      (s : ℕ) (r : Remittance)
      → find_unique s sources ≡ some r
      → (x : Remittance) × (find_unique s d'.remittances ≡ some x)

abbrev Present : Table Remittance → Db → Type 0
Present sources d =
    (s : ℕ) (r : Remittance)
    → find_unique s sources ≡ some r
    → (x : Remittance) × (find_unique s d.remittances ≡ some x)

status_after-settled : (settled amount : ℤ) → is_settled (status_after settled amount) ≡ true
status_after-settled settled amount =
    elim (Bool-cases (leb_ℤ settled amount && leb_ℤ amount settled)) [
      | inl full ↦ rw full refl
      | inr part ↦ rw part refl
    ]

module _ (sources : Table Remittance) (d : Db) (k : Present sources d) (i : SettlementInput)
    (source : Remittance) (found : find_unique i.source_id sources ≡ some source)
    (settled : ℤ) where
  row : Remittance
  row = (k i.source_id source found).0

  linked : Db
  linked = link_to i settled d source

  linked-at :
      (s : ℕ) (x : Remittance)
      → find_unique s d.remittances ≡ some x
      → (y : Remittance) × (find_unique s linked.remittances ≡ some y)
        × (is_settled x.status ≡ true → is_settled y.status ≡ true)
  unfolding linked row
  linked-at s x e =
      let law =
        find_unique-update s i.source_id
          (λ (x : Remittance). record x { status = status_after settled source.amount })
          d.remittances row (k i.source_id source found).1 in
      elim (Bool-cases (i.source_id == s)) [
        | inl this ↦ (
          record row { status = status_after settled source.amount },
          ground arith,
          λ _. status_after-settled settled source.amount,
        )
        | inr other ↦ (x, ground arith, λ h. h)
      ]

  linked-source : IsSettled linked i.source_id
  unfolding linked row
  linked-source =
      let law =
        find_unique-update i.source_id i.source_id
          (λ (x : Remittance). record x { status = status_after settled source.amount })
          d.remittances row (k i.source_id source found).1 in
      (
        record row { status = status_after settled source.amount },
        ground (arith, ==_refl i.source_id),
        status_after-settled settled source.amount,
      )

  linked-Settles : Settles sources d linked × IsSettled linked i.source_id
  unfolding linked
  linked-Settles = (
    record {
      ledger_kept = refl;
      grows = λ s (x, e, h). (let y = linked-at s x e in (y.0, y.1, y.2 h));
      present = λ s r e. (let x = k s r e in let y = linked-at s x.0 x.1 in (y.0, y.1));
    },
    linked-source,
  )

step-Settles :
    (sources : Table Remittance) (totals : Totals) (i : SettlementInput) (d : Db)
    → Present sources d
    → Ensures
        (λ _ d'. Settles sources d d' × IsSettled d' i.source_id)
        (settle_one sources totals i d)
unfolding settle_one linked
step-Settles sources totals i d k = elim (Option-cases (find_unique i.source_id sources)) [
  | inl missing ↦ ground (arith, missing)
  | inr (source, found) ↦
      let law =
        linked-Settles sources d k i source found
          (get_total i.source_id totals.by_source +ℤ i.amount) in
      ground (arith, found, law)
]

AllSettled : List SettlementInput → Db → Type 0
AllSettled is d = All (λ (i : SettlementInput). IsSettled d i.source_id) is

loop-Settles :
    (sources : Table Remittance) (is : List SettlementInput) (totals : Totals) (d : Db)
    → Present sources d
    → Ensures (λ _ d'. Settles sources d d' × AllSettled is d') (settle_each sources totals is d)
unfolding settle_each AllSettled
loop-Settles sources [] totals d k =
    (record { ledger_kept = refl; grows = λ s h. h; present = k }, tt)
loop-Settles sources (i ∷ is) totals d k =
    Ensures-bind (λ _ d'. Settles sources d d' × IsSettled d' i.source_id)
      (λ _ d'. Settles sources d d' × AllSettled (i ∷ is) d') (settle_one sources totals i)
      (λ after. settle_each sources after is) d (step-Settles sources totals i d k)
      λ after d1 (s1, settled).
        Ensures-map (λ _ d'. Settles sources d1 d' × AllSettled is d')
          (λ _ d'. Settles sources d d' × AllSettled (i ∷ is) d') (settle_each sources after is d1)
          (λ _ d' (s2, rest). (
            record {
              ledger_kept = s2.ledger_kept ∙ s1.ledger_kept;
              grows = λ s h. s2.grows s (s1.grows s h);
              present = s2.present;
            },
            (s2.grows i.source_id settled, rest),
          ))
          (loop-Settles sources is after d1 s1.present)

All-IsStuck :
    (is : List SettlementInput) (d : Db)
    → AllSettled is d
    → All (λ (i : SettlementInput). IsStuck d i.source_id) is
unfolding AllSettled
All-IsStuck [] d h = tt
All-IsStuck (i ∷ is) d h = (IsSettled-IsStuck d i.source_id h.0, All-IsStuck is d h.1)

-- The settlements of a group that go through leave the ledger as it is, its reservations included,
-- and after them every source, whatever its status was before, is stuck: approving it changes
-- nothing, and rejecting it or cancelling it by any user throws. So what a pending source held of its
-- sender's balance is still held, and none of these three calls releases or spends it.
pub settle_all-IsStuck :
    (is : List SettlementInput) (d : Db)
    → Ensures
        (λ _ d'. (d'.ledger ≡ d.ledger) × All (λ (i : SettlementInput). IsStuck d' i.source_id) is)
        (settle_all is d)
unfolding settle_all
settle_all-IsStuck is d =
    let sources = rows_in (source_ids is) d.remittances in
    let Q : Unit {0} → Db → Type 0 =
      λ _ d'. (d'.ledger ≡ d.ledger) × All (λ (i : SettlementInput). IsStuck d' i.source_id) is in
    let totals : Totals = record {
      by_source = totals_before d.settlement_links sources;
      by_leg = [];
    } in
    Ensures-bind (λ _ d'. d' ≡ d) Q (throw_if (any (is_missing sources) is) remittance_not_found)
      (λ _ d'.
        settle_each sources
          (record { by_source = totals_before d'.settlement_links sources; by_leg = [] }) is d')
      d (throw_if-same _ _ d)
      (λ _ d' same. rw same (
        Ensures-map (λ _ d'. Settles sources d d' × AllSettled is d') Q
          (settle_each sources totals is d)
          (λ _ d1 (s, all). (s.ledger_kept, All-IsStuck is d1 all))
          (loop-Settles sources is totals d
            (λ s r e. (r, (rows_in-found (source_ids is) s d.remittances r e).1)))))
