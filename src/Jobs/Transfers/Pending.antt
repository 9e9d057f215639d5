-- ===== src/Jobs/Transfers/Pending.antt =====
-- Which transfers a run of the worker takes up.
use aurum_pos.Prelude.{
  ℕ, ◌≡◌, refl, ap, Bool, true, false, Option, none, some, none_or_le, List, [], ◌∷◌, select,
  order_by, All, Any, inl, inr, All-map, All-select_keep, subst, some-injective, arith, All-select,
  All-order_by,
}
use aurum_pos.Jobs.Transfers.{
  Transfer, Office, waits, is_claimable, first_of, claimed, save_transfer, claim_found,
  claim_transfer, process_claimed, process_organization_ownership_transfers,
}

select-none :
    (now : ℕ) (locked : ℕ → Bool) (transfers : List Transfer)
    → All (λ t. waits t.status ≡ false) transfers
    → select (is_claimable now locked) transfers ≡ []
select-none now locked [] h = refl
select-none now locked (t ∷ transfers) h = rw h.0 (select-none now locked transfers h.1)

first_of-All :
    (P : Transfer → Type 0) (transfers : List Transfer) (t : Transfer)
    → All P transfers
    → first_of transfers ≡ some t
    → P t
first_of-All P [] t h e = ground arith
first_of-All P (u ∷ transfers) t h e = subst P (some-injective u t e) h.0

-- A run of the worker changes nothing when no transfer is pending, whatever the time and whatever the
-- state of the others: a transfer that a stopped worker has left processing is not taken up again.
pub process_organization_ownership_transfers-eq :
    (now : ℕ) (locked : ℕ → Bool) (raised_error : Option ℕ) (o : Office)
    → All (λ t. waits t.status ≡ false) o.transfers
    → process_organization_ownership_transfers now locked raised_error o ≡ o
unfolding process_organization_ownership_transfers process_claimed claim_transfer claim_found
process_organization_ownership_transfers-eq now locked raised_error o h =
    ap
      (λ rows.
        process_claimed now raised_error
          (claim_found (first_of (order_by (λ t. t.created_at) rows)) o))
      (select-none now locked o.transfers h)

-- every row is one of the rows
All-Any : (transfers : List Transfer) → All (λ t. Any (λ u. t ≡ u) transfers) transfers
All-Any [] = tt
All-Any (t ∷ transfers) = (
  inl refl,
  All-map (λ u. Any (λ v. u ≡ v) transfers) (λ u. Any (λ v. u ≡ v) (t ∷ transfers)) transfers
      (λ u h. inr h) (All-Any transfers),
)

claim_found-inv :
    (r : Option Transfer) (o : Office) (transfer_id : ℕ)
    → (claim_found r o).0 ≡ some transfer_id
    → (t : Transfer) × (r ≡ some t)
      × (t.id ≡ transfer_id)
      × ((claim_found r o).1 ≡ save_transfer (claimed t) o)
unfolding claim_found
claim_found-inv none o transfer_id e = ground arith
claim_found-inv (some t) o transfer_id e = (t, refl, some-injective t.id transfer_id e, refl)

-- The transfer that a claim takes is a row of the table that was pending, was due and was not locked; the claim marks it as
-- processing, counts one attempt and changes nothing else.
pub claim_transfer-due :
    (now : ℕ) (locked : ℕ → Bool) (o : Office) (transfer_id : ℕ)
    → (claim_transfer now locked o).0 ≡ some transfer_id
    → (t : Transfer) × Any (λ u. t ≡ u) o.transfers
      × (t.id ≡ transfer_id)
      × (waits t.status ≡ true)
      × (none_or_le t.next_attempt_at now ≡ true)
      × (locked t.id ≡ false)
      × ((claim_transfer now locked o).1 ≡ save_transfer (claimed t) o)
unfolding claim_transfer
claim_transfer-due now locked o transfer_id e =
    let rows = select (is_claimable now locked) o.transfers in
    let (t, first, id, saved) =
      claim_found-inv (first_of (order_by (λ t. t.created_at) rows)) o transfer_id e in
    let claimable =
      first_of-All (λ t. is_claimable now locked t ≡ true) (order_by (λ t. t.created_at) rows) t
        (All-order_by (λ t. is_claimable now locked t ≡ true) (λ t. t.created_at) rows
          (All-select (is_claimable now locked) o.transfers))
        first in
    let row =
      first_of-All (λ t. Any (λ u. t ≡ u) o.transfers) (order_by (λ t. t.created_at) rows) t
        (All-order_by (λ t. Any (λ u. t ≡ u) o.transfers) (λ t. t.created_at) rows
          (All-select_keep (λ t. Any (λ u. t ≡ u) o.transfers) (is_claimable now locked) o.transfers
            (All-Any o.transfers)))
        first in
    (
      t,
      row,
      id,
      ground (arith, claimable),
      ground (arith, claimable),
      ground (arith, claimable),
      saved,
    )
