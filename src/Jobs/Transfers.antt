-- ===== src/Jobs/Transfers.antt =====
-- The transfer of an organization to a new owner: app/jobs/ownership_transfers.py. The cancellation of
-- the organization's Google Play renewal stands between claim and completion; it is a call to the
-- Play service, of which only the failure matters here.
pub mod Ownership
pub mod Pending
use aurum_pos.Prelude.{
  ℕ, ◌+◌, ◌^◌, min, Bool, true, false, not, ◌&&◌, Option, none, some, none_or_le, List, [], ◌∷◌,
  ◌++◌, map, mem, find, any, select, update, order_by, take, leb, ◌==◌, if◌then◌else◌, foldl,
}
use aurum_pos.Tables.Access.{
  minutes, Organization, Shop, Role, owner, admin, is_owner, ShopMembership,
}
use aurum_pos.Tables.Stock.{Change, transfer_completed}
use aurum_pos.Tables.Sales.{Store}

pub data TransferStatus : Type 0 where
  pending processing completed failed : TransferStatus

abbrev pub waits : TransferStatus → Bool
waits pending = true
waits _ = false

abbrev pub runs : TransferStatus → Bool
runs processing = true
runs _ = false

abbrev pub succeeded : TransferStatus → Bool
succeeded completed = true
succeeded _ = false

pub data TransferError : Type 0 where
  ownership_changed target_not_member target_owns_other : TransferError
  raised : ℕ → TransferError

pub record Transfer : Type 0 where
  pub id : ℕ
  pub organization_id : ℕ
  pub requested_by_user_id : ℕ
  pub target_user_id : ℕ
  pub status : TransferStatus
  pub attempts : ℕ
  pub next_attempt_at : Option ℕ
  pub created_at : ℕ
  pub completed_at : Option ℕ
  pub last_error : Option TransferError

pub record Office : Type 0 where
  pub db : Store
  pub transfers : List Transfer

abbrev pub max_transfer_attempts : ℕ
max_transfer_attempts = 8

abbrev pub is_claimable : ℕ → (ℕ → Bool) → Transfer → Bool
is_claimable now locked t = waits t.status && none_or_le t.next_attempt_at now && not (locked t.id)

abbrev pub save_transfer : Transfer → Office → Office
save_transfer t o = record o { transfers = update (λ u. u.id == t.id) (λ _. t) o.transfers }

abbrev pub first_of : List Transfer → Option Transfer
first_of [] = none
first_of (t ∷ _) = some t

abbrev pub claimed : Transfer → Transfer
claimed t = record t { status = processing; attempts = t.attempts + 1 }

unfoldable pub claim_found : Option Transfer → Office → Option ℕ × Office
claim_found none o = (none, o)
claim_found (some t) o = (some t.id, save_transfer (claimed t) o)

-- `_claim_transfer`
unfoldable pub claim_transfer : ℕ → (ℕ → Bool) → Office → Option ℕ × Office
claim_transfer now locked o =
    claim_found
      (first_of (order_by (λ t. t.created_at) (select (is_claimable now locked) o.transfers))) o

abbrev pub shops_of : Organization → Store → List Shop
shops_of org db = select (λ s. s.organization_id == org.id) db.shops

abbrev pub shop_ids : Organization → Store → List ℕ
shop_ids org db = map (λ s. s.id) (shops_of org db)

abbrev pub is_target_member : Transfer → Organization → Store → Bool
is_target_member t org db =
    any (λ m. mem m.shop_id (shop_ids org db) && m.user_id == t.target_user_id && m.is_active)
      db.memberships

abbrev pub owns_other : Transfer → Organization → Store → Bool
owns_other t org db =
    any (λ g. g.owner_user_id == t.target_user_id && not (g.id == org.id)) db.organizations

abbrev pub demote : Transfer → ShopMembership → ShopMembership
demote t m =
    if m.user_id == t.requested_by_user_id && is_owner m.role then record m { role = admin } else m

abbrev pub promote : Transfer → ShopMembership → ShopMembership
promote t m =
    if m.user_id == t.target_user_id then record m { role = owner; is_active = true } else m

-- the new owner's membership in the shops where there is none
unfoldable pub new_memberships : Transfer → List ShopMembership → List Shop → List ShopMembership
new_memberships t memberships [] = []
new_memberships t memberships (s ∷ shops) =
    let rest = new_memberships t memberships shops in
    if any (λ m. m.shop_id == s.id && m.user_id == t.target_user_id) memberships
    then rest
    else record { shop_id = s.id; user_id = t.target_user_id; role = owner; is_active = true }
      ∷ rest

-- the writes of a completed transfer
unfoldable pub hand_over : ℕ → Transfer → Organization → Office → Office
unfolding new_memberships
hand_over now t org o =
    let db = o.db in
    let ids = shop_ids org db in
    let db' = record db {
      organizations =
          update (λ g. g.id == org.id) (λ g. record g { owner_user_id = t.target_user_id })
            db.organizations;
      memberships =
          update (λ m. mem m.shop_id ids) (λ m. promote t (demote t m)) db.memberships
          ++ new_memberships t db.memberships (shops_of org db);
      changes = db.changes ++ map (λ s. transfer_completed s.id t.id) (shops_of org db);
    } in
    save_transfer (record t { status = completed; completed_at = some now; last_error = none })
      (record o { db = db' })

abbrev pub fail_transfer : Transfer → TransferError → Office → Office
fail_transfer t e o = save_transfer (record t { status = failed; last_error = some e }) o

unfoldable pub complete_with : ℕ → Transfer → Option Organization → Office → Office
complete_with now t none o = fail_transfer t ownership_changed o
complete_with now t (some org) o =
    if not (org.owner_user_id == t.requested_by_user_id)
    then fail_transfer t ownership_changed o
    else if not (is_target_member t org o.db)
    then fail_transfer t target_not_member o
    else if owns_other t org o.db
    then fail_transfer t target_owns_other o
    else hand_over now t org o

unfoldable pub complete_found : ℕ → Option Transfer → Office → Office
complete_found now none o = o
complete_found now (some t) o =
    if not (runs t.status)
    then o
    else complete_with now t (find (λ g. g.id == t.organization_id) o.db.organizations) o

abbrev pub find_transfer : ℕ → Office → Option Transfer
find_transfer transfer_id o = find (λ t. t.id == transfer_id) o.transfers

-- `_complete_transfer`
unfoldable pub complete_transfer : ℕ → ℕ → Office → Office
complete_transfer now transfer_id o = complete_found now (find_transfer transfer_id o) o

unfoldable pub retry_found : ℕ → ℕ → Option Transfer → Office → Office
retry_found now error none o = o
retry_found now error (some t) o =
    let failing = record t { last_error = some (raised error) } in
    if not (runs t.status)
    then o
    else if leb max_transfer_attempts t.attempts
    then save_transfer (record failing { status = failed }) o
    else save_transfer
        (record failing {
          status = pending;
          next_attempt_at = some (now + minutes (min 60 (2 ^ min t.attempts 6)));
        })
        o

-- `_retry_or_fail`
unfoldable pub retry_or_fail : ℕ → ℕ → ℕ → Office → Office
retry_or_fail now transfer_id error o = retry_found now error (find_transfer transfer_id o) o

-- the body of `process_organization_ownership_transfers`; `some error` says that the cancellation raised
unfoldable pub process_claimed : ℕ → Option ℕ → Option ℕ × Office → Office
process_claimed now raised_error (none, o) = o
process_claimed now none (some transfer_id, o) = complete_transfer now transfer_id o
process_claimed now (some error) (some transfer_id, o) = retry_or_fail now transfer_id error o

unfoldable pub process_organization_ownership_transfers :
    ℕ → (ℕ → Bool) → Option ℕ → Office → Office
process_organization_ownership_transfers now locked raised_error o =
    process_claimed now raised_error (claim_transfer now locked o)
