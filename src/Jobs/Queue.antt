-- ===== src/Jobs/Queue.antt =====
-- The claim that the queues of app/jobs share: the due rows that no other transaction has locked, in
-- the order of the queue and at most a batch of them, are leased under fresh tokens. A queue is its
-- operations on a row; the laws that make its leases exclusive are a record of their own.
pub mod Laws
use aurum_pos.Prelude.{
  ℕ, ◌+◌, ◌≤◌, ◌≡◌, Bool, true, false, not, ◌&&◌, Option, some, List, map, mem, select, update,
  take, order_by,
}

pub record LeasedQueue (Row : Type 0) : Type 0 where
  pub id_of : Row → ℕ
  -- the key of `ORDER BY`
  pub order_key : Row → ℕ
  pub is_due : ℕ → Row → Bool
  -- the row under a lease that begins now, with its new token
  pub lease : ℕ → ℕ → Row → Row
  pub token_of : Row → Option ℕ
  pub duration : ℕ

pub record IsLeasing {Row : Type 0} (q : LeasedQueue Row) : Type 0 where
  pub id_kept : (now token : ℕ) (r : Row) → q.id_of (q.lease now token r) ≡ q.id_of r
  pub token_kept : (now token : ℕ) (r : Row) → q.token_of (q.lease now token r) ≡ some token
  pub not_due :
      (now later token : ℕ) (r : Row)
      → later ≤ now + q.duration
      → q.is_due later (q.lease now token r) ≡ false

module _ {Row : Type 0} (q : LeasedQueue Row) where
  abbrev pub ids : List Row → List ℕ
  ids = map (λ r. q.id_of r)

  -- `WHERE due ORDER BY key LIMIT batch_size FOR UPDATE SKIP LOCKED`
  unfoldable pub due_rows : ℕ → ℕ → (ℕ → Bool) → List Row → List Row
  due_rows batch_size now locked rows = take batch_size (
      order_by (λ r. q.order_key r) (select (λ r. q.is_due now r && not (locked (q.id_of r))) rows))

  abbrev pub take_lease : ℕ → (ℕ → ℕ) → Row → Row
  take_lease now token r = q.lease now (token (q.id_of r)) r

  -- the claimed rows, with their leases, and the table
  unfoldable pub claim : ℕ → ℕ → (ℕ → ℕ) → (ℕ → Bool) → List Row → List Row × List Row
  claim batch_size now token locked rows =
      let due = due_rows batch_size now locked rows in
      (
        map (take_lease now token) due,
        update (λ r. mem (q.id_of r) (ids due)) (take_lease now token) rows,
      )
