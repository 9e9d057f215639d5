-- ===== src/Examples/Jobs.antt =====
-- One invoice job through a claim, its expiry, a second claim and the two finishes; and a transfer.
use aurum_pos.Prelude.{
  none_or_le, ℕ, ◌+◌, ◌≡◌, ◌≤◌, ◌⊎◌, refl, Bool, true, false, none, some, [], ◌∷◌, mem, find,
  update, All, length, arith,
}
use aurum_pos.Tables.Access.{minutes}
use aurum_pos.Tables.Sales.{InvoiceJob, Store}
use aurum_pos.Sales.Checkout.{new_invoice_job, new_sale}
use aurum_pos.Jobs.Queue.{claim, due_rows}
use aurum_pos.Jobs.Invoices.{
  InvoiceTarget, is_due, claim_invoice_jobs, holds_lease, finish_invoice_job, attach_pdf, needs_pdf,
}
use aurum_pos.Jobs.Invoices.Leases.{
  job_ids, claim_invoice_jobs-exclusive, finish_invoice_job-superseded,
}
use aurum_pos.Jobs.Invoices.Attempts.{IsSound, IsEndOf, finish_invoice_job-attempts}
use aurum_pos.Jobs.Transfers.{Transfer, TransferStatus, Office, complete_transfer, is_target_member}
use aurum_pos.Jobs.Transfers.{
  process_organization_ownership_transfers, claim_transfer, claim_found, waits, save_transfer,
  claimed,
}
use aurum_pos.Prelude.{none_or_le, Any}
use aurum_pos.Jobs.Transfers.Pending.{
  process_organization_ownership_transfers-eq, claim_transfer-due,
}
use aurum_pos.Jobs.Transfers.Ownership.{IsRefused, IsHandedOver, complete_transfer-ownership}
use aurum_pos.Tables.Access.{Organization}
use aurum_pos.Examples.{store}
use aurum_pos.Examples.Sales.{request}
use aurum_pos.Jobs.Invoices.Uploads.{attach_pdf-first_wins}

abbrev queued : Store
queued = record store { invoice_jobs = new_invoice_job 5 400 10 300 ∷ [] }

abbrev tokens : ℕ → ℕ → ℕ
tokens n k = n

abbrev unlocked : ℕ → Bool
unlocked k = false

claim_invoice_jobs-exclusive_example :
    let (targets, after) = claim_invoice_jobs 10 6 (tokens 1) unlocked queued in
    (length targets ≤ 10)
    × All (λ t. unlocked t.job_id ≡ false) targets
    × All
        (λ t. mem t.job_id (job_ids targets) ≡ false)
        (claim_invoice_jobs 10 7 (tokens 2) unlocked after).0
claim_invoice_jobs-exclusive_example =
    claim_invoice_jobs-exclusive 10 6 7 (tokens 1) (tokens 2) unlocked unlocked queued (omega arith)

abbrev once_claimed : Store
once_claimed = (claim_invoice_jobs 10 6 (tokens 1) unlocked queued).1

abbrev stale : InvoiceTarget
stale = record { job_id = 400; shop_id = 10; sale_id = 300; lease_token = 1 }

abbrev expired : ℕ
expired = 6 + minutes 11

reclaimed :
    mem 400 (job_ids (claim_invoice_jobs 10 expired (tokens 2) unlocked once_claimed).0) ≡ true
unfolding claim_invoice_jobs claim due_rows is_due new_invoice_job
reclaimed = refl

finish_invoice_job-superseded_example :
    finish_invoice_job 8
      (expired + 1)
      stale
      (some 500)
      (claim_invoice_jobs 10 expired (tokens 2) unlocked once_claimed).1
    ≡ (claim_invoice_jobs 10 expired (tokens 2) unlocked once_claimed).1
finish_invoice_job-superseded_example =
    finish_invoice_job-superseded 10 8 expired (expired + 1) (tokens 2) unlocked once_claimed stale
      (some 500) reclaimed (omega arith)

claimed-IsSound : All (IsSound 8) once_claimed.invoice_jobs
unfolding claim_invoice_jobs claim due_rows is_due new_invoice_job
claimed-IsSound = (((omega arith, (λ e. omega arith), (λ e. omega arith)), refl), tt)

finish_invoice_job-attempts_example :
    All (IsSound 8) (finish_invoice_job 8 7 stale (some 500) once_claimed).invoice_jobs
    × ((j : InvoiceJob)
        → find (holds_lease stale) once_claimed.invoice_jobs ≡ some j
        → (j' : InvoiceJob) × ((finish_invoice_job 8 7 stale (some 500) once_claimed).invoice_jobs
            ≡ update (holds_lease stale) (λ _. j') once_claimed.invoice_jobs)
          × IsEndOf 8 (some 500) j j')
finish_invoice_job-attempts_example =
    finish_invoice_job-attempts 8 7 stale (some 500) once_claimed claimed-IsSound

abbrev sold : Store
sold = record store {
  sales = new_sale 5 300 10 (record { prefix = []; year = 2026; sequence = 4 }) 72_100 request ∷ [];
}

attach_pdf-first_wins_example :
    let (gone, after) = attach_pdf 10 300 71 81 sold in
    (needs_pdf 10 300 after ≡ false) × (attach_pdf 10 300 72 82 after ≡ (gone, after))
attach_pdf-first_wins_example = attach_pdf-first_wins 10 300 71 72 81 82 sold

abbrev transfer : Transfer
transfer = record {
  id = 600;
  organization_id = 1;
  requested_by_user_id = 7;
  target_user_id = 8;
  status = TransferStatus.processing;
  attempts = 1;
  next_attempt_at = none;
  created_at = 0;
  completed_at = none;
  last_error = none;
}

abbrev office : Office
office = record { db = store; transfers = transfer ∷ [] }

complete_transfer-ownership_example :
    IsRefused transfer office (complete_transfer 9 600 office)
    ⊎ ((org : Organization) × (org.id ≡ 1)
        × (org.owner_user_id ≡ 7)
        × (is_target_member transfer org store ≡ true)
        × IsHandedOver transfer org store (complete_transfer 9 600 office).db)
complete_transfer-ownership_example =
    complete_transfer-ownership 9 600 office transfer refl refl (omega arith)

process_organization_ownership_transfers-eq_example :
    process_organization_ownership_transfers 9_000_000_000_000 unlocked (some 1) office ≡ office
process_organization_ownership_transfers-eq_example =
    process_organization_ownership_transfers-eq 9_000_000_000_000 unlocked (some 1) office
      (refl, tt)

abbrev waiting : Office
waiting = record office {
  transfers = record transfer { status = TransferStatus.pending } ∷ transfer ∷ [];
}

taken : (claim_transfer 5 unlocked waiting).0 ≡ some 600
unfolding claim_transfer claim_found
taken = refl

claim_transfer-due_example :
    (t : Transfer) × Any (λ u. t ≡ u) waiting.transfers
    × (t.id ≡ 600)
    × (waits t.status ≡ true)
    × (none_or_le t.next_attempt_at 5 ≡ true)
    × (unlocked t.id ≡ false)
    × ((claim_transfer 5 unlocked waiting).1 ≡ save_transfer (claimed t) waiting)
claim_transfer-due_example = claim_transfer-due 5 unlocked waiting 600 taken
