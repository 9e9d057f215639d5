-- ===== src/Jobs/Invoices/Leases.antt =====
-- A lease keeps a job to one worker: no other claim takes it before the lease has run out, and a
-- worker whose lease has passed to another changes nothing.
use aurum_pos.Prelude.{
  ℕ, ◌+◌, ◌≤◌, ◌≡◌, ◌≢◌, refl, sym, ap, ◌∙◌, Bool, true, false, ◌&&◌, Option, none, List, [], ◌∷◌,
  map, mem, find, length, All, All-of_map, length-map, find-none, arith,
}
use aurum_pos.Tables.Sales.{InvoiceJob, Store}
use aurum_pos.Tables.Access.{Shop}
use aurum_pos.Jobs.Queue.{IsLeasing, ids, claim}
use aurum_pos.Jobs.Queue.Laws.{claim-exclusive, claim-superseded}
use aurum_pos.Jobs.Invoices.{
  InvoiceTarget, invoice_lease, is_due, shop_is_active, invoice_queue, leased, target_of,
  claim_invoice_jobs, holds_lease, finish_found, finish_invoice_job,
}

leased-not_due :
    (shops : List Shop) (now later token : ℕ) (j : InvoiceJob)
    → later ≤ now + invoice_lease
    → (shop_is_active shops j && is_due later (leased now token j)) ≡ false
unfolding is_due
leased-not_due shops now later token j h = ground arith

invoice_queue-IsLeasing : (shops : List Shop) → IsLeasing (invoice_queue shops)
invoice_queue-IsLeasing shops = record {
  id_kept = λ now token j. refl;
  token_kept = λ now token j. refl;
  not_due = λ now later token j h. leased-not_due shops now later token j h;
}

abbrev pub job_ids : List InvoiceTarget → List ℕ
job_ids = map (λ t. t.job_id)

job_ids-target_of :
    (shops : List Shop) (token : ℕ → ℕ) (jobs : List InvoiceJob)
    → job_ids (map (target_of token) jobs) ≡ ids (invoice_queue shops) jobs
job_ids-target_of shops token [] = refl
job_ids-target_of shops token (j ∷ jobs) = ap (λ k. j.id ∷ k) (job_ids-target_of shops token jobs)

-- A claim takes at most a batch, and none of the rows that another transaction has locked. Until its
-- lease of ten minutes has run out, a later claim takes none of the jobs that it took.
pub claim_invoice_jobs-exclusive :
    (batch_size now later : ℕ) (token token' : ℕ → ℕ) (locked locked' : ℕ → Bool) (db : Store)
    → later ≤ now + invoice_lease
    → let (targets, after) = claim_invoice_jobs batch_size now token locked db in
      (length targets ≤ batch_size)
      × All (λ t. locked t.job_id ≡ false) targets
      × All
          (λ t. mem t.job_id (job_ids targets) ≡ false)
          (claim_invoice_jobs batch_size later token' locked' after).0
unfolding claim_invoice_jobs
claim_invoice_jobs-exclusive batch_size now later token token' locked locked' db h =
    let q = invoice_queue db.shops in
    let (jobs, table) = claim q batch_size now token locked db.invoice_jobs in
    let again = (claim q batch_size later token' locked' table).0 in
    let (few, unlocked, others) =
      claim-exclusive q (invoice_queue-IsLeasing db.shops) batch_size now later token token' locked
        locked' db.invoice_jobs h in
    (
      rw (length-map (target_of token) jobs) few,
      All-of_map (λ t. locked t.job_id ≡ false) (target_of token) jobs unlocked,
      rw (job_ids-target_of db.shops token jobs)
          (All-of_map (λ t. mem t.job_id (ids q jobs) ≡ false) (target_of token') again others),
    )

finish_without_lease :
    (max_attempts now : ℕ) (target : InvoiceTarget) (error_code : Option ℕ) (db : Store)
    → find (holds_lease target) db.invoice_jobs ≡ none
    → finish_invoice_job max_attempts now target error_code db ≡ db
unfolding finish_invoice_job finish_found
finish_without_lease max_attempts now target error_code db e =
    ap (λ o. finish_found max_attempts now target error_code o db) e

claimed_elsewhere :
    (batch_size now : ℕ) (token : ℕ → ℕ) (locked : ℕ → Bool) (db : Store) (stale : InvoiceTarget)
    → mem stale.job_id (job_ids (claim_invoice_jobs batch_size now token locked db).0) ≡ true
    → token stale.job_id ≢ stale.lease_token
    → All
        (λ j. holds_lease stale j ≡ false)
        (claim_invoice_jobs batch_size now token locked db).1.invoice_jobs
unfolding claim_invoice_jobs
claimed_elsewhere batch_size now token locked db stale m ne =
    let q = invoice_queue db.shops in
    let jobs = (claim q batch_size now token locked db.invoice_jobs).0 in
    claim-superseded q (invoice_queue-IsLeasing db.shops) batch_size now token locked
      db.invoice_jobs stale.job_id stale.lease_token
      (sym (ap (mem stale.job_id) (job_ids-target_of db.shops token jobs)) ∙ m) ne

-- Once a job is claimed anew under another token, a finish under the old one changes nothing,
-- whatever its result was.
pub finish_invoice_job-superseded :
    (batch_size max_attempts now later : ℕ) (token : ℕ → ℕ) (locked : ℕ → Bool) (db : Store)
    (stale : InvoiceTarget) (error_code : Option ℕ)
    → mem stale.job_id (job_ids (claim_invoice_jobs batch_size now token locked db).0) ≡ true
    → token stale.job_id ≢ stale.lease_token
    → finish_invoice_job max_attempts later stale error_code
        (claim_invoice_jobs batch_size now token locked db).1
      ≡ (claim_invoice_jobs batch_size now token locked db).1
finish_invoice_job-superseded batch_size max_attempts now later token locked db stale error_code m
      ne =
    let after = (claim_invoice_jobs batch_size now token locked db).1 in
    finish_without_lease max_attempts later stale error_code after (
      find-none (holds_lease stale) after.invoice_jobs
        (claimed_elsewhere batch_size now token locked db stale m ne))
