-- ===== src/Jobs/Invoices/Attempts.antt =====
-- No invoice is tried more often than the settings allow, and how a job ends.
use aurum_pos.Prelude.{
  ℕ, ◌+◌, ◌≤◌, ◌<◌, ◌≡◌, refl, sym, ap, ◌∙◌, true, false, Option, none, some, is_some, find, update,
  All, All-update, find-All, find-holds, arith, Option-cases, inl, inr,
}
use aurum_pos.Tables.Sales.{InvoiceJob, Store, is_pending, is_processing, is_ready, is_failed}
use aurum_pos.Jobs.Invoices.{InvoiceTarget, holds_lease, finished, finish_found, finish_invoice_job}

-- a job that may still run has an attempt left, and no job has had more than `max_attempts`
abbrev pub IsWithin : ℕ → InvoiceJob → Type 0
IsWithin max_attempts j =
    (j.attempts ≤ max_attempts)
    × (is_pending j.status ≡ true → j.attempts < max_attempts)
    × (is_processing j.status ≡ true → j.attempts < max_attempts)

-- a processing job is the only one that has a lease
abbrev pub IsLeased : InvoiceJob → Type 0
IsLeased j = is_some j.lease_token ≡ is_processing j.status

abbrev pub IsSound : ℕ → InvoiceJob → Type 0
IsSound max_attempts j = IsWithin max_attempts j × IsLeased j

holder-runs :
    (max_attempts : ℕ) (target : InvoiceTarget) (j : InvoiceJob)
    → holds_lease target j ≡ true
    → IsSound max_attempts j
    → j.attempts < max_attempts
holder-runs max_attempts target j lease sound = elim (Option-cases j.lease_token) [
  | inl free ↦ ground (arith, rw free at lease)
  | inr (token, held) ↦ sound.0.2 (sym sound.1 ∙ ap is_some held)
]

finished-IsSound :
    (max_attempts now : ℕ) (error_code : Option ℕ) (j : InvoiceJob)
    → j.attempts < max_attempts
    → IsSound max_attempts (finished max_attempts now error_code j)
unfolding finished
finished-IsSound max_attempts now none j h = ((omega arith, (λ q. h), (λ q. h)), refl)
finished-IsSound max_attempts now (some code) j h = ground arith

-- how the attempt of a job with an attempt left ends
abbrev pub IsEndOf : ℕ → Option ℕ → InvoiceJob → InvoiceJob → Type 0
IsEndOf max_attempts error_code j j' =
    (error_code ≡ none → (is_ready j'.status ≡ true) × (j'.attempts ≡ j.attempts))
    × (is_some error_code ≡ true
        → (j'.attempts ≡ j.attempts + 1)
          × (is_failed j'.status ≡ true → j'.attempts ≡ max_attempts)
          × (j'.attempts ≡ max_attempts → is_failed j'.status ≡ true)
          × (is_failed j'.status ≡ false → is_pending j'.status ≡ true))

finished-IsEndOf :
    (max_attempts now : ℕ) (error_code : Option ℕ) (j : InvoiceJob)
    → j.attempts < max_attempts
    → IsEndOf max_attempts error_code j (finished max_attempts now error_code j)
unfolding finished
finished-IsEndOf max_attempts now none j h = ((λ q. (refl, refl)), (λ q. cc))
finished-IsEndOf max_attempts now (some code) j h = ((λ q. cc), (λ q. ground arith))

finish-jobs :
    (max_attempts now : ℕ) (target : InvoiceTarget) (error_code : Option ℕ) (db : Store)
    (j : InvoiceJob)
    → find (holds_lease target) db.invoice_jobs ≡ some j
    → (finish_invoice_job max_attempts now target error_code db).invoice_jobs
      ≡ update (holds_lease target) (λ _. finished max_attempts now error_code j) db.invoice_jobs
unfolding finish_invoice_job finish_found
finish-jobs max_attempts now target error_code db j e =
    ap (λ o. (finish_found max_attempts now target error_code o db).invoice_jobs) e

finish-IsSound :
    (max_attempts now : ℕ) (target : InvoiceTarget) (error_code : Option ℕ) (db : Store)
    → All (IsSound max_attempts) db.invoice_jobs
    → (o : Option InvoiceJob) → ((j : InvoiceJob) → o ≡ some j → j.attempts < max_attempts)
    → find (holds_lease target) db.invoice_jobs ≡ o
    → All
        (IsSound max_attempts)
        (finish_invoice_job max_attempts now target error_code db).invoice_jobs
unfolding finish_invoice_job finish_found
finish-IsSound max_attempts now target error_code db sound none runs e =
    rw (ap (λ o. (finish_found max_attempts now target error_code o db).invoice_jobs) e) sound
finish-IsSound max_attempts now target error_code db sound (some j) runs e =
    rw (finish-jobs max_attempts now target error_code db j e) (
      All-update (IsSound max_attempts) (holds_lease target)
        (λ _. finished max_attempts now error_code j) db.invoice_jobs
        (λ x held was. finished-IsSound max_attempts now error_code j (runs j refl)) sound)

-- In a queue where every job that may run has an attempt left and only a processing job has a lease,
-- a finish keeps that so: no job has more than `max_attempts` failures. The job whose lease the worker
-- still holds is ready after a success; after an error it has one attempt more and has failed for
-- good exactly when that was the last one, and else it waits again.
pub finish_invoice_job-attempts :
    (max_attempts now : ℕ) (target : InvoiceTarget) (error_code : Option ℕ) (db : Store)
    → All (IsSound max_attempts) db.invoice_jobs
    → All
        (IsSound max_attempts)
        (finish_invoice_job max_attempts now target error_code db).invoice_jobs
      × ((j : InvoiceJob)
          → find (holds_lease target) db.invoice_jobs ≡ some j
          → (j' : InvoiceJob) × ((finish_invoice_job max_attempts now target error_code
                db).invoice_jobs
              ≡ update (holds_lease target) (λ _. j') db.invoice_jobs)
            × IsEndOf max_attempts error_code j j')
finish_invoice_job-attempts max_attempts now target error_code db sound =
    let o = find (holds_lease target) db.invoice_jobs in
    let runs : (j : InvoiceJob) → o ≡ some j → j.attempts < max_attempts = λ j e.
      holder-runs max_attempts target j (find-holds (holds_lease target) db.invoice_jobs j e)
        (find-All (IsSound max_attempts) (holds_lease target) db.invoice_jobs j sound e) in
    (
      finish-IsSound max_attempts now target error_code db sound o runs refl,
      λ j e. (
        finished max_attempts now error_code j,
        finish-jobs max_attempts now target error_code db j e,
        finished-IsEndOf max_attempts now error_code j (runs j e),
      ),
    )
