-- ===== src/Jobs/Invoices.antt =====
-- The invoice queue: app/jobs/invoices.py, the upload's bookkeeping in app/modules/sales/service.py,
-- and the download endpoint's requeueing in app/modules/sales/routes.py. The clock, the fresh lease
-- tokens, the rows that another transaction has locked, and what the storage returns are arguments.
pub mod Leases
pub mod Attempts
pub mod Uploads
use aurum_pos.Prelude.{
  ℕ, ◌+◌, Bool, true, false, not, ◌&&◌, ◌||◌, Option, none, some, is_none, is_some, none_or_le,
  some_lt, some_eq, List, [], ◌∷◌, ◌++◌, map, mem, find, any, select, update, take, order_by, leb,
  ◌==◌, if◌then◌else◌,
}
use aurum_pos.Tables.Access.{minutes, Shop}
use aurum_pos.Tables.Sales.{
  Sale, InvoiceJob, JobStatus, pending, processing, ready, failed, is_pending, is_processing,
  is_failed, Store,
}
use aurum_pos.Sales.Checkout.{new_invoice_job}
use aurum_pos.Jobs.Queue.{LeasedQueue, claim}
use aurum_pos.Jobs.Retry.{retry_at}

abbrev pub invoice_lease : ℕ
invoice_lease = minutes 10

pub record InvoiceTarget : Type 0 where
  pub job_id : ℕ
  pub shop_id : ℕ
  pub sale_id : ℕ
  pub lease_token : ℕ

-- pending and due, or processing with a lease that has run out
unfoldable pub is_due : ℕ → InvoiceJob → Bool
is_due now j =
    is_pending j.status && none_or_le j.next_attempt_at now
    || is_processing j.status && some_lt j.lease_until now

-- the join with the active shops
abbrev pub shop_is_active : List Shop → InvoiceJob → Bool
shop_is_active shops j = any (λ s. s.id == j.shop_id && s.is_active) shops

abbrev pub leased : ℕ → ℕ → InvoiceJob → InvoiceJob
leased now token j = record j {
  status = processing;
  lease_until = some (now + invoice_lease);
  lease_token = some token;
}

-- the queue of the invoices of the active shops
abbrev pub invoice_queue : List Shop → LeasedQueue InvoiceJob
invoice_queue shops = record {
  id_of = λ j. j.id;
  order_key = λ j. j.created_at;
  is_due = λ now j. shop_is_active shops j && is_due now j;
  lease = leased;
  token_of = λ j. j.lease_token;
  duration = invoice_lease;
}

abbrev pub target_of : (ℕ → ℕ) → InvoiceJob → InvoiceTarget
target_of token j = record {
  job_id = j.id;
  shop_id = j.shop_id;
  sale_id = j.sale_id;
  lease_token = token j.id;
}

-- `_claim_invoice_jobs`: the targets, and the store with the leases
unfoldable pub claim_invoice_jobs :
    ℕ → ℕ → (ℕ → ℕ) → (ℕ → Bool) → Store → List InvoiceTarget × Store
claim_invoice_jobs batch_size now token locked db =
    let (jobs, table) =
      claim (invoice_queue db.shops) batch_size now token locked db.invoice_jobs in
    (map (target_of token) jobs, record db { invoice_jobs = table })

-- the job after one attempt: `none` is a success, `some code` an error
unfoldable pub finished : ℕ → ℕ → Option ℕ → InvoiceJob → InvoiceJob
finished max_attempts now none j = record j {
  status = ready;
  lease_until = none;
  lease_token = none;
  last_error_code = none;
}
finished max_attempts now (some code) j =
    let attempts = j.attempts + 1 in
    let gives_up = leb max_attempts attempts in
    record j {
      status = if gives_up then failed else pending;
      attempts = attempts;
      next_attempt_at = if gives_up then none else some (retry_at now attempts);
      lease_until = none;
      lease_token = none;
      last_error_code = some code;
    }

-- what the sale shows of a failed attempt
unfoldable pub mirrored : InvoiceJob → Sale → Sale
mirrored j s = record s {
  invoice_pdf_status = if is_failed j.status then failed else pending;
  invoice_pdf_attempts = j.attempts;
  invoice_pdf_next_attempt_at = j.next_attempt_at;
  invoice_pdf_lease_until = none;
  invoice_pdf_last_error_code = j.last_error_code;
}

abbrev pub is_sale : ℕ → ℕ → Sale → Bool
is_sale sale_id shop_id s = s.id == sale_id && s.shop_id == shop_id

-- the row that the lease still holds
abbrev pub holds_lease : InvoiceTarget → InvoiceJob → Bool
holds_lease target j = j.id == target.job_id && some_eq j.lease_token target.lease_token

unfoldable pub finish_found : ℕ → ℕ → InvoiceTarget → Option ℕ → Option InvoiceJob → Store → Store
finish_found max_attempts now target error_code none db = db
finish_found max_attempts now target error_code (some j) db =
    let j' = finished max_attempts now error_code j in
    record db {
      invoice_jobs = update (holds_lease target) (λ _. j') db.invoice_jobs;
      sales =
          if is_some error_code
          then update (is_sale target.sale_id target.shop_id) (mirrored j') db.sales
          else db.sales;
    }

-- `_finish_invoice_job`
unfoldable pub finish_invoice_job : ℕ → ℕ → InvoiceTarget → Option ℕ → Store → Store
finish_invoice_job max_attempts now target error_code db =
    finish_found max_attempts now target error_code (find (holds_lease target) db.invoice_jobs) db

-- `persist_invoice_pdf`, its first transaction: whether a PDF is to be made and uploaded
unfoldable pub needs_pdf : ℕ → ℕ → Store → Bool
needs_pdf shop_id sale_id db =
    any (λ s. is_sale sale_id shop_id s && is_none s.s3_object_key) db.sales

abbrev pub with_pdf : ℕ → ℕ → Sale → Sale
with_pdf object_key checksum s =
    if is_none s.s3_object_key
    then record s {
      s3_object_key = some object_key;
      pdf_checksum = some checksum;
      invoice_pdf_status = ready;
      invoice_pdf_last_error_code = none;
      invoice_pdf_lease_until = none;
    }
    else s

-- its second transaction, after the upload; the flag says that the sale is gone and that the uploaded
-- object is deleted again
unfoldable pub attach_pdf : ℕ → ℕ → ℕ → ℕ → Store → Bool × Store
attach_pdf shop_id sale_id object_key checksum db = (
  not (any (is_sale sale_id shop_id) db.sales),
  record db { sales = update (is_sale sale_id shop_id) (with_pdf object_key checksum) db.sales },
)

-- the download endpoint asks for a new attempt of a job that had failed
abbrev pub requeued : InvoiceJob → InvoiceJob
requeued j =
    if is_failed j.status
    then record j { status = pending; attempts = 0; next_attempt_at = none; last_error_code = none }
    else j

abbrev pub requeued_sale : Sale → Sale
requeued_sale s = record s {
  invoice_pdf_status = pending;
  invoice_pdf_attempts = 0;
  invoice_pdf_next_attempt_at = none;
  invoice_pdf_last_error_code = none;
}

abbrev pub is_job_of : ℕ → ℕ → InvoiceJob → Bool
is_job_of sale_id shop_id j = j.shop_id == shop_id && j.sale_id == sale_id

unfoldable pub request_pdf : ℕ → ℕ → ℕ → ℕ → Option InvoiceJob → Store → Store
request_pdf now job_id shop_id sale_id none db = record db {
  invoice_jobs = db.invoice_jobs ++ (new_invoice_job now job_id shop_id sale_id ∷ []);
}
request_pdf now job_id shop_id sale_id (some j) db = record db {
  invoice_jobs = update (λ k. k.id == j.id) (λ _. requeued j) db.invoice_jobs;
  sales =
      if is_failed j.status
      then update (is_sale sale_id shop_id) requeued_sale db.sales
      else db.sales;
}

-- the branch of the endpoint for a sale without a PDF
unfoldable pub invoice_pending : ℕ → ℕ → ℕ → ℕ → Store → Store
invoice_pending now job_id shop_id sale_id db =
    request_pdf now job_id shop_id sale_id (find (is_job_of sale_id shop_id) db.invoice_jobs) db
