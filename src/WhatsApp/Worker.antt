-- ===== src/WhatsApp/Worker.antt =====
-- The delivery of invoices: app/jobs/whatsapp.py. Its claims, and what a delivery
-- and its job keep of the provider's answer.
pub mod Claims
pub mod Handover
pub mod Mirror
pub mod Process
use aurum_pos.Prelude.{
  ℕ, ◌+◌, Bool, true, false, not, ◌&&◌, ◌||◌, Option, none, some, is_none, is_some, none_or_le,
  some_lt, some_eq, List, [], ◌∷◌, ◌++◌, map, take, find, update, any, ltb, ◌==◌, if◌then◌else◌,
}
use aurum_pos.Text.{Text, text}
use aurum_pos.Tables.Access.{minutes, seconds}
use aurum_pos.Tables.Sales.{Sale, JobStatus, is_ready, is_failed}
use aurum_pos.Jobs.Queue.{LeasedQueue, claim}
use aurum_pos.Jobs.Retry.{retry_at}
use aurum_pos.WhatsApp.{
  DeliveryStatus, pending, processing, accepted, failed, unknown, waits, runs, is_accepted,
  has_failed, Delivery, DeliveryJob, Suppression, Outbox, Config, is_delivery,
}
use aurum_pos.WhatsApp.Requests.{is_enabled}

pub record WhatsAppTarget : Type 0 where
  pub delivery_id : ℕ
  pub shop_id : ℕ
  pub lease_token : ℕ

-- an error of the provider, or any other exception
pub data Trouble : Type 0 where
  provider_error : (code : Text) (ambiguous retryable : Bool) → Trouble
  exception : (name : Text) → Trouble

-- `send_invoice_template`: the id that the provider accepted the message under, or what it raises
pub data Answer : Type 0 where
  message : ℕ → Answer
  not_sent : Trouble → Answer

-- the arguments of `_finish_delivery`
pub record Finish : Type 0 where
  pub status : DeliveryStatus
  pub error_code : Option Text
  pub meta_message_id : Option ℕ
  pub retryable : Bool

abbrev pub whatsapp_lease : ℕ
whatsapp_lease = minutes 10

unfoldable pub delivery_is_due : ℕ → DeliveryJob → Bool
delivery_is_due now j =
    waits j.status && none_or_le j.next_attempt_at now || runs j.status && some_lt j.lease_until now

abbrev pub leased_delivery : ℕ → ℕ → DeliveryJob → DeliveryJob
leased_delivery now token j = record j {
  status = processing;
  lease_until = some (now + whatsapp_lease);
  lease_token = some token;
}

abbrev pub delivery_queue : LeasedQueue DeliveryJob
delivery_queue = record {
  id_of = λ j. j.delivery_id;
  order_key = λ j. j.created_at;
  is_due = delivery_is_due;
  lease = leased_delivery;
  token_of = λ j. j.lease_token;
  duration = whatsapp_lease;
}

abbrev pub delivery_target : (ℕ → ℕ) → DeliveryJob → WhatsAppTarget
delivery_target token j = record {
  delivery_id = j.delivery_id;
  shop_id = j.shop_id;
  lease_token = token j.delivery_id;
}

-- `_claim_delivery_jobs`
unfoldable pub claim_delivery_jobs :
    Config → ℕ → (ℕ → ℕ) → (ℕ → Bool) → Outbox → List WhatsAppTarget × Outbox
claim_delivery_jobs config now token locked o =
    let (jobs, table) = claim delivery_queue config.batch_size now token locked o.jobs in
    (map (delivery_target token) jobs, record o { jobs = table })

-- the sale of a delivery of the shop
abbrev pub load_sale : ℕ → Outbox → Option Delivery → Option (Delivery × Sale)
load_sale shop_id o none = none
load_sale shop_id o (some d) =
    elim (find (λ s. s.id == d.sale_id && s.shop_id == shop_id) o.db.sales) [
      | none ↦ none
      | some sale ↦ some (d, sale)
    ]

-- `_load_delivery`
unfoldable pub load_delivery : WhatsAppTarget → Outbox → Option (Delivery × Sale)
load_delivery t o = load_sale t.shop_id o (find (is_delivery t.delivery_id t.shop_id) o.deliveries)

abbrev pub holds_target : WhatsAppTarget → DeliveryJob → Bool
holds_target t j = j.delivery_id == t.delivery_id && some_eq j.lease_token t.lease_token

-- `_defer_for_pdf`
unfoldable pub defer_for_pdf : ℕ → WhatsAppTarget → Outbox → Outbox
defer_for_pdf now t o = record o {
  jobs =
      update (holds_target t)
        (λ j. record j {
          status = pending;
          next_attempt_at = some (now + seconds 5);
          lease_until = none;
          lease_token = none;
        })
        o.jobs;
}

-- `error_code[:100] if error_code else None`
unfoldable pub shortened : Option Text → Option Text
shortened none = none
shortened (some []) = none
shortened (some (c ∷ code)) = some (take 100 (c ∷ code))

unfoldable pub finished_job : Config → ℕ → Finish → DeliveryJob → DeliveryJob
finished_job config now f j =
    let attempts = j.attempts + 1 in
    let again = f.retryable && ltb attempts config.max_attempts in
    record j {
      lease_until = none;
      lease_token = none;
      last_error_code = shortened f.error_code;
      meta_message_id = f.meta_message_id;
      attempts = attempts;
      status = if again then pending else f.status;
      next_attempt_at = if again then some (retry_at now attempts) else none;
    }

-- the delivery takes over what its finished job says
unfoldable pub finished_delivery : ℕ → DeliveryJob → Delivery → Delivery
finished_delivery now j d = record d {
  status = j.status;
  attempts = j.attempts;
  next_attempt_at = j.next_attempt_at;
  lease_until = none;
  lease_token = none;
  last_error_code = j.last_error_code;
  meta_message_id = j.meta_message_id;
  accepted_at = if is_accepted j.status then some now else d.accepted_at;
  failed_at = if has_failed j.status then some now else d.failed_at;
}

unfoldable pub finish_job :
    Config → ℕ → WhatsAppTarget → Finish → Option DeliveryJob → Outbox → Outbox
finish_job config now t f none o = o
finish_job config now t f (some j) o = record o {
  jobs = update (holds_target t) (finished_job config now f) o.jobs;
  deliveries =
      update (is_delivery t.delivery_id t.shop_id)
        (finished_delivery now (finished_job config now f j)) o.deliveries;
}

-- `_finish_delivery`
unfoldable pub finish_delivery : Config → ℕ → WhatsAppTarget → Finish → Outbox → Outbox
finish_delivery config now t f o = finish_job config now t f (find (holds_target t) o.jobs) o

abbrev pub failure : Text → Finish
failure code = record {
  status = failed;
  error_code = some code;
  meta_message_id = none;
  retryable = false;
}

unfoldable pub finish_after : Trouble → Finish
finish_after (provider_error code ambiguous retryable) = record {
  status = if ambiguous then unknown else failed;
  error_code = some code;
  meta_message_id = none;
  retryable = retryable;
}
finish_after (exception name) = record {
  status = failed;
  error_code = some name;
  meta_message_id = none;
  retryable = true;
}

unfoldable pub finish_of : Answer → Finish
unfolding finish_after
finish_of (message id) = record {
  status = accepted;
  error_code = none;
  meta_message_id = some id;
  retryable = false;
}
finish_of (not_sent trouble) = finish_after trouble
