-- ===== src/WhatsApp/Webhook.antt =====
-- What the provider reports: app/modules/whatsapp/routes.py. A payload is read as the list of its
-- changes; an event has the fields that the code takes out of the JSON object, absent and empty ones
-- as `none`.
pub mod Receive
pub mod Effects
pub mod Order
pub mod Suppressed
pub mod OptOut
use aurum_pos.WhatsApp.Suppressions.{has_hmac, suppress_hmac, suppress_recipient, suppress_row}
use aurum_pos.Prelude.{
  ℕ, ◌≡◌, refl, Bool, true, false, not, ◌&&◌, ◌||◌, Option, none, some, is_none, or_default,
  some_eq, List, [], ◌∷◌, ◌++◌, take, find, update, any, leb, ltb, ◌==◌, if◌then◌else◌, Outcome, ok,
  err, ◌>>=◌,
}
use aurum_pos.Text.{Text, text, lower, ◌=ᵗ◌}
use aurum_pos.Tables.Sales.{Fault}
use aurum_pos.WhatsApp.{
  DeliveryStatus, pending, processing, accepted, sent, delivered, read, failed, unknown, has_failed,
  Delivery, DeliveryJob, Suppression, Outbox, Config, is_delivery,
}
use aurum_pos.WhatsApp.Phone.{normalize_whatsapp_phone, recipient_hmac}

-- `errors[0]`: its code and the texts of its title, message and data, joined
pub record ProviderFault : Type 0 where
  pub code : Option Text
  pub description : Text

-- the message id is `none` when it is empty, the delivery id when the callback data is no id, and the
-- time when the timestamp is no number
pub record StatusEvent : Type 0 where
  pub message_id : Option ℕ
  pub status : Text
  pub delivery_id : Option ℕ
  pub timestamp : Option ℕ
  pub fault : Option ProviderFault
  pub recipient_id : Option Text

pub record InboundMessage : Type 0 where
  pub body : Text
  pub sender : Option Text

-- `template` is the name and the state of a template's update
pub record WebhookChange : Type 0 where
  pub template : Option (Option Text × Option Text)
  pub messages : List InboundMessage
  pub statuses : List StatusEvent

-- `STATUS_ORDER`, one more than there, with 0 for the statuses that it lacks
unfoldable pub status_order : DeliveryStatus → ℕ
status_order pending = 1
status_order processing = 2
status_order accepted = 3
status_order sent = 4
status_order delivered = 5
status_order read = 6
status_order failed = 0
status_order unknown = 0

-- the statuses that an event may report
unfoldable pub reported_status : Text → Option DeliveryStatus
reported_status s =
    if s =ᵗ text "pending"
    then some pending
    else if s =ᵗ text "processing"
    then some processing
    else if s =ᵗ text "accepted"
    then some accepted
    else if s =ᵗ text "sent"
    then some sent
    else if s =ᵗ text "delivered"
    then some delivered
    else if s =ᵗ text "read"
    then some read
    else if s =ᵗ text "failed"
    then some failed
    else none

abbrev pub is_reported : DeliveryStatus → Bool
is_reported sent = true
is_reported delivered = true
is_reported read = true
is_reported _ = false

-- `word in text`
abbrev pub is_prefix : Text → Text → Bool
is_prefix [] s = true
is_prefix (c ∷ word) [] = false
is_prefix (c ∷ word) (d ∷ s) = c == d && is_prefix word s

abbrev pub contains : Text → Text → Bool
contains word [] = is_prefix word []
contains word (d ∷ s) = is_prefix word (d ∷ s) || contains word s

-- the job of the message, or of the delivery that the event names
unfoldable pub event_job : ℕ → Option ℕ → Outbox → Option DeliveryJob
event_job message_id delivery_id o =
    elim (find (λ j. some_eq j.meta_message_id message_id) o.jobs) [
      | some j ↦ some j
      | none ↦ elim delivery_id [ none ↦ none | some id ↦ find (λ j. j.delivery_id == id) o.jobs ]
    ]

-- an event is ignored that is older than what the delivery shows, or a failure after it was sent
unfoldable pub is_ignored : DeliveryStatus → DeliveryStatus → Bool
is_ignored status current =
    has_failed status && is_reported current
    || not (has_failed status) && ltb (status_order status) (status_order current)

abbrev pub is_at : DeliveryStatus → DeliveryStatus → Bool
is_at accepted accepted = true
is_at sent sent = true
is_at delivered delivered = true
is_at read read = true
is_at failed failed = true
is_at _ _ = false

-- `str(error.get("code") or "ProviderFailed")[:100]`
unfoldable pub fault_code : Option ProviderFault → Text
fault_code none = text "ProviderFailed"
fault_code (some f) = take 100 (or_default f.code (text "ProviderFailed"))

unfoldable pub recorded_delivery :
    ℕ → DeliveryStatus → ℕ → Option ProviderFault → Delivery → Delivery
recorded_delivery time status message_id fault d =
    let at : DeliveryStatus → Option ℕ → Option ℕ =
      λ s t. if is_at s status then some time else t in
    record d {
      status = status;
      meta_message_id = some message_id;
      last_error_code = if has_failed status then some (fault_code fault) else d.last_error_code;
      accepted_at = at accepted d.accepted_at;
      sent_at = at sent d.sent_at;
      delivered_at = at delivered d.delivered_at;
      read_at = at read d.read_at;
      failed_at = at failed d.failed_at;
    }

unfoldable pub recorded_job : DeliveryStatus → ℕ → Option ProviderFault → DeliveryJob → DeliveryJob
recorded_job status message_id fault j = record j {
  status = status;
  meta_message_id = some message_id;
  last_error_code = if has_failed status then some (fault_code fault) else j.last_error_code;
}

abbrev pub described : Option ProviderFault → Text
described none = []
described (some f) = f.description

-- the recipient has blocked the sender
unfoldable pub is_blocking : Option ProviderFault → Bool
is_blocking fault =
    let code = fault_code fault in
    let description = lower (described fault) in
    (code =ᵗ text "131026")
    || (code =ᵗ text "131050")
    || contains (text "block") description
    || contains (text "opt out") description
    || contains (text "opt-out") description

unfoldable pub suppress_blocked :
    Config → ℕ → DeliveryStatus → Option ProviderFault → Option Text → Outbox → Outcome Fault Outbox
suppress_blocked config now status fault none o = ok o
suppress_blocked config now status fault (some phone) o =
    if has_failed status && is_blocking fault
    then suppress_recipient config now phone (text "provider_blocked") o
    else ok o

-- the event for a job and its delivery
unfoldable pub record_event :
    Config
    → ℕ
    → StatusEvent
    → DeliveryStatus
    → ℕ
    → DeliveryJob
    → Option Delivery
    → Outbox
    → Outcome Fault Outbox
record_event config now e status message_id j none o = ok o
record_event config now e status message_id j (some d) o =
    if is_ignored status d.status
    then ok o
    else suppress_blocked config now status e.fault e.recipient_id (record o {
      deliveries =
          update (is_delivery j.delivery_id j.shop_id)
            (recorded_delivery (or_default e.timestamp now) status message_id e.fault) o.deliveries;
      jobs =
          update (λ x. x.delivery_id == j.delivery_id) (recorded_job status message_id e.fault)
            o.jobs;
    })

unfoldable pub record_job_event :
    Config
    → ℕ
    → StatusEvent
    → DeliveryStatus
    → ℕ
    → Option DeliveryJob
    → Outbox
    → Outcome Fault Outbox
record_job_event config now e status message_id none o = ok o
record_job_event config now e status message_id (some j) o =
    record_event config now e status message_id j
      (find (is_delivery j.delivery_id j.shop_id) o.deliveries) o

unfoldable pub record_reported :
    Config → ℕ → StatusEvent → Option DeliveryStatus → Option ℕ → Outbox → Outcome Fault Outbox
record_reported config now e (some status) (some message_id) o =
    record_job_event config now e status message_id (event_job message_id e.delivery_id o) o
record_reported config now e none message_id o = ok o
record_reported config now e (some status) none o = ok o

-- `_record_status`
unfoldable pub record_status : Config → ℕ → StatusEvent → Outbox → Outcome Fault Outbox
record_status config now e o =
    record_reported config now e (reported_status (lower e.status)) e.message_id o

unfoldable pub record_statuses : Config → ℕ → List StatusEvent → Outbox → Outcome Fault Outbox
record_statuses config now [] o = ok o
record_statuses config now (e ∷ events) o =
    record_status config now e o >>= λ after. record_statuses config now events after
