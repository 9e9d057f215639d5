-- ===== src/WhatsApp/Requests.antt =====
-- The request for a delivery: app/modules/whatsapp/service.py.
pub mod Once
pub mod Answer
use aurum_pos.Prelude.{
  ℕ, Bool, true, false, not, ◌&&◌, ◌||◌, Option, none, some, is_none, List, [], ◌∷◌, ◌++◌, find,
  select, update, first, order_desc, ◌==◌, if◌then◌else◌, Outcome, ok, err, ◌>>=◌, ◌>>◌, raise_if,
}
use aurum_pos.Text.{Text, text, normalize, ◌=ᵗ◌}
use aurum_pos.Tables.Access.{is_pro}
use aurum_pos.Tables.Sales.{
  Sale, Fault, confirmation_missing, whatsapp_unavailable, template_not_approved, pro_required,
  key_reused, delivery_already_pending, resend_confirmation_required,
}
use aurum_pos.Subscriptions.{resolve_entitlement}
use aurum_pos.WhatsApp.{
  DeliveryStatus, pending, is_open, Delivery, DeliveryJob, Suppression, Outbox, Config, is_sale_of,
}
use aurum_pos.WhatsApp.Phone.{normalize_whatsapp_phone, recipient_hmac}

-- a recorded status counts unless it is `unknown`
unfoldable pub template_status : Config → Outbox → Text
template_status config o = elim o.template_status [
  | none ↦ normalize config.template_status
  | some t ↦ if t =ᵗ text "unknown" then normalize config.template_status else t
]

unfoldable pub is_pro_organization : Config → ℕ → ℕ → Outbox → Bool
is_pro_organization config now organization_id o =
    is_pro (resolve_entitlement config.base now o.db organization_id).plan

unfoldable pub is_enabled : Config → Bool
is_enabled config = config.enabled && config.base.is_hosted

-- the `available` field of `get_capability`
unfoldable pub is_available : Config → ℕ → ℕ → Outbox → Bool
is_available config now organization_id o =
    is_enabled config
    && is_pro_organization config now organization_id o
    && (template_status config o =ᵗ text "approved")

unfoldable pub require_delivery_available : Config → ℕ → ℕ → Outbox → Outcome Fault (Unit {0})
require_delivery_available config now organization_id o =
    raise_if (not (is_enabled config)) whatsapp_unavailable
    >> raise_if (not (is_pro_organization config now organization_id o)) pro_required
    >> raise_if (not (template_status config o =ᵗ text "approved")) template_not_approved

abbrev pub has_key : ℕ → Text → Delivery → Bool
has_key shop_id key d = d.shop_id == shop_id && (d.idempotency_key =ᵗ key)

abbrev pub latest_delivery : ℕ → ℕ → List Delivery → Option Delivery
latest_delivery sale_id shop_id deliveries =
    first (order_desc (λ d. d.created_at) (select (is_sale_of sale_id shop_id) deliveries))

-- the checks on the sale's latest delivery
unfoldable pub check_latest : Bool → Option Delivery → Outcome Fault (Unit {0})
check_latest resend none = ok tt
check_latest resend (some latest) =
    raise_if (is_open latest.status) delivery_already_pending
    >> raise_if (not resend) resend_confirmation_required

-- a new request clears the recipient's suppression
abbrev pub reconsent : ℕ → ℕ → Suppression → Suppression
reconsent now delivery_id s =
    if is_none s.cleared_at
    then record s { cleared_at = some now; reconsented_delivery_id = some delivery_id }
    else s

abbrev pub new_delivery : ℕ → ℕ → Sale → ℕ → ℕ → Text → ℕ → Text → Delivery
new_delivery now delivery_id sale shop_id user_id recipient hmac key = record {
  id = delivery_id;
  shop_id = shop_id;
  sale_id = sale.id;
  recipient_e164 = recipient;
  recipient_hmac = hmac;
  idempotency_key = key;
  consent_confirmed_by_user_id = user_id;
  consent_confirmed_at = now;
  status = pending;
  attempts = 0;
  next_attempt_at = none;
  lease_until = none;
  lease_token = none;
  meta_message_id = none;
  last_error_code = none;
  accepted_at = none;
  sent_at = none;
  delivered_at = none;
  read_at = none;
  failed_at = none;
  created_at = now;
}

abbrev pub new_delivery_job : ℕ → ℕ → ℕ → DeliveryJob
new_delivery_job now delivery_id shop_id = record {
  delivery_id = delivery_id;
  shop_id = shop_id;
  status = pending;
  attempts = 0;
  next_attempt_at = none;
  lease_until = none;
  lease_token = none;
  meta_message_id = none;
  last_error_code = none;
  created_at = now;
}

unfoldable pub add_delivery : ℕ → Delivery → Outbox → Outbox
add_delivery now d o = record o {
  deliveries = o.deliveries ++ (d ∷ []);
  jobs = o.jobs ++ (new_delivery_job now d.id d.shop_id ∷ []);
  suppressions =
      update (λ s. s.recipient_hmac == d.recipient_hmac) (reconsent now d.id) o.suppressions;
}

-- the request after its key was looked up
unfoldable pub queue_for_key :
    ℕ → Bool → Delivery → Option Delivery → Outbox → Outcome Fault (Delivery × Outbox)
queue_for_key now resend d (some existing) o =
    raise_if
      (not (existing.sale_id == d.sale_id) || not (existing.recipient_hmac == d.recipient_hmac))
      key_reused
    >> ok (existing, o)
queue_for_key now resend d none o =
    check_latest resend (latest_delivery d.sale_id d.shop_id o.deliveries)
    >> ok (d, add_delivery now d o)

-- the checks of a request, and the delivery that it asks for
unfoldable pub requested_delivery :
    Config → ℕ → ℕ → Sale → ℕ → ℕ → ℕ → Text → Text → Bool → Outbox → Outcome Fault Delivery
requested_delivery config now delivery_id sale organization_id shop_id user_id phone key confirm o =
    do
      _ ← raise_if (not confirm) confirmation_missing
      _ ← require_delivery_available config now organization_id o
      recipient ← normalize_whatsapp_phone config.is_digit phone
      hmac ← recipient_hmac config recipient
      ok (new_delivery now delivery_id sale shop_id user_id recipient hmac key)

unfoldable pub queue_invoice_delivery :
    Config
    → ℕ
    → ℕ
    → Sale
    → ℕ
    → ℕ
    → ℕ
    → Text
    → Text
    → Bool
    → Bool
    → Outbox
    → Outcome Fault (Delivery × Outbox)
queue_invoice_delivery config now delivery_id sale organization_id shop_id user_id phone key confirm
      resend o =
    requested_delivery config now delivery_id sale organization_id shop_id user_id phone key confirm
      o
    >>= λ d. queue_for_key now resend d (find (has_key shop_id key) o.deliveries) o
