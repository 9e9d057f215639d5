-- ===== src/WhatsApp.antt =====
-- Invoices by WhatsApp: the tables of app/modules/whatsapp/models.py and the settings that the
-- deliveries read. Message ids, tokens and keyed hashes are numbers.
pub mod Phone
pub mod Requests
pub mod Worker
pub mod Suppressions
pub mod Webhook
use aurum_pos.Prelude.{ℕ, Bool, true, false, Option, List, update, ◌==◌, ◌&&◌}
use aurum_pos.Text.{Text}
use aurum_pos.Tables.Access.{Settings}
use aurum_pos.Tables.Sales.{Store}

pub data DeliveryStatus : Type 0 where
  pending processing accepted sent delivered read failed unknown : DeliveryStatus

abbrev pub is_open : DeliveryStatus → Bool
is_open pending = true
is_open processing = true
is_open _ = false

abbrev pub waits : DeliveryStatus → Bool
waits pending = true
waits _ = false

abbrev pub runs : DeliveryStatus → Bool
runs processing = true
runs _ = false

abbrev pub has_failed : DeliveryStatus → Bool
has_failed failed = true
has_failed _ = false

abbrev pub is_accepted : DeliveryStatus → Bool
is_accepted accepted = true
is_accepted _ = false

pub record Delivery : Type 0 where
  pub id : ℕ
  pub shop_id : ℕ
  pub sale_id : ℕ
  pub recipient_e164 : Text
  pub recipient_hmac : ℕ
  pub idempotency_key : Text
  pub consent_confirmed_by_user_id : ℕ
  pub consent_confirmed_at : ℕ
  pub status : DeliveryStatus
  pub attempts : ℕ
  pub next_attempt_at : Option ℕ
  pub lease_until : Option ℕ
  pub lease_token : Option ℕ
  pub meta_message_id : Option ℕ
  pub last_error_code : Option Text
  pub accepted_at : Option ℕ
  pub sent_at : Option ℕ
  pub delivered_at : Option ℕ
  pub read_at : Option ℕ
  pub failed_at : Option ℕ
  pub created_at : ℕ

pub record DeliveryJob : Type 0 where
  pub delivery_id : ℕ
  pub shop_id : ℕ
  pub status : DeliveryStatus
  pub attempts : ℕ
  pub next_attempt_at : Option ℕ
  pub lease_until : Option ℕ
  pub lease_token : Option ℕ
  pub meta_message_id : Option ℕ
  pub last_error_code : Option Text
  pub created_at : ℕ

pub record Suppression : Type 0 where
  pub recipient_hmac : ℕ
  pub reason : Text
  pub suppressed_at : ℕ
  pub cleared_at : Option ℕ
  pub reconsented_delivery_id : Option ℕ

-- the tables, the status of the message template if one was recorded, and the deliveries that were
-- handed to the provider, in the order of the calls
pub record Outbox : Type 0 where
  pub db : Store
  pub deliveries : List Delivery
  pub jobs : List DeliveryJob
  pub suppressions : List Suppression
  pub template_status : Option Text
  pub handed_over : List ℕ

-- The settings, with Python's `str.isdigit` of a character and the keyed hash of a text.
pub record Config : Type 0 where
  pub base : Settings
  pub enabled : Bool
  pub template_status : Text
  pub template_name : Text
  pub hmac_key : Option ℕ
  pub digest : ℕ → Text → ℕ
  pub is_digit : ℕ → Bool
  pub batch_size : ℕ
  pub max_attempts : ℕ

abbrev pub is_delivery : ℕ → ℕ → Delivery → Bool
is_delivery id shop_id d = d.id == id && d.shop_id == shop_id

abbrev pub is_sale_of : ℕ → ℕ → Delivery → Bool
is_sale_of sale_id shop_id d = d.shop_id == shop_id && d.sale_id == sale_id
