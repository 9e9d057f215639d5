-- ===== src/Tables/Billing.antt =====
-- Subscriptions bought on Google Play, app/modules/subscriptions/models.py, and what Google says of a
-- purchase. A purchase token stands for its digest, its encryption is left out.
use aurum_pos.Prelude.{ℕ, Bool, Option, List}
use aurum_pos.Text.{Text}
use aurum_pos.Tables.Sales.{Store}

pub record PlaySubscription : Type 0 where
  pub subscription_id : ℕ
  pub organization_id : ℕ
  pub product_id : Text
  pub base_plan_id : Option Text
  pub purchase_token_hash : ℕ
  pub state : Text
  pub auto_renewing : Bool
  pub last_verified_at : ℕ
  pub next_verification_at : Option ℕ
  pub verification_lease_until : Option ℕ
  pub verification_lease_token : Option ℕ
  pub acknowledgement_pending : Bool
  pub acknowledgement_attempts : ℕ
  pub acknowledgement_next_attempt_at : Option ℕ
  pub acknowledgement_last_error_code : Option Text
  pub acknowledged_at : Option ℕ

pub record LineItem : Type 0 where
  pub product_id : Text
  pub expiry_time : Option ℕ
  pub base_plan_id : Option Text
  pub auto_renew_enabled : Bool

-- what Google says of a purchase; `profile_id` is the hash of an organization's id
pub record Purchase : Type 0 where
  pub line_items : List LineItem
  pub profile_id : Option ℕ
  pub subscription_state : Option Text
  pub start_time : Option ℕ
  pub acknowledgement_pending : Bool

pub record Billing : Type 0 where
  pub db : Store
  pub plays : List PlaySubscription
