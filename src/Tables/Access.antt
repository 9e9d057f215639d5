-- ===== src/Tables/Access.antt =====
-- Organizations, shops, people and subscriptions: app/modules/shops/models.py,
-- app/modules/auth/models.py, app/modules/subscriptions/models.py, and the settings of
-- app/core/config.py that the services read.
use aurum_pos.Prelude.{ℕ, Bool, true, false, Option, ◌*◌}
use aurum_pos.Text.{Text}

abbrev pub seconds : ℕ → ℕ
seconds n = n * 1_000_000

abbrev pub minutes : ℕ → ℕ
minutes n = n * 60_000_000

abbrev pub hours : ℕ → ℕ
hours n = n * 3_600_000_000

abbrev pub days : ℕ → ℕ
days n = n * 86_400_000_000

pub record Settings : Type 0 where
  pub is_hosted : Bool
  pub free_active_item_limit : ℕ
  pub free_shop_limit : ℕ
  pub pro_shop_limit : ℕ
  pub free_team_seat_limit : ℕ
  pub pro_team_seat_limit : ℕ

pub record Organization : Type 0 where
  pub id : ℕ
  pub owner_user_id : ℕ
  pub primary_shop_id : Option ℕ

pub record Shop : Type 0 where
  pub id : ℕ
  pub organization_id : ℕ
  pub is_active : Bool
  pub invoice_prefix : Option Text
  pub next_invoice_sequence : ℕ
  pub total_sales_amount : ℕ

pub data Role : Type 0 where
  owner admin manager cashier : Role

abbrev pub is_owner : Role → Bool
is_owner owner = true
is_owner _ = false

pub record ShopMembership : Type 0 where
  pub shop_id : ℕ
  pub user_id : ℕ
  pub role : Role
  pub is_active : Bool

pub record User : Type 0 where
  pub id : ℕ
  pub email : Text
  pub is_active : Bool

pub record ShopInvitation : Type 0 where
  pub shop_id : ℕ
  pub email : Text
  pub expires_at : ℕ
  pub accepted_at : Option ℕ

pub data Plan : Type 0 where
  free pro : Plan

abbrev pub is_pro : Plan → Bool
is_pro pro = true
is_pro free = false

pub data SubscriptionStatus : Type 0 where
  active expired other : SubscriptionStatus

abbrev pub is_active_status : SubscriptionStatus → Bool
is_active_status active = true
is_active_status _ = false

-- where an entitlement comes from; a manual grant carries its own label
pub data Source : Type 0 where
  self_hosted hosted_free play : Source
  granted : ℕ → Source

pub record Subscription : Type 0 where
  pub id : ℕ
  pub organization_id : ℕ
  pub source : Source
  pub plan : Plan
  pub status : SubscriptionStatus
  pub starts_at : ℕ
  pub expires_at : Option ℕ
  pub revoked_at : Option ℕ
  pub created_at : ℕ
