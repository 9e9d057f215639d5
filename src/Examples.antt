-- ===== src/Examples.antt =====
-- The properties at concrete rows: a shop with a coin sold by the piece and a chain sold by weight.
pub mod Items
pub mod Shops
pub mod Sales
pub mod Jobs
pub mod Messages
pub mod Deliveries
pub mod Purchases
pub mod Edits
pub mod Orders
use aurum_pos.Prelude.{
  ℕ, Bool, true, false, Option, none, some, List, [], ◌∷◌, Outcome, ok, err, ◌≡◌, refl,
}
use aurum_pos.Text.{Text, text}
use aurum_pos.Items.Kinds.{
  ItemType, PricingMethod, StockMode, ItemStatus, jewellery, fixed_rate, fixed_making_charge,
  quantity, weight, in_stock,
}
use aurum_pos.Items.Schema.{ItemBase}
use aurum_pos.Tables.Access.{
  Settings, Organization, Shop, ShopMembership, Subscription, Role, Plan, SubscriptionStatus,
  Source,
}
use aurum_pos.Tables.Stock.{Item, MetalRate}
use aurum_pos.Tables.Sales.{Store}

-- the value of a call that returned
abbrev pub value : {E A : Type 0} → Outcome E A → A → A
value (ok a) d = a
value (err e) d = d

abbrev pub is_ok : {E A : Type 0} → Outcome E A → Bool
is_ok (ok a) = true
is_ok (err e) = false

pub eq-ok_value : {E A : Type 0} (m : Outcome E A) (d : A) → is_ok m ≡ true → m ≡ ok (value m d)
eq-ok_value (ok a) d h = refl
eq-ok_value (err e) d h = cc

abbrev pub settings : Settings
settings = record {
  is_hosted = true;
  free_active_item_limit = 3;
  free_shop_limit = 1;
  pro_shop_limit = 5;
  free_team_seat_limit = 1;
  pro_team_seat_limit = 4;
}

abbrev pub organization : Organization
organization = record { id = 1; owner_user_id = 7; primary_shop_id = some 10 }

abbrev pub shop : Shop
shop = record {
  id = 10;
  organization_id = 1;
  is_active = true;
  invoice_prefix = none;
  next_invoice_sequence = 4;
  total_sales_amount = 0;
}

abbrev pub subscription : Subscription
subscription = record {
  id = 50;
  organization_id = 1;
  source = Source.play;
  plan = Plan.pro;
  status = SubscriptionStatus.active;
  starts_at = 0;
  expires_at = some 1_000;
  revoked_at = none;
  created_at = 0;
}

abbrev pub coin_base : ItemBase
coin_base = record {
  sku = text "C1";
  barcode = some (text "1");
  name = text "Coin";
  notes = none;
  category = text "coin";
  item_type = jewellery;
  pricing_method = fixed_rate;
  stock_mode = quantity;
  metal = text "gold";
  purity = 91_600;
  net_weight = 1_000;
  making_charge = 0;
  fixed_rate = 100_000;
  stock_weight = none;
  ratti = none;
  rate_per_ratti = none;
  quantity = 5;
}

abbrev pub chain_base : ItemBase
chain_base = record coin_base {
  sku = text "C2";
  barcode = some (text "2");
  pricing_method = fixed_making_charge;
  stock_mode = weight;
  metal = text "silver";
  making_charge = 50_000;
  fixed_rate = 0;
  stock_weight = some 20_000;
  quantity = 1;
}

abbrev pub coin : Item
coin = record { id = 100; shop_id = 10; base = coin_base; status = in_stock; archived_at = none }

abbrev pub chain : Item
chain = record { id = 101; shop_id = 10; base = chain_base; status = in_stock; archived_at = none }

abbrev pub silver : MetalRate
silver = record {
  id = 200;
  shop_id = 10;
  metal = text "Silver";
  purity = 100_000;
  rate_per_gram = 9_000;
  effective_from = 3;
}

abbrev pub store : Store
store = record {
  organizations = organization ∷ [];
  shops = shop ∷ [];
  memberships =
      record { shop_id = 10; user_id = 7; role = Role.owner; is_active = true }
      ∷ record { shop_id = 10; user_id = 8; role = Role.cashier; is_active = true }
      ∷ [];
  users = [];
  invitations = [];
  subscriptions = subscription ∷ [];
  items = coin ∷ chain ∷ [];
  item_histories = [];
  changes = [];
  metal_rates = silver ∷ [];
  sales = [];
  sale_items = [];
  invoice_jobs = [];
}
