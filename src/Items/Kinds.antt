-- ===== src/Items/Kinds.antt =====
-- The closed string types of app/modules/items/schemas.py and the item statuses of
-- app/modules/items/models.py.
use aurum_pos.Prelude.{Bool, true, false}

pub data ItemType : Type 0 where
  jewellery stone : ItemType

pub data PricingMethod : Type 0 where
  fixed_rate fixed_making_charge making_charge_per_gram rate_per_ratti : PricingMethod

pub data StockMode : Type 0 where
  quantity weight : StockMode

pub data ItemStatus : Type 0 where
  in_stock sold reserved archived : ItemStatus

abbrev pub is_stone : ItemType → Bool
is_stone stone = true
is_stone jewellery = false

abbrev pub is_fixed_rate : PricingMethod → Bool
is_fixed_rate fixed_rate = true
is_fixed_rate _ = false

abbrev pub is_fixed_making : PricingMethod → Bool
is_fixed_making fixed_making_charge = true
is_fixed_making _ = false

abbrev pub is_ratti : PricingMethod → Bool
is_ratti rate_per_ratti = true
is_ratti _ = false

abbrev pub is_weight : StockMode → Bool
is_weight weight = true
is_weight quantity = false

abbrev pub is_in_stock : ItemStatus → Bool
is_in_stock in_stock = true
is_in_stock _ = false
