-- ===== src/Examples/Edits.antt =====
-- A ring that is created, and a chain whose total weight is edited.
use aurum_pos.Prelude.{◌+◌, ◌<◌, arith, ◌≡◌, ◌⊎◌, refl, true, false, none, some, [], ◌∷◌}
use aurum_pos.Text.{Text, text, normalize}
use aurum_pos.Items.Kinds.{is_in_stock}
use aurum_pos.Items.Schema.{or_zero, stored, ItemBase, fields_in_range}
use aurum_pos.Tables.Stock.{Item}
use aurum_pos.Tables.Sales.{Store}
use aurum_pos.Inventory.{get_item_by_id}
use aurum_pos.Inventory.Barcodes.{generate_unique_barcode, barcode_taken, get_item_by_barcode}
use mathlib.Core.Bool.{xor}
use aurum_pos.Subscriptions.{resolve_entitlement, shop_access_mode}
use aurum_pos.Subscriptions.Limits.{enforce_item_activation_limit}
use aurum_pos.Inventory.Weights.{reconcile_remaining_weight}
use aurum_pos.Items.Catalog.{normalize_category}
use aurum_pos.Items.Schema.Validation.{model_validate, validate_modes}
use aurum_pos.Inventory.Create.{
  given_or, activation_check, item_barcode, create_item, create_item-found,
}
use aurum_pos.Inventory.Update.{
  update_row, requested_updates, reconcile_weight, reactivation_check, updated_item, update_item,
  has_sale,
}
use aurum_pos.Inventory.Fields.{merged, written}
use aurum_pos.Inventory.Fields.{ItemUpdate}
use aurum_pos.Inventory.Update.Consumed.{update_item-consumed}
use aurum_pos.Inventory.Update.Kept.{update_item-keeps}
use aurum_pos.Examples.{
  chain_base, chain, value, is_ok, eq-ok_value, settings, store, coin, coin_base,
}

abbrev ring_base : ItemBase
ring_base = record coin_base { sku = text "C3"; barcode = none; name = text "Ring" }

abbrev created : Item × Store
created =
    value (create_item settings 5 103 10 (text "1" ∷ text "3" ∷ []) ring_base store) (coin, store)

created-is_ok :
    is_ok (create_item settings 5 103 10 (text "1" ∷ text "3" ∷ []) ring_base store) ≡ true
unfolding create_item activation_check enforce_item_activation_limit shop_access_mode
    resolve_entitlement item_barcode generate_unique_barcode
created-is_ok = refl

create_item-found_example :
    (barcode : Text) × (created.0.base ≡ record (stored ring_base) { barcode = some barcode })
    × (barcode ≡ given_or none barcode)
    × (barcode_taken store 10 barcode ≡ false)
    × (get_item_by_id created.1 103 10 ≡ some created.0)
    × (get_item_by_barcode created.1 10 barcode ≡ some created.0)
create_item-found_example =
    create_item-found settings 5 103 10 (text "1" ∷ text "3" ∷ []) ring_base store created.0
      created.1 refl
      (eq-ok_value (create_item settings 5 103 10 (text "1" ∷ text "3" ∷ []) ring_base store)
        (coin, store) created-is_ok)

-- half of it was sold
abbrev long_chain : Item
long_chain = record chain { base = record chain_base { net_weight = 40_000 } }

abbrev weighed_store : Store
weighed_store = record store { items = long_chain ∷ [] }

abbrev heavier : ItemUpdate
heavier = record {
  sku = none;
  barcode = none;
  category = none;
  item_type = none;
  pricing_method = none;
  stock_mode = none;
  name = none;
  metal = none;
  purity = none;
  net_weight = some 50_000;
  making_charge = none;
  fixed_rate = none;
  stock_weight = none;
  ratti = none;
  rate_per_ratti = none;
  quantity = none;
  notes = none;
}

abbrev updated : Item × Store
updated = value (update_item settings 5 101 10 heavier weighed_store) (long_chain, weighed_store)

updated-is_ok : is_ok (update_item settings 5 101 10 heavier weighed_store) ≡ true
unfolding update_item get_item_by_id update_row requested_updates reconcile_weight
    reconcile_remaining_weight reactivation_check model_validate merged normalize fields_in_range
    normalize_category validate_modes xor updated_item written
updated-is_ok = refl

update_item-keeps_example :
    (item : Item) × (get_item_by_id weighed_store 101 10 ≡ some item)
    × (is_in_stock item.status ≡ true)
    × (updated.0.base.item_type ≡ item.base.item_type)
    × ((updated.0.base.stock_mode ≡ item.base.stock_mode) ⊎ (has_sale weighed_store item ≡ false))
    × (get_item_by_id updated.1 101 10 ≡ some updated.0)
update_item-keeps_example =
    update_item-keeps settings 5 101 10 heavier weighed_store updated.0 updated.1 (
      eq-ok_value (update_item settings 5 101 10 heavier weighed_store) (long_chain, weighed_store)
        updated-is_ok)

long_chain-row : get_item_by_id weighed_store 101 10 ≡ some long_chain
unfolding get_item_by_id
long_chain-row = refl

update_item-consumed_example :
    (0 < updated.0.base.net_weight)
    × (updated.0.base.net_weight + 20_000 ≡ 40_000 + or_zero updated.0.base.stock_weight)
update_item-consumed_example =
    update_item-consumed settings 5 101 10 heavier weighed_store long_chain updated.0 updated.1
      long_chain-row refl refl (omega arith)
      (eq-ok_value (update_item settings 5 101 10 heavier weighed_store) (long_chain, weighed_store)
        updated-is_ok)
