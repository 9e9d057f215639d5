-- ===== src/Inventory/Update.antt =====
-- `update_item` of app/modules/items/service.py.
pub mod Kinds
pub mod Kept
pub mod Weighed
pub mod Consumed
use aurum_pos.Inventory.Fields.{
  type_name, merged, is_structural, written, ItemUpdate, same_fields, same_method, same_mode,
  same_number, same_text, same_type,
}
use aurum_pos.Prelude.{
  ℕ, Bool, true, false, not, ◌&&◌, ◌||◌, Option, none, some, is_none, is_some, or_default, List,
  any, update, ltb, ◌==◌, if◌then◌else◌, Outcome, ok, err, ◌>>=◌, ◌>>◌, raise_if, or_raise,
}
use aurum_pos.Text.{Text, text, ◌=ᵗ◌}
use aurum_pos.Items.Kinds.{
  ItemType, PricingMethod, StockMode, ItemStatus, jewellery, stone, fixed_rate, fixed_making_charge,
  making_charge_per_gram, rate_per_ratti, is_stone, is_weight, is_in_stock, sold,
}
use aurum_pos.Items.Schema.{ItemPayload, ItemBase, or_zero}
use aurum_pos.Items.Schema.Validation.{ValidationError, model_validate}
use aurum_pos.Tables.Access.{Settings}
use aurum_pos.Tables.Stock.{Item, ItemEvent, Change}
use aurum_pos.Tables.Sales.{
  Store, Fault, item_missing, not_in_stock, item_type_changed, stock_mode_changed,
  remaining_weight_edited, invalid_item, barcode_in_use,
}
use aurum_pos.Inventory.{get_item_by_id, record_item_history, log_change, save_item}
use aurum_pos.Inventory.Barcodes.{has_barcode}
use aurum_pos.Inventory.Create.{activation_check}
use aurum_pos.Inventory.Weights.{reconcile_remaining_weight}

-- `"item_type" in requested_updates and requested_updates["item_type"] != item.item_type`
abbrev pub type_changes : Item → Option ItemType → Bool
type_changes item none = false
type_changes item (some t) = not (same_type t item.base.item_type)

abbrev pub mode_changes : Item → Option StockMode → Bool
mode_changes item none = false
mode_changes item (some m) = not (same_mode m item.base.stock_mode)

abbrev pub has_sale : Store → Item → Bool
has_sale db item = any (λ s. s.shop_id == item.shop_id && s.item_id == item.id) db.sale_items

-- the remaining weight is given with no total weight, and differs
abbrev pub edits_remaining : ℕ → Option ℕ → Option (Option ℕ) → Bool
edits_remaining remaining (some _) given = false
edits_remaining remaining none none = false
edits_remaining remaining none (some none) = true
edits_remaining remaining none (some (some w)) = not (w == remaining)

-- `requested_updates.get("net_weight") or requested_stock_weight or 0`
abbrev pub first_weight : ItemUpdate → ℕ
first_weight u =
    if ltb 0 (or_zero u.net_weight)
    then or_zero u.net_weight
    else or_zero (or_default u.stock_weight none)

abbrev pub weighed : ℕ → ItemUpdate → ℕ → ItemUpdate
weighed total u remaining = record u {
  net_weight = some total;
  stock_weight = some (some remaining);
  quantity = some (if ltb 0 remaining then 1 else 0);
}

unfoldable pub reconcile_weight : Item → ItemUpdate → Outcome Fault ItemUpdate
reconcile_weight item u =
    if is_weight item.base.stock_mode
    then raise_if (edits_remaining (or_zero item.base.stock_weight) u.net_weight u.stock_weight)
        remaining_weight_edited
      >> (reconcile_remaining_weight item.base.net_weight (or_zero item.base.stock_weight)
            (or_default u.net_weight item.base.net_weight)
          >>= λ remaining. ok (weighed (or_default u.net_weight item.base.net_weight) u remaining))
    else reconcile_remaining_weight 0 0 (first_weight u) >>= λ remaining.
        ok (weighed (first_weight u) u remaining)

-- the updates, with the weights of an item that is to be sold by weight
unfoldable pub requested_updates : Item → ItemUpdate → Outcome Fault ItemUpdate
requested_updates item u =
    if is_weight (or_default u.stock_mode item.base.stock_mode)
    then reconcile_weight item u
    else ok u

abbrev pub is_zero_weight : Option ℕ → Bool
is_zero_weight none = false
is_zero_weight (some w) = w == 0

-- a weighed item with nothing left is sold
unfoldable pub updated_item : ItemBase → Item → Item
updated_item b item = record item {
  base = b;
  status = if is_weight b.stock_mode && is_zero_weight b.stock_weight then sold else item.status;
}

-- another row of the shop has the barcode
abbrev pub clashes : Item → Option Text → Item → Bool
clashes item none i = false
clashes item (some barcode) i =
    i.shop_id == item.shop_id && not (i.id == item.id) && has_barcode barcode i

-- pydantic's error is a `ValueError`
abbrev pub as_fault : Outcome ValidationError ItemBase → Outcome Fault ItemBase
as_fault (ok b) = ok b
as_fault (err _) = err invalid_item

-- the row is written; the log has an entry only if a field differs
unfoldable pub write_item : ℕ → Item → Item → Store → Store
write_item now before item db =
    let saved = record_item_history now ItemEvent.update item (save_item item db) in
    if same_fields before.base item.base
    then saved
    else log_change (Change.item_updated item.id) saved

-- `item.quantity <= 0 and requested_quantity is not None and requested_quantity > 0`
unfoldable pub reactivation_check :
    Settings → ℕ → Item → Option ℕ → Store → Outcome Fault (Unit {0})
reactivation_check settings now item quantity db =
    if ltb 0 item.base.quantity
    then ok tt
    else activation_check settings now item.shop_id (or_zero quantity) db

-- the update of a row
unfoldable pub update_row : Settings → ℕ → Item → ItemUpdate → Store → Outcome Fault (Item × Store)
update_row settings now item u db = do
  _ ← raise_if (not (is_in_stock item.status)) not_in_stock
  _ ← raise_if (type_changes item u.item_type) item_type_changed
  _ ← raise_if (mode_changes item u.stock_mode && has_sale db item) stock_mode_changed
  requested ← requested_updates item u
  _ ← reactivation_check settings now item requested.quantity db
  validated ← as_fault (model_validate (merged item.base requested))
  let item' = updated_item (written requested validated item.base) item
  _ ← raise_if (any (clashes item' item'.base.barcode) db.items) barcode_in_use
  ok (item', write_item now item item' db)

-- `update_item`
unfoldable pub update_item :
    Settings → ℕ → ℕ → ℕ → ItemUpdate → Store → Outcome Fault (Item × Store)
update_item settings now item_id shop_id u db =
    or_raise (get_item_by_id db item_id shop_id) item_missing >>= λ item.
    update_row settings now item u db
