-- ===== src/Inventory/Archive.antt =====
-- Archiving: `_archive_item`, `delete_item`, `delete_items`, `clear_in_stock_inventory`.
pub mod Effect
pub mod Clear
use aurum_pos.Prelude.{
  ℕ, Bool, true, false, not, ◌&&◌, ◌||◌, Option, none, some, is_none, List, [], ◌∷◌, map, mem, ◌==◌,
  find, select, any, length, update, if◌then◌else◌, Outcome, ok, err, ◌>>=◌, ◌>>◌, raise_if,
  or_raise,
}
use aurum_pos.Items.Kinds.{ItemStatus, is_in_stock, archived}
use aurum_pos.Tables.Stock.{Item, ItemEvent, Change}
use aurum_pos.Tables.Sales.{Store, Fault, item_missing, not_in_stock, items_missing}
use aurum_pos.Inventory.{get_item_by_id, record_item_history, log_change, save_item}

abbrev pub archived_item : ℕ → Item → Item
archived_item now item = record item {
  base = record (item.base) { quantity = 0 };
  status = archived;
  archived_at = some now;
}

-- `_archive_item`
unfoldable pub archive_item : ℕ → Bool → Item → Store → Store
unfolding record_item_history log_change save_item
archive_item now log_item_change item db =
    let logged = if log_item_change then log_change (Change.item_archived item.id) db else db in
    let item' = archived_item now item in
    record_item_history now ItemEvent.archive item' (save_item item' logged)

unfoldable pub delete_item : ℕ → ℕ → ℕ → Store → Outcome Fault Store
delete_item now shop_id item_id db = do
  item ← or_raise (get_item_by_id db item_id shop_id) item_missing
  raise_if (not (is_in_stock item.status)) not_in_stock
  ok (archive_item now true item db)

-- the rows of the selection that the shop has and that are not archived
abbrev pub selected_items : ℕ → List ℕ → Store → List Item
selected_items shop_id item_ids db =
    select (λ i. mem i.id item_ids && i.shop_id == shop_id && is_none i.archived_at) db.items

unfoldable pub archive_all : ℕ → Bool → List Item → Store → Store
archive_all now log_item_change [] db = db
archive_all now log_item_change (item ∷ items) db =
    archive_all now log_item_change items (archive_item now log_item_change item db)

-- in the order of `item_ids`
unfoldable pub in_order : List ℕ → List Item → List Item
in_order [] items = []
in_order (id ∷ ids) items = elim (find (λ i. i.id == id) items) [
  | none ↦ in_order ids items
  | some i ↦ i ∷ in_order ids items
]

unfoldable pub delete_items : ℕ → ℕ → List ℕ → Store → Outcome Fault Store
delete_items now shop_id item_ids db = do
  let items = selected_items shop_id item_ids db
  raise_if (not (length items == length item_ids)) items_missing
  raise_if (any (λ i. not (is_in_stock i.status)) items) not_in_stock
  ok (archive_all now true (in_order item_ids items) db)

-- the number of archived items, and the store
unfoldable pub clear_selected : ℕ → ℕ → List Item → Store → ℕ × Store
unfolding log_change
clear_selected now shop_id [] db = (0, db)
clear_selected now shop_id (item ∷ rest) db =
    let items = item ∷ rest in
    (
      length items,
      log_change (Change.inventory_cleared shop_id (length items)) (archive_all now false items db),
    )

unfoldable pub clear_in_stock_inventory : ℕ → ℕ → Store → ℕ × Store
unfolding clear_selected
clear_in_stock_inventory now shop_id db =
    clear_selected now shop_id
      (select (λ i. i.shop_id == shop_id && is_in_stock i.status && is_none i.archived_at) db.items)
      db
