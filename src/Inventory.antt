-- ===== src/Inventory.antt =====
-- app/modules/items/service.py: the operations on the inventory, over the store. Each runs in the
-- request's transaction: a raise leaves the store as it was.
pub mod Weights
pub mod Archive
pub mod Barcodes
pub mod Create
pub mod Fields
pub mod Update
use aurum_pos.Prelude.{
  ℕ, Bool, true, false, not, ◌&&◌, Option, none, some, is_none, List, [], ◌∷◌, ◌++◌, ◌==◌, find,
  update, if◌then◌else◌,
}
use aurum_pos.Text.{Text, ◌=ᵗ◌}
use aurum_pos.Items.Kinds.{ItemStatus, is_in_stock, archived}
use aurum_pos.Items.Schema.{ItemBase}
use aurum_pos.Tables.Stock.{Item, ItemEvent, ItemHistory, Change}
use aurum_pos.Tables.Sales.{Store}

-- the row of an item that is not archived
unfoldable pub is_live : ℕ → ℕ → Item → Bool
is_live item_id shop_id i = i.id == item_id && i.shop_id == shop_id && is_none i.archived_at

unfoldable pub get_item_by_id : Store → ℕ → ℕ → Option Item
unfolding is_live
get_item_by_id db item_id shop_id = find (is_live item_id shop_id) db.items

unfoldable pub record_item_history : ℕ → ItemEvent → Item → Store → Store
record_item_history now event_type item db = record db {
  item_histories =
      db.item_histories
      ++ (record { item = item; event_type = event_type; effective_from = now } ∷ []);
}

unfoldable pub log_change : Change → Store → Store
log_change change db = record db { changes = db.changes ++ (change ∷ []) }

-- a row is written back under its primary key
unfoldable pub save_item : Item → Store → Store
save_item item db = record db { items = update (λ i. i.id == item.id) (λ _. item) db.items }
