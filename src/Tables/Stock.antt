-- ===== src/Tables/Stock.antt =====
-- Items, their history, the audit log and the metal rates: app/modules/items/models.py,
-- app/core/changelog/models.py, app/modules/metal_rates/models.py.
use aurum_pos.Prelude.{ℕ, Option}
use aurum_pos.Text.{Text}
use aurum_pos.Items.Kinds.{ItemStatus}
use aurum_pos.Items.Schema.{ItemBase}

-- the columns that the schema also has stand in `base`
pub record Item : Type 0 where
  pub id : ℕ
  pub shop_id : ℕ
  pub base : ItemBase
  pub status : ItemStatus
  pub archived_at : Option ℕ

pub data ItemEvent : Type 0 where
  create update archive sale : ItemEvent

-- an immutable snapshot
pub record ItemHistory : Type 0 where
  pub item : Item
  pub event_type : ItemEvent
  pub effective_from : ℕ

-- an entry of the audit log, without its payload
pub data Change : Type 0 where
  item_created item_updated item_archived item_sold : ℕ → Change
  sale_created : ℕ → Change
  inventory_cleared : ℕ → ℕ → Change
  inventory_imported : ℕ → ℕ → Change
  rate_created rate_updated : ℕ → Change
  transfer_completed : ℕ → ℕ → Change

-- `purity` is in thousandths of a percent, `rate_per_gram` in paise
pub record MetalRate : Type 0 where
  pub id : ℕ
  pub shop_id : ℕ
  pub metal : Text
  pub purity : ℕ
  pub rate_per_gram : ℕ
  pub effective_from : ℕ
