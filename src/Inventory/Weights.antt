-- ===== src/Inventory/Weights.antt =====
-- `reconcile_remaining_weight` of app/modules/items/service.py: a weighted item's remaining weight
-- when its total is edited. The remaining weight is at most the total (`items_stock_contract`).
use aurum_pos.Prelude.{ℕ, ◌+◌, ◌-◌, ◌≤◌, ◌<◌, ◌≡◌, ◌↔◌, ltb, if◌then◌else◌, Outcome, ok, err, arith}
use aurum_pos.Tables.Sales.{Fault, total_weight_not_positive, total_weight_below_consumed}

unfoldable pub reconcile_remaining_weight : ℕ → ℕ → ℕ → Outcome Fault ℕ
reconcile_remaining_weight current_total current_remaining new_total =
    let consumed_weight = current_total - current_remaining in
    if ltb 0 new_total
    then if ltb new_total consumed_weight
      then err total_weight_below_consumed
      else ok (new_total - consumed_weight)
    else err total_weight_not_positive

-- Editing the total of a weighted item succeeds with a remaining weight exactly when the new total is
-- positive and the consumed weight, total less remaining, is the same before and after.
pub reconcile_remaining_weight_iff :
    (total remaining new left : ℕ)
    → remaining ≤ total
    → (reconcile_remaining_weight total remaining new ≡ ok left)
      ↔ ((0 < new) × (new + remaining ≡ total + left))
unfolding reconcile_remaining_weight
reconcile_remaining_weight_iff total remaining new left h = (λ e. ground arith, λ e. ground arith)
