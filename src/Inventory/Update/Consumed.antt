-- ===== src/Inventory/Update/Consumed.antt =====
-- What was sold of a weighed item stays sold when its weight is edited.
use aurum_pos.Prelude.{
  ℕ, ◌+◌, ◌≤◌, ◌<◌, ◌≡◌, refl, sym, ap, ◌∙◌, subst, true, not, ◌&&◌, some, or_default, any, ok,
  ◌>>=◌, raise_if, or_raise, >>=-eq-ok, >>-eq-ok, ok-injective, arith,
}
use aurum_pos.Items.Kinds.{StockMode, is_weight, is_in_stock}
use aurum_pos.Items.Schema.{ItemBase, or_zero}
use aurum_pos.Items.Schema.Validation.{model_validate}
use aurum_pos.Tables.Access.{Settings}
use aurum_pos.Tables.Stock.{Item}
use aurum_pos.Tables.Sales.{
  Store, item_missing, not_in_stock, item_type_changed, stock_mode_changed, barcode_in_use,
  remaining_weight_edited,
}
use aurum_pos.Inventory.{get_item_by_id}
use aurum_pos.Inventory.Weights.{reconcile_remaining_weight, reconcile_remaining_weight_iff}
use aurum_pos.Inventory.Fields.{ItemUpdate, merged, is_structural, written}
use aurum_pos.Inventory.Update.{
  type_changes, mode_changes, has_sale, edits_remaining, weighed, requested_updates,
  reconcile_weight, updated_item, clashes, as_fault, reactivation_check, update_row, update_item,
}
use aurum_pos.Inventory.Update.Kept.{as_fault-eq-ok}
use aurum_pos.Inventory.Update.Weighed.{model_validate-weights}

is_weight→eq : (m : StockMode) → is_weight m ≡ true → m ≡ StockMode.weight
is_weight→eq StockMode.weight h = refl
is_weight→eq StockMode.quantity h = absurd (cc h)

-- the weighing of an edited item
requested_updates-weighed :
    (item : Item) (u r : ItemUpdate)
    → is_weight item.base.stock_mode ≡ true
    → is_weight (or_default u.stock_mode item.base.stock_mode) ≡ true
    → requested_updates item u ≡ ok r
    → (remaining : ℕ) × (reconcile_remaining_weight item.base.net_weight
          (or_zero item.base.stock_weight)
          (or_default u.net_weight item.base.net_weight)
        ≡ ok remaining)
      × (weighed (or_default u.net_weight item.base.net_weight) u remaining ≡ r)
unfolding requested_updates reconcile_weight
requested_updates-weighed item u r old new e =
    let total = or_default u.net_weight item.base.net_weight in
    let left = or_zero item.base.stock_weight in
    let (_, e1) =
      >>-eq-ok (raise_if (edits_remaining left u.net_weight u.stock_weight) remaining_weight_edited)
        _ (rw (new, old) at e) in
    let (remaining, reconciled, e2) =
      >>=-eq-ok (reconcile_remaining_weight item.base.net_weight left total) _ e1 in
    (remaining, reconciled, ok-injective e2)

written-weights :
    (item : Item) (u : ItemUpdate) (v : ItemBase) (total remaining : ℕ)
    → is_weight (or_default u.stock_mode item.base.stock_mode) ≡ true
    → 0 < total
    → as_fault (model_validate (merged item.base (weighed total u remaining))) ≡ ok v
    → let b = written (weighed total u remaining) v item.base in
      (b.net_weight ≡ total) × (b.stock_weight ≡ some remaining)
unfolding written merged
written-weights item u v total remaining w h e =
    let valid =
      as_fault-eq-ok (model_validate (merged item.base (weighed total u remaining))) v e in
    let (net, stock) =
      model_validate-weights (merged item.base (weighed total u remaining))
        (or_default u.item_type item.base.item_type) v total remaining refl
        (ap some (is_weight→eq (or_default u.stock_mode item.base.stock_mode) w)) refl refl h
        valid in
    let structural : is_structural (weighed total u remaining) ≡ true = ground arith in
    rw structural (net, stock)

-- Editing an item that is and stays sold by weight keeps what was sold of it: the new total less the
-- new remaining weight is the old total less the old remaining weight. The old remaining weight is at
-- most the old total, as the table demands.
pub update_item-consumed :
    (settings : Settings) (now item_id shop_id : ℕ) (u : ItemUpdate) (db : Store)
    (item item' : Item) (after : Store)
    → get_item_by_id db item_id shop_id ≡ some item
    → is_weight item.base.stock_mode ≡ true
    → is_weight (or_default u.stock_mode item.base.stock_mode) ≡ true
    → or_zero item.base.stock_weight ≤ item.base.net_weight
    → update_item settings now item_id shop_id u db ≡ ok (item', after)
    → (0 < item'.base.net_weight)
      × (item'.base.net_weight + or_zero item.base.stock_weight
          ≡ item.base.net_weight + or_zero item'.base.stock_weight)
unfolding update_item update_row updated_item
update_item-consumed settings now item_id shop_id u db item item' after row old new bound e =
    let e0 : update_row settings now item u db ≡ ok (item', after) =
      ap (λ o. or_raise o item_missing >>= λ i. update_row settings now i u db) (sym row) ∙ e in
    let (_, _, e1) = >>=-eq-ok (raise_if (not (is_in_stock item.status)) not_in_stock) _ e0 in
    let (_, _, e2) = >>=-eq-ok (raise_if (type_changes item u.item_type) item_type_changed) _ e1 in
    let (_, _, e3) =
      >>=-eq-ok (raise_if (mode_changes item u.stock_mode && has_sale db item) stock_mode_changed) _
        e2 in
    let (r, requested, e4) = >>=-eq-ok (requested_updates item u) _ e3 in
    let (_, _, e5) = >>=-eq-ok (reactivation_check settings now item r.quantity db) _ e4 in
    let (v, valid, e6) = >>=-eq-ok (as_fault (model_validate (merged item.base r))) _ e5 in
    let changed = updated_item (written r v item.base) item in
    let (_, _, e7) =
      >>=-eq-ok (raise_if (any (clashes changed changed.base.barcode) db.items) barcode_in_use) _
        e6 in
    let returned : changed ≡ item' = ap (λ p. p.0) (ok-injective e7) in
    let total = or_default u.net_weight item.base.net_weight in
    let (remaining, reconciled, weighing) = requested_updates-weighed item u r old new requested in
    let (positive, balance) =
      (reconcile_remaining_weight_iff item.base.net_weight (or_zero item.base.stock_weight) total
          remaining bound).0
        reconciled in
    let (net, stock) =
      written-weights item u v total remaining new positive
        (subst (λ x. as_fault (model_validate (merged item.base x)) ≡ ok v) (sym weighing) valid) in
    let net' : item'.base.net_weight ≡ total =
      sym (ap (λ i. i.base.net_weight) returned)
      ∙ ap (λ x. (written x v item.base).net_weight) (sym weighing)
      ∙ net in
    let stock' : or_zero item'.base.stock_weight ≡ remaining =
      sym (ap (λ i. or_zero i.base.stock_weight) returned)
      ∙ ap (λ x. or_zero (written x v item.base).stock_weight) (sym weighing)
      ∙ ap or_zero stock in
    (rw net' positive, rw (net', stock') balance)
