-- ===== src/Inventory/Update/Kept.antt =====
-- What an update leaves of an item.
use aurum_pos.Prelude.{
  ℕ, ◌≡◌, ◌⊎◌, refl, sym, ap, ◌∙◌, Bool, true, false, not, ◌&&◌, some, is_some, or_default, find,
  update, any, find-holds, find-replaced, ◌==◌, ==_refl, if◌then◌else◌, Outcome, ok, err, raise_if,
  or_raise, >>=-eq-ok, raise_if-eq-ok, or_raise-eq-ok, ok-injective, Bool-cases, inl, inr,
}
use aurum_pos.Items.Kinds.{is_in_stock}
use aurum_pos.Items.Schema.{ItemBase}
use aurum_pos.Items.Schema.Validation.{ValidationError, model_validate}
use aurum_pos.Tables.Access.{Settings}
use aurum_pos.Tables.Stock.{Item}
use aurum_pos.Tables.Sales.{
  Store, item_missing, not_in_stock, item_type_changed, stock_mode_changed, barcode_in_use,
}
use aurum_pos.Inventory.{get_item_by_id, is_live, save_item, record_item_history, log_change}
use aurum_pos.Inventory.Update.{
  type_changes, mode_changes, has_sale, requested_updates, updated_item, clashes, as_fault,
  write_item, reactivation_check, update_row, update_item,
}
use aurum_pos.Inventory.Fields.{merged, written}
use aurum_pos.Inventory.Fields.{ItemUpdate, same_fields}
use aurum_pos.Inventory.Update.Kinds.{
  model_validate-kind, requested_updates-kind, same_type-requested, same_mode-requested, and-false,
  not-false,
}

chosen : {A : Type 0} (asked : Bool) (x y z : A) → x ≡ z → y ≡ z → (if asked then x else y) ≡ z
chosen true x y z h k = h
chosen false x y z h k = k

pub as_fault-eq-ok :
    (m : Outcome ValidationError ItemBase) (v : ItemBase) → as_fault m ≡ ok v → m ≡ ok v
as_fault-eq-ok (ok b) v e = ap ok (ok-injective e)
as_fault-eq-ok (err x) v e = absurd (cc e)

written-kind :
    (item : Item) (r : ItemUpdate) (v : ItemBase)
    → type_changes item r.item_type ≡ false
    → as_fault (model_validate (merged item.base r)) ≡ ok v
    → ((written r v item.base).item_type ≡ item.base.item_type)
      × (mode_changes item r.stock_mode ≡ false
          → (written r v item.base).stock_mode ≡ item.base.stock_mode)
unfolding written merged
written-kind item r v same e =
    let valid = as_fault-eq-ok (model_validate (merged item.base r)) v e in
    let (kind, mode) =
      model_validate-kind (merged item.base r) (or_default r.item_type item.base.item_type)
        (or_default r.stock_mode item.base.stock_mode) v refl refl valid in
    (
      chosen (is_some r.item_type) v.item_type item.base.item_type item.base.item_type
          (kind ∙ same_type-requested item r.item_type same) refl,
      λ kept.
          chosen (is_some r.stock_mode) v.stock_mode item.base.stock_mode item.base.stock_mode
            (mode ∙ same_mode-requested item r.stock_mode kept) refl,
    )

write_item-items :
    (now : ℕ) (item item' : Item) (db : Store)
    → (write_item now item item' db).items ≡ update (λ i. i.id == item'.id) (λ _. item') db.items
unfolding write_item save_item record_item_history log_change
write_item-items now item item' db = elim (Bool-cases (same_fields item.base item'.base)) [
  | inl same ↦ rw same refl
  | inr changed ↦ rw changed refl
]

-- An update that succeeds changes an item that is in stock and leaves it in its place. The item keeps
-- its kind, and its stock mode too once it has been sold from.
pub update_item-keeps :
    (settings : Settings) (now item_id shop_id : ℕ) (u : ItemUpdate) (db : Store) (item' : Item)
    (after : Store)
    → update_item settings now item_id shop_id u db ≡ ok (item', after)
    → (item : Item) × (get_item_by_id db item_id shop_id ≡ some item)
      × (is_in_stock item.status ≡ true)
      × (item'.base.item_type ≡ item.base.item_type)
      × ((item'.base.stock_mode ≡ item.base.stock_mode) ⊎ (has_sale db item ≡ false))
      × (get_item_by_id after item_id shop_id ≡ some item')
unfolding update_item update_row updated_item get_item_by_id is_live
update_item-keeps settings now item_id shop_id u db item' after e =
    let (item, found, e0) =
      >>=-eq-ok (or_raise (get_item_by_id db item_id shop_id) item_missing) _ e in
    let row = or_raise-eq-ok (get_item_by_id db item_id shop_id) item_missing found in
    let (_, stocked, e1) = >>=-eq-ok (raise_if (not (is_in_stock item.status)) not_in_stock) _ e0 in
    let (_, typed, e2) =
      >>=-eq-ok (raise_if (type_changes item u.item_type) item_type_changed) _ e1 in
    let (_, moded, e3) =
      >>=-eq-ok (raise_if (mode_changes item u.stock_mode && has_sale db item) stock_mode_changed) _
        e2 in
    let (r, weighed, e4) = >>=-eq-ok (requested_updates item u) _ e3 in
    let (_, _, e5) = >>=-eq-ok (reactivation_check settings now item r.quantity db) _ e4 in
    let (v, valid, e6) = >>=-eq-ok (as_fault (model_validate (merged item.base r))) _ e5 in
    let new = updated_item (written r v item.base) item in
    let (_, _, e7) =
      >>=-eq-ok (raise_if (any (clashes new new.base.barcode) db.items) barcode_in_use) _ e6 in
    let same = ok-injective e7 in
    let (r_type, r_mode) = requested_updates-kind item u r weighed in
    let (kind, mode) =
      written-kind item r v
        (ap (type_changes item) r_type
          ∙ raise_if-eq-ok (type_changes item u.item_type) item_type_changed typed)
        valid in
    let returned : new ≡ item' = ap (λ p. p.0) same in
    (
      item,
      row,
      not-false (is_in_stock item.status)
          (raise_if-eq-ok (not (is_in_stock item.status)) not_in_stock stocked),
      sym (ap (λ i. i.base.item_type) returned) ∙ kind,
      elim (and-false (mode_changes item u.stock_mode) (has_sale db item)
          (raise_if-eq-ok _ stock_mode_changed moded)) [
            | inl kept ↦ inl (
                sym (ap (λ i. i.base.stock_mode) returned)
                ∙ mode (ap (mode_changes item) r_mode ∙ kept))
            | inr unsold ↦ inr unsold
          ],
      ap (λ p. find (is_live item_id shop_id) p.1.items) (sym same)
          ∙ ap (find (is_live item_id shop_id)) (write_item-items now item new db)
          ∙ find-replaced (λ i. i.id == new.id) (is_live item_id shop_id) new db.items item row
              (==_refl item.id) (find-holds (is_live item_id shop_id) db.items item row)
          ∙ ap some returned,
    )
