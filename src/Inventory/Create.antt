-- ===== src/Inventory/Create.antt =====
-- `create_item` of app/modules/items/service.py.
use aurum_pos.Prelude.{
  ℕ, ◌≡◌, refl, sym, ap, ◌∙◌, subst, raise_if-eq-ok, Bool, false, ◌&&◌, Option, none, some, is_none,
  List, [], ◌∷◌, ◌++◌, find, any, find-append_none, find-none_of_any, ltb, ◌==◌, ==_refl,
  if◌then◌else◌, Outcome, ok, ◌>>=◌, ◌>>◌, raise_if, >>=-eq-ok, >>-eq-ok, ok-injective, arith,
}
use aurum_pos.Text.{Text, =ᵗ_refl}
use aurum_pos.Items.Kinds.{in_stock}
use aurum_pos.Items.Schema.{ItemBase, stored}
use aurum_pos.Tables.Access.{Settings}
use aurum_pos.Tables.Stock.{Item, ItemEvent, Change}
use aurum_pos.Tables.Sales.{Store, Fault, barcode_in_use}
use aurum_pos.Subscriptions.Limits.{enforce_item_activation_limit}
use aurum_pos.Inventory.{is_live, get_item_by_id, record_item_history, log_change}
use aurum_pos.Inventory.Barcodes.{
  has_barcode, barcode_taken, generate_unique_barcode, generate_unique_barcode-fresh,
  get_item_by_barcode,
}

-- the given barcode, which the table's unique constraint refuses if the shop has it, or a new one
unfoldable pub item_barcode : Store → ℕ → List Text → Option Text → Outcome Fault Text
item_barcode db shop_id draws (some (c ∷ barcode)) =
    raise_if (barcode_taken db shop_id (c ∷ barcode)) barcode_in_use >> ok (c ∷ barcode)
item_barcode db shop_id draws (some []) =
    generate_unique_barcode db shop_id [] draws >>= λ found. ok found.0
item_barcode db shop_id draws none =
    generate_unique_barcode db shop_id [] draws >>= λ found. ok found.0

-- the row as the refresh reads it back, with its columns rounded
abbrev pub new_item : ℕ → ℕ → Text → ItemBase → Item
new_item item_id shop_id barcode fields = record {
  id = item_id;
  shop_id = shop_id;
  base = record (stored fields) { barcode = some barcode };
  status = in_stock;
  archived_at = none;
}

unfoldable pub activation_check : Settings → ℕ → ℕ → ℕ → Store → Outcome Fault (Unit {0})
activation_check settings now shop_id quantity db =
    if ltb 0 quantity then enforce_item_activation_limit settings now db shop_id else ok tt

unfoldable pub create_item :
    Settings → ℕ → ℕ → ℕ → List Text → ItemBase → Store → Outcome Fault (Item × Store)
create_item settings now item_id shop_id draws fields db = do
  _ ← activation_check settings now shop_id fields.quantity db
  barcode ← item_barcode db shop_id draws fields.barcode
  let item = new_item item_id shop_id barcode fields
  let added = record db { items = db.items ++ (item ∷ []) }
  ok (
    item,
    log_change (Change.item_created item_id) (record_item_history now ItemEvent.create item added),
  )

generated-fresh :
    (db : Store) (shop_id : ℕ) (draws : List Text) (barcode : Text)
    → (generate_unique_barcode db shop_id [] draws >>= λ found. ok found.0) ≡ ok barcode
    → barcode_taken db shop_id barcode ≡ false
generated-fresh db shop_id draws barcode e =
    let (found, drawn, same) = >>=-eq-ok (generate_unique_barcode db shop_id [] draws) _ e in
    subst (λ b. barcode_taken db shop_id b ≡ false) (ok-injective same)
      (generate_unique_barcode-fresh db shop_id [] draws found.0 found.1 drawn).0

item_barcode-fresh :
    (db : Store) (shop_id : ℕ) (draws : List Text) (given : Option Text) (barcode : Text)
    → item_barcode db shop_id draws given ≡ ok barcode
    → barcode_taken db shop_id barcode ≡ false
unfolding item_barcode
item_barcode-fresh db shop_id draws none barcode e = generated-fresh db shop_id draws barcode e
item_barcode-fresh db shop_id draws (some []) barcode e = generated-fresh db shop_id draws barcode e
item_barcode-fresh db shop_id draws (some (c ∷ given)) barcode e =
    let (free, same) =
      >>-eq-ok (raise_if (barcode_taken db shop_id (c ∷ given)) barcode_in_use) (ok (c ∷ given))
        e in
    subst (λ b. barcode_taken db shop_id b ≡ false) (ok-injective same)
      (raise_if-eq-ok (barcode_taken db shop_id (c ∷ given)) barcode_in_use free)

abbrev is_found : ℕ → Text → Item → Bool
is_found shop_id barcode i = has_barcode barcode i && i.shop_id == shop_id && is_none i.archived_at

-- the given barcode, if there is one; an empty one counts as none
abbrev pub given_or : Option Text → Text → Text
given_or none barcode = barcode
given_or (some []) barcode = barcode
given_or (some (c ∷ given)) barcode = c ∷ given

item_barcode-given :
    (db : Store) (shop_id : ℕ) (draws : List Text) (given : Option Text) (barcode : Text)
    → item_barcode db shop_id draws given ≡ ok barcode
    → barcode ≡ given_or given barcode
unfolding item_barcode
item_barcode-given db shop_id draws none barcode e = refl
item_barcode-given db shop_id draws (some []) barcode e = refl
item_barcode-given db shop_id draws (some (c ∷ given)) barcode e =
    let (_, same) =
      >>-eq-ok (raise_if (barcode_taken db shop_id (c ∷ given)) barcode_in_use) (ok (c ∷ given))
        e in
    sym (ok-injective same)

-- A created item has the given fields, rounded as their columns are, an id and a barcode under which
-- the shop finds it again; the barcode is the given one, if one that is not empty was given, and it was
-- no item's of the shop before. The item's id is new to the table.
pub create_item-found :
    (settings : Settings) (now item_id shop_id : ℕ) (draws : List Text) (fields : ItemBase)
    (db : Store) (item : Item) (after : Store)
    → any (λ i. i.id == item_id) db.items ≡ false
    → create_item settings now item_id shop_id draws fields db ≡ ok (item, after)
    → (barcode : Text) × (item.base ≡ record (stored fields) { barcode = some barcode })
      × (barcode ≡ given_or fields.barcode barcode)
      × (barcode_taken db shop_id barcode ≡ false)
      × (get_item_by_id after item_id shop_id ≡ some item)
      × (get_item_by_barcode after shop_id barcode ≡ some item)
unfolding create_item record_item_history log_change get_item_by_id get_item_by_barcode is_live
    barcode_taken
create_item-found settings now item_id shop_id draws fields db item after new e =
    let (_, _, e1) = >>=-eq-ok (activation_check settings now shop_id fields.quantity db) _ e in
    let (barcode, chosen, e2) = >>=-eq-ok (item_barcode db shop_id draws fields.barcode) _ e1 in
    let same = ok-injective e2 in
    let item' = new_item item_id shop_id barcode fields in
    let free = item_barcode-fresh db shop_id draws fields.barcode barcode chosen in
    let rows : after.items ≡ db.items ++ (item' ∷ []) = sym (ap (λ p. p.1.items) same) in
    let returned : item' ≡ item = ap (λ p. p.0) same in
    (
      barcode,
      sym (ap (λ i. i.base) returned),
      item_barcode-given db shop_id draws fields.barcode barcode chosen,
      free,
      ap (find (is_live item_id shop_id)) rows
          ∙ find-append_none (is_live item_id shop_id) db.items (item' ∷ []) (
              find-none_of_any (λ i. i.id == item_id) (is_live item_id shop_id) db.items
                (λ i h. ground arith) new)
          ∙ rw (==_refl item_id, ==_refl shop_id) (ap some returned),
      ap (find (is_found shop_id barcode)) rows
          ∙ find-append_none (is_found shop_id barcode) db.items (item' ∷ []) (
              find-none_of_any (λ i. i.shop_id == shop_id && has_barcode barcode i)
                (is_found shop_id barcode) db.items (λ i h. ground arith) free)
          ∙ rw (=ᵗ_refl barcode, ==_refl shop_id) (ap some returned),
    )
