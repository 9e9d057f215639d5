-- ===== src/Sales/Cart.antt =====
-- The requested amounts of a checkout: app/modules/sales/schemas.py, and the first part of
-- `_execute_create_sale` in app/modules/sales/service.py.
pub mod Amounts
use aurum_pos.Prelude.{
  ℕ, ◌+◌, ◌*◌, Bool, true, false, not, ◌&&◌, ◌||◌, Option, none, some, or_default, is_none, is_some,
  List, [], ◌∷◌, ◌++◌, map, mem, any, ltb, ◌==◌, select, find, length, if◌then◌else◌, Outcome, ok,
  err, ◌>>=◌, ◌>>◌, raise_if,
}
use aurum_pos.Text.{Text}
use aurum_pos.Decimal.{Decimal}
use aurum_pos.Items.Kinds.{is_weight, is_in_stock}
use aurum_pos.Tables.Stock.{Item}
use aurum_pos.Tables.Sales.{
  Store, Fault, quantity_and_weight, items_missing, item_unavailable, weight_required, weight_short,
  sold_by_quantity, quantity_short,
}

-- weights are in milligrams
pub record SaleItemInput : Type 0 where
  pub item_id : ℕ
  pub quantity : Option ℕ
  pub weight_grams : Option ℕ

pub record SaleCreate : Type 0 where
  pub items : List SaleItemInput
  pub customer_phone : Text
  pub total_amount : Option Decimal
  pub send_invoice_via_whatsapp : Bool

-- `validate_amount`: `none` is the error, and a line with neither amount asks for one piece
unfoldable pub validate_amount : SaleItemInput → Option SaleItemInput
validate_amount i =
    if is_some i.quantity && is_some i.weight_grams
    then none
    else if is_none i.quantity && is_none i.weight_grams
    then some (record i { quantity = some 1 })
    else some i

abbrev pub Amounts : Type 0
Amounts = List (ℕ × ℕ)

abbrev pub get : ℕ → Amounts → Option ℕ
get k [] = none
get k ((j, n) ∷ d) = if j == k then some n else get k d

abbrev pub keys : Amounts → List ℕ
keys [] = []
keys ((j, n) ∷ d) = j ∷ keys d

-- `d[k] = d.get(k, 0) + n`
abbrev pub add_amount : ℕ → ℕ → Amounts → Amounts
add_amount k n [] = (k, n) ∷ []
add_amount k n ((j, m) ∷ d) = if j == k then (j, m + n) ∷ d else (j, m) ∷ add_amount k n d

-- one input line counted into the quantities and the weights
abbrev pub count_line : SaleItemInput → Amounts × Amounts → Amounts × Amounts
count_line i (quantities, weights) = elim i.weight_grams [
  | some w ↦ (quantities, add_amount i.item_id w weights)
  | none ↦ (add_amount i.item_id (or_default i.quantity 1) quantities, weights)
]

unfoldable pub count_lines : List SaleItemInput → Amounts × Amounts → Amounts × Amounts
count_lines [] totals = totals
count_lines (i ∷ inputs) totals = count_lines inputs (count_line i totals)

pub record Cart : Type 0 where
  pub quantities : Amounts
  pub weights : Amounts

-- The order of a Python set is not specified; here the quantities come first, each in input order.
abbrev pub item_ids : Cart → List ℕ
item_ids c = keys c.quantities ++ keys c.weights

unfoldable pub read_cart : SaleCreate → Outcome Fault Cart
unfolding count_lines
read_cart request = do
  let totals = count_lines request.items ([], [])
  raise_if (any (λ k. mem k (keys totals.1)) (keys totals.0)) quantity_and_weight
  ok (record { quantities = totals.0; weights = totals.1 })

-- `SELECT ... WHERE id IN (...) AND shop_id = ... FOR UPDATE`
abbrev pub fetch_items : Store → ℕ → Cart → List Item
fetch_items db shop_id c = select (λ i. mem i.id (item_ids c) && i.shop_id == shop_id) db.items

-- a weighted item, with the weight that is asked of it
abbrev pub check_weight : Item → Option ℕ → Outcome Fault (Unit {0})
check_weight item none = err weight_required
check_weight item (some w) = elim item.base.stock_weight [
  | none ↦ err weight_short
  | some left ↦ raise_if (ltb left w) weight_short
]

-- an item sold by quantity, with the weight and the quantity that are asked of it
abbrev pub check_quantity : Item → Option ℕ → ℕ → Outcome Fault (Unit {0})
check_quantity item (some w) n = err sold_by_quantity
check_quantity item none n = raise_if (ltb item.base.quantity n) quantity_short

-- the checks on one locked item
unfoldable pub check_item : Cart → Item → Outcome Fault (Unit {0})
check_item c item =
    let weight = get item.id c.weights in
    raise_if (not (is_in_stock item.status)) item_unavailable
    >> (if is_weight item.base.stock_mode
        then check_weight item weight
        else check_quantity item weight (or_default (get item.id c.quantities) 0))

unfoldable pub check_items : Cart → List Item → Outcome Fault (Unit {0})
unfolding check_item
check_items c [] = ok tt
check_items c (item ∷ items) = check_item c item >> check_items c items

unfoldable pub lock_items : Store → ℕ → Cart → Outcome Fault (List Item)
unfolding check_items
lock_items db shop_id c = do
  let items = fetch_items db shop_id c
  raise_if (not (length items == length (item_ids c))) items_missing
  check_items c items
  ok items
