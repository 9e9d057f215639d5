-- ===== src/Sales/Checkout/Stock.antt =====
-- What an accepted checkout takes from the inventory.
use aurum_pos.Prelude.{
  ℕ, ◌≤◌, ◌≡◌, refl, sym, Bool, true, false, not, Option, none, some, or_default, List, [], ◌∷◌,
  map, mem, select, if◌then◌else◌, All, IsDistinct, arith, ok, ◌>>=◌, raise_if, or_raise, >>=-eq-ok,
  >>-eq-ok, raise_if-eq-ok, or_raise-eq-ok, ok-injective,
}
use aurum_pos.Items.Kinds.{is_weight, is_in_stock}
use aurum_pos.Items.Schema.{or_zero}
use aurum_pos.Tables.Stock.{Item, MetalRate}
use aurum_pos.Tables.Sales.{SaleItem, Store, item_unavailable, key_error}
use aurum_pos.Sales.Cart.{
  Cart, get, fetch_items, check_weight, check_quantity, check_item, check_items, lock_items,
}
use aurum_pos.Sales.Lines.{effective_rate, sale_line, sale_lines}
use aurum_pos.Sales.Checkout.Rows.{row, row-id, line_ids}

-- a line has the amounts of the cart, and its item is among the locked ones
abbrev pub IsLineOf : Cart → List Item → SaleItem → Type 0
IsLineOf c items l =
    (l.quantity ≡ or_default (get l.item_id c.quantities) 1)
    × (l.sold_weight ≡ get l.item_id c.weights)
    × ((j : Item) × (row l.item_id items ≡ some j))

pub sale_lines-inv :
    (sale_id shop_id : ℕ) (c : Cart) (items : List Item) (rates : List MetalRate) (ids : List ℕ)
    (lines : List SaleItem)
    → sale_lines sale_id shop_id c items rates ids ≡ ok lines
    → (line_ids lines ≡ ids) × All (IsLineOf c items) lines
unfolding sale_lines sale_line
sale_lines-inv sale_id shop_id c items rates [] lines e = (ground arith, ground arith)
sale_lines-inv sale_id shop_id c items rates (k ∷ ids) lines e =
    let (item, found, e1) =
      >>=-eq-ok (or_raise (row k items) key_error)
        (λ item. effective_rate rates item >>= λ rate.
          sale_lines sale_id shop_id c items rates ids >>= λ rest.
          ok (sale_line sale_id shop_id c item rate ∷ rest))
        e in
    let (rate, priced, e2) =
      >>=-eq-ok (effective_rate rates item)
        (λ rate. sale_lines sale_id shop_id c items rates ids >>= λ rest.
          ok (sale_line sale_id shop_id c item rate ∷ rest))
        e1 in
    let (rest, others, e3) =
      >>=-eq-ok (sale_lines sale_id shop_id c items rates ids)
        (λ rest. ok (sale_line sale_id shop_id c item rate ∷ rest)) e2 in
    let id = row-id k items item (or_raise-eq-ok (row k items) key_error found) in
    let (same, amounts) = sale_lines-inv sale_id shop_id c items rates ids rest others in
    let built = ok-injective e3 in
    (
      rw (sym built) (ground (arith, id, same)),
      rw (sym built) (
        (rw id refl, rw id refl, (item, rw id (or_raise-eq-ok (row k items) key_error found))),
        amounts,
      ),
    )

check_items-All :
    (c : Cart) (items : List Item)
    → check_items c items ≡ ok tt
    → All (λ i. check_item c i ≡ ok tt) items
unfolding check_items
check_items-All c [] e = tt
check_items-All c (i ∷ items) e =
    let (h, rest) = >>-eq-ok (check_item c i) (check_items c items) e in
    (h, check_items-All c items rest)

pub lock_items-inv :
    (db : Store) (shop_id : ℕ) (c : Cart) (items : List Item)
    → lock_items db shop_id c ≡ ok items
    → (items ≡ fetch_items db shop_id c) × All (λ i. check_item c i ≡ ok tt) items
unfolding lock_items
lock_items-inv db shop_id c items e = ground (arith, check_items-All c (fetch_items db shop_id c))

check_weight-inv :
    (i : Item) (asked : Option ℕ)
    → check_weight i asked ≡ ok tt
    → (w : ℕ) × (asked ≡ some w) × (w ≤ or_zero i.base.stock_weight)
check_weight-inv i none e = cc
check_weight-inv i (some w) e = (w, refl, ground arith)

check_quantity-inv :
    (i : Item) (asked : Option ℕ) (n : ℕ)
    → check_quantity i asked n ≡ ok tt
    → (asked ≡ none) × (n ≤ i.base.quantity)
check_quantity-inv i none n e = (refl, ground arith)
check_quantity-inv i (some w) n e = cc

pub check_item-inv :
    (c : Cart) (i : Item)
    → check_item c i ≡ ok tt
    → (is_in_stock i.status ≡ true)
      × (is_weight i.base.stock_mode ≡ true
          → (w : ℕ) × (get i.id c.weights ≡ some w) × (w ≤ or_zero i.base.stock_weight))
      × (is_weight i.base.stock_mode ≡ false
          → (get i.id c.weights ≡ none) × (or_default (get i.id c.quantities) 0 ≤ i.base.quantity))
unfolding check_item
check_item-inv c i e =
    let (stocked, rest) =
      >>-eq-ok (raise_if (not (is_in_stock i.status)) item_unavailable)
        (if is_weight i.base.stock_mode
          then check_weight i (get i.id c.weights)
          else check_quantity i (get i.id c.weights) (or_default (get i.id c.quantities) 0))
        e in
    (
      ground (arith, raise_if-eq-ok (not (is_in_stock i.status)) item_unavailable stocked),
      (λ m. check_weight-inv i (get i.id c.weights) (rw m at rest)),
      (λ m.
          check_quantity-inv i (get i.id c.weights) (or_default (get i.id c.quantities) 0)
            (rw m at rest)),
    )

row-select-mem :
    (p : Item → Bool) (k : ℕ) (items : List Item) (j : Item)
    → row k (select p items) ≡ some j
    → mem k (map (λ i. i.id) items) ≡ true
row-select-mem p k [] j e = ground arith
row-select-mem p k (i ∷ items) j e = ground (arith, row-select-mem p k items j)

pub row-select :
    (p : Item → Bool) (k : ℕ) (items : List Item) (j : Item)
    → IsDistinct (map (λ i. i.id) items)
    → row k (select p items) ≡ some j
    → row k items ≡ some j
row-select p k [] j d e = ground arith
row-select p k (i ∷ items) j d e =
    ground (arith, row-select-mem p k items j, row-select p k items j d.1)
