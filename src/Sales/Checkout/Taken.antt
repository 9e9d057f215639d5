-- ===== src/Sales/Checkout/Taken.antt =====
-- What an accepted checkout takes from the inventory, in terms of the request.
use aurum_pos.Prelude.{
  ℕ, ◌-◌, ◌≤◌, ◌≡◌, refl, sym, ◌∙◌, ap, subst, Bool, true, false, ◌&&◌, some, some-injective,
  or_default, List, map, mem, select, All-map, ==→eq, ◌==◌, All, IsDistinct, arith, find-holds,
  find-All, All-select, ok,
}
use aurum_pos.Items.Kinds.{is_weight, is_in_stock}
use aurum_pos.Items.Schema.{or_zero}
use aurum_pos.Tables.Access.{Settings}
use aurum_pos.Tables.Stock.{Item}
use aurum_pos.Tables.Sales.{SaleItem, Sale, Store}
use aurum_pos.Sales.Cart.{
  SaleCreate, Cart, get, item_ids, read_cart, fetch_items, check_item, lock_items,
}
use aurum_pos.Sales.Cart.Amounts.{
  pieces, milligrams, total_of, get-some, read_cart-apart, read_cart-pieces, get-missing,
  read_cart-mem, read_cart-sums,
}
use aurum_pos.Sales.Checkout.{
  take_stock, leave_weight, leave_quantity, create_sale, record_sale, insert_sale,
}
use aurum_pos.Sales.Checkout.Accepted.{create_sale-inv}
use aurum_pos.Sales.Checkout.Rows.{row, row-id, deplete_all-row_other, deplete_all-row_same}
use aurum_pos.Sales.Checkout.Stock.{
  IsLineOf, sale_lines-inv, lock_items-inv, check_item-inv, row-select,
}
use aurum_pos.Inventory.{log_change}
use aurum_pos.Sales.Lines.{fetch_rates}

-- the items that a request asks for
abbrev pub asked : SaleCreate → List ℕ
asked request = map (λ i. i.item_id) request.items

-- the item has what is asked of it, and keeps exactly the rest
abbrev pub IsTaken : SaleCreate → Item → Item → Type 0
IsTaken request i i' =
    let n = total_of (pieces i.id) request.items in
    let w = total_of (milligrams i.id) request.items in
    let left = or_zero i.base.stock_weight in
    (is_weight i.base.stock_mode ≡ true → (n ≡ 0) × (w ≤ left) × (i' ≡ leave_weight (left - w) i))
    × (is_weight i.base.stock_mode ≡ false
        → (w ≡ 0) × (n ≤ i.base.quantity) × (i' ≡ leave_quantity (i.base.quantity - n) i))

take_stock_weight :
    (l : SaleItem) (i : Item)
    → is_weight i.base.stock_mode ≡ true
    → take_stock l i ≡ leave_weight (or_zero i.base.stock_weight - or_zero l.sold_weight) i
unfolding take_stock
take_stock_weight l i m = rw m refl

take_stock_quantity :
    (l : SaleItem) (i : Item)
    → is_weight i.base.stock_mode ≡ false
    → take_stock l i ≡ leave_quantity (i.base.quantity - l.quantity) i
unfolding take_stock
take_stock_quantity l i m = rw m refl

-- a locked item, and the line that the cart gives it
take_stock-IsTaken :
    (request : SaleCreate) (c : Cart) (i : Item) (l : SaleItem)
    → read_cart request ≡ ok c
    → check_item c i ≡ ok tt
    → mem i.id (item_ids c) ≡ true
    → l.quantity ≡ or_default (get i.id c.quantities) 1
    → l.sold_weight ≡ get i.id c.weights
    → IsTaken request i (take_stock l i)
take_stock-IsTaken request c i l read checked m q w =
    let (sums, distinct) = read_cart-sums request c read in
    let (_, by_weight, by_quantity) = check_item-inv c i checked in
    let (n_sum, w_sum) = sums i.id in
    (
      λ mode.
          let (amount, given, enough) = by_weight mode in
          let alone =
            get-missing i.id c.quantities
              (read_cart-apart request c i.id read (get-some i.id amount c.weights given)) in
          let whole : amount ≡ total_of (milligrams i.id) request.items =
            sym (ap (λ o. or_default o 0) given) ∙ w_sum in
          (
            sym n_sum ∙ ap (λ o. or_default o 0) alone,
            subst (λ a. a ≤ or_zero i.base.stock_weight) whole enough,
            take_stock_weight l i mode
                ∙ ap (λ a. leave_weight (or_zero i.base.stock_weight - a) i) (ap or_zero w ∙ w_sum),
          ),
      λ mode.
          let (given, enough) = by_quantity mode in
          (
            sym w_sum ∙ ap (λ o. or_default o 0) given,
            subst (λ a. a ≤ i.base.quantity) n_sum enough,
            take_stock_quantity l i mode
                ∙ ap (λ a. leave_quantity (i.base.quantity - a) i)
                    (q ∙ read_cart-pieces c i.id m given ∙ n_sum),
          ),
    )

fetched :
    (db : Store) (shop_id : ℕ) (c : Cart)
    → All (λ i. i.shop_id ≡ shop_id) (fetch_items db shop_id c)
fetched db shop_id c =
    let p : Item → Bool = λ i. mem i.id (item_ids c) && i.shop_id == shop_id in
    All-map (λ i. p i ≡ true) (λ i. i.shop_id ≡ shop_id) (select p db.items) (λ i h. ground arith)
      (All-select p db.items)

module _ (settings : Settings) (now year sale_id job_id shop_id : ℕ) (request : SaleCreate)
    (db : Store) (distinct : IsDistinct (map (λ i. i.id) db.items)) where
  -- the row that a step of the checkout locked is the row of the table
  locked_row :
      (c : Cart) (items : List Item) (k : ℕ) (j : Item)
      → lock_items db shop_id c ≡ ok items
      → row k items ≡ some j
      → (row k db.items ≡ some j) × (check_item c j ≡ ok tt) × (j.shop_id ≡ shop_id)
  locked_row c items k j e found =
      let (same, checked) = lock_items-inv db shop_id c items e in
      let found' : row k (fetch_items db shop_id c) ≡ some j = sym (ap (row k) same) ∙ found in
      (
        row-select (λ i. mem i.id (item_ids c) && i.shop_id == shop_id) k db.items j distinct
            found',
        find-All (λ i. check_item c i ≡ ok tt) (λ i. i.id == k) items j checked found,
        find-All (λ i. i.shop_id ≡ shop_id) (λ i. i.id == k) (fetch_items db shop_id c) j
            (fetched db shop_id c) found',
      )

  -- An accepted checkout leaves every row that the request does not name. Every item that it names is
  -- an in-stock item of the shop, which has the whole amount asked by all its lines together, and
  -- keeps exactly the rest: an item sold by pieces loses the pieces, one sold by weight the weight.
  -- The primary key of the items is taken to be unique.
  pub create_sale-stock :
      (sale : Sale) (after : Store)
      → create_sale settings now year sale_id job_id shop_id request db ≡ ok (sale, after)
      → (k : ℕ) (i : Item) → row k db.items ≡ some i
      → (mem k (asked request) ≡ false → row k after.items ≡ some i)
        × (mem k (asked request) ≡ true
            → (i.shop_id ≡ shop_id)
              × (is_in_stock i.status ≡ true)
              × ((i' : Item) × (row k after.items ≡ some i') × IsTaken request i i'))
  unfolding insert_sale record_sale log_change
  create_sale-stock sale after e k i here =
      let a = create_sale-inv settings now year sale_id job_id shop_id request db sale after e in
      let (ids, all_lines) =
        sale_lines-inv sale_id shop_id a.cart a.items (fetch_rates db shop_id a.items)
          (item_ids a.cart) a.lines a.lines_priced in
      let once = subst IsDistinct (sym ids) (read_cart-sums request a.cart a.cart_read).1 in
      let named = ap (mem k) ids ∙ read_cart-mem request a.cart k a.cart_read in
      let recorded = ap (λ s. row k s.items) a.recorded in
      let opened = insert_sale now job_id sale a.lines db in
      (
        λ m. recorded ∙ deplete_all-row_other now k a.lines opened (named ∙ m) ∙ here,
        λ m.
            let (l, which, taken) =
              deplete_all-row_same now k i a.lines opened once (named ∙ m) here in
            let (q, w, row_of) =
              find-All (IsLineOf a.cart a.items) (λ l. l.item_id == k) a.lines l all_lines which in
            let (j, locked) = row_of in
            let at_k = ==→eq l.item_id k (find-holds (λ l. l.item_id == k) a.lines l which) in
            let (here', checked, of_shop) =
              locked_row a.cart a.items k j a.items_locked
                (subst (λ x. row x a.items ≡ some j) at_k locked) in
            let same : j ≡ i = some-injective j i (sym here' ∙ here) in
            let id = row-id k db.items i here in
            let at : l.item_id ≡ i.id = at_k ∙ sym id in
            let checked' = subst (λ x. check_item a.cart x ≡ ok tt) same checked in
            (
              subst (λ x. x.shop_id ≡ shop_id) same of_shop,
              (check_item-inv a.cart i checked').0,
              (
                take_stock l i,
                recorded ∙ taken,
                take_stock-IsTaken request a.cart i l a.cart_read checked'
                    (rw id (read_cart-mem request a.cart k a.cart_read ∙ m))
                    (subst (λ x. l.quantity ≡ or_default (get x a.cart.quantities) 1) at q)
                    (subst (λ x. l.sold_weight ≡ get x a.cart.weights) at w),
              ),
            ),
      )
