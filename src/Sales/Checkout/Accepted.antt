-- ===== src/Sales/Checkout/Accepted.antt =====
-- What stands behind an accepted checkout: the results of all its steps.
use aurum_pos.Prelude.{
  ℕ, ◌≡◌, some, List, map, find, sum, ok, Outcome-cases, inl, inr, or_raise, or_raise-eq-ok,
  ok-injective, sym, ap, ◌∙◌,
}
use aurum_pos.Tables.Access.{Settings, Shop}
use aurum_pos.Tables.Stock.{Item}
use aurum_pos.Tables.Sales.{SaleItem, Sale, Store, shop_missing}
use aurum_pos.Sales.Cart.{SaleCreate, Cart, item_ids, read_cart, lock_items}
use aurum_pos.Sales.Lines.{fetch_rates, sale_lines}
use aurum_pos.Sales.Checkout.{
  is_open_shop, confirm_total, next_invoice_no, new_sale, record_sale, create_sale,
}

module _ (settings : Settings) (now year sale_id job_id shop_id : ℕ) (request : SaleCreate)
    (db : Store) where
  pub record Accepted (sale : Sale) (after : Store) : Type 0 where
    pub cart : Cart
    pub items : List Item
    pub shop : Shop
    pub lines : List SaleItem
    pub cart_read : read_cart request ≡ ok cart
    pub items_locked : lock_items db shop_id cart ≡ ok items
    pub shop_found : find (is_open_shop shop_id) db.shops ≡ some shop
    pub lines_priced :
        sale_lines sale_id shop_id cart items (fetch_rates db shop_id items) (item_ids cart)
        ≡ ok lines
    pub total_confirmed :
        confirm_total settings request.total_amount (sum (map (λ l. l.price) lines)) ≡ ok tt
    pub sale_made :
        sale
        ≡ new_sale now sale_id shop_id
            (next_invoice_no year shop db)
            (sum (map (λ l. l.price) lines))
            request
    pub recorded : after ≡ record_sale now job_id sale lines db

  pub create_sale-inv :
      (sale : Sale) (after : Store)
      → create_sale settings now year sale_id job_id shop_id request db ≡ ok (sale, after)
      → Accepted sale after
  unfolding create_sale
  create_sale-inv sale after e = elim (Outcome-cases (read_cart request)) [
    | inr (f, e1) ↦ absurd (cc (rw e1 at e))
    | inl (c, e1) ↦
        let h1 = rw e1 at e in
        elim (Outcome-cases (lock_items db shop_id c)) [
          | inr (f, e2) ↦ absurd (cc (rw e2 at h1))
          | inl (found, e2) ↦
              let h2 = rw e2 at h1 in
              elim (Outcome-cases (or_raise (find (is_open_shop shop_id) db.shops) shop_missing)) [
                | inr (f, e3) ↦ absurd (cc (rw e3 at h2))
                | inl (s, e3) ↦
                    let h3 = rw e3 at h2 in
                    elim (Outcome-cases (
                      sale_lines sale_id shop_id c found (fetch_rates db shop_id found)
                        (item_ids c))) [
                          | inr (f, e4) ↦ absurd (cc (rw e4 at h3))
                          | inl (ls, e4) ↦
                              let h4 = rw e4 at h3 in
                              elim (Outcome-cases (
                                confirm_total settings request.total_amount
                                  (sum (map (λ l. l.price) ls)))) [
                                    | inr (f, e5) ↦ absurd (cc (rw e5 at h4))
                                    | inl (u, e5) ↦
                                        let h5 = ok-injective (rw e5 at h4) in
                                        let same = ap (λ (p : Sale × Store). p.0) h5 in
                                        let stored = ap (λ (p : Sale × Store). p.1) h5 in
                                        record {
                                          cart = c;
                                          items = found;
                                          shop = s;
                                          lines = ls;
                                          cart_read = e1;
                                          items_locked = e2;
                                          shop_found =
                                              or_raise-eq-ok (find (is_open_shop shop_id) db.shops)
                                                shop_missing e3;
                                          lines_priced = e4;
                                          total_confirmed = e5;
                                          sale_made = sym same;
                                          recorded =
                                              sym stored
                                              ∙ ap (λ t. record_sale now job_id t ls db) same;
                                        }
                                  ]
                        ]
              ]
        ]
  ]
