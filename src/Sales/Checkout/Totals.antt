-- ===== src/Sales/Checkout/Totals.antt =====
-- The money and the number of an accepted checkout, and the checkouts that the total refuses.
use aurum_pos.Prelude.{
  ℕ, ◌+◌, ◌-◌, ◌&&◌, leb, if◌then◌else◌, ◌≡◌, refl, sym, ap, ◌∙◌, subst, true, false, not, Option,
  none, some, some-injective, or_default, List, [], ◌∷◌, ◌++◌, map, find, sum, update, ◌==◌, arith,
  ok, find-holds, raise_if-eq-ok,
}
use aurum_pos.Decimal.{Decimal, round_half_even}
use aurum_pos.Tables.Access.{Settings, Shop}
use aurum_pos.Tables.Stock.{Item}
use aurum_pos.Tables.Sales.{SaleItem, Sale, InvoiceJob, Store, pricing_changed, total_required}
use aurum_pos.Sales.Cart.{SaleCreate}
use aurum_pos.Text.{Text, text, strip, ◌=ᵗ◌}
use aurum_pos.Sales.Invoice.{upper_char, invoice_prefix}
use aurum_pos.Sales.Invoice.Fresh.{IsNextFree, next_free-least}
use aurum_pos.Sales.Checkout.{
  is_open_shop, confirm_total, next_invoice_no, new_sale, insert_sale, record_sale, create_sale,
  deplete, deplete_row, deplete_all, charge_shop,
}
use aurum_pos.Sales.Checkout.Accepted.{create_sale-inv}
use aurum_pos.Inventory.{log_change, record_item_history, save_item}

-- the tables that the depletion of the stock does not write
abbrev books : Store → List Shop × List Sale × List SaleItem × List InvoiceJob
books db = (db.shops, db.sales, db.sale_items, db.invoice_jobs)

deplete_row-books :
    (now : ℕ) (line : SaleItem) (o : Option Item) (db : Store)
    → books (deplete_row now line o db) ≡ books db
unfolding deplete_row deplete save_item record_item_history log_change
deplete_row-books now line none db = refl
deplete_row-books now line (some item) db = refl

deplete_all-books :
    (now : ℕ) (lines : List SaleItem) (db : Store) → books (deplete_all now lines db) ≡ books db
unfolding deplete_all
deplete_all-books now [] db = refl
deplete_all-books now (line ∷ lines) db =
    let o = find (λ i. i.id == line.item_id) db.items in
    deplete_all-books now lines (deplete_row now line o db) ∙ deplete_row-books now line o db

record_sale-books :
    (now job_id : ℕ) (sale : Sale) (lines : List SaleItem) (db : Store)
    → books (record_sale now job_id sale lines db) ≡ books (insert_sale now job_id sale lines db)
unfolding record_sale log_change
record_sale-books now job_id sale lines db =
    deplete_all-books now lines (insert_sale now job_id sale lines db)

confirm_total-inv :
    (settings : Settings) (confirmed : Option Decimal) (total : ℕ)
    → confirm_total settings confirmed total ≡ ok tt
    → (confirmed ≡ none → settings.is_hosted ≡ false)
      × ((d : Decimal) → confirmed ≡ some d → round_half_even d.coef d.places ≡ total)
unfolding confirm_total
confirm_total-inv settings none total e =
    (λ h. raise_if-eq-ok settings.is_hosted total_required e, λ d h. cc)
confirm_total-inv settings (some d') total e =
    let exact =
      raise_if-eq-ok (not (round_half_even d'.coef d'.places == total)) pricing_changed e in
    let equal : round_half_even d'.coef d'.places ≡ total = ground (arith, exact) in
    (
      λ h. cc,
      λ d h. subst (λ x. round_half_even x.coef x.places ≡ total) (some-injective d' d h) equal,
    )

-- the shop's row after the sale
find-charge :
    (shop_id : ℕ) (sale : Sale) (shops : List Shop) (shop : Shop)
    → sale.shop_id ≡ shop_id
    → find (is_open_shop shop_id) shops ≡ some shop
    → find (is_open_shop shop_id) (update (λ s. s.id == sale.shop_id) (charge_shop sale) shops)
      ≡ some (charge_shop sale shop)
unfolding charge_shop
find-charge shop_id sale [] shop own e = ground arith
find-charge shop_id sale (s ∷ shops) shop own e =
    ground (arith, find-charge shop_id sale shops shop own)

open-id : (shop_id : ℕ) (shop : Shop) → is_open_shop shop_id shop ≡ true → shop.id ≡ shop_id
open-id shop_id shop e = ground arith

-- the prefix that a shop's row gives; an empty one counts as none
abbrev pub given_prefix : Option Text → Text
given_prefix none = text "INV"
given_prefix (some []) = text "INV"
given_prefix (some (c ∷ prefix)) = c ∷ prefix

abbrev pub upper_case : Text → Text
upper_case [] = []
upper_case (c ∷ t) = (if leb b'a' c && leb c b'z' then c - 32 else c) ∷ upper_case t

upper_case-eq : (t : Text) → map upper_char t ≡ upper_case t
upper_case-eq [] = refl
upper_case-eq (c ∷ t) = ap (λ u. upper_char c ∷ u) (upper_case-eq t)

given_prefix-eq :
    (o : Option Text)
    → (let given = or_default o [] in if given =ᵗ [] then text "INV" else given) ≡ given_prefix o
given_prefix-eq none = refl
given_prefix-eq (some []) = refl
given_prefix-eq (some (c ∷ prefix)) = refl

prefix-eq :
    (shop : Shop) → invoice_prefix shop ≡ upper_case (strip (given_prefix shop.invoice_prefix))
unfolding invoice_prefix
prefix-eq shop =
    upper_case-eq _ ∙ ap (λ t. upper_case (strip t)) (given_prefix-eq shop.invoice_prefix)

next_invoice_no-IsNextFree :
    (year : ℕ) (shop : Shop) (db : Store)
    → IsNextFree shop.id
        (next_invoice_no year shop db).prefix
        year
        db.sales
        shop.next_invoice_sequence
        (next_invoice_no year shop db).sequence
unfolding next_invoice_no
next_invoice_no-IsNextFree year shop db =
    let start = shop.next_invoice_sequence in
    let (n, e, free) = next_free-least shop.id (invoice_prefix shop) year db.sales start in
    subst (IsNextFree shop.id (invoice_prefix shop) year db.sales start)
      (sym (ap (λ o. or_default o start) e)) free

module _ (settings : Settings) (now year sale_id job_id shop_id : ℕ) (request : SaleCreate)
    (db : Store) where
  -- An accepted checkout adds one sale and its lines; the sale's total is the sum of its lines'
  -- prices, and the shop's turnover grows by it. A total that the client confirmed is, rounded
  -- half-even to two places, that sum; without one the service is not a hosted one.
  pub create_sale-total :
      (sale : Sale) (after : Store)
      → create_sale settings now year sale_id job_id shop_id request db ≡ ok (sale, after)
      → (lines : List SaleItem) × (shop : Shop) × (after.sales ≡ db.sales ++ (sale ∷ []))
        × (after.sale_items ≡ db.sale_items ++ lines)
        × (sale.total_amount ≡ sum (map (λ l. l.price) lines))
        × (find (is_open_shop shop_id) db.shops ≡ some shop)
        × (find (is_open_shop shop_id) after.shops
            ≡ some (record shop {
              next_invoice_sequence = sale.invoice_no.sequence + 1;
              total_sales_amount = shop.total_sales_amount + sale.total_amount;
            }))
        × (request.total_amount ≡ none → settings.is_hosted ≡ false)
        × ((d : Decimal)
            → request.total_amount ≡ some d
            → round_half_even d.coef d.places ≡ sale.total_amount)
  unfolding insert_sale charge_shop new_sale
  create_sale-total sale after e =
      let a = create_sale-inv settings now year sale_id job_id shop_id request db sale after e in
      let kept = ap books a.recorded ∙ record_sale-books now job_id sale a.lines db in
      let total : sale.total_amount ≡ sum (map (λ l. l.price) a.lines) =
        ap (λ s. s.total_amount) a.sale_made in
      let (required, exact) =
        confirm_total-inv settings request.total_amount (sum (map (λ l. l.price) a.lines))
          a.total_confirmed in
      (
        a.lines,
        a.shop,
        ap (λ b. b.1) kept,
        ap (λ b. b.2) kept,
        total,
        a.shop_found,
        ap (λ b. find (is_open_shop shop_id) b.0) kept
            ∙ find-charge shop_id sale db.shops a.shop (ap (λ s. s.shop_id) a.sale_made)
                a.shop_found,
        required,
        λ d h. exact d h ∙ sym total,
      )

  -- The number of an accepted checkout's sale has the shop's prefix, stripped and in upper case, or
  -- "INV" if the shop has none or an empty one; it is new among the shop's sales, and is the first one
  -- from the shop's next sequence on, for this prefix and the year, that no sale has.
  pub create_sale-number :
      (sale : Sale) (after : Store)
      → create_sale settings now year sale_id job_id shop_id request db ≡ ok (sale, after)
      → (shop : Shop) × (find (is_open_shop shop_id) db.shops ≡ some shop)
        × (sale.invoice_no.year ≡ year)
        × (sale.invoice_no.prefix ≡ upper_case (strip (given_prefix shop.invoice_prefix)))
        × IsNextFree shop_id sale.invoice_no.prefix year db.sales shop.next_invoice_sequence
            sale.invoice_no.sequence
  unfolding new_sale next_invoice_no invoice_prefix
  create_sale-number sale after e =
      let a = create_sale-inv settings now year sale_id job_id shop_id request db sale after e in
      let number : sale.invoice_no ≡ next_invoice_no year a.shop db =
        ap (λ s. s.invoice_no) a.sale_made in
      let of_shop : a.shop.id ≡ shop_id =
        open-id shop_id a.shop (find-holds (is_open_shop shop_id) db.shops a.shop a.shop_found) in
      (
        a.shop,
        a.shop_found,
        ap (λ n. n.year) number,
        ap (λ n. n.prefix) number ∙ prefix-eq a.shop,
        subst
            (λ k.
              IsNextFree k sale.invoice_no.prefix year db.sales a.shop.next_invoice_sequence
                sale.invoice_no.sequence)
            of_shop
            (subst
              (λ n.
                IsNextFree a.shop.id n.prefix year db.sales a.shop.next_invoice_sequence n.sequence)
              (sym number) (next_invoice_no-IsNextFree year a.shop db)),
      )
