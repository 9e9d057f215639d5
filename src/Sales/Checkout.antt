-- ===== src/Sales/Checkout.antt =====
-- Checkout: `_execute_create_sale` and `create_sale` of app/modules/sales/service.py, in the request's
-- transaction: a raise leaves the store as it was. The identifiers of the new rows, the clock and its
-- year are arguments.
pub mod Rows
pub mod Totals
pub mod Taken
pub mod Accepted
pub mod Stock
use aurum_pos.Prelude.{
  ℕ, suc, ◌+◌, ◌-◌, Bool, not, ◌&&◌, Option, none, some, or_default, is_none, List, [], ◌∷◌, ◌++◌,
  map, ◌==◌, leb, find, update, length, sum, if◌then◌else◌, Outcome, ok, err, ◌>>=◌, raise_if,
  or_raise,
}
use aurum_pos.Text.{Text}
use aurum_pos.Decimal.{Decimal, round_half_even}
use aurum_pos.Items.Kinds.{ItemStatus, is_weight}
use aurum_pos.Items.Schema.{ItemBase, or_zero}
use aurum_pos.Tables.Access.{Settings, Shop}
use aurum_pos.Tables.Stock.{Item, ItemEvent, Change}
use aurum_pos.Tables.Sales.{
  SaleItem, InvoiceNo, Sale, InvoiceJob, JobStatus, Store, Fault, shop_missing, total_required,
  pricing_changed,
}
use aurum_pos.Inventory.{record_item_history, log_change, save_item}
use aurum_pos.Sales.Cart.{SaleCreate, Cart, item_ids, read_cart, lock_items}
use aurum_pos.Sales.Invoice.{invoice_prefix, next_free}
use aurum_pos.Sales.Lines.{fetch_rates, sale_lines}

-- `status_of left`: sold when nothing is left
abbrev pub status_of : ℕ → ItemStatus
status_of left = if left == 0 then ItemStatus.sold else ItemStatus.in_stock

-- A weighted item counts as one piece until its weight is used up.
abbrev pub leave_weight : ℕ → Item → Item
leave_weight left item = record item {
  base = record (item.base) { stock_weight = some left; quantity = if left == 0 then 0 else 1 };
  status = status_of left;
}

abbrev pub leave_quantity : ℕ → Item → Item
leave_quantity left item = record item {
  base = record (item.base) { quantity = left };
  status = status_of left;
}

-- the item after one line of the sale; what is taken beyond the stock leaves nothing
unfoldable pub take_stock : SaleItem → Item → Item
take_stock line item =
    if is_weight item.base.stock_mode
    then leave_weight (or_zero item.base.stock_weight - or_zero line.sold_weight) item
    else leave_quantity (item.base.quantity - line.quantity) item

unfoldable pub deplete : ℕ → SaleItem → Item → Store → Store
deplete now line item db =
    let item' = take_stock line item in
    log_change (Change.item_sold item.id)
      (record_item_history now ItemEvent.sale item' (save_item item' db))

-- `item_by_id[si.item_id]` is the row itself
unfoldable pub deplete_row : ℕ → SaleItem → Option Item → Store → Store
deplete_row now line none db = db
deplete_row now line (some item) db = deplete now line item db

unfoldable pub deplete_all : ℕ → List SaleItem → Store → Store
deplete_all now [] db = db
deplete_all now (line ∷ lines) db =
    deplete_all now lines (deplete_row now line (find (λ i. i.id == line.item_id) db.items) db)

-- the confirmed total, if the client sent one, is the total
unfoldable pub confirm_total : Settings → Option Decimal → ℕ → Outcome Fault (Unit {0})
confirm_total settings none total = raise_if settings.is_hosted total_required
confirm_total settings (some confirmed) total =
    raise_if (not (round_half_even confirmed.coef confirmed.places == total)) pricing_changed

-- The search needs at most one round more than there are sales.
unfoldable pub next_invoice_no : ℕ → Shop → Store → InvoiceNo
next_invoice_no year shop db =
    let prefix = invoice_prefix shop in
    let start = shop.next_invoice_sequence in
    let found = next_free shop.id prefix year db.sales (suc (length db.sales)) start in
    record { prefix = prefix; year = year; sequence = or_default found start }

unfoldable pub new_sale : ℕ → ℕ → ℕ → InvoiceNo → ℕ → SaleCreate → Sale
new_sale now sale_id shop_id invoice_no total request = record {
  id = sale_id;
  shop_id = shop_id;
  invoice_no = invoice_no;
  total_amount = total;
  customer_phone = request.customer_phone;
  created_at = now;
  s3_object_key = none;
  pdf_checksum = none;
  invoice_pdf_status = JobStatus.pending;
  invoice_pdf_attempts = 0;
  invoice_pdf_next_attempt_at = none;
  invoice_pdf_lease_until = none;
  invoice_pdf_last_error_code = none;
}

unfoldable pub new_invoice_job : ℕ → ℕ → ℕ → ℕ → InvoiceJob
new_invoice_job now job_id shop_id sale_id = record {
  id = job_id;
  shop_id = shop_id;
  sale_id = sale_id;
  status = JobStatus.pending;
  attempts = 0;
  next_attempt_at = none;
  lease_until = none;
  lease_token = none;
  last_error_code = none;
  created_at = now;
}

-- the sequence that the next sale starts from, and the shop's turnover
unfoldable pub charge_shop : Sale → Shop → Shop
charge_shop sale shop = record shop {
  next_invoice_sequence = sale.invoice_no.sequence + 1;
  total_sales_amount = shop.total_sales_amount + sale.total_amount;
}

unfoldable pub insert_sale : ℕ → ℕ → Sale → List SaleItem → Store → Store
insert_sale now job_id sale lines db = record db {
  shops = update (λ s. s.id == sale.shop_id) (charge_shop sale) db.shops;
  sales = db.sales ++ (sale ∷ []);
  sale_items = db.sale_items ++ lines;
  invoice_jobs = db.invoice_jobs ++ (new_invoice_job now job_id sale.shop_id sale.id ∷ []);
}

-- all the writes of a checkout that was accepted
unfoldable pub record_sale : ℕ → ℕ → Sale → List SaleItem → Store → Store
record_sale now job_id sale lines db =
    log_change (Change.sale_created sale.id)
      (deplete_all now lines (insert_sale now job_id sale lines db))

abbrev pub is_open_shop : ℕ → Shop → Bool
is_open_shop shop_id s = s.id == shop_id && s.is_active

unfoldable pub create_sale :
    Settings → ℕ → ℕ → ℕ → ℕ → ℕ → SaleCreate → Store → Outcome Fault (Sale × Store)
create_sale settings now year sale_id job_id shop_id request db = do
  c ← read_cart request
  items ← lock_items db shop_id c
  shop ← or_raise (find (is_open_shop shop_id) db.shops) shop_missing
  lines ← sale_lines sale_id shop_id c items (fetch_rates db shop_id items) (item_ids c)
  let total = sum (map (λ l. l.price) lines)
  _ ← confirm_total settings request.total_amount total
  let sale = new_sale now sale_id shop_id (next_invoice_no year shop db) total request
  ok (sale, record_sale now job_id sale lines db)
