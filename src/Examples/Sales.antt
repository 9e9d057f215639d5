-- ===== src/Examples/Sales.antt =====
-- A checkout of two coins and five grams of the chain, in three lines.
use aurum_pos.Prelude.{
  ℕ, ◌+◌, ◌≡◌, refl, true, false, Option, none, some, or_default, List, [], ◌∷◌, ◌++◌, ok, mem, map,
  sum, find, IsDistinct,
}
use aurum_pos.Text.{text, lower, strip, normalize, lstrip, rstrip}
use aurum_pos.Decimal.{Decimal, decimal, ◌*ᵈ◌, ◌+ᵈ◌, div_hundred, round_half_up, round_half_even}
use aurum_pos.Tables.Stock.{Item}
use aurum_pos.Tables.Sales.{Sale, SaleItem, Store, JobStatus}
use aurum_pos.Sales.Cart.{
  SaleItemInput, SaleCreate, Cart, item_ids, get, read_cart, count_lines, check_item, check_items,
  lock_items,
}
use aurum_pos.Sales.Cart.Amounts.{pieces, milligrams, total_of, read_cart-sums}
use aurum_pos.Sales.Invoice.{next_free}
use aurum_pos.Sales.Lines.{fetch_rates, effective_rate, price_input, sale_line, sale_lines}
use aurum_pos.Sales.Checkout.{confirm_total, create_sale, is_open_shop}
use aurum_pos.Sales.Checkout.Rows.{row}
use aurum_pos.Sales.Checkout.Taken.{asked, IsTaken, create_sale-stock}
use aurum_pos.Sales.Checkout.Totals.{
  given_prefix, upper_case, create_sale-total, create_sale-number,
}
use aurum_pos.Sales.Invoice.Fresh.{IsNextFree, next_free-least}
use aurum_pos.Tables.Access.{Shop}
use aurum_pos.Items.MetalRates.{calculate_effective_rate_per_gram}
use aurum_pos.Items.Tax.{get_tax_profile}
use aurum_pos.Items.Catalog.{normalize_category}
use aurum_pos.Items.Pricing.{
  lock_price_at_sale, calculate_suggested_price, fixed_part, metal_part, making_part,
  quantize_money,
}
use aurum_pos.Examples.{value, eq-ok_value, settings, chain, store}

abbrev line : ℕ → Option ℕ → Option ℕ → SaleItemInput
line item_id quantity weight = record {
  item_id = item_id;
  quantity = quantity;
  weight_grams = weight;
}

abbrev pub request : SaleCreate
request = record {
  items = line 100 (some 1) none ∷ line 101 none (some 5_000) ∷ line 100 (some 1) none ∷ [];
  customer_phone = text "9876543210";
  total_amount = some (decimal 72_100 2);
  send_invoice_via_whatsapp = false;
}

abbrev blank_sale : Sale
blank_sale = record {
  id = 0;
  shop_id = 0;
  invoice_no = record { prefix = []; year = 0; sequence = 0 };
  total_amount = 0;
  customer_phone = [];
  created_at = 0;
  s3_object_key = none;
  pdf_checksum = none;
  invoice_pdf_status = JobStatus.pending;
  invoice_pdf_attempts = 0;
  invoice_pdf_next_attempt_at = none;
  invoice_pdf_lease_until = none;
  invoice_pdf_last_error_code = none;
}

abbrev made : Sale × Store
made = value (create_sale settings 5 2026 300 400 10 request store) (blank_sale, store)

made-eq : create_sale settings 5 2026 300 400 10 request store ≡ ok (made.0, made.1)
unfolding create_sale read_cart count_lines lock_items check_items check_item fetch_rates sale_lines
    effective_rate sale_line price_input confirm_total lower strip normalize lstrip rstrip
    calculate_effective_rate_per_gram lock_price_at_sale calculate_suggested_price fixed_part
    metal_part making_part quantize_money round_half_up round_half_even ◌*ᵈ◌ ◌+ᵈ◌ div_hundred
    get_tax_profile normalize_category
made-eq =
    eq-ok_value (create_sale settings 5 2026 300 400 10 request store) (blank_sale, store) refl

distinct : IsDistinct (map (λ i. i.id) store.items)
distinct = (refl, (refl, tt))

create_sale-stock_example :
    (mem 101 (asked request) ≡ false → row 101 made.1.items ≡ some chain)
    × (mem 101 (asked request) ≡ true
        → (chain.shop_id ≡ 10)
          × (true ≡ true)
          × ((i' : Item) × (row 101 made.1.items ≡ some i') × IsTaken request chain i'))
create_sale-stock_example =
    create_sale-stock settings 5 2026 300 400 10 request store distinct made.0 made.1 made-eq 101
      chain refl

create_sale-total_example :
    (lines : List SaleItem) × (s : Shop) × (made.1.sales ≡ [] ++ (made.0 ∷ []))
    × (made.1.sale_items ≡ [] ++ lines)
    × (made.0.total_amount ≡ sum (map (λ l. l.price) lines))
    × (find (is_open_shop 10) store.shops ≡ some s)
    × (find (is_open_shop 10) made.1.shops
        ≡ some (record s {
          next_invoice_sequence = made.0.invoice_no.sequence + 1;
          total_sales_amount = s.total_sales_amount + made.0.total_amount;
        }))
    × (some (decimal 72_100 2) ≡ none → true ≡ false)
    × ((d : Decimal)
        → some (decimal 72_100 2) ≡ some d
        → round_half_even d.coef d.places ≡ made.0.total_amount)
create_sale-total_example =
    create_sale-total settings 5 2026 300 400 10 request store made.0 made.1 made-eq

create_sale-number_example :
    (s : Shop) × (find (is_open_shop 10) store.shops ≡ some s)
    × (made.0.invoice_no.year ≡ 2026)
    × (made.0.invoice_no.prefix ≡ upper_case (strip (given_prefix s.invoice_prefix)))
    × IsNextFree 10 made.0.invoice_no.prefix 2026 [] s.next_invoice_sequence
        made.0.invoice_no.sequence
create_sale-number_example =
    create_sale-number settings 5 2026 300 400 10 request store made.0 made.1 made-eq

next_free-least_example :
    (n : ℕ) × (next_free 10 (text "INV") 2026 (made.0 ∷ []) 2 4 ≡ some n)
    × IsNextFree 10 (text "INV") 2026 (made.0 ∷ []) 4 n
next_free-least_example = next_free-least 10 (text "INV") 2026 (made.0 ∷ []) 4

abbrev cart : Cart
cart = value (read_cart request) (record { quantities = []; weights = [] })

cart-eq : read_cart request ≡ ok cart
unfolding read_cart count_lines
cart-eq = eq-ok_value (read_cart request) (record { quantities = []; weights = [] }) refl

read_cart-sums_example :
    ((k : ℕ)
      → (or_default (get k cart.quantities) 0 ≡ total_of (pieces k) request.items)
        × (or_default (get k cart.weights) 0 ≡ total_of (milligrams k) request.items))
    × IsDistinct (item_ids cart)
read_cart-sums_example = read_cart-sums request cart cart-eq
