-- ===== src/Examples/Orders.antt =====
-- A sale whose invoice goes out by WhatsApp, and the same request sent again.
use aurum_pos.Prelude.{
  ℕ, ◌+◌, ◌≡◌, refl, true, false, none, some, [], ◌∷◌, ◌++◌, sum, ok, err, ◌>>=◌, ◌>>◌, ◌==◌,
  if◌then◌else◌,
}
use aurum_pos.Text.{
  Text, text, lower, strip, normalize, lstrip, rstrip, cons_stripped, is_space, lower_char,
}
use aurum_pos.Tables.Sales.{Sale, key_reused}
use aurum_pos.Sales.Cart.{SaleCreate}
use aurum_pos.Decimal.{
  decimal, zero_decimal, round_half_up, round_half_even, ◌*ᵈ◌, ◌+ᵈ◌, div_hundred,
}
use aurum_pos.Items.MetalRates.{calculate_effective_rate_per_gram}
use aurum_pos.Items.Tax.{get_tax_profile}
use aurum_pos.Items.Catalog.{normalize_category}
use aurum_pos.Items.Pricing.{
  lock_price_at_sale, calculate_suggested_price, fixed_part, metal_part, making_part,
  quantize_money,
}
use aurum_pos.Sales.Cart.{Cart, read_cart, count_lines, lock_items, check_items, check_item}
use aurum_pos.Sales.Lines.{fetch_rates, sale_lines, effective_rate, sale_line, price_input}
use aurum_pos.Sales.Checkout.{
  create_sale, confirm_total, next_invoice_no, record_sale, take_stock, deplete_all, deplete_row,
  deplete, insert_sale, charge_shop, new_invoice_job,
}
use aurum_pos.Sales.Requests.{Desk, use_key, sale_for_request, sale_for_key, first_sale}
use aurum_pos.Sales.Requests.Delivery.{desk, with_desk, queue_checkout}
use aurum_pos.Sales.Checkout.{new_sale}
use aurum_pos.Sales.Requests.{get_sale_by_id}
use aurum_pos.Sales.Requests.Delivery.{Till, ShopContext, NewIds, create_and_queue, create}
use aurum_pos.Sales.Requests.Delivery.Once.{create_and_queue-once}
use aurum_pos.Sales.Requests.Delivery.Retried.{create-once}
use aurum_pos.Subscriptions.Limits.{enforce_shop_write_access}
use aurum_pos.WhatsApp.{pending, Delivery}
use aurum_pos.WhatsApp.Phone.{
  is_separator, complete_number, check_number, normalize_whatsapp_phone, recipient_hmac,
}
use aurum_pos.Subscriptions.{
  shop_access_mode, resolve_entitlement, is_current, first_row, comes_before,
}
use aurum_pos.Inventory.{save_item, log_change, record_item_history}
use aurum_pos.WhatsApp.Requests.{
  new_delivery, requested_delivery, require_delivery_available, is_enabled, is_pro_organization,
  template_status, queue_for_key, check_latest, add_delivery, queue_invoice_delivery,
}
use aurum_pos.Examples.{settings, store, shop, coin, chain}
use aurum_pos.Examples.Sales.{request}
use aurum_pos.Examples.Messages.{config, outbox}

abbrev sent_request : SaleCreate
sent_request = record request { send_invoice_via_whatsapp = true }

abbrev till : Till
till = record { outbox = record outbox { db = store }; keys = [] }

abbrev context : ShopContext
context = record { organization_id = 1; shop_id = 10; user_id = 7 }

abbrev ids : ℕ → NewIds
ids n = record { sale_id = 300 + n; job_id = 400 + n; delivery_id = 700 + n }

abbrev delivery_key : Text → Text
delivery_key key = text "checkout:" ++ key

abbrev sold : Sale
sold = new_sale 6 300 10 (next_invoice_no 2026 shop store) 72_100 sent_request

abbrev counted : Cart
counted = record { quantities = (100, 2) ∷ []; weights = (101, 5_000) ∷ [] }

abbrev sold_desk : Desk
sold_desk =
    use_key 10 (text "key-0001") 77 sold.id
      (record_sale 6 400 sold
        (sale_line 300 10 counted coin zero_decimal
          ∷ sale_line 300 10 counted chain (decimal 9_000 2)
          ∷ [])
        store)
      (desk till)

sold-eq :
    sale_for_request settings 6 2026 300 400 10 (text "key-0001") 77 sent_request (desk till)
    ≡ ok (sold, sold_desk)
unfolding sale_for_request sale_for_key first_sale create_sale read_cart count_lines lock_items
    check_items check_item fetch_rates sale_lines effective_rate sale_line price_input confirm_total
    lower strip normalize lstrip rstrip calculate_effective_rate_per_gram lock_price_at_sale
    calculate_suggested_price fixed_part metal_part making_part quantize_money round_half_up
    round_half_even ◌*ᵈ◌ ◌+ᵈ◌ div_hundred get_tax_profile normalize_category
sold-eq = refl

abbrev invoice : ℕ → ℕ → Delivery
invoice now id =
    new_delivery now id sold 10 7 (text "+919876543210") (9 + sum (text "+919876543210"))
      (delivery_key (text "key-0001"))

abbrev invoiced : Till
invoiced = record {
  outbox = add_delivery 6 (invoice 6 700) (with_desk sold_desk till).outbox;
  keys = sold_desk.keys;
}

asked-eq :
    requested_delivery config 6 700 sold 1 10 7 sold.customer_phone
      (delivery_key (text "key-0001"))
      true
      (with_desk sold_desk till).outbox
    ≡ ok (invoice 6 700)
unfolding record_sale take_stock sale_line deplete_all deplete_row deplete insert_sale charge_shop
    new_sale new_invoice_job save_item log_change record_item_history requested_delivery
    require_delivery_available is_enabled is_pro_organization template_status add_delivery
    normalize_whatsapp_phone complete_number check_number recipient_hmac is_separator is_space strip
    lstrip rstrip cons_stripped normalize lower lower_char resolve_entitlement is_current first_row
    comes_before
asked-eq = refl

queued-eq :
    queue_invoice_delivery config 6 700 sold 1 10 7 sold.customer_phone
      (delivery_key (text "key-0001"))
      true
      false
      (with_desk sold_desk till).outbox
    ≡ ok (invoice 6 700, invoiced.outbox)
unfolding queue_invoice_delivery queue_for_key check_latest
queued-eq = rw asked-eq refl

ordered-eq :
    create_and_queue config 6 2026
      (ids 0)
      context
      (text "key-0001")
      delivery_key
      77
      sent_request
      till
    ≡ ok (sold, some pending, invoiced)
unfolding create_and_queue queue_checkout
ordered-eq = rw (sold-eq, queued-eq) refl

available-eq :
    requested_delivery config 8 701 sold 1 10 7 sold.customer_phone
      (delivery_key (text "key-0001"))
      true
      invoiced.outbox
    ≡ ok (invoice 8 701)
unfolding record_sale take_stock sale_line deplete_all deplete_row deplete insert_sale charge_shop
    new_sale new_invoice_job save_item log_change record_item_history requested_delivery
    require_delivery_available is_enabled is_pro_organization template_status add_delivery
    normalize_whatsapp_phone complete_number check_number recipient_hmac is_separator is_space strip
    lstrip rstrip cons_stripped normalize lower lower_char resolve_entitlement is_current first_row
    comes_before
available-eq = refl

none_sold : get_sale_by_id store 300 10 ≡ none
unfolding get_sale_by_id
none_sold = refl

create_and_queue-once_example :
    create_and_queue config 8 2026
      (ids 1)
      context
      (text "key-0001")
      delivery_key
      77
      sent_request
      invoiced
    ≡ ok (sold, some pending, invoiced)
create_and_queue-once_example =
    create_and_queue-once config 6 2026 (ids 0) context (text "key-0001") delivery_key 77
      sent_request till sold (some pending) invoiced 8 2026 (ids 1) (invoice 8 701) refl none_sold
      refl ordered-eq available-eq

writable-eq : enforce_shop_write_access settings 6 store 10 ≡ ok tt
unfolding enforce_shop_write_access resolve_entitlement is_current first_row comes_before
    shop_access_mode
writable-eq = refl

created-eq :
    create config 6 2026 (ids 0) context (text "key-0001") delivery_key 77 sent_request till
    ≡ ok (sold, some pending, invoiced)
unfolding create
created-eq = rw (writable-eq, ordered-eq) refl

create-once_example :
    create config 9 2027 (ids 1) context (text "key-0001") delivery_key 78 sent_request invoiced ≡ (
      enforce_shop_write_access settings 9 invoiced.outbox.db 10
      >> (if 77 == 78
          then (queue_checkout config 9
                (ids 1)
                context
                sold
                (delivery_key (text "key-0001"))
                true
                invoiced
              >>= λ sent. ok (sold, sent.0, sent.1))
          else err key_reused))
create-once_example =
    create-once config 6 2026 (ids 0) context (text "key-0001") delivery_key 77 sent_request till
      sold (some pending) invoiced config 9 2027 (ids 1) context 78 sent_request refl none_sold
      created-eq refl
