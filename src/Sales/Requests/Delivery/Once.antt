-- ===== src/Sales/Requests/Delivery/Once.antt =====
-- A repeated sale request sells once and sends once.
use aurum_pos.Prelude.{
  ℕ, ◌≡◌, refl, sym, ap, ◌∙◌, subst, true, false, Option, none, some, find, ==_refl, ok, >>=-eq-ok,
  ok-injective,
}
use aurum_pos.Text.{Text}
use aurum_pos.Tables.Sales.{Sale}
use aurum_pos.Sales.Cart.{SaleCreate}
use aurum_pos.Sales.Requests.{Desk, is_key, get_sale_by_id, sale_for_request}
use aurum_pos.Sales.Requests.Replay.{sale_for_request-once}
use aurum_pos.Sales.Requests.Delivery.{
  Till, ShopContext, NewIds, desk, with_desk, queue_checkout, create_and_queue,
}
use aurum_pos.WhatsApp.{DeliveryStatus, Delivery, Config}
use aurum_pos.WhatsApp.Requests.{requested_delivery, queue_invoice_delivery}
use aurum_pos.WhatsApp.Requests.Once.{queue_invoice_delivery-once}
use aurum_pos.WhatsApp.Requests.Answer.{requested_delivery-recipient, queue_invoice_delivery-answer}

same_rows : (d e : Desk) → d.db ≡ e.db → d.keys ≡ e.keys → d ≡ e
same_rows d e h k = ap (λ x. record d { db = x }) h ∙ ap (λ x. record e { keys = x }) k

-- the two parts of a request that sells and sends
create_and_queue-inv :
    (config : Config) (now year : ℕ) (ids : NewIds) (context : ShopContext) (key : Text)
    (delivery_key : Text → Text) (request_hash : ℕ) (request : SaleCreate) (till : Till)
    (sale : Sale) (status : Option DeliveryStatus) (after : Till)
    → request.send_invoice_via_whatsapp ≡ true
    → create_and_queue config now year ids context key delivery_key request_hash request till
      ≡ ok (sale, status, after)
    → (d : Desk) × (delivery : Delivery) × (sale_for_request config.base now year ids.sale_id
          ids.job_id context.shop_id key request_hash request
          (desk till)
        ≡ ok (sale, d))
      × (queue_invoice_delivery config now ids.delivery_id sale context.organization_id
            context.shop_id context.user_id sale.customer_phone
            (delivery_key key)
            true
            false
            (with_desk d till).outbox
          ≡ ok (delivery, after.outbox))
      × (some delivery.status ≡ status)
      × (d.keys ≡ after.keys)
unfolding create_and_queue queue_checkout
create_and_queue-inv config now year ids context key delivery_key request_hash request till sale
      status after sends e =
    let (made, created, e1) =
      >>=-eq-ok
        (sale_for_request config.base now year ids.sale_id ids.job_id context.shop_id key
          request_hash request (desk till))
        _ e in
    let (sent, queued, e2) =
      >>=-eq-ok
        (queue_checkout config now ids context made.0 (delivery_key key)
          request.send_invoice_via_whatsapp (with_desk made.1 till))
        _ e1 in
    let (answer, asked, e3) =
      >>=-eq-ok
        (queue_invoice_delivery config now ids.delivery_id made.0 context.organization_id
          context.shop_id context.user_id made.0.customer_phone (delivery_key key) true false
          (with_desk made.1 till).outbox)
        _ (rw sends at queued) in
    let same = ok-injective e2 in
    let result = ok-injective e3 in
    let sold : made.0 ≡ sale = ap (λ p. p.0) same in
    (
      made.1,
      answer.0,
      created ∙ ap (λ x. ok (x, made.1)) sold,
      subst
          (λ x.
            queue_invoice_delivery config now ids.delivery_id x context.organization_id
              context.shop_id context.user_id x.customer_phone (delivery_key key) true false
              (with_desk made.1 till).outbox
            ≡ ok (answer.0, after.outbox))
          sold
          (asked
            ∙ ap (λ x. ok (answer.0, x)) (ap (λ p. p.1.outbox) result ∙ ap (λ p. p.2.outbox) same)),
      ap (λ p. p.0) result ∙ ap (λ p. p.1) same,
      ap (λ p. p.1.keys) result ∙ ap (λ p. p.2.keys) same,
    )

-- the same request, sent again
create_and_queue-again :
    (config : Config) (now year : ℕ) (ids : NewIds) (context : ShopContext) (key : Text)
    (delivery_key : Text → Text) (request_hash : ℕ) (request : SaleCreate) (after : Till)
    (sale : Sale) (delivery : Delivery)
    → request.send_invoice_via_whatsapp ≡ true
    → sale_for_request config.base now year ids.sale_id ids.job_id context.shop_id key request_hash
        request
        (desk after)
      ≡ ok (sale, desk after)
    → queue_invoice_delivery config now ids.delivery_id sale context.organization_id context.shop_id
        context.user_id sale.customer_phone
        (delivery_key key)
        true
        false
        after.outbox
      ≡ ok (delivery, after.outbox)
    → create_and_queue config now year ids context key delivery_key request_hash request after
      ≡ ok (sale, some delivery.status, after)
unfolding create_and_queue queue_checkout
create_and_queue-again config now year ids context key delivery_key request_hash request after sale
      delivery sends sold queued =
    rw (sold, sends, queued) refl

-- A sale that was made and queued for WhatsApp under an unused key: the same request, sent again in the
-- same context at any later time while the delivery is available, is answered with the same sale and
-- delivery and changes nothing, so that it neither sells nor sends twice. The sale's id is a new one.
pub create_and_queue-once :
    (config : Config) (now year : ℕ) (ids : NewIds) (context : ShopContext) (key : Text)
    (delivery_key : Text → Text) (request_hash : ℕ) (request : SaleCreate) (till : Till)
    (sale : Sale) (status : Option DeliveryStatus) (after : Till) (later year' : ℕ) (ids' : NewIds)
    (asked : Delivery)
    → find (is_key context.shop_id key) till.keys ≡ none
    → get_sale_by_id till.outbox.db ids.sale_id context.shop_id ≡ none
    → request.send_invoice_via_whatsapp ≡ true
    → create_and_queue config now year ids context key delivery_key request_hash request till
      ≡ ok (sale, status, after)
    → requested_delivery config later ids'.delivery_id sale context.organization_id context.shop_id
        context.user_id sale.customer_phone
        (delivery_key key)
        true
        after.outbox
      ≡ ok asked
    → create_and_queue config later year' ids' context key delivery_key request_hash request after
      ≡ ok (sale, status, after)
create_and_queue-once config now year ids context key delivery_key request_hash request till sale
      status after later year' ids' asked unused fresh sends first available =
    let (d, delivery, sold, queued, shown, keys) =
      create_and_queue-inv config now year ids context key delivery_key request_hash request till
        sale status after sends first in
    let (for_sale, for_phone, kept) =
      queue_invoice_delivery-answer config now ids.delivery_id sale context.organization_id
        context.shop_id context.user_id sale.customer_phone (delivery_key key) true false
        (with_desk d till).outbox delivery after.outbox queued in
    let (for_sale', for_phone') =
      requested_delivery-recipient config later ids'.delivery_id sale context.organization_id
        context.shop_id context.user_id sale.customer_phone (delivery_key key) true after.outbox
        asked available in
    let same_recipient : delivery.recipient_hmac ≡ asked.recipient_hmac =
      ok-injective (sym for_phone ∙ for_phone') in
    let same_desk : d ≡ desk after = same_rows d (desk after) (sym kept) keys in
    let sold_again =
      (sale_for_request-once config.base now year ids.sale_id ids.job_id context.shop_id key
        request_hash request (desk till) d sale unused fresh sold config.base later year'
        ids'.sale_id ids'.job_id request).0 in
    let queued_again =
      queue_invoice_delivery-once config now ids.delivery_id sale context.organization_id
        context.shop_id context.user_id sale.customer_phone (delivery_key key) true false
        (with_desk d till).outbox delivery after.outbox later ids'.delivery_id sale
        context.organization_id context.user_id sale.customer_phone true false asked queued
        available in
    create_and_queue-again config later year' ids' context key delivery_key request_hash request
      after sale delivery sends
      (subst
        (λ x.
          sale_for_request config.base later year' ids'.sale_id ids'.job_id context.shop_id key
            request_hash request x
          ≡ ok (sale, x))
        same_desk sold_again)
      (queued_again
        ∙ rw (for_sale, for_sale', same_recipient, ==_refl sale.id, ==_refl asked.recipient_hmac)
            refl)
    ∙ ap (λ x. ok (sale, x, after)) shown
