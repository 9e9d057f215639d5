-- ===== src/Sales/Requests/Delivery/Retried.antt =====
-- What the sale endpoint does when a key is used again.
use aurum_pos.Prelude.{
  ℕ, ◌≡◌, refl, sym, ap, ◌∙◌, Bool, true, false, Option, none, find, ◌==◌, ==→eq, ==_refl,
  if◌then◌else◌, Bool-cases, inl, inr, ok, err, ◌>>=◌, ◌>>◌, >>=-eq-ok, >>-eq-ok, ok-injective, ◌≢◌,
}
use aurum_pos.Text.{Text}
use aurum_pos.Tables.Sales.{Sale, key_reused}
use aurum_pos.Sales.Cart.{SaleCreate}
use aurum_pos.Sales.Requests.{is_key, get_sale_by_id, sale_for_request}
use aurum_pos.Sales.Requests.Replay.{sale_for_request-once}
use aurum_pos.Sales.Requests.Delivery.{
  Till, ShopContext, NewIds, desk, with_desk, queue_checkout, create_and_queue, create,
}
use aurum_pos.Subscriptions.Limits.{enforce_shop_write_access}
use aurum_pos.WhatsApp.{DeliveryStatus, Config}
use aurum_pos.WhatsApp.Requests.{queue_invoice_delivery}
use aurum_pos.WhatsApp.Requests.Answer.{queue_invoice_delivery-answer}

-- queueing a delivery leaves the sales and the keys
queue_checkout-desk :
    (config : Config) (now : ℕ) (ids : NewIds) (context : ShopContext) (sale : Sale) (key : Text)
    (sends : Bool) (till : Till) (status : Option DeliveryStatus) (after : Till)
    → queue_checkout config now ids context sale key sends till ≡ ok (status, after)
    → desk till ≡ desk after
unfolding queue_checkout
queue_checkout-desk config now ids context sale key true till status after e =
    let (answer, asked, done) =
      >>=-eq-ok
        (queue_invoice_delivery config now ids.delivery_id sale context.organization_id
          context.shop_id context.user_id sale.customer_phone key true false till.outbox)
        _ e in
    let (_, _, kept) =
      queue_invoice_delivery-answer config now ids.delivery_id sale context.organization_id
        context.shop_id context.user_id sale.customer_phone key true false till.outbox answer.0
        answer.1 asked in
    ap (λ x. record (desk till) { db = x }) (sym kept) ∙ ap (λ p. desk (p.1)) (ok-injective done)
queue_checkout-desk config now ids context sale key false till status after e =
    ap (λ p. desk (p.1)) (ok-injective e)

-- the sale that an accepted request made or found
create_and_queue-sale :
    (config : Config) (now year : ℕ) (ids : NewIds) (context : ShopContext) (key : Text)
    (delivery_key : Text → Text) (request_hash : ℕ) (request : SaleCreate) (till : Till)
    (sale : Sale) (status : Option DeliveryStatus) (after : Till)
    → create_and_queue config now year ids context key delivery_key request_hash request till
      ≡ ok (sale, status, after)
    → sale_for_request config.base now year ids.sale_id ids.job_id context.shop_id key request_hash
        request
        (desk till)
      ≡ ok (sale, desk after)
unfolding create_and_queue
create_and_queue-sale config now year ids context key delivery_key request_hash request till sale
      status after e =
    let (made, sold, e1) =
      >>=-eq-ok
        (sale_for_request config.base now year ids.sale_id ids.job_id context.shop_id key
          request_hash request (desk till))
        _ e in
    let (sent, queued, e2) =
      >>=-eq-ok
        (queue_checkout config now ids context made.0 (delivery_key key)
          request.send_invoice_via_whatsapp (with_desk made.1 till))
        _ e1 in
    let same = ok-injective e2 in
    let kept : made.1 ≡ desk sent.1 =
      queue_checkout-desk config now ids context made.0 (delivery_key key)
        request.send_invoice_via_whatsapp (with_desk made.1 till) sent.0 sent.1 queued in
    sold
    ∙ ap (λ x. ok (x, made.1)) (ap (λ p. p.0) same)
    ∙ ap (λ x. ok (sale, x)) (kept ∙ ap (λ p. desk p.2) same)

unequal : (a b : ℕ) → (a == b) ≡ false → a ≢ b
unequal a b e same = absurd (cc (e, same, ==_refl a))

-- When the sale endpoint accepts the first use of a key, with a fresh sale id, then on the state that
-- it leaves every request of the shop with the key, at any time and whatever it asks, first checks that
-- the shop is writable. If it is, a request with the first one's hash sells nothing: it goes on with
-- the first sale to the delivery, if it asks for one, and is answered with that sale if this succeeds;
-- a request with another hash is refused.
pub create-once :
    (config : Config) (now year : ℕ) (ids : NewIds) (context : ShopContext) (key : Text)
    (delivery_key : Text → Text) (request_hash : ℕ) (request : SaleCreate) (till : Till)
    (sale : Sale) (status : Option DeliveryStatus) (after : Till) (config' : Config)
    (later year' : ℕ) (ids' : NewIds) (context' : ShopContext) (other_hash : ℕ) (again : SaleCreate)
    → find (is_key context.shop_id key) till.keys ≡ none
    → get_sale_by_id till.outbox.db ids.sale_id context.shop_id ≡ none
    → create config now year ids context key delivery_key request_hash request till
      ≡ ok (sale, status, after)
    → context'.shop_id ≡ context.shop_id
    → create config' later year' ids' context' key delivery_key other_hash again after ≡ (
        enforce_shop_write_access config'.base later after.outbox.db context.shop_id
        >> (if request_hash == other_hash
            then (queue_checkout config' later ids' context' sale
                  (delivery_key key)
                  again.send_invoice_via_whatsapp
                  after
                >>= λ sent. ok (sale, sent.0, sent.1))
            else err key_reused))
unfolding create create_and_queue
create-once config now year ids context key delivery_key request_hash request till sale status after
      config' later year' ids' context' other_hash again unused fresh first same_shop =
    let (_, body) =
      >>-eq-ok (enforce_shop_write_access config.base now till.outbox.db context.shop_id) _ first in
    let sold =
      create_and_queue-sale config now year ids context key delivery_key request_hash request till
        sale status after body in
    let (replayed, refused) =
      sale_for_request-once config.base now year ids.sale_id ids.job_id context.shop_id key
        request_hash request (desk till) (desk after) sale unused fresh sold config'.base later
        year' ids'.sale_id ids'.job_id again in
    elim (Bool-cases (request_hash == other_hash)) [
      | inl e ↦
          rw (same_shop, ← ==→eq request_hash other_hash e, replayed, ==_refl request_hash) refl
      | inr e ↦ rw (same_shop, refused other_hash (unequal request_hash other_hash e), e) refl
    ]
