-- ===== src/Sales/Requests/Delivery.antt =====
-- The sale endpoints with the delivery by WhatsApp: `create` and `send_invoice_to_whatsapp` of
-- app/modules/sales/routes.py. The key that the delivery gets is an argument, a function of the sale's.
pub mod Once
pub mod Retried
use aurum_pos.Prelude.{
  ℕ, Bool, true, false, Option, none, some, List, or_default, Outcome, ok, ◌>>=◌, ◌>>◌, or_raise,
}
use aurum_pos.Text.{Text}
use aurum_pos.Tables.Sales.{Sale, Fault, sale_missing}
use aurum_pos.Sales.Cart.{SaleCreate}
use aurum_pos.Sales.Requests.{SaleIdempotency, Desk, get_sale_by_id, sale_for_request}
use aurum_pos.Subscriptions.Limits.{enforce_shop_write_access}
use aurum_pos.WhatsApp.{DeliveryStatus, Delivery, Outbox, Config}
use aurum_pos.WhatsApp.Requests.{queue_invoice_delivery}

-- the rows that both parts of the endpoint share
pub record Till : Type 0 where
  pub outbox : Outbox
  pub keys : List SaleIdempotency

pub record ShopContext : Type 0 where
  pub organization_id : ℕ
  pub shop_id : ℕ
  pub user_id : ℕ

-- the ids of the rows that a request may add
pub record NewIds : Type 0 where
  pub sale_id : ℕ
  pub job_id : ℕ
  pub delivery_id : ℕ

abbrev pub desk : Till → Desk
desk till = record { db = till.outbox.db; keys = till.keys }

abbrev pub with_desk : Desk → Till → Till
with_desk d till = record { outbox = record (till.outbox) { db = d.db }; keys = d.keys }

unfoldable pub queue_checkout :
    Config
    → ℕ
    → NewIds
    → ShopContext
    → Sale
    → Text
    → Bool
    → Till
    → Outcome Fault (Option DeliveryStatus × Till)
queue_checkout config now ids context sale key true till = do
  queued ←
      queue_invoice_delivery config now ids.delivery_id sale context.organization_id context.shop_id
        context.user_id sale.customer_phone key true false till.outbox
  ok (some (queued.0.status), record till { outbox = queued.1 })
queue_checkout config now ids context sale key false till = ok (none, till)

-- the body of `create`
unfoldable pub create_and_queue :
    Config
    → ℕ
    → ℕ
    → NewIds
    → ShopContext
    → Text
    → (Text → Text)
    → ℕ
    → SaleCreate
    → Till
    → Outcome Fault (Sale × Option DeliveryStatus × Till)
create_and_queue config now year ids context key delivery_key request_hash request till = do
  made ←
      sale_for_request config.base now year ids.sale_id ids.job_id context.shop_id key request_hash
        request (desk till)
  sent ←
      queue_checkout config now ids context made.0 (delivery_key key)
        request.send_invoice_via_whatsapp (with_desk made.1 till)
  ok (made.0, sent.0, sent.1)

-- `create`, whose dependency `RequireWritableShop` comes first
unfoldable pub create :
    Config
    → ℕ
    → ℕ
    → NewIds
    → ShopContext
    → Text
    → (Text → Text)
    → ℕ
    → SaleCreate
    → Till
    → Outcome Fault (Sale × Option DeliveryStatus × Till)
create config now year ids context key delivery_key request_hash request till =
    enforce_shop_write_access config.base now till.outbox.db context.shop_id
    >> create_and_queue config now year ids context key delivery_key request_hash request till

-- `send_invoice_to_whatsapp`; an empty number counts as none
unfoldable pub send_invoice_to_whatsapp :
    Config
    → ℕ
    → ℕ
    → ShopContext
    → ℕ
    → Text
    → Option Text
    → Bool
    → Bool
    → Outbox
    → Outcome Fault (Delivery × Outbox)
send_invoice_to_whatsapp config now delivery_id context sale_id key recipient_phone confirm resend
      o =
    do
      enforce_shop_write_access config.base now o.db context.shop_id
      sale ← or_raise (get_sale_by_id o.db sale_id context.shop_id) sale_missing
      queue_invoice_delivery config now delivery_id sale context.organization_id context.shop_id
          context.user_id (or_default recipient_phone sale.customer_phone) key confirm resend o
