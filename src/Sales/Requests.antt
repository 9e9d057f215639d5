-- ===== src/Sales/Requests.antt =====
-- The sale endpoint's use of the idempotency key: app/modules/sales/routes.py, `create` up to the
-- delivery by WhatsApp. The hash of the request's text is an argument.
pub mod Replay
pub mod Delivery
use aurum_pos.Prelude.{
  ℕ, ◌≡◌, ◌≢◌, refl, sym, ap, ◌∙◌, subst, Bool, false, not, ◌&&◌, Option, none, some, List, [], ◌∷◌,
  ◌++◌, find, ◌==◌, if◌then◌else◌, Outcome, ok, err, ◌>>=◌, or_raise, arith, find-append_none,
  ==_refl, ok-injective, >>=-eq-ok,
}
use aurum_pos.Text.{Text, ◌=ᵗ◌, =ᵗ_refl}
use aurum_pos.Tables.Access.{Settings}
use aurum_pos.Tables.Sales.{Sale, Store, Fault, key_reused, result_unavailable}
use aurum_pos.Sales.Cart.{SaleCreate}
use aurum_pos.Sales.Checkout.{new_sale, create_sale}
use aurum_pos.Sales.Checkout.Accepted.{create_sale-inv}
use aurum_pos.Sales.Checkout.Totals.{create_sale-total}

pub record SaleIdempotency : Type 0 where
  pub shop_id : ℕ
  pub idempotency_key : Text
  pub request_hash : ℕ
  pub sale_id : ℕ

pub record Desk : Type 0 where
  pub db : Store
  pub keys : List SaleIdempotency

unfoldable pub get_sale_by_id : Store → ℕ → ℕ → Option Sale
get_sale_by_id db sale_id shop_id = find (λ s. s.id == sale_id && s.shop_id == shop_id) db.sales

abbrev pub is_key : ℕ → Text → SaleIdempotency → Bool
is_key shop_id key k = k.shop_id == shop_id && (k.idempotency_key =ᵗ key)

-- a key that was used answers with the sale it made
unfoldable pub replay : ℕ → ℕ → SaleIdempotency → Desk → Outcome Fault (Sale × Desk)
replay shop_id request_hash k d =
    let found = or_raise (get_sale_by_id d.db k.sale_id shop_id) result_unavailable in
    if not (k.request_hash == request_hash) then err key_reused else found >>= λ sale. ok (sale, d)

-- `db.add(SaleIdempotency(...))`
abbrev pub use_key : ℕ → Text → ℕ → ℕ → Store → Desk → Desk
use_key shop_id key request_hash sale_id after d = record {
  db = after;
  keys =
      d.keys
      ++ (record {
        shop_id = shop_id;
        idempotency_key = key;
        request_hash = request_hash;
        sale_id = sale_id;
      }
          ∷ []);
}

unfoldable pub first_sale :
    Settings → ℕ → ℕ → ℕ → ℕ → ℕ → Text → ℕ → SaleCreate → Desk → Outcome Fault (Sale × Desk)
first_sale settings now year sale_id job_id shop_id key request_hash request d = do
  made ← create_sale settings now year sale_id job_id shop_id request d.db
  ok (made.0, use_key shop_id key request_hash made.0.id made.1 d)

unfoldable pub sale_for_key :
    Option SaleIdempotency
    → Settings
    → ℕ
    → ℕ
    → ℕ
    → ℕ
    → ℕ
    → Text
    → ℕ
    → SaleCreate
    → Desk
    → Outcome Fault (Sale × Desk)
sale_for_key (some k) settings now year sale_id job_id shop_id key request_hash request d =
    replay shop_id request_hash k d
sale_for_key none settings now year sale_id job_id shop_id key request_hash request d =
    first_sale settings now year sale_id job_id shop_id key request_hash request d

-- the part of `create` that makes or finds the sale
unfoldable pub sale_for_request :
    Settings → ℕ → ℕ → ℕ → ℕ → ℕ → Text → ℕ → SaleCreate → Desk → Outcome Fault (Sale × Desk)
sale_for_request settings now year sale_id job_id shop_id key request_hash request d =
    sale_for_key (find (is_key shop_id key) d.keys) settings now year sale_id job_id shop_id key
      request_hash request d
