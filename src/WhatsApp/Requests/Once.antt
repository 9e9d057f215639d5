-- ===== src/WhatsApp/Requests/Once.antt =====
-- One delivery for each key.
use aurum_pos.Prelude.{
  ℕ, ◌≡◌, refl, sym, ap, ◌∙◌, Bool, not, ◌&&◌, ◌||◌, Option, none, some, [], ◌∷◌, find,
  find-append_none, ◌==◌, ==_refl, if◌then◌else◌, ok, err, raise_if, >>=-eq-ok, >>-eq-ok,
  ok-injective, Bool-cases, inl, inr,
}
use aurum_pos.Text.{Text, =ᵗ_refl}
use aurum_pos.Tables.Sales.{Sale, key_reused, confirmation_missing}
use aurum_pos.WhatsApp.{Delivery, Outbox, Config}
use aurum_pos.WhatsApp.Phone.{normalize_whatsapp_phone, recipient_hmac}
use aurum_pos.WhatsApp.Requests.{
  require_delivery_available, has_key, check_latest, latest_delivery, add_delivery, queue_for_key,
  requested_delivery, queue_invoice_delivery,
}

requested_delivery-key :
    (config : Config) (now delivery_id : ℕ) (sale : Sale) (organization_id shop_id user_id : ℕ)
    (phone key : Text) (confirm : Bool) (o : Outbox) (d : Delivery)
    → requested_delivery config now delivery_id sale organization_id shop_id user_id phone key
        confirm o
      ≡ ok d
    → (d.shop_id ≡ shop_id) × (d.idempotency_key ≡ key)
unfolding requested_delivery
requested_delivery-key config now delivery_id sale organization_id shop_id user_id phone key confirm
      o d e =
    let (_, _, e1) = >>=-eq-ok (raise_if (not confirm) confirmation_missing) _ e in
    let (_, _, e2) = >>=-eq-ok (require_delivery_available config now organization_id o) _ e1 in
    let (recipient, _, e3) = >>=-eq-ok (normalize_whatsapp_phone config.is_digit phone) _ e2 in
    let (hmac, _, e4) = >>=-eq-ok (recipient_hmac config recipient) _ e3 in
    let built = ok-injective e4 in
    (sym (ap (λ x. x.shop_id) built), sym (ap (λ x. x.idempotency_key) built))

-- after the request the key finds the delivery that the request answered with
queue_for_key-found :
    (now : ℕ) (resend : Bool) (d answer : Delivery) (found : Option Delivery) (o after : Outbox)
    → find (has_key d.shop_id d.idempotency_key) o.deliveries ≡ found
    → queue_for_key now resend d found o ≡ ok (answer, after)
    → find (has_key d.shop_id d.idempotency_key) after.deliveries ≡ some answer
unfolding queue_for_key add_delivery
queue_for_key-found now resend d answer (some existing) o after f e =
    let (_, done) =
      >>-eq-ok
        (raise_if
          (not (existing.sale_id == d.sale_id) || not (existing.recipient_hmac == d.recipient_hmac))
          key_reused)
        (ok (existing, o)) e in
    let same = ok-injective done in
    ap (λ x. find (has_key d.shop_id d.idempotency_key) x.deliveries) (sym (ap (λ p. p.1) same))
    ∙ f
    ∙ ap (λ p. some p.0) same
queue_for_key-found now resend d answer none o after f e =
    let (_, done) =
      >>-eq-ok (check_latest resend (latest_delivery d.sale_id d.shop_id o.deliveries))
        (ok (d, add_delivery now d o)) e in
    let same = ok-injective done in
    ap (λ x. find (has_key d.shop_id d.idempotency_key) x.deliveries) (sym (ap (λ p. p.1) same))
    ∙ find-append_none (has_key d.shop_id d.idempotency_key) o.deliveries (d ∷ []) f
    ∙ rw (==_refl d.shop_id, =ᵗ_refl d.idempotency_key) refl
    ∙ ap (λ p. some p.0) same

queue_for_key-some :
    (now : ℕ) (resend : Bool) (d existing : Delivery) (o : Outbox)
    → queue_for_key now resend d (some existing) o ≡ (
        if existing.sale_id == d.sale_id && existing.recipient_hmac == d.recipient_hmac
        then ok (existing, o)
        else err key_reused)
unfolding queue_for_key
queue_for_key-some now resend d existing o = elim (Bool-cases (existing.sale_id == d.sale_id)) [
  | inl same_sale ↦ elim (Bool-cases (existing.recipient_hmac == d.recipient_hmac)) [
    | inl same_recipient ↦ rw (same_sale, same_recipient) refl
    | inr other ↦ rw (same_sale, other) refl
  ]
  | inr other ↦ rw other refl
]

-- A request that was answered with a delivery fixes it for its key: a later request of the shop with
-- the same key that is confirmed, made while the delivery is available and for a valid number, and
-- whatever its wish to send again, is answered with that delivery and changes nothing when it is for
-- the same sale and recipient, and fails otherwise.
pub queue_invoice_delivery-once :
    (config : Config) (now delivery_id : ℕ) (sale : Sale) (organization_id shop_id user_id : ℕ)
    (phone key : Text) (confirm resend : Bool) (o : Outbox) (d : Delivery) (after : Outbox)
    (now' delivery_id' : ℕ) (sale' : Sale) (organization_id' user_id' : ℕ) (phone' : Text)
    (confirm' resend' : Bool) (d' : Delivery)
    → queue_invoice_delivery config now delivery_id sale organization_id shop_id user_id phone key
        confirm resend o
      ≡ ok (d, after)
    → requested_delivery config now' delivery_id' sale' organization_id' shop_id user_id' phone' key
        confirm' after
      ≡ ok d'
    → queue_invoice_delivery config now' delivery_id' sale' organization_id' shop_id user_id' phone'
        key confirm' resend' after
      ≡ (if d.sale_id == d'.sale_id && d.recipient_hmac == d'.recipient_hmac
          then ok (d, after)
          else err key_reused)
unfolding queue_invoice_delivery
queue_invoice_delivery-once config now delivery_id sale organization_id shop_id user_id phone key
      confirm resend o d after now' delivery_id' sale' organization_id' user_id' phone' confirm'
      resend' d' first again =
    let (asked, requested, queued) =
      >>=-eq-ok
        (requested_delivery config now delivery_id sale organization_id shop_id user_id phone key
          confirm o)
        _ first in
    let (same_shop, same_key) =
      requested_delivery-key config now delivery_id sale organization_id shop_id user_id phone key
        confirm o asked requested in
    let found : find (has_key shop_id key) after.deliveries ≡ some d =
      rw (same_shop, same_key) at
        (queue_for_key-found now resend asked d
          (find (has_key asked.shop_id asked.idempotency_key) o.deliveries) o after refl
          (rw (same_shop, same_key) queued)) in
    rw (again, found) (queue_for_key-some now' resend' d' d after)
