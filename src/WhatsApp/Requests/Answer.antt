-- ===== src/WhatsApp/Requests/Answer.antt =====
-- The delivery that a request is answered with is for its sale and its recipient.
use aurum_pos.Prelude.{
  ℕ, ◌≡◌, sym, ap, ◌∙◌, Bool, not, ◌||◌, Option, none, some, find, ◌==◌, ==→eq, Outcome, ok, ◌>>=◌,
  raise_if, >>=-eq-ok, >>-eq-ok, raise_if-eq-ok, ok-injective, arith,
}
use aurum_pos.Text.{Text}
use aurum_pos.Tables.Sales.{Sale, Fault, key_reused, confirmation_missing}
use aurum_pos.WhatsApp.{Delivery, Outbox, Config}
use aurum_pos.WhatsApp.Phone.{normalize_whatsapp_phone, recipient_hmac}
use aurum_pos.WhatsApp.Requests.{
  require_delivery_available, has_key, check_latest, latest_delivery, add_delivery, queue_for_key,
  requested_delivery, queue_invoice_delivery,
}

-- the keyed hash of a phone number
abbrev pub recipient_of : Config → Text → Outcome Fault ℕ
recipient_of config phone = normalize_whatsapp_phone config.is_digit phone >>= recipient_hmac config

pub requested_delivery-recipient :
    (config : Config) (now delivery_id : ℕ) (sale : Sale) (organization_id shop_id user_id : ℕ)
    (phone key : Text) (confirm : Bool) (o : Outbox) (d : Delivery)
    → requested_delivery config now delivery_id sale organization_id shop_id user_id phone key
        confirm o
      ≡ ok d
    → (d.sale_id ≡ sale.id) × (recipient_of config phone ≡ ok d.recipient_hmac)
unfolding requested_delivery
requested_delivery-recipient config now delivery_id sale organization_id shop_id user_id phone key
      confirm o d e =
    let (_, _, e1) = >>=-eq-ok (raise_if (not confirm) confirmation_missing) _ e in
    let (_, _, e2) = >>=-eq-ok (require_delivery_available config now organization_id o) _ e1 in
    let (recipient, normal, e3) = >>=-eq-ok (normalize_whatsapp_phone config.is_digit phone) _ e2 in
    let (hmac, hashed, e4) = >>=-eq-ok (recipient_hmac config recipient) _ e3 in
    let built = ok-injective e4 in
    (
      sym (ap (λ x. x.sale_id) built),
      ap (λ m. m >>= recipient_hmac config) normal ∙ hashed ∙ ap (λ x. ok x.recipient_hmac) built,
    )

queue_for_key-same :
    (now : ℕ) (resend : Bool) (d answer : Delivery) (found : Option Delivery) (o after : Outbox)
    → queue_for_key now resend d found o ≡ ok (answer, after)
    → (answer.sale_id ≡ d.sale_id) × (answer.recipient_hmac ≡ d.recipient_hmac) × (after.db ≡ o.db)
unfolding queue_for_key add_delivery
queue_for_key-same now resend d answer none o after e =
    let (_, done) =
      >>-eq-ok (check_latest resend (latest_delivery d.sale_id d.shop_id o.deliveries)) _ e in
    let same = ok-injective done in
    (
      sym (ap (λ p. p.0.sale_id) same),
      sym (ap (λ p. p.0.recipient_hmac) same),
      sym (ap (λ p. p.1.db) same),
    )
queue_for_key-same now resend d answer (some x) o after e =
    let differs = not (x.sale_id == d.sale_id) || not (x.recipient_hmac == d.recipient_hmac) in
    let (fits, done) = >>-eq-ok (raise_if differs key_reused) _ e in
    let equal = raise_if-eq-ok differs key_reused fits in
    let same = ok-injective done in
    (
      sym (ap (λ p. p.0.sale_id) same) ∙ ==→eq x.sale_id d.sale_id (ground (arith, equal)),
      sym (ap (λ p. p.0.recipient_hmac) same)
          ∙ ==→eq x.recipient_hmac d.recipient_hmac (ground (arith, equal)),
      sym (ap (λ p. p.1.db) same),
    )

pub queue_invoice_delivery-answer :
    (config : Config) (now delivery_id : ℕ) (sale : Sale) (organization_id shop_id user_id : ℕ)
    (phone key : Text) (confirm resend : Bool) (o : Outbox) (d : Delivery) (after : Outbox)
    → queue_invoice_delivery config now delivery_id sale organization_id shop_id user_id phone key
        confirm resend o
      ≡ ok (d, after)
    → (d.sale_id ≡ sale.id) × (recipient_of config phone ≡ ok d.recipient_hmac) × (after.db ≡ o.db)
unfolding queue_invoice_delivery
queue_invoice_delivery-answer config now delivery_id sale organization_id shop_id user_id phone key
      confirm resend o d after e =
    let (asked, requested, queued) =
      >>=-eq-ok
        (requested_delivery config now delivery_id sale organization_id shop_id user_id phone key
          confirm o)
        _ e in
    let (for_sale, for_phone) =
      requested_delivery-recipient config now delivery_id sale organization_id shop_id user_id phone
        key confirm o asked requested in
    let (same_sale, same_recipient, kept) =
      queue_for_key-same now resend asked d (find (has_key shop_id key) o.deliveries) o after
        queued in
    (same_sale ∙ for_sale, for_phone ∙ ap ok (sym same_recipient), kept)
