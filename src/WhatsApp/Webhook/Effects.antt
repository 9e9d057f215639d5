-- ===== src/WhatsApp/Webhook/Effects.antt =====
-- What opt-outs and template updates leave of the tables.
use aurum_pos.Prelude.{
  ℕ, ◌≡◌, ◌⊎◌, refl, sym, ap, ◌∙◌, ◌&&◌, Option, none, some, List, [], ◌∷◌, ok, >>=-eq-ok,
  ok-injective, Bool-cases, inl, inr,
}
use aurum_pos.Text.{Text, text, normalize}
use aurum_pos.WhatsApp.{DeliveryStatus, has_failed, Outbox, Config}
use aurum_pos.WhatsApp.Phone.{normalize_whatsapp_phone, recipient_hmac}
use aurum_pos.WhatsApp.Webhook.{
  ProviderFault, InboundMessage, WebhookChange, suppress_blocked, is_blocking,
}
use aurum_pos.WhatsApp.Suppressions.{suppress_hmac, suppress_recipient}
use aurum_pos.WhatsApp.Webhook.Receive.{
  is_our_template, record_template, record_template_state, is_opt_out, record_opt_out,
  record_inbound_opt_out,
}

pub suppress_recipient-inv :
    (config : Config) (now : ℕ) (phone reason : Text) (o after : Outbox)
    → suppress_recipient config now phone reason o ≡ ok after
    → (recipient : Text) × (hmac : ℕ) × (normalize_whatsapp_phone config.is_digit phone
        ≡ ok recipient)
      × (recipient_hmac config recipient ≡ ok hmac)
      × (suppress_hmac now reason hmac o ≡ after)
unfolding suppress_recipient
suppress_recipient-inv config now phone reason o after e =
    let (recipient, normal, e1) = >>=-eq-ok (normalize_whatsapp_phone config.is_digit phone) _ e in
    let (hmac, hashed, e2) = >>=-eq-ok (recipient_hmac config recipient) _ e1 in
    (recipient, hmac, normal, hashed, ok-injective e2)

-- either nothing is changed, or a recipient is suppressed
pub suppress_blocked-inv :
    (config : Config) (now : ℕ) (status : DeliveryStatus) (fault : Option ProviderFault)
    (phone : Option Text) (o after : Outbox)
    → suppress_blocked config now status fault phone o ≡ ok after
    → (o ≡ after)
      ⊎ ((p : Text) × (suppress_recipient config now p (text "provider_blocked") o ≡ ok after))
unfolding suppress_blocked
suppress_blocked-inv config now status fault none o after e = inl (ok-injective e)
suppress_blocked-inv config now status fault (some phone) o after e =
    elim (Bool-cases (has_failed status && is_blocking fault)) [
      | inl blocked ↦ inr (phone, rw blocked at e)
      | inr harmless ↦ inl (ok-injective (rw harmless at e))
    ]

pub record_opt_out-inv :
    (config : Config) (now : ℕ) (body : Text) (sender : Option Text) (o after : Outbox)
    → record_opt_out config now body sender o ≡ ok after
    → (o ≡ after)
      ⊎ ((p : Text) × (suppress_recipient config now p (text "recipient_opt_out") o ≡ ok after))
unfolding record_opt_out
record_opt_out-inv config now body none o after e = inl (ok-injective e)
record_opt_out-inv config now body (some phone) o after e =
    elim (Bool-cases (is_opt_out (normalize body))) [
      | inl out ↦ inr (phone, rw out at e)
      | inr other ↦ inl (ok-injective (rw other at e))
    ]

suppress_recipient-deliveries :
    (config : Config) (now : ℕ) (phone reason : Text) (o after : Outbox)
    → suppress_recipient config now phone reason o ≡ ok after
    → after.deliveries ≡ o.deliveries
unfolding suppress_hmac
suppress_recipient-deliveries config now phone reason o after e =
    let (_, _, _, _, same) = suppress_recipient-inv config now phone reason o after e in
    sym (ap (λ x. x.deliveries) same)

pub suppress_blocked-deliveries :
    (config : Config) (now : ℕ) (status : DeliveryStatus) (fault : Option ProviderFault)
    (phone : Option Text) (o after : Outbox)
    → suppress_blocked config now status fault phone o ≡ ok after
    → after.deliveries ≡ o.deliveries
suppress_blocked-deliveries config now status fault phone o after e =
    elim (suppress_blocked-inv config now status fault phone o after e) [
      | inl same ↦ sym (ap (λ x. x.deliveries) same)
      | inr (p, out) ↦
          suppress_recipient-deliveries config now p (text "provider_blocked") o after out
    ]

pub record_inbound_opt_out-deliveries :
    (config : Config) (now : ℕ) (messages : List InboundMessage) (o after : Outbox)
    → record_inbound_opt_out config now messages o ≡ ok after
    → after.deliveries ≡ o.deliveries
unfolding record_inbound_opt_out
record_inbound_opt_out-deliveries config now [] o after e =
    sym (ap (λ x. x.deliveries) (ok-injective e))
record_inbound_opt_out-deliveries config now (m ∷ messages) o after e =
    let (next, out, rest) = >>=-eq-ok (record_opt_out config now m.body m.sender o) _ e in
    let later = record_inbound_opt_out-deliveries config now messages next after rest in
    elim (record_opt_out-inv config now m.body m.sender o next out) [
      | inl same ↦ later ∙ sym (ap (λ x. x.deliveries) same)
      | inr (p, gone) ↦
          later ∙ suppress_recipient-deliveries config now p (text "recipient_opt_out") o next gone
    ]

record_template-only :
    (config : Config) (template : Option (Option Text × Option Text)) (o : Outbox)
    → ((record_template config template o).deliveries ≡ o.deliveries)
      × ((record_template config template o).suppressions ≡ o.suppressions)
unfolding record_template
record_template-only config none o = (refl, refl)
record_template-only config (some (name, state)) o =
    elim (Bool-cases (is_our_template config name)) [
      | inl ours ↦ (rw ours refl, rw ours refl)
      | inr other ↦ (rw other refl, rw other refl)
    ]

pub record_template_state-deliveries :
    (config : Config) (change : WebhookChange) (o : Outbox)
    → (record_template_state config change o).deliveries ≡ o.deliveries
unfolding record_template_state
record_template_state-deliveries config change o = (record_template-only config change.template o).0

pub record_template_state-suppressions :
    (config : Config) (change : WebhookChange) (o : Outbox)
    → (record_template_state config change o).suppressions ≡ o.suppressions
unfolding record_template_state
record_template_state-suppressions config change o =
    (record_template-only config change.template o).1
