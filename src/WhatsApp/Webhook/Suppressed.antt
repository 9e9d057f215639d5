-- ===== src/WhatsApp/Webhook/Suppressed.antt =====
-- A recipient who is suppressed stays so under whatever the webhook records.
use aurum_pos.Prelude.{
  ℕ, ◌≡◌, refl, ap, ◌∙◌, subst, true, Option, none, some, List, [], ◌∷◌, any, any-update,
  any-updated, any-append, any-appended, ==_refl, ok, >>=-eq-ok, ok-injective, find, Option-cases,
  Bool-cases, inl, inr, arith,
}
use aurum_pos.Text.{Text, text, lower}
use aurum_pos.WhatsApp.{
  DeliveryStatus, Delivery, DeliveryJob, Suppression, Outbox, Config, is_delivery,
}
use aurum_pos.WhatsApp.Worker.Process.{suppresses}
use aurum_pos.WhatsApp.Webhook.{
  StatusEvent, InboundMessage, WebhookChange, reported_status, event_job, is_ignored, record_event,
  record_reported, record_job_event, record_status, record_statuses,
}
use aurum_pos.WhatsApp.Suppressions.{suppress_row, has_hmac, suppress_hmac, suppress_recipient}
use aurum_pos.WhatsApp.Webhook.Receive.{
  record_template_state, record_opt_out, record_inbound_opt_out, record_change, receive_webhook,
}
use aurum_pos.WhatsApp.Webhook.Effects.{
  suppress_recipient-inv, suppress_blocked-inv, record_opt_out-inv,
  record_template_state-suppressions,
}

abbrev pub IsSuppressed : Outbox → ℕ → Type 0
IsSuppressed o hmac = any (suppresses hmac) o.suppressions ≡ true

pub suppress_hmac-IsSuppressed :
    (now : ℕ) (reason : Text) (hmac : ℕ) (o : Outbox)
    → IsSuppressed (suppress_hmac now reason hmac o) hmac
unfolding suppress_hmac
suppress_hmac-IsSuppressed now reason hmac o =
    elim (Bool-cases (any (has_hmac hmac) o.suppressions)) [
      | inl known ↦ rw known (
          any-updated (has_hmac hmac) (suppresses hmac) (suppress_row now reason) o.suppressions
            (λ x h. rw h refl) known)
      | inr new ↦ rw new (any-appended (suppresses hmac) o.suppressions _ (rw (==_refl hmac) refl))
    ]

suppresses-hmac :
    (now : ℕ) (reason : Text) (hmac : ℕ) (s : Suppression)
    → suppresses hmac s ≡ true
    → suppresses hmac (suppress_row now reason s) ≡ true
suppresses-hmac now reason hmac s h = ground arith

suppress_hmac-keeps :
    (now : ℕ) (reason : Text) (hmac hmac' : ℕ) (o : Outbox)
    → IsSuppressed o hmac
    → IsSuppressed (suppress_hmac now reason hmac' o) hmac
unfolding suppress_hmac
suppress_hmac-keeps now reason hmac hmac' o h =
    elim (Bool-cases (any (has_hmac hmac') o.suppressions)) [
      | inl known ↦ rw known (
          any-update (has_hmac hmac') (suppresses hmac) (suppress_row now reason) o.suppressions
            (suppresses-hmac now reason hmac) h)
      | inr new ↦ rw new (any-append (suppresses hmac) o.suppressions _ h)
    ]

module _ (config : Config) (now hmac : ℕ) where
  suppress_recipient-keeps :
      (phone reason : Text) (o after : Outbox)
      → suppress_recipient config now phone reason o ≡ ok after
      → IsSuppressed o hmac
      → IsSuppressed after hmac
  suppress_recipient-keeps phone reason o after e h =
      let (_, hmac', _, _, same) = suppress_recipient-inv config now phone reason o after e in
      subst (λ x. IsSuppressed x hmac) same (suppress_hmac-keeps now reason hmac hmac' o h)

  record_event-keeps :
      (e : StatusEvent) (status : DeliveryStatus) (message_id : ℕ) (j : DeliveryJob)
      (found : Option Delivery) (o after : Outbox)
      → record_event config now e status message_id j found o ≡ ok after
      → IsSuppressed o hmac
      → IsSuppressed after hmac
  unfolding record_event
  record_event-keeps e status message_id j none o after eq h =
      subst (λ x. IsSuppressed x hmac) (ok-injective eq) h
  record_event-keeps e status message_id j (some d) o after eq h =
      elim (Bool-cases (is_ignored status d.status)) [
        | inl ignored ↦ subst (λ x. IsSuppressed x hmac) (ok-injective (rw ignored at eq)) h
        | inr counts ↦
            elim (suppress_blocked-inv config now status e.fault e.recipient_id _ after
              (rw counts at eq)) [
                | inl same ↦ subst (λ x. IsSuppressed x hmac) same h
                | inr (p, out) ↦ suppress_recipient-keeps p (text "provider_blocked") _ after out h
              ]
      ]

  record_reported-keeps :
      (e : StatusEvent) (status : Option DeliveryStatus) (message_id : Option ℕ) (o after : Outbox)
      → record_reported config now e status message_id o ≡ ok after
      → IsSuppressed o hmac
      → IsSuppressed after hmac
  unfolding record_reported record_job_event
  record_reported-keeps e none message_id o after eq h =
      subst (λ x. IsSuppressed x hmac) (ok-injective eq) h
  record_reported-keeps e (some status) none o after eq h =
      subst (λ x. IsSuppressed x hmac) (ok-injective eq) h
  record_reported-keeps e (some status) (some message_id) o after eq h =
      elim (Option-cases (event_job message_id e.delivery_id o)) [
        | inl missing ↦ subst (λ x. IsSuppressed x hmac) (ok-injective (rw missing at eq)) h
        | inr (j, found) ↦
            record_event-keeps e status message_id j
              (find (is_delivery j.delivery_id j.shop_id) o.deliveries) o after (rw found at eq) h
      ]

  pub record_statuses-keeps :
      (events : List StatusEvent) (o after : Outbox)
      → record_statuses config now events o ≡ ok after
      → IsSuppressed o hmac
      → IsSuppressed after hmac
  unfolding record_statuses record_status
  record_statuses-keeps [] o after eq h = subst (λ x. IsSuppressed x hmac) (ok-injective eq) h
  record_statuses-keeps (e ∷ events) o after eq h =
      let (next, recorded, rest) = >>=-eq-ok (record_status config now e o) _ eq in
      record_statuses-keeps events next after rest
        (record_reported-keeps e (reported_status (lower e.status)) e.message_id o next recorded h)

  pub record_inbound_opt_out-keeps :
      (messages : List InboundMessage) (o after : Outbox)
      → record_inbound_opt_out config now messages o ≡ ok after
      → IsSuppressed o hmac
      → IsSuppressed after hmac
  unfolding record_inbound_opt_out
  record_inbound_opt_out-keeps [] o after eq h =
      subst (λ x. IsSuppressed x hmac) (ok-injective eq) h
  record_inbound_opt_out-keeps (m ∷ messages) o after eq h =
      let (next, out, rest) = >>=-eq-ok (record_opt_out config now m.body m.sender o) _ eq in
      record_inbound_opt_out-keeps messages next after rest
        (elim (record_opt_out-inv config now m.body m.sender o next out) [
          | inl same ↦ subst (λ x. IsSuppressed x hmac) same h
          | inr (p, gone) ↦ suppress_recipient-keeps p (text "recipient_opt_out") o next gone h
        ])

  pub receive_webhook-keeps :
      (changes : List WebhookChange) (o after : Outbox)
      → receive_webhook config now changes o ≡ ok after
      → IsSuppressed o hmac
      → IsSuppressed after hmac
  unfolding receive_webhook record_change
  receive_webhook-keeps [] o after eq h = subst (λ x. IsSuppressed x hmac) (ok-injective eq) h
  receive_webhook-keeps (change ∷ changes) o after eq h =
      let (next, recorded, rest) = >>=-eq-ok (record_change config now change o) _ eq in
      let (opted, outs, statuses) =
        >>=-eq-ok
          (record_inbound_opt_out config now change.messages
            (record_template_state config change o))
          _ recorded in
      receive_webhook-keeps changes next after rest (
        record_statuses-keeps change.statuses opted next statuses (
          record_inbound_opt_out-keeps change.messages (record_template_state config change o) opted
            outs
            (ap (any (suppresses hmac)) (record_template_state-suppressions config change o) ∙ h)))
