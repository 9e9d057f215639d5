-- ===== src/WhatsApp/Webhook/Order.antt =====
-- Reports never take a delivery back.
use aurum_pos.Prelude.{
  ℕ, ◌≤◌, ◌≡◌, refl, sym, ap, ◌∙◌, subst, Bool, true, false, Option, none, some, some-injective,
  or_default, map_option, List, [], ◌∷◌, find, find-update, find-holds, if◌then◌else◌, ok,
  >>=-eq-ok, ok-injective, Bool-cases, Option-cases, inl, inr, arith,
}
use aurum_pos.Text.{lower}
use aurum_pos.WhatsApp.{
  DeliveryStatus, pending, processing, accepted, sent, delivered, read, failed, unknown, Delivery,
  DeliveryJob, Outbox, Config, is_delivery,
}
use aurum_pos.WhatsApp.Webhook.Effects.{
  suppress_blocked-deliveries, record_template_state-deliveries, record_inbound_opt_out-deliveries,
}
use aurum_pos.WhatsApp.Webhook.Receive.{
  record_template_state, record_inbound_opt_out, record_change, receive_webhook,
}
use aurum_pos.WhatsApp.Webhook.{
  InboundMessage, WebhookChange, ProviderFault, StatusEvent, status_order, reported_status,
  is_reported, event_job, is_ignored, recorded_delivery, record_event, record_job_event,
  record_reported, record_status, record_statuses,
}

status_order-advances :
    (status current : DeliveryStatus)
    → is_ignored status current ≡ false
    → is_reported current ≡ true
    → (is_reported status ≡ true) × (status_order current ≤ status_order status)
unfolding is_ignored status_order
status_order-advances status pending h r = ground arith
status_order-advances status processing h r = ground arith
status_order-advances status accepted h r = ground arith
status_order-advances status failed h r = ground arith
status_order-advances status unknown h r = ground arith
status_order-advances pending sent h r = ground arith
status_order-advances processing sent h r = ground arith
status_order-advances accepted sent h r = ground arith
status_order-advances sent sent h r = ground arith
status_order-advances delivered sent h r = ground arith
status_order-advances read sent h r = ground arith
status_order-advances failed sent h r = ground arith
status_order-advances unknown sent h r = ground arith
status_order-advances pending delivered h r = ground arith
status_order-advances processing delivered h r = ground arith
status_order-advances accepted delivered h r = ground arith
status_order-advances sent delivered h r = ground arith
status_order-advances delivered delivered h r = ground arith
status_order-advances read delivered h r = ground arith
status_order-advances failed delivered h r = ground arith
status_order-advances unknown delivered h r = ground arith
status_order-advances pending read h r = ground arith
status_order-advances processing read h r = ground arith
status_order-advances accepted read h r = ground arith
status_order-advances sent read h r = ground arith
status_order-advances delivered read h r = ground arith
status_order-advances read read h r = ground arith
status_order-advances failed read h r = ground arith
status_order-advances unknown read h r = ground arith

same_delivery :
    (id id' shop_id shop_id' : ℕ) (x : Delivery)
    → is_delivery id shop_id x ≡ true
    → is_delivery id' shop_id' x ≡ true
    → (id ≡ id') × (shop_id ≡ shop_id')
same_delivery id id' shop_id shop_id' x h h' = ground arith

-- the delivery is recorded as sent, delivered or read, and as far on as the place `n` of the order
abbrev pub Reached : ℕ → ℕ → ℕ → Outbox → Type 0
Reached id shop_id n o =
    (d : Delivery) × (find (is_delivery id shop_id) o.deliveries ≡ some d)
    × (is_reported d.status ≡ true)
    × (n ≤ status_order d.status)

-- a row, recorded when the event is for it
row-advances :
    (chosen : Bool) (time : ℕ) (status : DeliveryStatus) (message_id : ℕ)
    (fault : Option ProviderFault) (x : Delivery)
    → (chosen ≡ true → is_ignored status x.status ≡ false)
    → is_reported x.status ≡ true
    → let y = if chosen then recorded_delivery time status message_id fault x else x in
      (is_reported y.status ≡ true) × (status_order x.status ≤ status_order y.status)
unfolding recorded_delivery
row-advances true time status message_id fault x counts r =
    status_order-advances status x.status (counts refl) r
row-advances false time status message_id fault x counts r = (r, omega arith)

-- the row that an event is for
only_delivery :
    (id id' shop_id shop_id' : ℕ) (deliveries : List Delivery) (x d : Delivery)
    → find (is_delivery id' shop_id') deliveries ≡ some d
    → find (is_delivery id shop_id) deliveries ≡ some x
    → is_delivery id' shop_id' x ≡ true
    → d ≡ x
only_delivery id id' shop_id shop_id' deliveries x d found seen chosen =
    let (same_id, same_shop) =
      same_delivery id' id shop_id' shop_id x chosen
        (find-holds (is_delivery id shop_id) deliveries x seen) in
    some-injective d x (sym found ∙ rw (same_id, same_shop) seen)

module _ (config : Config) (now : ℕ) (e : StatusEvent) (id shop_id n : ℕ) where
  record_event-Reached :
      (status : DeliveryStatus) (message_id : ℕ) (j : DeliveryJob) (found : Option Delivery)
      (o after : Outbox)
      → find (is_delivery j.delivery_id j.shop_id) o.deliveries ≡ found
      → record_event config now e status message_id j found o ≡ ok after
      → Reached id shop_id n o
      → Reached id shop_id n after
  unfolding record_event recorded_delivery
  record_event-Reached status message_id j none o after f eq reached =
      subst (Reached id shop_id n) (ok-injective eq) reached
  record_event-Reached status message_id j (some d) o after f eq reached =
      elim (Bool-cases (is_ignored status d.status)) [
        | inl ignored ↦ subst (Reached id shop_id n) (ok-injective (rw ignored at eq)) reached
        | inr counts ↦
            let (x, seen, r, far) = reached in
            let chosen = is_delivery j.delivery_id j.shop_id in
            let time = or_default e.timestamp now in
            let row = recorded_delivery time status message_id e.fault in
            let rows =
              suppress_blocked-deliveries config now status e.fault e.recipient_id _ after
                (rw counts at eq) in
            let (r', further) =
              row-advances (chosen x) time status message_id e.fault x
                (λ c.
                  subst (λ y. is_ignored status y.status ≡ false)
                    (only_delivery id j.delivery_id shop_id j.shop_id o.deliveries x d f seen c)
                    counts)
                r in
            (
              (if chosen x then row x else x),
              ap (find (is_delivery id shop_id)) rows
                  ∙ find-update chosen (is_delivery id shop_id) row o.deliveries (λ y h. refl)
                  ∙ ap (map_option (λ y. if chosen y then row y else y)) seen,
              r',
              omega (arith, further, far),
            )
      ]

  record_reported-Reached :
      (status : Option DeliveryStatus) (message_id : Option ℕ) (o after : Outbox)
      → record_reported config now e status message_id o ≡ ok after
      → Reached id shop_id n o
      → Reached id shop_id n after
  unfolding record_reported record_job_event
  record_reported-Reached none message_id o after eq reached =
      subst (Reached id shop_id n) (ok-injective eq) reached
  record_reported-Reached (some status) none o after eq reached =
      subst (Reached id shop_id n) (ok-injective eq) reached
  record_reported-Reached (some status) (some message_id) o after eq reached =
      elim (Option-cases (event_job message_id e.delivery_id o)) [
        | inl missing ↦ subst (Reached id shop_id n) (ok-injective (rw missing at eq)) reached
        | inr (j, found) ↦
            record_event-Reached status message_id j
              (find (is_delivery j.delivery_id j.shop_id) o.deliveries) o after refl
              (rw found at eq) reached
      ]

module _ (config : Config) (now id shop_id n : ℕ) where
  record_statuses-Reached :
      (events : List StatusEvent) (o after : Outbox)
      → record_statuses config now events o ≡ ok after
      → Reached id shop_id n o
      → Reached id shop_id n after
  unfolding record_statuses record_status
  record_statuses-Reached [] o after eq reached =
      subst (Reached id shop_id n) (ok-injective eq) reached
  record_statuses-Reached (e ∷ events) o after eq reached =
      let (next, recorded, rest) = >>=-eq-ok (record_status config now e o) _ eq in
      record_statuses-Reached events next after rest (
        record_reported-Reached config now e id shop_id n (reported_status (lower e.status))
          e.message_id o next recorded reached)

  record_template_state-Reached :
      (change : WebhookChange) (o : Outbox)
      → Reached id shop_id n o
      → Reached id shop_id n (record_template_state config change o)
  record_template_state-Reached change o (d, found, r, far) = (
    d,
    ap (find (is_delivery id shop_id)) (record_template_state-deliveries config change o) ∙ found,
    r,
    far,
  )

  record_inbound_opt_out-Reached :
      (messages : List InboundMessage) (o after : Outbox)
      → record_inbound_opt_out config now messages o ≡ ok after
      → Reached id shop_id n o
      → Reached id shop_id n after
  record_inbound_opt_out-Reached messages o after eq (d, found, r, far) = (
    d,
    ap (find (is_delivery id shop_id))
          (record_inbound_opt_out-deliveries config now messages o after eq)
        ∙ found,
    r,
    far,
  )

  -- A delivery that is recorded as sent, delivered or read stays so, and never goes back in the order of
  -- these, whatever reports the webhook accepts and in whichever order they come.
  pub receive_webhook-Reached :
      (changes : List WebhookChange) (o after : Outbox)
      → receive_webhook config now changes o ≡ ok after
      → Reached id shop_id n o
      → Reached id shop_id n after
  unfolding receive_webhook record_change
  receive_webhook-Reached [] o after eq reached =
      subst (Reached id shop_id n) (ok-injective eq) reached
  receive_webhook-Reached (change ∷ changes) o after eq reached =
      let (next, recorded, rest) = >>=-eq-ok (record_change config now change o) _ eq in
      let (opted, outs, statuses) =
        >>=-eq-ok
          (record_inbound_opt_out config now change.messages
            (record_template_state config change o))
          _ recorded in
      receive_webhook-Reached changes next after rest (
        record_statuses-Reached change.statuses opted next statuses (
          record_inbound_opt_out-Reached change.messages (record_template_state config change o)
            opted outs (record_template_state-Reached change o reached)))
