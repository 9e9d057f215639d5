-- ===== src/Examples/Deliveries.antt =====
-- A WhatsApp delivery under a lease, its finish, and the reports of the provider.
use aurum_pos.Prelude.{
  ℕ, ◌+◌, ◌≡◌, ◌<◌, ◌⊎◌, refl, true, false, none, some, List, [], ◌∷◌, find, All, ok, arith,
}
use aurum_pos.Text.{
  Text, text, strip, lstrip, rstrip, cons_stripped, is_space, normalize, lower, lower_char,
}
use aurum_pos.Tables.Sales.{Sale}
use aurum_pos.WhatsApp.{pending, sent, Delivery, DeliveryJob, Outbox, is_delivery}
use aurum_pos.WhatsApp.Phone.{
  is_separator, complete_number, check_number, recipient_hmac, normalize_whatsapp_phone,
}
use aurum_pos.WhatsApp.Requests.{new_delivery_job}
use aurum_pos.WhatsApp.Worker.{
  WhatsAppTarget, Answer, message, provider_error, Finish, finish_after, leased_delivery,
  finish_delivery,
}
use aurum_pos.WhatsApp.Worker.Process.{Upload, uploaded}
use aurum_pos.WhatsApp.Worker.Mirror.{is_job, finish_delivery-mirrors}
use aurum_pos.WhatsApp.Webhook.{
  StatusEvent, WebhookChange, record_statuses, record_status, record_reported, reported_status,
  record_job_event, record_event, is_ignored, status_order, event_job, suppress_blocked,
  recorded_job, recorded_delivery,
}
use aurum_pos.WhatsApp.Suppressions.{suppress_recipient, suppress_hmac}
use aurum_pos.WhatsApp.Webhook.Receive.{
  record_change, record_inbound_opt_out, record_opt_out, record_template_state, record_template,
  is_opt_out, receive_webhook,
}
use aurum_pos.WhatsApp.Webhook.Order.{Reached, receive_webhook-Reached}
use aurum_pos.WhatsApp.Webhook.Suppressed.{IsSuppressed}
use aurum_pos.WhatsApp.Webhook.OptOut.{webhook_opt_outs, receive_webhook-IsSuppressed}
use aurum_pos.Examples.{value}
use aurum_pos.Examples.Messages.{config, outbox, delivery}

abbrev job : DeliveryJob
job = leased_delivery 7 1 (new_delivery_job 6 700 10)

abbrev claimed : Outbox
claimed = record outbox { deliveries = delivery ∷ []; jobs = job ∷ [] }

abbrev target : WhatsAppTarget
target = record { delivery_id = 700; shop_id = 10; lease_token = 1 }

abbrev file : Delivery → Sale → Upload
file d s = uploaded 800

abbrev answer : Delivery → Sale → ℕ → Answer
answer d s media_id = message 900

abbrev busy : Finish
busy = finish_after (provider_error (text "131048") false true)

finish_delivery-mirrors_example :
    let after = finish_delivery config 8 target busy claimed in
    (j' : DeliveryJob) × (d' : Delivery) × (find (is_job 700) after.jobs ≡ some j')
    × (find (is_delivery 700 10) after.deliveries ≡ some d')
    × (j'.attempts ≡ 0 + 1)
    × (j'.lease_token ≡ none)
    × (((busy.retryable ≡ true) × (j'.attempts < 3) × (j'.status ≡ pending))
        ⊎ (j'.status ≡ busy.status))
    × (d'.status ≡ j'.status)
    × (d'.attempts ≡ j'.attempts)
    × (d'.next_attempt_at ≡ j'.next_attempt_at)
    × (d'.meta_message_id ≡ j'.meta_message_id)
finish_delivery-mirrors_example =
    finish_delivery-mirrors config 8 target busy claimed job delivery refl refl refl

-- the invoice was sent before the provider reports that it was delivered; the customer then opts out
abbrev reported : Outbox
reported = record claimed {
  deliveries = record delivery { status = sent; meta_message_id = some 900 } ∷ [];
  jobs = record job { status = sent; meta_message_id = some 900 } ∷ [];
}

abbrev event : Text → StatusEvent
event status = record {
  message_id = some 900;
  status = status;
  delivery_id = none;
  timestamp = some 20;
  fault = none;
  recipient_id = none;
}

abbrev changes : List WebhookChange
changes =
    record {
      template = none;
      messages = record { body = text "Stop"; sender = some (text "919876543210") } ∷ [];
      statuses = event (text "delivered") ∷ event (text "sent") ∷ [];
    }
    ∷ []

abbrev accepted_webhook : Outbox
accepted_webhook = value (receive_webhook config 21 changes reported) reported

received : receive_webhook config 21 changes reported ≡ ok accepted_webhook
unfolding receive_webhook record_change record_inbound_opt_out record_opt_out record_template_state
    record_template is_opt_out record_statuses record_status record_reported reported_status
    record_job_event record_event is_ignored status_order event_job suppress_recipient
    suppress_blocked suppress_hmac recorded_job recorded_delivery normalize_whatsapp_phone
    complete_number check_number recipient_hmac is_separator is_space strip lstrip rstrip
    cons_stripped normalize lower lower_char
received = refl

receive_webhook-Reached_example : Reached 700 10 4 accepted_webhook
unfolding status_order
receive_webhook-Reached_example =
    receive_webhook-Reached config 21 700 10 4 changes reported accepted_webhook received
      (record delivery { status = sent; meta_message_id = some 900 }, refl, refl, omega arith)

receive_webhook-IsSuppressed_example :
    All (IsSuppressed accepted_webhook) (webhook_opt_outs config changes)
receive_webhook-IsSuppressed_example =
    receive_webhook-IsSuppressed config 21 changes reported accepted_webhook received
