-- ===== src/WhatsApp/Webhook/Receive.antt =====
-- A payload of the webhook: app/modules/whatsapp/routes.py, from the verified body on.
use aurum_pos.Prelude.{
  ℕ, Bool, true, ◌||◌, Option, none, some, or_default, List, [], ◌∷◌, take, if◌then◌else◌, Outcome,
  ok, ◌>>=◌,
}
use aurum_pos.Text.{Text, text, lower, normalize, ◌=ᵗ◌}
use aurum_pos.Tables.Sales.{Fault}
use aurum_pos.WhatsApp.{Outbox, Config}
use aurum_pos.WhatsApp.Webhook.{InboundMessage, WebhookChange, record_statuses}
use aurum_pos.WhatsApp.Suppressions.{suppress_recipient}

-- `message_template_name` is absent or the configured one
abbrev pub is_our_template : Config → Option Text → Bool
is_our_template config none = true
is_our_template config (some name) = name =ᵗ config.template_name

unfoldable pub record_template : Config → Option (Option Text × Option Text) → Outbox → Outbox
record_template config none o = o
record_template config (some (name, state)) o =
    if is_our_template config name
    then record o { template_status = some (take 30 (lower (or_default state (text "unknown")))) }
    else o

-- `_record_template_state`
unfoldable pub record_template_state : Config → WebhookChange → Outbox → Outbox
record_template_state config change o = record_template config change.template o

-- `OPT_OUT_WORDS`
unfoldable pub is_opt_out : Text → Bool
is_opt_out s =
    (s =ᵗ text "stop")
    || (s =ᵗ text "unsubscribe")
    || (s =ᵗ text "cancel")
    || (s =ᵗ text "end")
    || (s =ᵗ text "quit")

unfoldable pub record_opt_out : Config → ℕ → Text → Option Text → Outbox → Outcome Fault Outbox
record_opt_out config now body none o = ok o
record_opt_out config now body (some phone) o =
    if is_opt_out (normalize body)
    then suppress_recipient config now phone (text "recipient_opt_out") o
    else ok o

-- `_record_inbound_opt_out`
unfoldable pub record_inbound_opt_out :
    Config → ℕ → List InboundMessage → Outbox → Outcome Fault Outbox
record_inbound_opt_out config now [] o = ok o
record_inbound_opt_out config now (m ∷ messages) o =
    record_opt_out config now m.body m.sender o >>= λ after.
    record_inbound_opt_out config now messages after

unfoldable pub record_change : Config → ℕ → WebhookChange → Outbox → Outcome Fault Outbox
record_change config now change o =
    record_inbound_opt_out config now change.messages (record_template_state config change o)
    >>= λ after. record_statuses config now change.statuses after

-- `receive_webhook`, once the signature was verified
unfoldable pub receive_webhook : Config → ℕ → List WebhookChange → Outbox → Outcome Fault Outbox
receive_webhook config now [] o = ok o
receive_webhook config now (change ∷ changes) o =
    record_change config now change o >>= λ after. receive_webhook config now changes after
