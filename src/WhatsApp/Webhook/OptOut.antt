-- ===== src/WhatsApp/Webhook/OptOut.antt =====
-- An opt-out takes effect.
use aurum_pos.Prelude.{
  ℕ, ◌≡◌, Bool, any, arith, true, subst, Option, none, some, List, [], ◌∷◌, ◌++◌, All, All-append,
  All-map, if◌then◌else◌, Outcome, ok, err, ◌>>=◌, >>=-eq-ok, Bool-cases, inl, inr,
}
use aurum_pos.Text.{Text, text, normalize, ◌=ᵗ◌}
use aurum_pos.Tables.Sales.{Fault}
use aurum_pos.WhatsApp.{Outbox, Config}
use aurum_pos.WhatsApp.Phone.{normalize_whatsapp_phone, recipient_hmac}
use aurum_pos.WhatsApp.Webhook.{InboundMessage, WebhookChange}
use aurum_pos.WhatsApp.Webhook.Receive.{
  record_template_state, is_opt_out, record_opt_out, record_inbound_opt_out, record_change,
  receive_webhook,
}
use aurum_pos.WhatsApp.Webhook.Effects.{suppress_recipient-inv}
use aurum_pos.WhatsApp.Webhook.Suppressed.{
  IsSuppressed, suppress_hmac-IsSuppressed, record_statuses-keeps, record_inbound_opt_out-keeps,
  receive_webhook-keeps,
}

-- the recipient of a phone number, if it is one
abbrev pub hmac_of : Outcome Fault ℕ → List ℕ
hmac_of (ok hmac) = hmac ∷ []
hmac_of (err _) = []

-- the words that ask for no more messages
abbrev pub opt_out_words : List Text
opt_out_words = text "stop" ∷ text "unsubscribe" ∷ text "cancel" ∷ text "end" ∷ text "quit" ∷ []

abbrev pub asks_to_stop : Text → Bool
asks_to_stop body = any (λ word. normalize body =ᵗ word) opt_out_words

asks_to_stop-is_opt_out :
    (body : Text) → asks_to_stop body ≡ true → is_opt_out (normalize body) ≡ true
unfolding is_opt_out
asks_to_stop-is_opt_out body h = ground (arith, h)

-- the recipients who ask to receive no more messages
abbrev pub opt_out_of : Config → Text → Option Text → List ℕ
opt_out_of config body none = []
opt_out_of config body (some phone) =
    if asks_to_stop body
    then hmac_of (normalize_whatsapp_phone config.is_digit phone >>= recipient_hmac config)
    else []

abbrev pub opt_outs : Config → List InboundMessage → List ℕ
opt_outs config [] = []
opt_outs config (m ∷ messages) = opt_out_of config m.body m.sender ++ opt_outs config messages

abbrev pub webhook_opt_outs : Config → List WebhookChange → List ℕ
webhook_opt_outs config [] = []
webhook_opt_outs config (change ∷ changes) =
    opt_outs config change.messages ++ webhook_opt_outs config changes

module _ (config : Config) (now : ℕ) where
  opt_out_of-IsSuppressed :
      (body : Text) (sender : Option Text) (o after : Outbox)
      → record_opt_out config now body sender o ≡ ok after
      → All (IsSuppressed after) (opt_out_of config body sender)
  unfolding record_opt_out
  opt_out_of-IsSuppressed body none o after e = tt
  opt_out_of-IsSuppressed body (some phone) o after e = elim (Bool-cases (asks_to_stop body)) [
    | inl asked ↦
        let out = asks_to_stop-is_opt_out body asked in
        let (recipient, hmac, normal, hashed, same) =
          suppress_recipient-inv config now phone (text "recipient_opt_out") o after
            (rw out at e) in
        rw (asked, normal, hashed)
          (
            subst (λ x. IsSuppressed x hmac) same
                (suppress_hmac-IsSuppressed now (text "recipient_opt_out") hmac o),
            tt,
          )
    | inr other ↦ rw other tt
  ]

  opt_outs-IsSuppressed :
      (messages : List InboundMessage) (o after : Outbox)
      → record_inbound_opt_out config now messages o ≡ ok after
      → All (IsSuppressed after) (opt_outs config messages)
  unfolding record_inbound_opt_out
  opt_outs-IsSuppressed [] o after e = tt
  opt_outs-IsSuppressed (m ∷ messages) o after e =
      let (next, out, rest) = >>=-eq-ok (record_opt_out config now m.body m.sender o) _ e in
      All-append (IsSuppressed after) (opt_out_of config m.body m.sender) (opt_outs config messages)
        (All-map (IsSuppressed next) (IsSuppressed after) (opt_out_of config m.body m.sender)
          (λ hmac h. record_inbound_opt_out-keeps config now hmac messages next after rest h)
          (opt_out_of-IsSuppressed m.body m.sender o next out))
        (opt_outs-IsSuppressed messages next after rest)

  -- After a payload that the webhook accepts, for each of its messages that says stop, unsubscribe,
  -- cancel, end or quit, the recipient that `normalize_whatsapp_phone` reads from the sender's number
  -- is suppressed, whatever else the payload reports. A number of ten digits is read as an Indian one.
  pub receive_webhook-IsSuppressed :
      (changes : List WebhookChange) (o after : Outbox)
      → receive_webhook config now changes o ≡ ok after
      → All (IsSuppressed after) (webhook_opt_outs config changes)
  unfolding receive_webhook record_change
  receive_webhook-IsSuppressed [] o after e = tt
  receive_webhook-IsSuppressed (change ∷ changes) o after e =
      let (next, recorded, rest) = >>=-eq-ok (record_change config now change o) _ e in
      let (opted, outs, statuses) =
        >>=-eq-ok
          (record_inbound_opt_out config now change.messages
            (record_template_state config change o))
          _ recorded in
      All-append (IsSuppressed after) (opt_outs config change.messages)
        (webhook_opt_outs config changes)
        (All-map (IsSuppressed opted) (IsSuppressed after) (opt_outs config change.messages)
          (λ hmac h.
            receive_webhook-keeps config now hmac changes next after rest
              (record_statuses-keeps config now hmac change.statuses opted next statuses h))
          (opt_outs-IsSuppressed change.messages (record_template_state config change o) opted
            outs))
        (receive_webhook-IsSuppressed changes next after rest)
