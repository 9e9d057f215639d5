-- ===== src/WhatsApp/Suppressions.antt =====
-- `_suppress_recipient` of app/modules/whatsapp/routes.py.
use aurum_pos.Prelude.{
  ℕ, Bool, none, [], ◌∷◌, ◌++◌, update, any, ◌==◌, if◌then◌else◌, Outcome, ok, ◌>>=◌,
}
use aurum_pos.Text.{Text}
use aurum_pos.Tables.Sales.{Fault}
use aurum_pos.WhatsApp.{Suppression, Outbox, Config}
use aurum_pos.WhatsApp.Phone.{normalize_whatsapp_phone, recipient_hmac}

abbrev pub suppress_row : ℕ → Text → Suppression → Suppression
suppress_row now reason s = record s {
  reason = reason;
  suppressed_at = now;
  cleared_at = none;
  reconsented_delivery_id = none;
}

abbrev pub has_hmac : ℕ → Suppression → Bool
has_hmac hmac s = s.recipient_hmac == hmac

unfoldable pub suppress_hmac : ℕ → Text → ℕ → Outbox → Outbox
suppress_hmac now reason hmac o =
    let new : Suppression = record {
      recipient_hmac = hmac;
      reason = reason;
      suppressed_at = now;
      cleared_at = none;
      reconsented_delivery_id = none;
    } in
    record o {
      suppressions =
          if any (has_hmac hmac) o.suppressions
          then update (has_hmac hmac) (suppress_row now reason) o.suppressions
          else o.suppressions ++ (new ∷ []);
    }

-- `_suppress_recipient`
unfoldable pub suppress_recipient : Config → ℕ → Text → Text → Outbox → Outcome Fault Outbox
suppress_recipient config now phone reason o = do
  recipient ← normalize_whatsapp_phone config.is_digit phone
  hmac ← recipient_hmac config recipient
  ok (suppress_hmac now reason hmac o)
