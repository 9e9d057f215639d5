-- ===== src/WhatsApp/Worker/Handover.antt =====
-- What is handed to the provider.
use aurum_pos.Prelude.{
  ℕ, Bool, true, false, ◌==◌, is_some, is_none, not, ◌&&◌, Option, none, some, List, [], ◌∷◌, ◌++◌,
  any, if◌then◌else◌,
}
use aurum_pos.Tables.Sales.{Sale, is_ready}
use aurum_pos.WhatsApp.{Delivery, Outbox, Config}
use aurum_pos.WhatsApp.Worker.{WhatsAppTarget}
use aurum_pos.WhatsApp.Worker.Process.{Upload, uploaded, not_uploaded}

module _ (config : Config) (now : ℕ) (t : WhatsAppTarget) where
  abbrev is_uploaded : Upload → Bool
  is_uploaded (uploaded _) = true
  is_uploaded (not_uploaded _) = false

  -- the messages to the provider after a target was processed
  abbrev pub handed : (Delivery → Sale → Upload) → Option (Delivery × Sale) → Outbox → List ℕ
  handed upload none o = o.handed_over
  handed upload (some (d, sale)) o =
      if (is_some sale.s3_object_key && is_ready sale.invoice_pdf_status)
        && not
            (any (λ s. s.recipient_hmac == d.recipient_hmac && is_none s.cleared_at) o.suppressions)
        && is_uploaded (upload d sale)
      then o.handed_over ++ (d.id ∷ [])
      else o.handed_over
