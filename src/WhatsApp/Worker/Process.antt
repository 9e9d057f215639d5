-- ===== src/WhatsApp/Worker/Process.antt =====
-- `_process_target` and `process_whatsapp_deliveries` of app/jobs/whatsapp.py. What reading and
-- uploading the PDF come to is an argument, and so is what the provider answers to the message:
-- functions of the delivery and its sale. `handed_over` keeps the deliveries whose message was sent.
use aurum_pos.Prelude.{
  ℕ, Bool, not, ◌&&◌, Option, none, some, is_none, is_some, List, [], ◌∷◌, ◌++◌, any, ◌==◌,
  if◌then◌else◌,
}
use aurum_pos.Text.{text}
use aurum_pos.Tables.Sales.{Sale, is_ready, is_failed}
use aurum_pos.WhatsApp.{Delivery, Suppression, Outbox, Config}
use aurum_pos.WhatsApp.Requests.{is_enabled}
use aurum_pos.WhatsApp.Worker.{
  WhatsAppTarget, Trouble, Answer, claim_delivery_jobs, load_delivery, defer_for_pdf,
  finish_delivery, failure, finish_after, finish_of,
}

-- `read_pdf` and `upload_invoice`: the id of the uploaded file, or what one of them raises
pub data Upload : Type 0 where
  uploaded : ℕ → Upload
  not_uploaded : Trouble → Upload

abbrev pub suppresses : ℕ → Suppression → Bool
suppresses hmac s = s.recipient_hmac == hmac && is_none s.cleared_at

unfoldable pub pdf_is_ready : Sale → Bool
pdf_is_ready sale = is_some sale.s3_object_key && is_ready sale.invoice_pdf_status

-- the message follows the upload
unfoldable pub send_uploaded :
    Config
    → ℕ
    → (Delivery → Sale → ℕ → Answer)
    → WhatsAppTarget
    → Delivery
    → Sale
    → Upload
    → Outbox
    → Outbox
send_uploaded config now send t d sale (uploaded media_id) o =
    finish_delivery config now t (finish_of (send d sale media_id))
      (record o { handed_over = o.handed_over ++ (d.id ∷ []) })
send_uploaded config now send t d sale (not_uploaded trouble) o =
    finish_delivery config now t (finish_after trouble) o

unfoldable pub process_loaded :
    Config
    → ℕ
    → (Delivery → Sale → Upload)
    → (Delivery → Sale → ℕ → Answer)
    → WhatsAppTarget
    → Option (Delivery × Sale)
    → Outbox
    → Outbox
process_loaded config now upload send t none o =
    finish_delivery config now t (failure (text "DeliveryMissing")) o
process_loaded config now upload send t (some (d, sale)) o =
    if not (pdf_is_ready sale)
    then if is_failed sale.invoice_pdf_status
      then finish_delivery config now t (failure (text "InvoicePdfFailed")) o
      else defer_for_pdf now t o
    else if any (suppresses d.recipient_hmac) o.suppressions
    then finish_delivery config now t (failure (text "RecipientSuppressed")) o
    else send_uploaded config now send t d sale (upload d sale) o

-- `_process_target`
unfoldable pub process_target :
    Config
    → ℕ
    → (Delivery → Sale → Upload)
    → (Delivery → Sale → ℕ → Answer)
    → WhatsAppTarget
    → Outbox
    → Outbox
process_target config now upload send t o =
    process_loaded config now upload send t (load_delivery t o) o

-- the targets are processed by tasks that each change the rows of their own target
unfoldable pub process_targets :
    Config
    → ℕ
    → (Delivery → Sale → Upload)
    → (Delivery → Sale → ℕ → Answer)
    → List WhatsAppTarget
    → Outbox
    → Outbox
process_targets config now upload send [] o = o
process_targets config now upload send (t ∷ targets) o =
    process_targets config now upload send targets (process_target config now upload send t o)

-- `process_whatsapp_deliveries`
unfoldable pub process_whatsapp_deliveries :
    Config
    → ℕ
    → (ℕ → ℕ)
    → (ℕ → Bool)
    → (Delivery → Sale → Upload)
    → (Delivery → Sale → ℕ → Answer)
    → Outbox
    → Outbox
process_whatsapp_deliveries config now token locked upload send o =
    let (targets, after) = claim_delivery_jobs config now token locked o in
    if not (is_enabled config) then o else process_targets config now upload send targets after
