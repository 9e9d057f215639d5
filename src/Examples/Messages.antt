-- ===== src/Examples/Messages.antt =====
-- An e-mail through its claims, and a request for a WhatsApp delivery that is made twice.
use aurum_pos.Prelude.{
  find, some_eq, ℕ, ◌+◌, ◌≡◌, refl, Bool, true, false, ◌&&◌, Option, none, some, [], ◌∷◌, sum, leb,
  ◌==◌, if◌then◌else◌, ok, err, arith,
}
use aurum_pos.Text.{
  text, strip, lstrip, rstrip, cons_stripped, is_space, normalize, lower, lower_char,
}
use aurum_pos.Tables.Sales.{Sale, key_reused, ready}
use aurum_pos.Sales.Checkout.{new_sale}
use aurum_pos.Subscriptions.{resolve_entitlement, is_current, first_row, comes_before}
use aurum_pos.Jobs.Emails.{
  email_is_due, EmailStatus, EmailOutbox, Mail, queue_email, claim_email_batch, load_email_message,
  finish_email, deliver_email,
}
use aurum_pos.Jobs.Queue.{claim, due_rows}
use aurum_pos.Jobs.Emails.Once.{finish_email-once}
use aurum_pos.WhatsApp.{Delivery, Outbox, Config}
use aurum_pos.WhatsApp.Phone.{
  is_separator, complete_number, check_number, recipient_hmac, normalize_whatsapp_phone,
}
use aurum_pos.WhatsApp.Phone.Normal.{IsE164, normalize_whatsapp_phone-IsE164}
use aurum_pos.WhatsApp.Requests.{
  new_delivery, require_delivery_available, queue_for_key, check_latest, add_delivery,
  template_status, is_enabled, is_pro_organization, requested_delivery, queue_invoice_delivery,
}
use aurum_pos.WhatsApp.Requests.Once.{queue_invoice_delivery-once}
use aurum_pos.Examples.{store, settings}
use aurum_pos.Examples.Sales.{request}

abbrev pub tokens : ℕ → ℕ → ℕ
tokens n k = n

abbrev pub unlocked : ℕ → Bool
unlocked k = false

abbrev mail : Mail
mail =
    queue_email 5 600 (text "a@example.com") (text "Hello") (text "Text") none
      (record { outbox = []; handed_over = [] })

abbrev claimed_mail : Mail
claimed_mail = (claim_email_batch 6 (tokens 1) unlocked mail).1

abbrev refused : EmailOutbox → Option ℕ
refused m = some 450

abbrev claimed_row : EmailOutbox
claimed_row = record {
  id = 600;
  recipient = text "a@example.com";
  subject = text "Hello";
  text_body = text "Text";
  html_body = none;
  status = EmailStatus.processing;
  attempts = 0;
  next_attempt_at = none;
  claimed_at = some 6;
  claim_token = some 1;
  last_error_code = none;
  sent_at = none;
  created_at = 5;
}

held : load_email_message 600 (some 1) claimed_mail ≡ some (claimed_row)
unfolding load_email_message claim_email_batch queue_email claim due_rows email_is_due
held = refl

finish_email-once_example :
    let after = finish_email 3 8 600 (some 1) (some 450) claimed_mail in
    (find (λ x. x.id == 600 && some_eq x.claim_token 1) after.outbox ≡ none)
    × (finish_email 3 9 600 (some 1) none after ≡ after)
    × (deliver_email 3 9 refused 600 (some 1) after ≡ after)
finish_email-once_example =
    finish_email-once 3 8 600 1 (some 450) claimed_mail claimed_row 3 9 none refused held

abbrev ascii_digit : ℕ → Bool
ascii_digit c = leb b'0' c && leb c b'9'

ascii_digit-is_separator : (c : ℕ) → ascii_digit c ≡ true → is_separator c ≡ false
unfolding is_separator is_space
ascii_digit-is_separator c h = ground arith

normalized : normalize_whatsapp_phone ascii_digit (text " 98765-43210") ≡ ok (text "+919876543210")
unfolding normalize_whatsapp_phone complete_number check_number is_separator is_space strip lstrip
    rstrip cons_stripped
normalized = refl

normalize_whatsapp_phone-IsE164_example :
    IsE164 ascii_digit (text "+919876543210")
    × (normalize_whatsapp_phone ascii_digit (text "+919876543210") ≡ ok (text "+919876543210"))
normalize_whatsapp_phone-IsE164_example =
    normalize_whatsapp_phone-IsE164 ascii_digit ascii_digit-is_separator refl (text " 98765-43210")
      normalized

abbrev pub config : Config
config = record {
  base = settings;
  enabled = true;
  template_status = text "Approved";
  template_name = text "invoice";
  hmac_key = some 9;
  digest = λ key s. key + sum s;
  is_digit = ascii_digit;
  batch_size = 10;
  max_attempts = 3;
}

abbrev pub sale : Sale
sale =
    record (new_sale 5 300 10 (record { prefix = []; year = 2026; sequence = 4 }) 72_100 request) {
      s3_object_key = some 500;
      invoice_pdf_status = ready;
    }

abbrev pub outbox : Outbox
outbox = record {
  db = record store { sales = sale ∷ [] };
  deliveries = [];
  jobs = [];
  suppressions = [];
  template_status = none;
  handed_over = [];
}

abbrev pub delivery : Delivery
delivery =
    new_delivery 6 700 sale 10 7 (text "+919876543210") (9 + sum (text "+919876543210")) (text "k")

abbrev pub queued : Outbox
queued = add_delivery 6 delivery outbox

abbrev again : Delivery
again =
    new_delivery 8 701 sale 10 8 (text "+919876543210") (9 + sum (text "+919876543210")) (text "k")

first_request :
    queue_invoice_delivery config 6 700 sale 1 10 7
      (text "98765 43210")
      (text "k")
      true
      false
      outbox
    ≡ ok (delivery, queued)
unfolding queue_invoice_delivery requested_delivery require_delivery_available is_enabled
    is_pro_organization template_status queue_for_key check_latest normalize_whatsapp_phone
    complete_number check_number recipient_hmac is_separator is_space strip lstrip rstrip
    cons_stripped normalize lower lower_char resolve_entitlement is_current first_row comes_before
first_request = refl

second_request :
    requested_delivery config 8 701 sale 1 10 8 (text "+91 98765 43210") (text "k") true queued
    ≡ ok again
unfolding requested_delivery require_delivery_available is_enabled is_pro_organization
    template_status add_delivery normalize_whatsapp_phone complete_number check_number
    recipient_hmac is_separator is_space strip lstrip rstrip cons_stripped normalize lower
    lower_char resolve_entitlement is_current first_row comes_before
second_request = refl

queue_invoice_delivery-once_example :
    queue_invoice_delivery config 8 701 sale 1 10 8
      (text "+91 98765 43210")
      (text "k")
      true
      false
      queued
    ≡ (if delivery.sale_id == again.sale_id && delivery.recipient_hmac == again.recipient_hmac
        then ok (delivery, queued)
        else err key_reused)
queue_invoice_delivery-once_example =
    queue_invoice_delivery-once config 6 700 sale 1 10 7 (text "98765 43210") (text "k") true false
      outbox delivery queued 8 701 sale 1 8 (text "+91 98765 43210") true false again first_request
      second_request
