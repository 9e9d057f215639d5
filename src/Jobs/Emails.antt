-- ===== src/Jobs/Emails.antt =====
-- The e-mail queue: app/jobs/emails.py, app/modules/notifications/models.py and service.py. What the
-- mail service answers to a message is an argument: `none`, or the code of its error. The messages
-- that were handed to it are kept in the order of the calls.
pub mod Claims
pub mod Once
use aurum_pos.Prelude.{
  ℕ, ◌+◌, Bool, true, false, not, ◌&&◌, ◌||◌, Option, none, some, is_none, is_some, none_or_le,
  some_lt, some_eq, List, [], ◌∷◌, ◌++◌, map, find, update, leb, ltb, ◌==◌, if◌then◌else◌,
}
use aurum_pos.Text.{Text}
use aurum_pos.Tables.Access.{minutes}
use aurum_pos.Jobs.Queue.{LeasedQueue, claim}
use aurum_pos.Jobs.Retry.{retry_at}

pub data EmailStatus : Type 0 where
  pending processing sent failed : EmailStatus

abbrev pub waits : EmailStatus → Bool
waits pending = true
waits _ = false

abbrev pub is_processing : EmailStatus → Bool
is_processing processing = true
is_processing _ = false

pub record EmailOutbox : Type 0 where
  pub id : ℕ
  pub recipient : Text
  pub subject : Text
  pub text_body : Text
  pub html_body : Option Text
  pub status : EmailStatus
  pub attempts : ℕ
  pub next_attempt_at : Option ℕ
  pub claimed_at : Option ℕ
  pub claim_token : Option ℕ
  pub last_error_code : Option ℕ
  pub sent_at : Option ℕ
  pub created_at : ℕ

pub record EmailClaim : Type 0 where
  pub outbox_id : ℕ
  pub claim_token : ℕ

pub record Mail : Type 0 where
  pub outbox : List EmailOutbox
  pub handed_over : List ℕ

abbrev pub email_lease : ℕ
email_lease = minutes 10

-- `queue_email`
unfoldable pub queue_email : ℕ → ℕ → Text → Text → Text → Option Text → Mail → Mail
queue_email now id recipient subject text_body html_body mail =
    let message : EmailOutbox = record {
      id = id;
      recipient = recipient;
      subject = subject;
      text_body = text_body;
      html_body = html_body;
      status = pending;
      attempts = 0;
      next_attempt_at = none;
      claimed_at = none;
      claim_token = none;
      last_error_code = none;
      sent_at = none;
      created_at = now;
    } in
    record mail { outbox = mail.outbox ++ (message ∷ []) }

-- `claimed_at < now - lease`
abbrev pub claim_expired : Option ℕ → ℕ → Bool
claim_expired none now = false
claim_expired (some at) now = ltb (at + email_lease) now

unfoldable pub email_is_due : ℕ → EmailOutbox → Bool
email_is_due now m =
    waits m.status && none_or_le m.next_attempt_at now
    || is_processing m.status && claim_expired m.claimed_at now

abbrev pub claimed : ℕ → ℕ → EmailOutbox → EmailOutbox
claimed now token m = record m {
  status = processing;
  claimed_at = some now;
  claim_token = some token;
}

abbrev pub email_queue : LeasedQueue EmailOutbox
email_queue = record {
  id_of = λ m. m.id;
  order_key = λ m. m.created_at;
  is_due = email_is_due;
  lease = claimed;
  token_of = λ m. m.claim_token;
  duration = email_lease;
}

abbrev pub claim_of : (ℕ → ℕ) → EmailOutbox → EmailClaim
claim_of token m = record { outbox_id = m.id; claim_token = token m.id }

-- `_claim_email_batch`
unfoldable pub claim_email_batch : ℕ → (ℕ → ℕ) → (ℕ → Bool) → Mail → List EmailClaim × Mail
claim_email_batch now token locked mail =
    let (messages, table) = claim email_queue 20 now token locked mail.outbox in
    (map (claim_of token) messages, record mail { outbox = table })

-- the row that a task asks for: without a token, whoever has claimed it
abbrev pub is_asked : ℕ → Option ℕ → EmailOutbox → Bool
is_asked outbox_id none m = m.id == outbox_id
is_asked outbox_id (some token) m = m.id == outbox_id && some_eq m.claim_token token

-- `claim_token == claim_token`, where `None` is `IS NULL`
abbrev pub holds_claim : ℕ → Option ℕ → EmailOutbox → Bool
holds_claim outbox_id none m = m.id == outbox_id && is_none m.claim_token
holds_claim outbox_id (some token) m = m.id == outbox_id && some_eq m.claim_token token

abbrev pub if_processing : Option EmailOutbox → Option EmailOutbox
if_processing none = none
if_processing (some m) = if is_processing m.status then some m else none

-- `_load_email_message`
unfoldable pub load_email_message : ℕ → Option ℕ → Mail → Option EmailOutbox
load_email_message outbox_id token mail =
    if_processing (find (is_asked outbox_id token) mail.outbox)

unfoldable pub finished : ℕ → ℕ → Option ℕ → EmailOutbox → EmailOutbox
finished max_attempts now none m = record m {
  status = sent;
  claimed_at = none;
  claim_token = none;
  sent_at = some now;
  last_error_code = none;
}
finished max_attempts now (some code) m =
    let attempts = m.attempts + 1 in
    let gives_up = leb max_attempts attempts in
    record m {
      status = if gives_up then failed else pending;
      claimed_at = none;
      claim_token = none;
      attempts = attempts;
      last_error_code = some code;
      next_attempt_at = if gives_up then none else some (retry_at now attempts);
    }

unfoldable pub finish_message : ℕ → ℕ → ℕ → Option ℕ → Option ℕ → Option EmailOutbox → Mail → Mail
finish_message max_attempts now outbox_id token error_code none mail = mail
finish_message max_attempts now outbox_id token error_code (some m) mail =
    if not (is_processing m.status) then mail else record mail {
      outbox =
          update (holds_claim outbox_id token) (λ _. finished max_attempts now error_code m)
            mail.outbox;
    }

-- `_finish_email`
unfoldable pub finish_email : ℕ → ℕ → ℕ → Option ℕ → Option ℕ → Mail → Mail
finish_email max_attempts now outbox_id token error_code mail =
    finish_message max_attempts now outbox_id token error_code
      (find (holds_claim outbox_id token) mail.outbox) mail

-- the call of the mail service
abbrev pub call_service : EmailOutbox → Mail → Mail
call_service m mail = record mail { handed_over = mail.handed_over ++ (m.id ∷ []) }

-- the steps of a task that follow the load
unfoldable pub deliver_message : ℕ → ℕ → (EmailOutbox → Option ℕ) → Option EmailOutbox → Mail → Mail
deliver_message max_attempts now send none mail = mail
deliver_message max_attempts now send (some m) mail =
    finish_email max_attempts now m.id m.claim_token (send m) (call_service m mail)

-- `deliver_email`: load, call and finish are three steps, here with no other task's step between them
unfoldable pub deliver_email : ℕ → ℕ → (EmailOutbox → Option ℕ) → ℕ → Option ℕ → Mail → Mail
deliver_email max_attempts now send outbox_id token mail =
    deliver_message max_attempts now send (load_email_message outbox_id token mail) mail

-- the claims are delivered by tasks that each change the row of their own claim
unfoldable pub deliver_all : ℕ → ℕ → (EmailOutbox → Option ℕ) → List EmailClaim → Mail → Mail
deliver_all max_attempts now send [] mail = mail
deliver_all max_attempts now send (c ∷ claims) mail =
    deliver_all max_attempts now send claims
      (deliver_email max_attempts now send c.outbox_id (some c.claim_token) mail)

-- `process_email_batch`
unfoldable pub process_email_batch :
    ℕ → ℕ → (ℕ → ℕ) → (ℕ → Bool) → (EmailOutbox → Option ℕ) → Mail → Mail
process_email_batch max_attempts now token locked send mail =
    let (claims, after) = claim_email_batch now token locked mail in
    deliver_all max_attempts now send claims after
