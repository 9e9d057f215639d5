-- ===== src/Jobs/Emails/Once.antt =====
-- What is left of a claim when its message has been finished.
use aurum_pos.Prelude.{
  ℕ, ◌≡◌, ap, true, false, ◌&&◌, ◌==◌, Option, none, some, some_eq, some-injective, subst, find,
  arith, find-updated_none, Bool-cases, inl, inr,
}
use aurum_pos.Jobs.Emails.{
  EmailOutbox, Mail, is_processing, holds_claim, if_processing, load_email_message, finished,
  finish_message, finish_email, deliver_message, deliver_email,
}

-- a finished message has no claim
finished-holds_claim :
    (max_attempts now : ℕ) (error_code : Option ℕ) (outbox_id token : ℕ) (m : EmailOutbox)
    → holds_claim outbox_id (some token) (finished max_attempts now error_code m) ≡ false
unfolding finished
finished-holds_claim max_attempts now none outbox_id token m = ground arith
finished-holds_claim max_attempts now (some code) outbox_id token m = ground arith

if_processing-inv :
    (o : Option EmailOutbox) (m : EmailOutbox)
    → if_processing o ≡ some m
    → (o ≡ some m) × (is_processing m.status ≡ true)
if_processing-inv none m e = ground arith
if_processing-inv (some n) m e = elim (Bool-cases (is_processing n.status)) [
  | inl running ↦
      let same : n ≡ m = some-injective n m (rw running at e) in
      (ap some same, subst (λ x. is_processing x.status ≡ true) same running)
  | inr stopped ↦ absurd (cc (rw stopped at e))
]

module _ (outbox_id token : ℕ) where
  -- no row has the claim
  abbrev IsFree : Mail → Type 0
  IsFree mail = find (holds_claim outbox_id (some token)) mail.outbox ≡ none

  finish_email-IsFree :
      (max_attempts now : ℕ) (error_code : Option ℕ) (mail : Mail) (m : EmailOutbox)
      → load_email_message outbox_id (some token) mail ≡ some m
      → IsFree (finish_email max_attempts now outbox_id (some token) error_code mail)
  unfolding finish_email finish_message load_email_message
  finish_email-IsFree max_attempts now error_code mail m loaded =
      let (found, running) =
        if_processing-inv (find (holds_claim outbox_id (some token)) mail.outbox) m loaded in
      rw (found, running)
        (find-updated_none (holds_claim outbox_id (some token))
          (λ _. finished max_attempts now error_code m) mail.outbox
          (λ _. finished-holds_claim max_attempts now error_code outbox_id token m))

  finish_email-free :
      (max_attempts now : ℕ) (error_code : Option ℕ) (mail : Mail)
      → IsFree mail
      → finish_email max_attempts now outbox_id (some token) error_code mail ≡ mail
  unfolding finish_email finish_message
  finish_email-free max_attempts now error_code mail free =
      ap (λ o. finish_message max_attempts now outbox_id (some token) error_code o mail) free

  deliver_email-free :
      (max_attempts now : ℕ) (send : EmailOutbox → Option ℕ) (mail : Mail)
      → IsFree mail
      → deliver_email max_attempts now send outbox_id (some token) mail ≡ mail
  unfolding deliver_email deliver_message load_email_message
  deliver_email-free max_attempts now send mail free =
      ap (λ o. deliver_message max_attempts now send (if_processing o) mail) free

-- Load, call and finish of a delivery are separate transactions. When the finish for a claim that still
-- holds has been made, whatever the mail service answered, no row has the claim any more: a second
-- finish for it changes nothing, and a task with the claim that loads its message only then hands
-- nothing over and changes nothing.
pub finish_email-once :
    (max_attempts now outbox_id token : ℕ) (error_code : Option ℕ) (mail : Mail) (m : EmailOutbox)
    (max_attempts' later : ℕ) (error_code' : Option ℕ) (send : EmailOutbox → Option ℕ)
    → load_email_message outbox_id (some token) mail ≡ some m
    → let after = finish_email max_attempts now outbox_id (some token) error_code mail in
      (find (λ x. x.id == outbox_id && some_eq x.claim_token token) after.outbox ≡ none)
      × (finish_email max_attempts' later outbox_id (some token) error_code' after ≡ after)
      × (deliver_email max_attempts' later send outbox_id (some token) after ≡ after)
finish_email-once max_attempts now outbox_id token error_code mail m max_attempts' later error_code'
      send loaded =
    let after = finish_email max_attempts now outbox_id (some token) error_code mail in
    let free = finish_email-IsFree outbox_id token max_attempts now error_code mail m loaded in
    (
      free,
      finish_email-free outbox_id token max_attempts' later error_code' after free,
      deliver_email-free outbox_id token max_attempts' later send after free,
    )
