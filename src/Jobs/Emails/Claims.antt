-- ===== src/Jobs/Emails/Claims.antt =====
-- A message is claimed by one worker at a time.
use aurum_pos.Prelude.{
  ℕ, ◌+◌, ◌≤◌, ◌≡◌, refl, ap, Bool, false, List, [], ◌∷◌, map, mem, length, All, All-of_map,
  length-map, arith,
}
use aurum_pos.Jobs.Queue.{IsLeasing, ids, claim}
use aurum_pos.Jobs.Queue.Laws.{claim-exclusive}
use aurum_pos.Jobs.Emails.{
  EmailOutbox, EmailClaim, Mail, email_lease, email_is_due, claimed, email_queue, claim_of,
  claim_email_batch,
}

claimed-not_due :
    (now later token : ℕ) (m : EmailOutbox)
    → later ≤ now + email_lease
    → email_is_due later (claimed now token m) ≡ false
unfolding email_is_due
claimed-not_due now later token m h = ground arith

email_queue-IsLeasing : IsLeasing email_queue
email_queue-IsLeasing = record {
  id_kept = λ now token m. refl;
  token_kept = λ now token m. refl;
  not_due = λ now later token m h. claimed-not_due now later token m h;
}

abbrev pub outbox_ids : List EmailClaim → List ℕ
outbox_ids = map (λ c. c.outbox_id)

outbox_ids-claim_of :
    (token : ℕ → ℕ) (messages : List EmailOutbox)
    → outbox_ids (map (claim_of token) messages) ≡ ids email_queue messages
outbox_ids-claim_of token [] = refl
outbox_ids-claim_of token (m ∷ messages) = ap (λ k. m.id ∷ k) (outbox_ids-claim_of token messages)

-- A claim takes at most twenty messages, none of them locked by another transaction; until ten
-- minutes after it no other claim takes any of them.
pub claim_email_batch-exclusive :
    (now later : ℕ) (token token' : ℕ → ℕ) (locked locked' : ℕ → Bool) (mail : Mail)
    → later ≤ now + email_lease
    → let (claims, after) = claim_email_batch now token locked mail in
      (length claims ≤ 20)
      × All (λ c. locked c.outbox_id ≡ false) claims
      × All
          (λ c. mem c.outbox_id (outbox_ids claims) ≡ false)
          (claim_email_batch later token' locked' after).0
unfolding claim_email_batch
claim_email_batch-exclusive now later token token' locked locked' mail h =
    let (messages, table) = claim email_queue 20 now token locked mail.outbox in
    let again = (claim email_queue 20 later token' locked' table).0 in
    let (few, unlocked, others) =
      claim-exclusive email_queue email_queue-IsLeasing 20 now later token token' locked locked'
        mail.outbox h in
    (
      rw (length-map (claim_of token) messages) few,
      All-of_map (λ c. locked c.outbox_id ≡ false) (claim_of token) messages unlocked,
      rw (outbox_ids-claim_of token messages) (
          All-of_map (λ c. mem c.outbox_id (ids email_queue messages) ≡ false) (claim_of token')
            again others),
    )
