-- ===== src/WhatsApp/Worker/Claims.antt =====
-- A delivery is claimed by one worker at a time.
use aurum_pos.Prelude.{
  ℕ, ◌+◌, ◌≤◌, ◌≡◌, refl, ap, Bool, false, List, [], ◌∷◌, map, mem, length, All, All-of_map,
  length-map, arith,
}
use aurum_pos.Jobs.Queue.{IsLeasing, ids, claim}
use aurum_pos.Jobs.Queue.Laws.{claim-exclusive}
use aurum_pos.WhatsApp.{DeliveryJob, Outbox, Config}
use aurum_pos.WhatsApp.Worker.{
  WhatsAppTarget, whatsapp_lease, delivery_is_due, leased_delivery, delivery_queue, delivery_target,
  claim_delivery_jobs,
}

leased_delivery-not_due :
    (now later token : ℕ) (j : DeliveryJob)
    → later ≤ now + whatsapp_lease
    → delivery_is_due later (leased_delivery now token j) ≡ false
unfolding delivery_is_due
leased_delivery-not_due now later token j h = ground arith

delivery_queue-IsLeasing : IsLeasing delivery_queue
delivery_queue-IsLeasing = record {
  id_kept = λ now token j. refl;
  token_kept = λ now token j. refl;
  not_due = λ now later token j h. leased_delivery-not_due now later token j h;
}

abbrev pub delivery_ids : List WhatsAppTarget → List ℕ
delivery_ids = map (λ t. t.delivery_id)

delivery_ids-delivery_target :
    (token : ℕ → ℕ) (jobs : List DeliveryJob)
    → delivery_ids (map (delivery_target token) jobs) ≡ ids delivery_queue jobs
delivery_ids-delivery_target token [] = refl
delivery_ids-delivery_target token (j ∷ jobs) =
    ap (λ k. j.delivery_id ∷ k) (delivery_ids-delivery_target token jobs)

-- A claim takes at most a batch of deliveries, none of them locked by another transaction; until ten
-- minutes after it no other claim takes any of them.
pub claim_delivery_jobs-exclusive :
    (config : Config) (now later : ℕ) (token token' : ℕ → ℕ) (locked locked' : ℕ → Bool)
    (o : Outbox)
    → later ≤ now + whatsapp_lease
    → let (targets, after) = claim_delivery_jobs config now token locked o in
      (length targets ≤ config.batch_size)
      × All (λ t. locked t.delivery_id ≡ false) targets
      × All
          (λ t. mem t.delivery_id (delivery_ids targets) ≡ false)
          (claim_delivery_jobs config later token' locked' after).0
unfolding claim_delivery_jobs
claim_delivery_jobs-exclusive config now later token token' locked locked' o h =
    let (jobs, table) = claim delivery_queue config.batch_size now token locked o.jobs in
    let again = (claim delivery_queue config.batch_size later token' locked' table).0 in
    let (few, unlocked, others) =
      claim-exclusive delivery_queue delivery_queue-IsLeasing config.batch_size now later token
        token' locked locked' o.jobs h in
    (
      rw (length-map (delivery_target token) jobs) few,
      All-of_map (λ t. locked t.delivery_id ≡ false) (delivery_target token) jobs unlocked,
      rw (delivery_ids-delivery_target token jobs) (
          All-of_map (λ t. mem t.delivery_id (ids delivery_queue jobs) ≡ false)
            (delivery_target token') again others),
    )
