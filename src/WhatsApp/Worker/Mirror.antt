-- ===== src/WhatsApp/Worker/Mirror.antt =====
-- What finishing a delivery leaves in its job and in its row.
use aurum_pos.Prelude.{
  ℕ, ◌+◌, ◌<◌, ltb, ltb→lt, ◌≡◌, ◌⊎◌, refl, ap, ◌∙◌, Bool, true, none, some, map_option, find,
  find-update, find-stricter, find-holds, ◌==◌, if◌then◌else◌, Bool-cases, inl, inr, arith,
}
use aurum_pos.WhatsApp.{pending, Delivery, DeliveryJob, Outbox, Config, is_delivery}
use aurum_pos.WhatsApp.Worker.{
  WhatsAppTarget, Finish, holds_target, finished_job, finished_delivery, finish_job,
  finish_delivery,
}

abbrev pub is_job : ℕ → DeliveryJob → Bool
is_job id j = j.delivery_id == id

holds_target-is_job :
    (t : WhatsAppTarget) (j : DeliveryJob) → holds_target t j ≡ true → is_job t.delivery_id j ≡ true
holds_target-is_job t j h = ground arith

module _ (config : Config) (now : ℕ) (t : WhatsAppTarget) (f : Finish) where
  finish_delivery-held :
      (o : Outbox) (j : DeliveryJob)
      → find (holds_target t) o.jobs ≡ some j
      → finish_delivery config now t f o ≡ finish_job config now t f (some j) o
  unfolding finish_delivery
  finish_delivery-held o j e = ap (λ found. finish_job config now t f found o) e

  finish_job-rows :
      (o : Outbox) (j : DeliveryJob) (d : Delivery)
      → find (is_job t.delivery_id) o.jobs ≡ some j
      → holds_target t j ≡ true
      → find (is_delivery t.delivery_id t.shop_id) o.deliveries ≡ some d
      → let after = finish_job config now t f (some j) o in
        (find (is_job t.delivery_id) after.jobs ≡ some (finished_job config now f j))
        × (find (is_delivery t.delivery_id t.shop_id) after.deliveries
            ≡ some (finished_delivery now (finished_job config now f j) d))
  unfolding finish_job finished_job finished_delivery
  finish_job-rows o j d found held row = (
    find-update (holds_target t) (is_job t.delivery_id) (finished_job config now f) o.jobs
          (λ x h. refl)
        ∙ ap (map_option (λ x. if holds_target t x then finished_job config now f x else x)) found
        ∙ rw held refl,
    find-update (is_delivery t.delivery_id t.shop_id) (is_delivery t.delivery_id t.shop_id)
          (finished_delivery now (finished_job config now f j)) o.deliveries (λ x h. refl)
        ∙ ap
            (map_option (λ x.
              if is_delivery t.delivery_id t.shop_id x
              then finished_delivery now (finished_job config now f j) x
              else x))
            row
        ∙ rw (find-holds (is_delivery t.delivery_id t.shop_id) o.deliveries d row) refl,
  )

  finished_job-status :
      (j : DeliveryJob)
      → ((f.retryable ≡ true)
          × (j.attempts + 1 < config.max_attempts)
          × ((finished_job config now f j).status ≡ pending))
        ⊎ ((finished_job config now f j).status ≡ f.status)
  unfolding finished_job
  finished_job-status j = elim (Bool-cases f.retryable) [
    | inl may ↦ elim (Bool-cases (ltb (j.attempts + 1) config.max_attempts)) [
      | inl left ↦ inl (may, ltb→lt (j.attempts + 1) config.max_attempts left, rw (may, left) refl)
      | inr spent ↦ inr (rw (may, spent) refl)
    ]
    | inr final ↦ inr (rw final refl)
  ]

  -- Finishing a delivery whose job holds the target's lease: the job counts one more attempt and loses
  -- the lease; it waits again only after a retryable error with attempts left and takes the status it
  -- is finished with otherwise. The delivery takes over the status, the attempts, the time and the
  -- message id of the job, whatever its own status was.
  pub finish_delivery-mirrors :
      (o : Outbox) (j : DeliveryJob) (d : Delivery)
      → find (is_job t.delivery_id) o.jobs ≡ some j
      → holds_target t j ≡ true
      → find (is_delivery t.delivery_id t.shop_id) o.deliveries ≡ some d
      → let after = finish_delivery config now t f o in
        (j' : DeliveryJob) × (d' : Delivery) × (find (is_job t.delivery_id) after.jobs ≡ some j')
        × (find (is_delivery t.delivery_id t.shop_id) after.deliveries ≡ some d')
        × (j'.attempts ≡ j.attempts + 1)
        × (j'.lease_token ≡ none)
        × (((f.retryable ≡ true) × (j'.attempts < config.max_attempts) × (j'.status ≡ pending))
            ⊎ (j'.status ≡ f.status))
        × (d'.status ≡ j'.status)
        × (d'.attempts ≡ j'.attempts)
        × (d'.next_attempt_at ≡ j'.next_attempt_at)
        × (d'.meta_message_id ≡ j'.meta_message_id)
  unfolding finished_job finished_delivery
  finish_delivery-mirrors o j d found held row =
      let taken =
        find-stricter (is_job t.delivery_id) (holds_target t) o.jobs j (holds_target-is_job t) found
          held in
      let (job_row, delivery_row) = finish_job-rows o j d found held row in
      let same = finish_delivery-held o j taken in
      (
        finished_job config now f j,
        finished_delivery now (finished_job config now f j) d,
        ap (λ x. find (is_job t.delivery_id) x.jobs) same ∙ job_row,
        ap (λ x. find (is_delivery t.delivery_id t.shop_id) x.deliveries) same ∙ delivery_row,
        refl,
        refl,
        finished_job-status j,
        refl,
        refl,
        refl,
        refl,
      )
