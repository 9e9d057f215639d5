-- ===== src/Billing/Reconcile.antt =====
-- The hourly reconciliation with Google Play: app/worker.py. Google's answers to the query and to the
-- acknowledgement are arguments; the latter is `none`, or the name of its error.
pub mod Paired
pub mod Released
use aurum_pos.Prelude.{
  ℕ, ◌+◌, ◌-◌, Bool, true, false, not, ◌&&◌, ◌||◌, Option, none, some, none_or_le, some_eq, List,
  [], ◌∷◌, map, find, update, ◌==◌, if◌then◌else◌, Outcome, ok, err,
}
use aurum_pos.Text.{Text}
use aurum_pos.Tables.Access.{Subscription, minutes}
use aurum_pos.Tables.Sales.{Fault}
use aurum_pos.Jobs.Queue.{LeasedQueue, claim}
use aurum_pos.Billing.{fetch_play_purchase, apply_play_purchase, record_play_acknowledgement}
use aurum_pos.Tables.Billing.{PlaySubscription, Purchase, Billing}

pub record PlayTarget : Type 0 where
  pub subscription_id : ℕ
  pub organization_id : ℕ
  pub purchase_token : ℕ
  pub product_id : Text
  pub lease_token : ℕ

abbrev pub reconciliation_lease : ℕ
reconciliation_lease = minutes 10

unfoldable pub play_is_due : ℕ → PlaySubscription → Bool
play_is_due now play =
    (none_or_le play.next_verification_at now
      || play.acknowledgement_pending && none_or_le play.acknowledgement_next_attempt_at now)
    && none_or_le play.verification_lease_until now

abbrev pub leased_play : ℕ → ℕ → PlaySubscription → PlaySubscription
leased_play now token play = record play {
  verification_lease_until = some (now + reconciliation_lease);
  verification_lease_token = some token;
}

-- `NULLS FIRST`
abbrev pub nulls_first : Option ℕ → ℕ
nulls_first none = 0
nulls_first (some t) = t + 1

-- the row is due again when its lease ends, so the lease holds for one microsecond less
abbrev pub play_queue : LeasedQueue PlaySubscription
play_queue = record {
  id_of = λ play. play.subscription_id;
  order_key = λ play. nulls_first play.next_verification_at;
  is_due = play_is_due;
  lease = leased_play;
  token_of = λ play. play.verification_lease_token;
  duration = reconciliation_lease - 1;
}

abbrev pub play_target : (ℕ → ℕ) → PlaySubscription → PlayTarget
play_target token play = record {
  subscription_id = play.subscription_id;
  organization_id = play.organization_id;
  purchase_token = play.purchase_token_hash;
  product_id = play.product_id;
  lease_token = token play.subscription_id;
}

-- `_claim_play_reconciliation`
unfoldable pub claim_play_reconciliation :
    ℕ → ℕ → (ℕ → ℕ) → (ℕ → Bool) → Billing → List PlayTarget × Billing
claim_play_reconciliation batch_size now token locked b =
    let (rows, table) = claim play_queue batch_size now token locked b.plays in
    (map (play_target token) rows, record b { plays = table })

abbrev pub holds_play : PlayTarget → PlaySubscription → Bool
holds_play t play =
    play.subscription_id == t.subscription_id && some_eq play.verification_lease_token t.lease_token

abbrev pub released : PlaySubscription → PlaySubscription
released play = record play { verification_lease_until = none; verification_lease_token = none }

abbrev pub release : PlayTarget → (PlaySubscription → PlaySubscription) → Billing → Billing
release t f b = record b { plays = update (holds_play t) (λ play. released (f play)) b.plays }

abbrev pub due_at : ℕ → PlaySubscription → PlaySubscription
due_at time play = record play { next_verification_at = some time }

abbrev pub acknowledge : ℕ → PlayTarget → Bool → Option Text → Billing → Billing
acknowledge now t needed error b =
    if needed then record_play_acknowledgement now t.purchase_token error b else b

-- the second transaction
unfoldable pub complete : ℕ → PlayTarget → Bool → Option PlaySubscription → Billing → Billing
complete now t needed none b = b
complete now t needed (some _) b = release t (λ play. play) (acknowledge now t needed none b)

-- the transaction of the exception handler
unfoldable pub give_up : ℕ → PlayTarget → Bool → Text → Option PlaySubscription → Billing → Billing
give_up now t needed error none b = b
give_up now t needed error (some _) b =
    release t (due_at (now + minutes 10)) (acknowledge now t needed (some error) b)

unfoldable pub finish_target : ℕ → PlayTarget → Bool → Option Text → Billing → Billing
finish_target now t needed none b = complete now t needed (find (holds_play t) b.plays) b
finish_target now t needed (some error) b =
    give_up now t needed error (find (holds_play t) b.plays) b

-- what follows the application of the purchase, whose rows are written only if it succeeds
unfoldable pub after_application :
    ℕ
    → PlayTarget
    → Bool
    → Text
    → Option Text
    → Outcome Fault (Subscription × Billing)
    → Billing
    → Billing
after_application now t needed error acknowledgement (err _) b =
    finish_target now t false (some error) b
after_application now t needed error acknowledgement (ok (s, after)) b =
    let verified = record after {
      plays = update (holds_play t) (due_at (now + minutes 60)) after.plays;
    } in
    if needed
    then finish_target now t true acknowledgement verified
    else finish_target now t false none verified

-- the first transaction, if the lease still holds
unfoldable pub verify_target :
    ℕ → PlayTarget → Text → Option Text → Purchase → Option PlaySubscription → Billing → Billing
verify_target now t error acknowledgement p none b = b
verify_target now t error acknowledgement p (some _) b =
    after_application now t p.acknowledgement_pending error acknowledgement
      (apply_play_purchase now t.subscription_id t.organization_id t.purchase_token t.product_id p
        b)
      b

unfoldable pub after_fetch :
    ℕ → PlayTarget → Text → Option Text → Outcome Fault Purchase → Billing → Billing
after_fetch now t error acknowledgement (err _) b = finish_target now t false (some error) b
after_fetch now t error acknowledgement (ok p) b =
    verify_target now t error acknowledgement p (find (holds_play t) b.plays) b

-- `_reconcile_play_target`; `error` names whatever the query or the application raises
unfoldable pub reconcile_play_target :
    (ℕ → ℕ) → Text → ℕ → PlayTarget → Text → Option Purchase → Option Text → Billing → Billing
reconcile_play_target hash_token our_product now t error answer acknowledgement b =
    after_fetch now t error acknowledgement
      (fetch_play_purchase hash_token our_product t.organization_id t.product_id answer) b

-- the targets are reconciled by tasks that each change the rows of their own target
unfoldable pub reconcile_targets :
    (ℕ → ℕ)
    → Text
    → ℕ
    → (PlayTarget → Text × Option Purchase × Option Text)
    → List PlayTarget
    → Billing
    → Billing
reconcile_targets hash_token our_product now google [] b = b
reconcile_targets hash_token our_product now google (t ∷ targets) b =
    let (error, answer, acknowledgement) = google t in
    reconcile_targets hash_token our_product now google targets
      (reconcile_play_target hash_token our_product now t error answer acknowledgement b)

-- `reconcile_play_subscriptions`
unfoldable pub reconcile_play_subscriptions :
    (ℕ → ℕ)
    → Text
    → ℕ
    → ℕ
    → (ℕ → ℕ)
    → (ℕ → Bool)
    → (PlayTarget → Text × Option Purchase × Option Text)
    → Billing
    → Billing
reconcile_play_subscriptions hash_token our_product batch_size now token locked google b =
    let (targets, after) = claim_play_reconciliation batch_size now token locked b in
    reconcile_targets hash_token our_product now google targets after
