-- ===== src/Examples/Purchases.antt =====
-- A purchase on Google Play that is applied, renewed and reconciled.
use aurum_pos.Prelude.{
  ℕ, All, ◌≡◌, refl, true, none, some, [], ◌∷◌, find, ◌==◌, if◌then◌else◌, ok, err, arith,
}
use aurum_pos.Text.{text}
use aurum_pos.Tables.Access.{Subscription, pro}
use aurum_pos.Tables.Sales.{token_used}
use aurum_pos.Subscriptions.{resolve_entitlement}
use aurum_pos.Billing.{
  new_play, is_entitled, is_entitled_state, expiry_of, add_purchase, renew_purchase, apply_found,
  apply_play_purchase,
}
use aurum_pos.Tables.Billing.{Purchase, Billing}
use aurum_pos.Billing.Owner.{apply_play_purchase-owner}
use aurum_pos.Billing.Entitled.{apply_play_purchase-pro}
use aurum_pos.Billing.Reconcile.{PlayTarget, leased_play, holds_play, reconcile_play_target}
use aurum_pos.Billing.Reconcile.Released.{
  has_lease_end, has_lease_token, reconcile_play_target-released,
}
use aurum_pos.Examples.{store, settings}

abbrev purchase : Purchase
purchase = record {
  line_items =
      record {
        product_id = text "pro";
        expiry_time = some 90;
        base_plan_id = none;
        auto_renew_enabled = true;
      }
      ∷ [];
  profile_id = some 1;
  subscription_state = some (text "SUBSCRIPTION_STATE_ACTIVE");
  start_time = some 5;
  acknowledgement_pending = true;
}

abbrev free : Billing
free = record { db = record store { subscriptions = [] }; plays = [] }

abbrev bought : Subscription × Billing
bought = add_purchase 6 60 1 77 (text "pro") purchase free

applied : apply_play_purchase 6 60 1 77 (text "pro") purchase free ≡ ok bought
unfolding apply_play_purchase apply_found
applied = refl

apply_play_purchase-owner_example :
    (bought.0.organization_id ≡ 1)
    × (apply_play_purchase 7 61 2 77 (text "pro") purchase bought.1 ≡ (
        if bought.0.organization_id == 2
        then ok (renew_purchase 7 77 purchase bought.0 bought.1)
        else err token_used))
apply_play_purchase-owner_example =
    apply_play_purchase-owner 6 60 1 77 (text "pro") purchase free bought.0 bought.1 7 61 2
      (text "pro") purchase refl applied

entitled : is_entitled 6 purchase ≡ true
unfolding is_entitled is_entitled_state expiry_of
entitled = refl

started : bought.0.starts_at ≡ 5
unfolding add_purchase
started = refl

apply_play_purchase-pro_example : (resolve_entitlement settings 6 bought.1.db 1).plan ≡ pro
unfolding add_purchase
apply_play_purchase-pro_example =
    apply_play_purchase-pro 6 60 1 77 (text "pro") purchase settings free bought.0 bought.1 refl
      refl applied entitled tt refl (omega arith)

abbrev target : PlayTarget
target = record {
  subscription_id = 60;
  organization_id = 1;
  purchase_token = 77;
  product_id = text "pro";
  lease_token = 3;
}

abbrev leased_purchase : Billing
leased_purchase = record (bought.1) {
  plays = leased_play 8 3 (new_play 6 60 1 77 (text "pro")) ∷ [];
}

abbrev hash : ℕ → ℕ
hash n = n

reconcile_play_target-released_example :
    let after =
      reconcile_play_target hash
        (text "pro")
        9
        target
        (text "Timeout")
        (some purchase)
        (some (text "Timeout"))
        leased_purchase in
    (find (holds_play target) after.plays ≡ none)
    × All (λ play. has_lease_end play ≡ has_lease_token play) after.plays
    × (reconcile_play_target hash (text "pro") 9 target (text "Timeout") none none after ≡ after)
reconcile_play_target-released_example =
    reconcile_play_target-released 9 target hash (text "pro") (text "Timeout") (some purchase)
      (some (text "Timeout")) (text "Timeout") none none leased_purchase (refl, tt)
