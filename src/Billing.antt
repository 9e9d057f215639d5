-- ===== src/Billing.antt =====
-- Subscriptions bought on Google Play: app/modules/billing/service.py and the tables of
-- app/modules/subscriptions/models.py. A purchase token stands for its digest, its encryption is left
-- out; what Google answers is an argument.
pub mod Owner
pub mod Entitled
pub mod Reconcile
use aurum_pos.Tables.Billing.{Billing, LineItem, PlaySubscription, Purchase}
use aurum_pos.Prelude.{
  ℕ, ◌+◌, ◌^◌, min, Bool, true, false, not, ◌&&◌, ◌||◌, Option, none, some, is_some, or_default,
  List, [], ◌∷◌, ◌++◌, find, update, any, ltb, ◌==◌, if◌then◌else◌, Outcome, ok, err, ◌>>=◌, ◌>>◌,
  raise_if,
}
use aurum_pos.Text.{Text, text, ◌=ᵗ◌}
use aurum_pos.Tables.Access.{
  Subscription, SubscriptionStatus, active, expired, Source, pro, minutes,
}
use aurum_pos.Tables.Sales.{
  Store, Fault, unknown_product, product_mismatch, purchase_not_linked, token_used,
  play_unavailable,
}

-- `ENTITLED_PLAY_STATES`
unfoldable pub is_entitled_state : Text → Bool
is_entitled_state s =
    (s =ᵗ text "SUBSCRIPTION_STATE_ACTIVE")
    || (s =ᵗ text "SUBSCRIPTION_STATE_IN_GRACE_PERIOD")
    || (s =ᵗ text "SUBSCRIPTION_STATE_CANCELED")

abbrev pub state_of : Purchase → Text
state_of p = or_default p.subscription_state (text "SUBSCRIPTION_STATE_UNSPECIFIED")

-- the later of two times, where a missing one is before every other
abbrev pub later_of : Option ℕ → Option ℕ → Option ℕ
later_of none t = t
later_of (some s) none = some s
later_of (some s) (some t) = some (if ltb s t then t else s)

unfoldable pub expiry_of : List LineItem → Option ℕ
expiry_of [] = none
expiry_of (i ∷ items) = later_of i.expiry_time (expiry_of items)

abbrev pub none_or_after : ℕ → Option ℕ → Bool
none_or_after now none = true
none_or_after now (some t) = ltb now t

unfoldable pub is_entitled : ℕ → Purchase → Bool
is_entitled now p = is_entitled_state (state_of p) && none_or_after now (expiry_of p.line_items)

unfoldable pub base_plan : List LineItem → Option Text
base_plan [] = none
base_plan (i ∷ items) = elim i.base_plan_id [ some b ↦ some b | none ↦ base_plan items ]

-- the columns that every application of a purchase writes
unfoldable pub verified_play : ℕ → Purchase → PlaySubscription → PlaySubscription
verified_play now p play = record play {
  state = state_of p;
  last_verified_at = now;
  base_plan_id = base_plan p.line_items;
  auto_renewing = any (λ i. i.auto_renew_enabled) p.line_items;
  acknowledgement_pending = p.acknowledgement_pending;
  acknowledgement_next_attempt_at = if p.acknowledgement_pending then some now else none;
  acknowledgement_last_error_code =
      if p.acknowledgement_pending then play.acknowledgement_last_error_code else none;
  acknowledged_at =
      if p.acknowledgement_pending || is_some play.acknowledged_at
      then play.acknowledged_at
      else some now;
}

abbrev pub purchase_status : ℕ → Purchase → SubscriptionStatus
purchase_status now p = if is_entitled now p then active else expired

abbrev pub new_subscription : ℕ → ℕ → ℕ → Purchase → Subscription
new_subscription now subscription_id organization_id p = record {
  id = subscription_id;
  organization_id = organization_id;
  source = Source.play;
  plan = pro;
  status = purchase_status now p;
  starts_at = or_default p.start_time now;
  expires_at = expiry_of p.line_items;
  revoked_at = none;
  created_at = now;
}

abbrev pub new_play : ℕ → ℕ → ℕ → ℕ → Text → PlaySubscription
new_play now subscription_id organization_id token product_id = record {
  subscription_id = subscription_id;
  organization_id = organization_id;
  product_id = product_id;
  base_plan_id = none;
  purchase_token_hash = token;
  state = [];
  auto_renewing = false;
  last_verified_at = now;
  next_verification_at = none;
  verification_lease_until = none;
  verification_lease_token = none;
  acknowledgement_pending = false;
  acknowledgement_attempts = 0;
  acknowledgement_next_attempt_at = none;
  acknowledgement_last_error_code = none;
  acknowledged_at = none;
}

abbrev pub has_token : ℕ → PlaySubscription → Bool
has_token token play = play.purchase_token_hash == token

abbrev pub renewed : ℕ → Purchase → Subscription → Subscription
renewed now p s = record s { status = purchase_status now p; expires_at = expiry_of p.line_items }

-- the first application of a purchase
unfoldable pub add_purchase : ℕ → ℕ → ℕ → ℕ → Text → Purchase → Billing → Subscription × Billing
add_purchase now subscription_id organization_id token product_id p b =
    let s = new_subscription now subscription_id organization_id p in
    let play =
      verified_play now p (new_play now subscription_id organization_id token product_id) in
    (
      s,
      record b {
        db = record (b.db) { subscriptions = b.db.subscriptions ++ (s ∷ []) };
        plays = b.plays ++ (play ∷ []);
      },
    )

-- a later application
unfoldable pub renew_purchase : ℕ → ℕ → Purchase → Subscription → Billing → Subscription × Billing
renew_purchase now token p s b = (
  renewed now p s,
  record b {
    db = record (b.db) {
      subscriptions = update (λ x. x.id == s.id) (renewed now p) b.db.subscriptions;
    };
    plays = update (has_token token) (verified_play now p) b.plays;
  },
)

unfoldable pub apply_owned :
    ℕ → ℕ → ℕ → Purchase → Option Subscription → Billing → Outcome Fault (Subscription × Billing)
apply_owned now organization_id token p none b = err token_used
apply_owned now organization_id token p (some s) b =
    raise_if (not (s.organization_id == organization_id)) token_used
    >> ok (renew_purchase now token p s b)

unfoldable pub apply_found :
    ℕ
    → ℕ
    → ℕ
    → ℕ
    → Text
    → Purchase
    → Option PlaySubscription
    → Billing
    → Outcome Fault (Subscription × Billing)
apply_found now subscription_id organization_id token product_id p none b =
    ok (add_purchase now subscription_id organization_id token product_id p b)
apply_found now subscription_id organization_id token product_id p (some play) b =
    apply_owned now organization_id token p
      (find (λ s. s.id == play.subscription_id) b.db.subscriptions) b

-- `apply_play_purchase`, whose other results are the state and the pending flag of the purchase
unfoldable pub apply_play_purchase :
    ℕ → ℕ → ℕ → ℕ → Text → Purchase → Billing → Outcome Fault (Subscription × Billing)
apply_play_purchase now subscription_id organization_id token product_id p b =
    apply_found now subscription_id organization_id token product_id p
      (find (has_token token) b.plays) b

abbrev pub is_profile : ℕ → Option ℕ → Bool
is_profile hash none = false
is_profile hash (some h) = h == hash

-- `fetch_play_purchase`: `answer` is what Google says of the token
unfoldable pub fetch_play_purchase :
    (ℕ → ℕ) → Text → ℕ → Text → Option Purchase → Outcome Fault Purchase
fetch_play_purchase hash_token our_product organization_id product_id none =
    raise_if (not (product_id =ᵗ our_product)) unknown_product >> err play_unavailable
fetch_play_purchase hash_token our_product organization_id product_id (some p) = do
  _ ← raise_if (not (product_id =ᵗ our_product)) unknown_product
  _ ← raise_if (not (any (λ i. i.product_id =ᵗ product_id) p.line_items)) product_mismatch
  _ ← raise_if (not (is_profile (hash_token organization_id) p.profile_id)) purchase_not_linked
  ok p

-- the columns after an attempt to acknowledge, with the error if it failed
unfoldable pub acknowledged_play : ℕ → Option Text → PlaySubscription → PlaySubscription
acknowledged_play now none play = record play {
  acknowledgement_pending = false;
  acknowledgement_next_attempt_at = none;
  acknowledgement_last_error_code = none;
  acknowledged_at = some now;
}
acknowledged_play now (some error) play =
    let attempts = play.acknowledgement_attempts + 1 in
    record play {
      acknowledgement_pending = true;
      acknowledgement_attempts = attempts;
      acknowledgement_last_error_code = some error;
      acknowledgement_next_attempt_at = some (now + minutes (min 60 (2 ^ min attempts 6)));
    }

-- `record_play_acknowledgement`
unfoldable pub record_play_acknowledgement : ℕ → ℕ → Option Text → Billing → Billing
record_play_acknowledgement now token error b = record b {
  plays = update (has_token token) (acknowledged_play now error) b.plays;
}

-- `verify_play_purchase`; `refused` says that Google refused the acknowledgement
unfoldable pub verify_play_purchase :
    (ℕ → ℕ)
    → Text
    → ℕ
    → ℕ
    → ℕ
    → ℕ
    → Text
    → Option Purchase
    → Bool
    → Billing
    → Outcome Fault (Subscription × Billing)
verify_play_purchase hash_token our_product now subscription_id organization_id token product_id
      answer refused b =
    do
      p ← fetch_play_purchase hash_token our_product organization_id product_id answer
      applied ← apply_play_purchase now subscription_id organization_id token product_id p b
      _ ← raise_if (p.acknowledgement_pending && refused) play_unavailable
      ok applied
