-- ===== src/Billing/Entitled.antt =====
-- A purchase in good standing puts its organization on Pro.
use aurum_pos.Prelude.{
  ℕ, Bool, All, find-All, ◌≤◌, ◌≡◌, refl, sym, ap, ◌∙◌, true, false, not, ◌&&◌, Option, none, some,
  find, any, any-found, ltb, leb, ◌==◌, ==_refl, ok, raise_if, >>-eq-ok, ok-injective, arith,
}
use aurum_pos.Text.{Text}
use aurum_pos.Tables.Access.{Settings, Subscription, pro, is_pro, active}
use aurum_pos.Tables.Sales.{token_used}
use aurum_pos.Subscriptions.{is_current, resolve_entitlement}
use aurum_pos.Subscriptions.Resolution.{resolve_entitlement-current_iff}
use aurum_pos.Billing.{
  expiry_of, none_or_after, is_entitled, purchase_status, has_token, add_purchase, renew_purchase,
  apply_owned, apply_found, apply_play_purchase,
}
use aurum_pos.Tables.Billing.{PlaySubscription, Purchase, Billing}
use aurum_pos.Billing.Owner.{apply_found-IsRecorded}

abbrev is_pro_row : Option Subscription → Bool
is_pro_row none = true
is_pro_row (some s) = is_pro s.plan

-- the subscription of a recorded purchase is a Pro one
abbrev pub is_paid : Billing → PlaySubscription → Bool
is_paid b play = is_pro_row (find (λ x. x.id == play.subscription_id) b.db.subscriptions)

module _ (now subscription_id organization_id token : ℕ) (product_id : Text) (p : Purchase) where
  apply_owned-standing :
      (b : Billing) (found : Option Subscription) (s : Subscription) (after : Billing)
      → apply_owned now organization_id token p found b ≡ ok (s, after)
      → ((s0 : Subscription) × (found ≡ some s0) × (s.plan ≡ s0.plan))
        × (s.status ≡ purchase_status now p)
        × (s.expires_at ≡ expiry_of p.line_items)
  unfolding apply_owned renew_purchase
  apply_owned-standing b none s after e = absurd (cc e)
  apply_owned-standing b (some s0) s after e =
      let (_, done) =
        >>-eq-ok (raise_if (not (s0.organization_id == organization_id)) token_used) _ e in
      let same = ok-injective done in
      (
        (s0, refl, sym (ap (λ x. x.0.plan) same)),
        sym (ap (λ x. x.0.status) same),
        sym (ap (λ x. x.0.expires_at) same),
      )

  apply_found-standing :
      (b : Billing) (found : Option PlaySubscription) (s : Subscription) (after : Billing)
      → ((play : PlaySubscription) → found ≡ some play → is_paid b play ≡ true)
      → apply_found now subscription_id organization_id token product_id p found b ≡ ok (s, after)
      → (is_pro s.plan ≡ true)
        × (s.status ≡ purchase_status now p)
        × (s.expires_at ≡ expiry_of p.line_items)
  unfolding apply_found add_purchase
  apply_found-standing b none s after paid e =
      let same = ok-injective e in
      (
        sym (ap (λ x. is_pro x.0.plan) same),
        sym (ap (λ x. x.0.status) same),
        sym (ap (λ x. x.0.expires_at) same),
      )
  apply_found-standing b (some play) s after paid e =
      let found = find (λ x. x.id == play.subscription_id) b.db.subscriptions in
      let ((s0, here, kept), status, expiry) = apply_owned-standing b found s after e in
      let was : is_pro s0.plan ≡ true = ap (λ o. is_pro_row o) (sym here) ∙ paid play refl in
      (ap is_pro kept ∙ was, status, expiry)

  is_entitled-unexpired :
      is_entitled now p ≡ true → none_or_after now (expiry_of p.line_items) ≡ true
  unfolding is_entitled
  is_entitled-unexpired h = ground arith

  standing-is_current :
      (s : Subscription)
      → s.organization_id ≡ organization_id
      → s.status ≡ active
      → none_or_after now s.expires_at ≡ true
      → is_pro s.plan ≡ true
      → s.revoked_at ≡ none
      → s.starts_at ≤ now
      → is_current now organization_id s ≡ true
  unfolding is_current
  standing-is_current s mine live unexpired plan unrevoked started =
      rw (mine, live, plan, unrevoked, ==_refl organization_id) (current s.expires_at unexpired)
    where
      current :
          (t : Option ℕ)
          → none_or_after now t ≡ true
          → (leb s.starts_at now && (elim t [ none ↦ true | some t ↦ ltb now t ])) ≡ true
      current none h = ground arith
      current (some t) h = ground arith

  -- A purchase whose state is entitled and that has not expired puts its organization on Pro, once its
  -- subscription has started, unless that was revoked. The service is hosted, a new subscription's
  -- id is a new one, and no purchase recorded before belongs to a subscription of another plan.
  pub apply_play_purchase-pro :
      (settings : Settings) (b : Billing) (s : Subscription) (after : Billing)
      → settings.is_hosted ≡ true
      → any (λ x. x.id == subscription_id) b.db.subscriptions ≡ false
      → apply_play_purchase now subscription_id organization_id token product_id p b ≡ ok (s, after)
      → is_entitled now p ≡ true
      → All (λ play. is_paid b play ≡ true) b.plays
      → s.revoked_at ≡ none
      → s.starts_at ≤ now
      → (resolve_entitlement settings now after.db organization_id).plan ≡ pro
  unfolding apply_play_purchase
  apply_play_purchase-pro settings b s after hosted new e entitled paid unrevoked started =
      let found = find (has_token token) b.plays in
      let (play, _, row, mine) =
        apply_found-IsRecorded now subscription_id organization_id token product_id p b found s
          after refl new e in
      let (plan, status, expiry) =
        apply_found-standing b found s after
          (λ play here. find-All (λ x. is_paid b x ≡ true) (has_token token) b.plays play paid here)
          e in
      let live : s.status ≡ active = status ∙ rw entitled refl in
      let unexpired : none_or_after now s.expires_at ≡ true =
        ap (none_or_after now) expiry ∙ is_entitled-unexpired entitled in
      (resolve_entitlement-current_iff settings now organization_id after.db hosted).1 (
        any-found (λ x. x.id == play.subscription_id) (is_current now organization_id)
          after.db.subscriptions s row
          (standing-is_current s mine live unexpired plan unrevoked started))
