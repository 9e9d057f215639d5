-- ===== src/Billing/Owner.antt =====
-- A purchase belongs to one organization.
use aurum_pos.Prelude.{
  ℕ, ◌≡◌, refl, ap, ◌∙◌, subst, false, not, Option, none, some, map_option, find, find-holds,
  find-update, find-append_none, find-none_of_any, any, ◌==◌, ==_refl, ==→eq, if◌then◌else◌, ok,
  err, raise_if, >>-eq-ok, raise_if-eq-ok, ok-injective, Bool-cases, inl, inr, arith,
}
use aurum_pos.Text.{Text}
use aurum_pos.Tables.Access.{Subscription}
use aurum_pos.Tables.Sales.{token_used}
use aurum_pos.Billing.{
  new_play, verified_play, has_token, renewed, add_purchase, renew_purchase, apply_owned,
  apply_found, apply_play_purchase,
}
use aurum_pos.Tables.Billing.{PlaySubscription, Purchase, Billing}

-- the token is recorded with the subscription, of the organization
abbrev pub IsRecorded : ℕ → ℕ → Subscription → Billing → Type 0
IsRecorded token organization_id s b =
    (play : PlaySubscription) × (find (has_token token) b.plays ≡ some play)
    × (find (λ x. x.id == play.subscription_id) b.db.subscriptions ≡ some s)
    × (s.organization_id ≡ organization_id)

module _ (now subscription_id organization_id token : ℕ) (product_id : Text) (p : Purchase) where
  add_purchase-IsRecorded :
      (b : Billing)
      → find (has_token token) b.plays ≡ none
      → any (λ x. x.id == subscription_id) b.db.subscriptions ≡ false
      → let (s, after) = add_purchase now subscription_id organization_id token product_id p b in
        IsRecorded token organization_id s after
  unfolding add_purchase verified_play
  add_purchase-IsRecorded b unknown new = (
    verified_play now p (new_play now subscription_id organization_id token product_id),
    find-append_none (has_token token) b.plays _ unknown ∙ rw (==_refl token) refl,
    find-append_none (λ x. x.id == subscription_id) b.db.subscriptions _
          (find-none_of_any (λ x. x.id == subscription_id) (λ x. x.id == subscription_id)
            b.db.subscriptions (λ x h. h) new)
        ∙ rw (==_refl subscription_id) refl,
    refl,
  )

  renew_purchase-IsRecorded :
      (b : Billing) (play : PlaySubscription) (s : Subscription)
      → find (has_token token) b.plays ≡ some play
      → find (λ x. x.id == play.subscription_id) b.db.subscriptions ≡ some s
      → s.organization_id ≡ organization_id
      → let (s', after) = renew_purchase now token p s b in
        IsRecorded token organization_id s' after
  unfolding renew_purchase verified_play
  renew_purchase-IsRecorded b play s known row owned = (
    verified_play now p play,
    find-update (has_token token) (has_token token) (verified_play now p) b.plays (λ x h. refl)
        ∙ ap (map_option (λ x. if has_token token x then verified_play now p x else x)) known
        ∙ rw (find-holds (has_token token) b.plays play known) refl,
    find-update (λ x. x.id == s.id) (λ x. x.id == play.subscription_id) (renewed now p)
          b.db.subscriptions (λ x h. refl)
        ∙ ap (map_option (λ x. if x.id == s.id then renewed now p x else x)) row
        ∙ rw (==_refl s.id) refl,
    owned,
  )

  apply_owned-IsRecorded :
      (b : Billing) (play : PlaySubscription) (found : Option Subscription) (s : Subscription)
      (after : Billing)
      → find (has_token token) b.plays ≡ some play
      → find (λ x. x.id == play.subscription_id) b.db.subscriptions ≡ found
      → apply_owned now organization_id token p found b ≡ ok (s, after)
      → IsRecorded token organization_id s after
  unfolding apply_owned
  apply_owned-IsRecorded b play none s after known row e = absurd (cc e)
  apply_owned-IsRecorded b play (some s0) s after known row e =
      let (owned, done) =
        >>-eq-ok (raise_if (not (s0.organization_id == organization_id)) token_used) _ e in
      let same = ok-injective done in
      let mine = raise_if-eq-ok (not (s0.organization_id == organization_id)) token_used owned in
      subst (λ x. IsRecorded token organization_id x.0 x.1) same
        (renew_purchase-IsRecorded b play s0 known row
          (==→eq s0.organization_id organization_id (ground arith)))

  pub apply_found-IsRecorded :
      (b : Billing) (found : Option PlaySubscription) (s : Subscription) (after : Billing)
      → find (has_token token) b.plays ≡ found
      → any (λ x. x.id == subscription_id) b.db.subscriptions ≡ false
      → apply_found now subscription_id organization_id token product_id p found b ≡ ok (s, after)
      → IsRecorded token organization_id s after
  unfolding apply_found
  apply_found-IsRecorded b none s after unknown new e =
      subst (λ x. IsRecorded token organization_id x.0 x.1) (ok-injective e)
        (add_purchase-IsRecorded b unknown new)
  apply_found-IsRecorded b (some play) s after known new e =
      apply_owned-IsRecorded b play (find (λ x. x.id == play.subscription_id) b.db.subscriptions) s
        after known refl e

IsRecorded-apply_play_purchase :
    (token organization_id : ℕ) (s : Subscription) (b : Billing)
    (now subscription_id organization_id' : ℕ) (product_id : Text) (p : Purchase)
    → IsRecorded token organization_id s b
    → apply_play_purchase now subscription_id organization_id' token product_id p b ≡ (
        if s.organization_id == organization_id'
        then ok (renew_purchase now token p s b)
        else err token_used)
unfolding apply_play_purchase apply_found apply_owned
IsRecorded-apply_play_purchase token organization_id s b now subscription_id organization_id'
      product_id p (play, known, row, owned) =
    ap (λ o. apply_found now subscription_id organization_id' token product_id p o b) known
    ∙ ap (λ o. apply_owned now organization_id' token p o b) row
    ∙ elim (Bool-cases (s.organization_id == organization_id')) [
      | inl mine ↦ rw mine refl
      | inr other ↦ rw other refl
    ]

-- Once a purchase was applied for an organization, it renews that organization's subscription,
-- and is refused to every other organization. The id for a new subscription is a new one.
pub apply_play_purchase-owner :
    (now subscription_id organization_id token : ℕ) (product_id : Text) (p : Purchase) (b : Billing)
    (s : Subscription) (after : Billing) (now' subscription_id' organization_id' : ℕ)
    (product_id' : Text) (p' : Purchase)
    → any (λ x. x.id == subscription_id) b.db.subscriptions ≡ false
    → apply_play_purchase now subscription_id organization_id token product_id p b ≡ ok (s, after)
    → (s.organization_id ≡ organization_id)
      × (apply_play_purchase now' subscription_id' organization_id' token product_id' p' after ≡ (
          if s.organization_id == organization_id'
          then ok (renew_purchase now' token p' s after)
          else err token_used))
unfolding apply_play_purchase
apply_play_purchase-owner now subscription_id organization_id token product_id p b s after now'
      subscription_id' organization_id' product_id' p' new e =
    let recorded =
      apply_found-IsRecorded now subscription_id organization_id token product_id p b
        (find (has_token token) b.plays) s after refl new e in
    (
      recorded.3,
      IsRecorded-apply_play_purchase token organization_id s after now' subscription_id'
          organization_id' product_id' p' recorded,
    )
