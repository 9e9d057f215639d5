-- ===== src/Billing/Reconcile/Paired.antt =====
-- A row of the reconciliation has the end of a lease exactly when it has the lease's token.
use aurum_pos.Prelude.{
  ℕ, ◌+◌, ◌≡◌, refl, ap, subst, Bool, true, false, not, is_some, Option, none, some, All,
  All-append, All-update, find, ◌==◌, Outcome, ok, err, raise_if, >>-eq-ok, ok-injective,
}
use aurum_pos.Text.{Text}
use aurum_pos.Tables.Access.{Subscription, minutes}
use aurum_pos.Tables.Sales.{Fault, token_used}
use aurum_pos.Tables.Billing.{PlaySubscription, Purchase, Billing}
use aurum_pos.Billing.{
  has_token, acknowledged_play, record_play_acknowledgement, verified_play, add_purchase,
  renew_purchase, apply_owned, apply_found, apply_play_purchase,
}
use aurum_pos.Billing.Reconcile.{
  PlayTarget, holds_play, released, release, due_at, acknowledge, complete, give_up, finish_target,
  after_application, verify_target, after_fetch,
}

abbrev pub IsPaired : PlaySubscription → Type 0
IsPaired play = is_some play.verification_lease_until ≡ is_some play.verification_lease_token

abbrev pub ArePaired : Billing → Type 0
ArePaired b = All IsPaired b.plays

acknowledged_play-IsPaired :
    (now : ℕ) (error : Option Text) (play : PlaySubscription)
    → IsPaired play
    → IsPaired (acknowledged_play now error play)
unfolding acknowledged_play
acknowledged_play-IsPaired now none play h = h
acknowledged_play-IsPaired now (some error) play h = h

module _ (now : ℕ) (t : PlayTarget) where
  release-ArePaired :
      (f : PlaySubscription → PlaySubscription) (b : Billing)
      → ArePaired b
      → ArePaired (release t f b)
  release-ArePaired f b h =
      All-update IsPaired (holds_play t) (λ play. released (f play)) b.plays (λ _ _ _. refl) h

  acknowledge-ArePaired :
      (needed : Bool) (error : Option Text) (b : Billing)
      → ArePaired b
      → ArePaired (acknowledge now t needed error b)
  unfolding record_play_acknowledgement
  acknowledge-ArePaired true error b h =
      All-update IsPaired (has_token t.purchase_token) (acknowledged_play now error) b.plays
        (λ play _ k. acknowledged_play-IsPaired now error play k) h
  acknowledge-ArePaired false error b h = h

  complete-ArePaired :
      (needed : Bool) (found : Option PlaySubscription) (b : Billing)
      → ArePaired b
      → ArePaired (complete now t needed found b)
  unfolding complete
  complete-ArePaired needed none b h = h
  complete-ArePaired needed (some _) b h =
      release-ArePaired (λ play. play) (acknowledge now t needed none b)
        (acknowledge-ArePaired needed none b h)

  give_up-ArePaired :
      (needed : Bool) (error : Text) (found : Option PlaySubscription) (b : Billing)
      → ArePaired b
      → ArePaired (give_up now t needed error found b)
  unfolding give_up
  give_up-ArePaired needed error none b h = h
  give_up-ArePaired needed error (some _) b h =
      release-ArePaired (due_at (now + minutes 10)) (acknowledge now t needed (some error) b)
        (acknowledge-ArePaired needed (some error) b h)

  finish_target-ArePaired :
      (needed : Bool) (error : Option Text) (b : Billing)
      → ArePaired b
      → ArePaired (finish_target now t needed error b)
  unfolding finish_target
  finish_target-ArePaired needed none b h =
      complete-ArePaired needed (find (holds_play t) b.plays) b h
  finish_target-ArePaired needed (some error) b h =
      give_up-ArePaired needed error (find (holds_play t) b.plays) b h

  -- the application of a purchase leaves the leases
  apply_owned-ArePaired :
      (organization_id token : ℕ) (p : Purchase) (found : Option Subscription) (b : Billing)
      (s : Subscription) (after : Billing)
      → ArePaired b
      → apply_owned now organization_id token p found b ≡ ok (s, after)
      → ArePaired after
  unfolding apply_owned renew_purchase verified_play
  apply_owned-ArePaired organization_id token p none b s after h e = absurd (cc e)
  apply_owned-ArePaired organization_id token p (some s0) b s after h e =
      let (_, done) =
        >>-eq-ok (raise_if (not (s0.organization_id == organization_id)) token_used)
          (ok (renew_purchase now token p s0 b)) e in
      subst ArePaired (ap (λ x. x.1) (ok-injective done))
        (All-update IsPaired (has_token token) (verified_play now p) b.plays (λ _ _ k. k) h)

  apply_found-ArePaired :
      (subscription_id organization_id token : ℕ) (product_id : Text) (p : Purchase)
      (found : Option PlaySubscription) (b : Billing) (s : Subscription) (after : Billing)
      → ArePaired b
      → apply_found now subscription_id organization_id token product_id p found b ≡ ok (s, after)
      → ArePaired after
  unfolding apply_found add_purchase verified_play
  apply_found-ArePaired subscription_id organization_id token product_id p none b s after h e =
      subst ArePaired (ap (λ x. x.1) (ok-injective e)) (All-append IsPaired b.plays _ h (refl, tt))
  apply_found-ArePaired subscription_id organization_id token product_id p (some play) b s after h
        e =
      apply_owned-ArePaired organization_id token p
        (find (λ x. x.id == play.subscription_id) b.db.subscriptions) b s after h e

  after_application-ArePaired :
      (needed : Bool) (error : Text) (acknowledgement : Option Text)
      (applied : Outcome Fault (Subscription × Billing)) (b : Billing)
      → ArePaired b
      → ((s : Subscription) (after : Billing) → applied ≡ ok (s, after) → ArePaired after)
      → ArePaired (after_application now t needed error acknowledgement applied b)
  unfolding after_application
  after_application-ArePaired needed error acknowledgement (err _) b h applied =
      finish_target-ArePaired false (some error) b h
  after_application-ArePaired true error acknowledgement (ok (s, after)) b h applied =
      finish_target-ArePaired true acknowledgement _ (
        All-update IsPaired (holds_play t) (due_at (now + minutes 60)) after.plays (λ _ _ k. k)
          (applied s after refl))
  after_application-ArePaired false error acknowledgement (ok (s, after)) b h applied =
      finish_target-ArePaired false none _ (
        All-update IsPaired (holds_play t) (due_at (now + minutes 60)) after.plays (λ _ _ k. k)
          (applied s after refl))

  verify_target-ArePaired :
      (error : Text) (acknowledgement : Option Text) (p : Purchase)
      (found : Option PlaySubscription) (b : Billing)
      → ArePaired b
      → ArePaired (verify_target now t error acknowledgement p found b)
  unfolding verify_target apply_play_purchase
  verify_target-ArePaired error acknowledgement p none b h = h
  verify_target-ArePaired error acknowledgement p (some _) b h =
      after_application-ArePaired p.acknowledgement_pending error acknowledgement
        (apply_play_purchase now t.subscription_id t.organization_id t.purchase_token t.product_id p
          b)
        b h
        (λ s after e.
          apply_found-ArePaired t.subscription_id t.organization_id t.purchase_token t.product_id p
            (find (has_token t.purchase_token) b.plays) b s after h e)

  pub after_fetch-ArePaired :
      (error : Text) (acknowledgement : Option Text) (fetched : Outcome Fault Purchase)
      (b : Billing)
      → ArePaired b
      → ArePaired (after_fetch now t error acknowledgement fetched b)
  unfolding after_fetch
  after_fetch-ArePaired error acknowledgement (err _) b h =
      finish_target-ArePaired false (some error) b h
  after_fetch-ArePaired error acknowledgement (ok p) b h =
      verify_target-ArePaired error acknowledgement p (find (holds_play t) b.plays) b h
