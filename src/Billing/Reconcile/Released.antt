-- ===== src/Billing/Reconcile/Released.antt =====
-- A reconciliation ends its lease.
use aurum_pos.Prelude.{
  ℕ, is_some, All, ◌+◌, ◌≡◌, refl, ap, Bool, true, false, Option, none, some, find,
  find-updated_none, Outcome, ok, err, arith,
}
use aurum_pos.Text.{Text}
use aurum_pos.Tables.Access.{Subscription, minutes}
use aurum_pos.Tables.Sales.{Fault}
use aurum_pos.Billing.{fetch_play_purchase, apply_play_purchase}
use aurum_pos.Tables.Billing.{PlaySubscription, Purchase, Billing}
use aurum_pos.Billing.Reconcile.Paired.{after_fetch-ArePaired}
use aurum_pos.Billing.Reconcile.{
  PlayTarget, holds_play, released, release, due_at, acknowledge, complete, give_up, finish_target,
  after_application, verify_target, after_fetch, reconcile_play_target,
}

abbrev pub has_lease_end : PlaySubscription → Bool
has_lease_end play = is_some play.verification_lease_until

abbrev pub has_lease_token : PlaySubscription → Bool
has_lease_token play = is_some play.verification_lease_token

-- no row has the target's lease
abbrev pub IsReleased : PlayTarget → Billing → Type 0
IsReleased t b = find (holds_play t) b.plays ≡ none

released-holds_play :
    (t : PlayTarget) (play : PlaySubscription) → holds_play t (released play) ≡ false
released-holds_play t play = ground arith

module _ (now : ℕ) (t : PlayTarget) where
  release-IsReleased :
      (f : PlaySubscription → PlaySubscription) (b : Billing) → IsReleased t (release t f b)
  release-IsReleased f b =
      find-updated_none (holds_play t) (λ play. released (f play)) b.plays
        (λ play. released-holds_play t (f play))

  complete-IsReleased :
      (needed : Bool) (found : Option PlaySubscription) (b : Billing)
      → find (holds_play t) b.plays ≡ found
      → IsReleased t (complete now t needed found b)
  unfolding complete
  complete-IsReleased needed none b e = e
  complete-IsReleased needed (some play) b e =
      release-IsReleased (λ x. x) (acknowledge now t needed none b)

  give_up-IsReleased :
      (needed : Bool) (error : Text) (found : Option PlaySubscription) (b : Billing)
      → find (holds_play t) b.plays ≡ found
      → IsReleased t (give_up now t needed error found b)
  unfolding give_up
  give_up-IsReleased needed error none b e = e
  give_up-IsReleased needed error (some play) b e =
      release-IsReleased (due_at (now + minutes 10)) (acknowledge now t needed (some error) b)

  finish_target-IsReleased :
      (needed : Bool) (error : Option Text) (b : Billing)
      → IsReleased t (finish_target now t needed error b)
  unfolding finish_target
  finish_target-IsReleased needed none b =
      complete-IsReleased needed (find (holds_play t) b.plays) b refl
  finish_target-IsReleased needed (some error) b =
      give_up-IsReleased needed error (find (holds_play t) b.plays) b refl

  after_application-IsReleased :
      (needed : Bool) (error : Text) (acknowledgement : Option Text)
      (applied : Outcome Fault (Subscription × Billing)) (b : Billing)
      → IsReleased t (after_application now t needed error acknowledgement applied b)
  unfolding after_application
  after_application-IsReleased needed error acknowledgement (err _) b =
      finish_target-IsReleased false (some error) b
  after_application-IsReleased true error acknowledgement (ok (s, after)) b =
      finish_target-IsReleased true acknowledgement _
  after_application-IsReleased false error acknowledgement (ok (s, after)) b =
      finish_target-IsReleased false none _

  verify_target-IsReleased :
      (error : Text) (acknowledgement : Option Text) (p : Purchase)
      (found : Option PlaySubscription) (b : Billing)
      → find (holds_play t) b.plays ≡ found
      → IsReleased t (verify_target now t error acknowledgement p found b)
  unfolding verify_target
  verify_target-IsReleased error acknowledgement p none b e = e
  verify_target-IsReleased error acknowledgement p (some play) b e =
      after_application-IsReleased p.acknowledgement_pending error acknowledgement
        (apply_play_purchase now t.subscription_id t.organization_id t.purchase_token t.product_id p
          b)
        b

  after_fetch-IsReleased :
      (error : Text) (acknowledgement : Option Text) (fetched : Outcome Fault Purchase)
      (b : Billing)
      → IsReleased t (after_fetch now t error acknowledgement fetched b)
  unfolding after_fetch
  after_fetch-IsReleased error acknowledgement (err _) b =
      finish_target-IsReleased false (some error) b
  after_fetch-IsReleased error acknowledgement (ok p) b =
      verify_target-IsReleased error acknowledgement p (find (holds_play t) b.plays) b refl

  after_fetch-superseded :
      (error : Text) (acknowledgement : Option Text) (fetched : Outcome Fault Purchase)
      (b : Billing)
      → IsReleased t b
      → after_fetch now t error acknowledgement fetched b ≡ b
  unfolding after_fetch finish_target give_up verify_target
  after_fetch-superseded error acknowledgement (err _) b e =
      ap (λ found. give_up now t false error found b) e
  after_fetch-superseded error acknowledgement (ok p) b e =
      ap (λ found. verify_target now t error acknowledgement p found b) e

  -- A reconciliation ends its lease whatever Google answers to the query and to the acknowledgement: no
  -- row has the lease's token, and if every row had the end of a lease exactly when it had a token, then
  -- every row has, so that an ended lease leaves no time behind that would keep its row from being
  -- claimed. To repeat the reconciliation with that lease, whatever the answers, changes nothing.
  pub reconcile_play_target-released :
      (hash_token : ℕ → ℕ) (our_product error : Text) (answer : Option Purchase)
      (acknowledgement : Option Text) (error' : Text) (answer' : Option Purchase)
      (acknowledgement' : Option Text) (b : Billing)
      → All (λ play. has_lease_end play ≡ has_lease_token play) b.plays
      → let after =
          reconcile_play_target hash_token our_product now t error answer acknowledgement b in
        (find (holds_play t) after.plays ≡ none)
        × All (λ play. has_lease_end play ≡ has_lease_token play) after.plays
        × (reconcile_play_target hash_token our_product now t error' answer' acknowledgement' after
            ≡ after)
  unfolding reconcile_play_target
  reconcile_play_target-released hash_token our_product error answer acknowledgement error' answer'
        acknowledgement' b paired =
      let fetched =
        fetch_play_purchase hash_token our_product t.organization_id t.product_id answer in
      let fetched' =
        fetch_play_purchase hash_token our_product t.organization_id t.product_id answer' in
      let free = after_fetch-IsReleased error acknowledgement fetched b in
      (
        free,
        after_fetch-ArePaired now t error acknowledgement fetched b paired,
        after_fetch-superseded error' acknowledgement' fetched'
            (after_fetch now t error acknowledgement fetched b) free,
      )
