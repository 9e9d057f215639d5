-- ===== src/Subscriptions/Advertised.antt =====
-- The flags that the entitlement endpoint shows are the checks that the writes make.
use aurum_pos.Prelude.{ℕ, ◌≡◌, ◌↔◌, true, false, some, arith, ok, find-holds, ==→eq, ◌==◌}
use aurum_pos.Text.{Text, normalize}
use aurum_pos.Tables.Access.{Settings, Shop, Organization}
use aurum_pos.Tables.Sales.{Store}
use aurum_pos.Subscriptions.{organization_team_emails, find_shop, find_organization, mem_text}
use aurum_pos.Subscriptions.Limits.{
  get_entitlement_response, enforce_item_activation_limit, enforce_shop_creation_limit,
  enforce_team_seat_limit, EntitlementResponse, response_of,
}

-- a shop and its organization
module _ (settings : Settings) (now : ℕ) (db : Store) (shop_id : ℕ) (s : Shop) (o : Organization)
    (has_shop : find_shop db shop_id ≡ some s)
    (has_organization : find_organization db s.organization_id ≡ some o) where
  organization_id-eq : o.id ≡ s.organization_id
  organization_id-eq =
      ==→eq o.id s.organization_id
        (find-holds (λ x. x.id == s.organization_id) db.organizations o has_organization)

  shop_id-eq : s.id ≡ shop_id
  shop_id-eq = ==→eq s.id shop_id (find-holds (λ x. x.id == shop_id) db.shops s has_shop)

  abbrev shown : EntitlementResponse
  shown = response_of settings now db o s

  answers : get_entitlement_response settings now db s.organization_id shop_id ≡ ok shown
  unfolding get_entitlement_response
  answers = ground (arith, has_shop, has_organization, organization_id-eq)

  -- For an active shop whose organization exists the entitlement endpoint answers, and it says that an
  -- item can be added exactly when the check before one more active item passes.
  pub can_add_item_iff :
      s.is_active ≡ true
      → (r : EntitlementResponse) × (get_entitlement_response settings now db s.organization_id
            shop_id
          ≡ ok r)
        × ((r.can_add_item ≡ true)
            ↔ (enforce_item_activation_limit settings now db shop_id ≡ ok tt))
  unfolding enforce_item_activation_limit
  can_add_item_iff active =
      let e = organization_id-eq in
      let e' = shop_id-eq in (shown, answers, (ground arith, ground arith))

  -- For a shop whose organization exists the entitlement endpoint answers, and it says that a shop can
  -- be created exactly when the check of the shop limit passes, and that a
  -- member can be invited exactly when the seat check passes for an address that holds no seat yet.
  pub can_create_and_invite_iff :
      (candidate : Text)
      → mem_text (normalize candidate) (organization_team_emails db now s.organization_id) ≡ false
      → (r : EntitlementResponse) × (get_entitlement_response settings now db s.organization_id
            shop_id
          ≡ ok r)
        × ((r.can_create_shop ≡ true)
            ↔ (enforce_shop_creation_limit settings now db s.organization_id ≡ ok tt))
        × ((r.can_invite_member ≡ true)
            ↔ (enforce_team_seat_limit settings now db s.organization_id candidate ≡ ok tt))
  unfolding enforce_shop_creation_limit enforce_team_seat_limit
  can_create_and_invite_iff candidate new =
      let e = organization_id-eq in
      (shown, answers, (ground arith, ground arith), (ground arith, ground arith))
