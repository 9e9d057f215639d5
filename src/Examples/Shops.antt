-- ===== src/Examples/Shops.antt =====
-- Subscriptions and the inventory of the example shop.
use aurum_pos.Prelude.{
  Any, ◌≤◌, ℕ, ◌+◌, ◌≡◌, ◌≢◌, ◌↔◌, ◌<◌, refl, true, false, none, some, List, [], ◌∷◌, ok, err, All,
  length, arith,
}
use aurum_pos.Text.{Text, text, normalize}
use aurum_pos.Items.Kinds.{is_in_stock}
use aurum_pos.Tables.Access.{active, pro}
use aurum_pos.Tables.Stock.{Item}
use aurum_pos.Tables.Sales.{Store, item_missing}
use aurum_pos.Subscriptions.{
  is_current, resolve_entitlement, find_shop, find_organization, mem_text, organization_team_emails,
  set_of, is_active_member,
}
use aurum_pos.Subscriptions.Resolution.{
  EndsAfter, Outlasts, resolve_entitlement-pro_iff, resolve_entitlement-Outlasts,
}
use aurum_pos.Subscriptions.Limits.{
  EntitlementResponse, get_entitlement_response, enforce_item_activation_limit,
  enforce_shop_creation_limit, enforce_team_seat_limit,
}
use aurum_pos.Subscriptions.Advertised.{can_add_item_iff, can_create_and_invite_iff}
use aurum_pos.Inventory.{get_item_by_id, is_live}
use aurum_pos.Inventory.Weights.{reconcile_remaining_weight, reconcile_remaining_weight_iff}
use aurum_pos.Inventory.Archive.{delete_item, clear_in_stock_inventory}
use aurum_pos.Inventory.Archive.Effect.{delete_item-gone}
use aurum_pos.Inventory.Archive.Clear.{to_clear, clear_in_stock_inventory_idem}
use aurum_pos.Inventory.Barcodes.{
  barcode_taken, generate_unique_barcode, generate_unique_barcode-fresh,
}
use aurum_pos.Examples.{value, eq-ok_value, settings, shop, organization, store}

resolve_entitlement-pro_iff_example :
    ((resolve_entitlement settings 5 store 1).plan ≡ pro)
    ↔ Any
        (λ s.
          (s.organization_id ≡ 1)
          × (s.plan ≡ pro)
          × (s.status ≡ active)
          × (s.revoked_at ≡ none)
          × (s.starts_at ≤ 5)
          × EndsAfter 5 s.expires_at)
        store.subscriptions
resolve_entitlement-pro_iff_example = resolve_entitlement-pro_iff settings 5 1 store refl

resolve_entitlement-Outlasts_example :
    let e = resolve_entitlement settings 5 store 1 in
    All
      (λ s.
        is_current 5 1 s ≡ true
        → (e.plan ≡ pro) × (e.item_limit ≡ none) × Outlasts e.expires_at s.expires_at)
      store.subscriptions
resolve_entitlement-Outlasts_example = resolve_entitlement-Outlasts settings 5 1 store refl

has_shop : find_shop store 10 ≡ some shop
has_shop = refl

has_organization : find_organization store 1 ≡ some organization
has_organization = refl

can_add_item_iff_example :
    (r : EntitlementResponse) × (get_entitlement_response settings 5 store 1 10 ≡ ok r)
    × ((r.can_add_item ≡ true) ↔ (enforce_item_activation_limit settings 5 store 10 ≡ ok tt))
can_add_item_iff_example =
    can_add_item_iff settings 5 store 10 shop organization has_shop has_organization refl

no_candidate : mem_text (normalize (text "a@b.in")) (organization_team_emails store 5 1) ≡ false
unfolding organization_team_emails normalize set_of is_active_member
no_candidate = refl

can_create_and_invite_iff_example :
    (r : EntitlementResponse) × (get_entitlement_response settings 5 store 1 10 ≡ ok r)
    × ((r.can_create_shop ≡ true) ↔ (enforce_shop_creation_limit settings 5 store 1 ≡ ok tt))
    × ((r.can_invite_member ≡ true)
        ↔ (enforce_team_seat_limit settings 5 store 1 (text "a@b.in") ≡ ok tt))
can_create_and_invite_iff_example =
    can_create_and_invite_iff settings 5 store 10 shop organization has_shop has_organization
      (text "a@b.in") no_candidate

reconcile_remaining_weight_iff_example :
    (reconcile_remaining_weight 20_000 15_000 25_000 ≡ ok 20_000)
    ↔ ((0 < 25_000) × (25_000 + 15_000 ≡ 20_000 + 20_000))
reconcile_remaining_weight_iff_example =
    reconcile_remaining_weight_iff 20_000 15_000 25_000 20_000 (omega arith)

abbrev deleted : Store
deleted = value (delete_item 5 10 100 store) store

deleted-eq : delete_item 5 10 100 store ≡ ok deleted
unfolding delete_item get_item_by_id is_live
deleted-eq = eq-ok_value (delete_item 5 10 100 store) store refl

delete_item-gone_example :
    (get_item_by_id deleted 100 10 ≡ none)
    × ((later : ℕ) → delete_item later 10 100 deleted ≡ err item_missing)
    × ((j other : ℕ) → j ≢ 100 → get_item_by_id deleted j other ≡ get_item_by_id store j other)
    × ((item : Item) × (get_item_by_id store 100 10 ≡ some item) × (is_in_stock item.status ≡ true))
delete_item-gone_example = delete_item-gone 5 10 100 store deleted-eq

clear_in_stock_inventory_idem_example :
    let (count, after) = clear_in_stock_inventory 5 10 store in
    (count ≡ length (to_clear 5 10 store)) × (clear_in_stock_inventory 6 10 after ≡ (0, after))
clear_in_stock_inventory_idem_example = clear_in_stock_inventory_idem 5 6 10 store

abbrev draws : List Text
draws = text "1" ∷ text "00000007" ∷ []

drawn : generate_unique_barcode store 10 [] draws ≡ ok (text "00000007", text "00000007" ∷ [])
unfolding generate_unique_barcode barcode_taken
drawn = refl

generate_unique_barcode-fresh_example :
    (barcode_taken store 10 (text "00000007") ≡ false)
    × (mem_text (text "00000007") [] ≡ false)
    × (◌≡◌ {A = List Text} (text "00000007" ∷ []) (text "00000007" ∷ []))
    × (mem_text (text "00000007") draws ≡ true)
generate_unique_barcode-fresh_example =
    generate_unique_barcode-fresh store 10 [] draws (text "00000007") (text "00000007" ∷ []) drawn
