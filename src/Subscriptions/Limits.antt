-- ===== src/Subscriptions/Limits.antt =====
-- app/modules/subscriptions/service.py: the checks that raise, and the entitlement as it is shown.
use aurum_pos.Prelude.{
  ℕ, ◌+◌, Bool, true, false, not, ◌&&◌, Option, none, some, ltb, if◌then◌else◌, length, ◌==◌,
  Outcome, ok, ◌>>=◌, ◌>>◌, raise_if, or_raise,
}
use aurum_pos.Text.{Text, normalize}
use aurum_pos.Tables.Access.{Settings, Organization, Shop, Plan, is_pro}
use aurum_pos.Tables.Sales.{
  Store, Fault, shop_missing, organization_missing, shop_read_only, item_limit_reached,
  pro_required, shop_limit_reached, team_limit_reached,
}
use aurum_pos.Subscriptions.{
  resolve_entitlement, count_active_items, count_organization_shops, organization_team_emails,
  find_shop, find_organization, mem_text, shop_access_mode, AccessMode, is_read_write,
}

-- `limit is None or count < limit`
abbrev pub has_room : Option ℕ → ℕ → Bool
has_room none count = true
has_room (some limit) count = ltb count limit

-- `limit is not None and count > limit`
abbrev pub exceeds : Option ℕ → ℕ → Bool
exceeds none count = false
exceeds (some limit) count = ltb limit count

pub record EntitlementResponse : Type 0 where
  pub plan : Plan
  pub active_item_count : ℕ
  pub active_item_limit : Option ℕ
  pub can_add_item : Bool
  pub shop_count : ℕ
  pub shop_limit : Option ℕ
  pub team_seat_usage : ℕ
  pub team_seat_limit : Option ℕ
  pub can_create_shop : Bool
  pub can_invite_member : Bool
  pub access_mode : AccessMode
  pub expires_at : Option ℕ

module _ (settings : Settings) (now : ℕ) (db : Store) where
  abbrev pub response_of : Organization → Shop → EntitlementResponse
  response_of organization shop =
      let entitlement = resolve_entitlement settings now db organization.id in
      let item_count = count_active_items db shop.id in
      let shop_count = count_organization_shops db organization.id in
      let team_usage = length (organization_team_emails db now organization.id) in
      let access_mode = shop_access_mode entitlement organization shop in
      record {
        plan = entitlement.plan;
        active_item_count = item_count;
        active_item_limit = entitlement.item_limit;
        can_add_item = is_read_write access_mode && has_room entitlement.item_limit item_count;
        shop_count = shop_count;
        shop_limit = entitlement.shop_limit;
        team_seat_usage = team_usage;
        team_seat_limit = entitlement.team_seat_limit;
        can_create_shop = has_room entitlement.shop_limit shop_count;
        can_invite_member = has_room entitlement.team_seat_limit team_usage;
        access_mode = access_mode;
        expires_at = entitlement.expires_at;
      }

  unfoldable pub get_entitlement_response : ℕ → ℕ → Outcome Fault EntitlementResponse
  get_entitlement_response organization_id shop_id = do
    organization ← or_raise (find_organization db organization_id) organization_missing
    shop ← or_raise (find_shop db shop_id) organization_missing
    raise_if (not (shop.organization_id == organization.id)) organization_missing
    ok (response_of organization shop)

  unfoldable pub enforce_shop_write_access : ℕ → Outcome Fault (Unit {0})
  enforce_shop_write_access shop_id = do
    shop ← or_raise (find_shop db shop_id) shop_missing
    raise_if (not shop.is_active) shop_missing
    organization ← or_raise (find_organization db shop.organization_id) organization_missing
    let entitlement = resolve_entitlement settings now db organization.id
    raise_if (not (is_read_write (shop_access_mode entitlement organization shop))) shop_read_only

  unfoldable pub enforce_item_activation_capacity : ℕ → ℕ → Outcome Fault (Unit {0})
  unfolding enforce_shop_write_access
  enforce_item_activation_capacity shop_id additional_items =
      if not (ltb 0 additional_items) then ok tt else do
        shop ← or_raise (find_shop db shop_id) shop_missing
        raise_if (not shop.is_active) shop_missing
        enforce_shop_write_access shop_id
        let entitlement = resolve_entitlement settings now db shop.organization_id
        raise_if (exceeds entitlement.item_limit (count_active_items db shop_id + additional_items))
            item_limit_reached

  unfoldable pub enforce_item_activation_limit : ℕ → Outcome Fault (Unit {0})
  unfolding enforce_item_activation_capacity
  enforce_item_activation_limit shop_id = enforce_item_activation_capacity shop_id 1

  unfoldable pub enforce_shop_creation_limit : ℕ → Outcome Fault (Unit {0})
  enforce_shop_creation_limit organization_id = do
    organization ← or_raise (find_organization db organization_id) organization_missing
    let entitlement = resolve_entitlement settings now db organization_id
    raise_if (not (has_room entitlement.shop_limit (count_organization_shops db organization_id)))
        (if is_pro entitlement.plan then shop_limit_reached else pro_required)

  unfoldable pub enforce_team_seat_limit : ℕ → Text → Outcome Fault (Unit {0})
  enforce_team_seat_limit organization_id candidate_email = do
    organization ← or_raise (find_organization db organization_id) organization_missing
    let team_emails = organization_team_emails db now organization_id
    let entitlement = resolve_entitlement settings now db organization_id
    raise_if
        (not (mem_text (normalize candidate_email) team_emails)
          && not (has_room entitlement.team_seat_limit (length team_emails)))
        team_limit_reached
