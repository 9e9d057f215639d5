-- ===== src/Subscriptions.antt =====
-- app/modules/subscriptions/service.py: the entitlement of an organization and the limits it sets.
pub mod Resolution
pub mod Limits
pub mod Advertised
use aurum_pos.Prelude.{
  ℕ, ◌+◌, Bool, true, false, not, ◌&&◌, ◌||◌, Option, none, some, is_none, is_some, List, [], ◌∷◌,
  ◌++◌, map, ltb, leb, ◌==◌, if◌then◌else◌, length, select, find, any, count_if, Outcome, ok, err,
  ◌>>=◌, ◌>>◌, raise_if, or_raise, some_eq,
}
use aurum_pos.Text.{Text, text, normalize, ◌=ᵗ◌}
use aurum_pos.Items.Kinds.{ItemStatus, in_stock, reserved}
use aurum_pos.Tables.Access.{
  Settings, Organization, Shop, ShopMembership, User, ShopInvitation, Subscription, Plan, free, pro,
  is_pro, is_active_status, Source, self_hosted, hosted_free,
}
use aurum_pos.Tables.Stock.{Item}
use aurum_pos.Tables.Sales.{
  Store, Fault, shop_missing, organization_missing, shop_read_only, item_limit_reached,
  pro_required, shop_limit_reached, team_limit_reached,
}

pub record Entitlement : Type 0 where
  pub plan : Plan
  pub source : Source
  pub item_limit : Option ℕ
  pub shop_limit : Option ℕ
  pub team_seat_limit : Option ℕ
  pub expires_at : Option ℕ

-- the WHERE clause of the subscription that counts
unfoldable pub is_current : ℕ → ℕ → Subscription → Bool
is_current now organization_id s =
    s.organization_id == organization_id
    && is_pro s.plan
    && is_active_status s.status
    && is_none s.revoked_at
    && leb s.starts_at now
    && (elim s.expires_at [ none ↦ true | some t ↦ ltb now t ])

-- `ORDER BY expires_at DESC NULLS FIRST`, with the order of equal expiries as an argument
abbrev expiry_before : Bool → Option ℕ → Option ℕ → Bool
expiry_before later none none = later
expiry_before later none (some _) = true
expiry_before later (some _) none = false
expiry_before later (some a) (some b) = ltb b a || (a == b && later)

-- `..., created_at DESC`: whether `s` comes before `t`
unfoldable pub comes_before : Subscription → Subscription → Bool
comes_before s t = expiry_before (ltb t.created_at s.created_at) s.expires_at t.expires_at

-- `LIMIT 1`: a first row of that order
unfoldable pub first_row : List Subscription → Option Subscription
unfolding comes_before
first_row [] = none
first_row (s ∷ rest) = elim (first_row rest) [
  | none ↦ some s
  | some t ↦ some (if comes_before t s then t else s)
]

abbrev pub pro_entitlement : Settings → Subscription → Entitlement
pro_entitlement settings s = record {
  plan = pro;
  source = s.source;
  item_limit = none;
  shop_limit = some settings.pro_shop_limit;
  team_seat_limit = some settings.pro_team_seat_limit;
  expires_at = s.expires_at;
}

abbrev pub free_entitlement : Settings → Entitlement
free_entitlement settings = record {
  plan = free;
  source = hosted_free;
  item_limit = some settings.free_active_item_limit;
  shop_limit = some settings.free_shop_limit;
  team_seat_limit = some settings.free_team_seat_limit;
  expires_at = none;
}

abbrev pub self_hosted_entitlement : Entitlement
self_hosted_entitlement = record {
  plan = pro;
  source = self_hosted;
  item_limit = none;
  shop_limit = none;
  team_seat_limit = none;
  expires_at = none;
}

unfoldable pub resolve_entitlement : Settings → ℕ → Store → ℕ → Entitlement
unfolding is_current first_row
resolve_entitlement settings now db organization_id =
    if not settings.is_hosted
    then self_hosted_entitlement
    else elim (first_row (select (is_current now organization_id) db.subscriptions)) [
      | some s ↦ pro_entitlement settings s
      | none ↦ free_entitlement settings
    ]

-- `ACTIVE_ITEM_STATUSES`
abbrev is_active_item_status : ItemStatus → Bool
is_active_item_status in_stock = true
is_active_item_status reserved = true
is_active_item_status _ = false

unfoldable pub is_active_item : ℕ → Item → Bool
is_active_item shop_id i =
    i.shop_id == shop_id && is_active_item_status i.status && ltb 0 i.base.quantity

unfoldable pub count_active_items : Store → ℕ → ℕ
unfolding is_active_item
count_active_items db shop_id = count_if (is_active_item shop_id) db.items

abbrev is_shop_of : ℕ → Shop → Bool
is_shop_of organization_id s = s.organization_id == organization_id

unfoldable pub count_organization_shops : Store → ℕ → ℕ
count_organization_shops db organization_id =
    count_if (λ s. is_shop_of organization_id s && s.is_active) db.shops

abbrev pub find_shop : Store → ℕ → Option Shop
find_shop db shop_id = find (λ s. s.id == shop_id) db.shops

abbrev pub find_organization : Store → ℕ → Option Organization
find_organization db organization_id = find (λ o. o.id == organization_id) db.organizations

abbrev pub mem_text : Text → List Text → Bool
mem_text t [] = false
mem_text t (x ∷ xs) = (x =ᵗ t) || mem_text t xs

-- a Python set of texts, as a list without repetition
unfoldable pub set_of : List Text → List Text
set_of [] = []
set_of (x ∷ xs) = let rest = set_of xs in if mem_text x rest then rest else x ∷ rest

-- an active user with an active membership of an active shop of the organization
unfoldable pub is_active_member : Store → ℕ → User → Bool
is_active_member db organization_id u =
    u.is_active
    && any
        (λ m.
          m.user_id == u.id
          && m.is_active
          && any (λ s. s.id == m.shop_id && is_shop_of organization_id s && s.is_active) db.shops)
        db.memberships

unfoldable pub is_pending_invitation : Store → ℕ → ℕ → ShopInvitation → Bool
is_pending_invitation db now organization_id i =
    any (λ s. s.id == i.shop_id && is_shop_of organization_id s) db.shops
    && is_none i.accepted_at
    && ltb now i.expires_at

-- `strip().casefold()` is `normalize`, which folds the ASCII letters
unfoldable pub organization_team_emails : Store → ℕ → ℕ → List Text
unfolding is_active_member is_pending_invitation set_of
organization_team_emails db now organization_id =
    let members = select (is_active_member db organization_id) db.users in
    let invited = select (is_pending_invitation db now organization_id) db.invitations in
    set_of (map (λ u. normalize u.email) members ++ map (λ i. normalize i.email) invited)

pub data AccessMode : Type 0 where
  read_write read_only : AccessMode

abbrev pub is_read_write : AccessMode → Bool
is_read_write read_write = true
is_read_write read_only = false

unfoldable pub shop_access_mode : Entitlement → Organization → Shop → AccessMode
shop_access_mode entitlement organization shop =
    if is_pro entitlement.plan || some_eq organization.primary_shop_id shop.id
    then read_write
    else read_only
