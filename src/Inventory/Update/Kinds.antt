-- ===== src/Inventory/Update/Kinds.antt =====
-- Validation and the weighing of an update leave the kind of an item and its stock mode.
use aurum_pos.Prelude.{
  ◌≡◌, ◌⊎◌, refl, sym, ap, ◌∙◌, Bool, true, false, not, ◌&&◌, Option, none, some, is_none,
  or_default, ok, raise_if, or_raise, >>=-eq-ok, >>-eq-ok, ok-injective, Bool-cases, inl, inr,
}
use aurum_pos.Text.{
  Text, text, normalize, lower, lower_char, strip, lstrip, rstrip, cons_stripped, is_space, ◌=ᵗ◌,
}
use aurum_pos.Items.Kinds.{
  ItemType, PricingMethod, StockMode, jewellery, stone, is_weight, is_fixed_rate,
}
use aurum_pos.Items.Schema.{
  fields_in_range, ItemPayload, ItemBase, or_zero, fill_pricing, fill_weight,
  normalize_legacy_payload, parse_item_type, type_text, category_text, payload_method, payload_mode,
  of_payload,
}
use aurum_pos.Items.Schema.Validation.{
  unknown_item_type, field_out_of_range, validate_modes, model_validate, validated, payload_type,
}
use aurum_pos.Tables.Stock.{Item}
use aurum_pos.Tables.Sales.{remaining_weight_edited}
use aurum_pos.Inventory.Weights.{reconcile_remaining_weight}
use aurum_pos.Inventory.Update.{
  type_changes, mode_changes, requested_updates, reconcile_weight, first_weight, edits_remaining,
}
use aurum_pos.Inventory.Fields.{type_name}
use aurum_pos.Inventory.Fields.{ItemUpdate, same_type, same_mode}

pub normalize-type_name : (k : ItemType) → normalize (type_name k) ≡ type_name k
unfolding normalize lower lower_char strip lstrip rstrip cons_stripped is_space
normalize-type_name jewellery = refl
normalize-type_name stone = refl

parse_item_type-type_name : (k : ItemType) → parse_item_type (type_name k) ≡ some k
parse_item_type-type_name jewellery = refl
parse_item_type-type_name stone = refl

-- the two fillers leave the kind and the mode
fill_pricing-kind :
    (is_legacy is_stone : Bool) (category : Text) (method : PricingMethod) (p : ItemPayload)
    → ((fill_pricing is_legacy is_stone category method p).item_type ≡ p.item_type)
      × ((fill_pricing is_legacy is_stone category method p).stock_mode ≡ p.stock_mode)
fill_pricing-kind is_legacy true category method p = (refl, refl)
fill_pricing-kind is_legacy false category method p = elim (Bool-cases (is_fixed_rate method)) [
  | inl fixed ↦ (rw fixed refl, rw fixed refl)
  | inr other ↦ (rw other refl, rw other refl)
]

fill_weight-kind :
    (weighted : Bool) (p : ItemPayload)
    → ((fill_weight weighted p).item_type ≡ p.item_type)
      × ((fill_weight weighted p).stock_mode ≡ p.stock_mode)
fill_weight-kind true p = (refl, refl)
fill_weight-kind false p = (refl, refl)

normalize_legacy_payload-kind :
    (p : ItemPayload)
    → ((normalize_legacy_payload p).item_type ≡ some (type_text p))
      × ((normalize_legacy_payload p).stock_mode ≡ some (payload_mode p))
unfolding normalize_legacy_payload
normalize_legacy_payload-kind p =
    let named = record p {
      category = some (category_text p);
      item_type = some (type_text p);
      pricing_method = some (payload_method p);
      stock_mode = some (payload_mode p);
    } in
    let priced =
      fill_pricing (is_none p.pricing_method) (type_text p =ᵗ text "stone") (category_text p)
        (payload_method p) named in
    let (kind, mode) = fill_weight-kind (is_weight (payload_mode p)) priced in
    let (kind', mode') =
      fill_pricing-kind (is_none p.pricing_method) (type_text p =ᵗ text "stone") (category_text p)
        (payload_method p) named in
    (kind ∙ kind', mode ∙ mode')

pub validated-same : (b v : ItemBase) → validated b ≡ ok v → b ≡ v
validated-same b v e =
    let (_, e1) = >>-eq-ok (raise_if (not (fields_in_range b)) field_out_of_range) _ e in
    ok-injective (>>-eq-ok (validate_modes b) (ok b) e1).1

pub model_validate-kind :
    (p : ItemPayload) (k : ItemType) (mode : StockMode) (v : ItemBase)
    → p.item_type ≡ some (type_name k)
    → p.stock_mode ≡ some mode
    → model_validate p ≡ ok v
    → (v.item_type ≡ k) × (v.stock_mode ≡ mode)
unfolding model_validate
model_validate-kind p k mode v kind m e =
    let (kind', mode') = normalize_legacy_payload-kind p in
    let (found, parsed, e1) = >>=-eq-ok (payload_type (normalize_legacy_payload p)) _ e in
    let typed : type_text p ≡ type_name k =
      ap (λ t. normalize (or_default t (text "jewellery"))) kind ∙ normalize-type_name k in
    let same : found ≡ k = ok-injective (
      sym parsed
      ∙ ap (λ t. or_raise (parse_item_type (or_default t (text "jewellery"))) unknown_item_type)
          (kind' ∙ ap some typed)
      ∙ ap (λ t. or_raise t unknown_item_type) (parse_item_type-type_name k)) in
    let built = validated-same (of_payload found (normalize_legacy_payload p)) v e1 in
    (
      sym (ap (λ b. b.item_type) built) ∙ same,
      sym (ap (λ b. b.stock_mode) built)
          ∙ ap (λ t. or_default t StockMode.quantity)
              (mode' ∙ ap (λ t. some (or_default t StockMode.quantity)) m),
    )

reconcile_weight-kind :
    (item : Item) (u r : ItemUpdate)
    → reconcile_weight item u ≡ ok r
    → (r.item_type ≡ u.item_type) × (r.stock_mode ≡ u.stock_mode)
unfolding reconcile_weight
reconcile_weight-kind item u r e = elim (Bool-cases (is_weight item.base.stock_mode)) [
  | inl weighs ↦
      let total = or_default u.net_weight item.base.net_weight in
      let remaining = or_zero item.base.stock_weight in
      let (_, e1) =
        >>-eq-ok
          (raise_if (edits_remaining remaining u.net_weight u.stock_weight) remaining_weight_edited)
          _ (rw weighs at e) in
      let (left, _, e2) =
        >>=-eq-ok (reconcile_remaining_weight item.base.net_weight remaining total) _ e1 in
      (
        sym (ap (λ x. x.item_type) (ok-injective e2)),
        sym (ap (λ x. x.stock_mode) (ok-injective e2)),
      )
  | inr counts ↦
      let (left, _, e2) =
        >>=-eq-ok (reconcile_remaining_weight 0 0 (first_weight u)) _ (rw counts at e) in
      (
        sym (ap (λ x. x.item_type) (ok-injective e2)),
        sym (ap (λ x. x.stock_mode) (ok-injective e2)),
      )
]

pub requested_updates-kind :
    (item : Item) (u r : ItemUpdate)
    → requested_updates item u ≡ ok r
    → (r.item_type ≡ u.item_type) × (r.stock_mode ≡ u.stock_mode)
unfolding requested_updates
requested_updates-kind item u r e =
    elim (Bool-cases (is_weight (or_default u.stock_mode item.base.stock_mode))) [
      | inl weighs ↦ reconcile_weight-kind item u r (rw weighs at e)
      | inr counts ↦
          let same = ok-injective (rw counts at e) in
          (sym (ap (λ x. x.item_type) same), sym (ap (λ x. x.stock_mode) same))
    ]

pub not-false : (b : Bool) → not b ≡ false → b ≡ true
not-false true h = refl
not-false false h = absurd (cc h)

same_type→eq : (t k : ItemType) → same_type t k ≡ true → t ≡ k
same_type→eq jewellery jewellery h = refl
same_type→eq stone stone h = refl
same_type→eq jewellery stone h = absurd (cc h)
same_type→eq stone jewellery h = absurd (cc h)

same_mode→eq : (m n : StockMode) → same_mode m n ≡ true → m ≡ n
same_mode→eq StockMode.quantity StockMode.quantity h = refl
same_mode→eq StockMode.weight StockMode.weight h = refl
same_mode→eq StockMode.quantity StockMode.weight h = absurd (cc h)
same_mode→eq StockMode.weight StockMode.quantity h = absurd (cc h)

-- an accepted kind is the item's own
pub same_type-requested :
    (item : Item) (t : Option ItemType)
    → type_changes item t ≡ false
    → or_default t item.base.item_type ≡ item.base.item_type
same_type-requested item none h = refl
same_type-requested item (some t) h =
    same_type→eq t item.base.item_type (not-false (same_type t item.base.item_type) h)

pub same_mode-requested :
    (item : Item) (m : Option StockMode)
    → mode_changes item m ≡ false
    → or_default m item.base.stock_mode ≡ item.base.stock_mode
same_mode-requested item none h = refl
same_mode-requested item (some m) h =
    same_mode→eq m item.base.stock_mode (not-false (same_mode m item.base.stock_mode) h)

pub and-false : (a b : Bool) → (a && b) ≡ false → (a ≡ false) ⊎ (b ≡ false)
and-false true b h = inr h
and-false false b h = inl refl
