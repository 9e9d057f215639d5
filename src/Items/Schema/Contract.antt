-- ===== src/Items/Schema/Contract.antt =====
-- The CHECK constraints of app/modules/items/models.py, and what the schema's validation guarantees.
use aurum_pos.Prelude.{
  ℕ, Bool, true, false, not, ◌&&◌, ◌||◌, ◌≡◌, ◌≤◌, Option, none, some, is_none, is_some, ltb, leb,
  ◌==◌, refl, ok, ◌>>◌, arith, Bool-cases, inl, inr, subst, >>=-eq-ok, >>-eq-ok, raise_if-eq-ok,
  or_raise-eq-ok, ok-injective, or_default, raise_if,
}
use aurum_pos.Text.{Text, text, normalize, ◌=ᵗ◌, =ᵗ→eq}
use aurum_pos.Items.Kinds.{
  ItemType, StockMode, PricingMethod, jewellery, stone, weight, is_stone, is_fixed_rate, is_ratti,
  is_weight,
}
use aurum_pos.Items.Schema.{
  ItemPayload, ItemBase, or_zero, payload_is_stone, normalize_legacy_payload, parse_item_type,
  fields_in_range, of_payload, purity_max, fill_weight, fill_pricing, category_text, type_text,
  payload_method, payload_mode,
}
use aurum_pos.Items.Schema.Validation.{
  model_validate, validate_modes, payload_type, validated, unknown_item_type, field_out_of_range,
}

abbrev pub some_positive : Option ℕ → Bool
some_positive none = false
some_positive (some n) = ltb 0 n

unfoldable pub items_type_contract : ItemBase → Bool
items_type_contract b =
    (is_stone b.item_type
      && (b.metal =ᵗ text "stone")
      && is_ratti b.pricing_method
      && not (is_weight b.stock_mode)
      && b.purity == 0
      && b.net_weight == 0
      && b.making_charge == 0
      && b.fixed_rate == 0
      && is_none b.stock_weight
      && some_positive b.ratti
      && some_positive b.rate_per_ratti)
    || (not (is_stone b.item_type)
        && not (b.metal =ᵗ text "stone")
        && not (is_ratti b.pricing_method)
        && is_none b.ratti
        && is_none b.rate_per_ratti)

unfoldable pub items_stock_contract : ItemBase → Bool
items_stock_contract b =
    (not (is_weight b.stock_mode) && is_none b.stock_weight)
    || (is_weight b.stock_mode
        && not (is_stone b.item_type)
        && not (is_fixed_rate b.pricing_method)
        && ltb 0 b.net_weight
        && is_some b.stock_weight
        && leb (or_zero b.stock_weight) b.net_weight
        && (b.quantity == 0 || b.quantity == 1))

unfoldable pub items_pricing_contract : ItemBase → Bool
items_pricing_contract b =
    is_stone b.item_type
    || (is_fixed_rate b.pricing_method
        && ltb 0 b.fixed_rate
        && b.making_charge == 0
        && not (is_weight b.stock_mode))
    || (not (is_fixed_rate b.pricing_method)
        && not (is_ratti b.pricing_method)
        && b.fixed_rate == 0
        && ((not (is_weight b.stock_mode) && ltb 0 b.net_weight) || is_weight b.stock_mode))

unfoldable pub items_purity_range : ItemBase → Bool
items_purity_range b = leb b.purity purity_max

-- What normalisation alone settles, whatever the payload was.
record IsNormal (b : ItemBase) : Type 0 where
  stone_fields :
      is_stone b.item_type ≡ true
      → is_weight b.stock_mode ≡ false
      → (b.metal ≡ text "stone")
        × (b.purity ≡ 0)
        × (b.net_weight ≡ 0)
        × (b.making_charge ≡ 0)
        × (b.fixed_rate ≡ 0)
  no_making :
      is_stone b.item_type ≡ false → is_fixed_rate b.pricing_method ≡ true → b.making_charge ≡ 0
  no_fixed :
      is_stone b.item_type ≡ false → is_fixed_rate b.pricing_method ≡ false → b.fixed_rate ≡ 0
  no_stock : is_weight b.stock_mode ≡ false → b.stock_weight ≡ none
  unit_stock : is_weight b.stock_mode ≡ true → b.quantity ≤ 1

parse_item_type-is_stone :
    (t : Text) {k : ItemType} → parse_item_type t ≡ some k → is_stone k ≡ (t =ᵗ text "stone")
parse_item_type-is_stone t h = ground arith

-- normalisation, with what it computes from the payload as variables
module _ (legacy : Bool) (c t : Text) (m : PricingMethod) (raw : ItemPayload) where
  abbrev filled : Bool → StockMode → ItemPayload
  filled s mode = fill_weight (is_weight mode) (
      fill_pricing legacy s c m (record raw {
        category = some c;
        item_type = some t;
        pricing_method = some m;
        stock_mode = some mode;
      }))

  filled-IsNormal :
      (k : ItemType) (mode : StockMode) → IsNormal (of_payload k (filled (is_stone k) mode))
  filled-IsNormal stone StockMode.quantity = ground arith
  filled-IsNormal stone weight = ground arith
  filled-IsNormal jewellery StockMode.quantity = ground arith
  filled-IsNormal jewellery weight = ground arith

  filled_item_type : (s : Bool) (mode : StockMode) → (filled s mode).item_type ≡ some t
  filled_item_type true StockMode.quantity = refl
  filled_item_type true weight = refl
  filled_item_type false StockMode.quantity = ground arith
  filled_item_type false weight = ground arith

normalized_item_type :
    (raw : ItemPayload) → (normalize_legacy_payload raw).item_type ≡ some (type_text raw)
unfolding normalize_legacy_payload
normalized_item_type raw =
    filled_item_type (is_none raw.pricing_method) (category_text raw) (type_text raw)
      (payload_method raw) raw (payload_is_stone raw) (payload_mode raw)

of_payload-IsNormal :
    (raw : ItemPayload) (k : ItemType)
    → is_stone k ≡ payload_is_stone raw
    → IsNormal (of_payload k (normalize_legacy_payload raw))
unfolding normalize_legacy_payload
of_payload-IsNormal raw k e =
    let legacy = is_none raw.pricing_method in
    let c = category_text raw in
    let t = type_text raw in
    let m = payload_method raw in
    subst (λ s. IsNormal (of_payload k (filled legacy c t m raw s (payload_mode raw)))) e
      (filled-IsNormal legacy c t m raw k (payload_mode raw))

model_validate-inv :
    (raw : ItemPayload) {b : ItemBase}
    → model_validate raw ≡ ok b
    → IsNormal b × (fields_in_range b ≡ true) × (validate_modes b ≡ ok tt)
unfolding model_validate
model_validate-inv raw valid =
    let p = normalize_legacy_payload raw in
    let (k, parsed, rest) = >>=-eq-ok (payload_type p) (λ k. validated (of_payload k p)) valid in
    let c = of_payload k p in
    let (ranged, rest') =
      >>-eq-ok (raise_if (not (fields_in_range c)) field_out_of_range) (validate_modes c >> ok c)
        rest in
    let (modes, same) = >>-eq-ok (validate_modes c) (ok c) rest' in
    let known : parse_item_type (type_text raw) ≡ some k = rw (normalized_item_type raw) at (
      or_raise-eq-ok (parse_item_type (or_default p.item_type (text "jewellery"))) unknown_item_type
        parsed) in
    rw (← ok-injective same) (
      of_payload-IsNormal raw k (parse_item_type-is_stone (type_text raw) known),
      ground (arith, raise_if-eq-ok (not (fields_in_range c)) field_out_of_range ranged),
      modes,
    )

stone_metal : (m : Text) → (normalize m =ᵗ text "stone") ≡ false → (m =ᵗ text "stone") ≡ false
unfolding normalize
stone_metal m h = elim (Bool-cases (m =ᵗ text "stone")) [
  | inl e ↦ absurd (cc (rw (=ᵗ→eq m (text "stone") e) at h))
  | inr e ↦ e
]

-- a saved row: normal, in range, and with valid modes
module _ (b : ItemBase) (n : IsNormal b) (f : fields_in_range b ≡ true)
    (v : validate_modes b ≡ ok tt) where
  stock_contract : items_stock_contract b ≡ true
  unfolding items_stock_contract validate_modes
  stock_contract = grind arith

  pricing_contract : items_pricing_contract b ≡ true
  unfolding items_pricing_contract validate_modes
  pricing_contract = grind arith

  type_contract : items_type_contract b ≡ true
  unfolding items_type_contract validate_modes fields_in_range
  type_contract = grind (arith, stone_metal b.metal)

ranges : (b : ItemBase) → fields_in_range b ≡ true → items_purity_range b ≡ true
unfolding fields_in_range items_purity_range
ranges b f = ground arith

-- the accepted values, before the columns round them
pub model_validate-checked :
    (raw : ItemPayload) {b : ItemBase}
    → model_validate raw ≡ ok b
    → (items_type_contract b ≡ true)
      × (items_stock_contract b ≡ true)
      × (items_pricing_contract b ≡ true)
      × (items_purity_range b ≡ true)
model_validate-checked raw {b} valid =
    let (n, f, v) = model_validate-inv raw valid in
    (type_contract b n f v, stock_contract b n f v, pricing_contract b n f v, ranges b f)
