-- ===== src/Inventory/Update/Weighed.antt =====
-- Validation keeps the weights of an item that is sold by weight.
use aurum_pos.Prelude.{
  ℕ, ◌<◌, ◌≡◌, refl, sym, ap, ◌∙◌, Bool, true, false, some, is_none, or_default, ok, >>=-eq-ok,
  Bool-cases, inl, inr, arith,
}
use aurum_pos.Text.{Text, text, normalize, ◌=ᵗ◌}
use aurum_pos.Items.Kinds.{
  ItemType, PricingMethod, StockMode, jewellery, stone, is_stone, is_weight, is_fixed_rate,
  rate_per_ratti,
}
use aurum_pos.Items.Schema.{
  ItemPayload, ItemBase, or_zero, fill_pricing, fill_weight, normalize_legacy_payload, type_text,
  category_text, payload_method, payload_mode, of_payload,
}
use aurum_pos.Items.Schema.Validation.{model_validate, payload_type}
use aurum_pos.Items.Schema.Contract.{items_stock_contract, model_validate-checked}
use aurum_pos.Inventory.Fields.{type_name}
use aurum_pos.Inventory.Update.Kinds.{validated-same, normalize-type_name, model_validate-kind}

fill_pricing-method :
    (is_legacy is_stone : Bool) (category : Text) (method : PricingMethod) (p : ItemPayload)
    → (fill_pricing is_legacy is_stone category method p).pricing_method ≡ p.pricing_method
fill_pricing-method is_legacy true category method p = refl
fill_pricing-method is_legacy false category method p = elim (Bool-cases (is_fixed_rate method)) [
  | inl fixed ↦ rw fixed refl
  | inr other ↦ rw other refl
]

fill_weight-method :
    (weighted : Bool) (p : ItemPayload) → (fill_weight weighted p).pricing_method ≡ p.pricing_method
fill_weight-method true p = refl
fill_weight-method false p = refl

fill_weight-weights :
    (total remaining : ℕ) (p : ItemPayload)
    → 0 < total
    → p.net_weight ≡ some total
    → p.stock_weight ≡ some remaining
    → ((fill_weight true p).net_weight ≡ some total)
      × ((fill_weight true p).stock_weight ≡ some remaining)
fill_weight-weights total remaining p h n s =
    (rw (n, s) (ground (arith, h)), rw (n, s) (ground (arith, h)))

stone-text : (k : ItemType) → is_stone k ≡ false → (type_name k =ᵗ text "stone") ≡ false
stone-text jewellery h = refl
stone-text stone h = absurd (cc h)

abbrev named : ItemPayload → ItemPayload
named p = record p {
  category = some (category_text p);
  item_type = some (type_text p);
  pricing_method = some (payload_method p);
  stock_mode = some (payload_mode p);
}

abbrev priced : ItemPayload → ItemPayload
priced p =
    fill_pricing (is_none p.pricing_method) (type_text p =ᵗ text "stone") (category_text p)
      (payload_method p) (named p)

normalize_legacy_payload-method :
    (p : ItemPayload) → (normalize_legacy_payload p).pricing_method ≡ some (payload_method p)
unfolding normalize_legacy_payload
normalize_legacy_payload-method p =
    fill_weight-method (is_weight (payload_mode p)) (priced p)
    ∙ fill_pricing-method (is_none p.pricing_method) (type_text p =ᵗ text "stone") (category_text p)
        (payload_method p) (named p)

fill_pricing-weights :
    (is_legacy : Bool) (category : Text) (method : PricingMethod) (p : ItemPayload)
    → is_fixed_rate method ≡ false
    → ((fill_pricing is_legacy false category method p).net_weight ≡ p.net_weight)
      × ((fill_pricing is_legacy false category method p).stock_weight ≡ p.stock_weight)
fill_pricing-weights is_legacy category method p h = (rw h refl, rw h refl)

priced-weights :
    (p : ItemPayload)
    → (type_text p =ᵗ text "stone") ≡ false
    → is_fixed_rate (payload_method p) ≡ false
    → ((priced p).net_weight ≡ p.net_weight) × ((priced p).stock_weight ≡ p.stock_weight)
priced-weights p t f =
    let at : Bool → ItemPayload = λ b.
      fill_pricing (is_none p.pricing_method) b (category_text p) (payload_method p) (named p) in
    let (net, stock) =
      fill_pricing-weights (is_none p.pricing_method) (category_text p) (payload_method p) (named p)
        f in
    (ap (λ b. (at b).net_weight) t ∙ net, ap (λ b. (at b).stock_weight) t ∙ stock)

normalize_legacy_payload-weights :
    (p : ItemPayload) (total remaining : ℕ)
    → is_weight (payload_mode p) ≡ true
    → (type_text p =ᵗ text "stone") ≡ false
    → is_fixed_rate (payload_method p) ≡ false
    → p.net_weight ≡ some total
    → p.stock_weight ≡ some remaining
    → 0 < total
    → ((normalize_legacy_payload p).net_weight ≡ some total)
      × ((normalize_legacy_payload p).stock_weight ≡ some remaining)
unfolding normalize_legacy_payload
normalize_legacy_payload-weights p total remaining w t f n s h =
    let (net, stock) = priced-weights p t f in
    let (net', stock') = fill_weight-weights total remaining (priced p) h (net ∙ n) (stock ∙ s) in
    (
      ap (λ b. (fill_weight b (priced p)).net_weight) w ∙ net',
      ap (λ b. (fill_weight b (priced p)).stock_weight) w ∙ stock',
    )

module _ (p : ItemPayload) (k : ItemType) (v : ItemBase) (total remaining : ℕ) where
  pub model_validate-weights :
      p.item_type ≡ some (type_name k)
      → p.stock_mode ≡ some StockMode.weight
      → p.net_weight ≡ some total
      → p.stock_weight ≡ some remaining
      → 0 < total
      → model_validate p ≡ ok v
      → (v.net_weight ≡ total) × (v.stock_weight ≡ some remaining)
  unfolding model_validate normalize_legacy_payload items_stock_contract
  model_validate-weights kind m n s h e =
      let (k_eq, mode_eq) = model_validate-kind p k StockMode.weight v kind m e in
      let contract = (model_validate-checked p e).1 in
      let weighs : is_weight v.stock_mode ≡ true = ap is_weight mode_eq in
      let (found, _, e1) = >>=-eq-ok (payload_type (normalize_legacy_payload p)) _ e in
      let built = validated-same (of_payload found (normalize_legacy_payload p)) v e1 in
      let not_stone : is_stone v.item_type ≡ false = ground (arith, contract, weighs) in
      let not_fixed : is_fixed_rate v.pricing_method ≡ false = ground (arith, contract, weighs) in
      let typed : type_text p ≡ type_name k =
        ap (λ t. normalize (or_default t (text "jewellery"))) kind ∙ normalize-type_name k in
      let plain : (type_text p =ᵗ text "stone") ≡ false =
        ap (λ t. t =ᵗ text "stone") typed ∙ stone-text k (ap is_stone (sym k_eq) ∙ not_stone) in
      let method : v.pricing_method ≡ payload_method p =
        sym (ap (λ b. b.pricing_method) built)
        ∙ ap (λ t. or_default t rate_per_ratti) (normalize_legacy_payload-method p) in
      let mode : is_weight (payload_mode p) ≡ true =
        ap (λ t. is_weight (or_default t StockMode.quantity)) m in
      let (net, stock) =
        normalize_legacy_payload-weights p total remaining mode plain
          (ap is_fixed_rate (sym method) ∙ not_fixed) n s h in
      (
        sym (ap (λ b. b.net_weight) built) ∙ ap or_zero net,
        sym (ap (λ b. b.stock_weight) built) ∙ stock,
      )
