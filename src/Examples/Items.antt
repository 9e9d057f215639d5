-- ===== src/Examples/Items.antt =====
-- Prices, categories and payloads.
use aurum_pos.Prelude.{false, ◌^◌, ◌+◌, ◌*◌, ◌≤◌, ◌<◌, ◌≡◌, refl, true, none, some, ok}
use aurum_pos.Text.{text, normalize}
use aurum_pos.Decimal.{decimal, ◌+ᵈ◌}
use aurum_pos.Items.Kinds.{PricingMethod, jewellery}
use aurum_pos.Items.Catalog.{normalize_category}
use aurum_pos.Items.Pricing.{
  PriceInput, metal_part, making_part, fixed_part, legacy_pricing_method, calculate_suggested_price,
  lock_price_at_sale,
}
use aurum_pos.Items.Pricing.Bounds.{
  final_price-eq-add, suggested_price-near, lock_price_at_sale-rate_free,
}
use aurum_pos.Items.Schema.{
  or_zero, stored, ItemPayload, ItemBase, normalize_legacy_payload, fields_in_range,
}
use aurum_pos.Items.Schema.Validation.{model_validate, validate_modes}
use aurum_pos.Items.Schema.Rounded.{vanishes, model_validate-contract}
use aurum_pos.Items.Schema.Contract.{
  items_type_contract, items_stock_contract, items_pricing_contract, items_purity_range,
}
use aurum_pos.Examples.{value, eq-ok_value, coin_base}

abbrev ring : PriceInput
ring = record {
  category = text "ring";
  net_weight = decimal 3_333 3;
  rate_per_gram = decimal 615_055 2;
  making_charge = decimal 512_500 3;
  fixed_rate = none;
  pricing_method = none;
  item_type = jewellery;
  ratti = none;
  rate_per_ratti = none;
}

final_price-eq-add_example :
    let locked = lock_price_at_sale (text "gold") (decimal 916 1) none ring in
    (locked.final_price.coef ≡ locked.subtotal.coef + locked.gst_amount.coef)
    × (locked.subtotal ≡ locked.calculation.suggested_price)
    × (200 * locked.gst_amount.coef ≤ 6 * locked.subtotal.coef + 100)
    × (6 * locked.subtotal.coef + 100 < 200 * (locked.gst_amount.coef + 1))
final_price-eq-add_example = final_price-eq-add (text "gold") (decimal 916 1) ring

suggested_price-near_example :
    let b = calculate_suggested_price ring in
    let exact = metal_part ring +ᵈ making_part ring +ᵈ fixed_part ring in
    let unit = 10 ^ exact.places in
    let shown = b.metal_value.coef + b.making_charge.coef + b.fixed_rate.coef in
    (2 * b.suggested_price.coef * unit ≤ 200 * exact.coef + unit)
    × (200 * exact.coef + unit < 2 * (b.suggested_price.coef + 1) * unit)
    × (b.suggested_price.coef ≤ shown + 1)
    × (shown ≤ b.suggested_price.coef + 1)
suggested_price-near_example = suggested_price-near ring

abbrev idol : PriceInput
idol = record ring {
  pricing_method = some PricingMethod.fixed_rate;
  fixed_rate = some (decimal 99_950 2);
}

lock_price_at_sale-rate_free_example :
    (lock_price_at_sale
      (text "gold")
      (decimal 916 1)
      none
      (record idol { rate_per_gram = decimal 7 0; net_weight = decimal 8 0 })).final_price
    ≡ (lock_price_at_sale (text "gold") (decimal 916 1) none idol).final_price
lock_price_at_sale-rate_free_example =
    lock_price_at_sale-rate_free (text "gold") (decimal 916 1) (decimal 7 0) (decimal 8 0) idol refl

-- a payload of an older client: no item type, pricing method or stock mode
abbrev payload : ItemPayload
payload = record {
  sku = text "R1";
  barcode = none;
  name = text "Ring";
  notes = none;
  category = some (text "ring");
  item_type = none;
  pricing_method = none;
  stock_mode = none;
  metal = some (text "gold");
  purity = some 91_600;
  net_weight = some 3_333;
  making_charge = some 512_500;
  fixed_rate = none;
  stock_weight = none;
  ratti = none;
  rate_per_ratti = none;
  quantity = some 1;
}

abbrev validated_ring : ItemBase
validated_ring = value (model_validate payload) coin_base

validated_ring-eq : model_validate payload ≡ ok validated_ring
unfolding model_validate normalize_legacy_payload validate_modes fields_in_range normalize
    legacy_pricing_method normalize_category
validated_ring-eq = eq-ok_value (model_validate payload) coin_base refl

rounded_rate : vanishes validated_ring.fixed_rate ≡ false
unfolding model_validate normalize legacy_pricing_method normalize_category fields_in_range
    validate_modes
rounded_rate = refl

rounded_ratti_rate : vanishes (or_zero validated_ring.rate_per_ratti) ≡ false
unfolding model_validate normalize legacy_pricing_method normalize_category fields_in_range
    validate_modes
rounded_ratti_rate = refl

model_validate-contract_example :
    (items_type_contract (stored validated_ring) ≡ true)
    × (items_stock_contract (stored validated_ring) ≡ true)
    × (items_pricing_contract (stored validated_ring) ≡ true)
    × (items_purity_range (stored validated_ring) ≡ true)
model_validate-contract_example =
    model_validate-contract payload validated_ring-eq rounded_rate rounded_ratti_rate
