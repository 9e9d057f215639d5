-- ===== src/Items/Pricing.antt =====
-- app/modules/items/pricing.py: the price breakdown of one item, and the price locked at its sale.
pub mod Bounds
use aurum_pos.Prelude.{ℕ, Bool, ◌||◌, Option, none, some, or_default, if◌then◌else◌}
use aurum_pos.Text.{Text, text, normalize, ◌=ᵗ◌}
use aurum_pos.Decimal.{Decimal, decimal, zero_decimal, ◌+ᵈ◌, ◌*ᵈ◌, div_hundred, round_half_up}
use aurum_pos.Items.Kinds.{
  ItemType, PricingMethod, fixed_rate, fixed_making_charge, making_charge_per_gram, is_stone,
  is_fixed_rate, is_fixed_making, is_ratti,
}
use aurum_pos.Items.Tax.{get_tax_profile}

-- a missing value counts as 0
abbrev pub as_decimal : Option Decimal → Decimal
as_decimal d = or_default d zero_decimal

unfoldable pub quantize_money : Decimal → Decimal
unfolding round_half_up
quantize_money d = decimal (round_half_up d.coef d.places) 2

unfoldable pub legacy_pricing_method : Text → PricingMethod
legacy_pricing_method category =
    let normalized = normalize category in
    if normalized =ᵗ text "unique"
    then fixed_rate
    else if normalized =ᵗ text "other"
    then fixed_making_charge
    else making_charge_per_gram

-- the keyword arguments of `calculate_suggested_price`
pub record PriceInput : Type 0 where
  pub category : Text
  pub net_weight : Decimal
  pub rate_per_gram : Decimal
  pub making_charge : Decimal
  pub fixed_rate : Option Decimal
  pub pricing_method : Option PricingMethod
  pub item_type : ItemType
  pub ratti : Option Decimal
  pub rate_per_ratti : Option Decimal

pub record PriceBreakdown : Type 0 where
  pub method : PricingMethod
  pub rate_per_gram : Decimal
  pub net_weight : Decimal
  pub metal_value : Decimal
  pub making_charge : Decimal
  pub fixed_rate : Decimal
  pub suggested_price : Decimal

abbrev pub method_of : PriceInput → PricingMethod
method_of p = or_default p.pricing_method (legacy_pricing_method p.category)

-- the three summands before rounding
unfoldable pub fixed_part : PriceInput → Decimal
fixed_part p =
    if is_fixed_rate (method_of p) then or_default p.fixed_rate p.making_charge else zero_decimal

unfoldable pub metal_part : PriceInput → Decimal
unfolding ◌*ᵈ◌
metal_part p =
    if is_stone p.item_type || is_ratti (method_of p)
    then as_decimal p.ratti *ᵈ as_decimal p.rate_per_ratti
    else if is_fixed_rate (method_of p)
    then zero_decimal
    else p.net_weight *ᵈ p.rate_per_gram

unfoldable pub making_part : PriceInput → Decimal
unfolding ◌*ᵈ◌
making_part p =
    if is_stone p.item_type || is_ratti (method_of p)
    then zero_decimal
    else if is_fixed_rate (method_of p)
    then zero_decimal
    else if is_fixed_making (method_of p)
    then p.making_charge
    else p.making_charge *ᵈ p.net_weight

unfoldable pub calculate_suggested_price : PriceInput → PriceBreakdown
unfolding fixed_part metal_part making_part quantize_money ◌+ᵈ◌
calculate_suggested_price p =
    let metal = metal_part p in
    let making = making_part p in
    let fixed = fixed_part p in
    record {
      method = method_of p;
      rate_per_gram = p.rate_per_gram;
      net_weight = p.net_weight;
      metal_value = quantize_money metal;
      making_charge = quantize_money making;
      fixed_rate = quantize_money fixed;
      suggested_price = quantize_money (metal +ᵈ making +ᵈ fixed);
    }

pub record LockedPrice : Type 0 where
  pub calculation : PriceBreakdown
  pub hsn : ℕ
  pub item_purity : Decimal
  pub effective_purity : Decimal
  pub subtotal : Decimal
  pub gst_rate_percent : Decimal
  pub gst_amount : Decimal
  pub final_price : Decimal

unfoldable pub lock_price_at_sale : Text → Decimal → Option Decimal → PriceInput → LockedPrice
unfolding quantize_money ◌+ᵈ◌ ◌*ᵈ◌ div_hundred
lock_price_at_sale metal purity tax_rate_percent p =
    let calculation =
      calculate_suggested_price (record p { pricing_method = some (method_of p) }) in
    let subtotal = calculation.suggested_price in
    let tax = get_tax_profile metal p.category p.item_type in
    let gst_rate = or_default tax_rate_percent tax.gst_rate_percent in
    let gst_amount = quantize_money (div_hundred (subtotal *ᵈ gst_rate)) in
    record {
      calculation = calculation;
      hsn = tax.hsn;
      item_purity = purity;
      effective_purity = if normalize metal =ᵗ text "silver" then decimal 100 0 else purity;
      subtotal = quantize_money subtotal;
      gst_rate_percent = gst_rate;
      gst_amount = gst_amount;
      final_price = quantize_money (subtotal +ᵈ gst_amount);
    }
