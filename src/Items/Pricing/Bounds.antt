-- ===== src/Items/Pricing/Bounds.antt =====
-- What the price parts add up to, and what a locked price depends on.
use aurum_pos.Prelude.{
  ℕ, ◌+◌, ◌*◌, ◌/◌, ◌^◌, ◌≤◌, ◌<◌, ◌≡◌, refl, true, ◌||◌, arith, none, ◌⊎◌, inl, inr,
}
use aurum_pos.Text.{Text}
use aurum_pos.Decimal.{Decimal, zero_decimal, ◌+ᵈ◌, round_half_up}
use aurum_pos.Decimal.Rounding.{round_half_up-IsRounded, round_half_up-+ᵈ, +ᵈ_zero}
use aurum_pos.Items.Kinds.{is_stone, is_fixed_rate}
use aurum_pos.Items.Tax.{gst_rate_percent-eq}
use aurum_pos.Items.Pricing.{
  PriceInput, method_of, calculate_suggested_price, lock_price_at_sale, metal_part, making_part,
  fixed_part,
}

halves : (n : ℕ) → (2 * n + 1) / 2 ≡ n
halves n = omega arith

-- The final price is the subtotal plus the tax to the paisa, where no other tax rate is given; the
-- subtotal is the suggested price, and the tax is 3% of it rounded half up.
pub final_price-eq-add :
    (metal : Text) (purity : Decimal) (p : PriceInput)
    → let locked = lock_price_at_sale metal purity none p in
      (locked.final_price.coef ≡ locked.subtotal.coef + locked.gst_amount.coef)
      × (locked.subtotal ≡ locked.calculation.suggested_price)
      × (200 * locked.gst_amount.coef ≤ 6 * locked.subtotal.coef + 100)
      × (6 * locked.subtotal.coef + 100 < 200 * (locked.gst_amount.coef + 1))
unfolding lock_price_at_sale calculate_suggested_price
final_price-eq-add metal purity p =
    simp (gst_rate_percent-eq, halves) (refl, refl, omega arith, omega arith)

-- no price has both a making charge and a fixed part
one_part : (p : PriceInput) → (making_part p ≡ zero_decimal) ⊎ (fixed_part p ≡ zero_decimal)
unfolding making_part fixed_part
one_part p = ground arith

abbrev hundredths : Decimal → ℕ
hundredths d = round_half_up d.coef d.places

IsNear : ℕ → ℕ → Type 0
IsNear x y = (x ≤ y + 1) × (y ≤ x + 1)

three_parts :
    (m k f : Decimal)
    → (k ≡ zero_decimal) ⊎ (f ≡ zero_decimal)
    → IsNear (hundredths (m +ᵈ k +ᵈ f)) (hundredths m + hundredths k + hundredths f)
unfolding round_half_up IsNear
three_parts m k f (inl e) = rw (e, +ᵈ_zero m) (omega (arith, round_half_up-+ᵈ m f))
three_parts m k f (inr e) = rw (e, +ᵈ_zero (m +ᵈ k)) (omega (arith, round_half_up-+ᵈ m k))

-- The suggested price is rounded once, half up, from the exact sum of the metal part, the making
-- charge and the fixed part; it differs by at most one paisa from the metal value, making charge and
-- fixed rate that are shown, each rounded on its own.
pub suggested_price-near :
    (p : PriceInput)
    → let b = calculate_suggested_price p in
      let exact = metal_part p +ᵈ making_part p +ᵈ fixed_part p in
      let unit = 10 ^ exact.places in
      let shown = b.metal_value.coef + b.making_charge.coef + b.fixed_rate.coef in
      (2 * b.suggested_price.coef * unit ≤ 200 * exact.coef + unit)
      × (200 * exact.coef + unit < 2 * (b.suggested_price.coef + 1) * unit)
      × (b.suggested_price.coef ≤ shown + 1)
      × (shown ≤ b.suggested_price.coef + 1)
unfolding calculate_suggested_price IsNear
suggested_price-near p =
    let exact = metal_part p +ᵈ making_part p +ᵈ fixed_part p in
    let rounded = round_half_up-IsRounded exact.coef exact.places in
    let near = three_parts (metal_part p) (making_part p) (fixed_part p) (one_part p) in
    (rounded.0, rounded.1, near.0, near.1)

-- The locked price of a stone, or of an item at a fixed rate, does not depend on the metal rate,
-- which the checkout passes as 0 for them; nor does it depend on the weight.
pub lock_price_at_sale-rate_free :
    (metal : Text) (purity rate weight : Decimal) (p : PriceInput)
    → (is_stone p.item_type || is_fixed_rate (method_of p)) ≡ true
    → let q = record p { rate_per_gram = rate; net_weight = weight } in
      (lock_price_at_sale metal purity none q).final_price
      ≡ (lock_price_at_sale metal purity none p).final_price
unfolding lock_price_at_sale calculate_suggested_price metal_part making_part fixed_part
lock_price_at_sale-rate_free metal purity rate weight p h = ground arith
