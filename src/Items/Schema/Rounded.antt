-- ===== src/Items/Schema/Rounded.antt =====
-- The CHECK constraints of app/modules/items/models.py after the columns have rounded the values.
use aurum_pos.Prelude.{ℕ, Bool, true, false, ◌&&◌, ◌≡◌, ◌≤◌, ◌==◌, ltb, arith, ok}
use aurum_pos.Items.Schema.{ItemPayload, ItemBase, or_zero, purity_max, to_hundredths, stored}
use aurum_pos.Items.Schema.Validation.{model_validate}
use aurum_pos.Items.Schema.Contract.{
  items_type_contract, items_stock_contract, items_pricing_contract, items_purity_range,
  model_validate-checked,
}

-- a positive amount that a column of hundredths rounds to zero
abbrev pub vanishes : ℕ → Bool
vanishes n = ltb 0 n && ltb n 5

to_hundredths-zero : (n : ℕ) → vanishes n ≡ false → (to_hundredths n == 0) ≡ (n == 0)
unfolding to_hundredths
to_hundredths-zero n h = ground arith

to_hundredths-positive : (n : ℕ) → vanishes n ≡ false → ltb 0 (to_hundredths n) ≡ ltb 0 n
unfolding to_hundredths
to_hundredths-positive n h = ground arith

to_hundredths-of_zero : (n : ℕ) → (n == 0) ≡ true → (to_hundredths n == 0) ≡ true
unfolding to_hundredths
to_hundredths-of_zero n h = ground arith

to_hundredths-le : (n : ℕ) → n ≤ purity_max → to_hundredths n ≤ purity_max
unfolding to_hundredths
to_hundredths-le n h = omega arith

-- the stored row of checked values
module _ (b : ItemBase) (has_rate : vanishes b.fixed_rate ≡ false)
    (has_ratti_rate : vanishes (or_zero b.rate_per_ratti) ≡ false) where
  stored-type : items_type_contract b ≡ true → items_type_contract (stored b) ≡ true
  unfolding items_type_contract stored
  stored-type h = ground (
    arith,
    to_hundredths-of_zero b.purity,
    to_hundredths-of_zero b.making_charge,
    to_hundredths-zero b.fixed_rate has_rate,
    to_hundredths-positive (or_zero b.rate_per_ratti) has_ratti_rate,
  )

  stored-pricing : items_pricing_contract b ≡ true → items_pricing_contract (stored b) ≡ true
  unfolding items_pricing_contract stored
  stored-pricing h = ground (
    arith,
    to_hundredths-of_zero b.making_charge,
    to_hundredths-zero b.fixed_rate has_rate,
    to_hundredths-positive b.fixed_rate has_rate,
  )

  stored-stock : items_stock_contract b ≡ true → items_stock_contract (stored b) ≡ true
  unfolding items_stock_contract stored
  stored-stock h = h

  stored-purity : items_purity_range b ≡ true → items_purity_range (stored b) ≡ true
  unfolding items_purity_range stored
  stored-purity h = ground (arith, to_hundredths-le b.purity)

-- Whatever payload of values with at most three decimals the schema accepts makes a row that, with
-- purity, charges and rates rounded to the hundredths that their columns keep, meets every CHECK constraint of the table on kinds, stock, prices
-- and purity, unless its fixed rate or its rate per ratti is positive and less than half a hundredth.
pub model_validate-contract :
    (raw : ItemPayload) {b : ItemBase}
    → model_validate raw ≡ ok b
    → vanishes b.fixed_rate ≡ false
    → vanishes (or_zero b.rate_per_ratti) ≡ false
    → (items_type_contract (stored b) ≡ true)
      × (items_stock_contract (stored b) ≡ true)
      × (items_pricing_contract (stored b) ≡ true)
      × (items_purity_range (stored b) ≡ true)
model_validate-contract raw {b} valid has_rate has_ratti_rate =
    let (type, stock, pricing, purity) = model_validate-checked raw valid in
    (
      stored-type b has_rate has_ratti_rate type,
      stored-stock b has_rate has_ratti_rate stock,
      stored-pricing b has_rate has_ratti_rate pricing,
      stored-purity b has_rate has_ratti_rate purity,
    )
