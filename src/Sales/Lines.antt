-- ===== src/Sales/Lines.antt =====
-- The priced lines of a sale: the part of `_execute_create_sale` (app/modules/sales/service.py) from
-- the metal rates to the sale items.
use aurum_pos.Prelude.{
  ℕ, ◌*◌, Bool, not, ◌&&◌, Option, none, some, or_default, is_some, List, [], ◌∷◌, map, ◌==◌, leb,
  find, select, if◌then◌else◌, Outcome, ok, ◌>>=◌, or_raise,
}
use aurum_pos.Text.{Text, lower, ◌=ᵗ◌}
use aurum_pos.Decimal.{Decimal, decimal, zero_decimal}
use aurum_pos.Items.Kinds.{is_stone, is_fixed_rate}
use aurum_pos.Items.Schema.{purity_max}
use aurum_pos.Items.Pricing.{PriceInput, lock_price_at_sale}
use aurum_pos.Items.MetalRates.{calculate_effective_rate_per_gram}
use aurum_pos.Tables.Stock.{Item, MetalRate}
use aurum_pos.Tables.Sales.{SaleItem, Store, Fault, metal_rate_missing, key_error}
use aurum_pos.Subscriptions.{mem_text}
use aurum_pos.Sales.Cart.{Cart, get}

abbrev pub needs_rate : Item → Bool
needs_rate i = not (is_stone i.base.item_type) && not (is_fixed_rate i.base.pricing_method)

-- `ORDER BY effective_from DESC`
abbrev pub insert_rate : MetalRate → List MetalRate → List MetalRate
insert_rate r [] = r ∷ []
insert_rate r (s ∷ rates) =
    if leb s.effective_from r.effective_from then r ∷ s ∷ rates else s ∷ insert_rate r rates

abbrev pub newest_first : List MetalRate → List MetalRate
newest_first [] = []
newest_first (r ∷ rates) = insert_rate r (newest_first rates)

abbrev pub metal_names : List Item → List Text
metal_names items = map (λ i. lower i.base.metal) (select needs_rate items)

-- the shop's 100% rates of the metals that the items need
unfoldable pub fetch_rates : Store → ℕ → List Item → List MetalRate
fetch_rates db shop_id items = newest_first (
    select
      (λ r.
        r.shop_id == shop_id
        && mem_text (lower r.metal) (metal_names items)
        && r.purity == purity_max)
      db.metal_rates)

-- `rate_by_metal.get(...)`: `setdefault` keeps the newest rate of a metal
abbrev pub rate_by_metal : List MetalRate → Text → Option MetalRate
rate_by_metal rates metal = find (λ r. lower r.metal =ᵗ lower metal) rates

unfoldable pub effective_rate : List MetalRate → Item → Outcome Fault Decimal
effective_rate rates item =
    if needs_rate item
    then (or_raise (rate_by_metal rates item.base.metal) metal_rate_missing >>= λ selected. ok (
        calculate_effective_rate_per_gram item.base.metal (decimal item.base.purity 3)
          (decimal selected.rate_per_gram 2)))
    else ok zero_decimal

abbrev pub thousandths : Option ℕ → Option Decimal
thousandths none = none
thousandths (some n) = some (decimal n 3)

-- the arguments that an item's columns and the sold weight give
unfoldable pub price_input : Item → Option ℕ → Decimal → PriceInput
price_input item sold_weight rate =
    let base = item.base in
    record {
      category = base.category;
      net_weight = decimal (or_default sold_weight base.net_weight) 3;
      rate_per_gram = rate;
      making_charge = decimal base.making_charge 3;
      fixed_rate = some (decimal base.fixed_rate 3);
      pricing_method = some base.pricing_method;
      item_type = base.item_type;
      ratti = thousandths base.ratti;
      rate_per_ratti = thousandths base.rate_per_ratti;
    }

-- one sale item; the final price is in paise
unfoldable pub sale_line : ℕ → ℕ → Cart → Item → Decimal → SaleItem
sale_line sale_id shop_id c item rate =
    let quantity_requested = or_default (get item.id c.quantities) 1 in
    let sold_weight = get item.id c.weights in
    let breakdown =
      lock_price_at_sale item.base.metal (decimal item.base.purity 3) none
        (price_input item sold_weight rate) in
    let line_multiplier = if is_some sold_weight then 1 else quantity_requested in
    record {
      sale_id = sale_id;
      shop_id = shop_id;
      item_id = item.id;
      quantity = quantity_requested;
      price = breakdown.final_price.coef * line_multiplier;
      breakdown = breakdown;
      sold_weight = sold_weight;
    }

unfoldable pub sale_lines :
    ℕ → ℕ → Cart → List Item → List MetalRate → List ℕ → Outcome Fault (List SaleItem)
sale_lines sale_id shop_id c items rates [] = ok []
sale_lines sale_id shop_id c items rates (item_id ∷ ids) = do
  item ← or_raise (find (λ i. i.id == item_id) items) key_error
  rate ← effective_rate rates item
  rest ← sale_lines sale_id shop_id c items rates ids
  ok (sale_line sale_id shop_id c item rate ∷ rest)
