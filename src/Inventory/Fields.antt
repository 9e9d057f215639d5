-- ===== src/Inventory/Fields.antt =====
-- The fields of an update: `ItemUpdate` of app/modules/items/schemas.py, and how `update_item` of
-- app/modules/items/service.py compares, merges and writes them. An unset field is `none`; where the
-- column may be null, an explicit null is `some none`; updates with a null for another column are left
-- out. So is the rounding of purity and money to the hundredths of their columns.
use aurum_pos.Prelude.{
  ℕ, Bool, true, false, ◌&&◌, ◌||◌, Option, none, some, is_some, or_default, ◌==◌, if◌then◌else◌,
}
use aurum_pos.Text.{Text, text, ◌=ᵗ◌}
use aurum_pos.Items.Kinds.{
  ItemType, PricingMethod, StockMode, jewellery, stone, fixed_rate, fixed_making_charge,
  making_charge_per_gram, rate_per_ratti,
}
use aurum_pos.Items.Schema.{ItemPayload, ItemBase}

pub record ItemUpdate : Type 0 where
  pub sku : Option Text
  pub barcode : Option (Option Text)
  pub category : Option Text
  pub item_type : Option ItemType
  pub pricing_method : Option PricingMethod
  pub stock_mode : Option StockMode
  pub name : Option Text
  pub metal : Option Text
  pub purity : Option ℕ
  pub net_weight : Option ℕ
  pub making_charge : Option ℕ
  pub fixed_rate : Option ℕ
  pub stock_weight : Option (Option ℕ)
  pub ratti : Option (Option ℕ)
  pub rate_per_ratti : Option (Option ℕ)
  pub quantity : Option ℕ
  pub notes : Option (Option Text)

abbrev pub same_type : ItemType → ItemType → Bool
same_type jewellery jewellery = true
same_type stone stone = true
same_type _ _ = false

abbrev pub same_method : PricingMethod → PricingMethod → Bool
same_method fixed_rate fixed_rate = true
same_method fixed_making_charge fixed_making_charge = true
same_method making_charge_per_gram making_charge_per_gram = true
same_method rate_per_ratti rate_per_ratti = true
same_method _ _ = false

abbrev pub same_mode : StockMode → StockMode → Bool
same_mode StockMode.quantity StockMode.quantity = true
same_mode StockMode.weight StockMode.weight = true
same_mode _ _ = false

abbrev pub same_number : Option ℕ → Option ℕ → Bool
same_number none none = true
same_number (some m) (some n) = m == n
same_number _ _ = false

abbrev pub same_text : Option Text → Option Text → Bool
same_text none none = true
same_text (some s) (some t) = s =ᵗ t
same_text _ _ = false

-- no field differs
unfoldable pub same_fields : ItemBase → ItemBase → Bool
same_fields b c =
    (b.sku =ᵗ c.sku)
    && same_text b.barcode c.barcode
    && (b.category =ᵗ c.category)
    && same_type b.item_type c.item_type
    && same_method b.pricing_method c.pricing_method
    && same_mode b.stock_mode c.stock_mode
    && (b.name =ᵗ c.name)
    && (b.metal =ᵗ c.metal)
    && b.purity == c.purity
    && b.net_weight == c.net_weight
    && b.making_charge == c.making_charge
    && b.fixed_rate == c.fixed_rate
    && same_number b.stock_weight c.stock_weight
    && same_number b.ratti c.ratti
    && same_number b.rate_per_ratti c.rate_per_ratti
    && b.quantity == c.quantity
    && same_text b.notes c.notes

abbrev pub type_name : ItemType → Text
type_name jewellery = text "jewellery"
type_name stone = text "stone"

-- `{**current_item_data, **requested_updates}`
unfoldable pub merged : ItemBase → ItemUpdate → ItemPayload
merged b u = record {
  sku = or_default u.sku b.sku;
  barcode = or_default u.barcode b.barcode;
  name = or_default u.name b.name;
  notes = or_default u.notes b.notes;
  category = some (or_default u.category b.category);
  item_type = some (type_name (or_default u.item_type b.item_type));
  pricing_method = some (or_default u.pricing_method b.pricing_method);
  stock_mode = some (or_default u.stock_mode b.stock_mode);
  metal = some (or_default u.metal b.metal);
  purity = some (or_default u.purity b.purity);
  net_weight = some (or_default u.net_weight b.net_weight);
  making_charge = some (or_default u.making_charge b.making_charge);
  fixed_rate = some (or_default u.fixed_rate b.fixed_rate);
  stock_weight = or_default u.stock_weight b.stock_weight;
  ratti = or_default u.ratti b.ratti;
  rate_per_ratti = or_default u.rate_per_ratti b.rate_per_ratti;
  quantity = some (or_default u.quantity b.quantity);
}

-- an update of one of these fields writes the weights and prices too
abbrev pub is_structural : ItemUpdate → Bool
is_structural u =
    is_some u.category
    || is_some u.item_type
    || is_some u.pricing_method
    || is_some u.stock_mode
    || is_some u.net_weight

-- the validated fields that are written, in the row
unfoldable pub written : ItemUpdate → ItemBase → ItemBase → ItemBase
written u v b =
    let all = is_structural u in
    record {
      sku = if is_some u.sku then v.sku else b.sku;
      barcode = if is_some u.barcode then v.barcode else b.barcode;
      name = if is_some u.name then v.name else b.name;
      notes = if is_some u.notes then v.notes else b.notes;
      category = if is_some u.category then v.category else b.category;
      item_type = if is_some u.item_type then v.item_type else b.item_type;
      pricing_method = if is_some u.pricing_method then v.pricing_method else b.pricing_method;
      stock_mode = if is_some u.stock_mode then v.stock_mode else b.stock_mode;
      metal = if all || is_some u.metal then v.metal else b.metal;
      purity = if all || is_some u.purity then v.purity else b.purity;
      net_weight = if all || is_some u.net_weight then v.net_weight else b.net_weight;
      making_charge = if all || is_some u.making_charge then v.making_charge else b.making_charge;
      fixed_rate = if all || is_some u.fixed_rate then v.fixed_rate else b.fixed_rate;
      stock_weight = if all || is_some u.stock_weight then v.stock_weight else b.stock_weight;
      ratti = if all || is_some u.ratti then v.ratti else b.ratti;
      rate_per_ratti =
          if all || is_some u.rate_per_ratti then v.rate_per_ratti else b.rate_per_ratti;
      quantity = if all || is_some u.quantity then v.quantity else b.quantity;
    }
