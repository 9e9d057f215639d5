-- ===== src/Items/Schema.antt =====
-- app/modules/items/schemas.py: `ItemBase`, the payload's normalisation and its validation, and the
-- CHECK constraints of app/modules/items/models.py, which a saved row must meet.
-- Weights, money, purity and ratti are natural numbers of one small unit, thousandths, so that
-- `ge=0` holds by itself; values with more than three decimals are left out.
-- A payload field is `none` if it is missing. `category` and `item_type` are what `str` makes of the
-- value, so that a null is the text None. A null of the pricing method, or of a field whose default is
-- None, is as if missing, in the code as here; payloads with a null in another field are left out.
pub mod Validation
pub mod Contract
pub mod Rounded
use aurum_pos.Prelude.{
  ℕ, ◌+◌, ◌*◌, ◌/◌, map_option, Bool, true, false, not, ◌&&◌, Option, none, some, or_default,
  is_none, ltb, leb, if◌then◌else◌, length,
}
use aurum_pos.Text.{Text, text, normalize, ◌=ᵗ◌}
use aurum_pos.Items.Kinds.{
  ItemType, PricingMethod, StockMode, jewellery, stone, rate_per_ratti, is_fixed_rate, is_weight,
}
use aurum_pos.Items.Catalog.{normalize_category}
use aurum_pos.Items.Pricing.{legacy_pricing_method}

pub record ItemPayload : Type 0 where
  pub sku : Text
  pub barcode : Option Text
  pub name : Text
  pub notes : Option Text
  pub category : Option Text
  pub item_type : Option Text
  pub pricing_method : Option PricingMethod
  pub stock_mode : Option StockMode
  pub metal : Option Text
  pub purity : Option ℕ
  pub net_weight : Option ℕ
  pub making_charge : Option ℕ
  pub fixed_rate : Option ℕ
  pub stock_weight : Option ℕ
  pub ratti : Option ℕ
  pub rate_per_ratti : Option ℕ
  pub quantity : Option ℕ

pub record ItemBase : Type 0 where
  pub sku : Text
  pub barcode : Option Text
  pub name : Text
  pub notes : Option Text
  pub category : Text
  pub item_type : ItemType
  pub pricing_method : PricingMethod
  pub stock_mode : StockMode
  pub metal : Text
  pub purity : ℕ
  pub net_weight : ℕ
  pub making_charge : ℕ
  pub fixed_rate : ℕ
  pub stock_weight : Option ℕ
  pub ratti : Option ℕ
  pub rate_per_ratti : Option ℕ
  pub quantity : ℕ

abbrev pub purity_max : ℕ
purity_max = 100_000

-- `values.get(key, 0) or 0`
abbrev pub or_zero : Option ℕ → ℕ
or_zero n = or_default n 0

-- the branch on the kind of item; `is_legacy` says that no pricing method was given
abbrev pub fill_pricing : Bool → Bool → Text → PricingMethod → ItemPayload → ItemPayload
fill_pricing is_legacy true category method p = record p {
  metal = some (text "stone");
  purity = some 0;
  net_weight = some 0;
  making_charge = some 0;
  fixed_rate = some 0;
  stock_weight = none;
}
fill_pricing is_legacy false category method p =
    if is_fixed_rate method
    then record p {
      fixed_rate =
          if is_none p.fixed_rate && ltb 0 (or_zero p.making_charge)
          then some (or_zero p.making_charge)
          else p.fixed_rate;
      making_charge = some 0;
      stock_weight = none;
      net_weight = if is_legacy && (category =ᵗ text "unique") then some 0 else p.net_weight;
    }
    else record p { fixed_rate = some 0 }

abbrev pub fill_weight : Bool → ItemPayload → ItemPayload
fill_weight true p =
    let given = or_zero p.net_weight in
    let left = or_zero p.stock_weight in
    let total = if not (ltb 0 given) && ltb 0 left then left else given in
    let remaining = if is_none p.stock_weight then total else left in
    record p {
      net_weight = some total;
      stock_weight = some remaining;
      quantity = some (if ltb 0 remaining then 1 else 0);
    }
fill_weight false p = record p { stock_weight = none }

-- `item_type` as the code compares it
abbrev pub type_text : ItemPayload → Text
type_text p = normalize (or_default p.item_type (text "jewellery"))

abbrev pub category_text : ItemPayload → Text
category_text p = normalize_category (or_default p.category (text "jewellery"))

abbrev pub payload_is_stone : ItemPayload → Bool
payload_is_stone p = type_text p =ᵗ text "stone"

abbrev pub payload_method : ItemPayload → PricingMethod
payload_method p =
    or_default p.pricing_method
      (if payload_is_stone p then rate_per_ratti else legacy_pricing_method (category_text p))

abbrev pub payload_mode : ItemPayload → StockMode
payload_mode p = or_default p.stock_mode StockMode.quantity

unfoldable pub normalize_legacy_payload : ItemPayload → ItemPayload
normalize_legacy_payload p =
    let category = category_text p in
    let item_type = type_text p in
    let method = payload_method p in
    let mode = payload_mode p in
    let named = record p {
      category = some category;
      item_type = some item_type;
      pricing_method = some method;
      stock_mode = some mode;
    } in
    fill_weight (is_weight mode)
      (fill_pricing (is_none p.pricing_method) (item_type =ᵗ text "stone") category method named)

-- the `Literal` of `item_type`
abbrev pub parse_item_type : Text → Option ItemType
parse_item_type t =
    if t =ᵗ text "stone" then some stone else if t =ᵗ text "jewellery" then some jewellery else none

abbrev pub positive : Option ℕ → Bool
positive none = true
positive (some n) = ltb 0 n

abbrev pub length_between : ℕ → ℕ → Text → Bool
length_between lo hi t = leb lo (length t) && leb (length t) hi

-- the `Field` bounds
unfoldable pub fields_in_range : ItemBase → Bool
fields_in_range b =
    length_between 1 50 b.sku
    && length_between 0 100 (or_default b.barcode (text ""))
    && length_between 1 20 b.category
    && length_between 1 255 b.name
    && length_between 1 50 b.metal
    && length_between 0 50 (or_default b.notes (text ""))
    && leb b.purity purity_max
    && positive b.ratti
    && positive b.rate_per_ratti

-- the fields of a normalised payload, with the model's defaults
abbrev pub of_payload : ItemType → ItemPayload → ItemBase
of_payload item_type p = record {
  sku = p.sku;
  barcode = p.barcode;
  name = p.name;
  notes = p.notes;
  category = or_default p.category (text "jewellery");
  item_type = item_type;
  pricing_method = or_default p.pricing_method rate_per_ratti;
  stock_mode = or_default p.stock_mode StockMode.quantity;
  metal = or_default p.metal (text "gold");
  purity = or_zero p.purity;
  net_weight = or_zero p.net_weight;
  making_charge = or_zero p.making_charge;
  fixed_rate = or_zero p.fixed_rate;
  stock_weight = p.stock_weight;
  ratti = p.ratti;
  rate_per_ratti = p.rate_per_ratti;
  quantity = or_default p.quantity 1;
}

-- a column `Numeric(_, 2)` keeps hundredths, rounded half up
unfoldable pub to_hundredths : ℕ → ℕ
to_hundredths n = 10 * ((n + 5) / 10)

-- the row that the table keeps of the values
unfoldable pub stored : ItemBase → ItemBase
stored b = record b {
  purity = to_hundredths b.purity;
  making_charge = to_hundredths b.making_charge;
  fixed_rate = to_hundredths b.fixed_rate;
  rate_per_ratti = map_option to_hundredths b.rate_per_ratti;
}
