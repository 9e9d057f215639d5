-- ===== src/Items/Schema/Validation.antt =====
-- app/modules/items/schemas.py: `validate_modes`, `ItemBase.model_validate` and `ItemCreate`.
use aurum_pos.Prelude.{
  not, ◌&&◌, ◌||◌, or_default, is_none, is_some, ltb, ◌==◌, if◌then◌else◌, Outcome, ok, ◌>>=◌, ◌>>◌,
  raise_if, or_raise,
}
use mathlib.Core.Bool.{xor}
use aurum_pos.Text.{text, normalize, ◌=ᵗ◌}
use aurum_pos.Items.Kinds.{ItemType, is_stone, is_fixed_rate, is_ratti, is_weight}
use aurum_pos.Items.Schema.{
  ItemPayload, ItemBase, or_zero, normalize_legacy_payload, parse_item_type, fields_in_range,
  of_payload,
}

pub data ValidationError : Type 0 where
  field_out_of_range : ValidationError
  unknown_item_type : ValidationError
  stone_modes : ValidationError
  stone_needs_ratti : ValidationError
  ratti_only_for_stones : ValidationError
  stone_metal_only_for_stones : ValidationError
  fixed_rate_not_for_weight : ValidationError
  total_weight_not_positive : ValidationError
  remaining_weight_above_total : ValidationError
  quantity_mismatch : ValidationError
  fixed_rate_not_positive : ValidationError
  net_weight_not_positive : ValidationError
  jewellery_identity : ValidationError
  weight_must_start_full : ValidationError

-- the checks on a stone
abbrev stone_modes_check : ItemBase → Outcome ValidationError (Unit {0})
stone_modes_check b =
    raise_if (not (is_ratti b.pricing_method) || is_weight b.stock_mode) stone_modes
    >> raise_if (is_none b.ratti || is_none b.rate_per_ratti) stone_needs_ratti

-- the checks on the stock of a piece of jewellery
abbrev stock_check : ItemBase → Outcome ValidationError (Unit {0})
stock_check b =
    if is_weight b.stock_mode
    then raise_if (is_fixed_rate b.pricing_method) fixed_rate_not_for_weight
      >> raise_if (not (ltb 0 b.net_weight)) total_weight_not_positive
      >> raise_if (is_none b.stock_weight || ltb b.net_weight (or_zero b.stock_weight))
          remaining_weight_above_total
      >> raise_if (xor (ltb 0 (or_zero b.stock_weight)) (b.quantity == 1)) quantity_mismatch
    else if is_fixed_rate b.pricing_method
    then raise_if (not (ltb 0 b.fixed_rate)) fixed_rate_not_positive
    else raise_if (not (ltb 0 b.net_weight)) net_weight_not_positive

unfoldable pub validate_modes : ItemBase → Outcome ValidationError (Unit {0})
validate_modes b =
    if is_stone b.item_type
    then stone_modes_check b
    else raise_if (is_ratti b.pricing_method) ratti_only_for_stones
      >> raise_if (normalize b.metal =ᵗ text "stone") stone_metal_only_for_stones
      >> raise_if (is_some b.ratti || is_some b.rate_per_ratti) ratti_only_for_stones
      >> stock_check b

-- the fields' bounds, then the model's own checks
abbrev pub validated : ItemBase → Outcome ValidationError ItemBase
validated b = raise_if (not (fields_in_range b)) field_out_of_range >> (validate_modes b >> ok b)

-- the normalised kind of a payload
abbrev pub payload_type : ItemPayload → Outcome ValidationError ItemType
payload_type p =
    or_raise (parse_item_type (or_default p.item_type (text "jewellery"))) unknown_item_type

-- `ItemBase.model_validate`
unfoldable pub model_validate : ItemPayload → Outcome ValidationError ItemBase
unfolding normalize_legacy_payload
model_validate raw =
    let p = normalize_legacy_payload raw in payload_type p >>= λ k. validated (of_payload k p)

-- `ItemCreate.model_validate`
unfoldable pub create_validate : ItemPayload → Outcome ValidationError ItemBase
unfolding model_validate
create_validate raw = do
  b ← model_validate raw
  raise_if (not (is_stone b.item_type) && (is_none raw.metal || is_none raw.purity))
      jewellery_identity
  raise_if (is_weight b.stock_mode && not (or_zero b.stock_weight == b.net_weight))
      weight_must_start_full
  ok b
