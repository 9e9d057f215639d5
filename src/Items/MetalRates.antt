-- ===== src/Items/MetalRates.antt =====
-- app/modules/metal_rates/service.py: the conversion of a 100% rate to an item's purity.
use aurum_pos.Prelude.{if◌then◌else◌}
use aurum_pos.Text.{Text, text, normalize, ◌=ᵗ◌}
use aurum_pos.Decimal.{Decimal, ◌*ᵈ◌, div_hundred}

unfoldable pub calculate_effective_rate_per_gram : Text → Decimal → Decimal → Decimal
unfolding ◌*ᵈ◌ div_hundred
calculate_effective_rate_per_gram metal purity base_rate =
    if normalize metal =ᵗ text "silver" then base_rate else div_hundred (base_rate *ᵈ purity)
