-- ===== src/Items/Tax.antt =====
-- app/modules/items/tax.py: the tax profile of an item.
use aurum_pos.Prelude.{ℕ, ◌≡◌, arith, if◌then◌else◌}
use aurum_pos.Text.{Text, text, normalize, ◌=ᵗ◌}
use aurum_pos.Decimal.{Decimal, decimal}
use aurum_pos.Items.Kinds.{ItemType, is_stone}

pub record TaxProfile : Type 0 where
  pub hsn : ℕ
  pub gst_rate_percent : Decimal

-- `metal` is an argument that the code does not read
unfoldable pub get_tax_profile : Text → Text → ItemType → TaxProfile
get_tax_profile metal category item_type =
    if is_stone item_type
    then record {
      hsn = if normalize category =ᵗ text "moti" then 7101 else 7103;
      gst_rate_percent = decimal 300 2;
    }
    else if normalize category =ᵗ text "coin"
    then record { hsn = 7118; gst_rate_percent = decimal 300 2 }
    else record { hsn = 7113; gst_rate_percent = decimal 300 2 }

-- every profile taxes at 3.00%
pub gst_rate_percent-eq :
    (metal category : Text) (item_type : ItemType)
    → (get_tax_profile metal category item_type).gst_rate_percent ≡ decimal 300 2
unfolding get_tax_profile
gst_rate_percent-eq metal category item_type = ground arith
