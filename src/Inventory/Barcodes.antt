-- ===== src/Inventory/Barcodes.antt =====
-- `generate_unique_barcode` and the barcode lookups of app/modules/items/service.py.
use aurum_pos.Prelude.{
  ℕ, ◌≡◌, Bool, true, false, ◌&&◌, Option, none, some, is_none, List, [], ◌∷◌, ◌==◌, find, any,
  if◌then◌else◌, Outcome, ok, err, arith,
}
use aurum_pos.Text.{Text, ◌=ᵗ◌, =ᵗ_refl}
use aurum_pos.Items.Kinds.{is_in_stock}
use aurum_pos.Tables.Stock.{Item}
use aurum_pos.Tables.Sales.{Store, Fault, barcodes_exhausted}
use aurum_pos.Subscriptions.{mem_text}

abbrev pub has_barcode : Text → Item → Bool
has_barcode barcode i = elim i.base.barcode [ none ↦ false | some b ↦ b =ᵗ barcode ]

-- archived items keep their barcodes
unfoldable pub barcode_taken : Store → ℕ → Text → Bool
barcode_taken db shop_id barcode = any (λ i. i.shop_id == shop_id && has_barcode barcode i) db.items

-- The random draws are an argument, one text of eight digits for each attempt; the code makes twenty.
-- The result is the barcode, with the reserved ones where they are tracked.
unfoldable pub generate_unique_barcode :
    Store → ℕ → List Text → List Text → Outcome Fault (Text × List Text)
unfolding barcode_taken
generate_unique_barcode db shop_id reserved [] = err barcodes_exhausted
generate_unique_barcode db shop_id reserved (barcode ∷ draws) =
    let again = generate_unique_barcode db shop_id reserved draws in
    if mem_text barcode reserved
    then again
    else if barcode_taken db shop_id barcode
    then again
    else ok (barcode, barcode ∷ reserved)

unfoldable pub get_item_by_barcode : Store → ℕ → Text → Option Item
get_item_by_barcode db shop_id barcode =
    find (λ i. has_barcode barcode i && i.shop_id == shop_id && is_none i.archived_at) db.items

unfoldable pub get_item_for_pos_by_barcode : Store → ℕ → Text → Option Item
get_item_for_pos_by_barcode db shop_id barcode =
    find
      (λ i.
        has_barcode barcode i
        && i.shop_id == shop_id
        && is_in_stock i.status
        && is_none i.archived_at)
      db.items

-- A generated barcode is one of the draws, new to the shop and to the batch, and becomes reserved.
pub generate_unique_barcode-fresh :
    (db : Store) (shop_id : ℕ) (reserved draws : List Text) (barcode : Text) (after : List Text)
    → generate_unique_barcode db shop_id reserved draws ≡ ok (barcode, after)
    → (barcode_taken db shop_id barcode ≡ false)
      × (mem_text barcode reserved ≡ false)
      × (after ≡ barcode ∷ reserved)
      × (mem_text barcode draws ≡ true)
unfolding generate_unique_barcode
generate_unique_barcode-fresh db shop_id reserved [] barcode after e = cc
generate_unique_barcode-fresh db shop_id reserved (d ∷ draws) barcode after e =
    ground (arith, =ᵗ_refl d, generate_unique_barcode-fresh db shop_id reserved draws barcode after)
