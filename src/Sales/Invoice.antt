-- ===== src/Sales/Invoice.antt =====
-- The number of a new invoice: the loop of `_execute_create_sale` in app/modules/sales/service.py.
-- A number is kept as prefix, year and sequence; its text `{prefix}-{year}-{sequence:06d}` determines
-- them, since year and sequence are digits. `upper` is written out for the ASCII letters only, though
-- a prefix may hold any letter that `str.isalnum` accepts.
pub mod Fresh
use aurum_pos.Prelude.{
  ℕ, zero, suc, ◌+◌, ◌-◌, ◌≤◌, ◌<◌, ◌≡◌, refl, Bool, true, false, ◌&&◌, Option, none, some,
  or_default, List, [], ◌∷◌, map, any, count_if, leb, ◌==◌, if◌then◌else◌, arith, Bool-cases, inl,
  inr, length,
}
use aurum_pos.Text.{Text, text, strip, ◌=ᵗ◌, =ᵗ_refl}
use aurum_pos.Tables.Access.{Shop}
use aurum_pos.Tables.Sales.{Sale, InvoiceNo}

abbrev pub upper_char : ℕ → ℕ
upper_char c = if leb b'a' c && leb c b'z' then c - 32 else c

-- `(shop.invoice_prefix or "INV").strip().upper()`
unfoldable pub invoice_prefix : Shop → Text
invoice_prefix shop =
    let given = or_default shop.invoice_prefix [] in
    map upper_char (strip (if given =ᵗ [] then text "INV" else given))

abbrev pub has_number : ℕ → Text → ℕ → ℕ → Sale → Bool
has_number shop_id prefix year sequence s =
    s.shop_id == shop_id
    && (s.invoice_no.prefix =ᵗ prefix)
    && s.invoice_no.year == year
    && s.invoice_no.sequence == sequence

module _ (shop_id : ℕ) (prefix : Text) (year : ℕ) (sales : List Sale) where
  unfoldable pub number_taken : ℕ → Bool
  number_taken sequence = any (has_number shop_id prefix year sequence) sales

  -- `while True`, with fuel; `none` means that the fuel ran out
  unfoldable pub next_free : ℕ → ℕ → Option ℕ
  next_free zero sequence = none
  next_free (suc fuel) sequence =
      let later = next_free fuel (sequence + 1) in
      if number_taken sequence then later else some sequence
