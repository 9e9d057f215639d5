-- ===== src/Sales/Invoice/Fresh.antt =====
-- The loop for a new invoice number ends, and what it returns.
use aurum_pos.Prelude.{
  ℕ, zero, suc, ◌+◌, ◌≤◌, ◌<◌, ◌≡◌, Bool, true, false, ◌&&◌, some, List, [], ◌∷◌, count_if, leb,
  ◌==◌, arith, Bool-cases, inl, inr, length, subst, ◌⊎◌,
}
use aurum_pos.Text.{Text, ◌=ᵗ◌}
use aurum_pos.Tables.Sales.{Sale}
use aurum_pos.Sales.Invoice.{number_taken, next_free}

module _ (shop_id : ℕ) (prefix : Text) (year : ℕ) where
  -- the sales that have this sequence or a later one
  abbrev at_or_after : ℕ → Sale → Bool
  at_or_after sequence s =
      s.shop_id == shop_id
      && (s.invoice_no.prefix =ᵗ prefix)
      && s.invoice_no.year == year
      && leb sequence s.invoice_no.sequence

  count_if-le :
      (sequence : ℕ) (sales : List Sale)
      → count_if (at_or_after (sequence + 1)) sales ≤ count_if (at_or_after sequence) sales
  count_if-le sequence [] = omega arith
  count_if-le sequence (s ∷ sales) = ground (arith, count_if-le sequence sales)

  -- a taken number is one sale that the next sequence leaves behind
  count_if-lt :
      (sequence : ℕ) (sales : List Sale)
      → number_taken shop_id prefix year sales sequence ≡ true
      → count_if (at_or_after (sequence + 1)) sales < count_if (at_or_after sequence) sales
  unfolding number_taken
  count_if-lt sequence [] h = cc
  count_if-lt sequence (s ∷ sales) h =
      ground (arith, count_if-le sequence sales, count_if-lt sequence sales)

  count_if-length :
      (sequence : ℕ) (sales : List Sale) → count_if (at_or_after sequence) sales ≤ length sales
  count_if-length sequence [] = omega arith
  count_if-length sequence (s ∷ sales) = ground (arith, count_if-length sequence sales)

  module _ (sales : List Sale) where
    abbrev pub IsNextFree : ℕ → ℕ → Type 0
    IsNextFree sequence n =
        (sequence ≤ n)
        × (number_taken shop_id prefix year sales n ≡ false)
        × ((k : ℕ) → sequence ≤ k → k < n → number_taken shop_id prefix year sales k ≡ true)

    between : (sequence k : ℕ) → sequence ≤ k → (sequence ≡ k) ⊎ (sequence + 1 ≤ k)
    between sequence k h = omega arith

    next_free-enough :
        (fuel sequence : ℕ)
        → count_if (at_or_after sequence) sales < fuel
        → (n : ℕ) × (next_free shop_id prefix year sales fuel sequence ≡ some n)
          × IsNextFree sequence n
    unfolding next_free
    next_free-enough zero sequence h = absurd (omega arith)
    next_free-enough (suc fuel) sequence h =
        elim (Bool-cases (number_taken shop_id prefix year sales sequence)) [
          | inl taken ↦
              let smaller = count_if-lt sequence sales taken in
              let (n, e, rest) = next_free-enough fuel (sequence + 1) (omega arith) in
              let (above, free, least) = rest in
              let every : (k : ℕ)
                  → sequence ≤ k
                  → k < n
                  → number_taken shop_id prefix year sales k ≡ true =
                λ k low high. elim (between sequence k low) [
                  | inl same ↦
                      subst (λ j. number_taken shop_id prefix year sales j ≡ true) same taken
                  | inr later ↦ least k later high
                ] in
              (n, rw taken e, (omega arith, free, every))
          | inr free ↦ (sequence, rw free, (omega arith, free, λ k low high. absurd (omega arith)))
        ]

    -- The search for an invoice number returns within one round more than there are sales in the
    -- table, of all shops: with the first sequence, from the given one on, that no sale of the shop
    -- has for the prefix and year.
    pub next_free-least :
        (sequence : ℕ)
        → (n : ℕ) × (next_free shop_id prefix year sales (suc (length sales)) sequence ≡ some n)
          × IsNextFree sequence n
    next_free-least sequence =
        let bound = count_if-length sequence sales in
        next_free-enough (suc (length sales)) sequence (omega arith)
