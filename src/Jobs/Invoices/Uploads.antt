-- ===== src/Jobs/Invoices/Uploads.antt =====
-- Two workers may upload a PDF for the same sale: the first one that stores its key keeps it.
use aurum_pos.Prelude.{
  ℕ, ◌≡◌, refl, false, not, ◌&&◌, is_none, List, [], ◌∷◌, any, update, arith, Bool-cases, inl, inr,
}
use aurum_pos.Tables.Sales.{Sale, Store}
use aurum_pos.Jobs.Invoices.{is_sale, with_pdf, needs_pdf, attach_pdf}

with_pdf-twice :
    (key key' checksum checksum' : ℕ) (s : Sale)
    → with_pdf key' checksum' (with_pdf key checksum s) ≡ with_pdf key checksum s
with_pdf-twice key key' checksum checksum' s = elim (Bool-cases (is_none s.s3_object_key)) [
  | inl fresh ↦ rw fresh refl
  | inr stored ↦ rw (stored, stored) refl
]

module _ (shop_id sale_id : ℕ) where
  update-twice :
      (key key' checksum checksum' : ℕ) (sales : List Sale)
      → update
          (is_sale sale_id shop_id)
          (with_pdf key' checksum')
          (update (is_sale sale_id shop_id) (with_pdf key checksum) sales)
        ≡ update (is_sale sale_id shop_id) (with_pdf key checksum) sales
  update-twice key key' checksum checksum' [] = refl
  update-twice key key' checksum checksum' (s ∷ sales) = ground (
    arith,
    with_pdf-twice key key' checksum checksum' s,
    update-twice key key' checksum checksum' sales,
  )

  any-update :
      (key checksum : ℕ) (sales : List Sale)
      → any
          (is_sale sale_id shop_id)
          (update (is_sale sale_id shop_id) (with_pdf key checksum) sales)
        ≡ any (is_sale sale_id shop_id) sales
  any-update key checksum [] = refl
  any-update key checksum (s ∷ sales) = ground (arith, any-update key checksum sales)

  no_more-update :
      (key checksum : ℕ) (sales : List Sale)
      → any
          (λ s. is_sale sale_id shop_id s && is_none s.s3_object_key)
          (update (is_sale sale_id shop_id) (with_pdf key checksum) sales)
        ≡ false
  no_more-update key checksum [] = refl
  no_more-update key checksum (s ∷ sales) = ground (arith, no_more-update key checksum sales)

  -- After a worker has stored the key and checksum of its PDF, the sale needs none any more, and a
  -- second worker that uploaded another PDF for it changes nothing; it too learns whether the sale is gone.
  pub attach_pdf-first_wins :
      (key key' checksum checksum' : ℕ) (db : Store)
      → let (gone, after) = attach_pdf shop_id sale_id key checksum db in
        (needs_pdf shop_id sale_id after ≡ false)
        × (attach_pdf shop_id sale_id key' checksum' after ≡ (gone, after))
  unfolding attach_pdf needs_pdf
  attach_pdf-first_wins key key' checksum checksum' db = (
    no_more-update key checksum db.sales,
    λ i. (
      not (any-update key checksum db.sales i),
      record db { sales = update-twice key key' checksum checksum' db.sales i },
    ),
  )
