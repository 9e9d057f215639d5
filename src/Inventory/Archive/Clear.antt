-- ===== src/Inventory/Archive/Clear.antt =====
-- Clearing a shop's inventory leaves nothing to clear.
use aurum_pos.Prelude.{
  ℕ, ◌≡◌, refl, sym, subst, Bool, true, false, List, [], ◌∷◌, mem, ==_refl, select, length, All,
  All-map, arith, Bool-cases, inl, inr, ap,
}
use aurum_pos.Tables.Stock.{Item}
use aurum_pos.Tables.Sales.{Store}
use aurum_pos.Inventory.Archive.{archive_all, clear_selected, clear_in_stock_inventory}
use aurum_pos.Inventory.Archive.Effect.{ids, clearable, Covered, archive_all-Covered}

module _ (p : Item → Bool) where
  abbrev CoveredBy : List Item → Item → Type 0
  CoveredBy L i = p i ≡ true → mem i.id (ids L) ≡ true

  covered_later : (x : Item) (L : List Item) (i : Item) → CoveredBy L i → CoveredBy (x ∷ L) i
  covered_later x L i h k = ground (arith, h k)

  select-covers : (items : List Item) → All (CoveredBy (select p items)) items
  select-covers [] = tt
  select-covers (x ∷ items) = elim (Bool-cases (p x)) [
    | inl e ↦
        let L = x ∷ select p items in
        let same : select p (x ∷ items) ≡ L = rw e in
        subst (λ L. All (CoveredBy L) (x ∷ items)) (sym same)
          (
            λ _. ground (arith, ==_refl x.id),
            All-map (CoveredBy (select p items)) (CoveredBy L) items
                (covered_later x (select p items)) (select-covers items),
          )
    | inr e ↦
        let same : select p (x ∷ items) ≡ select p items = rw e in
        subst (λ L. All (CoveredBy L) (x ∷ items)) (sym same)
          (λ h. absurd (cc (e, h)), select-covers items)
  ]

  uncovered-empty : (items : List Item) → All (CoveredBy []) items → select p items ≡ []
  uncovered-empty [] h = refl
  uncovered-empty (x ∷ items) h = ground (arith, h.0, uncovered-empty items h.1)

module _ (now shop_id : ℕ) where
  abbrev pub to_clear : Store → List Item
  to_clear db = select (clearable now false shop_id) db.items

  nothing_to_clear :
      (db : Store) → to_clear db ≡ [] → clear_in_stock_inventory now shop_id db ≡ (0, db)
  unfolding clear_in_stock_inventory
  nothing_to_clear db e = ap (λ L. clear_selected now shop_id L db) e

  cleared :
      (L : List Item) (db : Store)
      → to_clear db ≡ L
      → (to_clear (clear_selected now shop_id L db).1 ≡ [])
        × ((clear_selected now shop_id L db).0 ≡ length L)
  unfolding clear_selected
  cleared [] db e = (e, refl)
  cleared (x ∷ L) db e = (
    uncovered-empty (clearable now false shop_id) (archive_all now false (x ∷ L) db).items (
        archive_all-Covered now false shop_id (x ∷ L) db (
          subst (λ M. All (Covered now false shop_id M) db.items) e
            (select-covers (clearable now false shop_id) db.items))),
    refl,
  )

-- Clearing a shop's inventory reports how many live in-stock items it had, and leaves none: clearing
-- again, at any time, archives nothing and changes nothing.
pub clear_in_stock_inventory_idem :
    (now later shop_id : ℕ) (db : Store)
    → let (count, after) = clear_in_stock_inventory now shop_id db in
      (count ≡ length (to_clear now shop_id db))
      × (clear_in_stock_inventory later shop_id after ≡ (0, after))
unfolding clear_in_stock_inventory
clear_in_stock_inventory_idem now later shop_id db =
    let (none_left, count) = cleared now shop_id (to_clear now shop_id db) db refl in
    (count, nothing_to_clear later shop_id (clear_in_stock_inventory now shop_id db).1 none_left)
