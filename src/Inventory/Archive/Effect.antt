-- ===== src/Inventory/Archive/Effect.antt =====
-- What archiving does to the rows: to those that it archives, and to all others.
use aurum_pos.Prelude.{
  ℕ, ◌≡◌, ◌≢◌, refl, ◌∙◌, subst, Bool, true, false, ◌&&◌, none, some, is_none, List, [], ◌∷◌, map,
  mem, ◌==◌, find, update, All, arith, ok, err, Option-cases, inl, inr, find-holds,
}
use aurum_pos.Items.Kinds.{is_in_stock}
use aurum_pos.Tables.Stock.{Item}
use aurum_pos.Tables.Sales.{Store, item_missing}
use aurum_pos.Inventory.{is_live, get_item_by_id}
use aurum_pos.Inventory.Archive.{archived_item, archive_item, archive_all, delete_item}

abbrev overwrite : Item → List Item → List Item
overwrite item = update (λ i. i.id == item.id) (λ _. item)

archive_item-items :
    (now : ℕ) (log : Bool) (item : Item) (db : Store)
    → (archive_item now log item db).items ≡ overwrite (archived_item now item) db.items
unfolding archive_item
archive_item-items now true item db = refl
archive_item-items now false item db = refl

find-overwrite_archived :
    (now shop_id : ℕ) (item : Item) (items : List Item)
    → find (is_live item.id shop_id) (overwrite (archived_item now item) items) ≡ none
unfolding is_live
find-overwrite_archived now shop_id item [] = refl
find-overwrite_archived now shop_id item (i ∷ items) =
    ground (arith, find-overwrite_archived now shop_id item items)

find-overwrite_other :
    (j shop_id : ℕ) (item : Item) (items : List Item)
    → j ≢ item.id
    → find (is_live j shop_id) (overwrite item items) ≡ find (is_live j shop_id) items
unfolding is_live
find-overwrite_other j shop_id item [] ne = refl
find-overwrite_other j shop_id item (i ∷ items) ne =
    ground (arith, find-overwrite_other j shop_id item items)

live-id :
    (j shop_id : ℕ) (db : Store) (item : Item)
    → get_item_by_id db j shop_id ≡ some item
    → item.id ≡ j
unfolding get_item_by_id
live-id j shop_id db item e =
    let h : is_live j shop_id item ≡ true = find-holds (is_live j shop_id) db.items item e in
    unfold is_live in ground arith

archived_gone :
    (now shop_id : ℕ) (item : Item) (db : Store)
    → get_item_by_id (archive_item now true item db) item.id shop_id ≡ none
unfolding get_item_by_id
archived_gone now shop_id item db =
    rw (archive_item-items now true item db) (find-overwrite_archived now shop_id item db.items)

archived_other :
    (now j shop_id : ℕ) (item : Item) (db : Store)
    → j ≢ item.id
    → get_item_by_id (archive_item now true item db) j shop_id ≡ get_item_by_id db j shop_id
unfolding get_item_by_id
archived_other now j shop_id item db ne =
    rw (archive_item-items now true item db)
      (find-overwrite_other j shop_id (archived_item now item) db.items ne)

delete_item-inv :
    (now shop_id item_id : ℕ) (db : Store) {after : Store}
    → delete_item now shop_id item_id db ≡ ok after
    → (item : Item) × (get_item_by_id db item_id shop_id ≡ some item)
      × (is_in_stock item.status ≡ true)
      × (after ≡ archive_item now true item db)
unfolding delete_item
delete_item-inv now shop_id item_id db e = elim (Option-cases (get_item_by_id db item_id shop_id)) [
  | inl missing ↦ absurd (cc (rw missing at e))
  | inr (item, found) ↦ (item, found, ground arith, ground arith)
]

-- A deleted item was a live, in-stock item of the shop. It can no longer be found there, so deleting
-- it again is refused; every other item is found as before, in every shop.
pub delete_item-gone :
    (now shop_id item_id : ℕ) (db : Store) {after : Store}
    → delete_item now shop_id item_id db ≡ ok after
    → (get_item_by_id after item_id shop_id ≡ none)
      × ((later : ℕ) → delete_item later shop_id item_id after ≡ err item_missing)
      × ((j shop : ℕ) → j ≢ item_id → get_item_by_id after j shop ≡ get_item_by_id db j shop)
      × ((item : Item) × (get_item_by_id db item_id shop_id ≡ some item)
          × (is_in_stock item.status ≡ true))
unfolding delete_item
delete_item-gone now shop_id item_id db e =
    let (item, found, stocked, same) = delete_item-inv now shop_id item_id db e in
    let id = live-id item_id shop_id db item found in
    let gone : get_item_by_id (archive_item now true item db) item_id shop_id ≡ none =
      subst (λ k. get_item_by_id (archive_item now true item db) k shop_id ≡ none) id
        (archived_gone now shop_id item db) in
    (
      rw same gone,
      λ later. rw (same, gone),
      λ j shop ne. rw same (archived_other now j shop item db (λ q. ne (q ∙ id))),
      (item, found, stocked),
    )

-- ids that a run of archivings covers
abbrev pub ids : List Item → List ℕ
ids = map (λ i. i.id)

module _ (now : ℕ) (log : Bool) (shop_id : ℕ) where
  -- the rows that `clear_in_stock_inventory` selects
  abbrev pub clearable : Item → Bool
  clearable i = i.shop_id == shop_id && is_in_stock i.status && is_none i.archived_at

  abbrev pub Covered : List Item → Item → Type 0
  Covered L i = clearable i ≡ true → mem i.id (ids L) ≡ true

  overwrite-Covered :
      (item : Item) (L items : List Item)
      → All (Covered (item ∷ L)) items
      → All (Covered L) (overwrite (archived_item now item) items)
  overwrite-Covered item L [] h = tt
  overwrite-Covered item L (i ∷ items) h = (ground (arith, h.0), overwrite-Covered item L items h.1)

  pub archive_all-Covered :
      (L : List Item) (db : Store)
      → All (Covered L) db.items
      → All (Covered []) (archive_all now log L db).items
  unfolding archive_all
  archive_all-Covered [] db h = h
  archive_all-Covered (item ∷ L) db h =
      archive_all-Covered L (archive_item now log item db)
        (rw (archive_item-items now log item db) (overwrite-Covered item L db.items h))
