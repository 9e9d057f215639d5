-- ===== src/Sales/Checkout/Rows.antt =====
-- The item rows before and after `deplete_all`: each line of the sale changes the row of its item once.
use aurum_pos.Prelude.{
  ℕ, ◌≡◌, ◌≢◌, refl, ◌∙◌, ap, subst, true, false, Option, none, some, List, [], ◌∷◌, map, mem, find,
  update, ◌==◌, IsDistinct, arith, Bool-cases, inl, inr, find-holds, ==→eq,
}
use aurum_pos.Tables.Stock.{Item}
use aurum_pos.Tables.Sales.{SaleItem, Store}
use aurum_pos.Inventory.{save_item, record_item_history, log_change}
use aurum_pos.Sales.Checkout.{take_stock, deplete, deplete_row, deplete_all}

-- the row with a primary key
abbrev pub row : ℕ → List Item → Option Item
row k items = find (λ i. i.id == k) items

abbrev overwrite : Item → List Item → List Item
overwrite item = update (λ i. i.id == item.id) (λ _. item)

row-overwrite_same :
    (item old : Item) (items : List Item)
    → row item.id items ≡ some old
    → row item.id (overwrite item items) ≡ some item
row-overwrite_same item old [] e = ground arith
row-overwrite_same item old (i ∷ items) e = ground (arith, row-overwrite_same item old items)

row-overwrite_other :
    (k : ℕ) (item : Item) (items : List Item)
    → k ≢ item.id
    → row k (overwrite item items) ≡ row k items
row-overwrite_other k item [] ne = refl
row-overwrite_other k item (i ∷ items) ne = ground (arith, row-overwrite_other k item items)

take_stock-id : (line : SaleItem) (item : Item) → (take_stock line item).id ≡ item.id
unfolding take_stock
take_stock-id line item = ground arith

deplete-items :
    (now : ℕ) (line : SaleItem) (item : Item) (db : Store)
    → (deplete now line item db).items ≡ overwrite (take_stock line item) db.items
unfolding deplete save_item record_item_history log_change
deplete-items now line item db = refl

pub row-id : (k : ℕ) (items : List Item) (item : Item) → row k items ≡ some item → item.id ≡ k
row-id k items item e = ==→eq item.id k (find-holds (λ i. i.id == k) items item e)

deplete-row_same :
    (now k : ℕ) (line : SaleItem) (item : Item) (db : Store)
    → row k db.items ≡ some item
    → row k (deplete now line item db).items ≡ some (take_stock line item)
deplete-row_same now k line item db e =
    let same : (take_stock line item).id ≡ k = take_stock-id line item ∙ row-id k db.items item e in
    rw (deplete-items now line item db) (
      subst
        (λ j.
          row j db.items ≡ some item
          → row j (overwrite (take_stock line item) db.items) ≡ some (take_stock line item))
        same (row-overwrite_same (take_stock line item) item db.items) e)

deplete-row_other :
    (now k : ℕ) (line : SaleItem) (item : Item) (db : Store)
    → k ≢ item.id
    → row k (deplete now line item db).items ≡ row k db.items
deplete-row_other now k line item db ne =
    rw (deplete-items now line item db) (
      row-overwrite_other k (take_stock line item) db.items (λ e. ne (e ∙ take_stock-id line item)))

abbrev pub line_ids : List SaleItem → List ℕ
line_ids = map (λ l. l.item_id)

deplete_row-row_other :
    (now k : ℕ) (line : SaleItem) (o : Option Item) (db : Store)
    → row line.item_id db.items ≡ o
    → k ≢ line.item_id
    → row k (deplete_row now line o db).items ≡ row k db.items
unfolding deplete_row
deplete_row-row_other now k line none db e ne = refl
deplete_row-row_other now k line (some item) db e ne =
    deplete-row_other now k line item db (λ q. ne (q ∙ row-id line.item_id db.items item e))

pub deplete_all-row_other :
    (now k : ℕ) (lines : List SaleItem) (db : Store)
    → mem k (line_ids lines) ≡ false
    → row k (deplete_all now lines db).items ≡ row k db.items
unfolding deplete_all
deplete_all-row_other now k [] db h = refl
deplete_all-row_other now k (line ∷ lines) db h =
    let old = row line.item_id db.items in
    deplete_all-row_other now k lines (deplete_row now line old db) (ground arith)
    ∙ deplete_row-row_other now k line old db refl (ground arith)

-- the line of item `k`, which has changed that item's row
abbrev LineOf : ℕ → ℕ → Item → List SaleItem → Store → Type 0
LineOf now k item lines db =
    (line : SaleItem) × (find (λ l. l.item_id == k) lines ≡ some line)
    × (row k (deplete_all now lines db).items ≡ some (take_stock line item))

deplete_all-first :
    (now : ℕ) (item : Item) (line : SaleItem) (lines : List SaleItem) (db : Store)
    → mem line.item_id (line_ids lines) ≡ false
    → row line.item_id db.items ≡ some item
    → row line.item_id (deplete_all now (line ∷ lines) db).items ≡ some (take_stock line item)
unfolding deplete_all deplete_row
deplete_all-first now item line lines db d e =
    ap (λ o. row line.item_id (deplete_all now lines (deplete_row now line o db)).items) e
    ∙ deplete_all-row_other now line.item_id lines (deplete now line item db) d
    ∙ deplete-row_same now line.item_id line item db e

deplete_all-cons :
    (now : ℕ) (line : SaleItem) (lines : List SaleItem) (db : Store)
    → deplete_all now (line ∷ lines) db
      ≡ deplete_all now lines (deplete_row now line (row line.item_id db.items) db)
unfolding deplete_all
deplete_all-cons now line lines db = refl

-- each line has taken its amount from the row that its item had
pub deplete_all-row_same :
    (now k : ℕ) (item : Item) (lines : List SaleItem) (db : Store)
    → IsDistinct (line_ids lines)
    → mem k (line_ids lines) ≡ true
    → row k db.items ≡ some item
    → LineOf now k item lines db
deplete_all-row_same now k item [] db d m e = ground arith
deplete_all-row_same now k item (line ∷ lines) db d m e = elim (Bool-cases (line.item_id == k)) [
  | inl same ↦
      let id = ==→eq line.item_id k same in
      (
        line,
        rw same refl,
        subst
            (λ j.
              row j db.items ≡ some item
              → row j (deplete_all now (line ∷ lines) db).items ≡ some (take_stock line item))
            id (deplete_all-first now item line lines db d.0) e,
      )
  | inr other ↦
      let later = deplete_row now line (row line.item_id db.items) db in
      let ne : k ≢ line.item_id = ground arith in
      let kept = deplete_row-row_other now k line (row line.item_id db.items) db refl ne in
      let (l, found, taken) =
        deplete_all-row_same now k item lines later d.1 (ground arith) (kept ∙ e) in
      (l, rw other found, ap (λ s. row k s.items) (deplete_all-cons now line lines db) ∙ taken)
]
