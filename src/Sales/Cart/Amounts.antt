-- ===== src/Sales/Cart/Amounts.antt =====
-- What the cart holds: for each item the sum of the amounts that the input lines ask, each item once.
use aurum_pos.Prelude.{
  ℕ, ◌+◌, ◌≡◌, refl, true, false, ◌||◌, ◌&&◌, none, some, or_default, is_none, List, [], ◌∷◌, ◌++◌,
  mem, any, ◌==◌, if◌then◌else◌, ok, IsDistinct, arith, inl, inr, map, Option-cases,
}
use aurum_pos.Sales.Cart.{
  SaleItemInput, SaleCreate, Amounts, get, keys, add_amount, count_line, count_lines, Cart,
  item_ids, read_cart,
}

-- the pieces and the milligrams of item `k` that a line asks
abbrev pub pieces : ℕ → SaleItemInput → ℕ
pieces k i = if i.item_id == k && is_none i.weight_grams then or_default i.quantity 1 else 0

abbrev pub milligrams : ℕ → SaleItemInput → ℕ
milligrams k i = if i.item_id == k then or_default i.weight_grams 0 else 0

abbrev pub total_of : (SaleItemInput → ℕ) → List SaleItemInput → ℕ
total_of f [] = 0
total_of f (i ∷ inputs) = f i + total_of f inputs

-- the amount under a key, 0 if there is none
abbrev pub amount : ℕ → Amounts → ℕ
amount k d = or_default (get k d) 0

amount-add_amount :
    (k j n : ℕ) (d : Amounts) → amount k (add_amount j n d) ≡ (if j == k then n else 0) + amount k d
amount-add_amount k j n [] = ground arith
amount-add_amount k j n ((i, m) ∷ d) = ground (arith, amount-add_amount k j n d)

count_line-amount :
    (k : ℕ) (i : SaleItemInput) (q w : Amounts)
    → (amount k (count_line i (q, w)).0 ≡ pieces k i + amount k q)
      × (amount k (count_line i (q, w)).1 ≡ milligrams k i + amount k w)
count_line-amount k i q w = ground (
  arith,
  amount-add_amount k i.item_id (or_default i.quantity 1) q,
  amount-add_amount k i.item_id (or_default i.weight_grams 0) w,
)

count_lines-amount :
    (k : ℕ) (inputs : List SaleItemInput) (t : Amounts × Amounts)
    → (amount k (count_lines inputs t).0 ≡ total_of (pieces k) inputs + amount k t.0)
      × (amount k (count_lines inputs t).1 ≡ total_of (milligrams k) inputs + amount k t.1)
unfolding count_lines
count_lines-amount k [] t = (omega arith, omega arith)
count_lines-amount k (i ∷ inputs) t =
    let (q, w) = count_line-amount k i t.0 t.1 in
    let (q', w') = count_lines-amount k inputs (count_line i t) in (omega arith, omega arith)

mem-add_amount :
    (k j n : ℕ) (d : Amounts) → mem k (keys (add_amount j n d)) ≡ ((j == k) || mem k (keys d))
mem-add_amount k j n [] = ground arith
mem-add_amount k j n ((i, m) ∷ d) = ground (arith, mem-add_amount k j n d)

add_amount-IsDistinct :
    (j n : ℕ) (d : Amounts) → IsDistinct (keys d) → IsDistinct (keys (add_amount j n d))
add_amount-IsDistinct j n [] h = (refl, tt)
add_amount-IsDistinct j n ((i, m) ∷ d) h =
    ground (arith, mem-add_amount i j n d, add_amount-IsDistinct j n d h.1)

-- no item stands twice in either of the two
abbrev AreDistinct : Amounts × Amounts → Type 0
AreDistinct t = IsDistinct (keys t.0) × IsDistinct (keys t.1)

count_line-AreDistinct :
    (i : SaleItemInput) (t : Amounts × Amounts) → AreDistinct t → AreDistinct (count_line i t)
count_line-AreDistinct i t h = ground (
  arith,
  add_amount-IsDistinct i.item_id (or_default i.quantity 1) t.0 h.0,
  add_amount-IsDistinct i.item_id (or_default i.weight_grams 0) t.1 h.1,
)

count_lines-AreDistinct :
    (inputs : List SaleItemInput) (t : Amounts × Amounts)
    → AreDistinct t
    → AreDistinct (count_lines inputs t)
unfolding count_lines
count_lines-AreDistinct [] t h = h
count_lines-AreDistinct (i ∷ inputs) t h =
    count_lines-AreDistinct inputs (count_line i t) (count_line-AreDistinct i t h)

mem-append : (k : ℕ) (xs ys : List ℕ) → mem k (xs ++ ys) ≡ (mem k xs || mem k ys)
mem-append k [] ys = refl
mem-append k (x ∷ xs) ys = ground (arith, mem-append k xs ys)

append-IsDistinct :
    (xs ys : List ℕ)
    → IsDistinct xs
    → IsDistinct ys
    → any (λ k. mem k ys) xs ≡ false
    → IsDistinct (xs ++ ys)
append-IsDistinct [] ys h h' none_shared = h'
append-IsDistinct (x ∷ xs) ys h h' none_shared =
    ground (arith, mem-append x xs ys, append-IsDistinct xs ys h.1 h')

read_cart-inv :
    (request : SaleCreate) (c : Cart)
    → read_cart request ≡ ok c
    → (any (λ k. mem k (keys c.weights)) (keys c.quantities) ≡ false)
      × (c.quantities ≡ (count_lines request.items ([], [])).0)
      × (c.weights ≡ (count_lines request.items ([], [])).1)
unfolding read_cart
read_cart-inv request c e = ground arith

-- The cart of an accepted request asks, for every item, the sum of what the input lines ask of it,
-- pieces and milligrams apart, and lists each item once.
pub read_cart-sums :
    (request : SaleCreate) (c : Cart)
    → read_cart request ≡ ok c
    → ((k : ℕ)
        → (or_default (get k c.quantities) 0 ≡ total_of (pieces k) request.items)
          × (or_default (get k c.weights) 0 ≡ total_of (milligrams k) request.items))
      × IsDistinct (item_ids c)
read_cart-sums request c e =
    let (apart, q, w) = read_cart-inv request c e in
    let (dq, dw) = count_lines-AreDistinct request.items ([], []) (tt, tt) in
    (
      λ k.
          let (hq, hw) = count_lines-amount k request.items ([], []) in
          (rw q (omega arith), rw w (omega arith)),
      append-IsDistinct (keys c.quantities) (keys c.weights) (rw q dq) (rw w dw) apart,
    )

pub get-missing : (k : ℕ) (d : Amounts) → mem k (keys d) ≡ false → get k d ≡ none
get-missing k [] e = refl
get-missing k ((j, n) ∷ d) e = ground (arith, get-missing k d)

pub get-none : (k : ℕ) (d : Amounts) → get k d ≡ none → mem k (keys d) ≡ false
get-none k [] e = refl
get-none k ((j, n) ∷ d) e = ground (arith, get-none k d)

pub get-some : (k n : ℕ) (d : Amounts) → get k d ≡ some n → mem k (keys d) ≡ true
get-some k n [] e = ground arith
get-some k n ((j, m) ∷ d) e = ground (arith, get-some k n d)

any-mem :
    (k : ℕ) (xs ys : List ℕ) → any (λ j. mem j ys) xs ≡ false → mem k ys ≡ true → mem k xs ≡ false
any-mem k [] ys h m = refl
any-mem k (x ∷ xs) ys h m = ground (arith, any-mem k xs ys)

-- an item asked by weight is not asked by quantity
pub read_cart-apart :
    (request : SaleCreate) (c : Cart) (k : ℕ)
    → read_cart request ≡ ok c
    → mem k (keys c.weights) ≡ true
    → mem k (keys c.quantities) ≡ false
read_cart-apart request c k e m =
    any-mem k (keys c.quantities) (keys c.weights) (read_cart-inv request c e).0 m

count_lines-mem :
    (k : ℕ) (inputs : List SaleItemInput) (t : Amounts × Amounts)
    → (mem k (keys (count_lines inputs t).0) || mem k (keys (count_lines inputs t).1))
      ≡ (mem k (map (λ i. i.item_id) inputs) || (mem k (keys t.0) || mem k (keys t.1)))
unfolding count_lines
count_lines-mem k [] t = refl
count_lines-mem k (i ∷ inputs) t = ground (
  arith,
  count_lines-mem k inputs (count_line i t),
  mem-add_amount k i.item_id (or_default i.quantity 1) t.0,
  mem-add_amount k i.item_id (or_default i.weight_grams 0) t.1,
)

-- the cart's items are those of the input lines
pub read_cart-mem :
    (request : SaleCreate) (c : Cart) (k : ℕ)
    → read_cart request ≡ ok c
    → mem k (item_ids c) ≡ mem k (map (λ i. i.item_id) request.items)
read_cart-mem request c k e =
    let (apart, q, w) = read_cart-inv request c e in
    let counted = count_lines-mem k request.items ([], []) in
    rw (mem-append k (keys c.quantities) (keys c.weights)) (rw (q, w) (ground (arith, counted)))

-- an item of the cart that no line weighs has its pieces
pub read_cart-pieces :
    (c : Cart) (k : ℕ)
    → mem k (item_ids c) ≡ true
    → get k c.weights ≡ none
    → or_default (get k c.quantities) 1 ≡ or_default (get k c.quantities) 0
read_cart-pieces c k m e = elim (Option-cases (get k c.quantities)) [
  | inl missing ↦ ground (
    arith,
    mem-append k (keys c.quantities) (keys c.weights),
    get-none k c.quantities missing,
    get-none k c.weights e,
  )
  | inr (n, found) ↦ rw found refl
]
