-- ===== src/Jobs/Queue/Laws.antt =====
-- What a claim does in every queue whose leases keep their laws.
use aurum_pos.Prelude.{
  ℕ, ◌+◌, ◌≤◌, ◌≡◌, ◌≢◌, refl, sym, ap, ◌∙◌, Bool, true, false, not, ◌&&◌, some, List, [], ◌∷◌, map,
  mem, select, update, order_by, length, some_eq, ◌==◌, ==→eq, All, All-map, All-both, All-select,
  All-select_keep, All-take, All-order_by, All-of_map, length-take_le, length-map, arith,
  Bool-cases, inl, inr,
}
use aurum_pos.Jobs.Queue.{LeasedQueue, IsLeasing, ids, due_rows, take_lease, claim}

module _ {Row : Type 0} (q : LeasedQueue Row) where
  due_rows-All :
      (P : Row → Type 0) (batch_size now : ℕ) (locked : ℕ → Bool) (rows : List Row)
      → All P rows
      → All P (due_rows q batch_size now locked rows)
  unfolding due_rows
  due_rows-All P batch_size now locked rows h =
      let p : Row → Bool = λ r. q.is_due now r && not (locked (q.id_of r)) in
      All-take P batch_size (order_by (λ r. q.order_key r) (select p rows))
        (All-order_by P (λ r. q.order_key r) (select p rows) (All-select_keep P p rows h))

  pub due_rows-due :
      (batch_size now : ℕ) (locked : ℕ → Bool) (rows : List Row)
      → All
          (λ r. (q.is_due now r && not (locked (q.id_of r))) ≡ true)
          (due_rows q batch_size now locked rows)
  unfolding due_rows
  due_rows-due batch_size now locked rows =
      let p : Row → Bool = λ r. q.is_due now r && not (locked (q.id_of r)) in
      let P : Row → Type 0 = λ r. p r ≡ true in
      All-take P batch_size (order_by (λ r. q.order_key r) (select p rows))
        (All-order_by P (λ r. q.order_key r) (select p rows) (All-select p rows))

  due_rows-length :
      (batch_size now : ℕ) (locked : ℕ → Bool) (rows : List Row)
      → length (due_rows q batch_size now locked rows) ≤ batch_size
  unfolding due_rows
  due_rows-length batch_size now locked rows = length-take_le batch_size _

  -- a row that a claim took has its token, and is not due while its lease runs
  abbrev HasToken : List ℕ → (ℕ → ℕ) → Row → Type 0
  HasToken claimed token r =
      mem (q.id_of r) claimed ≡ true → q.token_of r ≡ some (token (q.id_of r))

  abbrev IsKept : List ℕ → ℕ → Row → Type 0
  IsKept claimed later r = mem (q.id_of r) claimed ≡ true → q.is_due later r ≡ false

  -- the row's lease under a token
  abbrev pub holds : ℕ → ℕ → Row → Bool
  holds k token r = q.id_of r == k && some_eq (q.token_of r) token

  free :
      (claimed : List ℕ) (later : ℕ) (r : Row) (b : Bool)
      → IsKept claimed later r
      → (q.is_due later r && not b) ≡ true
      → mem (q.id_of r) claimed ≡ false
  free claimed later r b kept due = elim (Bool-cases (mem (q.id_of r) claimed)) [
    | inl m ↦ let k = kept m in absurd (ground arith)
    | inr m ↦ m
  ]

  lost :
      (claimed : List ℕ) (token : ℕ → ℕ) (k stale : ℕ) (r : Row)
      → mem k claimed ≡ true
      → token k ≢ stale
      → HasToken claimed token r
      → holds k stale r ≡ false
  lost claimed token k stale r m ne has = elim (Bool-cases (q.id_of r == k)) [
    | inr other ↦ rw other refl
    | inl same ↦
        let id : q.id_of r ≡ k = ==→eq (q.id_of r) k same in
        let held : q.token_of r ≡ some (token (q.id_of r)) = has (rw id m) in
        let other : token (q.id_of r) ≢ stale = λ e. ne (sym (ap token id) ∙ e) in
        rw (same, held) (ground (arith, other))
  ]

  module _ (laws : IsLeasing q) where
    ids-take_lease :
        (now : ℕ) (token : ℕ → ℕ) (rows : List Row)
        → ids q (map (take_lease q now token) rows) ≡ ids q rows
    ids-take_lease now token [] = refl
    ids-take_lease now token (r ∷ rows) =
        rw (laws.id_kept now (token (q.id_of r)) r, ids-take_lease now token rows) refl

    update-IsKept :
        (claimed : List ℕ) (now later : ℕ) (token : ℕ → ℕ) (rows : List Row)
        → later ≤ now + q.duration
        → All
            (IsKept claimed later)
            (update (λ r. mem (q.id_of r) claimed) (take_lease q now token) rows)
    update-IsKept claimed now later token [] h = tt
    update-IsKept claimed now later token (r ∷ rows) h =
        elim (Bool-cases (mem (q.id_of r) claimed)) [
          | inl m ↦ (
            rw m (λ _. laws.not_due now later (token (q.id_of r)) r h),
            update-IsKept claimed now later token rows h,
          )
          | inr m ↦ (rw m (λ e. absurd (cc (e, m))), update-IsKept claimed now later token rows h)
        ]

    update-HasToken :
        (claimed : List ℕ) (now : ℕ) (token : ℕ → ℕ) (rows : List Row)
        → All
            (HasToken claimed token)
            (update (λ r. mem (q.id_of r) claimed) (take_lease q now token) rows)
    update-HasToken claimed now token [] = tt
    update-HasToken claimed now token (r ∷ rows) = elim (Bool-cases (mem (q.id_of r) claimed)) [
      | inl m ↦ (
        rw m (λ _.
            laws.token_kept now (token (q.id_of r)) r
            ∙ ap (λ k. some (token k)) (sym (laws.id_kept now (token (q.id_of r)) r))),
        update-HasToken claimed now token rows,
      )
      | inr m ↦ (rw m (λ e. absurd (cc (e, m))), update-HasToken claimed now token rows)
    ]

    -- what a claim leaves to another one before its leases have run out
    pub claim-exclusive :
        (batch_size now later : ℕ) (token token' : ℕ → ℕ) (locked locked' : ℕ → Bool)
        (rows : List Row)
        → later ≤ now + q.duration
        → let (taken, after) = claim q batch_size now token locked rows in
          (length taken ≤ batch_size)
          × All (λ r. locked (q.id_of r) ≡ false) taken
          × All
              (λ r. mem (q.id_of r) (ids q taken) ≡ false)
              (claim q batch_size later token' locked' after).0
    unfolding claim
    claim-exclusive batch_size now later token token' locked locked' rows h =
        let due = due_rows q batch_size now locked rows in
        let after = (claim q batch_size now token locked rows).1 in
        let again = due_rows q batch_size later locked' after in
        let Was : ℕ → (ℕ → Bool) → Row → Type 0 =
          λ t l r. (q.is_due t r && not (l (q.id_of r))) ≡ true in
        let kept =
          due_rows-All (IsKept (ids q due) later) batch_size later locked' after
            (update-IsKept (ids q due) now later token rows h) in
        (
          rw (length-map (take_lease q now token) due) (due_rows-length batch_size now locked rows),
          All-of_map (λ r. locked (q.id_of r) ≡ false) (take_lease q now token) due
              (All-map (Was now locked) (λ r. locked (q.id_of (take_lease q now token r)) ≡ false)
                due (λ r was. rw (laws.id_kept now (token (q.id_of r)) r) (ground arith))
                (due_rows-due batch_size now locked rows)),
          All-of_map (λ r. mem (q.id_of r) (ids q (map (take_lease q now token) due)) ≡ false)
              (take_lease q later token') again
              (All-map (λ r. IsKept (ids q due) later r × Was later locked' r)
                (λ r.
                  mem (q.id_of (take_lease q later token' r))
                    (ids q (map (take_lease q now token) due))
                  ≡ false)
                again
                (λ r both.
                  rw (laws.id_kept later (token' (q.id_of r)) r, ids-take_lease now token due)
                    (free (ids q due) later r (locked' (q.id_of r)) (both.0) (both.1)))
                (All-both (IsKept (ids q due) later) (Was later locked') again kept
                  (due_rows-due batch_size later locked' after))),
        )

    -- no row is held under another token once a claim has taken it
    pub claim-superseded :
        (batch_size now : ℕ) (token : ℕ → ℕ) (locked : ℕ → Bool) (rows : List Row) (k stale : ℕ)
        → mem k (ids q (claim q batch_size now token locked rows).0) ≡ true
        → token k ≢ stale
        → All (λ r. holds k stale r ≡ false) (claim q batch_size now token locked rows).1
    unfolding claim
    claim-superseded batch_size now token locked rows k stale m ne =
        let due = due_rows q batch_size now locked rows in
        All-map (HasToken (ids q due) token) (λ r. holds k stale r ≡ false)
          (claim q batch_size now token locked rows).1
          (λ r has.
            lost (ids q due) token k stale r (sym (ap (mem k) (ids-take_lease now token due)) ∙ m)
              ne has)
          (update-HasToken (ids q due) now token rows)
