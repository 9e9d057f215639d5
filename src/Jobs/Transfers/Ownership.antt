-- ===== src/Jobs/Transfers/Ownership.antt =====
-- What the completion of a transfer does: a full change of owner, or nothing but a failed transfer.
use aurum_pos.Prelude.{
  ℕ, ◌≡◌, ◌≢◌, refl, sym, ap, subst, ◌⊎◌, inl, inr, Bool, true, false, ◌&&◌, ◌||◌, Option, none,
  some, some-injective, List, [], ◌∷◌, ◌++◌, map, mem, find, any, update, ◌==◌, arith, Bool-cases,
  ==→eq, find-holds,
}
use aurum_pos.Tables.Access.{Organization, Shop, ShopMembership, is_owner}
use aurum_pos.Tables.Sales.{Store}
use aurum_pos.Jobs.Transfers.{
  Transfer, failed, TransferError, ownership_changed, target_not_member, target_owns_other, Office,
  runs, save_transfer, shops_of, shop_ids, is_target_member, owns_other, demote, promote,
  new_memberships, hand_over, complete_with, complete_found, find_transfer, complete_transfer,
}

any-append :
    {A : Type 0} (p : A → Bool) (xs ys : List A) → any p (xs ++ ys) ≡ (any p xs || any p ys)
any-append p [] ys = refl
any-append p (x ∷ xs) ys = ground (arith, any-append p xs ys)

-- the membership of an active owner in a shop
abbrev pub owns_shop : ℕ → ℕ → ShopMembership → Bool
owns_shop user shop_id m =
    m.shop_id == shop_id && m.user_id == user && is_owner m.role && m.is_active

abbrev pub owns_any_of : ℕ → List ℕ → ShopMembership → Bool
owns_any_of user ids m = mem m.shop_id ids && m.user_id == user && is_owner m.role

module _ (t : Transfer) where
  updated-owns_shop :
      (ids : List ℕ) (k : ℕ) (memberships : List ShopMembership)
      → mem k ids ≡ true
      → any (λ m. m.shop_id == k && m.user_id == t.target_user_id) memberships ≡ true
      → any
          (owns_shop t.target_user_id k)
          (update (λ m. mem m.shop_id ids) (λ m. promote t (demote t m)) memberships)
        ≡ true
  updated-owns_shop ids k [] h e = cc
  updated-owns_shop ids k (m ∷ memberships) h e = elim (Bool-cases (m.shop_id == k)) [
    | inl same ↦
        let covered : mem m.shop_id ids ≡ true = rw (==→eq m.shop_id k same) h in
        ground (arith, covered, updated-owns_shop ids k memberships h)
    | inr other ↦ ground (arith, updated-owns_shop ids k memberships h)
  ]

  new-owns_shop :
      (k : ℕ) (memberships : List ShopMembership) (shops : List Shop)
      → mem k (map (λ s. s.id) shops) ≡ true
      → any (λ m. m.shop_id == k && m.user_id == t.target_user_id) memberships ≡ false
      → any (owns_shop t.target_user_id k) (new_memberships t memberships shops) ≡ true
  unfolding new_memberships
  new-owns_shop k memberships [] h e = cc
  new-owns_shop k memberships (s ∷ shops) h e = ground (arith, new-owns_shop k memberships shops)

  updated-no_former :
      (ids : List ℕ) (memberships : List ShopMembership)
      → t.requested_by_user_id ≢ t.target_user_id
      → any
          (owns_any_of t.requested_by_user_id ids)
          (update (λ m. mem m.shop_id ids) (λ m. promote t (demote t m)) memberships)
        ≡ false
  updated-no_former ids [] ne = refl
  updated-no_former ids (m ∷ memberships) ne = ground (arith, updated-no_former ids memberships ne)

  new-no_former :
      (ids : List ℕ) (memberships : List ShopMembership) (shops : List Shop)
      → t.requested_by_user_id ≢ t.target_user_id
      → any (owns_any_of t.requested_by_user_id ids) (new_memberships t memberships shops) ≡ false
  unfolding new_memberships
  new-no_former ids memberships [] ne = refl
  new-no_former ids memberships (s ∷ shops) ne =
      ground (arith, new-no_former ids memberships shops ne)

  -- the new owner owns every shop of the organization, and the former one none
  abbrev pub IsHandedOver : Organization → Store → Store → Type 0
  IsHandedOver org db after =
      (find (λ g. g.id == org.id) after.organizations
        ≡ some (record org { owner_user_id = t.target_user_id }))
      × ((k : ℕ)
          → mem k (shop_ids org db) ≡ true
          → any (owns_shop t.target_user_id k) after.memberships ≡ true)
      × (any (owns_any_of t.requested_by_user_id (shop_ids org db)) after.memberships ≡ false)

  abbrev given_over : Organization → Organization
  given_over g = record g { owner_user_id = t.target_user_id }

  find-new_owner :
      (org : Organization) (organizations : List Organization)
      → find (λ g. g.id == org.id) organizations ≡ some org
      → find
          (λ g. g.id == org.id)
          (update
            (λ g. g.id == org.id)
            (λ g. record g { owner_user_id = t.target_user_id })
            organizations)
        ≡ some (record org { owner_user_id = t.target_user_id })
  find-new_owner org [] e = ground arith
  find-new_owner org (g ∷ organizations) e = elim (Bool-cases (g.id == org.id)) [
    | inl same ↦
        let this : g ≡ org = some-injective g org (rw same at e) in
        rw (same, same) (ap (λ h. some (given_over h)) this)
    | inr other ↦ rw (other, other) (find-new_owner org organizations (rw other at e))
  ]

  hand_over-IsHandedOver :
      (now : ℕ) (org : Organization) (o : Office)
      → t.requested_by_user_id ≢ t.target_user_id
      → find (λ g. g.id == org.id) o.db.organizations ≡ some org
      → IsHandedOver org o.db (hand_over now t org o).db
  unfolding hand_over
  hand_over-IsHandedOver now org o ne e =
      let ids = shop_ids org o.db in
      let old = o.db.memberships in
      let updated = update (λ m. mem m.shop_id ids) (λ m. promote t (demote t m)) old in
      let new = new_memberships t old (shops_of org o.db) in
      (
        find-new_owner org o.db.organizations e,
        λ k h.
            let split = any-append (owns_shop t.target_user_id k) updated new in
            elim (Bool-cases (any (λ m. m.shop_id == k && m.user_id == t.target_user_id) old)) [
              | inl had ↦ ground (arith, split, updated-owns_shop ids k old h had)
              | inr had_none ↦
                  ground (arith, split, new-owns_shop k old (shops_of org o.db) h had_none)
            ],
        ground (
          arith,
          any-append (owns_any_of t.requested_by_user_id ids) updated new,
          updated-no_former ids old ne,
          new-no_former ids old (shops_of org o.db) ne,
        ),
      )

  -- the completion changed nothing but the transfer
  abbrev pub IsRefused : Office → Office → Type 0
  IsRefused o after =
      (e : TransferError) × (after
        ≡ save_transfer (record t { status = failed; last_error = some e }) o)

  complete_with-cases :
      (now : ℕ) (found : Option Organization) (o : Office)
      → find (λ g. g.id == t.organization_id) o.db.organizations ≡ found
      → t.requested_by_user_id ≢ t.target_user_id
      → IsRefused o (complete_with now t found o)
        ⊎ ((org : Organization) × (org.id ≡ t.organization_id)
            × (org.owner_user_id ≡ t.requested_by_user_id)
            × (is_target_member t org o.db ≡ true)
            × IsHandedOver org o.db (complete_with now t found o).db)
  unfolding complete_with
  complete_with-cases now none o e ne = inl (ownership_changed, refl)
  complete_with-cases now (some org) o e ne =
      let id =
        ==→eq org.id t.organization_id
          (find-holds (λ g. g.id == t.organization_id) o.db.organizations org e) in
      let e' : find (λ g. g.id == org.id) o.db.organizations ≡ some org =
        subst (λ k. find (λ g. g.id == k) o.db.organizations ≡ some org) (sym id) e in
      elim (Bool-cases (org.owner_user_id == t.requested_by_user_id)) [
        | inr changed ↦ inl (ownership_changed, rw changed refl)
        | inl kept ↦ elim (Bool-cases (is_target_member t org o.db)) [
          | inr stranger ↦ inl (target_not_member, rw (kept, stranger) refl)
          | inl member ↦ elim (Bool-cases (owns_other t org o.db)) [
            | inl other ↦ inl (target_owns_other, rw (kept, member, other) refl)
            | inr alone ↦ inr (
              org,
              id,
              ==→eq org.owner_user_id t.requested_by_user_id kept,
              member,
              rw (kept, member, alone) (hand_over-IsHandedOver now org o ne e'),
            )
          ]
        ]
      ]

-- The completion of a running transfer between two different users either leaves everything but the
-- transfer, which has then failed, or hands the organization over: the requester was its owner and
-- the target an active member of one of its shops; afterwards the target owns the organization and
-- is an active owner in each of its shops, and the requester is an owner in none of them.
pub complete_transfer-ownership :
    (now transfer_id : ℕ) (o : Office) (t : Transfer)
    → find_transfer transfer_id o ≡ some t
    → runs t.status ≡ true
    → t.requested_by_user_id ≢ t.target_user_id
    → IsRefused t o (complete_transfer now transfer_id o)
      ⊎ ((org : Organization) × (org.id ≡ t.organization_id)
          × (org.owner_user_id ≡ t.requested_by_user_id)
          × (is_target_member t org o.db ≡ true)
          × IsHandedOver t org o.db (complete_transfer now transfer_id o).db)
unfolding complete_transfer complete_found
complete_transfer-ownership now transfer_id o t found running ne =
    rw (found, running)
      (complete_with-cases t now (find (λ g. g.id == t.organization_id) o.db.organizations) o refl
        ne)
