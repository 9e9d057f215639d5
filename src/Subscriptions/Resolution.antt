-- ===== src/Subscriptions/Resolution.antt =====
-- Which subscription decides the entitlement, and what the entitlement allows.
use aurum_pos.Prelude.{
  ℕ, ◌≤◌, ◌<◌, Any, ◌≡◌, ap, ◌↔◌, refl, Bool, true, false, Option, none, some, List, [], ◌∷◌, All,
  select, arith, Bool-cases, Option-cases, inl, inr, All-map, All-of_select, select_empty,
  select_nonempty, any, if◌then◌else◌,
}
use aurum_pos.Tables.Access.{Settings, Subscription, pro, active}
use aurum_pos.Tables.Sales.{Store}
use aurum_pos.Subscriptions.{
  Entitlement, is_current, comes_before, first_row, resolve_entitlement, pro_entitlement,
  free_entitlement,
}

-- an expiry at least as late: no expiry is the latest
abbrev pub Outlasts : Option ℕ → Option ℕ → Type 0
Outlasts none t = Unit {0}
Outlasts (some a) none = ⊥
Outlasts (some a) (some b) = b ≤ a

abbrev pub Lasts : Option Subscription → Subscription → Type 0
Lasts none t = ⊥
Lasts (some s) t = Outlasts s.expires_at t.expires_at

Outlasts-refl : (t : Option ℕ) → Outlasts t t
Outlasts-refl none = tt
Outlasts-refl (some a) = omega arith

Outlasts-trans : (a b c : Option ℕ) → Outlasts a b → Outlasts b c → Outlasts a c
Outlasts-trans none b c h k = tt
Outlasts-trans (some a) (some b) (some c) h k = omega arith
Outlasts-trans (some a) (some b) none h k = k
Outlasts-trans (some a) none c h k = elim h [ ]

comes_before-Outlasts :
    (s t : Subscription) → comes_before s t ≡ true → Outlasts s.expires_at t.expires_at
unfolding comes_before
comes_before-Outlasts s t h = ground arith

not_before-Outlasts :
    (s t : Subscription) → comes_before s t ≡ false → Outlasts t.expires_at s.expires_at
unfolding comes_before
not_before-Outlasts s t h = ground arith

-- the step of `first_row` on its recursive result
abbrev pick : Option Subscription → Subscription → Option Subscription
pick o s = elim o [ none ↦ some s | some t ↦ some (if comes_before t s then t else s) ]

pick-Lasts :
    (o : Option Subscription) (s : Subscription) (rest : List Subscription)
    → All (Lasts o) rest
    → Lasts (pick o s) s × All (Lasts (pick o s)) rest
pick-Lasts none s rest h =
    (Outlasts-refl s.expires_at, All-map (Lasts none) (Lasts (some s)) rest (λ t k. absurd k) h)
pick-Lasts (some t) s rest h = elim (Bool-cases (comes_before t s)) [
  | inl e ↦ rw e (comes_before-Outlasts t s e, h)
  | inr e ↦ rw e (
    Outlasts-refl s.expires_at,
    All-map (Lasts (some t)) (Lasts (some s)) rest
        (λ u k. Outlasts-trans s.expires_at t.expires_at u.expires_at (not_before-Outlasts t s e) k)
        h,
  )
]

first_row-Lasts : (rows : List Subscription) → All (Lasts (first_row rows)) rows
unfolding first_row
first_row-Lasts [] = tt
first_row-Lasts (s ∷ rest) = pick-Lasts (first_row rest) s rest (first_row-Lasts rest)

first_row-some :
    (s : Subscription) (rest : List Subscription)
    → (t : Subscription) × (first_row (s ∷ rest) ≡ some t)
unfolding first_row
first_row-some s rest = elim (Option-cases (first_row rest)) [
  | inl e ↦ (s, rw e)
  | inr (t, e) ↦ (if comes_before t s then t else s, rw e)
]

-- an expiry in the future; no expiry is one
abbrev pub EndsAfter : ℕ → Option ℕ → Type 0
EndsAfter now none = Unit {0}
EndsAfter now (some t) = now < t

module _ (now organization_id : ℕ) where
  abbrev IsLive : Subscription → Type 0
  IsLive s =
      (s.organization_id ≡ organization_id)
      × (s.plan ≡ pro)
      × (s.status ≡ active)
      × (s.revoked_at ≡ none)
      × (s.starts_at ≤ now)
      × EndsAfter now s.expires_at

  is_current-IsLive : (s : Subscription) → is_current now organization_id s ≡ true → IsLive s
  unfolding is_current
  is_current-IsLive s h = (
    ground (arith, h),
    ground (arith, h),
    ground (arith, h),
    ground (arith, h),
    ground (arith, h),
    ground (arith, h),
  )

  IsLive-is_current : (s : Subscription) → IsLive s → is_current now organization_id s ≡ true
  unfolding is_current
  IsLive-is_current s h = ground (arith, h)

  any-Any :
      (rows : List Subscription)
      → any (is_current now organization_id) rows ≡ true
      → Any IsLive rows
  any-Any [] h = absurd (cc h)
  any-Any (s ∷ rows) h = elim (Bool-cases (is_current now organization_id s)) [
    | inl e ↦ inl (is_current-IsLive s e)
    | inr e ↦ inr (any-Any rows (rw e at h))
  ]

  Any-any :
      (rows : List Subscription)
      → Any IsLive rows
      → any (is_current now organization_id) rows ≡ true
  Any-any [] h = absurd h
  Any-any (s ∷ rows) (inl live) = rw (IsLive-is_current s live) refl
  Any-any (s ∷ rows) (inr later) = elim (Bool-cases (is_current now organization_id s)) [
    | inl e ↦ rw e refl
    | inr e ↦ rw e (Any-any rows later)
  ]

module _ (settings : Settings) where
  -- the entitlement that the chosen row gives
  abbrev entitled : Option Subscription → Entitlement
  entitled o = elim o [ some s ↦ pro_entitlement settings s | none ↦ free_entitlement settings ]

  abbrev Covers : Entitlement → Subscription → Type 0
  Covers e s = (e.plan ≡ pro) × (e.item_limit ≡ none) × Outlasts e.expires_at s.expires_at

  entitled-Covers : (o : Option Subscription) (s : Subscription) → Lasts o s → Covers (entitled o) s
  entitled-Covers none s h = absurd h
  entitled-Covers (some t) s h = (refl, refl, h)

  module _ (now organization_id : ℕ) (db : Store) (hosted : settings.is_hosted ≡ true) where
    abbrev current : Subscription → Bool
    current = is_current now organization_id

    resolve_entitlement-eq :
        resolve_entitlement settings now db organization_id
        ≡ entitled (first_row (select current db.subscriptions))
    unfolding resolve_entitlement
    resolve_entitlement-eq = rw hosted

    entitled_iff :
        (rows : List Subscription)
        → select current db.subscriptions ≡ rows
        → ((entitled (first_row rows)).plan ≡ pro) ↔ (any current db.subscriptions ≡ true)
    unfolding first_row
    entitled_iff [] e = (λ h. cc, λ h. cc (select_empty current db.subscriptions e))
    entitled_iff (y ∷ ys) e =
        let (t, found) = first_row-some y ys in
        (
          λ _. select_nonempty current db.subscriptions y ys e,
          λ _. ap (λ o. (entitled o).plan) found,
        )

    pub resolve_entitlement-current_iff :
        ((resolve_entitlement settings now db organization_id).plan ≡ pro)
        ↔ (any (is_current now organization_id) db.subscriptions ≡ true)
    resolve_entitlement-current_iff =
        rw resolve_entitlement-eq (entitled_iff (select current db.subscriptions) refl)

    -- On the hosted service, an organization is on Pro exactly when one of its subscriptions is an
    -- active Pro one that has started, has not expired and is not revoked.
    pub resolve_entitlement-pro_iff :
        ((resolve_entitlement settings now db organization_id).plan ≡ pro)
        ↔ Any
            (λ s.
              (s.organization_id ≡ organization_id)
              × (s.plan ≡ pro)
              × (s.status ≡ active)
              × (s.revoked_at ≡ none)
              × (s.starts_at ≤ now)
              × EndsAfter now s.expires_at)
            db.subscriptions
    resolve_entitlement-pro_iff =
        let both = resolve_entitlement-current_iff in
        (
          λ h. any-Any now organization_id db.subscriptions (both.0 h),
          λ h. both.1 (Any-any now organization_id db.subscriptions h),
        )

    -- On the hosted service, every current subscription puts its organization on Pro, with no item
    -- limit and with an expiry at least as late as that of the subscription.
    pub resolve_entitlement-Outlasts :
        let e = resolve_entitlement settings now db organization_id in
        All
          (λ s.
            is_current now organization_id s ≡ true
            → (e.plan ≡ pro) × (e.item_limit ≡ none) × Outlasts e.expires_at s.expires_at)
          db.subscriptions
    resolve_entitlement-Outlasts =
        let rows = select current db.subscriptions in
        rw resolve_entitlement-eq (
          All-of_select (Covers (entitled (first_row rows))) current db.subscriptions (
            All-map (Lasts (first_row rows)) (Covers (entitled (first_row rows))) rows
              (entitled-Covers (first_row rows)) (first_row-Lasts rows)))
