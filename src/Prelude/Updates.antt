-- ===== src/Prelude/Updates.antt =====
-- What a lookup finds in a list whose rows were rewritten or extended.
use mathlib.Core.Path.{◌≡◌, refl, ap}
use mathlib.Core.Bool.{Bool, true, false}
use mathlib.Core.Option.{none, some, some-injective, map as map_option}
use mathlib.Core.List.{List, [], ◌∷◌, ◌++◌}
use mathlib.Core.Logic.{inl, inr}
use native.Mathlib.Omega.{arith}
use aurum_pos.Prelude.Tests.{if◌then◌else◌, Bool-cases}
use aurum_pos.Prelude.Lists.{find, any, update}

module _ {ℓ} {A : Type ℓ} where
  -- a rewrite of the rows that pass one test, seen through another test that it respects
  pub find-update :
      (p q : A → Bool) (f : A → A) (xs : List A)
      → ((x : A) → p x ≡ true → q (f x) ≡ q x)
      → find q (update p f xs) ≡ map_option (λ x. if p x then f x else x) (find q xs)
  find-update p q f [] keeps = refl
  find-update p q f (x ∷ xs) keeps = elim (Bool-cases (p x)) [
    | inl chosen ↦ elim (Bool-cases (q x)) [
      | inl seen ↦ rw (chosen, keeps x chosen, seen, chosen) refl
      | inr unseen ↦ rw (chosen, keeps x chosen, unseen) (find-update p q f xs keeps)
    ]
    | inr other ↦ elim (Bool-cases (q x)) [
      | inl seen ↦ rw (other, seen, other) refl
      | inr unseen ↦ rw (other, unseen) (find-update p q f xs keeps)
    ]
  ]

  -- the first row that passes a test is also the first of those that pass a stricter one it passes
  pub find-stricter :
      (p q : A → Bool) (xs : List A) (a : A)
      → ((x : A) → q x ≡ true → p x ≡ true)
      → find p xs ≡ some a
      → q a ≡ true
      → find q xs ≡ some a
  find-stricter p q [] a strict e h = ground arith
  find-stricter p q (x ∷ xs) a strict e h = elim (Bool-cases (p x)) [
    | inl passes ↦ let same : x ≡ a = some-injective x a (rw passes at e) in rw (same, h) refl
    | inr fails ↦ elim (Bool-cases (q x)) [
      | inl passes ↦ absurd (cc (fails, strict x passes))
      | inr skipped ↦ rw skipped (find-stricter p q xs a strict (rw fails at e) h)
    ]
  ]

  -- a rewrite that keeps a test keeps that some row passes it
  pub any-update :
      (p q : A → Bool) (f : A → A) (xs : List A)
      → ((x : A) → q x ≡ true → q (f x) ≡ true)
      → any q xs ≡ true
      → any q (update p f xs) ≡ true
  any-update p q f [] keeps h = h
  any-update p q f (x ∷ xs) keeps h = elim (Bool-cases (q x)) [
    | inl passes ↦ elim (Bool-cases (p x)) [
      | inl chosen ↦ rw (chosen, keeps x passes) refl
      | inr other ↦ rw (other, passes) refl
    ]
    | inr fails ↦ ground (arith, fails, any-update p q f xs keeps (rw fails at h))
  ]

  pub any-updated :
      (p q : A → Bool) (f : A → A) (xs : List A)
      → ((x : A) → p x ≡ true → q (f x) ≡ true)
      → any p xs ≡ true
      → any q (update p f xs) ≡ true
  any-updated p q f [] makes h = absurd (cc h)
  any-updated p q f (x ∷ xs) makes h = elim (Bool-cases (p x)) [
    | inl chosen ↦ rw (chosen, makes x chosen) refl
    | inr other ↦ ground (arith, other, any-updated p q f xs makes (rw other at h))
  ]

  pub any-append : (q : A → Bool) (xs ys : List A) → any q xs ≡ true → any q (xs ++ ys) ≡ true
  any-append q [] ys h = absurd (cc h)
  any-append q (x ∷ xs) ys h = ground (arith, any-append q xs ys)

  pub any-appended : (q : A → Bool) (xs ys : List A) → any q ys ≡ true → any q (xs ++ ys) ≡ true
  any-appended q [] ys h = h
  any-appended q (x ∷ xs) ys h = ground (arith, any-appended q xs ys h)

  -- where no row passes a test, none passes a stricter one
  pub find-none_of_any :
      (p q : A → Bool) (xs : List A)
      → ((x : A) → q x ≡ true → p x ≡ true)
      → any p xs ≡ false
      → find q xs ≡ none
  find-none_of_any p q [] strict h = refl
  find-none_of_any p q (x ∷ xs) strict h = elim (Bool-cases (q x)) [
    | inl passes ↦ absurd (cc (rw (strict x passes) at h))
    | inr fails ↦ rw fails (find-none_of_any p q xs strict (ground arith))
  ]

  -- a row that takes the place of the found one is found in turn
  pub find-replaced :
      (p q : A → Bool) (y : A) (xs : List A) (x : A)
      → find q xs ≡ some x
      → p x ≡ true
      → q y ≡ true
      → find q (update p (λ _. y) xs) ≡ some y
  find-replaced p q y [] x e h k = absurd (cc e)
  find-replaced p q y (x' ∷ xs) x e h k = elim (Bool-cases (p x')) [
    | inl chosen ↦ rw (chosen, k) refl
    | inr other ↦ elim (Bool-cases (q x')) [
      | inl seen ↦
          let same : x' ≡ x = some-injective x' x (rw seen at e) in
          absurd (cc (other, ap p same, h))
      | inr unseen ↦ rw (other, unseen) (find-replaced p q y xs x (rw unseen at e) h k)
    ]
  ]

  pub any-found :
      (p q : A → Bool) (xs : List A) (x : A) → find p xs ≡ some x → q x ≡ true → any q xs ≡ true
  any-found p q [] x e h = absurd (cc e)
  any-found p q (x' ∷ xs) x e h = elim (Bool-cases (p x')) [
    | inl passes ↦ let same : x' ≡ x = some-injective x' x (rw passes at e) in rw (same, h) refl
    | inr fails ↦ ground (arith, any-found p q xs x (rw fails at e) h)
  ]

  -- after a rewrite that makes the rows fail the test, none passes it
  pub find-updated_none :
      (p : A → Bool) (f : A → A) (xs : List A)
      → ((x : A) → p (f x) ≡ false)
      → find p (update p f xs) ≡ none
  find-updated_none p f [] fails = refl
  find-updated_none p f (x ∷ xs) fails = elim (Bool-cases (p x)) [
    | inl passes ↦ rw (passes, fails x) (find-updated_none p f xs fails)
    | inr other ↦ rw (other, other) (find-updated_none p f xs fails)
  ]
