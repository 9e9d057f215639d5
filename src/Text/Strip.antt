-- ===== src/Text/Strip.antt =====
-- Normalising a text twice is normalising it once.
use aurum_pos.Prelude.{ℕ, ◌≡◌, refl, ◌∙◌, ap, false, [], ◌∷◌, arith, inl, inr, Bool-cases}
use aurum_pos.Text.{
  Text, is_space, lower_char, lower, lstrip, cons_stripped, rstrip, strip, normalize, lower_idem,
  is_space-lower_char, lstrip-lower,
}

rstrip-cons_stripped :
    (c : ℕ) (t : Text) → rstrip t ≡ t → rstrip (cons_stripped c t) ≡ cons_stripped c t
unfolding cons_stripped rstrip
rstrip-cons_stripped c [] h = ground arith
rstrip-cons_stripped c (d ∷ ds) h = rw h

rstrip_idem : (s : Text) → rstrip (rstrip s) ≡ rstrip s
unfolding rstrip
rstrip_idem [] = refl
rstrip_idem (c ∷ cs) = rstrip-cons_stripped c (rstrip cs) (rstrip_idem cs)

cons_stripped-lower :
    (c : ℕ) (t : Text) → cons_stripped (lower_char c) (lower t) ≡ lower (cons_stripped c t)
unfolding cons_stripped lower
cons_stripped-lower c [] = ground (arith, is_space-lower_char c)
cons_stripped-lower c (d ∷ ds) = refl

rstrip-lower : (s : Text) → rstrip (lower s) ≡ lower (rstrip s)
unfolding lower rstrip
rstrip-lower [] = refl
rstrip-lower (c ∷ cs) = rw (rstrip-lower cs) (cons_stripped-lower c (rstrip cs))

-- stripping at the end leaves no new space at the front
lstrip-cons_stripped :
    (c : ℕ) (t : Text) → is_space c ≡ false → lstrip (cons_stripped c t) ≡ cons_stripped c t
unfolding cons_stripped lstrip
lstrip-cons_stripped c [] h = ground arith
lstrip-cons_stripped c (d ∷ ds) h = ground arith

lstrip-rstrip-lstrip : (s : Text) → lstrip (rstrip (lstrip s)) ≡ rstrip (lstrip s)
unfolding lstrip rstrip
lstrip-rstrip-lstrip [] = refl
lstrip-rstrip-lstrip (c ∷ cs) = elim (Bool-cases (is_space c)) [
  | inl e ↦ rw e (lstrip-rstrip-lstrip cs)
  | inr e ↦ rw e (lstrip-cons_stripped c (rstrip cs) e)
]

pub strip_idem : (s : Text) → strip (strip s) ≡ strip s
unfolding strip
strip_idem s = ap rstrip (lstrip-rstrip-lstrip s) ∙ rstrip_idem (lstrip s)

pub strip-lower : (s : Text) → strip (lower s) ≡ lower (strip s)
unfolding strip
strip-lower s = ap rstrip (lstrip-lower s) ∙ rstrip-lower (lstrip s)

pub normalize_idem : (s : Text) → normalize (normalize s) ≡ normalize s
unfolding normalize
normalize_idem s = rw (strip-lower (strip s), strip_idem s) (lower_idem (strip s))
