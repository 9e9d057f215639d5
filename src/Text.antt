-- ===== src/Text.antt =====
-- Python's `str.strip` and `str.lower` over code points, as the catalogue code calls them.
-- A text is the list of its code points. `lower` folds the ASCII letters, which are all the letters
-- of the words that the code compares with; other letters are left as they are.
pub mod Strip
use Prim.Native.String.{String}
use Prim.Native.Char.{code}
use aurum_pos.Prelude.{
  ℕ, ◌+◌, ◌≡◌, refl, Bool, true, false, ◌&&◌, ◌||◌, List, [], ◌∷◌, map, arith, leb, ◌==◌,
  if◌then◌else◌, Bool-cases, inl, inr,
}

abbrev pub Text : Type 0
Text = List ℕ

-- a literal
abbrev pub text : String → Text
text String.[] = []
text (String.◌∷◌ c s) = code c ∷ text s

-- `str.isspace` of one character
unfoldable pub is_space : ℕ → Bool
is_space c =
    (leb 9 c && leb c 13)
    || (leb 28 c && leb c 32)
    || c == 0x85
    || c == 0xa0
    || c == 0x1680
    || (leb 0x2000 c && leb c 0x200a)
    || (leb 0x2028 c && leb c 0x2029)
    || c == 0x202f
    || c == 0x205f
    || c == 0x3000

unfoldable pub lower_char : ℕ → ℕ
lower_char c = if leb b'A' c && leb c b'Z' then c + 32 else c

unfoldable pub lower : Text → Text
unfolding lower_char
lower = map lower_char

unfoldable pub lstrip : Text → Text
unfolding is_space
lstrip [] = []
lstrip (c ∷ cs) = if is_space c then lstrip cs else c ∷ cs

-- a character put before a text whose trailing spaces are dropped
unfoldable pub cons_stripped : ℕ → Text → Text
unfolding is_space
cons_stripped c [] = if is_space c then [] else c ∷ []
cons_stripped c (d ∷ ds) = c ∷ d ∷ ds

unfoldable pub rstrip : Text → Text
unfolding cons_stripped
rstrip [] = []
rstrip (c ∷ cs) = cons_stripped c (rstrip cs)

unfoldable pub strip : Text → Text
unfolding lstrip rstrip
strip s = rstrip (lstrip s)

-- `s.strip().lower()`
unfoldable pub normalize : Text → Text
unfolding strip lower
normalize s = lower (strip s)

infix 50 ◌=ᵗ◌
abbrev pub ◌=ᵗ◌ : Text → Text → Bool
[] =ᵗ [] = true
[] =ᵗ (d ∷ ds) = false
(c ∷ cs) =ᵗ [] = false
(c ∷ cs) =ᵗ (d ∷ ds) = c == d && (cs =ᵗ ds)

pub =ᵗ→eq : (s t : Text) → (s =ᵗ t) ≡ true → s ≡ t
=ᵗ→eq [] [] h = refl
=ᵗ→eq [] (d ∷ ds) h = ground arith
=ᵗ→eq (c ∷ cs) [] h = ground arith
=ᵗ→eq (c ∷ cs) (d ∷ ds) h = ground (arith, =ᵗ→eq cs ds)

pub =ᵗ_refl : (s : Text) → (s =ᵗ s) ≡ true
=ᵗ_refl [] = refl
=ᵗ_refl (c ∷ cs) = ground (arith, =ᵗ_refl cs)

pub lower_char_idem : (c : ℕ) → lower_char (lower_char c) ≡ lower_char c
unfolding lower_char
lower_char_idem c = ground arith

pub lower_idem : (s : Text) → lower (lower s) ≡ lower s
unfolding lower
lower_idem [] = refl
lower_idem (c ∷ cs) = ground (arith, lower_char_idem c, lower_idem cs)

pub is_space-lower_char : (c : ℕ) → is_space (lower_char c) ≡ is_space c
unfolding is_space lower_char
is_space-lower_char c = ground arith

pub lstrip-lower : (s : Text) → lstrip (lower s) ≡ lower (lstrip s)
unfolding lower lstrip
lstrip-lower [] = refl
lstrip-lower (c ∷ cs) = elim (Bool-cases (is_space c)) [
  | inl e ↦ rw (is_space-lower_char c, e) (lstrip-lower cs)
  | inr e ↦ rw (is_space-lower_char c, e)
]
