-- ===== src/Decimal.antt =====
-- Python's `decimal.Decimal`, for the values that the pricing code computes: none is negative, and
-- all of them have fewer than the 28 digits of the default context, so `+` and `*` are exact.
-- A value is `coef / 10 ^ places`. Dividing by 100 is exact too: it moves the point.
pub mod Rounding
use aurum_pos.Prelude.{
  ℕ, zero, suc, ◌+◌, ◌*◌, ◌/◌, ◌%◌, ◌^◌, Bool, not, Option, none, some, ltb, leb, ◌==◌,
  if◌then◌else◌,
}

pub record Decimal : Type 0 where
  pub coef : ℕ
  pub places : ℕ

abbrev pub decimal : ℕ → ℕ → Decimal
decimal c p = record { coef = c; places = p }

-- `Decimal(0)`
abbrev pub zero_decimal : Decimal
zero_decimal = decimal 0 0

infixl 65 ◌+ᵈ◌
infixl 70 ◌*ᵈ◌
infix 50 ◌<ᵈ◌ ◌=ᵈ◌
unfoldable pub ◌*ᵈ◌ : Decimal → Decimal → Decimal
a *ᵈ b = decimal (a.coef * b.coef) (a.places + b.places)

-- both are brought to a common number of places
unfoldable pub ◌+ᵈ◌ : Decimal → Decimal → Decimal
a +ᵈ b =
    if a.places == b.places
    then decimal (a.coef + b.coef) a.places
    else decimal (a.coef * 10 ^ b.places + b.coef * 10 ^ a.places) (a.places + b.places)

-- `x / Decimal("100")`
unfoldable pub div_hundred : Decimal → Decimal
div_hundred a = decimal a.coef (suc (suc a.places))

abbrev pub ◌<ᵈ◌ : Decimal → Decimal → Bool
a <ᵈ b = ltb (a.coef * 10 ^ b.places) (b.coef * 10 ^ a.places)

abbrev pub ◌=ᵈ◌ : Decimal → Decimal → Bool
a =ᵈ b = (a.coef * 10 ^ b.places) == (b.coef * 10 ^ a.places)

-- `quantize(Decimal("0.01"), rounding=ROUND_HALF_UP)`, in hundredths
unfoldable pub round_half_up : ℕ → ℕ → ℕ
round_half_up c zero = c * 100
round_half_up c (suc zero) = c * 10
round_half_up c (suc (suc k)) = (2 * c + 10 ^ k) / (2 * 10 ^ k)

-- `quantize(Decimal("0.01"))`: the default context rounds half to even
unfoldable pub round_half_even : ℕ → ℕ → ℕ
round_half_even c zero = c * 100
round_half_even c (suc zero) = c * 10
round_half_even c (suc (suc k)) =
    let q = c / 10 ^ k in
    let twice = 2 * (c % 10 ^ k) in
    if ltb twice (10 ^ k)
    then q
    else if ltb (10 ^ k) twice
    then q + 1
    else if q % 2 == 0
    then q
    else q + 1
