-- ===== src/Decimal/Rounding.antt =====
-- How far rounding to hundredths moves a value, and how rounded parts add up.
use native.Mathlib.Nat.{
  pow-zero, pow-suc, add-zero, add-suc, mul-pos, mul-le-mul_right, div-add-mod, mod-lt,
  div-eq_of_eq-mul_left, mul-mod_left,
}
use aurum_pos.Prelude.{
  ℕ, zero, suc, ◌+◌, ◌*◌, ◌/◌, ◌%◌, ◌^◌, ◌≤◌, ◌<◌, ◌≡◌, ap, arith, Bool-cases, inl, inr, leb,
  leb→le, ◌==◌, ==→eq,
}
use aurum_pos.Decimal.{Decimal, zero_decimal, ◌+ᵈ◌, round_half_up, round_half_even}

pub pow-pos : (k : ℕ) → 0 < 10 ^ k
pow-pos zero = omega arith
pow-pos (suc k) = rw (pow-suc 10 k) (omega (arith, pow-pos k))

pow-two : (k : ℕ) → 10 ^ suc (suc k) ≡ 100 * 10 ^ k
pow-two k = rw (pow-suc 10 (suc k), pow-suc 10 k) (omega arith)

-- `q` hundredths are the value `c / d` rounded, a tie going up
abbrev pub IsRounded : ℕ → ℕ → ℕ → Type 0
IsRounded q c d = (2 * q * d ≤ 200 * c + d) × (200 * c + d < 2 * (q + 1) * d)

half_up : (c u : ℕ) → 0 < u → IsRounded ((2 * c + u) / (2 * u)) c (100 * u)
half_up c u h =
    let n : ℕ = 2 * c + u in
    let d : ℕ = 2 * u in
    let small : n % d < d = mod-lt n (omega arith) in omega (arith, div-add-mod n d)

pub round_half_up-IsRounded : (c p : ℕ) → IsRounded (round_half_up c p) c (10 ^ p)
unfolding round_half_up
round_half_up-IsRounded c zero = omega arith
round_half_up-IsRounded c (suc zero) = omega arith
round_half_up-IsRounded c (suc (suc k)) = rw (pow-two k) (half_up c (10 ^ k) (pow-pos k))

le_of_scaled : (a b d : ℕ) → 0 < d → 2 * a * d < (2 * b + 2) * d → a ≤ b
le_of_scaled a b d h lt = elim (Bool-cases (leb a b)) [
  | inl e ↦ leb→le a b e
  | inr e ↦
      let above : b + 1 ≤ a = ground arith in absurd (omega (arith, mul-le-mul_right (2 * d) above))
]

-- Rounding the sum of two values and adding the rounded values differ by one hundredth at most.
pub rounded_sum :
    (p q s c d a b : ℕ)
    → 0 < a
    → 0 < b
    → IsRounded p c a
    → IsRounded q d b
    → IsRounded s (c * b + d * a) (a * b)
    → (s ≤ p + q + 1) × (p + q ≤ s + 1)
rounded_sum p q s c d a b ha hb hp hq hs =
    let pos : 0 < a * b = mul-pos ha hb in
    let low : (2 * p * a) * b ≤ (200 * c + a) * b = mul-le-mul_right b hp.0 in
    let low' : (2 * q * b) * a ≤ (200 * d + b) * a = mul-le-mul_right a hq.0 in
    let high : (200 * c + a + 1) * b ≤ (2 * (p + 1) * a) * b = mul-le-mul_right b (omega arith) in
    let high' : (200 * d + b + 1) * a ≤ (2 * (q + 1) * b) * a = mul-le-mul_right a (omega arith) in
    (
      le_of_scaled s (p + q + 1) (a * b) pos (omega arith),
      le_of_scaled (p + q) (s + 1) (a * b) pos (omega arith),
    )

-- a value that is a whole number of hundredths is left as it is
pub round_half_even_exact : (c p q : ℕ) → 100 * c ≡ q * 10 ^ p → round_half_even c p ≡ q
unfolding round_half_even
round_half_even_exact c zero q h = omega arith
round_half_even_exact c (suc zero) q h = omega arith
round_half_even_exact c (suc (suc k)) q h =
    let pos : 0 < 10 ^ k = pow-pos k in
    let value : c ≡ q * 10 ^ k = omega (arith, ap (λ (t : ℕ). q * t) (pow-two k)) in
    let quotient : c / 10 ^ k ≡ q = div-eq_of_eq-mul_left pos value in
    let rest : c % 10 ^ k ≡ 0 = rw value (mul-mod_left q (10 ^ k)) in ground arith

pub pow-add : (m n : ℕ) → 10 ^ (m + n) ≡ 10 ^ m * 10 ^ n
pow-add m zero = rw (add-zero m, pow-zero 10) (omega arith)
pow-add m (suc n) = rw (add-suc m n, pow-suc 10 (m + n), pow-suc 10 n, pow-add m n) (omega arith)

-- rounding does not depend on how a fraction is expanded
pub IsRounded-expand : (q c d a : ℕ) → 0 < a → IsRounded q c d → IsRounded q (c * a) (d * a)
IsRounded-expand q c d a h r =
    let low : (2 * q * d) * a ≤ (200 * c + d) * a = mul-le-mul_right a r.0 in
    let high : (200 * c + d + 1) * a ≤ (2 * (q + 1) * d) * a = mul-le-mul_right a (omega arith) in
    (omega arith, omega arith)

eq-expand : (c d a : ℕ) → c * a + d * a ≡ (c + d) * a
eq-expand c d a = omega arith

sum-IsRounded :
    (a b : Decimal)
    → let s = a +ᵈ b in
      IsRounded
        (round_half_up s.coef s.places)
        (a.coef * 10 ^ b.places + b.coef * 10 ^ a.places)
        (10 ^ a.places * 10 ^ b.places)
unfolding ◌+ᵈ◌
sum-IsRounded a b = elim (Bool-cases (a.places == b.places)) [
  | inl e ↦
      let same : a.places ≡ b.places = ==→eq a.places b.places e in
      rw (e, same)
        (rw (eq-expand (a.coef) (b.coef) (10 ^ b.places)) (
          IsRounded-expand _ _ _ (10 ^ b.places) (pow-pos b.places)
            (round_half_up-IsRounded (a.coef + b.coef) b.places)))
  | inr e ↦ rw (e, ← pow-add a.places b.places) (round_half_up-IsRounded _ (a.places + b.places))
]

-- Rounding a sum and adding the rounded summands differ by one hundredth at most.
pub round_half_up-+ᵈ :
    (a b : Decimal)
    → let s = a +ᵈ b in
      let total = round_half_up s.coef s.places in
      let parts = round_half_up a.coef a.places + round_half_up b.coef b.places in
      (total ≤ parts + 1) × (parts ≤ total + 1)
round_half_up-+ᵈ a b =
    rounded_sum _ _ _ a.coef b.coef (10 ^ a.places) (10 ^ b.places) (pow-pos a.places)
      (pow-pos b.places) (round_half_up-IsRounded a.coef a.places)
      (round_half_up-IsRounded b.coef b.places) (sum-IsRounded a b)

pub +ᵈ_zero : (a : Decimal) → a +ᵈ zero_decimal ≡ a
unfolding ◌+ᵈ◌
+ᵈ_zero a = rw (pow-zero 10) (ground arith)

pub zero_+ᵈ : (a : Decimal) → zero_decimal +ᵈ a ≡ a
unfolding ◌+ᵈ◌
zero_+ᵈ a = rw (pow-zero 10) (ground arith)
