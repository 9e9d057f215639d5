-- ===== src/WhatsApp/Phone/Normal.antt =====
-- A normalised number is an E.164 number, and normalising it again changes nothing.
use aurum_pos.Prelude.{
  ℕ, ◌≤◌, ◌≡◌, refl, ap, sym, ◌∙◌, subst, Bool, true, false, not, [], ◌∷◌, select, length, ok,
  ==→eq, arith,
}
use aurum_pos.Text.{Text, strip, lstrip, rstrip, cons_stripped, is_space}
use aurum_pos.WhatsApp.Phone.{
  is_separator, starts_with, tail, all_chars, complete_number, check_number,
  normalize_whatsapp_phone,
}

-- a plus sign and eight to fifteen digits, of which the first is not 0
abbrev pub IsE164 : (ℕ → Bool) → Text → Type 0
IsE164 is_digit s =
    (starts_with b'+' s ≡ true)
    × (all_chars is_digit (tail s) ≡ true)
    × (8 ≤ length (tail s))
    × (length (tail s) ≤ 15)
    × (starts_with b'0' (tail s) ≡ false)

check_number-IsE164 :
    (is_digit : ℕ → Bool) (s : Text) {t : Text}
    → check_number is_digit s ≡ ok t
    → (s ≡ t) × IsE164 is_digit s
unfolding check_number
check_number-IsE164 is_digit s {t} e = ground arith

cons_stripped-char : (c : ℕ) (s : Text) → is_space c ≡ false → cons_stripped c s ≡ c ∷ s
unfolding cons_stripped
cons_stripped-char c [] e = rw e refl
cons_stripped-char c (d ∷ s) e = refl

module _ (is_digit : ℕ → Bool) (digits_kept : (c : ℕ) → is_digit c ≡ true → is_separator c ≡ false)
    (plus_apart : is_digit b'+' ≡ false) where
  select-digits :
      (s : Text) → all_chars is_digit s ≡ true → select (λ c. not (is_separator c)) s ≡ s
  select-digits [] h = refl
  select-digits (c ∷ s) h = ground (arith, digits_kept c, select-digits s)

  digit-is_space : (c : ℕ) → is_digit c ≡ true → is_space c ≡ false
  digit-is_space c h = let kept = digits_kept c h in unfold is_separator in ground arith

  rstrip-digits : (s : Text) → all_chars is_digit s ≡ true → rstrip s ≡ s
  unfolding rstrip
  rstrip-digits [] h = refl
  rstrip-digits (c ∷ s) h =
      ap (cons_stripped c) (rstrip-digits s (ground arith))
      ∙ cons_stripped-char c s (digit-is_space c (ground arith))

  complete_number-plus : (r : Text) → complete_number is_digit (b'+' ∷ r) ≡ b'+' ∷ r
  unfolding complete_number
  complete_number-plus r = ground (arith, plus_apart)

  check_number-e164 : (s : Text) → IsE164 is_digit s → check_number is_digit s ≡ ok s
  unfolding check_number
  check_number-e164 s h = ground (arith, h.0, h.1, h.2)

  separators-e164 :
      (r : Text)
      → all_chars is_digit r ≡ true
      → select (λ c. not (is_separator c)) (strip (b'+' ∷ r)) ≡ b'+' ∷ r
  unfolding strip lstrip rstrip is_separator is_space
  separators-e164 r h =
      ap (λ s. select (λ c. not (is_separator c)) (cons_stripped b'+' s)) (rstrip-digits r h)
      ∙ ap (select (λ c. not (is_separator c))) (cons_stripped-char b'+' r refl)
      ∙ ap (λ s. b'+' ∷ s) (select-digits r h)

  normalize-e164 :
      (r : Text)
      → IsE164 is_digit (b'+' ∷ r)
      → normalize_whatsapp_phone is_digit (b'+' ∷ r) ≡ ok (b'+' ∷ r)
  unfolding normalize_whatsapp_phone
  normalize-e164 r h =
      ap (λ s. check_number is_digit (complete_number is_digit s)) (separators-e164 r h.1)
      ∙ ap (check_number is_digit) (complete_number-plus r)
      ∙ check_number-e164 (b'+' ∷ r) h

  plus-normal : (s : Text) → IsE164 is_digit s → normalize_whatsapp_phone is_digit s ≡ ok s
  plus-normal [] h = cc
  plus-normal (c ∷ r) h =
      let plus : b'+' ≡ c = sym (==→eq c b'+' h.0) in
      subst (λ d. IsE164 is_digit (d ∷ r) → normalize_whatsapp_phone is_digit (d ∷ r) ≡ ok (d ∷ r))
        plus (normalize-e164 r) h

  -- A number that was accepted is a plus sign and eight to fifteen digits of which the first is not 0;
  -- normalising it again gives the same number. Here no digit is a separator, nor is the plus sign a digit.
  pub normalize_whatsapp_phone-IsE164 :
      (value : Text) {number : Text}
      → normalize_whatsapp_phone is_digit value ≡ ok number
      → IsE164 is_digit number × (normalize_whatsapp_phone is_digit number ≡ ok number)
  unfolding normalize_whatsapp_phone
  normalize_whatsapp_phone-IsE164 value {number} e =
      let s = complete_number is_digit (select (λ c. not (is_separator c)) (strip value)) in
      let (same, valid) = check_number-IsE164 is_digit s e in
      let valid' = subst (IsE164 is_digit) same valid in (valid', plus-normal number valid')
