-- ===== src/WhatsApp/Phone.antt =====
-- `normalize_whatsapp_phone` and `recipient_hmac` of app/modules/whatsapp/service.py.
pub mod Normal
use aurum_pos.Prelude.{
  ℕ, Bool, true, false, not, ◌&&◌, ◌||◌, Option, none, some, List, [], ◌∷◌, ◌++◌, select, drop,
  length, leb, ◌==◌, if◌then◌else◌, Outcome, ok, err, ◌>>◌, raise_if,
}
use aurum_pos.Text.{Text, text, strip, is_space}
use aurum_pos.Tables.Sales.{Fault, invalid_phone, whatsapp_unavailable}
use aurum_pos.WhatsApp.{Config}

-- `[\s().-]`
unfoldable pub is_separator : ℕ → Bool
unfolding is_space
is_separator c = is_space c || c == b'(' || c == b')' || c == b'.' || c == b'-'

abbrev pub starts_with : ℕ → Text → Bool
starts_with c [] = false
starts_with c (d ∷ s) = d == c

abbrev pub tail : Text → Text
tail [] = []
tail (c ∷ s) = s

abbrev pub all_chars : (ℕ → Bool) → Text → Bool
all_chars p [] = true
all_chars p (c ∷ s) = p c && all_chars p s

-- `str.isdigit`, which is false of the empty text
abbrev pub isdigit : (ℕ → Bool) → Text → Bool
isdigit is_digit s = not (length s == 0) && all_chars is_digit s

-- the country code is completed
unfoldable pub complete_number : (ℕ → Bool) → Text → Text
complete_number is_digit s =
    if starts_with b'0' s && starts_with b'0' (tail s)
    then b'+' ∷ drop 2 s
    else if isdigit is_digit s && length s == 10
    then b'+' ∷ b'9' ∷ b'1' ∷ s
    else if isdigit is_digit s
    then b'+' ∷ s
    else s

unfoldable pub check_number : (ℕ → Bool) → Text → Outcome Fault Text
check_number is_digit s =
    let digits = tail s in
    raise_if (not (starts_with b'+' s) || not (isdigit is_digit digits)) invalid_phone
    >> raise_if (not (leb 8 (length digits) && leb (length digits) 15) || starts_with b'0' digits)
        invalid_phone
    >> ok s

unfoldable pub normalize_whatsapp_phone : (ℕ → Bool) → Text → Outcome Fault Text
unfolding complete_number check_number
normalize_whatsapp_phone is_digit value =
    check_number is_digit
      (complete_number is_digit (select (λ c. not (is_separator c)) (strip value)))

-- without a key nothing can be sent
unfoldable pub recipient_hmac : Config → Text → Outcome Fault ℕ
recipient_hmac config phone = elim config.hmac_key [
  | none ↦ err whatsapp_unavailable
  | some key ↦ ok (config.digest key phone)
]
