-- ===== src/Asset/Denom.antt =====
-- Validation of native denominations (packages/astroport/src/asset.rs, validate_native_denom).
use astroport_core.Common.{
  ℕ, ◌≤◌, ◌≡◌, refl, ◌↔◌, ◌⊎◌, Bool, true, ◌&&◌, ◌||◌, not, [], ◌∷◌, ◌==◌, leb, ltb, length, arith,
  if◌then◌else◌,
}
use astroport_core.Cosmwasm.{Result, ok, err, panic, StdError, generic_err}
use astroport_core.Asset.Types.{Text}

abbrev denom_max_length : ℕ
denom_max_length = 128

unfoldable pub is_ascii_alphabetic : ℕ → Bool
is_ascii_alphabetic c = (leb b'a' c && leb c b'z') || (leb b'A' c && leb c b'Z')

unfoldable pub is_ascii_alphanumeric : ℕ → Bool
unfolding is_ascii_alphabetic
is_ascii_alphanumeric c = is_ascii_alphabetic c || (leb b'0' c && leb c b'9')

-- `set.contains(&c)`
unfoldable pub is_separator : ℕ → Bool
is_separator c = c == b'/' || c == b':' || c == b'.' || c == b'_' || c == b'-'

-- The loop over the characters behind the first.
unfoldable pub rest_check : Text → Result StdError (Unit {0})
unfolding is_ascii_alphanumeric is_separator
rest_check [] = ok tt
rest_check (c ∷ cs) =
    let rest = rest_check cs in
    if not (is_ascii_alphanumeric c || is_separator c)
    then err (generic_err "Not all characters are ASCII alphanumeric or one of:  /  :  .  _  -")
    else rest

unfoldable pub first_check : Text → Result StdError (Unit {0})
unfolding is_ascii_alphabetic rest_check
first_check [] = panic
first_check (c ∷ cs) =
    if not (is_ascii_alphabetic c)
    then err (generic_err "First character is not ASCII alphabetic")
    else rest_check cs

unfoldable pub validate_native_denom : Text → Result StdError (Unit {0})
unfolding first_check
validate_native_denom denom =
    if ltb (length denom) 3 || ltb denom_max_length (length denom)
    then err (generic_err "Invalid denom length [3,128]")
    else first_check denom

-- What the Cosmos SDK asks of a denomination, without its length, by the codes of ASCII.
abbrev pub IsLetter : ℕ → Type 0
IsLetter c = ((65 ≤ c) × (c ≤ 90)) ⊎ ((97 ≤ c) × (c ≤ 122))

abbrev pub IsDigit : ℕ → Type 0
IsDigit c = (48 ≤ c) × (c ≤ 57)

-- `-`, `.`, `/`, `:` and `_`
abbrev pub IsSeparator : ℕ → Type 0
IsSeparator c = (c ≡ 45) ⊎ ((c ≡ 46) ⊎ ((c ≡ 47) ⊎ ((c ≡ 58) ⊎ (c ≡ 95))))

abbrev pub IsDenomChar : ℕ → Type 0
IsDenomChar c = IsLetter c ⊎ (IsDigit c ⊎ IsSeparator c)

abbrev pub AllDenomChars : Text → Type 0
AllDenomChars [] = Unit
AllDenomChars (c ∷ cs) = IsDenomChar c × AllDenomChars cs

abbrev pub IsWellFormed : Text → Type 0
IsWellFormed [] = ⊥
IsWellFormed (c ∷ cs) = IsLetter c × AllDenomChars cs

is_ascii_alphabetic_iff : (c : ℕ) → (is_ascii_alphabetic c ≡ true) ↔ IsLetter c
unfolding is_ascii_alphabetic
is_ascii_alphabetic_iff c = ground arith

later_check_iff : (c : ℕ) → ((is_ascii_alphanumeric c || is_separator c) ≡ true) ↔ IsDenomChar c
unfolding is_ascii_alphanumeric is_ascii_alphabetic is_separator
later_check_iff c = ground arith

rest_check_iff : (cs : Text) → (rest_check cs ≡ ok tt) ↔ AllDenomChars cs
unfolding rest_check
rest_check_iff [] = (λ h. tt, λ h. refl)
rest_check_iff (c ∷ cs) = ground (arith, later_check_iff c, rest_check_iff cs)

-- A denomination passes exactly when it has 3 to 128 bytes, starts with an ASCII letter, and goes on
-- with ASCII letters, digits and the five separators `/`, `:`, `.`, `_` and `-`.
pub validate_native_denom_iff :
    (denom : Text)
    → (validate_native_denom denom ≡ ok tt)
      ↔ ((3 ≤ length denom) × (length denom ≤ 128) × IsWellFormed denom)
unfolding validate_native_denom first_check
validate_native_denom_iff [] = (λ h. ground arith, λ h. ground arith)
validate_native_denom_iff (c ∷ cs) = ground (arith, is_ascii_alphabetic_iff c, rest_check_iff cs)
