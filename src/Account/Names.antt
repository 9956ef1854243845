-- ===== src/Account/Names.antt =====
-- murlog.go: what ValidatePassword and ValidateUsername accept.
use murlog.Prelude.{
  ℕ, ◌+◌, ◌≤◌, Bool, true, not, ◌&&◌, ◌||◌, ◌≡◌, ◌↔◌, refl, arith, none, List, [], ◌∷◌, length, All,
}
use murlog.Prelude.Tables.{any_row}
use murlog.Account.{
  Kinds, between, note_kind, scan_kinds, one_if, count_kinds, no_kinds, byte_len, validate_password,
  is_name_byte, all_name_bytes, validate_username,
}

abbrev pub is_lower : ℕ → Bool
is_lower = between b'a' b'z'

abbrev pub is_upper : ℕ → Bool
is_upper = between b'A' b'Z'

abbrev pub is_digit : ℕ → Bool
is_digit = between b'0' b'9'

abbrev pub is_symbol : ℕ → Bool
is_symbol c = not (is_lower c) && (not (is_upper c) && not (is_digit c))

-- the number of kinds of characters that a text has
abbrev pub kinds_of : List ℕ → ℕ
kinds_of s =
    one_if (any_row is_lower s)
    + one_if (any_row is_upper s)
    + one_if (any_row is_digit s)
    + one_if (any_row is_symbol s)

scan_kinds_lem :
    (s : List ℕ) (k : Kinds)
    → ((scan_kinds s k).has_lower ≡ (k.has_lower || any_row is_lower s))
      × ((scan_kinds s k).has_upper ≡ (k.has_upper || any_row is_upper s))
      × ((scan_kinds s k).has_digit ≡ (k.has_digit || any_row is_digit s))
      × ((scan_kinds s k).has_symbol ≡ (k.has_symbol || any_row is_symbol s))
unfolding scan_kinds note_kind
scan_kinds_lem [] k = ground arith
scan_kinds_lem (c ∷ s) k = ground (arith, scan_kinds_lem s (note_kind c k))

count_kinds_lem : (s : List ℕ) → count_kinds (scan_kinds s no_kinds) ≡ kinds_of s
unfolding count_kinds no_kinds
count_kinds_lem s =
    let (lower, upper, digit, symbol) = scan_kinds_lem s no_kinds in
    rw (lower, upper, digit, symbol) refl

-- A password is accepted exactly when it takes 8 to 128 bytes in UTF-8 and has at least three of the
-- four kinds of characters.
pub validate_password_iff :
    (s : List ℕ)
    → (validate_password s ≡ none) ↔ ((8 ≤ byte_len s) × (byte_len s ≤ 128) × (3 ≤ kinds_of s))
unfolding validate_password
validate_password_iff s =
    let same = count_kinds_lem s in
    (λ h. ground (arith, same), λ h. ground (arith, same, h.0, h.1, h.2))

all_name_bytes_iff : (s : List ℕ) → (all_name_bytes s ≡ true) ↔ All (λ c. is_name_byte c ≡ true) s
unfolding all_name_bytes
all_name_bytes_iff [] = (λ h. tt, λ h. refl)
all_name_bytes_iff (c ∷ s) =
    let rest = all_name_bytes_iff s in
    (λ h. ground (arith, rest.0), λ h. ground (arith, h.0, rest.1 h.1))

-- A user name is accepted exactly when it has 1 to 30 bytes, all of them lower-case letters, digits
-- or underscores.
pub validate_username_iff :
    (s : List ℕ)
    → (validate_username s ≡ none)
      ↔ ((1 ≤ length s) × (length s ≤ 30) × All (λ c. is_name_byte c ≡ true) s)
unfolding validate_username
validate_username_iff s =
    let bytes = all_name_bytes_iff s in
    (λ h. ground (arith, bytes.0), λ h. ground (arith, h.0, h.1, bytes.1 h.2))
