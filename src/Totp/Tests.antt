-- ===== src/Totp/Tests.antt =====
-- A stand-in for base32 and HMAC-SHA1, and the theorems about the codes with it.
use murlog.Prelude.{◌≡◌, ◌^◌, ◌/◌, ◌%◌, refl, true, arith, some, [], ◌∷◌, ◌↔◌, length, All}
use murlog.Totp.{Crypto, period, generate_code, validate_at, truncate, put_uint64}
use murlog.Totp.Codes.{
  validate_at_iff, validate_at-generate_code, generate_code-digits, IsNear, IsDigit, value,
}

abbrev xor_less : Crypto
xor_less = record {
  base32_decode = λ s. some s;
  hmac_sha1 = λ key text. 31 ∷ 154 ∷ 200 ∷ 7 ∷ 9 ∷ text;
}

validate_at_iff_example :
    (validate_at xor_less (65 ∷ []) (b'1' ∷ []) 95 ≡ true)
    ↔ IsNear xor_less (65 ∷ []) (b'1' ∷ []) 95
validate_at_iff_example =
    validate_at_iff xor_less (65 ∷ []) (b'1' ∷ []) 95 (omega arith) (omega arith)

validate_at-generate_code_example :
    validate_at xor_less (65 ∷ []) (generate_code xor_less (65 ∷ []) ((95 / period) % 2 ^ 64)) 66
    ≡ true
validate_at-generate_code_example =
    validate_at-generate_code xor_less (65 ∷ []) 95 66 (omega arith) (omega arith)

generate_code-digits_example :
    (length (generate_code xor_less (65 ∷ []) 3) ≡ 6)
    × All IsDigit (generate_code xor_less (65 ∷ []) 3)
    × (value 0 (generate_code xor_less (65 ∷ []) 3)
        ≡ truncate (xor_less.hmac_sha1 (65 ∷ []) (put_uint64 3)))
generate_code-digits_example = generate_code-digits xor_less (65 ∷ []) (65 ∷ []) 3 refl
