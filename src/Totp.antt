-- ===== src/Totp.antt =====
-- totp/totp.go: time-based one-time passwords (RFC 6238). base32 and HMAC-SHA1 come from Go's
-- library, and a text is the list of its bytes.
pub mod Codes
mod Tests
use Prim.Native.Nat.{bit_and}
use murlog.Prelude.{
  ℕ, zero, suc, ◌+◌, ◌-◌, ◌*◌, ◌/◌, ◌%◌, ◌^◌, Bool, true, false, ◌||◌, ◌&&◌, ◌==◌, if◌then◌else◌,
  ltb, Option, none, some, List, [], ◌∷◌, length, get_or,
}

pub record Crypto : Type 0 where
  -- base32.StdEncoding.WithPadding(NoPadding).DecodeString
  pub base32_decode : List ℕ → Option (List ℕ)
  -- hmac.New(sha1.New, key), one Write and Sum
  pub hmac_sha1 : List ℕ → List ℕ → List ℕ

-- Digits, Period and Window
abbrev pub period : ℕ
period = 30

-- uint64(counter+i) for i = -1, 0, 1; a counter of -1 wraps around
pub step_before : ℕ → ℕ
step_before zero = 2 ^ 64 - 1
step_before (suc counter) = counter % 2 ^ 64

-- binary.BigEndian.PutUint64
pub put_uint64 : ℕ → List ℕ
put_uint64 n =
    (n / 2 ^ 56) % 256
    ∷ (n / 2 ^ 48) % 256
    ∷ (n / 2 ^ 40) % 256
    ∷ (n / 2 ^ 32) % 256
    ∷ (n / 2 ^ 24) % 256
    ∷ (n / 2 ^ 16) % 256
    ∷ (n / 2 ^ 8) % 256
    ∷ n % 256
    ∷ []

-- binary.BigEndian.Uint32(sum[offset:offset+4])
pub uint32 : List ℕ → ℕ → ℕ
uint32 sum offset =
    get_or sum offset 0 * 2 ^ 24
    + get_or sum (offset + 1) 0 * 2 ^ 16
    + get_or sum (offset + 2) 0 * 2 ^ 8
    + get_or sum (offset + 3) 0

-- the decimal digits of a number, in front of a text; `count + 1` digits are enough below
-- 10 ^ (count + 1)
decimal : ℕ → ℕ → List ℕ → List ℕ
decimal zero n text = (b'0' + n % 10) ∷ text
decimal (suc count) n text =
    let rest = decimal count (n / 10) ((b'0' + n % 10) ∷ text) in
    if ltb n 10 then (b'0' + n) ∷ text else rest

zeros : ℕ → List ℕ → List ℕ
zeros zero text = text
zeros (suc count) text = b'0' ∷ zeros count text

-- `%0*d` of a uint32, which has at most ten digits: a longer number keeps all its digits
sprintf_padded : ℕ → ℕ → List ℕ
unfolding decimal zeros
sprintf_padded width n = let text = decimal 9 n [] in zeros (width - length text) text

-- the truncation of RFC 4226
pub truncate : List ℕ → ℕ
unfolding uint32
truncate sum =
    let offset = bit_and (get_or sum (length sum - 1) 0) 0x0f in
    (uint32 sum offset % 2 ^ 31) % 10 ^ 6

-- generateCode
pub generate_code : Crypto → List ℕ → ℕ → List ℕ
unfolding truncate sprintf_padded put_uint64
generate_code crypto secret counter = elim (crypto.base32_decode secret) [
  | none ↦ []
  | some key ↦ sprintf_padded 6 (truncate (crypto.hmac_sha1 key (put_uint64 counter)))
]

-- ConstantTimeCompare
pub bytes_eq : List ℕ → List ℕ → Bool
bytes_eq [] [] = true
bytes_eq [] (d ∷ ds) = false
bytes_eq (c ∷ cs) [] = false
bytes_eq (c ∷ cs) (d ∷ ds) = c == d && bytes_eq cs ds

-- ValidateAt, at the Unix time `t`, with the three turns of its loop
pub validate_at : Crypto → List ℕ → List ℕ → ℕ → Bool
unfolding bytes_eq generate_code step_before
validate_at crypto secret code t =
    let counter = t / period in
    bytes_eq (generate_code crypto secret (step_before counter)) code
    || (bytes_eq (generate_code crypto secret (counter % 2 ^ 64)) code
        || bytes_eq (generate_code crypto secret ((counter + 1) % 2 ^ 64)) code)
