-- ===== src/Id.antt =====
-- id/id.go: UUIDv7 identifiers. An ID is the list of its 16 bytes, a text the list of its bytes.
pub mod Text
pub mod Layout
mod Tests
use Prim.Native.Nat.{bit_and, bit_or}
use murlog.Prelude.{
  codes, String, ℕ, suc, ◌+◌, ◌-◌, ◌*◌, ◌/◌, ◌%◌, ◌^◌, Bool, true, false, ◌&&◌, ◌||◌, ◌==◌, leb,
  if◌then◌else◌, Option, none, some, List, [], ◌∷◌, ◌++◌, map, length, take, drop, get_or,
}

-- ms >> k, as a byte
abbrev pub byte_at : ℕ → ℕ → ℕ
byte_at ms k = (ms / 2 ^ k) % 256

-- NewWithTime: `ms` is uint64(t.UnixMilli()), and `r` the bytes that rand.Read gives
pub new_with_time : ℕ → List ℕ → List ℕ
new_with_time ms r =
    byte_at ms 40
    ∷ byte_at ms 32
    ∷ byte_at ms 24
    ∷ byte_at ms 16
    ∷ byte_at ms 8
    ∷ byte_at ms 0
    ∷ bit_or (bit_and (get_or r 0 0) 0x0F) 0x70
    ∷ get_or r 1 0
    ∷ bit_or (bit_and (get_or r 2 0) 0x3F) 0x80
    ∷ get_or r 3 0
    ∷ get_or r 4 0
    ∷ get_or r 5 0
    ∷ get_or r 6 0
    ∷ get_or r 7 0
    ∷ get_or r 8 0
    ∷ get_or r 9 0
    ∷ []

-- Time, in milliseconds
pub time : List ℕ → ℕ
time id =
    get_or id 0 0 * 2 ^ 40
    + get_or id 1 0 * 2 ^ 32
    + get_or id 2 0 * 2 ^ 24
    + get_or id 3 0 * 2 ^ 16
    + get_or id 4 0 * 2 ^ 8
    + get_or id 5 0

-- the loop of Parse that drops the hyphens
pub strip_hyphens : List ℕ → List ℕ
strip_hyphens [] = []
strip_hyphens (c ∷ s) = let rest = strip_hyphens s in if c == b'-' then rest else c ∷ rest

-- a digit as hex.Decode reads it, in either case
pub hex_value : ℕ → Option ℕ
hex_value c =
    if leb b'0' c && leb c b'9'
    then some (c - b'0')
    else if leb b'a' c && leb c b'f'
    then some (c - b'a' + 10)
    else if leb b'A' c && leb c b'F'
    then some (c - b'A' + 10)
    else none

-- two digits in front of decoded bytes
abbrev pub join_byte : Option ℕ → Option ℕ → Option (List ℕ) → Option (List ℕ)
join_byte none l bytes = none
join_byte (some h) none bytes = none
join_byte (some h) (some l) none = none
join_byte (some h) (some l) (some bytes) = some ((h * 16 + l) ∷ bytes)

-- hex.Decode
pub hex_decode : List ℕ → Option (List ℕ)
hex_decode [] = some []
hex_decode (c ∷ []) = none
hex_decode (c ∷ d ∷ s) = join_byte (hex_value c) (hex_value d) (hex_decode s)

-- Parse; an error is `none`
unfoldable pub parse : List ℕ → Option (List ℕ)
unfolding strip_hyphens hex_decode hex_value
parse s = let clean = strip_hyphens s in if length clean == 32 then hex_decode clean else none

-- FromBytes
pub from_bytes : List ℕ → Option (List ℕ)
from_bytes b = if length b == 16 then some b else none

-- the digits of `%x`
pub hex_digit : ℕ → ℕ
hex_digit n = if leb n 9 then b'0' + n else b'a' + (n - 10)

pub hex_encode : List ℕ → List ℕ
hex_encode [] = []
hex_encode (b ∷ bs) = hex_digit (b / 16) ∷ hex_digit (b % 16) ∷ hex_encode bs

-- String: `%08x-%04x-%04x-%04x-%012x` of the five slices
unfoldable pub string : List ℕ → List ℕ
unfolding hex_encode hex_digit
string id =
    hex_encode (take 4 id)
    ++ (b'-'
        ∷ (hex_encode (take 2 (drop 4 id))
            ++ (b'-'
                ∷ (hex_encode (take 2 (drop 6 id))
                    ++ (b'-'
                        ∷ (hex_encode (take 2 (drop 8 id))
                            ++ (b'-' ∷ hex_encode (take 6 (drop 10 id)))))))))

-- IsNil
pub is_nil : List ℕ → Bool
is_nil [] = true
is_nil (b ∷ bs) = b == 0 && is_nil bs

-- the number that the bytes spell: the order of identifiers is that of these numbers
number : ℕ → List ℕ → ℕ
number n [] = n
number n (b ∷ bs) = number (n * 256 + b) bs

-- Parse of a text, as the number by which the tables know the row
unfoldable pub parse_id : String → Option ℕ
unfolding parse number
parse_id s = elim (parse (codes s)) [ none ↦ none | some id ↦ some (number 0 id) ]
