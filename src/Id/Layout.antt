-- ===== src/Id/Layout.antt =====
-- id/id.go: the layout of a new identifier.
use Prim.Native.Nat.{bit_and, bit_or}
use murlog.Prelude.{
  ℕ, zero, suc, ◌/◌, ◌^◌, ◌≤◌, ◌<◌, ◌≡◌, refl, Bool, true, false, ◌==◌, ltb, if◌then◌else◌, arith,
  List, [], ◌∷◌, get_or, ==_iff, All,
}
use murlog.Id.Text.{IsByte, IsId}
use murlog.Id.{new_with_time, time, byte_at}

-- Time gives back the milliseconds that NewWithTime was given, if they fit into 48 bits.
pub time-new_with_time : (ms : ℕ) (r : List ℕ) → ms < 2 ^ 48 → time (new_with_time ms r) ≡ ms
unfolding time new_with_time
time-new_with_time ms r h = omega arith

-- the order of identifiers in the database: byte by byte
pub less : List ℕ → List ℕ → Bool
less [] [] = false
less [] (b ∷ bs) = true
less (a ∷ as') [] = false
less (a ∷ as') (b ∷ bs) =
    let rest = less as' bs in if ltb a b then true else if a == b then rest else false

less_step :
    (a b : ℕ) (x y : List ℕ) → a ≤ b → (a ≡ b → less x y ≡ true) → less (a ∷ x) (b ∷ y) ≡ true
unfolding less
less_step a b x y h tail = ground arith

-- Of two new identifiers the one with the earlier time comes first in byte order, whatever their
-- random bytes are, if the later time fits into 48 bits.
pub less-new_with_time :
    (m n : ℕ) (r s : List ℕ)
    → m < n
    → n < 2 ^ 48
    → less (new_with_time m r) (new_with_time n s) ≡ true
unfolding new_with_time
less-new_with_time m n r s h k = less_step (byte_at m 40) (byte_at n 40) _ _ (omega arith) λ e40.
    less_step (byte_at m 32) (byte_at n 32) _ _ (omega arith) λ e32.
      less_step (byte_at m 24) (byte_at n 24) _ _ (omega arith) λ e24.
        less_step (byte_at m 16) (byte_at n 16) _ _ (omega arith) λ e16.
          less_step (byte_at m 8) (byte_at n 8) _ _ (omega arith)
            λ e8. less_step (byte_at m 0) (byte_at n 0) _ _ (omega arith) λ e0. absurd (omega arith)

-- the bytes before a bound that fail a test
exceptions : (ℕ → Bool) → ℕ → List ℕ
exceptions test zero = []
exceptions test (suc bound) =
    let others = exceptions test bound in if test bound then others else bound ∷ others

no_exception :
    (test : ℕ → Bool) (bound byte : ℕ)
    → byte < bound
    → exceptions test bound ≡ []
    → test byte ≡ true
unfolding exceptions
no_exception test zero byte small none_found = absurd (omega arith)
no_exception test (suc bound) byte small none_found = ground (arith, no_exception test bound byte)

version_byte : (b : ℕ) → b < 256 → bit_or (bit_and b 0x0F) 0x70 / 16 ≡ 7
unfolding exceptions
version_byte b small =
    (==_iff _ 7).0 (no_exception (λ c. bit_or (bit_and c 0x0F) 0x70 / 16 == 7) 256 b small refl)

variant_byte : (b : ℕ) → b < 256 → bit_or (bit_and b 0x3F) 0x80 / 64 ≡ 2
unfolding exceptions
variant_byte b small =
    (==_iff _ 2).0 (no_exception (λ c. bit_or (bit_and c 0x3F) 0x80 / 64 == 2) 256 b small refl)

get_or-IsByte : (r : List ℕ) (i : ℕ) → All IsByte r → IsByte (get_or r i 0)
get_or-IsByte [] i h = omega arith
get_or-IsByte (b ∷ r) zero h = h.0
get_or-IsByte (b ∷ r) (suc i) h = get_or-IsByte r i h.1

-- A new identifier is a UUID of version 7 with the variant bits 10, whatever bytes `rand.Read` gives.
pub new_with_time-IsId :
    (ms : ℕ) (r : List ℕ)
    → All IsByte r
    → IsId (new_with_time ms r)
      × (get_or (new_with_time ms r) 6 0 / 16 ≡ 7)
      × (get_or (new_with_time ms r) 8 0 / 64 ≡ 2)
unfolding new_with_time
new_with_time-IsId ms r h =
    let byte : (i : ℕ) → get_or r i 0 < 256 = λ i. get_or-IsByte r i h in
    let version = version_byte (get_or r 0 0) (byte 0) in
    let variant = variant_byte (get_or r 2 0) (byte 2) in
    (
      record {
        sixteen = refl;
        bytes = omega (
          arith,
          byte 1,
          byte 3,
          byte 4,
          byte 5,
          byte 6,
          byte 7,
          byte 8,
          byte 9,
          version,
          variant,
        );
      },
      version,
      variant,
    )
