-- ===== src/Signature/Window.antt =====
-- activitypub/signature.go: the time window of a Date header. A time.Duration is a 64-bit number in
-- two's complement; Sub saturates, and the negation of the least duration wraps around to itself.
use murlog.Prelude.{
  ◌⊎◌, ◌↔◌, ◌⊎◌, ◌↔◌, arith, true, ◌+◌, ◌≤◌, ◌≡◌, ◌||◌, ℕ, ◌-◌, ◌*◌, ◌^◌, ◌%◌, Bool, if◌then◌else◌,
  leb,
}

-- signatureMaxAge, in nanoseconds
abbrev pub signature_max_age : ℕ
signature_max_age = 13 * 3600 * 1000000000

-- 2 ^ 63
abbrev pub min_duration : ℕ
min_duration = 9223372036854775808

-- time.Since, as the 64 bits of the duration
pub since : ℕ → ℕ → ℕ
since now date =
    if leb date now
    then (if leb min_duration (now - date) then min_duration - 1 else now - date)
    else (if leb min_duration (date - now) then min_duration else 2 ^ 64 - (date - now))

-- diff < 0
abbrev pub is_negative : ℕ → Bool
is_negative d = leb min_duration d

-- the `if` on a negative difference
abbrev pub magnitude : ℕ → ℕ
magnitude d = if is_negative d then (2 ^ 64 - d) % 2 ^ 64 else d

-- not diff > signatureMaxAge
pub date_in_window : ℕ → ℕ → Bool
unfolding since
date_in_window now date =
    let diff = magnitude (since now date) in is_negative diff || leb diff signature_max_age

-- A Date is in the window exactly if it is at most thirteen hours from the present, on either side,
-- or 2 ^ 63 nanoseconds (292 years) or more ahead of it.
pub date_in_window_iff :
    (now date : ℕ)
    → (date_in_window now date ≡ true) ↔ (
        ((now ≤ date + signature_max_age) × (date ≤ now + signature_max_age))
        ⊎ (now + min_duration ≤ date))
unfolding date_in_window since
date_in_window_iff now date = ground arith
