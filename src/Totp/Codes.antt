-- ===== src/Totp/Codes.antt =====
-- totp/totp.go: which codes are accepted, and when.
use murlog.Prelude.{
  ℕ, zero, suc, ◌+◌, ◌-◌, ◌*◌, ◌<◌, ltb, Bool-cases, ◌/◌, ◌%◌, ◌^◌, ◌≤◌, true, ◌≡◌, refl, ap, ◌∙◌,
  sym, arith, some, List, [], ◌∷◌, length, ◌⊎◌, inl, inr, ◌↔◌, All,
}
use native.Mathlib.Nat.{pow-suc}
use murlog.Totp.{
  truncate, put_uint64, Crypto, period, generate_code, decimal, zeros, sprintf_padded, bytes_eq,
  step_before, validate_at,
}

bytes_eq_sound : (cs ds : List ℕ) → bytes_eq cs ds ≡ true → cs ≡ ds
unfolding bytes_eq
bytes_eq_sound [] [] h = refl
bytes_eq_sound [] (d ∷ ds) h = cc
bytes_eq_sound (c ∷ cs) [] h = cc
bytes_eq_sound (c ∷ cs) (d ∷ ds) h = ground (arith, bytes_eq_sound cs ds)

bytes_eq_refl : (cs : List ℕ) → bytes_eq cs cs ≡ true
unfolding bytes_eq
bytes_eq_refl [] = refl
bytes_eq_refl (c ∷ cs) = ground (arith, bytes_eq_refl cs)

near :
    (t u : ℕ)
    → t ≤ u + 30
    → u ≤ t + 30
    → (suc (t / 30) ≡ u / 30) ⊎ ((t / 30 ≡ u / 30) ⊎ (t / 30 ≡ u / 30 + 1))
near t u before later = ground arith

bytes_eq_complete : (cs ds : List ℕ) → cs ≡ ds → bytes_eq cs ds ≡ true
bytes_eq_complete cs ds h = ap (bytes_eq cs) (sym h) ∙ bytes_eq_refl cs

-- one of the three codes that the loop compares
abbrev IsTried : Crypto → List ℕ → List ℕ → ℕ → Type 0
IsTried crypto secret code counter =
    (generate_code crypto secret (step_before counter) ≡ code)
    ⊎ ((generate_code crypto secret (counter % 2 ^ 64) ≡ code)
        ⊎ (generate_code crypto secret ((counter + 1) % 2 ^ 64) ≡ code))

validate_at-IsTried :
    (crypto : Crypto) (secret code : List ℕ) (t : ℕ)
    → (validate_at crypto secret code t ≡ true) ↔ IsTried crypto secret code (t / period)
unfolding validate_at
validate_at-IsTried crypto secret code t =
    let before = generate_code crypto secret (step_before (t / 30)) in
    let now = generate_code crypto secret ((t / 30) % 2 ^ 64) in
    let later = generate_code crypto secret ((t / 30 + 1) % 2 ^ 64) in
    (
      λ h.
          ground
            (arith, bytes_eq_sound before code, bytes_eq_sound now code, bytes_eq_sound later code),
      λ h. ground (
        arith,
        bytes_eq_complete before code,
        bytes_eq_complete now code,
        bytes_eq_complete later code,
      ),
    )

adjacent-IsTried :
    (crypto : Crypto) (secret : List ℕ) (c d : ℕ)
    → (suc c ≡ d) ⊎ ((c ≡ d) ⊎ (c ≡ d + 1))
    → IsTried crypto secret (generate_code crypto secret (c % 2 ^ 64)) d
unfolding step_before
adjacent-IsTried crypto secret c zero (inl e) = absurd (omega arith)
adjacent-IsTried crypto secret c (suc d) (inl e) =
    let same : d ≡ c = omega arith in
    inl (ap (λ (n : ℕ). generate_code crypto secret (n % 2 ^ 64)) same)
adjacent-IsTried crypto secret c d (inr (inl e)) =
    inr (inl (ap (λ (n : ℕ). generate_code crypto secret (n % 2 ^ 64)) (sym e)))
adjacent-IsTried crypto secret c d (inr (inr e)) =
    inr (inr (ap (λ (n : ℕ). generate_code crypto secret (n % 2 ^ 64)) (sym e)))

-- A code that a device shows at the time `t` is accepted up to a period earlier or later.
pub validate_at-generate_code :
    (crypto : Crypto) (secret : List ℕ) (t u : ℕ)
    → t ≤ u + period
    → u ≤ t + period
    → validate_at crypto secret (generate_code crypto secret ((t / period) % 2 ^ 64)) u ≡ true
validate_at-generate_code crypto secret t u before later =
    (validate_at-IsTried crypto secret _ u).1
      (adjacent-IsTried crypto secret (t / 30) (u / 30) (near t u before later))

-- `code` is the code of a period that is at most one away from that of the time `t`
pub data IsNear (crypto : Crypto) (secret code : List ℕ) (t : ℕ) : Type 0 where
  shown_in :
      (count : ℕ)
      → count ≤ t / period + 1
      → t / period ≤ count + 1
      → generate_code crypto secret count ≡ code
      → IsNear crypto secret code t

step_before_exact : (c : ℕ) → 1 ≤ c → c < 2 ^ 63 → step_before c + 1 ≡ c
unfolding step_before
step_before_exact zero h w = absurd (omega arith)
step_before_exact (suc c) h w = omega arith

adjacent_counts : (c d : ℕ) → c ≤ d + 1 → d ≤ c + 1 → (suc c ≡ d) ⊎ ((c ≡ d) ⊎ (c ≡ d + 1))
adjacent_counts c d h k = ground arith

-- From the second period of 1970 on, and as long as a Unix time is an int64, ValidateAt accepts
-- exactly the codes of the period of `t`, of the one before and of the one after.
pub validate_at_iff :
    (crypto : Crypto) (secret code : List ℕ) (t : ℕ)
    → period ≤ t
    → t < 2 ^ 63
    → (validate_at crypto secret code t ≡ true) ↔ IsNear crypto secret code t
validate_at_iff crypto secret code t h w =
    (λ e. tried ((validate_at-IsTried crypto secret code t).0 e), near_accepted)
  where
    tried : IsTried crypto secret code (t / 30) → IsNear crypto secret code t
    tried (inl e) =
        let before = step_before_exact (t / 30) (omega arith) (omega arith) in
        shown_in (step_before (t / 30)) (omega (arith, before)) (omega (arith, before)) e
    tried (inr (inl e)) = shown_in ((t / 30) % 2 ^ 64) (omega arith) (omega arith) e
    tried (inr (inr e)) = shown_in ((t / 30 + 1) % 2 ^ 64) (omega arith) (omega arith) e

    near_accepted : IsNear crypto secret code t → validate_at crypto secret code t ≡ true
    near_accepted (shown_in count low high e) =
        let exact : count ≡ count % 2 ^ 64 = omega arith in
        let same : generate_code crypto secret (count % 2 ^ 64) ≡ code = rw (← exact) e in
        (validate_at-IsTried crypto secret code t).1 (
          rw (← same) (
            adjacent-IsTried crypto secret count (t / 30)
              (adjacent_counts count (t / 30) low high)))

abbrev pub IsDigit : ℕ → Type 0
IsDigit c = (b'0' ≤ c) × (c ≤ b'9')

-- the number that digits spell behind `n`
abbrev pub value : ℕ → List ℕ → ℕ
value n [] = n
value n (c ∷ s) = value (n * 10 + (c - b'0')) s

decimal-IsDigit :
    (count n : ℕ) (text : List ℕ) → All IsDigit text → All IsDigit (decimal count n text)
unfolding decimal
decimal-IsDigit zero n text h = ((omega arith, omega arith), h)
decimal-IsDigit (suc count) n text h =
    let rest =
      decimal-IsDigit count (n / 10) ((b'0' + n % 10) ∷ text) ((omega arith, omega arith), h) in
    elim (Bool-cases (ltb n 10)) [
      | inl e ↦ let small : n < 10 = ground arith in rw e ((omega arith, omega (arith, small)), h)
      | inr e ↦ rw e rest
    ]

-- one digit less is left after a division by ten
fewer_digits : (count n : ℕ) → n < 10 ^ suc (suc count) → n / 10 < 10 ^ suc count
fewer_digits count n h = omega (arith, pow-suc 10 (suc count))

-- with digits enough, `decimal` writes the number
value-decimal :
    (count n : ℕ) (text : List ℕ)
    → n < 10 ^ suc count
    → value 0 (decimal count n text) ≡ value n text
unfolding decimal
value-decimal zero n text h = ap (λ (m : ℕ). value m text) (omega arith)
value-decimal (suc count) n text h =
    let rest = value-decimal count (n / 10) ((b'0' + n % 10) ∷ text) (fewer_digits count n h) in
    elim (Bool-cases (ltb n 10)) [
      | inl e ↦
          let small : n < 10 = ground arith in
          rw e (ap (λ (m : ℕ). value m text) (omega (arith, small)))
      | inr e ↦ rw e (rest ∙ ap (λ (m : ℕ). value m text) (omega arith))
    ]

zeros-IsDigit : (count : ℕ) (text : List ℕ) → All IsDigit text → All IsDigit (zeros count text)
unfolding zeros
zeros-IsDigit zero text h = h
zeros-IsDigit (suc count) text h = ((omega arith, omega arith), zeros-IsDigit count text h)

value-zeros : (count : ℕ) (text : List ℕ) → value 0 (zeros count text) ≡ value 0 text
unfolding zeros
value-zeros zero text = refl
value-zeros (suc count) text = value-zeros count text

length-zeros : (count : ℕ) (text : List ℕ) → length (zeros count text) ≡ count + length text
unfolding zeros
length-zeros zero text = omega arith
length-zeros (suc count) text = omega (arith, length-zeros count text)

-- below 10 ^ (width + 1) there are at most width + 1 digits
length-decimal :
    (width count n : ℕ) (text : List ℕ)
    → n < 10 ^ suc width
    → width ≤ count
    → length (decimal count n text) ≤ suc width + length text
unfolding decimal
length-decimal width zero n text h w = omega arith
length-decimal zero (suc count) n text h w =
    let small : ltb n 10 ≡ true = ground arith in rw small (omega arith)
length-decimal (suc width) (suc count) n text h w =
    let rest =
      length-decimal width count (n / 10) ((b'0' + n % 10) ∷ text) (fewer_digits width n h)
        (omega arith) in
    elim (Bool-cases (ltb n 10)) [ inl e ↦ rw e (omega arith) | inr e ↦ rw e (omega (arith, rest)) ]

truncate_bound : (sum : List ℕ) → truncate sum < 10 ^ 6
unfolding truncate
truncate_bound sum = omega arith

-- The code of a secret that decodes has exactly six characters, all of them decimal digits, and they
-- spell the truncated HMAC of the counter.
pub generate_code-digits :
    (crypto : Crypto) (secret key : List ℕ) (counter : ℕ)
    → crypto.base32_decode secret ≡ some key
    → (length (generate_code crypto secret counter) ≡ 6)
      × All IsDigit (generate_code crypto secret counter)
      × (value 0 (generate_code crypto secret counter)
          ≡ truncate (crypto.hmac_sha1 key (put_uint64 counter)))
unfolding generate_code sprintf_padded
generate_code-digits crypto secret key counter h =
    let n = truncate (crypto.hmac_sha1 key (put_uint64 counter)) in
    let bound = truncate_bound (crypto.hmac_sha1 key (put_uint64 counter)) in
    let digits = decimal 9 n [] in
    let short = length-decimal 5 9 n [] (omega (arith, bound)) (omega arith) in
    rw (h, generate_code)
      (
        omega (arith, short, length-zeros (6 - length digits) digits),
        zeros-IsDigit (6 - length digits) digits (decimal-IsDigit 9 n [] tt),
        value-zeros (6 - length digits) digits ∙ value-decimal 9 n [] (omega (arith, bound)),
      )
