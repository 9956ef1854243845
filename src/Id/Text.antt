-- ===== src/Id/Text.antt =====
-- id/id.go: Parse and String.
use mathlib.Core.Path.{subst}
use murlog.Prelude.{
  ℕ, suc, ◌+◌, ◌*◌, ◌/◌, ◌%◌, ◌<◌, ◌≡◌, ◌≢◌, ==_iff, refl, ◌∙◌, inl, inr, ◌==◌, arith, Option, none,
  some, List, [], ◌∷◌, ◌++◌, length, take, drop, All, All-take, All-drop, take-append-drop,
  take_all, length-drop, drop-drop, Bool-cases,
}
use murlog.Id.{
  join_byte, strip_hyphens, hex_value, hex_decode, parse, hex_digit, hex_encode, string,
}

abbrev pub IsByte : ℕ → Type 0
IsByte b = b < 256

-- An ID: sixteen bytes.
pub record IsId (id : List ℕ) : Type 0 where
  pub sixteen : length id ≡ 16
  pub bytes : All IsByte id

hex_value-digit : (n : ℕ) → n < 16 → hex_value (hex_digit n) ≡ some n
unfolding hex_value hex_digit
hex_value-digit n h = ground arith

hex_decode-encode : (bs : List ℕ) → All IsByte bs → hex_decode (hex_encode bs) ≡ some bs
unfolding hex_encode hex_decode
hex_decode-encode [] h = refl
hex_decode-encode (b ∷ bs) (hb, h) =
    rw
      (
        hex_value-digit (b / 16) (omega arith),
        hex_value-digit (b % 16) (omega arith),
        hex_decode-encode bs h,
        hex_decode,
      )
      (ground arith)

strip_hyphens-append : (s t : List ℕ) → strip_hyphens (s ++ t) ≡ strip_hyphens s ++ strip_hyphens t
unfolding strip_hyphens
strip_hyphens-append [] t = refl
strip_hyphens-append (c ∷ s) t = ground (arith, strip_hyphens-append s t)

hex_digit-ne-hyphen : (n : ℕ) → n < 16 → hex_digit n ≢ b'-'
unfolding hex_digit
hex_digit-ne-hyphen n h = ground arith

strip_hyphens-encode : (bs : List ℕ) → All IsByte bs → strip_hyphens (hex_encode bs) ≡ hex_encode bs
unfolding hex_encode strip_hyphens
strip_hyphens-encode [] h = refl
strip_hyphens-encode (b ∷ bs) (hb, h) =
    ground
      (arith, hex_digit-ne-hyphen (b / 16), hex_digit-ne-hyphen (b % 16), strip_hyphens-encode bs h)

length-hex_encode : (bs : List ℕ) → length (hex_encode bs) ≡ 2 * length bs
unfolding hex_encode
length-hex_encode [] = omega arith
length-hex_encode (b ∷ bs) = omega (arith, length-hex_encode bs)

hex_encode-append : (xs ys : List ℕ) → hex_encode (xs ++ ys) ≡ hex_encode xs ++ hex_encode ys
unfolding hex_encode
hex_encode-append [] ys = refl
hex_encode-append (x ∷ xs) ys = rw (hex_encode-append xs ys)

-- one hyphen behind a group of digits
strip_group :
    (bs t : List ℕ)
    → All IsByte bs
    → strip_hyphens (hex_encode bs ++ (b'-' ∷ t)) ≡ hex_encode bs ++ strip_hyphens t
strip_group bs t h =
    strip_hyphens-append (hex_encode bs) (b'-' ∷ t)
    ∙ rw (strip_hyphens-encode bs h) (unfold strip_hyphens in refl)

slice-IsByte : (n m : ℕ) (id : List ℕ) → All IsByte id → All IsByte (take n (drop m id))
slice-IsByte n m id h = All-take IsByte n (drop m id) (All-drop IsByte m id h)

-- the slices of `String` put together are the ID
joined : List ℕ → List ℕ
joined id =
    take 4 id
    ++ (take 2 (drop 4 id) ++ (take 2 (drop 6 id) ++ (take 2 (drop 8 id) ++ take 6 (drop 10 id))))

strip_hyphens-string :
    (id : List ℕ) → All IsByte id → strip_hyphens (string id) ≡ hex_encode (joined id)
unfolding joined
strip_hyphens-string id h =
    unfold string in
    simp (
      strip_group (take 4 id) _ (All-take IsByte 4 id h),
      strip_group (take 2 (drop 4 id)) _ (slice-IsByte 2 4 id h),
      strip_group (take 2 (drop 6 id)) _ (slice-IsByte 2 6 id h),
      strip_group (take 2 (drop 8 id)) _ (slice-IsByte 2 8 id h),
      strip_hyphens-encode (take 6 (drop 10 id)) (slice-IsByte 6 10 id h),
      hex_encode-append,
    )

cut : (n m k : ℕ) (id : List ℕ) → n + m ≡ k → take m (drop n id) ++ drop k id ≡ drop n id
cut n m k id h = rw (← drop-drop m n k id h) (take-append-drop m (drop n id))

joined_lem : (id : List ℕ) → length id ≡ 16 → joined id ≡ id
unfolding joined
joined_lem id h =
    rw
      (
        take_all 6 (drop 10 id) (omega (arith, length-drop 10 id)),
        cut 8 2 10 id refl,
        cut 6 2 8 id refl,
        cut 4 2 6 id refl,
      )
      (take-append-drop 4 id)

-- Parse reads back what String prints, for every ID.
pub parse-string : (id : List ℕ) → IsId id → parse (string id) ≡ some id
unfolding parse
parse-string id v =
    let digits : length (hex_encode id) ≡ 32 = omega (arith, length-hex_encode id, v.sixteen) in
    rw (strip_hyphens-string id v.bytes, joined_lem id v.sixteen, digits)
      (hex_decode-encode id v.bytes)

strip_hyphens_idem : (s : List ℕ) → strip_hyphens (strip_hyphens s) ≡ strip_hyphens s
unfolding strip_hyphens
strip_hyphens_idem [] = refl
strip_hyphens_idem (c ∷ s) = ground (arith, strip_hyphens_idem s)

-- Hyphens in any places do not change what Parse reads.
pub parse-strip_hyphens : (s : List ℕ) → parse (strip_hyphens s) ≡ parse s
unfolding parse
parse-strip_hyphens s = rw (strip_hyphens_idem s)

abbrev Decodes : ℕ → Option (List ℕ) → Type 0
Decodes n none = Unit {0}
Decodes n (some bs) = (2 * length bs ≡ n) × All IsByte bs

abbrev IsDigit : Option ℕ → Type 0
IsDigit none = Unit {0}
IsDigit (some n) = n < 16

hex_value-IsDigit : (c : ℕ) → IsDigit (hex_value c)
unfolding hex_value
hex_value-IsDigit c = ground arith

join_byte-Decodes :
    (h l : Option ℕ) (n : ℕ) (r : Option (List ℕ))
    → IsDigit h
    → IsDigit l
    → Decodes n r
    → Decodes (suc (suc n)) (join_byte h l r)
join_byte-Decodes none l n r dh dl dr = tt
join_byte-Decodes (some h) none n r dh dl dr = tt
join_byte-Decodes (some h) (some l) n none dh dl dr = tt
join_byte-Decodes (some h) (some l) n (some bs) dh dl dr = (omega arith, (omega arith, dr.1))

hex_decode-Decodes : (s : List ℕ) → Decodes (length s) (hex_decode s)
unfolding hex_decode
hex_decode-Decodes [] = (refl, tt)
hex_decode-Decodes (c ∷ []) = tt
hex_decode-Decodes (c ∷ d ∷ s) =
    join_byte-Decodes (hex_value c) (hex_value d) (length s) (hex_decode s) (hex_value-IsDigit c)
      (hex_value-IsDigit d) (hex_decode-Decodes s)

-- Whatever Parse accepts is an ID: sixteen bytes.
pub parse-IsId : (s id : List ℕ) → parse s ≡ some id → IsId id
unfolding parse
parse-IsId s id h = elim (Bool-cases (length (strip_hyphens s) == 32)) [
  | inl e ↦
      let decoded : hex_decode (strip_hyphens s) ≡ some id = rw e at h in
      let facts : Decodes (length (strip_hyphens s)) (some id) =
        subst (Decodes (length (strip_hyphens s))) decoded (hex_decode-Decodes (strip_hyphens s)) in
      let long : length (strip_hyphens s) ≡ 32 = (==_iff _ 32).0 e in
      record { sixteen = omega (arith, facts.0, long); bytes = facts.1 }
  | inr e ↦ cc (rw e at h)
]
