-- ===== src/Signature/Params/Reading.antt =====
-- activitypub/signature.go: parseSignatureHeader reads what SignRequest writes.
use Prim.Native.Char.{Char, code}
use murlog.Prelude.Strings.{append}
use murlog.Prelude.{
  ℕ, ◌==◌, Bool, true, false, ◌&&◌, not, ◌≡◌, refl, ap, ◌∙◌, arith, some, List, [], ◌∷◌, String,
}
use murlog.Signature.Params.{
  split_spaces, param, word, value, step, scan, cons_first, some_matches, snoc,
  parse_signature_header, signature_header, join_with,
}

-- a text without the character `c`
abbrev pub is_free_of : ℕ → String → Bool
is_free_of c String.[] = true
is_free_of c (String.◌∷◌ d s) = not (code d == c) && is_free_of c s

pub append-empty : (v : String) → append v "" ≡ v
append-empty String.[] = refl
append-empty (String.◌∷◌ c v) = ap (λ s. String.◌∷◌ c s) (append-empty v)

pub append-snoc : (v x : String) (c : Char) → append (snoc v c) x ≡ append v (String.◌∷◌ c x)
append-snoc String.[] x c = refl
append-snoc (String.◌∷◌ d v) x c = ap (λ s. String.◌∷◌ d s) (append-snoc v x c)

-- the machine inside a quotation reads up to the next quotation mark
scan-value :
    (w v x rest : String)
    → is_free_of b'"' x ≡ true
    → scan (value w v) (append x (append "\"" rest)) ≡ (w, append v x) ∷ scan (word "") rest
unfolding scan step
scan-value w v String.[] rest h = rw (append-empty v) refl
scan-value w v (String.◌∷◌ c x) rest h =
    let other : (code c == b'"') ≡ false = ground arith in
    let free : is_free_of b'"' x ≡ true = ground arith in
    rw (other, ← append-snoc v x c) (scan-value w (snoc v c) x rest free)

-- the texts that SignRequest writes between the values
scan-key_id :
    (rest : String) → scan (word "") (append "keyId=\"" rest) ≡ scan (value "keyId" "") rest
unfolding scan step
scan-key_id rest = refl

scan-headers :
    (rest : String)
    → scan (word "") (append ",algorithm=\"rsa-sha256\",headers=\"" rest)
      ≡ ("algorithm", "rsa-sha256") ∷ scan (value "headers" "") rest
unfolding scan step
scan-headers rest = refl

scan-signature :
    (rest : String)
    → scan (word "") (append ",signature=\"" rest) ≡ scan (value "signature" "") rest
unfolding scan step
scan-signature rest = refl

module _ (key_id : String) (headers : List String) (sig : String) where
  -- the parameters that SignRequest means
  abbrev pub signed_params : List (String × String)
  signed_params =
      ("keyId", key_id)
      ∷ ("algorithm", "rsa-sha256")
      ∷ ("headers", join_with " " headers)
      ∷ ("signature", sig)
      ∷ []

  -- Reading the Signature header that a key id, a list of header names and a signature are written
  -- into gives these values back, if none of them has a quotation mark.
  pub parse-signature_header :
      is_free_of b'"' key_id ≡ true
      → is_free_of b'"' (join_with " " headers) ≡ true
      → is_free_of b'"' sig ≡ true
      → parse_signature_header (signature_header key_id headers sig) ≡ some signed_params
  unfolding parse_signature_header signature_header some_matches
  parse-signature_header free_key free_headers free_sig =
      let s3 = append sig "\"" in
      let s2 = append (join_with " " headers) (append "\",signature=\"" s3) in
      let s1 = append ",algorithm=\"rsa-sha256\",headers=\"" s2 in
      let read : scan (word "") (append "keyId=\"" (append key_id (append "\"" s1)))
          ≡ signed_params =
        scan-key_id (append key_id (append "\"" s1))
        ∙ scan-value "keyId" "" key_id s1 free_key
        ∙ ap (λ ps. ("keyId", key_id) ∷ ps)
            (scan-headers s2
              ∙ ap (λ ps. ("algorithm", "rsa-sha256") ∷ ps)
                  (scan-value "headers" "" (join_with " " headers) (append ",signature=\"" s3)
                      free_headers
                    ∙ ap (λ ps. ("headers", join_with " " headers) ∷ ps)
                        (scan-signature s3 ∙ scan-value "signature" "" sig "" free_sig))) in
      ap some_matches read

  -- the parameters that VerifyRequest looks up
  pub param-signed :
      (param "algorithm" signed_params ≡ some "rsa-sha256")
      × (param "headers" signed_params ≡ some (join_with " " headers))
      × (param "signature" signed_params ≡ some sig)
  unfolding param
  param-signed = (refl, refl, refl)

abbrev pub body_headers : List String
body_headers = "(request-target)" ∷ "host" ∷ "date" ∷ "digest" ∷ []

pub split-join :
    (split_spaces (join_with " " body_headers) ≡ body_headers)
    × (is_free_of b'"' (join_with " " body_headers) ≡ true)
unfolding split_spaces join_with cons_first
split-join = (refl, refl)
