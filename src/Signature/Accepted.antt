-- ===== src/Signature/Accepted.antt =====
-- activitypub/signature.go: what VerifyRequest has checked of a request that it accepts.
pub mod Exact
use murlog.Prelude.{
  ◌↔◌, ℕ, ◌+◌, ◌≤◌, eq_iff, true, false, ◌≡◌, ◌⊎◌, refl, ap, arith, Option, none, some, List, [],
  ◌∷◌, String, str_eq, All, Option-cases, Bool-cases, inl, inr,
}
use murlog.Prelude.Strings.{strip_prefix}
use murlog.Signature.Params.{param, parse_signature_header, split_spaces}
use murlog.Signature.Window.{date_in_window, date_in_window_iff, signature_max_age, min_duration}
use murlog.Signature.{
  Crypto, Request, PublicKey, rsa, ed25519, unsupported, header, contains_header, is_present,
  all_present, build_signing_string, build_signing_string_strict, verify_request, verify_params,
  verify_digest, verify_date_window, verify_message, verify_with, param_or_empty, expected_is,
  allowed_algorithm, parsed_in_window, verify_decoded,
}

-- a key accepts the signature of a message
abbrev pub Verifies : Crypto → PublicKey → String → String → Type 0
Verifies crypto (rsa key) message sig = crypto.verify_rsa key message sig ≡ true
Verifies crypto (ed25519 key) message sig = crypto.verify_ed25519 key message sig ≡ true
Verifies crypto unsupported message sig = ⊥

-- the header names no algorithm, or one of the three that are supported
abbrev pub IsAllowed : Option String → Type 0
IsAllowed algorithm =
    (algorithm ≡ none)
    ⊎ ((algorithm ≡ some "rsa-sha256")
        ⊎ ((algorithm ≡ some "hs2019") ⊎ (algorithm ≡ some "ed25519")))

allowed_algorithm-IsAllowed : (o : Option String) → allowed_algorithm o ≡ true → IsAllowed o
unfolding allowed_algorithm
allowed_algorithm-IsAllowed none h = inl refl
allowed_algorithm-IsAllowed (some a) h = elim (Bool-cases (str_eq a "rsa-sha256")) [
  | inl e ↦ inr (inl (ap some ((eq_iff a "rsa-sha256").0 e)))
  | inr e ↦ elim (Bool-cases (str_eq a "hs2019")) [
    | inl f ↦ inr (inr (inl (ap some ((eq_iff a "hs2019").0 f))))
    | inr f ↦
        let named : str_eq a "ed25519" ≡ true = ground arith in
        inr (inr (inr (ap some ((eq_iff a "ed25519").0 named))))
  ]
]

module _ (crypto : Crypto) (now : ℕ) (r : Request) (public_pem body : String) where
  pub record Accepted : Type 0 where
    pub params : List (String × String)
    pub headers : List String
    pub date : ℕ
    pub key : PublicKey
    pub sig : String
    pub read : parse_signature_header (header crypto "Signature" r) ≡ some params
    pub allowed : IsAllowed (param "algorithm" params)
    pub has_date : str_eq (header crypto "Date" r) "" ≡ false
    pub listed : headers ≡ split_spaces (param_or_empty "headers" params)
    pub dated : crypto.parse_time (header crypto "Date" r) ≡ some date
    pub fresh :
        ((now ≤ date + signature_max_age) × (date ≤ now + signature_max_age))
        ⊎ (now + min_duration ≤ date)
    pub digested :
        (header crypto "Digest" r ≡ "")
        ⊎ (strip_prefix "SHA-256=" (header crypto "Digest" r) ≡ some (crypto.digest body))
    pub date_signed : contains_header crypto headers "date" ≡ true
    pub present : All (λ h. is_present crypto r h ≡ true) headers
    pub decoded : crypto.decode64 (param_or_empty "signature" params) ≡ some sig
    pub key_read : crypto.parse_public_key public_pem ≡ some key
    pub verified : Verifies crypto key (build_signing_string crypto r headers) sig

  all_present-All :
      (hs : List String)
      → all_present crypto r hs ≡ true
      → All (λ h. is_present crypto r h ≡ true) hs
  unfolding all_present
  all_present-All [] h = tt
  all_present-All (x ∷ hs) h = (ground arith, all_present-All hs (ground arith))

  in_window-some :
      (o : Option ℕ)
      → parsed_in_window now o ≡ true
      → (date : ℕ) × (o ≡ some date) × (date_in_window now date ≡ true)
  unfolding parsed_in_window
  in_window-some none h = cc
  in_window-some (some date) h = (date, refl, h)

  date_window-fresh :
      verify_date_window crypto now r ≡ true
      → parsed_in_window now (crypto.parse_time (header crypto "Date" r)) ≡ true
  unfolding verify_date_window
  date_window-fresh h = ground arith

  date_window-has_date :
      verify_date_window crypto now r ≡ true → str_eq (header crypto "Date" r) "" ≡ false
  unfolding verify_date_window
  date_window-has_date h = ground arith

  expected_is-some :
      (actual : String) (o : Option String) → expected_is actual o ≡ true → o ≡ some actual
  unfolding expected_is
  expected_is-some actual none h = cc
  expected_is-some actual (some expected) h = ap some ((eq_iff expected actual).0 h)

  digest-cases :
      verify_digest crypto r body ≡ true
      → (header crypto "Digest" r ≡ "")
        ⊎ (strip_prefix "SHA-256=" (header crypto "Digest" r) ≡ some (crypto.digest body))
  unfolding verify_digest
  digest-cases h = elim (Bool-cases (str_eq (header crypto "Digest" r) "")) [
    | inl e ↦ inl ((eq_iff (header crypto "Digest" r) "").0 e)
    | inr e ↦ inr (
        expected_is-some (crypto.digest body) (strip_prefix "SHA-256=" (header crypto "Digest" r))
          (ground arith))
  ]

  verify_with-key :
      (o : Option PublicKey) (message sig : String)
      → verify_with crypto o message sig ≡ true
      → (key : PublicKey) × (o ≡ some key) × Verifies crypto key message sig
  unfolding verify_with
  verify_with-key none message sig h = cc
  verify_with-key (some (rsa key)) message sig h = (rsa key, refl, h)
  verify_with-key (some (ed25519 key)) message sig h = (ed25519 key, refl, h)
  verify_with-key (some unsupported) message sig h = cc

  decoded-key :
      (message : String) (o : Option String)
      → verify_decoded crypto public_pem message o ≡ true
      → (sig : String) × (key : PublicKey) × (o ≡ some sig)
        × (crypto.parse_public_key public_pem ≡ some key)
        × Verifies crypto key message sig
  unfolding verify_decoded
  decoded-key message none h = cc
  decoded-key message (some sig) h =
      let (key, read, ok) = verify_with-key (crypto.parse_public_key public_pem) message sig h in
      (sig, key, refl, read, ok)

  message-key :
      (signature : String) (hs : List String)
      → verify_message crypto public_pem signature (build_signing_string_strict crypto r hs) ≡ true
      → (all_present crypto r hs ≡ true)
        × (verify_decoded crypto public_pem
              (build_signing_string crypto r hs)
              (crypto.decode64 signature)
            ≡ true)
  unfolding verify_message build_signing_string_strict
  message-key signature hs h = elim (Bool-cases (all_present crypto r hs)) [
    | inl e ↦ (e, rw (e, build_signing_string_strict) at h)
    | inr e ↦ let clash : false ≡ true = rw (e, build_signing_string_strict) at h in cc
  ]

  -- what the conjunction of VerifyRequest holds of the parameters that it read
  params-checked :
      (params : List (String × String))
      → verify_params crypto now r public_pem body params ≡ true
      → (contains_header crypto (split_spaces (param_or_empty "headers" params)) "date" ≡ true)
        × (allowed_algorithm (param "algorithm" params) ≡ true)
        × (verify_date_window crypto now r ≡ true)
        × (verify_digest crypto r body ≡ true)
        × (verify_message crypto public_pem (param_or_empty "signature" params) (
              build_signing_string_strict crypto r (split_spaces (param_or_empty "headers" params)))
            ≡ true)
  unfolding verify_params
  params-checked params h = (ground arith, ground arith, ground arith, ground arith, ground arith)

  -- VerifyRequest holds only with all of these conditions.
  pub verify_request-Accepted : verify_request crypto now r public_pem body ≡ true → Accepted
  unfolding verify_request
  verify_request-Accepted h =
      elim (Option-cases (parse_signature_header (header crypto "Signature" r))) [
        | inl e ↦ let clash : false ≡ true = rw (e, verify_request) at h in cc
        | inr (params, e) ↦
            let c = params-checked params (rw (e, verify_request) at h) in
            let headers = split_spaces (param_or_empty "headers" params) in
            let m = message-key (param_or_empty "signature" params) headers c.4 in
            let (date, dated, window) = in_window-some _ (date_window-fresh c.2) in
            let (sig, key, decoded, key_read, verified) =
              decoded-key (build_signing_string crypto r headers) _ m.1 in
            record {
              params = params;
              headers = headers;
              date = date;
              key = key;
              sig = sig;
              read = e;
              allowed = allowed_algorithm-IsAllowed _ c.1;
              has_date = date_window-has_date c.2;
              listed = refl;
              dated = dated;
              fresh = (date_in_window_iff now date).0 window;
              digested = digest-cases c.3;
              date_signed = c.0;
              present = all_present-All headers m.0;
              decoded = decoded;
              key_read = key_read;
              verified = verified;
            }
      ]
