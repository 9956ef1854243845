-- ===== src/Signature/Accepted/Exact.antt =====
-- activitypub/signature.go: the conditions under which VerifyRequest accepts a request.
use murlog.Prelude.{
  ◌↔◌, ℕ, eq_iff, true, ◌≡◌, ◌⊎◌, refl, arith, Option, some, List, [], ◌∷◌, String, str_eq, All,
  Bool-cases, inl, inr,
}
use murlog.Prelude.Strings.{strip_prefix}
use murlog.Signature.Window.{date_in_window_iff}
use murlog.Signature.{
  Crypto, Request, PublicKey, rsa, ed25519, unsupported, header, is_present, all_present,
  build_signing_string_strict, verify_request, verify_params, verify_digest, verify_date_window,
  verify_message, verify_with, param_or_empty, expected_is, allowed_algorithm, parsed_in_window,
  verify_decoded,
}
use murlog.Signature.Accepted.{Verifies, IsAllowed, Accepted, verify_request-Accepted}

IsAllowed-allowed_algorithm : (o : Option String) → IsAllowed o → allowed_algorithm o ≡ true
unfolding allowed_algorithm
IsAllowed-allowed_algorithm o (inl e) = rw e refl
IsAllowed-allowed_algorithm o (inr (inl e)) = rw e refl
IsAllowed-allowed_algorithm o (inr (inr (inl e))) = rw e refl
IsAllowed-allowed_algorithm o (inr (inr (inr e))) = rw e refl

module _ (crypto : Crypto) (now : ℕ) (r : Request) (public_pem body : String) where
  All-all_present :
      (hs : List String)
      → All (λ h. is_present crypto r h ≡ true) hs
      → all_present crypto r hs ≡ true
  unfolding all_present
  All-all_present [] h = refl
  All-all_present (x ∷ hs) h = ground (arith, h.0, All-all_present hs h.1)

  cases-digest :
      (header crypto "Digest" r ≡ "")
        ⊎ (strip_prefix "SHA-256=" (header crypto "Digest" r) ≡ some (crypto.digest body))
      → verify_digest crypto r body ≡ true
  unfolding verify_digest expected_is
  cases-digest (inl e) = let missing = (eq_iff (header crypto "Digest" r) "").1 e in rw missing refl
  cases-digest (inr e) =
      let same = (eq_iff (crypto.digest body) (crypto.digest body)).1 refl in
      elim (Bool-cases (str_eq (header crypto "Digest" r) "")) [
        | inl m ↦ rw m refl
        | inr m ↦ rw (m, e, expected_is, same) refl
      ]

  key-verify_with :
      (key : PublicKey) (message sig : String)
      → Verifies crypto key message sig
      → verify_with crypto (some key) message sig ≡ true
  unfolding verify_with
  key-verify_with (rsa key) message sig h = h
  key-verify_with (ed25519 key) message sig h = h
  key-verify_with unsupported message sig h = absurd h

  fresh-date_window : Accepted crypto now r public_pem body → verify_date_window crypto now r ≡ true
  unfolding verify_date_window parsed_in_window
  fresh-date_window a =
      let window = (date_in_window_iff now a.date).1 a.fresh in
      rw (a.has_date, a.dated, parsed_in_window, window) refl

  key-message :
      (a : Accepted crypto now r public_pem body)
      → verify_message crypto public_pem
          (param_or_empty "signature" a.params)
          (build_signing_string_strict crypto r a.headers)
        ≡ true
  unfolding verify_message verify_decoded build_signing_string_strict
  key-message a =
      let present = All-all_present a.headers a.present in
      let verified = key-verify_with a.key _ a.sig a.verified in
      rw (present, verify_message, a.decoded, verify_decoded, a.key_read, verified) refl

  Accepted-params :
      (a : Accepted crypto now r public_pem body)
      → verify_params crypto now r public_pem body a.params ≡ true
  unfolding verify_params
  Accepted-params a =
      rw
        (
          IsAllowed-allowed_algorithm _ a.allowed,
          ← a.listed,
          a.date_signed,
          fresh-date_window a,
          cases-digest a.digested,
          key-message a,
        )
        refl

  Accepted-verify_request :
      Accepted crypto now r public_pem body → verify_request crypto now r public_pem body ≡ true
  unfolding verify_request
  Accepted-verify_request a = rw (a.read, verify_request) (Accepted-params a)

  -- VerifyRequest accepts a request exactly if its Signature header can be read and names no algorithm
  -- or a supported one; the headers that it lists contain the date and are all there; the Date is at
  -- most thirteen hours from the present, on either side, or 2 ^ 63 nanoseconds (292 years) or more
  -- ahead of it; the Digest, if there is one, is that of the body; and the given key verifies the
  -- signature over the listed headers.
  pub verify_request_iff :
      (verify_request crypto now r public_pem body ≡ true) ↔ Accepted crypto now r public_pem body
  verify_request_iff =
      (verify_request-Accepted crypto now r public_pem body, Accepted-verify_request)
