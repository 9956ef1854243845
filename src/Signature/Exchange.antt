-- ===== src/Signature/Exchange.antt =====
-- activitypub/signature.go: SignRequest and VerifyRequest, the two ends of a delivery.
use murlog.Prelude.{
  ℕ, ◌+◌, ◌-◌, ◌%◌, ◌*◌, ◌≤◌, eq_iff, true, false, ◌≡◌, refl, sym, ap, ◌∙◌, arith, Option, none,
  some, List, String, str_eq, inl,
}
use murlog.Prelude.Strings.{append, cons-ne-empty}
use murlog.Signature.Params.{signature_header, param}
use murlog.Signature.Params.Reading.{
  signed_params, body_headers, param-signed, split-join, is_free_of, parse-signature_header,
}
use murlog.Signature.Window.{date_in_window_iff}
use murlog.Signature.{
  Crypto, Request, rsa, header, host_of, set_header, prepared, signed_headers, sign_request,
  sign_with, expected_is, parsed_in_window, verify_decoded, allowed_algorithm, param_or_empty,
  is_present, signing_line, all_present, build_signing_string, build_signing_string_strict,
  verify_request, verify_params, verify_digest, verify_date_window, verify_message, verify_with,
  contains_header,
}

-- what the libraries promise of names and dates
pub record Lawful (crypto : Crypto) : Type 0 where
  pub same_host : crypto.canonical "Host" ≡ "Host"
  pub same_signature : crypto.canonical "Signature" ≡ "Signature"
  pub same_date : crypto.canonical "Date" ≡ "Date"
  pub upper_date : crypto.canonical "date" ≡ "Date"
  pub same_digest : crypto.canonical "Digest" ≡ "Digest"
  pub upper_digest : crypto.canonical "digest" ≡ "Digest"
  pub fold : (s : String) → crypto.equal_fold s s ≡ true
  -- a formatted date is a text, and reads back without its nanoseconds
  pub date_text : (t : ℕ) → str_eq (crypto.format_time t) "" ≡ false
  pub date_read : (t : ℕ) → crypto.parse_time (crypto.format_time t) ≡ some (t - t % 1000000000)

-- the two halves of a key pair: what the one signs the other verifies, and base64 carries the
-- signature in a text without quotation marks
pub record KeyPair (crypto : Crypto) (private_pem public_pem : String) : Type 0 where
  pub private : String
  pub public : String
  pub private_read : crypto.parse_private_key private_pem ≡ some private
  pub public_read : crypto.parse_public_key public_pem ≡ some (rsa public)
  pub signs :
      (message sig : String)
      → crypto.sign_rsa private message ≡ some sig
      → (crypto.verify_rsa public message sig ≡ true)
        × (crypto.decode64 (crypto.encode64 sig) ≡ some sig)
        × (is_free_of b'"' (crypto.encode64 sig) ≡ true)

-- a request arrives as it was sent, but for the Host, which Go keeps apart on a server
pub record Carried (crypto : Crypto) (sent got : Request) : Type 0 where
  pub method : got.method ≡ sent.method
  pub request_uri : got.request_uri ≡ sent.request_uri
  pub host : host_of crypto got ≡ host_of crypto sent
  pub headers :
      (name : String)
      → str_eq (crypto.canonical name) "Host" ≡ false
      → header crypto name got ≡ header crypto name sent

module _ (crypto : Crypto) (laws : Lawful crypto) (url_host : String) (t : ℕ) (body : String)
    (r : Request) where
  -- the request with the headers of SignRequest but the last
  abbrev bare : Request
  bare = prepared crypto t url_host (some body) r

  bare-date : header crypto "date" bare ≡ crypto.format_time t
  bare-date = rw (laws.upper_date, laws.same_date, laws.same_host, laws.same_digest) refl

  bare-digest : header crypto "digest" bare ≡ append "SHA-256=" (crypto.digest body)
  bare-digest = rw (laws.upper_digest, laws.same_date, laws.same_host, laws.same_digest) refl

  bare-host : str_eq url_host "" ≡ false → host_of crypto bare ≡ url_host
  bare-host h = rw (laws.same_date, laws.same_host, laws.same_digest, h) refl

  -- the headers other than the last are those of the request it is added to
  set_signature-header :
      (v name : String)
      → str_eq "Signature" (crypto.canonical name) ≡ false
      → header crypto name (set_header crypto "Signature" v bare) ≡ header crypto name bare
  set_signature-header v name h = rw (laws.same_signature, h) refl

  module _ (got : Request) (v : String)
      (carried : Carried crypto (set_header crypto "Signature" v bare) got)
      (named : str_eq url_host "" ≡ false) where
    got-date : header crypto "date" got ≡ crypto.format_time t
    got-date =
        carried.headers "date" (rw laws.upper_date refl)
        ∙ set_signature-header v "date" (rw laws.upper_date refl)
        ∙ bare-date

    got-digest : header crypto "digest" got ≡ append "SHA-256=" (crypto.digest body)
    got-digest =
        carried.headers "digest" (rw laws.upper_digest refl)
        ∙ set_signature-header v "digest" (rw laws.upper_digest refl)
        ∙ bare-digest

    -- the names that VerifyRequest looks up
    got-upper_date : header crypto "Date" got ≡ crypto.format_time t
    got-upper_date = rw (laws.same_date, ← laws.upper_date) got-date

    got-upper_digest : header crypto "Digest" got ≡ append "SHA-256=" (crypto.digest body)
    got-upper_digest = rw (laws.same_digest, ← laws.upper_digest) got-digest

    got-signature : header crypto "Signature" got ≡ v
    got-signature =
        carried.headers "Signature" (rw laws.same_signature refl) ∙ rw laws.same_signature refl

    -- each signed header is there, with the line that was signed
    line-target :
        (is_present crypto got "(request-target)" ≡ true)
        × (signing_line crypto got "(request-target)" ≡ signing_line crypto bare "(request-target)")
    unfolding is_present signing_line
    line-target = (refl, rw (carried.method, carried.request_uri) refl)

    got-host : host_of crypto got ≡ url_host
    got-host = carried.host ∙ rw (laws.same_signature, laws.same_host, laws.same_digest, named) refl

    line-host :
        (is_present crypto got "host" ≡ true)
        × (signing_line crypto got "host" ≡ signing_line crypto bare "host")
    unfolding is_present signing_line
    line-host = (rw (got-host, named) refl, rw (got-host, bare-host named) refl)

    line-date :
        (is_present crypto got "date" ≡ true)
        × (signing_line crypto got "date" ≡ signing_line crypto bare "date")
    unfolding is_present signing_line
    line-date = (
      rw (got-date, laws.date_text t) refl,
      ap (λ x. append "date" (append ": " x)) (got-date ∙ sym bare-date),
    )

    line-digest :
        (is_present crypto got "digest" ≡ true)
        × (signing_line crypto got "digest" ≡ signing_line crypto bare "digest")
    unfolding is_present signing_line
    line-digest = (
      rw (got-digest, cons-ne-empty) refl,
      ap (λ x. append "digest" (append ": " x)) (got-digest ∙ sym bare-digest),
    )

    got-message :
        build_signing_string_strict crypto got (signed_headers (some body))
        ≡ some (build_signing_string crypto bare (signed_headers (some body)))
    unfolding build_signing_string_strict build_signing_string all_present
    got-message =
        rw
          (
            line-target.0, line-host.0, line-date.0, line-digest.0, line-target.1, line-host.1,
            line-date.1, line-digest.1,
          )
          refl

    got-digest_ok : verify_digest crypto got body ≡ true
    unfolding verify_digest expected_is
    got-digest_ok =
        rw got-upper_digest
          (ground (arith, (eq_iff (crypto.digest body) (crypto.digest body)).1 refl))

    got-window :
        (now : ℕ)
        → t ≤ now
        → now ≤ t + 12 * 3600 * 1000000000
        → verify_date_window crypto now got ≡ true
    unfolding verify_date_window parsed_in_window
    got-window now later soon =
        rw (got-upper_date, laws.date_text t, laws.date_read t)
          ((date_in_window_iff now (t - t % 1000000000)).1 (inl (omega arith, omega arith)))

param_or_empty-some :
    (k v : String) (ps : List (String × String)) → param k ps ≡ some v → param_or_empty k ps ≡ v
unfolding param_or_empty
param_or_empty-some k v ps h = rw (h, param_or_empty) refl

contains-date :
    (crypto : Crypto) → Lawful crypto → contains_header crypto body_headers "date" ≡ true
unfolding contains_header
contains-date crypto laws = ground (arith, laws.fold "date")

-- what SignRequest comes back with, if it does
sign_with-some :
    (crypto : Crypto) (key_id : String) (headers : List String) (r sent : Request)
    (o : Option String)
    → sign_with crypto key_id headers r o ≡ some sent
    → (sig : String) × (o ≡ some sig)
      × (set_header crypto "Signature" (signature_header key_id headers (crypto.encode64 sig)) r
          ≡ sent)
unfolding sign_with
sign_with-some crypto key_id headers r sent none h = cc
sign_with-some crypto key_id headers r sent (some sig) h = (sig, refl, ground arith)

module _ (crypto : Crypto) (laws : Lawful crypto) (url_host key_id private_pem public_pem : String)
    (pair : KeyPair crypto private_pem public_pem) (t now : ℕ) (body : String)
    (r sent got : Request) where
  -- what was signed with the key verifies
  verify-signed :
      (headers : List String) (sig : String)
      → crypto.sign_rsa pair.private
          (build_signing_string crypto (prepared crypto t url_host (some body) r) headers)
        ≡ some sig
      → build_signing_string_strict crypto got headers
        ≡ some (build_signing_string crypto (prepared crypto t url_host (some body) r) headers)
      → verify_message crypto public_pem
          (crypto.encode64 sig)
          (build_signing_string_strict crypto got headers)
        ≡ true
  unfolding verify_message verify_with verify_decoded
  verify-signed headers sig signed message =
      rw (message, verify_message, verify_decoded, (pair.signs _ sig signed).1, pair.public_read)
        (pair.signs _ sig signed).0

  -- the request with the headers that SignRequest sets, the last with the signature `sig`
  abbrev signed_request : String → Request
  signed_request sig =
      set_header crypto "Signature" (signature_header key_id body_headers (crypto.encode64 sig))
        (prepared crypto t url_host (some body) r)

  verify-params :
      (sig : String)
      → crypto.sign_rsa pair.private
          (build_signing_string crypto (prepared crypto t url_host (some body) r) body_headers)
        ≡ some sig
      → str_eq url_host "" ≡ false
      → Carried crypto (signed_request sig) got
      → t ≤ now
      → now ≤ t + 12 * 3600 * 1000000000
      → verify_params crypto now got public_pem body
          (signed_params key_id body_headers (crypto.encode64 sig))
        ≡ true
  unfolding verify_params allowed_algorithm
  verify-params sig made named carried later soon =
      let v = signature_header key_id body_headers (crypto.encode64 sig) in
      let looked = param-signed key_id body_headers (crypto.encode64 sig) in
      rw
        (
          looked.0,
          param_or_empty-some "headers" _ _ looked.1,
          param_or_empty-some "signature" _ _ looked.2,
          split-join.0,
          contains-date crypto laws,
          got-window crypto laws url_host t body r got v carried named now later soon,
          got-digest_ok crypto laws url_host t body r got v carried named,
          verify-signed body_headers sig made
              (got-message crypto laws url_host t body r got v carried named),
        )
        refl

  verify-Carried :
      (sig : String)
      → is_free_of b'"' key_id ≡ true
      → str_eq url_host "" ≡ false
      → crypto.sign_rsa pair.private
          (build_signing_string crypto (prepared crypto t url_host (some body) r) body_headers)
        ≡ some sig
      → Carried crypto (signed_request sig) got
      → t ≤ now
      → now ≤ t + 12 * 3600 * 1000000000
      → verify_request crypto now got public_pem body ≡ true
  unfolding verify_request
  verify-Carried sig free named made carried later soon =
      let v = signature_header key_id body_headers (crypto.encode64 sig) in
      let read =
        parse-signature_header key_id body_headers (crypto.encode64 sig) free split-join.1
          (pair.signs _ sig made).2 in
      rw (verify_request, got-signature crypto laws url_host t body r got v carried named, read)
        (verify-params sig made named carried later soon)

  -- A request with a body that SignRequest signs is accepted by VerifyRequest under the public half
  -- of the key, if it arrives as it was sent at most twelve hours later.
  pub verify_request-sign_request :
      is_free_of b'"' key_id ≡ true
      → str_eq url_host "" ≡ false
      → sign_request crypto t url_host key_id private_pem (some body) r ≡ some sent
      → Carried crypto sent got
      → t ≤ now
      → now ≤ t + 12 * 3600 * 1000000000
      → verify_request crypto now got public_pem body ≡ true
  unfolding sign_request
  verify_request-sign_request free named signed carried later soon =
      let h : sign_with crypto key_id body_headers (prepared crypto t url_host (some body) r) (
            crypto.sign_rsa pair.private
              (build_signing_string crypto (prepared crypto t url_host (some body) r) body_headers))
          ≡ some sent =
        rw (pair.private_read, sign_request) at signed in
      let (sig, made, same) = sign_with-some crypto key_id body_headers _ sent _ h in
      verify-Carried sig free named made (rw (← same) at carried) later soon
