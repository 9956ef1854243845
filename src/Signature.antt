-- ===== src/Signature.antt =====
-- activitypub/signature.go: HTTP signatures. A text is its bytes; a time is in nanoseconds.
pub mod Params
pub mod Window
mod Tests
pub mod Exchange
pub mod Accepted
use murlog.Prelude.{
  ℕ, ◌-◌, ◌*◌, ◌^◌, ◌%◌, Bool, true, false, not, ◌&&◌, ◌||◌, if◌then◌else◌, leb, ltb, Option, none,
  some, List, [], ◌∷◌, ◌++◌, String, str_eq,
}
use murlog.Prelude.Strings.{append, strip_prefix}
use murlog.Prelude.Tables.{any_row}
use murlog.Signature.Params.{
  parse_signature_header, param, split_spaces, join_with, signature_header,
}
use murlog.Signature.Window.{date_in_window}

-- a parsed public key; `unsupported` is one of another type
pub data PublicKey : Type 0 where
  rsa ed25519 : String → PublicKey
  unsupported : PublicKey

-- What the package takes from the libraries: hashes, keys, base64, dates, and the names of headers.
pub record Crypto : Type 0 where
  -- base64 of the SHA-256 of a body
  pub digest : String → String
  pub decode64 : String → Option String
  pub encode64 : String → String
  pub parse_public_key : String → Option PublicKey
  pub parse_private_key : String → Option String
  -- the checks of a signature: key, message, signature
  pub verify_rsa : String → String → String → Bool
  pub verify_ed25519 : String → String → String → Bool
  -- SignPKCS1v15 of the SHA-256 of a message
  pub sign_rsa : String → String → Option String
  -- http.ParseTime, and Format with http.TimeFormat
  pub parse_time : String → Option ℕ
  pub format_time : ℕ → String
  -- http.CanonicalHeaderKey, strings.EqualFold and strings.ToLower
  pub canonical : String → String
  pub equal_fold : String → String → Bool
  pub lower : String → String

-- an http.Request: its headers under their canonical names, and the Host that Go keeps apart
pub record Request : Type 0 where
  pub method : String
  pub request_uri : String
  pub host : String
  pub headers : List (String × String)

abbrev pub lookup : String → List (String × String) → String
lookup k [] = ""
lookup k ((j, v) ∷ m) = let rest = lookup k m in if str_eq j k then v else rest

-- r.Header.Get
abbrev pub header : Crypto → String → Request → String
header crypto name r = lookup (crypto.canonical name) r.headers

-- r.Header.Set
abbrev pub set_header : Crypto → String → String → Request → Request
set_header crypto name v r = record r { headers = (crypto.canonical name, v) ∷ r.headers }

-- the Host header, or r.Host
abbrev pub host_of : Crypto → Request → String
host_of crypto r = let h = header crypto "Host" r in if str_eq h "" then r.host else h

-- containsHeader
pub contains_header : Crypto → List String → String → Bool
contains_header crypto headers name = any_row (λ h. crypto.equal_fold h name) headers

-- the line of a header in the signing string
signing_line : Crypto → Request → String → String
signing_line crypto r h =
    if str_eq h "(request-target)"
    then append "(request-target): " (append (crypto.lower r.method) (append " " r.request_uri))
    else if str_eq h "host"
    then append "host: " (host_of crypto r)
    else append h (append ": " (header crypto h r))

-- buildSigningString
pub build_signing_string : Crypto → Request → List String → String
unfolding signing_line
build_signing_string crypto r hs = join_with "\n" (lines hs)
  where
    lines : List String → List String
    lines [] = []
    lines (h ∷ hs) = signing_line crypto r h ∷ lines hs

-- whether buildSigningStringStrict finds the header
pub is_present : Crypto → Request → String → Bool
is_present crypto r h =
    str_eq h "(request-target)"
    || (if str_eq h "host"
        then not (str_eq (host_of crypto r) "")
        else not (str_eq (header crypto h r) ""))

all_present : Crypto → Request → List String → Bool
unfolding is_present
all_present crypto r [] = true
all_present crypto r (h ∷ hs) = is_present crypto r h && all_present crypto r hs

-- buildSigningStringStrict; an error is `none`
pub build_signing_string_strict : Crypto → Request → List String → Option String
unfolding all_present
build_signing_string_strict crypto r hs =
    if all_present crypto r hs then some (build_signing_string crypto r hs) else none

-- the comparison with the digest that the header names behind its prefix
expected_is : String → Option String → Bool
expected_is actual none = false
expected_is actual (some expected) = str_eq expected actual

-- VerifyDigest
pub verify_digest : Crypto → Request → String → Bool
unfolding expected_is
verify_digest crypto r body =
    let digest = header crypto "Digest" r in
    str_eq digest "" || expected_is (crypto.digest body) (strip_prefix "SHA-256=" digest)

parsed_in_window : ℕ → Option ℕ → Bool
parsed_in_window now none = false
parsed_in_window now (some date) = date_in_window now date

-- verifyDateWindow
pub verify_date_window : Crypto → ℕ → Request → Bool
unfolding parsed_in_window
verify_date_window crypto now r =
    let date_text = header crypto "Date" r in
    if str_eq date_text "" then false else parsed_in_window now (crypto.parse_time date_text)

-- the algorithm that the header names, if it names one
allowed_algorithm : Option String → Bool
allowed_algorithm none = true
allowed_algorithm (some a) = str_eq a "rsa-sha256" || (str_eq a "hs2019" || str_eq a "ed25519")

verify_with : Crypto → Option PublicKey → String → String → Bool
verify_with crypto none message sig = false
verify_with crypto (some (rsa key)) message sig = crypto.verify_rsa key message sig
verify_with crypto (some (ed25519 key)) message sig = crypto.verify_ed25519 key message sig
verify_with crypto (some unsupported) message sig = false

-- a parameter of the header, "" where it is missing
pub param_or_empty : String → List (String × String) → String
param_or_empty key params = elim (param key params) [ none ↦ "" | some v ↦ v ]

verify_decoded : Crypto → String → String → Option String → Bool
unfolding verify_with
verify_decoded crypto public_key_pem message none = false
verify_decoded crypto public_key_pem message (some sig) =
    verify_with crypto (crypto.parse_public_key public_key_pem) message sig

-- the check of the signature over the signing string
verify_message : Crypto → String → String → Option String → Bool
unfolding verify_decoded
verify_message crypto public_key_pem signature none = false
verify_message crypto public_key_pem signature (some message) =
    verify_decoded crypto public_key_pem message (crypto.decode64 signature)

-- VerifyRequest behind the parsing of the header
verify_params : Crypto → ℕ → Request → String → String → List (String × String) → Bool
unfolding allowed_algorithm param_or_empty verify_message
verify_params crypto now r public_key_pem body params =
    let headers = split_spaces (param_or_empty "headers" params) in
    allowed_algorithm (param "algorithm" params)
    && (contains_header crypto headers "date"
        && (verify_date_window crypto now r
            && (verify_digest crypto r body
                && verify_message crypto public_key_pem (param_or_empty "signature" params)
                    (build_signing_string_strict crypto r headers))))

-- VerifyRequest, at the time `now`; an error is `false`
pub verify_request : Crypto → ℕ → Request → String → String → Bool
unfolding verify_params
verify_request crypto now r public_key_pem body =
    elim (parse_signature_header (header crypto "Signature" r)) [
      | none ↦ false
      | some params ↦ verify_params crypto now r public_key_pem body params
    ]

-- ParseSignatureKeyID
pub parse_signature_key_id : String → Option String
parse_signature_key_id sig_header = elim (parse_signature_header sig_header) [
  | none ↦ none
  | some params ↦ param "keyId" params
]

abbrev pub dated : Crypto → ℕ → String → Request → Request
dated crypto now url_host r =
    set_header crypto "Host" url_host (set_header crypto "Date" (crypto.format_time now) r)

-- the headers that SignRequest sets before it signs
abbrev pub prepared : Crypto → ℕ → String → Option String → Request → Request
prepared crypto now url_host none r = dated crypto now url_host r
prepared crypto now url_host (some body) r =
    set_header crypto "Digest" (append "SHA-256=" (crypto.digest body))
      (dated crypto now url_host r)

-- the headers that SignRequest signs
abbrev pub signed_headers : Option String → List String
signed_headers none = "(request-target)" ∷ "host" ∷ "date" ∷ []
signed_headers (some body) = "(request-target)" ∷ "host" ∷ "date" ∷ "digest" ∷ []

sign_with : Crypto → String → List String → Request → Option String → Option Request
sign_with crypto key_id headers r none = none
sign_with crypto key_id headers r (some sig) =
    some (set_header crypto "Signature" (signature_header key_id headers (crypto.encode64 sig)) r)

-- SignRequest at the time `now`, of a request for the host `url_host`; an error is `none`
pub sign_request : Crypto → ℕ → String → String → String → Option String → Request → Option Request
unfolding sign_with
sign_request crypto now url_host key_id private_key_pem body r =
    elim (crypto.parse_private_key private_key_pem) [
      | none ↦ none
      | some key ↦
          let r' = prepared crypto now url_host body r in
          let headers = signed_headers body in
          sign_with crypto key_id headers r'
            (crypto.sign_rsa key (build_signing_string crypto r' headers))
    ]
