-- ===== src/Signature/Tests.antt =====
-- A concrete key pair and a signed request, and the theorems about them.
use murlog.Prelude.{
  zero, suc, length, codes, ◌/◌, ℕ, ◌*◌, ◌+◌, ◌≤◌, true, ◌≡◌, ◌⊎◌, ◌↔◌, refl, arith, none, some, [],
  String, str_eq, if◌then◌else◌, ap, eq_iff,
}
use murlog.Prelude.Strings.{append, strip_prefix, cons-ne-empty}
use murlog.Signature.Params.{parse_signature_header, signature_header}
use murlog.Signature.Params.Reading.{
  body_headers, split-join, parse-signature_header, signed_params, is_free_of,
}
use murlog.Signature.Window.{date_in_window, date_in_window_iff, signature_max_age, min_duration}
use murlog.Signature.{
  Crypto, Request, rsa, sign_request, sign_with, prepared, verify_request, set_header,
}
use murlog.Signature.Exchange.{Lawful, KeyPair, Carried, verify_request-sign_request}
use murlog.Signature.Accepted.{Accepted}
use murlog.Signature.Accepted.Exact.{verify_request_iff}

-- a date as a text with a mark for each second
marks : ℕ → String
marks zero = ""
marks (suc n) = append "x" (marks n)

abbrev in_seconds : ℕ → String
in_seconds t = append "epoch" (marks (t / 1000000000))

abbrev count_marks : String → ℕ
count_marks s = length (codes s)

-- names are compared as they are, but for two in lower case
abbrev toy : Crypto
toy = record {
  digest = λ body. append "sum of " body;
  decode64 = some;
  encode64 = λ s. s;
  parse_public_key = λ pem. some (rsa pem);
  parse_private_key = some;
  verify_rsa = λ key message sig. str_eq sig key;
  verify_ed25519 = λ key message sig. str_eq sig key;
  sign_rsa = λ key message. some key;
  parse_time = λ s. elim (strip_prefix "epoch" s) [
    | none ↦ none
    | some rest ↦ some (count_marks rest * 1000000000)
  ];
  format_time = in_seconds;
  canonical = λ name.
      if str_eq name "date" then "Date" else if str_eq name "digest" then "Digest" else name;
  equal_fold = str_eq;
  lower = λ s. s;
}

count_marks-marks : (n : ℕ) → count_marks (marks n) ≡ n
unfolding marks
count_marks-marks zero = refl
count_marks-marks (suc n) = ap suc (count_marks-marks n)

toy-Lawful : Lawful toy
toy-Lawful = record {
  same_host = refl;
  same_signature = refl;
  same_date = refl;
  upper_date = refl;
  same_digest = refl;
  upper_digest = refl;
  fold = λ s. (eq_iff s s).1 refl;
  date_text = λ t. cons-ne-empty _ _;
  date_read = λ t. rw (count_marks-marks (t / 1000000000)) (ap some (omega arith));
}

toy-KeyPair : KeyPair toy "key" "key"
toy-KeyPair = record {
  private = "key";
  public = "key";
  private_read = refl;
  public_read = refl;
  signs = λ message sig e. signed message sig e;
}
  where
    signed :
        (message sig : String)
        → toy.sign_rsa "key" message ≡ some sig
        → (str_eq sig "key" ≡ true) × (toy.decode64 sig ≡ some sig) × (is_free_of b'"' sig ≡ true)
    signed message sig e = let same : "key" ≡ sig = ground arith in rw (← same) (refl, refl, refl)

parse-signature_header_example :
    parse_signature_header
      (signature_header "https://a.example/users/alice#main-key" body_headers "c2ln==")
    ≡ some (signed_params "https://a.example/users/alice#main-key" body_headers "c2ln==")
parse-signature_header_example =
    parse-signature_header "https://a.example/users/alice#main-key" body_headers "c2ln==" refl
      split-join.1 refl

-- a date of the next day
date_in_window_iff_example : (date_in_window 1000000000 86401000000000 ≡ true) ↔ (
    ((1000000000 ≤ 86401000000000 + signature_max_age)
      × (86401000000000 ≤ 1000000000 + signature_max_age))
    ⊎ (1000000000 + min_duration ≤ 86401000000000))
date_in_window_iff_example = date_in_window_iff 1000000000 86401000000000

abbrev post : Request
post = record { method = "post"; request_uri = "/users/bob/inbox"; host = ""; headers = [] }

abbrev sent : Request
sent =
    set_header toy "Signature"
      (signature_header "https://a.example/users/alice#main-key" body_headers "key")
      (prepared toy 5 "b.example" (some "{}") post)

arrived : Carried toy sent sent
arrived = record { method = refl; request_uri = refl; host = refl; headers = λ name e. refl }

verify_request-sign_request_example : verify_request toy 6000000000 sent "key" "{}" ≡ true
unfolding sign_request sign_with
verify_request-sign_request_example =
    verify_request-sign_request toy toy-Lawful "b.example" "https://a.example/users/alice#main-key"
      "key" "key" toy-KeyPair 5 6000000000 "{}" post sent sent refl refl refl arrived (omega arith)
      (omega arith)

verify_request_iff_example :
    (verify_request toy 6000000000 sent "key" "{}" ≡ true) ↔ Accepted toy 6000000000 sent "key" "{}"
verify_request_iff_example = verify_request_iff toy 6000000000 sent "key" "{}"
