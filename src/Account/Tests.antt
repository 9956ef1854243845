-- ===== src/Account/Tests.antt =====
-- A concrete owner, and the theorems about the changes that he makes.
use murlog.Prelude.{◌≡◌, ◌↔◌, ◌≤◌, none, [], ◌∷◌, str_eq, codes}
use murlog.Auth.{Site, Secrets}
use murlog.Account.{byte_len, validate_password}
use murlog.Account.Names.{validate_password_iff, kinds_of}
use murlog.Account.Changes.{calls, calls-IsConfirmed, IsConfirmed, set_up, verify}

abbrev secrets : Secrets
secrets = record {
  compare_hash = λ hash password. str_eq hash password;
  validate_totp = λ secret code now. str_eq secret code;
  hash_token = λ token. token;
}

abbrev site : Site
site = record {
  password_hash = "Corr3ct!";
  totp_secret = "";
  totp_pending = "";
  attempts = [];
  sessions = [];
  api_tokens = [];
}

validate_password_iff_example : (validate_password (codes "Better77") ≡ none) ↔ (
    (8 ≤ byte_len (codes "Better77"))
    × (byte_len (codes "Better77") ≤ 128)
    × (3 ≤ kinds_of (codes "Better77")))
validate_password_iff_example = validate_password_iff (codes "Better77")

calls-IsConfirmed_example :
    IsConfirmed secrets ""
      (set_up "S" ∷ verify 9 "S" ∷ [])
      (calls secrets (set_up "S" ∷ verify 9 "S" ∷ []) site).totp_secret
calls-IsConfirmed_example = calls-IsConfirmed secrets (set_up "S" ∷ verify 9 "S" ∷ []) site
