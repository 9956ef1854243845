-- ===== src/Auth/Tests.antt =====
-- A concrete site, and the theorems about the login on it.
use murlog.Prelude.{
  ℕ, ◌⊎◌, ltb, ◌≡◌, ◌≢◌, ◌*◌, ◌+◌, ◌-◌, ◌≤◌, refl, none, arith, List, [], ◌∷◌, String, str_eq, All,
}
use murlog.Auth.{
  get_login_attempt, false, true, some, login, logged_in, is_locked, session_duration, Site,
  Secrets, LoginRequest, login_lock_duration, login_max_attempts,
}
use murlog.Auth.Sessions.{
  login_safe, login-is_http_authed, is_http_authed, logout, is_http_authed-logout,
}
use murlog.Auth.Lockout.{wrong_answers, IsWrong, wrong_answers_bound}

abbrev secrets : Secrets
secrets = record {
  compare_hash = λ hash password. str_eq hash password;
  validate_totp = λ secret code now. str_eq secret code;
  hash_token = λ token. token;
}

abbrev site : Site
site = record {
  password_hash = "Corr3ct!";
  totp_secret = "";
  totp_pending = "";
  attempts = [];
  sessions = [];
  api_tokens = [];
}

abbrev guess : String → LoginRequest
guess password = record {
  ip = "192.0.2.1";
  password = password;
  totp_code = "";
  token = "t";
  session_id = 1;
}

abbrev guesses : List (ℕ × LoginRequest)
guesses = (100, guess "a") ∷ (101, guess "b") ∷ []

guesses-IsWrong : All (IsWrong secrets "192.0.2.1" "Corr3ct!" 100 400) guesses
guesses-IsWrong =
    ((omega arith, omega arith, λ _. refl), ((omega arith, omega arith, λ _. refl), tt))

no_failures : get_login_attempt "192.0.2.1" [] ≡ (0, none)
unfolding get_login_attempt
no_failures = refl

some_address : ◌≢◌ {A = String} "192.0.2.1" ""
some_address e = cc

wrong_answers_bound_example :
    login_lock_duration * wrong_answers secrets "192.0.2.1" guesses site
    ≤ login_lock_duration * login_max_attempts + (400 - 100)
wrong_answers_bound_example =
    wrong_answers_bound secrets "192.0.2.1" 100 400 guesses site (omega arith) some_address
      no_failures guesses-IsWrong

let_in : (login secrets 100 (guess "Corr3ct!") site).1 ≡ logged_in "t"
unfolding login is_locked get_login_attempt
let_in = refl

login_safe_example :
    (str_eq "Corr3ct!" "Corr3ct!" ≡ true)
    × ((site.totp_secret ≡ "") ⊎ (str_eq "" "" ≡ true))
    × (is_locked 100 "192.0.2.1" [] ≡ false)
login_safe_example = login_safe secrets 100 (guess "Corr3ct!") site "t" let_in

login-is_http_authed_example :
    is_http_authed secrets 200 (some "t") "" (login secrets 100 (guess "Corr3ct!") site).0
    ≡ ltb 200 (100 + session_duration)
login-is_http_authed_example =
    login-is_http_authed secrets 100 200 (guess "Corr3ct!") site "t" let_in

is_http_authed-logout_example :
    is_http_authed secrets 200
      (some "t")
      ""
      (logout secrets (some "t") "" (login secrets 100 (guess "Corr3ct!") site).0)
    ≡ false
is_http_authed-logout_example =
    is_http_authed-logout secrets 200 "t" "" (login secrets 100 (guess "Corr3ct!") site).0
