-- ===== src/Auth.antt =====
-- handler/api_mur_auth.go and handler/auth.go, with store/sqlite/login_attempt.go and session.go:
-- the owner's login, its rate limit for each address, and sessions.
pub mod Attempts
pub mod Lockout
pub mod Sessions
mod Tests
use murlog.Prelude.{
  ◌==◌, ℕ, suc, ◌+◌, ◌*◌, Bool, true, false, not, ◌&&◌, ◌||◌, if◌then◌else◌, ltb, leb, Option, none,
  some, List, [], ◌∷◌, String, str_eq,
}
use murlog.Rpc.{RpcCode, invalid_params, internal_error, unauthorized}
use murlog.Prelude.Tables.{find_row, delete_where, any_row}

-- a row of `login_attempts`; an empty locked_until is `none`
pub record LoginAttempt : Type 0 where
  pub ip : String
  pub fail_count : ℕ
  pub locked_until : Option ℕ

-- GetLoginAttempt
pub get_login_attempt : String → List LoginAttempt → ℕ × Option ℕ
get_login_attempt ip rows = elim (find_row (λ a. str_eq a.ip ip) rows) [
  | none ↦ (0, none)
  | some a ↦ (a.fail_count, a.locked_until)
]

-- RecordLoginFailure: an INSERT with ON CONFLICT(ip) DO UPDATE
pub record_login_failure : String → Option ℕ → List LoginAttempt → List LoginAttempt
record_login_failure ip until [] = record { ip = ip; fail_count = 1; locked_until = until } ∷ []
record_login_failure ip until (a ∷ rows) =
    let rest = record_login_failure ip until rows in
    if str_eq a.ip ip
    then record a { fail_count = a.fail_count + 1; locked_until = until } ∷ rows
    else a ∷ rest

-- ClearLoginAttempts
pub clear_login_attempts : String → List LoginAttempt → List LoginAttempt
clear_login_attempts ip = delete_where (λ a. str_eq a.ip ip)

-- a row of `sessions`
pub record Session : Type 0 where
  pub id : ℕ
  pub token_hash : String
  pub expires_at : ℕ
  pub created_at : ℕ

-- the columns of `api_tokens` that the login reads; a zero ExpiresAt is `none`
pub record ApiToken : Type 0 where
  pub id : ℕ
  pub token_hash : String
  pub expires_at : Option ℕ

-- what the login reads and writes; a missing setting is ""
pub record Site : Type 0 where
  pub password_hash : String
  pub totp_secret : String
  pub totp_pending : String
  pub attempts : List LoginAttempt
  pub sessions : List Session
  pub api_tokens : List ApiToken

-- CreateSession; the primary key or the UNIQUE index can refuse it
create_session : Session → List Session → Option (List Session)
create_session s rows =
    if any_row (λ r. r.id == s.id || str_eq r.token_hash s.token_hash) rows
    then none
    else some (s ∷ rows)

-- GetSession
pub get_session : String → List Session → Option Session
get_session hash = find_row (λ r. str_eq r.token_hash hash)

-- DeleteSession
delete_session : String → List Session → List Session
delete_session hash = delete_where (λ r. str_eq r.token_hash hash)

-- GetAPIToken and DeleteAPIToken
get_api_token : String → List ApiToken → Option ApiToken
get_api_token hash = find_row (λ r. str_eq r.token_hash hash)

-- what the handlers take from other packages
pub record Secrets : Type 0 where
  -- bcrypt.CompareHashAndPassword without an error
  pub compare_hash : String → String → Bool
  -- totp.Validate at a time
  pub validate_totp : String → String → ℕ → Bool
  -- hashToken
  pub hash_token : String → String

-- what auth.login answers; a login comes with the token of its cookie
pub data LoginAnswer : Type 0 where
  refused : RpcCode → String → LoginAnswer
  logged_in : String → LoginAnswer

-- loginMaxAttempts, loginLockDuration and sessionDuration
abbrev pub login_max_attempts : ℕ
login_max_attempts = 5

abbrev pub login_lock_duration : ℕ
login_lock_duration = 300

abbrev pub session_duration : ℕ
session_duration = 14 * 24 * 3600

-- a failure is recorded, with a lock from the fifth one on
pub record_failure : ℕ → String → List LoginAttempt → List LoginAttempt
record_failure now ip rows =
    if str_eq ip ""
    then rows
    else record_login_failure ip
        (if leb login_max_attempts ((get_login_attempt ip rows).0 + 1)
          then some (now + login_lock_duration)
          else none)
        rows

-- now.Before(lockedUntil) of a time that is set
is_before : ℕ → Option ℕ → Bool
is_before now none = false
is_before now (some until) = ltb now until

pub is_locked : ℕ → String → List LoginAttempt → Bool
unfolding is_before
is_locked now ip rows = not (str_eq ip "") && is_before now (get_login_attempt ip rows).1

-- what a request brings: its address ("" where there is none), the decoded parameters, the token
-- that generateToken draws for it and the id of its session
pub record LoginRequest : Type 0 where
  pub ip : String
  pub password : String
  pub totp_code : String
  pub token : String
  pub session_id : ℕ

-- the end of rpcAuthLogin, behind its checks
grant : Secrets → ℕ → LoginRequest → Site → Site × LoginAnswer
unfolding create_session
grant secrets now r site =
    let cleared =
      if str_eq r.ip "" then site.attempts else clear_login_attempts r.ip site.attempts in
    elim (create_session
      (record {
        id = r.session_id;
        token_hash = secrets.hash_token r.token;
        expires_at = now + session_duration;
        created_at = now;
      })
      site.sessions) [
        | none ↦ (record site { attempts = cleared }, refused internal_error "internal error")
        | some sessions ↦
            (record site { attempts = cleared; sessions = sessions }, logged_in r.token)
      ]

-- the check of the second factor
second_factor : Secrets → ℕ → LoginRequest → Site → Site × LoginAnswer
unfolding grant
second_factor secrets now r site =
    if str_eq site.totp_secret ""
    then grant secrets now r site
    else if str_eq r.totp_code ""
    then (site, refused invalid_params "totp_code is required")
    else if secrets.validate_totp site.totp_secret r.totp_code now
    then grant secrets now r site
    else (
      record site { attempts = record_failure now r.ip site.attempts },
      refused unauthorized "invalid TOTP code",
    )

-- rpcAuthLogin, at the time `now`
pub login : Secrets → ℕ → LoginRequest → Site → Site × LoginAnswer
unfolding second_factor
login secrets now r site =
    if str_eq r.password ""
    then (site, refused invalid_params "password is required")
    else if is_locked now r.ip site.attempts
    then (site, refused unauthorized "too many attempts, try again later")
    else if str_eq site.password_hash ""
    then (site, refused internal_error "login not available")
    else if secrets.compare_hash site.password_hash r.password
    then second_factor secrets now r site
    else (
      record site { attempts = record_failure now r.ip site.attempts },
      refused unauthorized "invalid password",
    )
