-- ===== src/Auth/Attempts.antt =====
-- store/sqlite/login_attempt.go: what is read back after each statement.
use murlog.Prelude.{
  ℕ, ◌+◌, ◌≡◌, if◌then◌else◌, arith, Option, none, List, [], ◌∷◌, String, str_eq, eq_iff,
}
use murlog.Auth.{LoginAttempt, get_login_attempt, record_login_failure, clear_login_attempts}

pub get_login_attempt-record_login_failure :
    (k ip : String) (until : Option ℕ) (rows : List LoginAttempt)
    → get_login_attempt k (record_login_failure ip until rows) ≡ (
        if str_eq ip k
        then ((get_login_attempt ip rows).0 + 1, until)
        else get_login_attempt k rows)
unfolding get_login_attempt record_login_failure
get_login_attempt-record_login_failure k ip until [] = ground (arith, eq_iff ip k)
get_login_attempt-record_login_failure k ip until (a ∷ rows) = ground (
  arith,
  eq_iff ip k,
  eq_iff a.ip k,
  eq_iff a.ip ip,
  get_login_attempt-record_login_failure k ip until rows,
)

pub get_login_attempt-clear_login_attempts :
    (k ip : String) (rows : List LoginAttempt)
    → get_login_attempt k (clear_login_attempts ip rows)
      ≡ (if str_eq ip k then (0, none) else get_login_attempt k rows)
unfolding get_login_attempt clear_login_attempts
get_login_attempt-clear_login_attempts k ip [] = ground arith
get_login_attempt-clear_login_attempts k ip (a ∷ rows) = ground (
  arith,
  eq_iff ip k,
  eq_iff a.ip k,
  eq_iff a.ip ip,
  get_login_attempt-clear_login_attempts k ip rows,
)
