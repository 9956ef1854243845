-- ===== src/Auth/Lockout.antt =====
-- handler/api_mur_auth.go: how many passwords an address can try.
use mathlib.Core.Path.{subst}
use murlog.Prelude.{
  ℕ, suc, ◌+◌, ◌-◌, ◌*◌, ◌≤◌, Bool, true, false, ◌&&◌, ◌≡◌, ◌≢◌, ◌⊎◌, inl, inr, refl, ap, ◌∙◌, sym,
  arith, if◌then◌else◌, Option, none, some, List, [], ◌∷◌, All, String, str_eq, eq_iff, Bool-cases,
  leb,
}
use murlog.Auth.{
  login_lock_duration, login_max_attempts, LoginAttempt, get_login_attempt, clear_login_attempts,
  Site, Secrets, LoginAnswer, refused, logged_in, LoginRequest, record_failure, is_locked,
  is_before, grant, second_factor, login,
}
use murlog.Auth.Attempts.{
  get_login_attempt-record_login_failure, get_login_attempt-clear_login_attempts,
}

-- the answer to a password that was compared and found wrong
says_wrong : LoginAnswer → Bool
says_wrong (refused code message) = str_eq message "invalid password"
says_wrong (logged_in token) = false

-- The wrong passwords that requests from `ip` are told of, among requests from anywhere.
pub wrong_answers : Secrets → String → List (ℕ × LoginRequest) → Site → ℕ
unfolding says_wrong
wrong_answers secrets ip [] site = 0
wrong_answers secrets ip ((now, r) ∷ rs) site =
    let answer = login secrets now r site in
    let rest = wrong_answers secrets ip rs answer.0 in
    if str_eq r.ip ip && says_wrong answer.1 then suc rest else rest

login_wrong :
    (secrets : Secrets) (now : ℕ) (r : LoginRequest) (site : Site)
    → secrets.compare_hash site.password_hash r.password ≡ false
    → (((login secrets now r site).0.attempts ≡ site.attempts)
        × (says_wrong (login secrets now r site).1 ≡ false))
      ⊎ (((login secrets now r site).0.attempts ≡ record_failure now r.ip site.attempts)
          × (says_wrong (login secrets now r site).1 ≡ true)
          × (is_locked now r.ip site.attempts ≡ false))
unfolding login says_wrong
login_wrong secrets now r site h = ground arith

grant_attempts :
    (secrets : Secrets) (now : ℕ) (r : LoginRequest) (site : Site)
    → ((grant secrets now r site).0.attempts ≡ site.attempts)
      ⊎ ((grant secrets now r site).0.attempts ≡ clear_login_attempts r.ip site.attempts)
unfolding grant
grant_attempts secrets now r site = ground arith

login_attempts :
    (secrets : Secrets) (now : ℕ) (r : LoginRequest) (site : Site)
    → ((login secrets now r site).0.attempts ≡ site.attempts)
      ⊎ (((login secrets now r site).0.attempts ≡ clear_login_attempts r.ip site.attempts)
          ⊎ ((login secrets now r site).0.attempts ≡ record_failure now r.ip site.attempts))
unfolding login second_factor
login_attempts secrets now r site = ground (arith, grant_attempts secrets now r site)

login-password_hash :
    (secrets : Secrets) (now : ℕ) (r : LoginRequest) (site : Site)
    → (login secrets now r site).0.password_hash ≡ site.password_hash
unfolding login second_factor grant
login-password_hash secrets now r site = ground arith

get_login_attempt-record_failure :
    (k ip : String) (now : ℕ) (rows : List LoginAttempt)
    → ip ≢ k
    → get_login_attempt k (record_failure now ip rows) ≡ get_login_attempt k rows
unfolding record_failure
get_login_attempt-record_failure k ip now rows away = ground (
  arith,
  eq_iff ip k,
  get_login_attempt-record_login_failure k ip none rows,
  get_login_attempt-record_login_failure k ip (some (now + 300)) rows,
)

login_other :
    (secrets : Secrets) (now : ℕ) (k : String) (r : LoginRequest) (site : Site)
    → r.ip ≢ k
    → get_login_attempt k (login secrets now r site).0.attempts ≡ get_login_attempt k site.attempts
login_other secrets now k r site away = elim (login_attempts secrets now r site) [
  | inl e ↦ ap (get_login_attempt k) e
  | inr (inl e) ↦
      ap (get_login_attempt k) e
      ∙ ground (arith, eq_iff r.ip k, get_login_attempt-clear_login_attempts k r.ip site.attempts)
  | inr (inr e) ↦
      ap (get_login_attempt k) e ∙ get_login_attempt-record_failure k r.ip now site.attempts away
]

module _ (t0 t1 : ℕ) where
  -- the count and the lock of an address whose failures lie between t0 and t1
  IsPaced : ℕ × Option ℕ → Type 0
  IsPaced (n, none) = n ≤ 4
  IsPaced (n, some until) = (t0 + 300 * n ≤ until + 1200) × (until ≤ t1 + 300)

  IsPaced-bound : (a : ℕ × Option ℕ) → t0 ≤ t1 → IsPaced a → t0 + 300 * a.0 ≤ t1 + 1500
  unfolding IsPaced
  IsPaced-bound (n, none) h p = omega arith
  IsPaced-bound (n, some until) h p = omega (arith, p.0, p.1)

  IsPaced-step :
      (now : ℕ) (a : ℕ × Option ℕ)
      → t0 ≤ now
      → now ≤ t1
      → is_before now a.1 ≡ false
      → IsPaced a
      → IsPaced (a.0 + 1, if leb 5 (a.0 + 1) then some (now + 300) else none)
  unfolding IsPaced is_before
  IsPaced-step now (n, none) h0 h1 free p = ground arith
  IsPaced-step now (n, some until) h0 h1 free p = ground arith

record_failure_same :
    (ip : String) (now : ℕ) (rows : List LoginAttempt)
    → ip ≢ ""
    → get_login_attempt ip (record_failure now ip rows) ≡ (
      (get_login_attempt ip rows).0 + 1,
      if leb 5 ((get_login_attempt ip rows).0 + 1) then some (now + 300) else none,
    )
unfolding record_failure
record_failure_same ip now rows named = ground (
  arith,
  eq_iff ip "",
  eq_iff ip ip,
  get_login_attempt-record_login_failure ip ip none rows,
  get_login_attempt-record_login_failure ip ip (some (now + 300)) rows,
)

free_before :
    (now : ℕ) (ip : String) (rows : List LoginAttempt)
    → ip ≢ ""
    → is_locked now ip rows ≡ false
    → is_before now (get_login_attempt ip rows).1 ≡ false
unfolding is_locked
free_before now ip rows named h = ground (arith, eq_iff ip "")

module _ (secrets : Secrets) (ip hash : String) (t0 t1 : ℕ) where
  -- a request in the span whose password is wrong, if it comes from the address
  abbrev pub IsWrong : ℕ × LoginRequest → Type 0
  IsWrong (now, r) =
      (t0 ≤ now) × (now ≤ t1) × (r.ip ≡ ip → secrets.compare_hash hash r.password ≡ false)

  module _ (ordered : t0 ≤ t1) (named : ip ≢ "") where
    wrong_bound :
        (rs : List (ℕ × LoginRequest)) (site : Site)
        → All IsWrong rs
        → site.password_hash ≡ hash
        → IsPaced t0 t1 (get_login_attempt ip site.attempts)
        → t0 + 300 * ((get_login_attempt ip site.attempts).0 + wrong_answers secrets ip rs site)
          ≤ t1 + 1500
    unfolding wrong_answers
    wrong_bound [] site all same paced = omega (arith, IsPaced-bound t0 t1 _ ordered paced)
    wrong_bound ((now, r) ∷ rs) site all same paced =
        let site' = (login secrets now r site).0 in
        let same' = login-password_hash secrets now r site ∙ same in
        let rest = wrong_bound rs site' all.1 same' in
        elim (Bool-cases (str_eq r.ip ip)) [
          | inl at ↦
              let from : r.ip ≡ ip = (eq_iff r.ip ip).0 at in
              let wrong =
                ap (λ (h : String). secrets.compare_hash h r.password) same ∙ all.0.2 from in
              elim (login_wrong secrets now r site wrong) [
                | inl (kept, quiet) ↦
                    let kept' = ap (get_login_attempt ip) kept in
                    ground (arith, quiet, rest (subst (IsPaced t0 t1) (sym kept') paced), kept')
                | inr (recorded, told, free) ↦
                    let failed =
                      ap (get_login_attempt ip)
                        (recorded ∙ ap (λ (a : String). record_failure now a site.attempts) from)
                      ∙ record_failure_same ip now site.attempts named in
                    let free' =
                      ap (λ (a : String). is_locked now a site.attempts) (sym from) ∙ free in
                    let paced' =
                      IsPaced-step t0 t1 now (get_login_attempt ip site.attempts) all.0.0 all.0.1
                        (free_before now ip site.attempts named free') paced in
                    let bound = rest (subst (IsPaced t0 t1) (sym failed) paced') in
                    ground (arith, told, bound, failed)
              ]
          | inr away ↦
              let kept = login_other secrets now ip r site (λ e. ground (arith, eq_iff r.ip ip)) in
              ground (arith, rest (subst (IsPaced t0 t1) (sym kept) paced), kept)
        ]

-- An address that starts with no failures and only sends wrong passwords, within a span of time,
-- is told of at most five wrong passwords and one more for every five minutes of the span, whatever
-- requests other addresses send in between.
pub wrong_answers_bound :
    (secrets : Secrets) (ip : String) (t0 t1 : ℕ) (rs : List (ℕ × LoginRequest)) (site : Site)
    → t0 ≤ t1
    → ip ≢ ""
    → get_login_attempt ip site.attempts ≡ (0, none)
    → All (IsWrong secrets ip site.password_hash t0 t1) rs
    → login_lock_duration * wrong_answers secrets ip rs site
      ≤ login_lock_duration * login_max_attempts + (t1 - t0)
unfolding IsPaced
wrong_answers_bound secrets ip t0 t1 rs site ordered named clean all =
    let start : IsPaced t0 t1 (get_login_attempt ip site.attempts) =
      subst (IsPaced t0 t1) (sym clean) (omega arith) in
    omega (
      arith,
      ordered,
      wrong_bound secrets ip site.password_hash t0 t1 ordered named rs site all refl start,
    )
