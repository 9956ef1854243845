-- ===== src/Auth/Sessions.antt =====
-- handler/rpc.go and handler/api_mur_auth.go: who is logged in, logging out, and a new password.
use murlog.Prelude.{
  ℕ, ◌+◌, Bool, true, false, not, ◌&&◌, ◌||◌, ◌≡◌, ◌⊎◌, inl, inr, refl, ap, ◌∙◌, arith,
  if◌then◌else◌, ltb, ◌==◌, Option, none, some, List, [], ◌∷◌, String, str_eq, eq_iff, Option-cases,
}
use murlog.Prelude.Tables.{delete_where}
use murlog.Auth.{
  Site, Secrets, Session, ApiToken, LoginRequest, logged_in, get_session, delete_session,
  get_api_token, create_session, grant, second_factor, login, session_duration, is_locked,
}

-- sess.ExpiresAt.After(time.Now()) of a session that is found
live_session : ℕ → Option Session → Bool
live_session now none = false
live_session now (some s) = ltb now s.expires_at

-- tok.ExpiresAt.IsZero() || tok.ExpiresAt.After(time.Now()) of a token that is found
not_expired : ℕ → Option ℕ → Bool
not_expired now none = true
not_expired now (some t) = ltb now t

live_token : ℕ → Option ApiToken → Bool
unfolding not_expired
live_token now none = false
live_token now (some t) = not_expired now t.expires_at

session_authed : Secrets → ℕ → Option String → Site → Bool
unfolding live_session
session_authed secrets now none site = false
session_authed secrets now (some token) site =
    live_session now (get_session (secrets.hash_token token) site.sessions)

-- isHTTPAuthed: the session cookie of a request if it has one, and its bearer token or ""
pub is_http_authed : Secrets → ℕ → Option String → String → Site → Bool
unfolding session_authed live_token
is_http_authed secrets now cookie bearer site =
    session_authed secrets now cookie site
    || (not (str_eq bearer "")
        && live_token now (get_api_token (secrets.hash_token bearer) site.api_tokens))

end_session : Secrets → Option String → Site → Site
end_session secrets none site = site
end_session secrets (some token) site = record site {
  sessions = delete_session (secrets.hash_token token) site.sessions;
}

-- DeleteAPIToken of the row that GetAPIToken finds
delete_found : Option ApiToken → List ApiToken → List ApiToken
delete_found none rows = rows
delete_found (some t) rows = delete_where (λ r. r.id == t.id) rows

-- rpcAuthLogout
pub logout : Secrets → Option String → String → Site → Site
unfolding end_session delete_found
logout secrets cookie bearer site =
    let site' = end_session secrets cookie site in
    if str_eq bearer "" then site' else record site' {
      api_tokens =
          delete_found (get_api_token (secrets.hash_token bearer) site'.api_tokens)
            site'.api_tokens;
    }

get_session-create_session :
    (s : Session) (rows rows' : List Session)
    → create_session s rows ≡ some rows'
    → get_session s.token_hash rows' ≡ some s
unfolding create_session get_session
get_session-create_session s rows rows' h = ground (arith, eq_iff s.token_hash s.token_hash)

grant_session :
    (secrets : Secrets) (now : ℕ) (r : LoginRequest) (site : Site) (token : String)
    → (grant secrets now r site).1 ≡ logged_in token
    → (token ≡ r.token)
      × (get_session (secrets.hash_token r.token) (grant secrets now r site).0.sessions
          ≡ some (record {
            id = r.session_id;
            token_hash = secrets.hash_token r.token;
            expires_at = now + session_duration;
            created_at = now;
          }))
unfolding grant
grant_session secrets now r site token h =
    let s : Session = record {
      id = r.session_id;
      token_hash = secrets.hash_token r.token;
      expires_at = now + session_duration;
      created_at = now;
    } in
    elim (Option-cases (create_session s site.sessions)) [
      | inl e ↦ ground (arith, e)
      | inr (rows, e) ↦ ground (arith, e, get_session-create_session s site.sessions rows e)
    ]

-- A login succeeds only with the password of the site, with a code of its second factor if it has
-- one, and from an address that is not locked.
pub login_safe :
    (secrets : Secrets) (now : ℕ) (r : LoginRequest) (site : Site) (token : String)
    → (login secrets now r site).1 ≡ logged_in token
    → (secrets.compare_hash site.password_hash r.password ≡ true)
      × ((site.totp_secret ≡ "") ⊎ (secrets.validate_totp site.totp_secret r.totp_code now ≡ true))
      × (is_locked now r.ip site.attempts ≡ false)
unfolding login second_factor
login_safe secrets now r site token h = ground (arith, eq_iff site.totp_secret "")

login_session :
    (secrets : Secrets) (now : ℕ) (r : LoginRequest) (site : Site) (token : String)
    → (login secrets now r site).1 ≡ logged_in token
    → (token ≡ r.token)
      × (get_session (secrets.hash_token r.token) (login secrets now r site).0.sessions
          ≡ some (record {
            id = r.session_id;
            token_hash = secrets.hash_token r.token;
            expires_at = now + session_duration;
            created_at = now;
          }))
unfolding login second_factor
login_session secrets now r site token h = ground (arith, grant_session secrets now r site token)

-- The token of a successful login authenticates a request for fourteen days, and not afterwards.
pub login-is_http_authed :
    (secrets : Secrets) (now t : ℕ) (r : LoginRequest) (site : Site) (token : String)
    → (login secrets now r site).1 ≡ logged_in token
    → is_http_authed secrets t (some token) "" (login secrets now r site).0
      ≡ ltb t (now + session_duration)
unfolding is_http_authed session_authed live_session
login-is_http_authed secrets now t r site token h =
    let (same, found) = login_session secrets now r site token h in
    ap
      (λ (c : String).
        live_session t (get_session (secrets.hash_token c) (login secrets now r site).0.sessions)
        || false)
      same
    ∙ rw found (ground arith)

get_session-delete_session :
    (hash : String) (rows : List Session) → get_session hash (delete_session hash rows) ≡ none
unfolding get_session delete_session
get_session-delete_session hash [] = refl
get_session-delete_session hash (s ∷ rows) = ground (arith, get_session-delete_session hash rows)

-- After a logout the cookie of the request authenticates nothing any more, at any time.
pub is_http_authed-logout :
    (secrets : Secrets) (t : ℕ) (token bearer : String) (site : Site)
    → is_http_authed secrets t (some token) "" (logout secrets (some token) bearer site) ≡ false
unfolding is_http_authed logout session_authed end_session live_session
is_http_authed-logout secrets t token bearer site =
    ground (arith, get_session-delete_session (secrets.hash_token token) site.sessions)
