-- ===== src/Account/Changes.antt =====
-- handler/api_mur_auth.go and handler/api_mur_totp.go: when the password and the second factor change.
use murlog.Prelude.{
  false, ℕ, true, ◌≡◌, ◌≢◌, ◌||◌, str_eq, ◌⊎◌, inl, inr, refl, ap, ◌∙◌, arith, Option, none, some,
  List, [], ◌∷◌, String, codes,
}
use murlog.Prelude.Tables.{In}
use murlog.Auth.{Site, Secrets}
use murlog.Account.{Answer, done, validate_password, totp_setup, totp_verify, totp_disable}

-- why auth.change_password may refuse
pub data Refusal (secrets : Secrets) (hash_password : String → Option String) (current new : String)
    (site : Site) : Type 0 where
  missing :
      (str_eq current "" || str_eq new "") ≡ true → Refusal secrets hash_password current new site
  weak :
      (error : String)
      → validate_password (codes new) ≡ some error
      → Refusal secrets hash_password current new site
  no_password : str_eq site.password_hash "" ≡ true → Refusal secrets hash_password current new site
  wrong :
      secrets.compare_hash site.password_hash current ≡ false
      → Refusal secrets hash_password current new site
  unhashed : hash_password new ≡ none → Refusal secrets hash_password current new site

-- what auth.change_password may do: it refuses and changes nothing, or the old password is right, the
-- new one is accepted, and its hash is the only change
pub data PasswordChange (secrets : Secrets) (hash_password : String → Option String)
    (current new : String) (site : Site) (r : Site × Answer) : Type 0 where
  kept :
      Refusal secrets hash_password current new site
      → r.0 ≡ site
      → r.1 ≢ done
      → PasswordChange secrets hash_password current new site r
  changed :
      (hash : String)
      → secrets.compare_hash site.password_hash current ≡ true
      → validate_password (codes new) ≡ none
      → hash_password new ≡ some hash
      → r ≡ (record site { password_hash = hash }, done)
      → PasswordChange secrets hash_password current new site r

-- the calls of the owner that concern the second factor
pub data Call : Type 0 where
  set_up : String → Call
  verify : ℕ → String → Call
  disable : Call

pub call : Secrets → Call → Site → Site
call secrets (set_up secret) site = totp_setup secret site
call secrets (verify now code) site = (totp_verify secrets now code site).0
call secrets disable site = totp_disable site

pub calls : Secrets → List Call → Site → Site
unfolding call
calls secrets [] site = site
calls secrets (c ∷ cs) site = calls secrets cs (call secrets c site)

-- where a second factor can come from: it was there, it is switched off, or a code confirmed it
pub data IsConfirmed (secrets : Secrets) (before : String) (cs : List Call) (secret : String)
    : Type 0 where
  unchanged : secret ≡ before → IsConfirmed secrets before cs secret
  off : secret ≡ "" → IsConfirmed secrets before cs secret
  confirmed :
      (now : ℕ) (code : String)
      → In (verify now code) cs
      → secrets.validate_totp secret code now ≡ true
      → IsConfirmed secrets before cs secret

totp_verify_lem :
    (secrets : Secrets) (now : ℕ) (code : String) (site : Site)
    → ((totp_verify secrets now code site).0.totp_secret ≡ site.totp_secret)
      ⊎ (((totp_verify secrets now code site).0.totp_secret ≡ site.totp_pending)
          × (secrets.validate_totp site.totp_pending code now ≡ true))
unfolding totp_verify
totp_verify_lem secrets now code site = ground arith

call-IsConfirmed :
    (secrets : Secrets) (c : Call) (cs : List Call) (site : Site)
    → IsConfirmed secrets site.totp_secret (c ∷ cs) (call secrets c site).totp_secret
unfolding call totp_setup totp_disable
call-IsConfirmed secrets (set_up secret) cs site = unchanged refl
call-IsConfirmed secrets disable cs site = off refl
call-IsConfirmed secrets (verify now code) cs site = elim (totp_verify_lem secrets now code site) [
  | inl same ↦ unchanged same
  | inr (same, valid) ↦
      confirmed now code (inl refl)
        (ap (λ (s : String). secrets.validate_totp s code now) same ∙ valid)
]

later-IsConfirmed :
    (secrets : Secrets) (before middle after : String) (c : Call) (cs : List Call)
    → IsConfirmed secrets before (c ∷ cs) middle
    → IsConfirmed secrets middle cs after
    → IsConfirmed secrets before (c ∷ cs) after
later-IsConfirmed secrets before middle after c cs h (off e) = off e
later-IsConfirmed secrets before middle after c cs h (confirmed now code at e) =
    confirmed now code (inr at) e
later-IsConfirmed secrets before middle after c cs (unchanged f) (unchanged e) = unchanged (e ∙ f)
later-IsConfirmed secrets before middle after c cs (off f) (unchanged e) = off (e ∙ f)
later-IsConfirmed secrets before middle after c cs (confirmed now code at f) (unchanged e) =
    confirmed now code at (ap (λ (s : String). secrets.validate_totp s code now) e ∙ f)

-- After any sequence of these calls, the second factor is the one from before, or is off, or is a
-- secret that a code in one of the calls has confirmed.
pub calls-IsConfirmed :
    (secrets : Secrets) (cs : List Call) (site : Site)
    → IsConfirmed secrets site.totp_secret cs (calls secrets cs site).totp_secret
unfolding calls
calls-IsConfirmed secrets [] site = unchanged refl
calls-IsConfirmed secrets (c ∷ cs) site =
    later-IsConfirmed secrets _ _ _ c cs (call-IsConfirmed secrets c cs site)
      (calls-IsConfirmed secrets cs (call secrets c site))
