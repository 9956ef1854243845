-- ===== src/Account.antt =====
-- murlog.go, handler/api_mur_auth.go and handler/api_mur_totp.go: the rules for passwords and user
-- names, and the owner's changes of the password and of the second factor. A password is the list of
-- its runes, a user name that of its bytes.
pub mod Names
pub mod Changes
mod Tests
use murlog.Prelude.{
  ℕ, suc, ◌+◌, Bool, true, false, not, ◌&&◌, ◌||◌, ◌==◌, if◌then◌else◌, ltb, leb, Option, none,
  some, List, [], ◌∷◌, String, str_eq, length, codes,
}
use murlog.Auth.{Site, Secrets}
use murlog.Rpc.{RpcCode, invalid_params, internal_error, unauthorized}

-- the flags of the loop of ValidatePassword
pub record Kinds : Type 0 where
  pub has_lower : Bool
  pub has_upper : Bool
  pub has_digit : Bool
  pub has_symbol : Bool

abbrev pub between : ℕ → ℕ → ℕ → Bool
between low high c = leb low c && leb c high

-- the switch
pub note_kind : ℕ → Kinds → Kinds
note_kind c k =
    if between b'a' b'z' c
    then record k { has_lower = true }
    else if between b'A' b'Z' c
    then record k { has_upper = true }
    else if between b'0' b'9' c
    then record k { has_digit = true }
    else record k { has_symbol = true }

pub scan_kinds : List ℕ → Kinds → Kinds
unfolding note_kind
scan_kinds [] k = k
scan_kinds (c ∷ s) k = scan_kinds s (note_kind c k)

abbrev pub one_if : Bool → ℕ
one_if true = 1
one_if false = 0

pub count_kinds : Kinds → ℕ
count_kinds k = one_if k.has_lower + one_if k.has_upper + one_if k.has_digit + one_if k.has_symbol

no_kinds : Kinds
no_kinds = record { has_lower = false; has_upper = false; has_digit = false; has_symbol = false }

-- the number of bytes of a rune in UTF-8
abbrev pub rune_len : ℕ → ℕ
rune_len c = if ltb c 0x80 then 1 else if ltb c 0x800 then 2 else if ltb c 0x1_0000 then 3 else 4

-- `len` of a Go string, which counts bytes
pub byte_len : List ℕ → ℕ
byte_len [] = 0
byte_len (c ∷ s) = rune_len c + byte_len s

-- ValidatePassword; `none` is no error
pub validate_password : List ℕ → Option String
unfolding scan_kinds count_kinds no_kinds
validate_password s =
    if ltb (byte_len s) 8
    then some "password must be at least 8 characters"
    else if ltb 128 (byte_len s)
    then some "password must be 128 characters or fewer"
    else if ltb (count_kinds (scan_kinds s no_kinds)) 3
    then some "password must contain at least 3 of: lowercase, uppercase, digit, symbol"
    else none

-- [a-z0-9_]
abbrev pub is_name_byte : ℕ → Bool
is_name_byte c = between b'a' b'z' c || (between b'0' b'9' c || c == b'_')

-- usernameRe on a text that is not empty
pub all_name_bytes : List ℕ → Bool
all_name_bytes [] = true
all_name_bytes (c ∷ s) = is_name_byte c && all_name_bytes s

-- ValidateUsername
pub validate_username : List ℕ → Option String
unfolding all_name_bytes
validate_username s =
    if ltb (length s) 1
    then some "username is required"
    else if ltb 30 (length s)
    then some "username must be 30 characters or fewer"
    else if all_name_bytes s
    then none
    else some "username must contain only lowercase letters, numbers, and underscores"

-- the answer of a method without a result
pub data Answer : Type 0 where
  done : Answer
  refused : RpcCode → String → Answer

set_password : Option String → Site → Site × Answer
set_password none site = (site, refused internal_error "internal error")
set_password (some hash) site = (record site { password_hash = hash }, done)

checked : Option String → Site × Answer → Site → Site × Answer
checked (some error) next site = (site, refused invalid_params error)
checked none next site = next

-- rpcAuthChangePassword; `hash_password` is bcrypt.GenerateFromPassword
pub change_password : Secrets → (String → Option String) → String → String → Site → Site × Answer
unfolding set_password checked
change_password secrets hash_password current new site =
    if str_eq current "" || str_eq new ""
    then (site, refused invalid_params "current_password and new_password are required")
    else checked (validate_password (codes new))
        (if str_eq site.password_hash ""
          then (site, refused internal_error "internal error")
          else if secrets.compare_hash site.password_hash current
          then set_password (hash_password new) site
          else (site, refused unauthorized "current password is incorrect"))
        site

-- rpcTOTPSetup, with the secret that GenerateSecret draws
pub totp_setup : String → Site → Site
totp_setup secret site = record site { totp_pending = secret }

-- rpcTOTPVerify
pub totp_verify : Secrets → ℕ → String → Site → Site × Answer
totp_verify secrets now code site =
    if str_eq code ""
    then (site, refused invalid_params "code is required")
    else if str_eq site.totp_pending ""
    then (site, refused invalid_params "no pending TOTP setup")
    else if secrets.validate_totp site.totp_pending code now
    then (record site { totp_secret = site.totp_pending; totp_pending = "" }, done)
    else (site, refused invalid_params "invalid code")

-- rpcTOTPDisable
pub totp_disable : Site → Site
totp_disable site = record site { totp_secret = ""; totp_pending = "" }

-- rpcTOTPStatus
pub totp_enabled : Site → Bool
totp_enabled site = not (str_eq site.totp_secret "")
