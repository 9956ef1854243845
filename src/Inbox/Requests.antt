-- ===== src/Inbox/Requests.antt =====
-- handler/activitypub.go: handleInbox and verifyInboxSignature.
pub mod Reach
pub mod Guards
use murlog.Prelude.{ℕ, Bool, not, ◌&&◌, ◌||◌, if◌then◌else◌, Option, none, some, String, str_eq}
use murlog.Prelude.Strings.{before_char, has_suffix, trim_suffix, truncate_runes}
use murlog.Prelude.Tables.{find_row}
use murlog.Domain.Social.{Persona}
use murlog.Store.Interactions.{is_blocked}
use murlog.Signature.{
  Crypto, Request, header, verify_digest, verify_request, parse_signature_key_id,
}
use murlog.Worker.{World}
use murlog.Inbox.{Activity, Site, Actor}
use murlog.Inbox.Relations.{
  handle_inbox_follow, handle_inbox_accept, handle_inbox_reject, handle_inbox_block,
  handle_inbox_undo, handle_inbox_like,
}
use murlog.Inbox.Changes.{
  handle_inbox_announce, handle_inbox_create, handle_inbox_update, handle_inbox_delete,
}

-- a POST to an inbox; `body` is what the reader of at most 1 << 20 bytes gives, or none if it fails
pub record Delivery : Type 0 where
  pub username : String
  pub request : Request
  pub body : Option String

-- the status of a response
pub data Status : Type 0 where
  accepted bad_request unauthorized not_found : Status

-- the Actor URI that a keyId belongs to
pub key_owner : String → String
key_owner key_id = elim (before_char b'#' key_id) [
  | some uri ↦ uri
  | none ↦
      if has_suffix "/main-key" key_id
      then trim_suffix "/main-key" key_id
      else if has_suffix "/publickey" key_id
      then trim_suffix "/publickey" key_id
      else key_id
]

-- The activity types that have a handler.
pub data Verb : Type 0 where
  follow undo create like announce block delete update accept reject other : Verb

pub verb_of : String → Verb
verb_of kind =
    if str_eq kind "Follow"
    then follow
    else if str_eq kind "Undo"
    then undo
    else if str_eq kind "Create"
    then create
    else if str_eq kind "Like"
    then like
    else if str_eq kind "Announce"
    then announce
    else if str_eq kind "Block"
    then block
    else if str_eq kind "Delete"
    then delete
    else if str_eq kind "Update"
    then update
    else if str_eq kind "Accept"
    then accept
    else if str_eq kind "Reject"
    then reject
    else other

-- the activities that a blocked actor may still send
abbrev pub is_exempt : String → Bool
is_exempt kind = str_eq kind "Block" || str_eq kind "Undo"

module _ (site : Site) where
  -- the switch of handleInbox
  pub handle_verb : Verb → Persona → Activity → World → World
  handle_verb follow = handle_inbox_follow site
  handle_verb undo = handle_inbox_undo site
  handle_verb create = handle_inbox_create site
  handle_verb like = handle_inbox_like site
  handle_verb announce = handle_inbox_announce site
  handle_verb block = handle_inbox_block site
  handle_verb delete = handle_inbox_delete site
  handle_verb update = handle_inbox_update site
  handle_verb accept = handle_inbox_accept site
  handle_verb reject = handle_inbox_reject site
  handle_verb other = λ persona activity w. w

-- `decode` is json.Unmarshal into an Activity, and `clock` the time in nanoseconds
module _ (site : Site) (crypto : Crypto) (decode : String → Option Activity) (clock : ℕ) where
  verify_key : Request → String → String → Option Actor → Option String
  verify_key r body owner none = none
  verify_key r body owner (some actor) =
      if not (str_eq actor.public_key_pem "")
        && verify_request crypto clock r actor.public_key_pem body
      then some owner
      else none

  -- verifyInboxSignature; an error is `none`
  pub verify_inbox_signature : Request → String → Option String
  unfolding verify_key
  verify_inbox_signature r body = elim (parse_signature_key_id (header crypto "Signature" r)) [
    | none ↦ none
    | some key_id ↦ verify_key r body (key_owner key_id) (site.fetch_actor (key_owner key_id))
  ]

  -- handleInbox behind the check of the actor
  receive : Persona → Activity → World → Status × World
  unfolding verb_of handle_verb
  receive persona activity w =
      if not (is_exempt activity.kind) && is_blocked site.ext.hostname activity.actor w.store
      then (accepted, w)
      else (accepted, handle_verb site (verb_of activity.kind) persona activity w)

  check_actor : Persona → String → Option Activity → World → Status × World
  unfolding receive
  check_actor persona signer none w = (bad_request, w)
  check_actor persona signer (some activity) w =
      if str_eq activity.actor signer then receive persona activity w else (unauthorized, w)

  check_signature : Persona → String → Option String → World → Status × World
  unfolding check_actor
  check_signature persona body none w = (unauthorized, w)
  check_signature persona body (some signer) w = check_actor persona signer (decode body) w

  check_body : Persona → Request → Option String → World → Status × World
  unfolding check_signature
  check_body persona r none w = (bad_request, w)
  check_body persona r (some body) w =
      if str_eq (header crypto "Digest" r) "" || not (verify_digest crypto r body)
      then (unauthorized, w)
      else check_signature persona body (verify_inbox_signature r body) w

  check_persona : Option Persona → Delivery → World → Status × World
  unfolding check_body
  check_persona none d w = (not_found, w)
  check_persona (some persona) d w = check_body persona d.request d.body w

  -- handleInbox
  pub handle_inbox : Delivery → World → Status × World
  unfolding check_persona
  handle_inbox d w =
      check_persona (find_row (λ p. str_eq p.username d.username) w.store.personas) d w
