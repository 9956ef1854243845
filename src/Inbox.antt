-- ===== src/Inbox.antt =====
-- handler/activitypub.go: the inbox. What a request brings and what its handlers share; each handler
-- takes the world to the world it leaves, and answers 202.
pub mod Uris
pub mod Relations
pub mod Notes
pub mod Changes
pub mod Requests
pub mod Tests
pub mod Effects
pub mod Invariant
use Prim.Native.String.{◌++◌ as append}
use murlog.Prelude.{
  ◌||◌, ℕ, suc, Bool, not, if◌then◌else◌, Option, none, some, List, String, str_eq,
}
use murlog.Json.{Json, Fields, as_object, get_text}
use murlog.Domain.Social.{Persona, RemoteActor}
use murlog.Store.{Store}
use murlog.Store.Posts.{Texts}
use murlog.Store.Interactions.{get_remote_actor, upsert_remote_actor}
use murlog.Externals.{Externals}
use murlog.Worker.{World}

-- activitypub.Activity
pub record Activity : Type 0 where
  pub id : String
  pub kind : String
  pub actor : String
  pub body : Json

-- activitypub.Actor; `fields` is its ResolveActorFields
pub record Actor : Type 0 where
  pub id : String
  pub preferred_username : String
  pub name : String
  pub summary : String
  pub inbox : String
  pub icon : Json
  pub image : Json
  pub fields : List (String × String)
  pub public_key_pem : String

-- What a handler takes from outside: the server's base URL, the time of the request, what other
-- servers answer, and the packages that are not in the repository.
pub record Site : Type 0 where
  pub base : String
  pub now : ℕ
  pub ext : Externals
  pub texts : Texts
  -- FetchActorSigned and FetchNoteSigned
  pub fetch_actor : String → Option Actor
  pub fetch_note : String → Option Fields
  -- the Host of url.Parse
  pub host : String → Option String
  -- ID.String of an id, the text that Id.string gives for its bytes
  pub id_text : ℕ → String
  -- IsSafeURL, SanitizeContentHTML, time.Parse of RFC 3339, and MustJSON of custom fields
  pub is_safe_url : String → Bool
  pub sanitize : String → String
  pub parse_time : String → Option ℕ
  pub fields_json : List (String × String) → String

-- a call whose error the caller drops
abbrev pub attempt : Store → Option Store → Store
attempt s none = s
attempt s (some s') = s'

abbrev pub with_store : (Store → Store) → World → World
with_store f w = record w { store = f w.store }

-- an INSERT of a row with a new id, whose error the caller drops
abbrev pub insert_new : Site → (ℕ → Store → Option Store) → World → World
insert_new site create w = record w {
  store = attempt w.store (create (site.ext.new_id w.draws) w.store);
  draws = suc (w.draws);
}

-- ResolveImageURL
pub resolve_image_url : Json → String
resolve_image_url v = elim (as_object v) [ none ↦ "" | some m ↦ get_text "url" m ]

-- the acct of an actor whose id is `uri`
pub acct_of : Site → String → String → String
acct_of site username uri = elim (site.host uri) [
  | none ↦ ""
  | some host ↦ append username (append "@" host)
]

-- the row that ensureRemoteActorCached writes
pub remote_actor_of : Site → Actor → RemoteActor
unfolding resolve_image_url acct_of
remote_actor_of site actor = record {
  uri = actor.id;
  username = actor.preferred_username;
  display_name = actor.name;
  summary = actor.summary;
  inbox = actor.inbox;
  avatar_url = resolve_image_url actor.icon;
  header_url = resolve_image_url actor.image;
  featured_url = "";
  fields_json = site.fields_json actor.fields;
  acct =
      if str_eq actor.preferred_username ""
      then ""
      else acct_of site actor.preferred_username actor.id;
  fetched_at = site.now;
}

cached_with_avatar : Option RemoteActor → Bool
cached_with_avatar none = Bool.false
cached_with_avatar (some a) = not (str_eq a.avatar_url "")

cache_fetched : Site → Option Actor → Store → Store
unfolding remote_actor_of
cache_fetched site none s = s
cache_fetched site (some actor) s = upsert_remote_actor (remote_actor_of site actor) s

-- ensureRemoteActorCached
pub ensure_remote_actor_cached : Site → String → Store → Store
unfolding cached_with_avatar cache_fetched
ensure_remote_actor_cached site uri s =
    if str_eq uri "" || cached_with_avatar (get_remote_actor uri s)
    then s
    else cache_fetched site (site.fetch_actor uri) s
