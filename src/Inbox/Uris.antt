-- ===== src/Inbox/Uris.antt =====
-- handler/activitypub.go: the URIs in an activity, and the audience that a note names.
use murlog.Prelude.{ℕ, if◌then◌else◌, Option, none, some, List, [], ◌∷◌, ◌++◌, String, str_eq}
use murlog.Prelude.Strings.{after_last, has_suffix}
use murlog.Prelude.Tables.{any_row}
use murlog.Json.{Json, text, array, object, Fields, get, get_text, list_of}
use murlog.Domain.Social.{Post, Visibility, public, unlisted, followers_only, direct}
use murlog.Id.{parse_id}
use murlog.Store.{Store}
use murlog.Store.Posts.{get_post, get_post_by_uri, is_local}
use murlog.Inbox.{Activity}

-- the URI of an object that is its URI or has an `id`
pub object_uri : Json → String
object_uri (text s) = s
object_uri (object fs) = get_text "id" fs
object_uri _ = ""

-- extractActivityObjectURI
pub extract_activity_object_uri : Activity → String
unfolding object_uri
extract_activity_object_uri activity = object_uri activity.body

-- extractObjectURI
pub extract_object_uri : Fields → String
unfolding object_uri
extract_object_uri inner = object_uri (get "object" inner)

-- a row, if it is that of a local post
abbrev pub only_local : Option Post → Option Post
only_local none = none
only_local (some p) = if is_local p then some p else none

post_of_id : Option ℕ → Store → Option Post
post_of_id none s = none
post_of_id (some id) s = only_local (get_post id s)

-- the fall back of resolveLocalPost
post_of_path : String → Store → Option Post
unfolding post_of_id
post_of_path uri s = elim (after_last "/posts/" uri) [
  | none ↦ none
  | some raw_id ↦ post_of_id (parse_id raw_id) s
]

-- resolveLocalPost
pub resolve_local_post : String → Store → Option Post
unfolding post_of_path
resolve_local_post uri s = elim (only_local (get_post_by_uri uri s)) [
  | some p ↦ some p
  | none ↦ post_of_path uri s
]

abbrev pub texts_of : List Json → List String
texts_of [] = []
texts_of (text s ∷ vs) = s ∷ texts_of vs
texts_of (_ ∷ vs) = texts_of vs

-- toStringSlice
pub to_string_slice : Json → List String
to_string_slice (text s) = s ∷ []
to_string_slice (array vs) = texts_of (list_of vs)
to_string_slice _ = []

abbrev pub public_uri : String
public_uri = "https://www.w3.org/ns/activitystreams#Public"

-- detectVisibility
pub detect_visibility : Fields → Visibility
unfolding to_string_slice
detect_visibility obj =
    let to_list = to_string_slice (get "to" obj) in
    let cc_list = to_string_slice (get "cc" obj) in
    if any_row (λ v. str_eq v public_uri) to_list
    then public
    else if any_row (λ v. str_eq v public_uri) cc_list
    then unlisted
    else if any_row (λ v. has_suffix "/followers" v) (to_list ++ cc_list)
    then followers_only
    else direct
