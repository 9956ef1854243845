-- ===== src/Inbox/Notes.antt =====
-- handler/activitypub.go: storeRemoteNote, which keeps a note of another server as a post.
pub mod Reach
use Prim.Native.String.{◌++◌ as append}
use murlog.Prelude.{
  ℕ, zero, suc, ◌==◌, Bool, true, false, not, ◌||◌, ◌&&◌, if◌then◌else◌, Option, none, some, List,
  [], ◌∷◌, ◌++◌, String, str_eq, take,
}
use murlog.Prelude.Strings.{strip_prefix, trim_prefix, after_first, truncate_runes}
use murlog.Prelude.Tables.{any_row, find_row}
use murlog.Json.{
  Json, Fields, object, array, get, get_text, as_flag, as_number, as_object, as_array, text_fields,
}
use murlog.Id.{parse_id}
use murlog.Domain.Social.{Persona, Post, Attachment, NotificationType, remote}
use murlog.Store.{Store}
use murlog.Store.Posts.{
  Texts, is_local, get_post, get_post_by_uri, create_post, update_post, create_attachment,
}
use murlog.Worker.{World}
use murlog.Inbox.{Site, with_store, insert_new, ensure_remote_actor_cached}
use murlog.Inbox.Relations.{new_notification}
use murlog.Inbox.Uris.{detect_visibility}

abbrev pub max_post_content_length : ℕ
max_post_content_length = 3000

abbrev pub max_content_map_langs : ℕ
max_content_map_langs = 50

abbrev pub max_remote_tags : ℕ
max_remote_tags = 100

abbrev pub max_remote_attachments : ℕ
max_remote_attachments = 20

-- what is kept of a text of another server
clean : Site → String → String
clean site s = truncate_runes max_post_content_length (site.sanitize s)

clean_values : Site → List (String × String) → List (String × String)
unfolding clean
clean_values site [] = []
clean_values site ((k, v) ∷ m) = (k, clean site v) ∷ clean_values site m

-- The loop over contentMap. Go visits the languages in any order, here it is that of the map.
pub content_map_of : Site → Fields → List (String × String)
unfolding clean_values
content_map_of site obj = elim (as_object (get "contentMap" obj)) [
  | none ↦ []
  | some m ↦ clean_values site (take max_content_map_langs (text_fields m))
]

-- the time that `published` names, or that of the request
published_time : Site → String → ℕ
published_time site published = elim (site.parse_time published) [ none ↦ site.now | some t ↦ t ]

-- the author that the note names, or else the actor of the activity
author_of : Fields → String → String
author_of obj activity_actor =
    let actor = get_text "attributedTo" obj in if str_eq actor "" then activity_actor else actor

-- the post of a note, with its new id
unfoldable pub note_post : Site → Persona → Fields → String → String → ℕ → Post
unfolding clean content_map_of published_time author_of
note_post site persona obj activity_actor reblogged_by id = record {
  id = id;
  persona_id = persona.id;
  content = clean site (get_text "content" obj);
  content_type = "";
  content_map = content_map_of site obj;
  visibility = detect_visibility obj;
  origin = remote;
  uri = get_text "id" obj;
  actor_uri = author_of obj activity_actor;
  in_reply_to_uri = get_text "inReplyTo" obj;
  mentions_json = "";
  hashtags_json = "";
  reblogged_by_uri = reblogged_by;
  reblog_of_post_id = 0;
  summary = site.sanitize (get_text "summary" obj);
  sensitive = as_flag (get "sensitive" obj);
  created_at =
      (if str_eq (get_text "published" obj) ""
        then site.now
        else published_time site (get_text "published" obj));
  updated_at = site.now;
}

post_of_raw_id : Option ℕ → Store → Option Post
post_of_raw_id none s = none
post_of_raw_id (some id) s = get_post id s

-- strings.Split at "/posts/" into exactly two parts, whose second one is an id
post_of_rest : String → Store → Option Post
unfolding post_of_raw_id
post_of_rest rest s = elim (after_first "/posts/" rest) [
  | none ↦ none
  | some raw_id ↦ elim (after_first "/posts/" raw_id) [
    | some _ ↦ none
    | none ↦ post_of_raw_id (parse_id raw_id) s
  ]
]

-- the post that a note replies to
pub reply_parent : Site → String → Store → Option Post
unfolding post_of_rest
reply_parent site uri s = elim (get_post_by_uri uri s) [
  | some p ↦ some p
  | none ↦ elim (strip_prefix (append site.base "/users/") uri) [
    | none ↦ none
    | some rest ↦ post_of_rest rest s
  ]
]

-- The notification of a mention, and the personas that have had one.
pub notify_mention : Site → Post → ℕ → List ℕ × World → List ℕ × World
notify_mention site post persona (notified, w) = (
  persona ∷ notified,
  insert_new site (new_notification site persona NotificationType.mention post.actor_uri post.id) w,
)

notify_parent : Site → Post → Option Post → World → List ℕ × World
unfolding notify_mention
notify_parent site post none w = ([], w)
notify_parent site post (some parent) w =
    if is_local parent then notify_mention site post parent.persona_id ([], w) else ([], w)

-- the reply part of storeRemoteNote
notify_reply : Site → Post → World → List ℕ × World
unfolding notify_parent
notify_reply site post w =
    if str_eq post.in_reply_to_uri ""
    then ([], w)
    else notify_parent site post (reply_parent site post.in_reply_to_uri w.store) w

-- the tags: the first hundred of an array, or a single object
pub raw_tags : Json → List Json
raw_tags (array vs) = elim (as_array (array vs)) [ none ↦ [] | some arr ↦ take max_remote_tags arr ]
raw_tags (object fs) = object fs ∷ []
raw_tags _ = []

-- the local persona that an actor URI names
pub local_persona : Site → String → Store → Option Persona
local_persona site href s =
    find_row (λ p. str_eq (append site.base (append "/users/" p.username)) href) s.personas

notify_persona : Site → Post → Option Persona → List ℕ × World → List ℕ × World
unfolding notify_mention
notify_persona site post none st = st
notify_persona site post (some p) st =
    if any_row (λ n. n == p.id) st.0 then st else notify_mention site post p.id st

-- a tag of type Mention
mention_tag : Site → Post → Fields → List ℕ × World → List ℕ × World
unfolding notify_persona
mention_tag site post tag st =
    let href = get_text "href" tag in
    if str_eq href "" then st else notify_persona site post (local_persona site href st.1.store) st

notify_tag : Site → Post → Option Fields → List ℕ × World → List ℕ × World
unfolding mention_tag
notify_tag site post none st = st
notify_tag site post (some tag) st =
    if str_eq (get_text "type" tag) "Mention" then mention_tag site post tag st else st

-- the mentions of the loop over the tags
pub notify_tags : Site → Post → List Json → List ℕ × World → List ℕ × World
unfolding notify_tag
notify_tags site post [] st = st
notify_tags site post (t ∷ ts) st = notify_tags site post ts (notify_tag site post (as_object t) st)

hashtag_of : Texts → Option Fields → List String
hashtag_of texts none = []
hashtag_of texts (some tag) =
    let name = trim_prefix "#" (get_text "name" tag) in
    if str_eq (get_text "type" tag) "Hashtag" && not (str_eq name "")
    then texts.lower name ∷ []
    else []

-- the hashtags of the loop over the tags
pub hashtags_of : Texts → List Json → List String
unfolding hashtag_of
hashtags_of texts [] = []
hashtags_of texts (t ∷ ts) = hashtag_of texts (as_object t) ++ hashtags_of texts ts

-- SetHashtags and UpdatePost
set_hashtags : Site → Post → List String → Store → Store
set_hashtags site post [] s = s
set_hashtags site post (t ∷ ts) s =
    update_post site.texts (record post { hashtags_json = site.texts.tags_json (t ∷ ts) }) s

-- the attachment of a JSON object
attachment_of : Site → Post → Fields → ℕ → Attachment
attachment_of site post att id = record {
  id = id;
  post_id = post.id;
  file_path = get_text "url" att;
  mime_type = get_text "mediaType" att;
  alt = get_text "name" att;
  width = as_number (get "width" att);
  height = as_number (get "height" att);
  created_at = site.now;
}

-- what the loop over the attachments does not skip
pub is_attachment : Site → Option Fields → Bool
is_attachment site none = false
is_attachment site (some att) =
    (str_eq (get_text "type" att) "Document" || str_eq (get_text "type" att) "Image")
    && (not (str_eq (get_text "url" att) "") && site.is_safe_url (get_text "url" att))

add_attachment : Site → Post → Option Fields → World → World
unfolding attachment_of
add_attachment site post none w = w
add_attachment site post (some att) w =
    insert_new site (λ id. create_attachment (attachment_of site post att id)) w

-- the loop over the attachments, with the number that it may still add
pub add_attachments : Site → Post → ℕ → List Json → World → World
unfolding is_attachment add_attachment
add_attachments site post zero vs w = w
add_attachments site post (suc n) [] w = w
add_attachments site post (suc n) (v ∷ vs) w = elim (is_attachment site (as_object v)) [
  | true ↦ add_attachments site post n vs (add_attachment site post (as_object v) w)
  | false ↦ add_attachments site post (suc n) vs w
]

attach_all : Site → Post → Option (List Json) → World → World
unfolding add_attachments
attach_all site post none w = w
attach_all site post (some vs) w = add_attachments site post max_remote_attachments vs w

-- the author's and the reblogger's rows
cache_actors : Site → Post → Store → Store
cache_actors site post s =
    let s' = ensure_remote_actor_cached site post.actor_uri s in
    if str_eq post.reblogged_by_uri "" || str_eq post.reblogged_by_uri post.actor_uri
    then s'
    else ensure_remote_actor_cached site post.reblogged_by_uri s'

-- the part of storeRemoteNote behind its CreatePost
pub follow_up : Site → Fields → Post → World → World
unfolding notify_reply set_hashtags attach_all cache_actors
follow_up site obj post w =
    let tags = raw_tags (get "tag" obj) in
    let w' = (notify_tags site post tags (notify_reply site post w)).1 in
    let w'' = with_store (set_hashtags site post (hashtags_of site.texts tags)) w' in
    with_store (cache_actors site post) (attach_all site post (as_array (get "attachment" obj)) w'')

store_note : Site → Fields → Post → World → World
unfolding follow_up
store_note site obj post w = elim (create_post site.texts post w.store) [
  | none ↦ record w { draws = suc (w.draws) }
  | some s ↦ follow_up site obj post (record w { store = s; draws = suc (w.draws) })
]

-- storeRemoteNote
pub store_remote_note : Site → Persona → Fields → String → String → World → World
unfolding store_note
store_remote_note site persona obj activity_actor reblogged_by w =
    let uri = get_text "id" obj in
    if not (str_eq (get_text "type" obj) "Note") || str_eq uri ""
    then w
    else elim (get_post_by_uri uri w.store) [
      | some _ ↦ w
      | none ↦
          store_note site obj
            (note_post site persona obj activity_actor reblogged_by (site.ext.new_id w.draws)) w
    ]
