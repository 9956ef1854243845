-- ===== src/Inbox/Changes.antt =====
-- handler/activitypub.go: the activities Announce, Create, Update and Delete.
pub mod Reach
pub mod Authors
use murlog.Prelude.{
  ℕ, ◌==◌, ◌&&◌, if◌then◌else◌, Option, none, some, List, [], ◌∷◌, ◌++◌, String, str_eq, take, Bool,
  not,
}
use murlog.Prelude.Strings.{truncate_runes}
use murlog.Prelude.Tables.{any_row}
use murlog.Json.{Json, Fields, as_object, as_array, get, get_text, maybe_text}
use murlog.Domain.Social.{Persona, Post, RemoteActor, NotificationType, public, remote}
use murlog.Store.{Store}
use murlog.Store.Posts.{is_remote, get_post_by_uri, create_post, update_post, delete_post}
use murlog.Store.Followers.{delete_follower_by_actor_uri}
use murlog.Store.Interactions.{create_reblog, upsert_remote_actor}
use murlog.Worker.{World}
use murlog.Inbox.{
  Activity, Site, attempt, with_store, insert_new, ensure_remote_actor_cached, acct_of,
  resolve_image_url,
}
use murlog.Inbox.Relations.{new_notification, new_interaction}
use murlog.Inbox.Uris.{extract_activity_object_uri, resolve_local_post, object_uri}
use murlog.Inbox.Notes.{store_remote_note, content_map_of}

module _ (site : Site) (persona : Persona) where
  -- the row that stands for a reblog of the stored post `id_of`
  pub wrapper : String → ℕ → ℕ → Post
  wrapper actor id_of id = record {
    id = id;
    persona_id = persona.id;
    content = "";
    content_type = "";
    content_map = [];
    visibility = public;
    origin = remote;
    uri = "";
    actor_uri = "";
    in_reply_to_uri = "";
    mentions_json = "";
    hashtags_json = "";
    reblogged_by_uri = actor;
    reblog_of_post_id = id_of;
    summary = "";
    sensitive = Bool.false;
    created_at = site.now;
    updated_at = site.now;
  }

  announce_local : String → Post → World → World
  announce_local actor p w =
      insert_new site (new_notification site p.persona_id NotificationType.reblog actor p.id) (
        insert_new site (λ id. create_reblog (new_interaction site p.id actor id))
          (with_store (ensure_remote_actor_cached site actor) w))

  announce_note : String → Option Fields → World → World
  announce_note actor none w = w
  announce_note actor (some obj) w = store_remote_note site persona obj actor actor w

  announce_remote : String → String → Option Post → World → World
  unfolding wrapper announce_note
  announce_remote actor uri none w = announce_note actor (site.fetch_note uri) w
  announce_remote actor uri (some existing) w =
      insert_new site (λ id. create_post site.texts (wrapper actor existing.id id))
        (with_store (ensure_remote_actor_cached site actor) w)

  announce_found : String → String → Option Post → World → World
  unfolding announce_local announce_remote
  announce_found actor uri (some p) w = announce_local actor p w
  announce_found actor uri none w = announce_remote actor uri (get_post_by_uri uri w.store) w

  -- handleInboxAnnounce
  pub handle_inbox_announce : Activity → World → World
  unfolding announce_found
  handle_inbox_announce activity w =
      let uri = extract_activity_object_uri activity in
      if str_eq uri ""
      then w
      else announce_found activity.actor uri (resolve_local_post uri w.store) w

  create_body : String → Option Fields → World → World
  create_body actor none w = w
  create_body actor (some obj) w = store_remote_note site persona obj actor "" w

  -- handleInboxCreate
  pub handle_inbox_create : Activity → World → World
  unfolding create_body
  handle_inbox_create activity = create_body activity.actor (as_object activity.body)

  -- the post of a changed note; of `content` nothing is cut off here
  pub changed_note : Fields → Post → Post
  changed_note obj p = elim (as_object (get "contentMap" obj)) [
    | none ↦ record p { content = site.sanitize (get_text "content" obj); updated_at = site.now }
    | some _ ↦ record p {
      content = site.sanitize (get_text "content" obj);
      content_map = content_map_of site obj;
      updated_at = site.now;
    }
  ]

  update_found : Fields → Option Post → Store → Store
  unfolding changed_note
  update_found obj none s = s
  update_found obj (some p) s =
      if is_remote p then update_post site.texts (changed_note obj p) s else s

  -- handleInboxUpdateNote
  pub handle_inbox_update_note : Fields → Store → Store
  unfolding update_found
  handle_inbox_update_note obj s =
      let uri = get_text "id" obj in
      if str_eq uri "" then s else update_found obj (get_post_by_uri uri s) s

  or_blank : Option String → String
  or_blank none = ""
  or_blank (some s) = s

  custom_field : Option Fields → List (String × String)
  custom_field none = []
  custom_field (some m) =
      if str_eq (get_text "type" m) "PropertyValue" && not (str_eq (get_text "name" m) "")
      then (get_text "name" m, get_text "value" m) ∷ []
      else []

  custom_fields : List Json → List (String × String)
  unfolding custom_field
  custom_fields [] = []
  custom_fields (v ∷ vs) = custom_field (as_object v) ++ custom_fields vs

  -- the actor of an Update: a field that it does not name is blank
  pub changed_actor : Fields → RemoteActor
  unfolding or_blank custom_fields
  changed_actor obj = record {
    uri = get_text "id" obj;
    username = get_text "preferredUsername" obj;
    display_name = truncate_runes 100 (get_text "name" obj);
    summary = elim (maybe_text (get "summary" obj)) [
      | none ↦ ""
      | some v ↦ truncate_runes 3000 (site.sanitize v)
    ];
    inbox = get_text "inbox" obj;
    avatar_url = resolve_image_url (get "icon" obj);
    header_url = resolve_image_url (get "image" obj);
    featured_url = "";
    fields_json = elim (as_array (get "attachment" obj)) [
      | none ↦ ""
      | some att ↦ site.fields_json (take 20 (custom_fields att))
    ];
    acct = elim (maybe_text (get "preferredUsername" obj)) [
      | none ↦ ""
      | some v ↦ acct_of site v (get_text "id" obj)
    ];
    fetched_at = site.now;
  }

  -- handleInboxUpdateActor
  pub handle_inbox_update_actor : Fields → Store → Store
  unfolding changed_actor
  handle_inbox_update_actor obj s =
      if str_eq (get_text "id" obj) "" then s else upsert_remote_actor (changed_actor obj) s

  abbrev pub actor_types : List String
  actor_types = "Person" ∷ "Service" ∷ "Application" ∷ "Organization" ∷ "Group" ∷ []

  update_body : Option Fields → Store → Store
  unfolding handle_inbox_update_note handle_inbox_update_actor
  update_body none s = s
  update_body (some obj) s =
      let kind = get_text "type" obj in
      if str_eq kind "Note"
      then handle_inbox_update_note obj s
      else if any_row (str_eq kind) actor_types
      then handle_inbox_update_actor obj s
      else s

  -- handleInboxUpdate
  pub handle_inbox_update : Activity → World → World
  unfolding update_body
  handle_inbox_update activity = with_store (update_body (as_object activity.body))

  -- the condition of handleInboxDelete on the post that it found
  abbrev pub may_delete : String → Post → Bool
  may_delete actor p = is_remote p && (p.persona_id == persona.id && str_eq p.actor_uri actor)

  delete_found_post : String → Option Post → Store → Store
  delete_found_post actor none s = s
  delete_found_post actor (some p) s =
      if may_delete actor p then attempt s (delete_post p.id s) else s

  delete_object : String → String → Store → Store
  unfolding delete_found_post
  delete_object actor uri s =
      if str_eq uri ""
      then s
      else if str_eq uri actor
      then delete_follower_by_actor_uri persona.id actor s
      else delete_found_post actor (get_post_by_uri uri s) s

  -- handleInboxDelete
  pub handle_inbox_delete : Activity → World → World
  unfolding delete_object
  handle_inbox_delete activity =
      with_store (delete_object activity.actor (object_uri activity.body))
