-- ===== src/Inbox/Changes/Reach.antt =====
-- handler/activitypub.go: the handlers of Inbox/Changes.antt as sequences of calls of the store.
use murlog.Prelude.{
  arith, true, ◌≡◌, refl, Option, none, some, String, str_eq, Option-cases, inl, inr, Bool-cases,
}
use murlog.Prelude.Tables.{any_row, In, find_row-In}
use murlog.Json.{Fields, as_object, get_text}
use murlog.Domain.Social.{Persona, Post, NotificationType}
use murlog.Store.{Store}
use murlog.Store.Posts.{has_uri, create_post, get_post_by_uri, is_remote, delete_post}
use murlog.Store.Interactions.{create_reblog}
use murlog.Worker.{World}
use murlog.Inbox.{Activity, Site, with_store, ensure_remote_actor_cached}
use murlog.Inbox.Uris.{extract_activity_object_uri, resolve_local_post, object_uri}
use murlog.Inbox.Effects.{
  Effects, done, one, and_then, reblogged, post_added, post_changed, post_dropped, follower_dropped,
  actor_cached, if-Effects, if-Effects-store, insert_new-Effects, ensure_cached-Effects,
  attempt-Effects,
}
use murlog.Inbox.Relations.{new_interaction}
use murlog.Inbox.Relations.Reach.{interact-Effects}
use murlog.Inbox.Notes.Reach.{store_remote_note-Effects}
use murlog.Inbox.Changes.{
  get, handle_inbox_announce, handle_inbox_create, handle_inbox_update, handle_inbox_delete,
  wrapper, announce_local, announce_note, announce_remote, announce_found, create_body,
  changed_note, update_found, handle_inbox_update_note, handle_inbox_update_actor, update_body,
  actor_types, may_delete, delete_found_post, delete_object,
}

module _ (site : Site) (persona : Persona) where
  announce_note-Effects :
      (actor : String) (o : Option Fields) (w : World)
      → Effects w.store (announce_note site persona actor o w).store
  unfolding announce_note
  announce_note-Effects actor none w = done
  announce_note-Effects actor (some obj) w =
      store_remote_note-Effects site persona obj actor actor w

  announce_remote-Effects :
      (actor uri : String) (o : Option Post) (w : World)
      → Effects w.store (announce_remote site persona actor uri o w).store
  unfolding announce_remote wrapper
  announce_remote-Effects actor uri none w = announce_note-Effects actor (site.fetch_note uri) w
  announce_remote-Effects actor uri (some existing) w =
      let w' = with_store (ensure_remote_actor_cached site actor) w in
      and_then (ensure_cached-Effects site actor w.store) (
        insert_new-Effects site
          (λ id. create_post site.texts (wrapper site persona actor existing.id id)) w'
          (λ id s s' e. post_added site.texts _ refl e))

  announce_found-Effects :
      (actor uri : String) (o : Option Post) (w : World)
      → Effects w.store (announce_found site persona actor uri o w).store
  unfolding announce_found announce_local
  announce_found-Effects actor uri (some p) w =
      interact-Effects site p.persona_id NotificationType.reblog actor p.id
        (λ id. create_reblog (new_interaction site p.id actor id)) w (λ id s s' e. reblogged _ e)
  announce_found-Effects actor uri none w =
      announce_remote-Effects actor uri (get_post_by_uri uri w.store) w

  pub handle_inbox_announce-Effects :
      (activity : Activity) (w : World)
      → Effects w.store (handle_inbox_announce site persona activity w).store
  unfolding handle_inbox_announce
  handle_inbox_announce-Effects activity w =
      let uri = extract_activity_object_uri activity in
      if-Effects-store w _ (str_eq uri "") done
        (announce_found-Effects activity.actor uri (resolve_local_post uri w.store) w)

  create_body-Effects :
      (actor : String) (o : Option Fields) (w : World)
      → Effects w.store (create_body site persona actor o w).store
  unfolding create_body
  create_body-Effects actor none w = done
  create_body-Effects actor (some obj) w = store_remote_note-Effects site persona obj actor "" w

  pub handle_inbox_create-Effects :
      (activity : Activity) (w : World)
      → Effects w.store (handle_inbox_create site persona activity w).store
  unfolding handle_inbox_create
  handle_inbox_create-Effects activity w =
      create_body-Effects activity.actor (as_object activity.body) w

  changed_note-id : (obj : Fields) (p : Post) → (changed_note site persona obj p).id ≡ p.id
  unfolding changed_note
  changed_note-id obj p = elim (Option-cases (as_object (get "contentMap" obj))) [
    | inl e ↦ rw (e, changed_note) refl
    | inr (m, e) ↦ rw (e, changed_note) refl
  ]

  update_found-Effects :
      (obj : Fields) (o : Option Post) (s : Store)
      → ((p : Post) → o ≡ some p → In p s.posts)
      → Effects s (update_found site persona obj o s)
  unfolding update_found
  update_found-Effects obj none s h = done
  update_found-Effects obj (some p) s h = elim (Bool-cases (is_remote p)) [
    | inl e ↦ rw e (one (post_changed site.texts _ p (h p refl) e (changed_note-id obj p)))
    | inr e ↦ rw e done
  ]

  handle_inbox_update_note-Effects :
      (obj : Fields) (s : Store) → Effects s (handle_inbox_update_note site persona obj s)
  unfolding handle_inbox_update_note
  handle_inbox_update_note-Effects obj s = if-Effects (str_eq (get_text "id" obj) "") done (
      update_found-Effects obj (get_post_by_uri (get_text "id" obj) s) s
        (λ p. find_row-In (has_uri (get_text "id" obj)) s.posts p))

  handle_inbox_update_actor-Effects :
      (obj : Fields) (s : Store) → Effects s (handle_inbox_update_actor site persona obj s)
  unfolding handle_inbox_update_actor
  handle_inbox_update_actor-Effects obj s =
      if-Effects (str_eq (get_text "id" obj) "") done (one (actor_cached _))

  update_body-Effects : (o : Option Fields) (s : Store) → Effects s (update_body site persona o s)
  unfolding update_body
  update_body-Effects none s = done
  update_body-Effects (some obj) s =
      if-Effects (str_eq (get_text "type" obj) "Note") (handle_inbox_update_note-Effects obj s) (
        if-Effects (any_row (str_eq (get_text "type" obj)) (actor_types site persona))
          (handle_inbox_update_actor-Effects obj s) done)

  pub handle_inbox_update-Effects :
      (activity : Activity) (w : World)
      → Effects w.store (handle_inbox_update site persona activity w).store
  unfolding handle_inbox_update
  handle_inbox_update-Effects activity w = update_body-Effects (as_object activity.body) w.store

  may_delete-is_remote :
      (actor : String) (p : Post) → may_delete site persona actor p ≡ true → is_remote p ≡ true
  may_delete-is_remote actor p h = ground arith

  delete_found_post-Effects :
      (actor : String) (o : Option Post) (s : Store)
      → ((p : Post) → o ≡ some p → In p s.posts)
      → Effects s (delete_found_post site persona actor o s)
  unfolding delete_found_post
  delete_found_post-Effects actor none s h = done
  delete_found_post-Effects actor (some p) s h =
      elim (Bool-cases (may_delete site persona actor p)) [
        | inl e ↦ rw e (
            attempt-Effects s (delete_post p.id s)
              (λ s' e'. post_dropped p (h p refl) (may_delete-is_remote actor p e) e'))
        | inr e ↦ rw e done
      ]

  pub handle_inbox_delete-Effects :
      (activity : Activity) (w : World)
      → Effects w.store (handle_inbox_delete site persona activity w).store
  unfolding handle_inbox_delete delete_object
  handle_inbox_delete-Effects activity w =
      let uri = object_uri activity.body in
      if-Effects (str_eq uri "") done (
        if-Effects (str_eq uri activity.actor) (one (follower_dropped persona.id activity.actor)) (
          delete_found_post-Effects activity.actor (get_post_by_uri uri w.store) w.store
            (λ p. find_row-In (has_uri uri) w.store.posts p)))
