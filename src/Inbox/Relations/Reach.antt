-- ===== src/Inbox/Relations/Reach.antt =====
-- handler/activitypub.go: the handlers of Inbox/Relations.antt as sequences of calls of the store.
use murlog.Prelude.{refl, ℕ, ◌≡◌, Option, none, some, String, str_eq, Option-cases, inl, inr}
use murlog.Json.{Fields, as_object, get_text}
use murlog.Domain.Social.{Persona, Post, Follow, NotificationType}
use murlog.Store.{Store}
use murlog.Queue.{enqueue}
use murlog.Store.Followers.{create_follower}
use murlog.Store.Interactions.{create_favourite}
use murlog.Store.Interactions.Frames.{create_notification-Same}
use murlog.Worker.{World}
use murlog.Inbox.{Activity, Site, insert_new, with_store, ensure_remote_actor_cached}
use murlog.Inbox.Uris.{extract_activity_object_uri, resolve_local_post}
use murlog.Inbox.Effects.{
  Effect, Effects, done, one, next, and_then, if-Effects-store, noted, unnoted, favourited,
  unfavourited, unreblogged, follower_added, follower_dropped, follow_changed, follow_dropped,
  if-Effects, insert_new-Effects, ensure_cached-Effects,
}
use murlog.Inbox.Relations.{
  new_interaction, new_notification, handle_inbox_follow, handle_inbox_accept, handle_inbox_reject,
  handle_inbox_block, handle_inbox_undo, handle_inbox_like, announce_follower, enqueue_accept,
  accept_job, new_follower, accept_found, delete_found, undo_follow, undo_like, undo_announce,
  undone_post, undo_inner, undo_body, like_post, like_found,
}

pub notify-Effects :
    (site : Site) (persona : ℕ) (kind : NotificationType) (actor : String) (post : ℕ) (w : World)
    → Effects w.store (insert_new site (new_notification site persona kind actor post) w).store
notify-Effects site persona kind actor post w =
    insert_new-Effects site (new_notification site persona kind actor post) w
      (λ id s s' e. noted _ e)

pub notify-posts :
    (site : Site) (persona : ℕ) (kind : NotificationType) (actor : String) (post : ℕ) (w : World)
    → (insert_new site (new_notification site persona kind actor post) w).store.posts
      ≡ w.store.posts
notify-posts site persona kind actor post w =
    elim (Option-cases
      (new_notification site persona kind actor post (site.ext.new_id w.draws) w.store)) [
        | inl e ↦ rw e refl
        | inr (s', e) ↦ rw e (create_notification-Same _ w.store s' e).posts
      ]

-- what an interaction with a local post does
pub interact-Effects :
    (site : Site) (persona : ℕ) (kind : NotificationType) (actor : String) (post : ℕ)
    (create : ℕ → Store → Option Store) (w : World)
    → ((id : ℕ) (s s' : Store) → create id s ≡ some s' → Effect s s')
    → Effects w.store
        (insert_new site
          (new_notification site persona kind actor post)
          (insert_new site create (with_store (ensure_remote_actor_cached site actor) w))).store
interact-Effects site persona kind actor post create w f =
    let w' = with_store (ensure_remote_actor_cached site actor) w in
    and_then (ensure_cached-Effects site actor w.store) (
      and_then (insert_new-Effects site create w' f)
        (notify-Effects site persona kind actor post (insert_new site create w')))

module _ (site : Site) (persona : Persona) where
  enqueue_accept-Effects :
      (activity : Activity) (w : World)
      → Effects w.store (enqueue_accept site persona activity w).store
  unfolding enqueue_accept
  enqueue_accept-Effects activity w =
      elim (Option-cases (enqueue (accept_job site persona activity w.draws) w.queue)) [
        | inl e ↦ rw (e, enqueue_accept) done
        | inr (q, e) ↦ rw (e, enqueue_accept) done
      ]

  announce_follower-Effects :
      (activity : Activity) (w : World)
      → Effects w.store (announce_follower site persona activity w).store
  unfolding announce_follower
  announce_follower-Effects activity w =
      and_then (notify-Effects site persona.id NotificationType.follow activity.actor 0 w)
        (if-Effects-store _ _ persona.locked done (enqueue_accept-Effects activity _))

  pub handle_inbox_follow-Effects :
      (activity : Activity) (w : World)
      → Effects w.store (handle_inbox_follow site persona activity w).store
  unfolding handle_inbox_follow
  handle_inbox_follow-Effects activity w =
      let s = ensure_remote_actor_cached site activity.actor w.store in
      let cached = ensure_cached-Effects site activity.actor w.store in
      let follower = new_follower site persona activity (site.ext.new_id w.draws) in
      elim (Option-cases (create_follower follower s)) [
        | inl e ↦ rw (e, handle_inbox_follow) cached
        | inr (s', e) ↦
            rw (e, handle_inbox_follow)
              (and_then cached
                (next (follower_added follower e) (announce_follower-Effects activity _)))
      ]

  accept_found-Effects : (o : Option Follow) (s : Store) → Effects s (accept_found site persona o s)
  unfolding accept_found
  accept_found-Effects none s = done
  accept_found-Effects (some f) s = if-Effects f.accepted done (one (follow_changed _))

  pub handle_inbox_accept-Effects :
      (activity : Activity) (w : World)
      → Effects w.store (handle_inbox_accept site persona activity w).store
  unfolding handle_inbox_accept
  handle_inbox_accept-Effects activity w = accept_found-Effects _ w.store

  delete_found-Effects : (o : Option Follow) (s : Store) → Effects s (delete_found site persona o s)
  unfolding delete_found
  delete_found-Effects none s = done
  delete_found-Effects (some f) s = one (follow_dropped _)

  pub handle_inbox_reject-Effects :
      (activity : Activity) (w : World)
      → Effects w.store (handle_inbox_reject site persona activity w).store
  unfolding handle_inbox_reject
  handle_inbox_reject-Effects activity w = delete_found-Effects _ w.store

  pub handle_inbox_block-Effects :
      (activity : Activity) (w : World)
      → Effects w.store (handle_inbox_block site persona activity w).store
  unfolding handle_inbox_block
  handle_inbox_block-Effects activity w =
      next (follower_dropped persona.id activity.actor) (delete_found-Effects _ _)

  undo_like-Effects :
      (actor : String) (o : Option Post) (s : Store) → Effects s (undo_like site persona actor o s)
  unfolding undo_like
  undo_like-Effects actor none s = done
  undo_like-Effects actor (some p) s = next (unfavourited _ _) (one (unnoted _ _ _ _))

  undo_announce-Effects :
      (actor : String) (o : Option Post) (s : Store)
      → Effects s (undo_announce site persona actor o s)
  unfolding undo_announce
  undo_announce-Effects actor none s = done
  undo_announce-Effects actor (some p) s = next (unreblogged _ _) (one (unnoted _ _ _ _))

  undo_follow-Effects : (actor : String) (s : Store) → Effects s (undo_follow site persona actor s)
  unfolding undo_follow
  undo_follow-Effects actor s = next (follower_dropped _ _) (one (unnoted _ _ _ _))

  undo_inner-Effects :
      (actor : String) (inner : Fields) (s : Store)
      → Effects s (undo_inner site persona actor inner s)
  unfolding undo_inner
  undo_inner-Effects actor inner s =
      if-Effects (str_eq (get_text "type" inner) "Follow") (undo_follow-Effects actor s) (
        if-Effects (str_eq (get_text "type" inner) "Like")
          (undo_like-Effects actor (undone_post site persona inner s) s)
          (if-Effects (str_eq (get_text "type" inner) "Announce")
            (undo_announce-Effects actor (undone_post site persona inner s) s) done))

  undo_body-Effects :
      (actor : String) (o : Option Fields) (s : Store)
      → Effects s (undo_body site persona actor o s)
  unfolding undo_body
  undo_body-Effects actor none s = done
  undo_body-Effects actor (some inner) s = undo_inner-Effects actor inner s

  pub handle_inbox_undo-Effects :
      (activity : Activity) (w : World)
      → Effects w.store (handle_inbox_undo site persona activity w).store
  unfolding handle_inbox_undo
  handle_inbox_undo-Effects activity w =
      undo_body-Effects activity.actor (as_object activity.body) w.store

  like_found-Effects :
      (actor : String) (o : Option Post) (w : World)
      → Effects w.store (like_found site persona actor o w).store
  unfolding like_found like_post
  like_found-Effects actor none w = done
  like_found-Effects actor (some p) w =
      interact-Effects site p.persona_id NotificationType.favourite actor p.id
        (λ id. create_favourite (new_interaction site p.id actor id)) w
        (λ id s s' e. favourited _ e)

  pub handle_inbox_like-Effects :
      (activity : Activity) (w : World)
      → Effects w.store (handle_inbox_like site persona activity w).store
  unfolding handle_inbox_like
  handle_inbox_like-Effects activity w =
      if-Effects-store w _ (str_eq (extract_activity_object_uri activity) "") done (
        like_found-Effects activity.actor
          (resolve_local_post (extract_activity_object_uri activity) w.store) w)
