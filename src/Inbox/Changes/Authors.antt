-- ===== src/Inbox/Changes/Authors.antt =====
-- handler/activitypub.go: who may delete a post through the inbox.
use murlog.Prelude.{
  Bool, true, false, not, ◌&&◌, ◌==◌, ◌≡◌, refl, Option, none, some, String, str_eq, Bool-cases,
  inl, inr,
}
use murlog.Prelude.Tables.{In, select, find_row-In, select-delete_where}
use murlog.Prelude.Keys.{IdsUnique, All-key}
use murlog.Domain.Social.{Persona, Post}
use murlog.Store.{Store}
use murlog.Store.Posts.{delete_post, get_post_by_uri, has_post_id, has_uri}
use murlog.Store.Posts.Counters.{post_id}
use murlog.Store.Posts.Invariant.{delete_post-posts}
use murlog.Store.Followers.Frames.{delete_follower-SamePosts}
use murlog.Worker.{World}
use murlog.Inbox.{Activity, Site, attempt}
use murlog.Inbox.Uris.{object_uri}
use murlog.Inbox.Changes.{is_remote, handle_inbox_delete, delete_object, delete_found_post}

module _ (site : Site) (persona : Persona) where
  -- a remote post that the persona has received from the actor
  abbrev is_theirs : String → Post → Bool
  is_theirs actor p = is_remote p && (p.persona_id == persona.id && str_eq p.actor_uri actor)

  -- the posts that a Delete of the actor leaves, whatever it names
  abbrev pub kept : String → Post → Bool
  kept actor p = not (is_theirs actor p)

  delete_one :
      (actor : String) (p : Post) (s : Store) (o : Option Store)
      → delete_post p.id s ≡ o
      → IdsUnique post_id s.posts
      → In p s.posts
      → is_theirs actor p ≡ true
      → select (kept actor) (attempt s o).posts ≡ select (kept actor) s.posts
  delete_one actor p s none e u m may = refl
  delete_one actor p s (some s') e u m may = rw (delete_post-posts p.id s s' e) (
      select-delete_where (has_post_id p.id) (kept actor) s.posts
        (All-key post_id (λ r. kept actor r ≡ false) p s.posts u m (rw may refl)))

  delete_found_post-kept :
      (actor : String) (o : Option Post) (s : Store)
      → IdsUnique post_id s.posts
      → ((p : Post) → o ≡ some p → In p s.posts)
      → select (kept actor) (delete_found_post site persona actor o s).posts
        ≡ select (kept actor) s.posts
  unfolding delete_found_post
  delete_found_post-kept actor none s u found = refl
  delete_found_post-kept actor (some p) s u found = elim (Bool-cases (is_theirs actor p)) [
    | inl e ↦ rw e (delete_one actor p s (delete_post p.id s) refl u (found p refl) e)
    | inr e ↦ rw e refl
  ]

  -- A Delete removes no post but a remote one of the receiving persona whose author sent it: all other
  -- posts stay as they are.
  pub handle_inbox_delete-kept :
      (activity : Activity) (w : World)
      → IdsUnique post_id w.store.posts
      → select (kept activity.actor) (handle_inbox_delete site persona activity w).store.posts
        ≡ select (kept activity.actor) w.store.posts
  unfolding handle_inbox_delete delete_object
  handle_inbox_delete-kept activity w u =
      let uri = object_uri activity.body in
      elim (Bool-cases (str_eq uri "")) [
        | inl e ↦ rw e refl
        | inr e ↦ elim (Bool-cases (str_eq uri activity.actor)) [
          | inl a ↦
              rw (e, a, (delete_follower-SamePosts persona.id activity.actor w.store).posts) refl
          | inr a ↦
              rw (e, a)
                (delete_found_post-kept activity.actor (get_post_by_uri uri w.store) w.store u
                  (λ p. find_row-In (has_uri uri) w.store.posts p))
        ]
      ]
