-- ===== src/Inbox/Effects.antt =====
-- handler/activitypub.go: what the inbox does to the store, as a step relation. Every handler's run
-- is a sequence of these steps, so that an invariant of the store is proved once for each step.
use murlog.Prelude.{Bool, false, if◌then◌else◌, ℕ, true, ◌≡◌, refl, Option, none, some, String}
use murlog.Prelude.Tables.{In}
use murlog.Domain.Social.{
  Post, Attachment, Follow, Follower, RemoteActor, Interaction, Notification, NotificationType,
}
use murlog.Store.{Store}
use murlog.Store.Posts.{Texts, is_remote, create_post, update_post, delete_post, create_attachment}
use murlog.Store.Followers.{
  create_follower, delete_follower_by_actor_uri, update_follow, delete_follow,
}
use murlog.Store.Interactions.{
  create_notification, delete_notification_by_actor, create_favourite, delete_favourite,
  create_reblog, delete_reblog, upsert_remote_actor,
}
use murlog.Worker.{World}
use murlog.Inbox.{attempt, Actor, Site, insert_new, ensure_remote_actor_cached, cache_fetched}

-- One call of the store that changes it. Posts are added, changed and dropped only as remote ones.
pub data Effect : Store → Store → Type 0 where
  actor_cached : {s : Store} (a : RemoteActor) → Effect s (upsert_remote_actor a s)
  noted : {s s' : Store} (n : Notification) → create_notification n s ≡ some s' → Effect s s'
  unnoted :
      {s : Store} (persona : ℕ) (actor : String) (kind : NotificationType) (post : ℕ)
      → Effect s (delete_notification_by_actor persona actor kind post s)
  favourited : {s s' : Store} (r : Interaction) → create_favourite r s ≡ some s' → Effect s s'
  unfavourited : {s : Store} (post : ℕ) (actor : String) → Effect s (delete_favourite post actor s)
  reblogged : {s s' : Store} (r : Interaction) → create_reblog r s ≡ some s' → Effect s s'
  unreblogged : {s : Store} (post : ℕ) (actor : String) → Effect s (delete_reblog post actor s)
  follower_added : {s s' : Store} (f : Follower) → create_follower f s ≡ some s' → Effect s s'
  follower_dropped :
      {s : Store} (persona : ℕ) (actor : String)
      → Effect s (delete_follower_by_actor_uri persona actor s)
  follow_changed : {s : Store} (f : Follow) → Effect s (update_follow f s)
  follow_dropped : {s : Store} (id : ℕ) → Effect s (delete_follow id s)
  post_added :
      {s s' : Store} (texts : Texts) (p : Post)
      → is_remote p ≡ true
      → create_post texts p s ≡ some s'
      → Effect s s'
  post_changed :
      {s : Store} (texts : Texts) (p q : Post)
      → In q s.posts
      → is_remote q ≡ true
      → p.id ≡ q.id
      → Effect s (update_post texts p s)
  post_dropped :
      {s s' : Store} (q : Post)
      → In q s.posts
      → is_remote q ≡ true
      → delete_post q.id s ≡ some s'
      → Effect s s'
  attached : {s s' : Store} (a : Attachment) → create_attachment a s ≡ some s' → Effect s s'

-- a sequence of calls
pub data Effects : Store → Store → Type 0 where
  done : {s : Store} → Effects s s
  next : {s t u : Store} → Effect s t → Effects t u → Effects s u

pub one : {s t : Store} → Effect s t → Effects s t
one e = next e done

pub and_then : {s t u : Store} → Effects s t → Effects t u → Effects s u
and_then done es' = es'
and_then (next e es) es' = next e (and_then es es')

-- a call whose error is dropped
pub attempt-Effects :
    (s : Store) (o : Option Store)
    → ((s' : Store) → o ≡ some s' → Effect s s')
    → Effects s (attempt s o)
attempt-Effects s none f = done
attempt-Effects s (some s') f = one (f s' refl)

pub if-Effects :
    {s t u : Store} (b : Bool) → Effects s t → Effects s u → Effects s (if b then t else u)
if-Effects true es es' = es
if-Effects false es es' = es'

pub if-Effects-store :
    {s : Store} (w w' : World) (b : Bool)
    → Effects s w.store
    → Effects s w'.store
    → Effects s (if b then w else w').store
if-Effects-store w w' true es es' = es
if-Effects-store w w' false es es' = es'

pub insert_new-Effects :
    (site : Site) (create : ℕ → Store → Option Store) (w : World)
    → ((id : ℕ) (s s' : Store) → create id s ≡ some s' → Effect s s')
    → Effects w.store (insert_new site create w).store
insert_new-Effects site create w f = attempt-Effects w.store _ (f (site.ext.new_id w.draws) w.store)

cache_fetched-Effects :
    (site : Site) (o : Option Actor) (s : Store) → Effects s (cache_fetched site o s)
unfolding cache_fetched
cache_fetched-Effects site none s = done
cache_fetched-Effects site (some actor) s = one (actor_cached _)

pub ensure_cached-Effects :
    (site : Site) (uri : String) (s : Store) → Effects s (ensure_remote_actor_cached site uri s)
unfolding ensure_remote_actor_cached
ensure_cached-Effects site uri s = if-Effects _ done (cache_fetched-Effects site _ s)
