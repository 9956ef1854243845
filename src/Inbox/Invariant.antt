-- ===== src/Inbox/Invariant.antt =====
-- handler/activitypub.go: what every request to the inbox keeps of the store.
use murlog.Prelude.{ℕ, ◌≡◌, ◌∙◌, refl, Option, String}
use murlog.Store.{Store}
use murlog.Store.Posts.Invariant.{PostsInv, created, changed, deleted, PostStep-Inv}
use murlog.Store.Posts.Frames.{
  SameRelations, local_posts, is_remote-is_local, create_post-SameRelations,
  create_post-local_posts, update_post-SameRelations, update_post-local_posts,
  delete_post-SameRelations, delete_post-local_posts, create_attachment-SameRelations,
  create_attachment-posts,
}
use murlog.Store.Interactions.Frames.{
  Same, create_notification-Same, create_favourite-Same, create_reblog-Same,
  upsert_remote_actor-Same, delete_notification_by_actor-Same, delete_favourite-Same,
  delete_reblog-Same,
}
use murlog.Store.Followers.Frames.{
  SamePosts, create_follower-SamePosts, delete_follower-SamePosts, update_follow-SamePosts,
  delete_follow-SamePosts,
}
use murlog.Store.Followers.Invariant.{
  Inv, Step, Step-Inv, follower_created, actor_deleted, follow_updated, follow_deleted,
}
use murlog.Signature.{Crypto}
use murlog.Worker.{World}
use murlog.Inbox.{Activity, Site}
use murlog.Inbox.Effects.{
  Effect, Effects, done, next, actor_cached, noted, unnoted, favourited, unfavourited, reblogged,
  unreblogged, follower_added, follower_dropped, follow_changed, follow_dropped, post_added,
  post_changed, post_dropped, attached,
}
use murlog.Inbox.Requests.{Delivery, handle_inbox}
use murlog.Inbox.Requests.Reach.{handle_inbox-Effects}

-- the invariants of the follows and followers, and of the posts
pub record Sound (s : Store) : Type 0 where
  pub relations : Inv s
  pub posts : PostsInv s

-- a store that is sound if the one before was, with the same local posts
pub record Held (s s' : Store) : Type 0 where
  pub sound : Sound s'
  pub locals : local_posts s' ≡ local_posts s

Inv-SameRelations : (s s' : Store) → SameRelations s s' → Inv s → Inv s'
Inv-SameRelations s s' same v = record {
  counted = rw (same.personas, same.follows, same.followers) v.counted;
  follower_ids = rw same.followers v.follower_ids;
  follow_ids = rw same.follows v.follow_ids;
}

PostsInv-Same :
    (s s' : Store) → s'.personas ≡ s.personas → s'.posts ≡ s.posts → PostsInv s → PostsInv s'
PostsInv-Same s s' personas posts v = record {
  counted = rw (personas, posts) v.counted;
  post_ids = rw posts v.post_ids;
}

-- a call that leaves all four tables
pub Held-Same : (s s' : Store) → Same s s' → Sound s → Held s s'
Held-Same s s' same v = record {
  sound = record {
    relations =
        Inv-SameRelations s s'
          (record { personas = same.personas; follows = same.follows; followers = same.followers })
          v.relations;
    posts = PostsInv-Same s s' same.personas same.posts v.posts;
  };
  locals = rw same.posts refl;
}

-- a call that changes follows or followers
pub Held-relations : (s s' : Store) → Step s s' → SamePosts s s' → Sound s → Held s s'
Held-relations s s' step same v = record {
  sound = record {
    relations = Step-Inv step v.relations;
    posts = record {
      counted = rw same.posts (same.numbers s.posts v.posts.counted);
      post_ids = rw same.posts v.posts.post_ids;
    };
  };
  locals = rw same.posts refl;
}

-- a call that changes remote posts
Held-posts :
    (s s' : Store)
    → PostsInv s'
    → SameRelations s s'
    → local_posts s' ≡ local_posts s
    → Sound s
    → Held s s'
Held-posts s s' posts same locals v = record {
  sound = record { relations = Inv-SameRelations s s' same v.relations; posts = posts };
  locals = locals;
}

Effect-Held : {s s' : Store} → Effect s s' → Sound s → Held s s'
Effect-Held (actor_cached {s} a) v = Held-Same _ _ (upsert_remote_actor-Same a s) v
Effect-Held (noted {s} {s'} n e) v = Held-Same s s' (create_notification-Same n s s' e) v
Effect-Held (unnoted {s} persona actor kind post) v =
    Held-Same _ _ (delete_notification_by_actor-Same persona actor kind post s) v
Effect-Held (favourited {s} {s'} r e) v = Held-Same s s' (create_favourite-Same r s s' e) v
Effect-Held (unfavourited {s} post actor) v = Held-Same _ _ (delete_favourite-Same post actor s) v
Effect-Held (reblogged {s} {s'} r e) v = Held-Same s s' (create_reblog-Same r s s' e) v
Effect-Held (unreblogged {s} post actor) v = Held-Same _ _ (delete_reblog-Same post actor s) v
Effect-Held (follower_added {s} {s'} f e) v =
    Held-relations s s' (follower_created f e) (create_follower-SamePosts f s s' e) v
Effect-Held (follower_dropped {s} persona actor) v =
    Held-relations _ _ (actor_deleted persona actor) (delete_follower-SamePosts persona actor s) v
Effect-Held (follow_changed {s} f) v =
    Held-relations _ _ (follow_updated f) (update_follow-SamePosts f s) v
Effect-Held (follow_dropped {s} id) v =
    Held-relations _ _ (follow_deleted id) (delete_follow-SamePosts id s) v
Effect-Held (post_added {s} {s'} texts p r e) v =
    let away = is_remote-is_local p r in
    Held-posts s s' (PostStep-Inv (created texts p e) v.posts)
      (create_post-SameRelations texts p s s' e away) (create_post-local_posts texts p s s' e away)
      v
Effect-Held (post_changed {s} texts p q m r same) v =
    Held-posts s _ (PostStep-Inv (changed texts p) v.posts) (update_post-SameRelations texts p q s)
      (update_post-local_posts texts p q s v.posts.post_ids m (is_remote-is_local q r) same) v
Effect-Held (post_dropped {s} {s'} q m r e) v =
    let away = is_remote-is_local q r in
    Held-posts s s' (PostStep-Inv (deleted q.id e) v.posts)
      (delete_post-SameRelations q s s' e v.posts.post_ids m away)
      (delete_post-local_posts q s s' e v.posts.post_ids m away) v
Effect-Held (attached {s} {s'} a e) v =
    let same = create_attachment-SameRelations a s s' e in
    let posts = create_attachment-posts a s s' e in
    Held-posts s s' (PostsInv-Same s s' same.personas posts v.posts) same (rw posts refl) v

Effects-Held : {s s' : Store} → Effects s s' → Sound s → Held s s'
Effects-Held done v = record { sound = v; locals = refl }
Effects-Held (next e es) v =
    let first = Effect-Held e v in
    let rest = Effects-Held es first.sound in
    record { sound = rest.sound; locals = rest.locals ∙ first.locals }

module _ (site : Site) (crypto : Crypto) (decode : String → Option Activity) (clock : ℕ)
    (d : Delivery) (w : World) (v : Sound w.store) where
  -- A request to the inbox, whatever it brings and whoever sends it, changes and removes no local
  -- post and adds none.
  pub handle_inbox-local_posts :
      local_posts (handle_inbox site crypto decode clock d w).1.store ≡ local_posts w.store
  handle_inbox-local_posts =
      (Effects-Held (handle_inbox-Effects site crypto decode clock d w) v).locals

  -- A request to the inbox keeps every persona's cached numbers of followers, follows and posts
  -- equal to the rows that they count, and the ids of these tables unique.
  pub handle_inbox-Sound : Sound (handle_inbox site crypto decode clock d w).1.store
  handle_inbox-Sound = (Effects-Held (handle_inbox-Effects site crypto decode clock d w) v).sound
