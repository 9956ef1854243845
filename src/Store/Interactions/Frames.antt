-- ===== src/Store/Interactions/Frames.antt =====
-- store/sqlite/favourite.go, reblog.go, notification.go and remote_actor.go: what the operations of
-- Store/Interactions.antt leave alone.
use murlog.Prelude.{str_eq, ◌==◌, ◌||◌, false, ℕ, String, some, ◌∷◌, str_eq, ◌≡◌, refl, arith}
use murlog.Domain.Social.{
  Block, DomainBlock, Interaction, Notification, NotificationType, RemoteActor,
}
use murlog.Store.{Store}
use murlog.Prelude.Tables.{any_row}
use murlog.Store.Interactions.{
  mark_notification_read, mark_all_read, delete_notification, create_block, create_domain_block,
  delete_block, delete_domain_block, create_notification, delete_notification_by_actor,
  create_favourite, delete_favourite, create_reblog, delete_reblog, upsert_remote_actor,
}

-- the tables of personas, posts, follows and followers are the same
pub record Same (s s' : Store) : Type 0 where
  pub personas : s'.personas ≡ s.personas
  pub posts : s'.posts ≡ s.posts
  pub follows : s'.follows ≡ s.follows
  pub followers : s'.followers ≡ s.followers

pub Same-refl : (s : Store) → Same s s
Same-refl s = record { personas = refl; posts = refl; follows = refl; followers = refl }

pub create_notification-Same :
    (n : Notification) (s s' : Store) → create_notification n s ≡ some s' → Same s s'
unfolding create_notification
create_notification-Same n s s' h = record {
  personas = ground arith;
  posts = ground arith;
  follows = ground arith;
  followers = ground arith;
}

pub create_favourite-Same :
    (r : Interaction) (s s' : Store) → create_favourite r s ≡ some s' → Same s s'
unfolding create_favourite
create_favourite-Same r s s' h = record {
  personas = ground arith;
  posts = ground arith;
  follows = ground arith;
  followers = ground arith;
}

pub create_reblog-Same : (r : Interaction) (s s' : Store) → create_reblog r s ≡ some s' → Same s s'
unfolding create_reblog
create_reblog-Same r s s' h = record {
  personas = ground arith;
  posts = ground arith;
  follows = ground arith;
  followers = ground arith;
}

pub upsert_remote_actor-Same : (a : RemoteActor) (s : Store) → Same s (upsert_remote_actor a s)
unfolding upsert_remote_actor
upsert_remote_actor-Same a s = record {
  personas = refl;
  posts = refl;
  follows = refl;
  followers = refl;
}

pub delete_notification_by_actor-Same :
    (persona : ℕ) (actor : String) (kind : NotificationType) (post : ℕ) (s : Store)
    → Same s (delete_notification_by_actor persona actor kind post s)
unfolding delete_notification_by_actor
delete_notification_by_actor-Same persona actor kind post s = record {
  personas = refl;
  posts = refl;
  follows = refl;
  followers = refl;
}

pub delete_favourite-Same :
    (post : ℕ) (actor : String) (s : Store) → Same s (delete_favourite post actor s)
unfolding delete_favourite
delete_favourite-Same post actor s = record {
  personas = refl;
  posts = refl;
  follows = refl;
  followers = refl;
}

pub delete_reblog-Same :
    (post : ℕ) (actor : String) (s : Store) → Same s (delete_reblog post actor s)
unfolding delete_reblog
delete_reblog-Same post actor s = record {
  personas = refl;
  posts = refl;
  follows = refl;
  followers = refl;
}

pub create_block-Same : (b : Block) (s s' : Store) → create_block b s ≡ some s' → Same s s'
unfolding create_block
create_block-Same b s s' h = record {
  personas = ground arith;
  posts = ground arith;
  follows = ground arith;
  followers = ground arith;
}

pub create_domain_block-Same :
    (b : DomainBlock) (s s' : Store) → create_domain_block b s ≡ some s' → Same s s'
unfolding create_domain_block
create_domain_block-Same b s s' h = record {
  personas = ground arith;
  posts = ground arith;
  follows = ground arith;
  followers = ground arith;
}

pub delete_block-Same : (text : String) (s : Store) → Same s (delete_block text s)
unfolding delete_block
delete_block-Same text s = record {
  personas = refl;
  posts = refl;
  follows = refl;
  followers = refl;
}

pub delete_domain_block-Same : (text : String) (s : Store) → Same s (delete_domain_block text s)
unfolding delete_domain_block
delete_domain_block-Same text s = record {
  personas = refl;
  posts = refl;
  follows = refl;
  followers = refl;
}

pub mark_notification_read-Same : (id : ℕ) (s : Store) → Same s (mark_notification_read id s)
unfolding mark_notification_read
mark_notification_read-Same id s = record {
  personas = refl;
  posts = refl;
  follows = refl;
  followers = refl;
}

pub mark_all_read-Same : (persona : ℕ) (s : Store) → Same s (mark_all_read persona s)
unfolding mark_all_read
mark_all_read-Same persona s = record {
  personas = refl;
  posts = refl;
  follows = refl;
  followers = refl;
}

pub delete_notification-Same : (id : ℕ) (s : Store) → Same s (delete_notification id s)
unfolding delete_notification
delete_notification-Same id s = record {
  personas = refl;
  posts = refl;
  follows = refl;
  followers = refl;
}

pub create_block-fresh :
    (b : Block) (s : Store)
    → any_row (λ c. c.id == b.id || str_eq c.actor_uri b.actor_uri) s.blocks ≡ false
    → create_block b s ≡ some (record s { blocks = b ∷ s.blocks })
unfolding create_block
create_block-fresh b s e = rw e refl
