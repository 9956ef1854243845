-- ===== src/Store/Posts/Frames.antt =====
-- store/sqlite/post.go: what the operations on remote posts leave of the follows, the followers and
-- the personas, and of the local posts.
use murlog.Prelude.{true, false, ◌&&◌, ◌≡◌, refl, arith, none, some, List, inl, inr, Bool-cases}
use murlog.Prelude.Tables.{In, any_row, select, select-delete_where, select-update_where}
use murlog.Prelude.Keys.{IdsUnique, All-key, find_row_of_In}
use murlog.Domain.Social.{Post, Attachment}
use murlog.Store.{Store}
use murlog.Store.Posts.{
  Texts, is_local, is_remote, create_post, insert_post, count_if_local, sync_post_tags, update_post,
  updated, delete_post, count_owner, drop_post, get_post, has_post_id, is_referred,
  create_attachment,
}
use murlog.Store.Posts.Counters.{post_id, create_post-posts}
use murlog.Store.Posts.Invariant.{delete_post-posts, update_post-posts}

pub record SameRelations (s s' : Store) : Type 0 where
  pub personas : s'.personas ≡ s.personas
  pub follows : s'.follows ≡ s.follows
  pub followers : s'.followers ≡ s.followers

abbrev pub local_posts : Store → List Post
local_posts s = select is_local s.posts

pub is_remote-is_local : (p : Post) → is_remote p ≡ true → is_local p ≡ false
is_remote-is_local p h = ground arith

module _ (texts : Texts) (p : Post) (s s' : Store) (h : create_post texts p s ≡ some s')
    (away : is_local p ≡ false) where
  pub create_post-SameRelations : SameRelations s s'
  unfolding create_post insert_post count_if_local sync_post_tags
  create_post-SameRelations = record {
    personas = ground arith;
    follows = ground arith;
    followers = ground arith;
  }

  pub create_post-local_posts : local_posts s' ≡ local_posts s
  create_post-local_posts = rw (create_post-posts texts p s s' h, away) refl

module _ (texts : Texts) (p q : Post) (s : Store) where
  pub update_post-SameRelations : SameRelations s (update_post texts p s)
  unfolding update_post sync_post_tags
  update_post-SameRelations = record { personas = refl; follows = refl; followers = refl }

  pub update_post-local_posts :
      IdsUnique post_id s.posts
      → In q s.posts
      → is_local q ≡ false
      → p.id ≡ q.id
      → local_posts (update_post texts p s) ≡ local_posts s
  update_post-local_posts u m away same =
      rw (update_post-posts texts p s, same)
        (select-update_where (has_post_id q.id) is_local (updated p) (λ r. refl) s.posts
          (All-key post_id (λ r. is_local r ≡ false) q s.posts u m away))

module _ (q : Post) (s s' : Store) (h : delete_post q.id s ≡ some s')
    (u : IdsUnique post_id s.posts) (m : In q s.posts) (away : is_local q ≡ false) where
  pub delete_post-SameRelations : SameRelations s s'
  unfolding delete_post count_owner count_if_local
  delete_post-SameRelations =
      let found = find_row_of_In post_id q s.posts u m in
      elim (Bool-cases (any_row (has_post_id q.id) s.posts && is_referred q.id s)) [
        | inl e ↦ let clash : none ≡ some s' = ground arith in cc
        | inr e ↦
            let result : count_owner (get_post q.id s) (drop_post q.id s) ≡ s' = ground arith in
            rw (← result, found, away)
              (record { personas = refl; follows = refl; followers = refl })
      ]

  pub delete_post-local_posts : local_posts s' ≡ local_posts s
  delete_post-local_posts = rw (delete_post-posts q.id s s' h) (
      select-delete_where (has_post_id q.id) is_local s.posts
        (All-key post_id (λ r. is_local r ≡ false) q s.posts u m away))

-- an attachment leaves all of them
pub create_attachment-SameRelations :
    (a : Attachment) (s s' : Store) → create_attachment a s ≡ some s' → SameRelations s s'
unfolding create_attachment
create_attachment-SameRelations a s s' h = record {
  personas = ground arith;
  follows = ground arith;
  followers = ground arith;
}

pub create_attachment-posts :
    (a : Attachment) (s s' : Store) → create_attachment a s ≡ some s' → s'.posts ≡ s.posts
unfolding create_attachment
create_attachment-posts a s s' h = ground arith
