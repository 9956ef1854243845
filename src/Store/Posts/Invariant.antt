-- ===== src/Store/Posts/Invariant.antt =====
-- store/sqlite/post.go: the invariant of the table of posts under every operation.
use murlog.Prelude.{
  Option, none, some, ◌∷◌, [], List, ℕ, true, false, ◌&&◌, ◌≡◌, ◌≢◌, ◌∙◌, inl, inr, refl,
  Bool-cases, arith, All, All-mono, All-intro, String,
}
use murlog.Prelude.Tables.{
  All-from_In, In, In-select, select, any_row, update_where, delete_where, All-delete_where,
  count_where-update_where,
}
use murlog.Prelude.Keys.{IdsUnique, All-key, update_where-IdsUnique, delete_where-IdsUnique}
use murlog.Domain.Social.{Post}
use murlog.Store.{Store}
use murlog.Store.Posts.{
  Texts, create_post, insert_post, is_local, count_local, refresh_post_count, delete_post,
  count_owner, count_if_local, drop_post, drop_all, get_post, has_post_id, update_post,
  update_post_mentions, updated, is_wrapper, is_referred, sync_post_tags, delete_reblog_post,
}
use murlog.Store.Posts.Counters.{
  post_id, PostsCounted, create_post-posts, create_post-PostsCounted, update_post-PostsCounted,
  delete_post-PostsCounted, refresh-PostsCounted, same-PostsCounted, count_local-delete,
  other_persona,
}

pub record PostsInv (s : Store) : Type 0 where
  pub counted : PostsCounted s.posts s.personas
  pub post_ids : IdsUnique post_id s.posts

-- the operations as steps; what fails changes nothing
pub data PostStep : Store → Store → Type 0 where
  created :
      {s s' : Store} (texts : Texts) (p : Post) → create_post texts p s ≡ some s' → PostStep s s'
  changed : {s : Store} (texts : Texts) (p : Post) → PostStep s (update_post texts p s)
  mentioned :
      {s : Store} (now id : ℕ) (mentions : String)
      → PostStep s (update_post_mentions now id mentions s)
  deleted : {s s' : Store} (id : ℕ) → delete_post id s ≡ some s' → PostStep s s'
  reblog_deleted :
      {s s' : Store} (persona post : ℕ)
      → delete_reblog_post persona post s ≡ some s'
      → PostStep s s'

-- the refresh of a counter leaves the table
count_owner-posts : (o : Option Post) (s : Store) → (count_owner o s).posts ≡ s.posts
unfolding count_owner count_if_local
count_owner-posts none s = refl
count_owner-posts (some p) s = elim (Bool-cases (is_local p)) [
  | inl e ↦ rw e refl
  | inr e ↦ rw e refl
]

-- the table behind a DeletePost that is not refused
pub delete_post-posts :
    (id : ℕ) (s s' : Store)
    → delete_post id s ≡ some s'
    → s'.posts ≡ delete_where (has_post_id id) s.posts
unfolding delete_post
delete_post-posts id s s' h =
    elim (Bool-cases (any_row (has_post_id id) s.posts && is_referred id s)) [
      | inl e ↦ let clash : none ≡ some s' = ground arith in cc
      | inr e ↦
          let result : count_owner (get_post id s) (drop_post id s) ≡ s' = ground arith in
          rw (← result) (count_owner-posts (get_post id s) (drop_post id s))
    ]

create_post-fresh :
    (texts : Texts) (p : Post) (s s' : Store)
    → create_post texts p s ≡ some s'
    → any_row (has_post_id p.id) s.posts ≡ false
unfolding create_post insert_post
create_post-fresh texts p s s' h = ground arith

module _ (persona : ℕ) (s : Store) (u : IdsUnique post_id s.posts) where
  -- dropping rows of the persona
  drop_all-IdsUnique : (gone : List Post) → IdsUnique post_id (drop_all gone s).posts
  drop_all-IdsUnique [] = u
  drop_all-IdsUnique (p ∷ ps) = delete_where-IdsUnique post_id _ _ (drop_all-IdsUnique ps)

  drop_all-personas : (gone : List Post) → (drop_all gone s).personas ≡ s.personas
  drop_all-personas [] = refl
  drop_all-personas (p ∷ ps) = drop_all-personas ps

  drop_all-All :
      (P : Post → Type 0) (gone : List Post) → All P s.posts → All P (drop_all gone s).posts
  drop_all-All P [] all = all
  drop_all-All P (p ∷ ps) all = All-delete_where P _ _ (drop_all-All P ps all)

  -- the numbers of the other personas
  drop_all-count :
      (k : ℕ)
      → k ≢ persona
      → (gone : List Post) → All (λ p. In p s.posts × (p.persona_id ≡ persona)) gone
      → count_local k (drop_all gone s).posts ≡ count_local k s.posts
  drop_all-count k ne [] all = refl
  drop_all-count k ne (p ∷ ps) all =
      let rows = All-key post_id (λ r. r.persona_id ≡ persona) p s.posts u all.0.0 all.0.1 in
      count_local-delete p.id k (drop_all ps s).posts (
        All-mono (λ r own m. other_persona r.persona_id k (is_local r) (λ e. ne (e ∙ own m)))
          (drop_all ps s).posts (drop_all-All _ ps rows))
      ∙ drop_all-count k ne ps all.1

All-wrappers :
    (persona post : ℕ) (posts : List Post)
    → All (λ p. In p posts × (p.persona_id ≡ persona)) (select (is_wrapper persona post) posts)
All-wrappers persona post posts =
    All-from_In _ _ (λ p m.
      let found = In-select (is_wrapper persona post) p posts m in (found.0, owner p found.1))
  where
    owner : (p : Post) → is_wrapper persona post p ≡ true → p.persona_id ≡ persona
    owner p h = ground arith

delete_reblog_post-Inv :
    (persona post : ℕ) (s s' : Store)
    → delete_reblog_post persona post s ≡ some s'
    → PostsInv s
    → PostsInv s'
unfolding delete_reblog_post
delete_reblog_post-Inv persona post s s' h v =
    let gone = select (is_wrapper persona post) s.posts in
    elim (Bool-cases (any_row (λ p. is_referred p.id s) gone)) [
      | inl e ↦ let clash : none ≡ some s' = ground arith in cc
      | inr e ↦
          let result : refresh_post_count persona (drop_all gone s) ≡ s' = ground arith in
          rw (← result) (record {
            counted = rw (drop_all-personas persona s v.post_ids gone) (
                refresh-PostsCounted persona s.posts (drop_all gone s).posts
                  (λ k ne.
                    drop_all-count persona s v.post_ids k ne gone
                      (All-wrappers persona post s.posts))
                  s.personas v.counted);
            post_ids = drop_all-IdsUnique persona s v.post_ids gone;
          })
    ]

-- Each operation on posts keeps every persona's cached number of posts equal to the number of its
-- local posts, and keeps the ids of the posts unique.
pub PostStep-Inv : {s s' : Store} → PostStep s s' → PostsInv s → PostsInv s'
unfolding update_post update_post_mentions sync_post_tags
PostStep-Inv (created {s} {s'} texts p e) v = record {
  counted = create_post-PostsCounted texts p s s' e v.counted;
  post_ids = rw (create_post-posts texts p s s' e) (create_post-fresh texts p s s' e, v.post_ids);
}
PostStep-Inv (changed {s} texts p) v = record {
  counted = update_post-PostsCounted texts p s v.counted;
  post_ids = update_where-IdsUnique post_id _ (updated p) (λ _. refl) s.posts v.post_ids;
}
PostStep-Inv (mentioned {s} now id mentions) v = record {
  counted =
      same-PostsCounted s.posts _
        (λ k.
          count_where-update_where (has_post_id id) _ _ s.posts (All-intro _ (λ r e. refl) s.posts))
        s.personas v.counted;
  post_ids = update_where-IdsUnique post_id _ _ (λ _. refl) s.posts v.post_ids;
}
PostStep-Inv (deleted {s} {s'} id e) v = record {
  counted = delete_post-PostsCounted id s s' e v.post_ids v.counted;
  post_ids = rw (delete_post-posts id s s' e) (delete_where-IdsUnique post_id _ s.posts v.post_ids);
}
PostStep-Inv (reblog_deleted {s} {s'} persona post e) v =
    delete_reblog_post-Inv persona post s s' e v

pub update_post-posts :
    (texts : Texts) (p : Post) (s : Store)
    → (update_post texts p s).posts ≡ update_where (has_post_id p.id) (updated p) s.posts
unfolding update_post sync_post_tags
update_post-posts texts p s = refl
