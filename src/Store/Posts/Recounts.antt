-- ===== src/Store/Posts/Recounts.antt =====
-- store/sqlite/post.go: what the cached number of posts leaves of the counters of follows and
-- followers.
use murlog.Prelude.{
  ℕ, Bool, ◌==◌, ◌≡◌, refl, some, none, List, [], ◌∷◌, All, inl, inr, Bool-cases, arith,
}
use murlog.Prelude.Tables.{update_where, any_row, select}
use murlog.Domain.Social.{Persona, Post}
use murlog.Store.{Store}
use murlog.Store.Posts.{
  stored_post, Texts, create_post, insert_post, count_if_local, sync_post_tags, refused_post,
  is_local, count_local, refresh_post_count, delete_reblog_post, is_wrapper, is_referred, drop_all,
}
use murlog.Store.Followers.Counters.{HasCounts}
use murlog.Store.Followers.Invariant.{Inv}

recounted-All :
    (s : Store) (persona n : ℕ) (ps : List Persona)
    → All (HasCounts s) ps
    → All (HasCounts s) (update_where (λ p. p.id == persona) (λ p. record p { post_count = n }) ps)
recounted-All s persona n [] c = tt
recounted-All s persona n (p ∷ ps) c = elim (Bool-cases (p.id == persona)) [
  | inl e ↦ rw e (c.0, recounted-All s persona n ps c.1)
  | inr e ↦ rw e (c.0, recounted-All s persona n ps c.1)
]

-- a change of the table of posts, then a refresh of one persona's number of posts
recounted-Inv :
    (s : Store) (posts : List Post) (persona : ℕ) (s' : Store)
    → s'.personas
      ≡ update_where
          (λ p. p.id == persona)
          (λ p. record p { post_count = count_local persona posts })
          s.personas
    → s'.follows ≡ s.follows
    → s'.followers ≡ s.followers
    → Inv s
    → Inv s'
recounted-Inv s posts persona s' personas follows followers v = record {
  counted =
      rw (personas, follows, followers)
        (recounted-All s persona (count_local persona posts) s.personas v.counted);
  follower_ids = rw followers v.follower_ids;
  follow_ids = rw follows v.follow_ids;
}

drop_all-others :
    (s : Store) (gone : List Post)
    → ((drop_all gone s).personas ≡ s.personas)
      × ((drop_all gone s).follows ≡ s.follows)
      × ((drop_all gone s).followers ≡ s.followers)
drop_all-others s [] = (refl, refl, refl)
drop_all-others s (p ∷ ps) = drop_all-others s ps

pub create_local_post-Inv :
    (texts : Texts) (p : Post) (s s' : Store)
    → create_post texts p s ≡ some s'
    → is_local p ≡ Bool.true
    → Inv s
    → Inv s'
unfolding create_post insert_post count_if_local sync_post_tags
create_local_post-Inv texts p s s' h at v = elim (Bool-cases (refused_post p s)) [
  | inl e ↦ let clash : none ≡ some s' = ground arith in cc
  | inr e ↦
      recounted-Inv s (stored_post p ∷ s.posts) p.persona_id s' (ground arith) (ground arith)
        (ground arith) v
]

pub delete_reblog_post-counters :
    (persona post : ℕ) (s s' : Store) → delete_reblog_post persona post s ≡ some s' → Inv s → Inv s'
unfolding delete_reblog_post
delete_reblog_post-counters persona post s s' h v =
    let gone = select (is_wrapper persona post) s.posts in
    let others = drop_all-others s gone in
    elim (Bool-cases (any_row (λ p. is_referred p.id s) gone)) [
      | inl e ↦ let clash : none ≡ some s' = ground arith in cc
      | inr e ↦
          let result : refresh_post_count persona (drop_all gone s) ≡ s' = ground arith in
          rw (← result) (
            recounted-Inv s (drop_all gone s).posts persona
              (refresh_post_count persona (drop_all gone s)) (rw others.0 refl) others.1 others.2 v)
    ]
