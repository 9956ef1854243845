-- ===== src/Store/Followers/Invariant.antt =====
-- store/sqlite/follow.go: the invariant of the two tables and the counters under every operation.
use murlog.Prelude.{
  ℕ, Bool, true, ◌≡◌, refl, inl, inr, ◌==◌, arith, Option, none, some, ◌∷◌, String, Bool-cases,
  Option-cases,
}
use murlog.Prelude.Tables.{delete_where, find_row}
use murlog.Prelude.Keys.{IdsUnique, update_where-IdsUnique, delete_where-IdsUnique}
use murlog.Domain.Social.{Follow, Follower}
use murlog.Store.{Store}
use murlog.Store.Followers.Counters.{
  refreshed_followers-Counted, refreshed_following-Counted, update_follow-Counted, Counted,
  create_follower-Counted, create_follow-Counted, delete_follower_by_actor_uri-Counted,
  delete_follower-Counted, delete_follow-Counted, approve_follower-Counted,
}
use murlog.Store.Followers.{
  domain_pattern, create_follower, refused_follower, create_follow, refused_follow,
  approve_follower, delete_follower, delete_follower_by_actor_uri, update_follow, delete_follow,
  refresh_owner, refresh_followers_count, refresh_following_count, delete_followers_by_actor_domain,
  delete_follows_by_target_domain, refresh_all_followers_counts, refresh_all_following_counts,
}

abbrev pub follower_id : Follower → ℕ
follower_id f = f.id

abbrev pub follow_id : Follow → ℕ
follow_id f = f.id

pub record Inv (s : Store) : Type 0 where
  pub counted : Counted s
  pub follower_ids : IdsUnique follower_id s.followers
  pub follow_ids : IdsUnique follow_id s.follows

-- the operations as steps; what fails changes nothing
pub data Step : Store → Store → Type 0 where
  follower_created : {s s' : Store} (f : Follower) → create_follower f s ≡ some s' → Step s s'
  follower_approved : {s : Store} (id : ℕ) → Step s (approve_follower id s)
  follower_deleted : {s : Store} (id : ℕ) → Step s (delete_follower id s)
  actor_deleted :
      {s : Store} (persona : ℕ) (actor : String)
      → Step s (delete_follower_by_actor_uri persona actor s)
  followers_purged :
      {s s' : Store} (like : String → String → Bool) (domain : String)
      → delete_followers_by_actor_domain like domain s ≡ some s'
      → Step s s'
  follow_created : {s s' : Store} (f : Follow) → create_follow f s ≡ some s' → Step s s'
  follow_updated : {s : Store} (f : Follow) → Step s (update_follow f s)
  follow_deleted : {s : Store} (id : ℕ) → Step s (delete_follow id s)
  follows_purged :
      {s s' : Store} (like : String → String → Bool) (domain : String)
      → delete_follows_by_target_domain like domain s ≡ some s'
      → Step s s'

-- a refresh of a counter touches neither table
refresh_owner-IdsUnique :
    (o : Option Follower) (s : Store)
    → IdsUnique follower_id s.followers
    → IdsUnique follow_id s.follows
    → IdsUnique follower_id (refresh_owner o s).followers
      × IdsUnique follow_id (refresh_owner o s).follows
refresh_owner-IdsUnique none s u w = (u, w)
refresh_owner-IdsUnique (some f) s u w = (u, w)

module _ (s : Store) (v : Inv s) where
  create_follower-Inv : (f : Follower) (s' : Store) → create_follower f s ≡ some s' → Inv s'
  unfolding create_follower
  create_follower-Inv f s' h = elim (Bool-cases (refused_follower f s)) [
    | inl e ↦ ground arith
    | inr e ↦
        let result : refresh_followers_count f.persona_id (record s { followers = f ∷ s.followers })
            ≡ s' =
          ground arith in
        let counted : Counted s' = create_follower-Counted f s s' v.counted h in
        rw (← result) (record {
          counted = rw (← result) at counted;
          follower_ids = (ground arith, v.follower_ids);
          follow_ids = v.follow_ids;
        })
  ]

  create_follow-Inv : (f : Follow) (s' : Store) → create_follow f s ≡ some s' → Inv s'
  unfolding create_follow
  create_follow-Inv f s' h = elim (Bool-cases (refused_follow f s)) [
    | inl e ↦ ground arith
    | inr e ↦
        let result : refresh_following_count f.persona_id (record s { follows = f ∷ s.follows })
            ≡ s' =
          ground arith in
        let counted : Counted s' = create_follow-Counted f s s' v.counted h in
        rw (← result) (record {
          counted = rw (← result) at counted;
          follower_ids = v.follower_ids;
          follow_ids = (ground arith, v.follow_ids);
        })
  ]

  approve_follower-Inv : (id : ℕ) → Inv (approve_follower id s)
  unfolding approve_follower
  approve_follower-Inv id =
      let approved =
        update_where-IdsUnique follower_id (λ f. f.id == id) (λ f. record f { approved = true })
          (λ _. refl) s.followers v.follower_ids in
      let ids = refresh_owner-IdsUnique _ _ approved v.follow_ids in
      record {
        counted = approve_follower-Counted id s v.follower_ids v.counted;
        follower_ids = ids.0;
        follow_ids = ids.1;
      }

  delete_follower-Inv : (id : ℕ) → Inv (delete_follower id s)
  unfolding delete_follower
  delete_follower-Inv id =
      let kept = delete_where-IdsUnique follower_id (λ f. f.id == id) s.followers v.follower_ids in
      let ids = refresh_owner-IdsUnique _ _ kept v.follow_ids in
      record {
        counted = delete_follower-Counted id s v.follower_ids v.counted;
        follower_ids = ids.0;
        follow_ids = ids.1;
      }

  delete_follower_by_actor_uri-Inv :
      (persona : ℕ) (actor : String) → Inv (delete_follower_by_actor_uri persona actor s)
  unfolding delete_follower_by_actor_uri
  delete_follower_by_actor_uri-Inv persona actor = record {
    counted = delete_follower_by_actor_uri-Counted persona actor s v.counted;
    follower_ids = delete_where-IdsUnique follower_id _ s.followers v.follower_ids;
    follow_ids = v.follow_ids;
  }

  update_follow-Inv : (f : Follow) → Inv (update_follow f s)
  unfolding update_follow
  update_follow-Inv f = record {
    counted = update_follow-Counted f s v.counted;
    follower_ids = v.follower_ids;
    follow_ids = update_where-IdsUnique follow_id _ _ (λ _. refl) s.follows v.follow_ids;
  }

  delete_follow-Inv : (id : ℕ) → Inv (delete_follow id s)
  unfolding delete_follow
  delete_follow-Inv id =
      let kept = delete_where-IdsUnique follow_id (λ f. f.id == id) s.follows v.follow_ids in
      let counted = delete_follow-Counted id s v.follow_ids v.counted in
      elim (Option-cases (find_row (λ f. f.id == id) s.follows)) [
        | inl e ↦
            rw (e, delete_follow)
              (record {
                counted = rw (e, delete_follow) at counted;
                follower_ids = v.follower_ids;
                follow_ids = kept;
              })
        | inr (f, e) ↦
            rw (e, delete_follow)
              (record {
                counted = rw (e, delete_follow) at counted;
                follower_ids = v.follower_ids;
                follow_ids = kept;
              })
      ]

  purge_followers-Inv :
      (like : String → String → Bool) (domain : String) (s' : Store)
      → delete_followers_by_actor_domain like domain s ≡ some s'
      → Inv s'
  unfolding delete_followers_by_actor_domain
  purge_followers-Inv like domain s' h =
      let purged = delete_where (λ f. like f.actor_uri (domain_pattern domain)) s.followers in
      let result : refresh_all_followers_counts (record s { followers = purged }) ≡ s' =
        ground arith in
      rw (← result) (record {
        counted = refreshed_followers-Counted purged s s.personas v.counted;
        follower_ids = delete_where-IdsUnique follower_id _ s.followers v.follower_ids;
        follow_ids = v.follow_ids;
      })

  purge_follows-Inv :
      (like : String → String → Bool) (domain : String) (s' : Store)
      → delete_follows_by_target_domain like domain s ≡ some s'
      → Inv s'
  unfolding delete_follows_by_target_domain
  purge_follows-Inv like domain s' h =
      let purged = delete_where (λ f. like f.target_uri (domain_pattern domain)) s.follows in
      let result : refresh_all_following_counts (record s { follows = purged }) ≡ s' =
        ground arith in
      rw (← result) (record {
        counted = refreshed_following-Counted purged s s.personas v.counted;
        follower_ids = v.follower_ids;
        follow_ids = delete_where-IdsUnique follow_id _ s.follows v.follow_ids;
      })

-- Each operation on follows and followers keeps every persona's cached counters equal to the
-- numbers of its approved followers and of its follows, and keeps the ids of both tables unique.
pub Step-Inv : {s s' : Store} → Step s s' → Inv s → Inv s'
Step-Inv (follower_created {s} {s'} f e) v = create_follower-Inv s v f s' e
Step-Inv (follower_approved {s} id) v = approve_follower-Inv s v id
Step-Inv (follower_deleted {s} id) v = delete_follower-Inv s v id
Step-Inv (actor_deleted {s} persona actor) v = delete_follower_by_actor_uri-Inv s v persona actor
Step-Inv (followers_purged {s} {s'} like domain e) v = purge_followers-Inv s v like domain s' e
Step-Inv (follow_created {s} {s'} f e) v = create_follow-Inv s v f s' e
Step-Inv (follow_updated {s} f) v = update_follow-Inv s v f
Step-Inv (follow_deleted {s} id) v = delete_follow-Inv s v id
Step-Inv (follows_purged {s} {s'} like domain e) v = purge_follows-Inv s v like domain s' e
