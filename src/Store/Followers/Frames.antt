-- ===== src/Store/Followers/Frames.antt =====
-- store/sqlite/follow.go: what the operations on follows and followers leave of the posts and their
-- cached numbers.
use murlog.Prelude.{
  true, Option, Bool, ◌&&◌, str_eq, ℕ, ◌≡◌, refl, ◌==◌, arith, none, some, ◌∷◌, List, String, inl,
  inr, Bool-cases, Option-cases,
}
use murlog.Prelude.Tables.{All-update_where, find_row, delete_where}
use murlog.Domain.Social.{Post, Follow, Follower}
use murlog.Store.{Store}
use murlog.Store.Posts.Counters.{PostsCounted}
use murlog.Store.Followers.{
  count_followers, count_follows, refresh_following_count, refresh_owner, approve_follower,
  delete_follower, create_follow, refused_follow, delete_follows_by_target_domain,
  delete_followers_by_actor_domain, domain_pattern, refresh_all_following_counts,
  refresh_all_followers_counts, create_follower, refused_follower, delete_follower_by_actor_uri,
  update_follow, delete_follow, refresh_followers_count,
}

pub record SamePosts (s s' : Store) : Type 0 where
  pub posts : s'.posts ≡ s.posts
  pub numbers : (posts : List Post) → PostsCounted posts s.personas → PostsCounted posts s'.personas

pub create_follower-SamePosts :
    (f : Follower) (s s' : Store) → create_follower f s ≡ some s' → SamePosts s s'
unfolding create_follower
create_follower-SamePosts f s s' h = elim (Bool-cases (refused_follower f s)) [
  | inl e ↦ let clash : none ≡ some s' = ground arith in cc
  | inr e ↦
      let added : Store = record s { followers = f ∷ s.followers } in
      let result : refresh_followers_count f.persona_id added ≡ s' = ground arith in
      rw (← result) (record {
        posts = refl;
        numbers = λ posts c. All-update_where _ _ _ (λ p e. e) s.personas c;
      })
]

pub delete_follower-SamePosts :
    (persona : ℕ) (actor : String) (s : Store)
    → SamePosts s (delete_follower_by_actor_uri persona actor s)
unfolding delete_follower_by_actor_uri
delete_follower-SamePosts persona actor s = record {
  posts = refl;
  numbers = λ posts c. All-update_where _ _ _ (λ p e. e) s.personas c;
}

pub update_follow-SamePosts : (f : Follow) (s : Store) → SamePosts s (update_follow f s)
unfolding update_follow
update_follow-SamePosts f s = record { posts = refl; numbers = λ posts c. c }

pub delete_follow-SamePosts : (id : ℕ) (s : Store) → SamePosts s (delete_follow id s)
unfolding delete_follow
delete_follow-SamePosts id s = elim (Option-cases (find_row (λ f. f.id == id) s.follows)) [
  | inl e ↦ rw (e, delete_follow) (record { posts = refl; numbers = λ posts c. c })
  | inr (f, e) ↦
      rw (e, delete_follow)
        (record {
          posts = refl;
          numbers = λ posts c. All-update_where _ _ _ (λ p h. h) s.personas c;
        })
]

-- the two tables behind the operations that drop rows
pub delete_follower-followers :
    (persona : ℕ) (actor : String) (s : Store)
    → ((delete_follower_by_actor_uri persona actor s).followers
        ≡ delete_where (λ f. f.persona_id == persona && str_eq f.actor_uri actor) s.followers)
      × ((delete_follower_by_actor_uri persona actor s).follows ≡ s.follows)
unfolding delete_follower_by_actor_uri
delete_follower-followers persona actor s = (refl, refl)

pub delete_follow-follows :
    (id : ℕ) (s : Store)
    → ((delete_follow id s).follows ≡ delete_where (λ f. f.id == id) s.follows)
      × ((delete_follow id s).followers ≡ s.followers)
unfolding delete_follow
delete_follow-follows id s = elim (Option-cases (find_row (λ f. f.id == id) s.follows)) [
  | inl e ↦ rw (e, delete_follow) (refl, refl)
  | inr (f, e) ↦ rw (e, delete_follow) (refl, refl)
]

-- a refresh of the followers' counters
numbers_of_followers :
    (persona : ℕ) (s : Store) (posts : List Post)
    → PostsCounted posts s.personas
    → PostsCounted posts (refresh_followers_count persona s).personas
numbers_of_followers persona s posts c = All-update_where _ _ _ (λ p e. e) s.personas c

refresh_owner-SamePosts :
    (o : Option Follower) (s t : Store) → SamePosts s t → SamePosts s (refresh_owner o t)
refresh_owner-SamePosts none s t same = same
refresh_owner-SamePosts (some f) s t same = record {
  posts = same.posts;
  numbers = λ posts c. numbers_of_followers f.persona_id t posts (same.numbers posts c);
}

pub approve_follower-SamePosts : (id : ℕ) (s : Store) → SamePosts s (approve_follower id s)
unfolding approve_follower
approve_follower-SamePosts id s =
    refresh_owner-SamePosts _ s _ (record { posts = refl; numbers = λ posts c. c })

pub delete_follower_id-SamePosts : (id : ℕ) (s : Store) → SamePosts s (delete_follower id s)
unfolding delete_follower
delete_follower_id-SamePosts id s =
    refresh_owner-SamePosts _ s _ (record { posts = refl; numbers = λ posts c. c })

pub create_follow-SamePosts :
    (f : Follow) (s s' : Store) → create_follow f s ≡ some s' → SamePosts s s'
unfolding create_follow
create_follow-SamePosts f s s' h = elim (Bool-cases (refused_follow f s)) [
  | inl e ↦ let clash : none ≡ some s' = ground arith in cc
  | inr e ↦
      let added : Store = record s { follows = f ∷ s.follows } in
      let result : refresh_following_count f.persona_id added ≡ s' = ground arith in
      rw (← result) (record {
        posts = refl;
        numbers = λ posts c. All-update_where _ _ _ (λ p e. e) s.personas c;
      })
]

pub purge_follows-SamePosts :
    (like : String → String → Bool) (domain : String) (s s' : Store)
    → delete_follows_by_target_domain like domain s ≡ some s'
    → SamePosts s s'
unfolding delete_follows_by_target_domain
purge_follows-SamePosts like domain s s' h =
    let purged : Store = record s {
      follows = delete_where (λ f. like f.target_uri (domain_pattern domain)) s.follows;
    } in
    let result : refresh_all_following_counts purged ≡ s' = ground arith in
    rw (← result) (record {
      posts = refl;
      numbers = λ posts c.
          All-update_where _ (λ _. true)
            (λ p. record p { following_count = count_follows p.id purged.follows }) (λ p e. e)
            s.personas c;
    })

pub purge_followers-SamePosts :
    (like : String → String → Bool) (domain : String) (s s' : Store)
    → delete_followers_by_actor_domain like domain s ≡ some s'
    → SamePosts s s'
unfolding delete_followers_by_actor_domain
purge_followers-SamePosts like domain s s' h =
    let purged : Store = record s {
      followers = delete_where (λ f. like f.actor_uri (domain_pattern domain)) s.followers;
    } in
    let result : refresh_all_followers_counts purged ≡ s' = ground arith in
    rw (← result) (record {
      posts = refl;
      numbers = λ posts c.
          All-update_where _ (λ _. true)
            (λ p. record p { followers_count = count_followers p.id purged.followers }) (λ p e. e)
            s.personas c;
    })
