-- ===== src/Store/Followers/Counters.antt =====
-- store/sqlite/follow.go: the cached counters agree with the rows.
use murlog.Prelude.{
  str_eq, String, Option-cases, ℕ, true, ◌&&◌, ◌≡◌, ◌≢◌, refl, sym, ◌∙◌, inl, inr, ◌==◌, arith,
  some, List, [], ◌∷◌, All, Bool-cases, ==_iff,
}
use murlog.Prelude.{All-mono}
use murlog.Prelude.Keys.{
  IdsUnique, All-find_row, delete_key-none, update_key-none, find_row-update_where,
}
use murlog.Prelude.Tables.{
  count_where-update_where, find_row-some, count_where-delete_where, find_row, update_where,
}
use murlog.Domain.Social.{Persona, Follow, Follower}
use murlog.Store.{Store}
use murlog.Store.Followers.{
  update_follow, approve_follower, refresh_owner, delete_follower_by_actor_uri, delete_follow,
  delete_follower, count_followers, count_follows, refresh_followers_count, refresh_following_count,
  create_follower, create_follow, refused_follower, refused_follow,
}

-- every persona's two cached counters are the numbers of its rows
abbrev pub HasCounts : Store → Persona → Type 0
HasCounts s p =
    (p.followers_count ≡ count_followers p.id s.followers)
    × (p.following_count ≡ count_follows p.id s.follows)

abbrev pub Counted : Store → Type 0
Counted s = All (HasCounts s) s.personas

-- A change of the followers that moves only one persona's number is mended by refreshing that one.
refresh_followers-All :
    (persona : ℕ) (old new : List Follower) (follows : List Follow)
    → ((k : ℕ) → k ≢ persona → count_followers k new ≡ count_followers k old)
    → (ps : List Persona)
    → All
        (λ p.
          (p.followers_count ≡ count_followers p.id old)
          × (p.following_count ≡ count_follows p.id follows))
        ps
    → All
        (λ p.
          (p.followers_count ≡ count_followers p.id new)
          × (p.following_count ≡ count_follows p.id follows))
        (update_where
          (λ p. p.id == persona)
          (λ p. record p { followers_count = count_followers persona new })
          ps)
refresh_followers-All persona old new follows same [] c = tt
refresh_followers-All persona old new follows same (p ∷ ps) c =
    elim (Bool-cases (p.id == persona)) [
      | inl e ↦
          let at : p.id ≡ persona = (==_iff p.id persona).0 e in
          rw e ((rw at refl, c.0.1), refresh_followers-All persona old new follows same ps c.1)
      | inr e ↦
          let away : p.id ≢ persona = λ h. ground arith in
          rw e (
            (c.0.0 ∙ sym (same p.id away), c.0.1),
            refresh_followers-All persona old new follows same ps c.1,
          )
    ]

refresh_following-All :
    (persona : ℕ) (old new : List Follow) (followers : List Follower)
    → ((k : ℕ) → k ≢ persona → count_follows k new ≡ count_follows k old)
    → (ps : List Persona)
    → All
        (λ p.
          (p.followers_count ≡ count_followers p.id followers)
          × (p.following_count ≡ count_follows p.id old))
        ps
    → All
        (λ p.
          (p.followers_count ≡ count_followers p.id followers)
          × (p.following_count ≡ count_follows p.id new))
        (update_where
          (λ p. p.id == persona)
          (λ p. record p { following_count = count_follows persona new })
          ps)
refresh_following-All persona old new followers same [] c = tt
refresh_following-All persona old new followers same (p ∷ ps) c =
    elim (Bool-cases (p.id == persona)) [
      | inl e ↦
          let at : p.id ≡ persona = (==_iff p.id persona).0 e in
          rw e ((c.0.0, rw at refl), refresh_following-All persona old new followers same ps c.1)
      | inr e ↦
          let away : p.id ≢ persona = λ h. ground arith in
          rw e (
            (c.0.0, c.0.1 ∙ sym (same p.id away)),
            refresh_following-All persona old new followers same ps c.1,
          )
    ]

pub create_follower-Counted :
    (f : Follower) (s s' : Store) → Counted s → create_follower f s ≡ some s' → Counted s'
unfolding create_follower
create_follower-Counted f s s' c h = elim (Bool-cases (refused_follower f s)) [
  | inl e ↦ ground arith
  | inr e ↦
      let result : refresh_followers_count f.persona_id (record s { followers = f ∷ s.followers })
          ≡ s' =
        ground arith in
      rw (← result) (
        refresh_followers-All f.persona_id s.followers (f ∷ s.followers) s.follows
          (λ k h. ground arith) s.personas c)
]

pub create_follow-Counted :
    (f : Follow) (s s' : Store) → Counted s → create_follow f s ≡ some s' → Counted s'
unfolding create_follow
create_follow-Counted f s s' c h = elim (Bool-cases (refused_follow f s)) [
  | inl e ↦ ground arith
  | inr e ↦
      let result : refresh_following_count f.persona_id (record s { follows = f ∷ s.follows })
          ≡ s' =
        ground arith in
      rw (← result) (
        refresh_following-All f.persona_id s.follows (f ∷ s.follows) s.followers
          (λ k h. ground arith) s.personas c)
]

pub delete_follower_by_actor_uri-Counted :
    (persona : ℕ) (actor : String) (s : Store)
    → Counted s
    → Counted (delete_follower_by_actor_uri persona actor s)
unfolding delete_follower_by_actor_uri
delete_follower_by_actor_uri-Counted persona actor s c =
    refresh_followers-All persona s.followers _ s.follows
      (λ k h.
        count_where-delete_where _ _ s.followers
          (All-mono (λ f owned e. ground (arith, owned e)) s.followers (matches s.followers)))
      s.personas c
  where
    matches :
        (fs : List Follower)
        → All
            (λ f.
              (f.persona_id == persona && str_eq f.actor_uri actor) ≡ true → f.persona_id ≡ persona)
            fs
    matches [] = tt
    matches (f ∷ fs) = ((λ e. ground arith), matches fs)

pub delete_follower-Counted :
    (id : ℕ) (s : Store)
    → IdsUnique (λ (f : Follower). f.id) s.followers
    → Counted s
    → Counted (delete_follower id s)
unfolding delete_follower
delete_follower-Counted id s u c = elim (Option-cases (find_row (λ f. f.id == id) s.followers)) [
  | inl e ↦ rw (e, refresh_owner, delete_key-none (λ (f : Follower). f.id) id s.followers e) c
  | inr (f, e) ↦
      rw (e, refresh_owner)
        (refresh_followers-All f.persona_id s.followers _ s.follows
          (λ k h. count_where-delete_where _ _ s.followers (
            All-mono (λ g owned e'. ground (arith, owned e')) s.followers
              (All-find_row (λ g. g.id) (λ g. g.persona_id ≡ f.persona_id) id f s.followers u e
                refl)))
          s.personas c)
]

pub delete_follow-Counted :
    (id : ℕ) (s : Store)
    → IdsUnique (λ (f : Follow). f.id) s.follows
    → Counted s
    → Counted (delete_follow id s)
unfolding delete_follow
delete_follow-Counted id s u c = elim (Option-cases (find_row (λ f. f.id == id) s.follows)) [
  | inl e ↦ rw (e, delete_follow, delete_key-none (λ (f : Follow). f.id) id s.follows e) c
  | inr (f, e) ↦
      rw (e, delete_follow)
        (refresh_following-All f.persona_id s.follows _ s.followers
          (λ k h. count_where-delete_where _ _ s.follows (
            All-mono (λ g owned e'. ground (arith, owned e')) s.follows
              (All-find_row (λ g. g.id) (λ g. g.persona_id ≡ f.persona_id) id f s.follows u e
                refl)))
          s.personas c)
]

pub approve_follower-Counted :
    (id : ℕ) (s : Store)
    → IdsUnique (λ (f : Follower). f.id) s.followers
    → Counted s
    → Counted (approve_follower id s)
unfolding approve_follower
approve_follower-Counted id s u c = elim (Option-cases (find_row (λ f. f.id == id) s.followers)) [
  | inl e ↦
      rw
        (update_key-none (λ (f : Follower). f.id) id (λ f. record f { approved = true }) s.followers
          e)
        (rw (e, refresh_owner) c)
  | inr (f, e) ↦
      let approve : Follower → Follower = λ g. record g { approved = true } in
      let looked_up =
        find_row-update_where (λ (g : Follower). g.id) (λ g. g.id == id) approve (λ _. refl) id
          s.followers in
      let same_id : (f.id == id) ≡ true = find_row-some (λ g. g.id == id) s.followers f e in
      let found : find_row (λ g. g.id == id) (update_where (λ g. g.id == id) approve s.followers)
          ≡ some (approve f) =
        ground arith in
      rw (found, refresh_owner)
        (refresh_followers-All f.persona_id s.followers _ s.follows
          (λ k h. count_where-update_where _ _ approve s.followers (
            All-mono (λ g owned e'. ground (arith, owned e')) s.followers
              (All-find_row (λ g. g.id) (λ g. g.persona_id ≡ f.persona_id) id f s.followers u e
                refl)))
          s.personas c)
]

pub update_follow-Counted : (f : Follow) (s : Store) → Counted s → Counted (update_follow f s)
unfolding update_follow
update_follow-Counted f s c =
    All-mono
      (λ p counts. (
        counts.0,
        counts.1
            ∙ sym (
                count_where-update_where _ _ (λ g. record g { accepted = f.accepted }) s.follows
                  (unmoved p.id s.follows)),
      ))
      s.personas c
  where
    unmoved :
        (k : ℕ) (fs : List Follow)
        → All (λ g. (g.id == f.id) ≡ true → (g.persona_id == k) ≡ (g.persona_id == k)) fs
    unmoved k [] = tt
    unmoved k (g ∷ fs) = ((λ _. refl), unmoved k fs)

-- a refresh of all counters of a table is right whatever they were
pub refreshed_followers-Counted :
    (new : List Follower) (s : Store) (ps : List Persona)
    → All (HasCounts s) ps
    → All
        (HasCounts (record s { followers = new }))
        (update_where (λ _. true) (λ p. record p { followers_count = count_followers p.id new }) ps)
refreshed_followers-Counted new s [] c = tt
refreshed_followers-Counted new s (p ∷ ps) c =
    ((refl, c.0.1), refreshed_followers-Counted new s ps c.1)

pub refreshed_following-Counted :
    (new : List Follow) (s : Store) (ps : List Persona)
    → All (HasCounts s) ps
    → All
        (HasCounts (record s { follows = new }))
        (update_where (λ _. true) (λ p. record p { following_count = count_follows p.id new }) ps)
refreshed_following-Counted new s [] c = tt
refreshed_following-Counted new s (p ∷ ps) c =
    ((c.0.0, refl), refreshed_following-Counted new s ps c.1)
