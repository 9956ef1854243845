-- ===== src/Store/Followers.antt =====
-- store/sqlite/follow.go: follows and followers, and the counters that a persona caches of them.
-- An insertion that the primary key, the UNIQUE index or the reference to `personas` refuses is
-- `none`.
pub mod Counters
pub mod Invariant
pub mod Frames
use Prim.Native.String.{◌++◌ as append}
use murlog.Prelude.{
  codes, leb, [], ℕ, Bool, true, false, ◌&&◌, ◌||◌, not, ◌==◌, if◌then◌else◌, Option, none, some,
  List, ◌∷◌, String, str_eq,
}
use murlog.Prelude.Tables.{
  any_row, count_where, update_where, delete_where, find_row, select, order_by,
}
use murlog.Domain.Social.{Persona, Follow, Follower}
use murlog.Store.{Store}

abbrev pub count_followers : ℕ → List Follower → ℕ
count_followers persona = count_where (λ f. f.persona_id == persona && f.approved)

abbrev pub count_follows : ℕ → List Follow → ℕ
count_follows persona = count_where (λ f. f.persona_id == persona)

-- refreshFollowersCount
abbrev pub refresh_followers_count : ℕ → Store → Store
refresh_followers_count persona s = record s {
  personas =
      update_where (λ p. p.id == persona)
        (λ p. record p { followers_count = count_followers persona s.followers }) s.personas;
}

-- refreshFollowingCount
abbrev pub refresh_following_count : ℕ → Store → Store
refresh_following_count persona s = record s {
  personas =
      update_where (λ p. p.id == persona)
        (λ p. record p { following_count = count_follows persona s.follows }) s.personas;
}

-- refreshAllFollowersCounts
abbrev pub refresh_all_followers_counts : Store → Store
refresh_all_followers_counts s = record s {
  personas =
      update_where (λ _. true)
        (λ p. record p { followers_count = count_followers p.id s.followers }) s.personas;
}

-- refreshAllFollowingCounts
abbrev pub refresh_all_following_counts : Store → Store
refresh_all_following_counts s = record s {
  personas =
      update_where (λ _. true) (λ p. record p { following_count = count_follows p.id s.follows })
        s.personas;
}

-- what the constraints of `followers` refuse
abbrev pub refused_follower : Follower → Store → Bool
refused_follower f s =
    any_row (λ g. g.id == f.id) s.followers
    || any_row (λ g. g.persona_id == f.persona_id && str_eq g.actor_uri f.actor_uri) s.followers
    || not (any_row (λ p. p.id == f.persona_id) s.personas)

-- CreateFollower
pub create_follower : Follower → Store → Option Store
create_follower f s =
    if refused_follower f s
    then none
    else some (refresh_followers_count f.persona_id (record s { followers = f ∷ s.followers }))

-- the refresh of the persona that a row named, if there was such a row
abbrev pub refresh_owner : Option Follower → Store → Store
refresh_owner none s = s
refresh_owner (some f) s = refresh_followers_count f.persona_id s

-- ApproveFollower
pub approve_follower : ℕ → Store → Store
approve_follower id s =
    let s' = record s {
      followers = update_where (λ f. f.id == id) (λ f. record f { approved = true }) s.followers;
    } in
    refresh_owner (find_row (λ f. f.id == id) s'.followers) s'

-- DeleteFollower
pub delete_follower : ℕ → Store → Store
delete_follower id s =
    refresh_owner (find_row (λ f. f.id == id) s.followers)
      (record s { followers = delete_where (λ f. f.id == id) s.followers })

-- DeleteFollowerByActorURI
pub delete_follower_by_actor_uri : ℕ → String → Store → Store
delete_follower_by_actor_uri persona actor s = refresh_followers_count persona (record s {
  followers = delete_where (λ f. f.persona_id == persona && str_eq f.actor_uri actor) s.followers;
})

-- ListFollowers (without its order)
pub list_followers : ℕ → Store → List Follower
list_followers persona s = select (λ f. f.persona_id == persona && f.approved) s.followers

-- what the constraints of `follows` refuse
abbrev pub refused_follow : Follow → Store → Bool
refused_follow f s =
    any_row (λ g. g.id == f.id) s.follows
    || any_row (λ g. g.persona_id == f.persona_id && str_eq g.target_uri f.target_uri) s.follows
    || not (any_row (λ p. p.id == f.persona_id) s.personas)

-- CreateFollow
pub create_follow : Follow → Store → Option Store
create_follow f s =
    if refused_follow f s
    then none
    else some (refresh_following_count f.persona_id (record s { follows = f ∷ s.follows }))

-- GetFollowByTarget
abbrev pub get_follow_by_target : ℕ → String → Store → Option Follow
get_follow_by_target persona target s =
    find_row (λ f. f.persona_id == persona && str_eq f.target_uri target) s.follows

-- UpdateFollow
pub update_follow : Follow → Store → Store
update_follow f s = record s {
  follows = update_where (λ g. g.id == f.id) (λ g. record g { accepted = f.accepted }) s.follows;
}

-- DeleteFollow
pub delete_follow : ℕ → Store → Store
delete_follow id s =
    let s' = record s { follows = delete_where (λ f. f.id == id) s.follows } in
    elim (find_row (λ f. f.id == id) s.follows) [
      | none ↦ s'
      | some f ↦ refresh_following_count f.persona_id s'
    ]

-- the loop of isValidDomain
all_domain_chars : List ℕ → Bool
all_domain_chars [] = true
all_domain_chars (c ∷ cs) =
    ((leb b'a' c && leb c b'z')
      || (leb b'A' c && leb c b'Z')
      || (leb b'0' c && leb c b'9')
      || c == b'-'
      || c == b'.')
    && all_domain_chars cs

-- isValidDomain
unfoldable pub is_valid_domain : String → Bool
unfolding all_domain_chars
is_valid_domain domain = if str_eq domain "" then false else all_domain_chars (codes domain)

-- the pattern of a URI on a domain
abbrev pub domain_pattern : String → String
domain_pattern domain = append "%://" (append domain "/%")

-- DeleteFollowersByActorDomain; `like text pattern` is the LIKE of the database
pub delete_followers_by_actor_domain : (String → String → Bool) → String → Store → Option Store
delete_followers_by_actor_domain like domain s =
    if is_valid_domain domain
    then some (
        refresh_all_followers_counts (record s {
          followers = delete_where (λ f. like f.actor_uri (domain_pattern domain)) s.followers;
        }))
    else none

-- DeleteFollowsByTargetDomain
pub delete_follows_by_target_domain : (String → String → Bool) → String → Store → Option Store
delete_follows_by_target_domain like domain s =
    if is_valid_domain domain
    then some (
        refresh_all_following_counts (record s {
          follows = delete_where (λ f. like f.target_uri (domain_pattern domain)) s.follows;
        }))
    else none
