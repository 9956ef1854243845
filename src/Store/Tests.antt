-- ===== src/Store/Tests.antt =====
-- Concrete tables, and the theorems about them.
use murlog.Prelude.{leb, ltb, ◌&&◌, ◌-◌, leb, ◌&&◌, ◌-◌, ltb, ◌≡◌, refl, true, false, [], ◌∷◌}
use murlog.Domain.Social.{Persona, Follower}
use murlog.Store.{Store}
use murlog.Store.Circuit.{is_dead_domain}
use murlog.Store.Circuit.Bursts.{last_of, fail_at, is_dead_domain-burst}
use murlog.Store.Followers.{approve_follower}
use murlog.Store.Followers.Invariant.{Inv, follower_approved, Step-Inv}

is_dead_domain-burst_example :
    is_dead_domain 3700 "b.example"
      (fail_at "b.example" "timeout" (1 ∷ 2 ∷ 3 ∷ 4 ∷ 5 ∷ 6 ∷ 7 ∷ 8 ∷ 9 ∷ 200 ∷ []) [])
    ≡ (ltb (3700 - 3600) 200 && leb 10 10)
unfolding last_of
is_dead_domain-burst_example =
    is_dead_domain-burst "b.example" "timeout" 3700 1 (2 ∷ 3 ∷ 4 ∷ 5 ∷ 6 ∷ 7 ∷ 8 ∷ 9 ∷ 200 ∷ []) []
      tt refl

abbrev persona : Persona
persona = record {
  id = 1;
  username = "alice";
  display_name = "";
  summary = "";
  private_key_pem = "";
  locked = true;
  show_follows = true;
  post_count = 0;
  followers_count = 0;
  following_count = 0;
  created_at = 0;
}

abbrev asking : Follower
asking = record {
  id = 9;
  persona_id = 1;
  actor_uri = "https://b.example/u";
  approved = false;
  created_at = 5;
}

abbrev tables : Store
tables = record {
  personas = persona ∷ [];
  posts = [];
  post_tags = [];
  attachments = [];
  follows = [];
  followers = asking ∷ [];
  remote_actors = [];
  favourites = [];
  reblogs = [];
  notifications = [];
  blocks = [];
  domain_blocks = [];
  failures = [];
}

tables-Inv : Inv tables
tables-Inv = record { counted = ((refl, refl), tt); follower_ids = (refl, tt); follow_ids = tt }

Step-Inv_example : Inv (approve_follower 9 tables)
Step-Inv_example = Step-Inv (follower_approved 9) tables-Inv
