-- ===== src/Worker/Fanout/Tests.antt =====
-- A concrete fan-out, and the theorem about fanoutToFollowers on it.
use murlog.Prelude.{List, All, ℕ, ◌≡◌, refl, true, none, some, [], ◌∷◌, String}
use murlog.Prelude.Keys.{IdsUnique}
use murlog.Domain.Social.{Follower}
use murlog.Store.{Store}
use murlog.Externals.{Externals}
use murlog.Worker.{World, success}
use murlog.Worker.Fanout.{fanout_to_followers, make_update, follower_id}
use murlog.Worker.Fanout.Announce.{make_announce, announce_to, member}
use murlog.Worker.Fanout.Announce.Once.{Tells, Distinct, deliver_each-announce}
use murlog.Worker.Fanout.Announce.Whole.{author_told, announce_to_lem}
use murlog.Worker.Fanout.Pages.{audience}
use murlog.Worker.Fanout.Delivery.{is_live, Sent, deliver_each}
use murlog.Worker.Fanout.Delivery.Complete.{fanout_to_followers_lem}

abbrev follower : ℕ → String → Follower
follower id actor = record {
  id = id;
  persona_id = 1;
  actor_uri = actor;
  approved = true;
  created_at = 0;
}

abbrev tables : Store
tables = record {
  personas = [];
  posts = [];
  post_tags = [];
  attachments = [];
  follows = [];
  followers = follower 7 "https://b.example/u" ∷ follower 4 "https://c.example/u" ∷ [];
  remote_actors = [];
  favourites = [];
  reblogs = [];
  notifications = [];
  blocks = [];
  domain_blocks = [];
  failures = [];
}

abbrev networked : Externals
networked = record {
  marshal = λ _. "{}";
  unmarshal = λ _. none;
  hostname = λ uri. some uri;
  new_id = λ n. n;
}

abbrev world : World
world = record { queue = []; store = tables; draws = 0 }

unique : IdsUnique follower_id tables.followers
unique = (refl, (refl, tt))

fanout_to_followers_lem_example :
    fanout_to_followers networked 50 (make_update networked 50 "1") 1 [] world ≡ (
      let sent =
        deliver_each networked 50
          (make_update networked 50 "1")
          []
          (audience 1 tables.followers)
          (record { delivered = []; draws = 0; queue = [] }) in
      some (record world { queue = sent.queue; draws = sent.draws }, success))
fanout_to_followers_lem_example =
    fanout_to_followers_lem networked 50 (make_update networked 50 "1") 1 [] world (λ m n e. e)
      unique (λ n le. refl)

abbrev told : Sent
told = record { delivered = "https://b.example/u" ∷ []; draws = 3; queue = [] }

deliver_each-announce_example :
    ((news : List String) × Tells networked 50 "1" "https://a.example/p" "Announce" [] news told (
        deliver_each networked 50
          (make_announce "1" "https://a.example/p" "Announce")
          []
          tables.followers
          told)
      × All
          (λ f.
            is_live networked 50 [] f ≡ true
            → member f.actor_uri
                (deliver_each networked 50
                  (make_announce "1" "https://a.example/p" "Announce")
                  []
                  tables.followers
                  told).delivered
              ≡ true)
          tables.followers)
    × (Distinct told.delivered
        → Distinct
            (deliver_each networked 50
              (make_announce "1" "https://a.example/p" "Announce")
              []
              tables.followers
              told).delivered)
deliver_each-announce_example =
    deliver_each-announce networked 50 "1" "https://a.example/p" "Announce" [] tables.followers told

announce_to_lem_example :
    announce_to networked 50 "Undo" 1 "1" "https://a.example/p" "https://d.example/u" world ≡ (
      let sent =
        deliver_each networked 50
          (make_announce "1" "https://a.example/p" "Undo")
          []
          (audience 1 tables.followers)
          (author_told networked 50 "1" "https://a.example/p" "Undo" "https://d.example/u" world) in
      (record world { queue = sent.queue; draws = sent.draws }, success))
announce_to_lem_example =
    announce_to_lem networked 50 "Undo" 1 "1" "https://a.example/p" "https://d.example/u" world
      (λ m n e. e) unique (λ n le. refl)
