-- ===== src/Methods/Follows.antt =====
-- handler/api_mur_follows.go: follows.create, follows.delete, followers.delete, followers.approve and
-- followers.reject.
pub mod Kept
use murlog.Prelude.{ℕ, suc, ◌==◌, false, if◌then◌else◌, Option, none, some, [], ◌∷◌, String, str_eq}
use murlog.Prelude.Tables.{find_row}
use murlog.Domain.{JobType}
use murlog.Domain.Social.{Follow, Follower}
use murlog.Rpc.{invalid_params, not_found, conflict}
use murlog.Store.{Store}
use murlog.Store.Followers.{create_follow, delete_follow, delete_follower, approve_follower}
use murlog.Store.Interactions.{is_blocked}
use murlog.Worker.{World}
use murlog.Inbox.{Site, with_store}
use murlog.Methods.{
  Answer, ok, refused, enqueue_job, get_persona, with_persona_id, with_id, with_params,
}

-- GetFollow and GetFollower
abbrev pub get_follow : ℕ → Store → Option Follow
get_follow id s = find_row (λ f. f.id == id) s.follows

abbrev pub get_follower : ℕ → Store → Option Follower
get_follower id s = find_row (λ f. f.id == id) s.followers

-- followsCreateParams and followerActionParams
pub record FollowParams : Type 0 where
  pub persona_id : String
  pub target_uri : String

pub record ActionParams : Type 0 where
  pub id : String
  pub activity_id : String

module _ (site : Site) where
  abbrev pub new_follow : ℕ → String → ℕ → Follow
  new_follow persona target id = record {
    id = id;
    persona_id = persona;
    target_uri = target;
    accepted = false;
    created_at = site.now;
  }

  send_follow : ℕ → World → Option Store → World × Answer
  send_follow id w none = (record w { draws = suc (w.draws) }, refused conflict)
  send_follow id w (some s) = (
    enqueue_job site JobType.send_follow (("follow_id", site.id_text id) ∷ [])
        (record w { store = s; draws = suc (w.draws) }),
    ok,
  )

  follow_target : String → ℕ → World → World × Answer
  unfolding send_follow
  follow_target target persona w =
      let id = site.ext.new_id w.draws in
      send_follow id w (create_follow (new_follow persona target id) w.store)

  -- rpcFollowsCreate
  pub follows_create : Option FollowParams → World → World × Answer
  unfolding follow_target
  follows_create params = with_params params (λ req w.
      if str_eq req.target_uri ""
      then (w, refused invalid_params)
      else if is_blocked site.ext.hostname req.target_uri w.store
      then (w, refused conflict)
      else with_persona_id req.persona_id (follow_target req.target_uri) w)

  unfollow : Option Follow → World → World × Answer
  unfollow none w = (w, refused not_found)
  unfollow (some f) w = (
    enqueue_job site JobType.send_undo_follow
        (("persona_id", site.id_text f.persona_id)
          ∷ ("follow_id", site.id_text f.id)
          ∷ ("target_uri", f.target_uri)
          ∷ [])
        (with_store (delete_follow f.id) w),
    ok,
  )

  -- rpcFollowsDelete
  pub follows_delete : Option String → World → World × Answer
  unfolding unfollow
  follows_delete params =
      with_params params (λ raw. with_id raw (λ id w. unfollow (get_follow id w.store) w))

  -- rpcFollowersDelete
  pub followers_delete : Option String → World → World × Answer
  followers_delete params =
      with_params params (λ raw. with_id raw (λ id w. (with_store (delete_follower id) w, ok)))

  -- the job that answers a follower, if its persona is there
  answer_follower : JobType → String → Follower → World → World
  answer_follower kind activity f w = elim (get_persona f.persona_id w.store) [
    | none ↦ w
    | some p ↦
        enqueue_job site kind
          (("persona_id", site.id_text p.id)
            ∷ ("activity_id", activity)
            ∷ ("actor_uri", f.actor_uri)
            ∷ [])
          w
  ]

  decide : JobType → (ℕ → Store → Store) → String → Option Follower → World → World × Answer
  unfolding answer_follower
  decide kind change activity none w = (w, refused not_found)
  decide kind change activity (some f) w =
      (answer_follower kind activity f (with_store (change f.id) w), ok)

  -- rpcFollowersApprove
  pub followers_approve : Option ActionParams → World → World × Answer
  unfolding decide
  followers_approve params = with_params params (λ req. with_id req.id (λ id w.
      decide JobType.accept_follow approve_follower req.activity_id (get_follower id w.store) w))

  -- rpcFollowersReject
  pub followers_reject : Option ActionParams → World → World × Answer
  unfolding decide
  followers_reject params = with_params params (λ req. with_id req.id (λ id w.
      decide JobType.reject_follow delete_follower req.activity_id (get_follower id w.store) w))
