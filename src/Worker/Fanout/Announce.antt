-- ===== src/Worker/Fanout/Announce.antt =====
-- worker/worker.go: handleSendAnnounce and handleSendUndoAnnounce, which tell the author of a post and
-- all followers, each of them once.
pub mod Once
pub mod Whole
use murlog.Prelude.{
  ℕ, suc, ◌+◌, Bool, true, false, ◌||◌, if◌then◌else◌, Option, none, some, List, [], ◌∷◌, String,
  str_eq,
}
use murlog.Domain.{QueueJob, JobType}
use murlog.Domain.Social.{Follower}
use murlog.Queue.{enqueue}
use murlog.Id.{parse_id}
use murlog.Externals.{Externals}
use murlog.Worker.{World, Outcome, failure, field_of, Handler}
use murlog.Worker.Fanout.{new_job, MakeJob, fanout_to_followers, or_stuck}

-- delivered[uri]
pub member : String → List String → Bool
member a [] = false
member a (b ∷ bs) = str_eq b a || member a bs

abbrev pub announce_payload : String → String → String → String → List (String × String)
announce_payload persona post activity actor =
    ("persona_id", persona)
    ∷ ("post_uri", post)
    ∷ ("actor_uri", actor)
    ∷ ("activity", activity)
    ∷ []

-- the callback of both handlers
pub make_announce : String → String → String → MakeJob
unfolding member
make_announce persona post activity delivered f =
    if member f.actor_uri delivered then (delivered, none) else (
      f.actor_uri ∷ delivered,
      some (JobType.deliver_announce, announce_payload persona post activity f.actor_uri),
    )

module _ (ext : Externals) (now : ℕ) (activity : String) where
  -- Enqueue, with its error ignored
  kept : World → Option (List QueueJob) → World
  kept w none = w
  kept w (some q) = record w { queue = q }

  -- the delivery to the author of the post
  announce_author : String → String → String → World → List String × World
  unfolding kept
  announce_author persona post target w = if str_eq target "" then ([], w) else (
    target ∷ [],
    (let w' : World = record w { draws = suc (w.draws) } in
        kept w' (
          enqueue
            (new_job ext now w.draws JobType.deliver_announce
              (announce_payload persona post activity target))
            w.queue)),
  )

  -- both handlers behind their parameters
  pub announce_to : ℕ → String → String → String → World → World × Outcome
  unfolding announce_author make_announce or_stuck
  announce_to persona_id persona post target w =
      let r = announce_author persona post target w in
      or_stuck r.1
        (fanout_to_followers ext now (make_announce persona post activity) persona_id r.0 r.1)

  handle_activity : Handler
  unfolding announce_to
  handle_activity job w = elim (ext.unmarshal job.payload) [
    | none ↦ (w, failure "parse payload")
    | some p ↦ elim (parse_id (field_of "persona_id" p)) [
      | none ↦ (w, failure "parse persona_id")
      | some id ↦
          announce_to id (field_of "persona_id" p) (field_of "post_uri" p)
            (field_of "target_actor_uri" p) w
    ]
  ]

-- handleSendAnnounce
pub handle_send_announce : Externals → ℕ → Handler
unfolding handle_activity
handle_send_announce ext now = handle_activity ext now "Announce"

-- handleSendUndoAnnounce
pub handle_send_undo_announce : Externals → ℕ → Handler
unfolding handle_activity
handle_send_undo_announce ext now = handle_activity ext now "Undo"
