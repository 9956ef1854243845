-- ===== src/Inbox/Relations.antt =====
-- handler/activitypub.go: the activities Follow, Accept, Reject, Block, Undo and Like.
pub mod Reach
pub mod Severed
use murlog.Prelude.{
  ℕ, suc, true, false, not, if◌then◌else◌, Option, none, some, [], ◌∷◌, String, str_eq,
}
use murlog.Json.{Fields, as_object, get_text}
use murlog.Domain.{QueueJob, JobType}
use murlog.Domain.Social.{Persona, Post, Follower, Follow, Interaction, NotificationType}
use murlog.Queue.{enqueue}
use murlog.Store.{Store}
use murlog.Store.Followers.{
  create_follower, delete_follower_by_actor_uri, get_follow_by_target, update_follow, delete_follow,
}
use murlog.Store.Interactions.{
  create_notification, delete_notification_by_actor, create_favourite, delete_favourite,
  delete_reblog,
}
use murlog.Worker.{World}
use murlog.Worker.Fanout.{new_job}
use murlog.Inbox.{Activity, Site, with_store, insert_new, ensure_remote_actor_cached}
use murlog.Inbox.Uris.{extract_activity_object_uri, extract_object_uri, resolve_local_post}

-- a notification that is not read; a post of 0 is none
abbrev pub new_notification : Site → ℕ → NotificationType → String → ℕ → ℕ → Store → Option Store
new_notification site persona kind actor post id = create_notification (record {
  id = id;
  persona_id = persona;
  kind = kind;
  actor_uri = actor;
  post_id = post;
  read = false;
  created_at = site.now;
})

-- a row of `favourites` or `reblogs`
abbrev pub new_interaction : Site → ℕ → String → ℕ → Interaction
new_interaction site post actor id = record {
  id = id;
  post_id = post;
  actor_uri = actor;
  created_at = site.now;
}

module _ (site : Site) (persona : Persona) where
  accept_job : Activity → ℕ → QueueJob
  accept_job activity draw = new_job site.ext site.now draw JobType.accept_follow (
      ("persona_id", site.id_text persona.id)
      ∷ ("activity_id", activity.id)
      ∷ ("actor_uri", activity.actor)
      ∷ [])

  -- the Enqueue of the Accept, whose error is dropped
  enqueue_accept : Activity → World → World
  unfolding accept_job
  enqueue_accept activity w = elim (enqueue (accept_job activity w.draws) w.queue) [
    | none ↦ record w { draws = suc (w.draws) }
    | some q ↦ record w { queue = q; draws = suc (w.draws) }
  ]

  abbrev new_follower : Activity → ℕ → Follower
  new_follower activity id = record {
    id = id;
    persona_id = persona.id;
    actor_uri = activity.actor;
    approved = not persona.locked;
    created_at = site.now;
  }

  -- what follows the CreateFollower
  announce_follower : Activity → World → World
  unfolding enqueue_accept
  announce_follower activity w =
      let w' =
        insert_new site (new_notification site persona.id NotificationType.follow activity.actor 0)
          w in
      if persona.locked then w' else enqueue_accept activity w'

  -- handleInboxFollow
  pub handle_inbox_follow : Activity → World → World
  unfolding announce_follower
  handle_inbox_follow activity w =
      let s = ensure_remote_actor_cached site activity.actor w.store in
      let follower = new_follower activity (site.ext.new_id w.draws) in
      elim (create_follower follower s) [
        | none ↦ record w { store = s; draws = suc (w.draws) }
        | some s' ↦ announce_follower activity (record w { store = s'; draws = suc (w.draws) })
      ]

  accept_found : Option Follow → Store → Store
  accept_found none s = s
  accept_found (some f) s = if f.accepted then s else update_follow (record f { accepted = true }) s

  -- handleInboxAccept
  pub handle_inbox_accept : Activity → World → World
  unfolding accept_found
  handle_inbox_accept activity =
      with_store (λ s. accept_found (get_follow_by_target persona.id activity.actor s) s)

  delete_found : Option Follow → Store → Store
  delete_found none s = s
  delete_found (some f) s = delete_follow f.id s

  -- handleInboxReject
  pub handle_inbox_reject : Activity → World → World
  unfolding delete_found
  handle_inbox_reject activity =
      with_store (λ s. delete_found (get_follow_by_target persona.id activity.actor s) s)

  -- handleInboxBlock
  pub handle_inbox_block : Activity → World → World
  unfolding delete_found
  handle_inbox_block activity = with_store (λ s.
      let s' = delete_follower_by_actor_uri persona.id activity.actor s in
      delete_found (get_follow_by_target persona.id activity.actor s') s')

  undo_follow : String → Store → Store
  undo_follow actor s =
      delete_notification_by_actor persona.id actor NotificationType.follow 0
        (delete_follower_by_actor_uri persona.id actor s)

  undo_like : String → Option Post → Store → Store
  undo_like actor none s = s
  undo_like actor (some p) s =
      delete_notification_by_actor persona.id actor NotificationType.favourite p.id
        (delete_favourite p.id actor s)

  undo_announce : String → Option Post → Store → Store
  undo_announce actor none s = s
  undo_announce actor (some p) s =
      delete_notification_by_actor persona.id actor NotificationType.reblog p.id
        (delete_reblog p.id actor s)

  -- the local post that the undone activity is about
  undone_post : Fields → Store → Option Post
  undone_post inner s =
      let uri = extract_object_uri inner in if str_eq uri "" then none else resolve_local_post uri s

  -- the switch of handleInboxUndo
  undo_inner : String → Fields → Store → Store
  unfolding undo_follow undo_like undo_announce undone_post
  undo_inner actor inner s =
      let kind = get_text "type" inner in
      if str_eq kind "Follow"
      then undo_follow actor s
      else if str_eq kind "Like"
      then undo_like actor (undone_post inner s) s
      else if str_eq kind "Announce"
      then undo_announce actor (undone_post inner s) s
      else s

  undo_body : String → Option Fields → Store → Store
  unfolding undo_inner
  undo_body actor none s = s
  undo_body actor (some inner) s = undo_inner actor inner s

  -- handleInboxUndo
  pub handle_inbox_undo : Activity → World → World
  unfolding undo_body
  handle_inbox_undo activity = with_store (undo_body activity.actor (as_object activity.body))

  like_post : String → Post → World → World
  like_post actor p w =
      insert_new site (new_notification site p.persona_id NotificationType.favourite actor p.id) (
        insert_new site (λ id. create_favourite (new_interaction site p.id actor id))
          (with_store (ensure_remote_actor_cached site actor) w))

  like_found : String → Option Post → World → World
  unfolding like_post
  like_found actor none w = w
  like_found actor (some p) w = like_post actor p w

  -- handleInboxLike
  pub handle_inbox_like : Activity → World → World
  unfolding like_found
  handle_inbox_like activity w =
      let uri = extract_activity_object_uri activity in
      if str_eq uri "" then w else like_found activity.actor (resolve_local_post uri w.store) w
