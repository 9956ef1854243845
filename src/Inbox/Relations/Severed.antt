-- ===== src/Inbox/Relations/Severed.antt =====
-- handler/activitypub.go: what a Block and an Undo of a Follow leave between the persona and the actor.
use murlog.Prelude.{
  ℕ, Bool, ◌≤◌, ◌==◌, ◌&&◌, ◌≡◌, refl, arith, Option, none, some, String, str_eq, ==_iff,
}
use murlog.Prelude.Tables.{
  count_where, count_where-none, delete_where-none, find_row-none, count_where-delete_found,
}
use murlog.Domain.Social.{Persona, Follow, Follower}
use murlog.Store.{Store}
use murlog.Store.Followers.{get_follow_by_target, delete_follower_by_actor_uri}
use murlog.Store.Followers.Frames.{delete_follower-followers, delete_follow-follows}
use murlog.Worker.{World}
use murlog.Inbox.{Activity, Site}
use murlog.Inbox.Relations.{handle_inbox_block, delete_found}

abbrev pub is_follower_of : ℕ → String → Follower → Bool
is_follower_of persona actor f = f.persona_id == persona && str_eq f.actor_uri actor

abbrev pub is_follow_to : ℕ → String → Follow → Bool
is_follow_to persona target f = f.persona_id == persona && str_eq f.target_uri target

module _ (site : Site) (persona : Persona) where
  delete_found-follows :
      (actor : String) (s : Store) (o : Option Follow)
      → get_follow_by_target persona.id actor s ≡ o
      → count_where (is_follow_to persona.id actor) s.follows ≤ 1
      → (count_where (is_follow_to persona.id actor) (delete_found site persona o s).follows ≡ 0)
        × ((delete_found site persona o s).followers ≡ s.followers)
  unfolding delete_found
  delete_found-follows actor s none e h =
      (find_row-none (is_follow_to persona.id actor) s.follows e, refl)
  delete_found-follows actor s (some f) e h =
      let fewer =
        count_where-delete_found (λ g. g.id == f.id) (is_follow_to persona.id actor) s.follows f e
          ((==_iff f.id f.id).1 refl) in
      let table = delete_follow-follows f.id s in (rw table.0 (omega (arith, fewer)), table.1)

  -- After a Block, if no actor is followed twice, the persona neither follows the actor that sent it
  -- nor is followed by it.
  pub handle_inbox_block-Severed :
      (activity : Activity) (w : World)
      → count_where (is_follow_to persona.id activity.actor) w.store.follows ≤ 1
      → (count_where
            (is_follower_of persona.id activity.actor)
            (handle_inbox_block site persona activity w).store.followers
          ≡ 0)
        × (count_where
              (is_follow_to persona.id activity.actor)
              (handle_inbox_block site persona activity w).store.follows
            ≡ 0)
  unfolding handle_inbox_block
  handle_inbox_block-Severed activity w h =
      let s = delete_follower_by_actor_uri persona.id activity.actor w.store in
      let dropped = delete_follower-followers persona.id activity.actor w.store in
      let rest =
        delete_found-follows activity.actor s (get_follow_by_target persona.id activity.actor s)
          refl (rw dropped.1 h) in
      (
        rw (rest.1, dropped.0)
            (count_where-none (is_follower_of persona.id activity.actor) _
              (delete_where-none (is_follower_of persona.id activity.actor) w.store.followers)),
        rest.0,
      )
