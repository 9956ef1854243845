-- ===== src/Methods/Reblogs/Kept.antt =====
-- handler/api_mur_interactions.go: reblogs.create and reblogs.delete keep the invariants of the store.
use murlog.Prelude.{ℕ, ◌≡◌, refl, Option, none, some, String}
use murlog.Domain.{JobType}
use murlog.Domain.Social.{Persona, Post}
use murlog.Store.{Store}
use murlog.Store.Posts.{create_post, delete_reblog_post}
use murlog.Store.Posts.Invariant.{PostStep-Inv, created, reblog_deleted}
use murlog.Store.Posts.Recounts.{create_local_post-Inv, delete_reblog_post-counters}
use murlog.Store.Interactions.{create_reblog, delete_reblog}
use murlog.Store.Interactions.Frames.{create_reblog-Same, delete_reblog-Same}
use murlog.Worker.{World}
use murlog.Inbox.{Site, attempt}
use murlog.Inbox.Invariant.{Sound}
use murlog.Inbox.Relations.{new_interaction}
use murlog.Methods.Sound.{Keeps, Sound-Same, enqueue_job-store}
use murlog.Methods.Favourites.{InteractionParams, local_actor_uri}
use murlog.Methods.Favourites.Kept.{on_post-Keeps}
use murlog.Methods.Reblogs.{
  post_uri, own_wrapper, announce, reblogged, reblog_at, reblog, drop_reblog, unreblog_at, unreblog,
  reblogs_create, reblogs_delete,
}

module _ (site : Site) where
  announce-store :
      (kind : JobType) (persona : ℕ) (p : Post) (owner : Persona) (uri : String) (w : World)
      → (announce site kind persona p owner uri w).store ≡ w.store
  unfolding announce
  announce-store kind persona p owner uri w = enqueue_job-store site kind _ w

  wrapped-Sound :
      (owner : Persona) (p : Post) (id : ℕ) (s : Store) (o : Option Store)
      → create_post site.texts (own_wrapper site owner p id) s ≡ o
      → Sound s
      → Sound (attempt s o)
  wrapped-Sound owner p id s none e v = v
  wrapped-Sound owner p id s (some s') e v = record {
    relations =
        create_local_post-Inv site.texts (own_wrapper site owner p id) s s' e refl v.relations;
    posts = PostStep-Inv (created site.texts (own_wrapper site owner p id) e) v.posts;
  }

  reblogged-Sound :
      (persona : ℕ) (p : Post) (owner : Persona) (uri : String) (w : World) (o : Option Store)
      → ((s : Store) → o ≡ some s → Sound s)
      → Sound w.store
      → Sound (reblogged site persona p owner uri w o).0.store
  unfolding reblogged
  reblogged-Sound persona p owner uri w none f v = v
  reblogged-Sound persona p owner uri w (some s) f v =
      rw announce-store (wrapped-Sound owner p _ s _ refl (f s refl))

  reblog_at-Sound :
      (persona : ℕ) (p : Post) (owner : Persona) (o : Option String) (w : World)
      → Sound w.store
      → Sound (reblog_at site persona p owner o w).0.store
  unfolding reblog_at
  reblog_at-Sound persona p owner none w v = v
  reblog_at-Sound persona p owner (some uri) w v =
      let r = new_interaction site p.id (local_actor_uri site owner) (site.ext.new_id w.draws) in
      reblogged-Sound persona p owner uri w (create_reblog r w.store)
        (λ s e. Sound-Same w.store s (create_reblog-Same r w.store s e) v) v

  reblog-Sound :
      (persona : ℕ) (o : Option Post) (owner : Option Persona) → Keeps (reblog site persona o owner)
  unfolding reblog
  reblog-Sound persona none owner w v = v
  reblog-Sound persona (some p) none w v = v
  reblog-Sound persona (some p) (some owner) w v =
      reblog_at-Sound persona p owner (post_uri site p w.store) w v

  unwrapped-Sound :
      (persona post : ℕ) (s : Store) (o : Option Store)
      → delete_reblog_post persona post s ≡ o
      → Sound s
      → Sound (attempt s o)
  unwrapped-Sound persona post s none e v = v
  unwrapped-Sound persona post s (some s') e v = record {
    relations = delete_reblog_post-counters persona post s s' e v.relations;
    posts = PostStep-Inv (reblog_deleted persona post e) v.posts;
  }

  drop_reblog-Sound :
      (p : Post) (owner : Persona) (s : Store) → Sound s → Sound (drop_reblog site p owner s)
  drop_reblog-Sound p owner s v =
      let actor = local_actor_uri site owner in
      unwrapped-Sound owner.id p.id (delete_reblog p.id actor s) _ refl
        (Sound-Same s _ (delete_reblog-Same p.id actor s) v)

  unreblog_at-store :
      (persona : ℕ) (p : Post) (owner : Persona) (o : Option String) (w : World)
      → (unreblog_at site persona p owner o w).0.store ≡ w.store
  unfolding unreblog_at
  unreblog_at-store persona p owner none w = refl
  unreblog_at-store persona p owner (some uri) w = announce-store _ persona p owner uri w

  unreblog-Sound :
      (persona : ℕ) (o : Option Post) (owner : Option Persona)
      → Keeps (unreblog site persona o owner)
  unfolding unreblog
  unreblog-Sound persona none owner w v = v
  unreblog-Sound persona (some p) none w v = v
  unreblog-Sound persona (some p) (some owner) w v =
      rw unreblog_at-store (drop_reblog-Sound p owner w.store v)

  pub reblogs_create-Keeps :
      (params : Option InteractionParams) → Keeps (reblogs_create site params)
  unfolding reblogs_create
  reblogs_create-Keeps params = on_post-Keeps site (reblog site) params reblog-Sound

  pub reblogs_delete-Keeps :
      (params : Option InteractionParams) → Keeps (reblogs_delete site params)
  unfolding reblogs_delete
  reblogs_delete-Keeps params = on_post-Keeps site (unreblog site) params unreblog-Sound
