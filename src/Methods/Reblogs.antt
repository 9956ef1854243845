-- ===== src/Methods/Reblogs.antt =====
-- handler/api_mur_interactions.go: reblogs.create and reblogs.delete.
pub mod Kept
use Prim.Native.String.{◌++◌ as append}
use murlog.Prelude.{ℕ, suc, if◌then◌else◌, Option, none, some, [], ◌∷◌, String, str_eq}
use murlog.Domain.{JobType}
use murlog.Domain.Social.{Post, Persona, local}
use murlog.Rpc.{not_found, internal_error, conflict}
use murlog.Store.{Store}
use murlog.Store.Posts.{create_post, delete_reblog_post}
use murlog.Store.Interactions.{create_reblog, delete_reblog}
use murlog.Worker.{World}
use murlog.Inbox.{Site, attempt, with_store, insert_new}
use murlog.Inbox.Relations.{new_interaction}
use murlog.Inbox.Changes.{wrapper}
use murlog.Methods.{Answer, ok, refused, enqueue_job, get_persona}
use murlog.Methods.Favourites.{InteractionParams, local_actor_uri, on_post}

module _ (site : Site) where
  uri_of_author : Post → Option Persona → Option String
  uri_of_author p none = none
  uri_of_author p (some author) =
      some (append (local_actor_uri site author) (append "/posts/" (site.id_text p.id)))

  -- the URI of a post: its own, or the one of a local post
  pub post_uri : Post → Store → Option String
  unfolding uri_of_author
  post_uri p s =
      if str_eq p.uri "" then uri_of_author p (get_persona p.persona_id s) else some p.uri

  -- the row that stands for the reblog in the profile
  abbrev pub own_wrapper : Persona → Post → ℕ → Post
  own_wrapper owner p id = record (wrapper site owner "" p.id id) { origin = local }

  -- the job for the followers and the author
  announce : JobType → ℕ → Post → Persona → String → World → World
  announce kind persona p owner uri = enqueue_job site kind (
      ("persona_id", site.id_text persona)
      ∷ ("post_uri", uri)
      ∷ (
        "target_actor_uri",
        (if str_eq p.actor_uri "" then local_actor_uri site owner else p.actor_uri),
      )
      ∷ [])

  reblogged : ℕ → Post → Persona → String → World → Option Store → World × Answer
  unfolding announce
  reblogged persona p owner uri w none = (record w { draws = suc (w.draws) }, refused conflict)
  reblogged persona p owner uri w (some s) = (
    announce JobType.send_announce persona p owner uri (
        insert_new site (λ id. create_post site.texts (own_wrapper owner p id))
          (record w { store = s; draws = suc (w.draws) })),
    ok,
  )

  reblog_at : ℕ → Post → Persona → Option String → World → World × Answer
  unfolding reblogged
  reblog_at persona p owner none w = (w, refused internal_error)
  reblog_at persona p owner (some uri) w = reblogged persona p owner uri w (
      create_reblog
        (new_interaction site p.id (local_actor_uri site owner) (site.ext.new_id w.draws)) w.store)

  reblog : ℕ → Option Post → Option Persona → World → World × Answer
  unfolding reblog_at post_uri
  reblog persona none owner w = (w, refused not_found)
  reblog persona (some p) none w = (w, refused internal_error)
  reblog persona (some p) (some owner) w = reblog_at persona p owner (post_uri p w.store) w

  -- the reblog and its wrapper; an error of the second deletion is logged only
  abbrev pub drop_reblog : Post → Persona → Store → Store
  drop_reblog p owner s =
      let s' = delete_reblog p.id (local_actor_uri site owner) s in
      attempt s' (delete_reblog_post owner.id p.id s')

  unreblog_at : ℕ → Post → Persona → Option String → World → World × Answer
  unfolding announce
  unreblog_at persona p owner none w = (w, refused internal_error)
  unreblog_at persona p owner (some uri) w =
      (announce JobType.send_undo_announce persona p owner uri w, ok)

  unreblog : ℕ → Option Post → Option Persona → World → World × Answer
  unfolding unreblog_at post_uri
  unreblog persona none owner w = (w, refused not_found)
  unreblog persona (some p) none w = (w, refused internal_error)
  unreblog persona (some p) (some owner) w =
      let w' = with_store (drop_reblog p owner) w in
      unreblog_at persona p owner (post_uri p w'.store) w'

  -- rpcReblogsCreate
  pub reblogs_create : Option InteractionParams → World → World × Answer
  unfolding reblog
  reblogs_create = on_post site reblog

  -- rpcReblogsDelete
  pub reblogs_delete : Option InteractionParams → World → World × Answer
  unfolding unreblog
  reblogs_delete = on_post site unreblog
