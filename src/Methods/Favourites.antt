-- ===== src/Methods/Favourites.antt =====
-- handler/api_mur_interactions.go: favourites.create and favourites.delete.
pub mod Kept
use Prim.Native.String.{◌++◌ as append}
use murlog.Prelude.{ℕ, suc, not, ◌&&◌, if◌then◌else◌, Option, none, some, [], ◌∷◌, String, str_eq}
use murlog.Domain.{JobType}
use murlog.Domain.Social.{Post, Persona}
use murlog.Rpc.{invalid_params, not_found, internal_error, conflict}
use murlog.Store.{Store}
use murlog.Store.Posts.{is_remote, get_post}
use murlog.Store.Interactions.{create_favourite, delete_favourite}
use murlog.Worker.{World}
use murlog.Inbox.{Site, with_store}
use murlog.Inbox.Relations.{new_interaction}
use murlog.Methods.{
  Answer, ok, refused, enqueue_job, get_persona, with_persona_id, with_id, with_params,
}

-- interactionParams
pub record InteractionParams : Type 0 where
  pub persona_id : String
  pub post_id : String

module _ (site : Site) where
  -- the URI of a local actor
  abbrev pub local_actor_uri : Persona → String
  local_actor_uri p = append site.base (append "/users/" p.username)

  -- the job that tells the author of a remote post
  tell_author : JobType → ℕ → Post → World → World
  tell_author kind persona p w =
      if is_remote p && not (str_eq p.actor_uri "")
      then enqueue_job site kind
          (("persona_id", site.id_text persona)
            ∷ ("post_uri", p.uri)
            ∷ ("target_actor_uri", p.actor_uri)
            ∷ [])
          w
      else w

  created : ℕ → Post → World → Option Store → World × Answer
  unfolding tell_author
  created persona p w none = (record w { draws = suc (w.draws) }, refused conflict)
  created persona p w (some s) =
      (tell_author JobType.send_like persona p (record w { store = s; draws = suc (w.draws) }), ok)

  favour : ℕ → Option Post → Option Persona → World → World × Answer
  unfolding created
  favour persona none owner w = (w, refused not_found)
  favour persona (some p) none w = (w, refused internal_error)
  favour persona (some p) (some owner) w = created persona p w (
      create_favourite (new_interaction site p.id (local_actor_uri owner) (site.ext.new_id w.draws))
        w.store)

  unfavour : ℕ → Option Post → Option Persona → World → World × Answer
  unfolding tell_author
  unfavour persona none owner w = (w, refused not_found)
  unfavour persona (some p) none w = (w, refused internal_error)
  unfavour persona (some p) (some owner) w = (
    tell_author JobType.send_undo_like persona p
        (with_store (delete_favourite p.id (local_actor_uri owner)) w),
    ok,
  )

  -- what both methods ask first
  pub on_post :
      (ℕ → Option Post → Option Persona → World → World × Answer)
      → Option InteractionParams
      → World
      → World × Answer
  on_post act params = with_params params (λ req w.
      if str_eq req.post_id ""
      then (w, refused invalid_params)
      else with_persona_id req.persona_id
          (λ persona.
            with_id req.post_id
              (λ id w'. act persona (get_post id w'.store) (get_persona persona w'.store) w'))
          w)

  -- rpcFavouritesCreate
  pub favourites_create : Option InteractionParams → World → World × Answer
  unfolding on_post favour
  favourites_create = on_post favour

  -- rpcFavouritesDelete
  pub favourites_delete : Option InteractionParams → World → World × Answer
  unfolding on_post unfavour
  favourites_delete = on_post unfavour
