-- ===== src/Methods/Favourites/Kept.antt =====
-- handler/api_mur_interactions.go: favourites.create and favourites.delete keep the invariants of the
-- store.
use murlog.Prelude.{ℕ, ◌&&◌, not, ◌≡◌, refl, Option, none, some, str_eq, inl, inr, Bool-cases}
use murlog.Domain.{JobType}
use murlog.Domain.Social.{Persona, Post}
use murlog.Store.{Store}
use murlog.Worker.{World}
use murlog.Inbox.{Site}
use murlog.Inbox.Invariant.{Sound}
use murlog.Methods.{Answer, get_persona}
use murlog.Methods.Sound.{
  Keeps, Sound-Same, enqueue_job-store, with_params-Keeps, with_id-Keeps, with_persona_id-Keeps,
}
use murlog.Store.Posts.{is_remote, get_post}
use murlog.Store.Interactions.{create_favourite}
use murlog.Store.Interactions.Frames.{create_favourite-Same, delete_favourite-Same}
use murlog.Inbox.Relations.{new_interaction}
use murlog.Methods.Favourites.{
  InteractionParams, local_actor_uri, tell_author, created, favour, unfavour, on_post,
  favourites_create, favourites_delete,
}

module _ (site : Site) where
  tell_author-store :
      (kind : JobType) (persona : ℕ) (p : Post) (w : World)
      → (tell_author site kind persona p w).store ≡ w.store
  unfolding tell_author
  tell_author-store kind persona p w =
      elim (Bool-cases (is_remote p && not (str_eq p.actor_uri ""))) [
        | inl e ↦ rw e (enqueue_job-store site kind _ w)
        | inr e ↦ rw e refl
      ]

  created-Sound :
      (persona : ℕ) (p : Post) (w : World) (o : Option Store)
      → ((s : Store) → o ≡ some s → Sound s)
      → Sound w.store
      → Sound (created site persona p w o).0.store
  unfolding created
  created-Sound persona p w none f v = v
  created-Sound persona p w (some s) f v = rw tell_author-store (f s refl)

  favour-Sound :
      (persona : ℕ) (o : Option Post) (owner : Option Persona) (w : World)
      → Sound w.store
      → Sound (favour site persona o owner w).0.store
  unfolding favour
  favour-Sound persona none owner w v = v
  favour-Sound persona (some p) none w v = v
  favour-Sound persona (some p) (some owner) w v =
      let r = new_interaction site p.id (local_actor_uri site owner) (site.ext.new_id w.draws) in
      created-Sound persona p w (create_favourite r w.store)
        (λ s e. Sound-Same w.store s (create_favourite-Same r w.store s e) v) v

  unfavour-Sound :
      (persona : ℕ) (o : Option Post) (owner : Option Persona) (w : World)
      → Sound w.store
      → Sound (unfavour site persona o owner w).0.store
  unfolding unfavour
  unfavour-Sound persona none owner w v = v
  unfavour-Sound persona (some p) none w v = v
  unfavour-Sound persona (some p) (some owner) w v =
      rw tell_author-store
        (Sound-Same w.store _ (delete_favourite-Same p.id (local_actor_uri site owner) w.store) v)

  pub on_post-Keeps :
      (act : ℕ → Option Post → Option Persona → World → World × Answer)
      (params : Option InteractionParams)
      → ((persona : ℕ) (o : Option Post) (owner : Option Persona) → Keeps (act persona o owner))
      → Keeps (on_post site act params)
  unfolding on_post
  on_post-Keeps act params f = with_params-Keeps params _ (λ req w v.
      elim (Bool-cases (str_eq req.post_id "")) [
        | inl e ↦ rw e v
        | inr e ↦ rw e (
            with_persona_id-Keeps req.persona_id _
              (λ persona.
                with_id-Keeps req.post_id _ (λ id w' v'.
                  f persona (get_post id w'.store) (get_persona persona w'.store) w' v'))
              w v)
      ])

  pub favourites_create-Keeps :
      (params : Option InteractionParams) → Keeps (favourites_create site params)
  unfolding favourites_create
  favourites_create-Keeps params = on_post-Keeps (favour site) params favour-Sound

  pub favourites_delete-Keeps :
      (params : Option InteractionParams) → Keeps (favourites_delete site params)
  unfolding favourites_delete
  favourites_delete-Keeps params = on_post-Keeps (unfavour site) params unfavour-Sound
