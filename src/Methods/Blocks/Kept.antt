-- ===== src/Methods/Blocks/Kept.antt =====
-- handler/api_mur_blocks.go: its methods keep the invariants of the store.
use murlog.Prelude.{
  Bool, ℕ, ◌≡◌, refl, Option, none, some, List, [], ◌∷◌, String, str_eq, inl, inr, Bool-cases,
}
use murlog.Domain.{JobType}
use murlog.Domain.Social.{Persona, Follow, Block, DomainBlock}
use murlog.Store.{Store}
use murlog.Worker.{World}
use murlog.Inbox.{Site, attempt}
use murlog.Inbox.Invariant.{Sound}
use murlog.Methods.Sound.{Keeps, Sound-Same, Sound-relations, enqueue_job-store, with_params-Keeps}
use murlog.Store.Followers.{
  delete_follower_by_actor_uri, get_follow_by_target, delete_follows_by_target_domain,
  delete_followers_by_actor_domain,
}
use murlog.Store.Followers.Invariant.{
  follow_deleted, actor_deleted, follows_purged, followers_purged,
}
use murlog.Store.Followers.Frames.{
  delete_follow-SamePosts, delete_follower-SamePosts, purge_follows-SamePosts,
  purge_followers-SamePosts,
}
use murlog.Store.Interactions.{create_block, create_domain_block}
use murlog.Store.Interactions.Frames.{
  create_block-Same, delete_block-Same, create_domain_block-Same, delete_domain_block-Same,
}
use murlog.Methods.Blocks.{
  drop_follow, sever, sever_all, tell, blocked, blocks_create, blocks_delete, purge, domain_blocked,
  domain_blocks_create, domain_blocks_delete,
}

drop_follow-Sound : (o : Option Follow) (s : Store) → Sound s → Sound (drop_follow o s)
unfolding drop_follow
drop_follow-Sound none s v = v
drop_follow-Sound (some f) s v =
    Sound-relations s _ (follow_deleted f.id) (delete_follow-SamePosts f.id s) v

sever_all-Sound :
    (actor : String) (ps : List Persona) (s : Store) → Sound s → Sound (sever_all actor ps s)
unfolding sever_all sever
sever_all-Sound actor [] s v = v
sever_all-Sound actor (p ∷ ps) s v =
    let s' = delete_follower_by_actor_uri p.id actor s in
    let v' =
      Sound-relations s s' (actor_deleted p.id actor) (delete_follower-SamePosts p.id actor s) v in
    sever_all-Sound actor ps _ (drop_follow-Sound (get_follow_by_target p.id actor s') s' v')

attempt-Sound :
    (s : Store) (o : Option Store)
    → ((s' : Store) → o ≡ some s' → Sound s')
    → Sound s
    → Sound (attempt s o)
attempt-Sound s none f v = v
attempt-Sound s (some s') f v = f s' refl

module _ (site : Site) where
  pub tell-store :
      (kind : JobType) (actor : String) (o : Option ℕ) (w : World)
      → (tell site kind actor o w).store ≡ w.store
  unfolding tell
  tell-store kind actor none w = refl
  tell-store kind actor (some persona) w = enqueue_job-store site kind _ w

  blocked-Sound :
      (actor : String) (w : World) (o : Option Store)
      → ((s : Store) → o ≡ some s → Sound s)
      → Sound w.store
      → Sound (blocked site actor w o).0.store
  unfolding blocked
  blocked-Sound actor w none f v = v
  blocked-Sound actor w (some s) f v = rw tell-store (sever_all-Sound actor s.personas s (f s refl))

  pub blocks_create-Keeps : (params : Option String) → Keeps (blocks_create site params)
  unfolding blocks_create
  blocks_create-Keeps params = with_params-Keeps params _ (λ actor w v.
      elim (Bool-cases (str_eq actor "")) [
        | inl e ↦ rw e v
        | inr e ↦
            let b : Block = record {
              id = site.ext.new_id w.draws;
              actor_uri = actor;
              created_at = site.now;
            } in
            rw e (
              blocked-Sound actor w (create_block b w.store)
                (λ s h. Sound-Same w.store s (create_block-Same b w.store s h) v) v)
      ])

  pub blocks_delete-Keeps : (params : Option String) → Keeps (blocks_delete site params)
  unfolding blocks_delete
  blocks_delete-Keeps params = with_params-Keeps params _ (λ actor w v.
      elim (Bool-cases (str_eq actor "")) [
        | inl e ↦ rw e v
        | inr e ↦ rw (e, tell-store) (Sound-Same w.store _ (delete_block-Same actor w.store) v)
      ])

  module _ (like : String → String → Bool) where
    purge-Sound : (domain : String) (s : Store) → Sound s → Sound (purge site like domain s)
    unfolding purge
    purge-Sound domain s v =
        let s' = attempt s (delete_follows_by_target_domain like domain s) in
        let v' =
          attempt-Sound s (delete_follows_by_target_domain like domain s)
            (λ t e.
              Sound-relations s t (follows_purged like domain e)
                (purge_follows-SamePosts like domain s t e) v)
            v in
        attempt-Sound s' (delete_followers_by_actor_domain like domain s')
          (λ t e.
            Sound-relations s' t (followers_purged like domain e)
              (purge_followers-SamePosts like domain s' t e) v')
          v'

    domain_blocked-Sound :
        (domain : String) (w : World) (o : Option Store)
        → ((s : Store) → o ≡ some s → Sound s)
        → Sound w.store
        → Sound (domain_blocked site like domain w o).0.store
    unfolding domain_blocked
    domain_blocked-Sound domain w none f v = v
    domain_blocked-Sound domain w (some s) f v = purge-Sound domain s (f s refl)

    pub domain_blocks_create-Keeps :
        (params : Option String) → Keeps (domain_blocks_create site like params)
    unfolding domain_blocks_create
    domain_blocks_create-Keeps params = with_params-Keeps params _ (λ domain w v.
        elim (Bool-cases (str_eq domain "")) [
          | inl e ↦ rw e v
          | inr e ↦
              let b : DomainBlock = record {
                id = site.ext.new_id w.draws;
                domain = domain;
                created_at = site.now;
              } in
              rw e (
                domain_blocked-Sound domain w (create_domain_block b w.store)
                  (λ s h. Sound-Same w.store s (create_domain_block-Same b w.store s h) v) v)
        ])

  pub domain_blocks_delete-Keeps :
      (params : Option String) → Keeps (domain_blocks_delete site params)
  unfolding domain_blocks_delete
  domain_blocks_delete-Keeps params = with_params-Keeps params _ (λ domain w v.
      elim (Bool-cases (str_eq domain "")) [
        | inl e ↦ rw e v
        | inr e ↦ rw e (Sound-Same w.store _ (delete_domain_block-Same domain w.store) v)
      ])
