-- ===== src/Methods/Follows/Kept.antt =====
-- handler/api_mur_follows.go: its methods keep the invariants of the store.
use murlog.Prelude.{
  ℕ, ◌≡◌, refl, Option, none, some, String, str_eq, inl, inr, Option-cases, Bool-cases,
}
use murlog.Domain.{JobType}
use murlog.Domain.Social.{Follow, Follower}
use murlog.Store.{Store}
use murlog.Worker.{World}
use murlog.Inbox.{Site}
use murlog.Inbox.Invariant.{Sound}
use murlog.Methods.{get_persona}
use murlog.Methods.Sound.{
  Keeps, Sound-relations, enqueue_job-store, with_params-Keeps, with_id-Keeps,
  with_persona_id-Keeps,
}
use murlog.Store.Followers.{create_follow, delete_follower, approve_follower}
use murlog.Store.Followers.Invariant.{
  follow_created, follow_deleted, follower_approved, follower_deleted,
}
use murlog.Store.Followers.Frames.{
  create_follow-SamePosts, delete_follow-SamePosts, approve_follower-SamePosts,
  delete_follower_id-SamePosts,
}
use murlog.Store.Interactions.{is_blocked}
use murlog.Methods.Follows.{
  FollowParams, ActionParams, new_follow, get_follow, get_follower, send_follow, follow_target,
  follows_create, unfollow, follows_delete, followers_delete, answer_follower, decide,
  followers_approve, followers_reject,
}

module _ (site : Site) where
  send_follow-Sound :
      (id : ℕ) (w : World) (o : Option Store)
      → ((s : Store) → o ≡ some s → Sound s)
      → Sound w.store
      → Sound (send_follow site id w o).0.store
  unfolding send_follow
  send_follow-Sound id w none f v = v
  send_follow-Sound id w (some s) f v = rw enqueue_job-store (f s refl)

  follow_target-Keeps : (target : String) (persona : ℕ) → Keeps (follow_target site target persona)
  unfolding follow_target
  follow_target-Keeps target persona w v =
      let f = new_follow site persona target (site.ext.new_id w.draws) in
      send_follow-Sound (site.ext.new_id w.draws) w (create_follow f w.store)
        (λ s e.
          Sound-relations w.store s (follow_created f e) (create_follow-SamePosts f w.store s e) v)
        v

  pub follows_create-Keeps : (params : Option FollowParams) → Keeps (follows_create site params)
  unfolding follows_create
  follows_create-Keeps params = with_params-Keeps params _ (λ req w v.
      elim (Bool-cases (str_eq req.target_uri "")) [
        | inl e ↦ rw e v
        | inr e ↦ elim (Bool-cases (is_blocked site.ext.hostname req.target_uri w.store)) [
          | inl b ↦ rw (e, b) v
          | inr b ↦
              rw (e, b)
                (with_persona_id-Keeps req.persona_id (follow_target site req.target_uri)
                  (follow_target-Keeps req.target_uri) w v)
        ]
      ])

  unfollow-Sound :
      (o : Option Follow) (w : World) → Sound w.store → Sound (unfollow site o w).0.store
  unfolding unfollow
  unfollow-Sound none w v = v
  unfollow-Sound (some f) w v =
      rw enqueue_job-store
        (Sound-relations w.store _ (follow_deleted f.id) (delete_follow-SamePosts f.id w.store) v)

  pub follows_delete-Keeps : (params : Option String) → Keeps (follows_delete site params)
  unfolding follows_delete
  follows_delete-Keeps params =
      with_params-Keeps params _
        (λ raw. with_id-Keeps raw _ (λ id w v. unfollow-Sound (get_follow id w.store) w v))

  pub followers_delete-Keeps : (params : Option String) → Keeps (followers_delete site params)
  unfolding followers_delete
  followers_delete-Keeps params = with_params-Keeps params _ (λ raw. with_id-Keeps raw _ (λ id w v.
      Sound-relations w.store _ (follower_deleted id) (delete_follower_id-SamePosts id w.store) v))

  answer_follower-store :
      (kind : JobType) (activity : String) (f : Follower) (w : World)
      → (answer_follower site kind activity f w).store ≡ w.store
  unfolding answer_follower
  answer_follower-store kind activity f w = elim (Option-cases (get_persona f.persona_id w.store)) [
    | inl e ↦ rw (e, answer_follower) refl
    | inr (p, e) ↦ rw (e, answer_follower) (enqueue_job-store site kind _ w)
  ]

  decide-Sound :
      (kind : JobType) (change : ℕ → Store → Store) (activity : String) (o : Option Follower)
      (w : World)
      → ((id : ℕ) → Sound (change id w.store))
      → Sound w.store
      → Sound (decide site kind change activity o w).0.store
  unfolding decide
  decide-Sound kind change activity none w f v = v
  decide-Sound kind change activity (some g) w f v = rw answer_follower-store (f g.id)

  pub followers_approve-Keeps :
      (params : Option ActionParams) → Keeps (followers_approve site params)
  unfolding followers_approve
  followers_approve-Keeps params = with_params-Keeps params _ (λ req.
      with_id-Keeps req.id _ (λ id w v.
        decide-Sound JobType.accept_follow approve_follower req.activity_id
          (get_follower id w.store) w
          (λ k.
            Sound-relations w.store _ (follower_approved k) (approve_follower-SamePosts k w.store)
              v)
          v))

  pub followers_reject-Keeps : (params : Option ActionParams) → Keeps (followers_reject site params)
  unfolding followers_reject
  followers_reject-Keeps params = with_params-Keeps params _ (λ req.
      with_id-Keeps req.id _ (λ id w v.
        decide-Sound JobType.reject_follow delete_follower req.activity_id (get_follower id w.store)
          w
          (λ k.
            Sound-relations w.store _ (follower_deleted k) (delete_follower_id-SamePosts k w.store)
              v)
          v))
