-- ===== src/Methods/Blocks/Severed.antt =====
-- handler/api_mur_blocks.go: what blocks.create leaves between the personas and the actor.
use murlog.Prelude.{
  false, ◌||◌, ℕ, ◌≤◌, ◌==◌, ◌≡◌, refl, arith, Option, none, some, List, [], ◌∷◌, String, str_eq,
  All, ==_iff,
}
use murlog.Prelude.Tables.{
  any_row, count_where, count_where-none, delete_where-none, find_row-none,
  count_where-delete_found, count_where-delete_le,
}
use murlog.Domain.Social.{Persona, Follow, Block}
use murlog.Store.{Store}
use murlog.Store.Followers.{get_follow_by_target, delete_follower_by_actor_uri}
use murlog.Store.Followers.Frames.{delete_follower-followers, delete_follow-follows}
use murlog.Store.Interactions.Frames.{create_block-fresh}
use murlog.Worker.{World}
use murlog.Inbox.{Site}
use murlog.Inbox.Relations.Severed.{is_follower_of, is_follow_to}
use murlog.Methods.{ok, with_params}
use murlog.Methods.Blocks.{drop_follow, sever, sever_all, blocked, blocks_create}
use murlog.Methods.Blocks.Kept.{tell-store}

-- how often a persona follows the actor, and how often it is followed by it
abbrev pub outward : String → ℕ → Store → ℕ
outward actor persona s = count_where (is_follow_to persona actor) s.follows

abbrev pub inward : String → ℕ → Store → ℕ
inward actor persona s = count_where (is_follower_of persona actor) s.followers

abbrev pub AreSevered : String → Store → List Persona → Type 0
AreSevered actor s = All (λ p. (outward actor p.id s ≡ 0) × (inward actor p.id s ≡ 0))

module _ (actor : String) where
  drop_follow-fewer :
      (o : Option Follow) (s : Store) (k : ℕ)
      → (outward actor k (drop_follow o s) ≤ outward actor k s)
        × ((drop_follow o s).followers ≡ s.followers)
  unfolding drop_follow
  drop_follow-fewer none s k = (omega arith, refl)
  drop_follow-fewer (some f) s k =
      let table = delete_follow-follows f.id s in
      (
        rw table.0 (count_where-delete_le (λ g. g.id == f.id) (is_follow_to k actor) s.follows),
        table.1,
      )

  drop_follow-none :
      (s : Store) (persona : ℕ) (o : Option Follow)
      → get_follow_by_target persona actor s ≡ o
      → outward actor persona s ≤ 1
      → outward actor persona (drop_follow o s) ≡ 0
  unfolding drop_follow
  drop_follow-none s persona none e h = find_row-none (is_follow_to persona actor) s.follows e
  drop_follow-none s persona (some f) e h =
      let fewer =
        count_where-delete_found (λ g. g.id == f.id) (is_follow_to persona actor) s.follows f e
          ((==_iff f.id f.id).1 refl) in
      rw (delete_follow-follows f.id s).0 (omega (arith, fewer))

  -- one turn adds no row for any persona, and leaves none for its own
  sever-fewer :
      (persona : ℕ) (s : Store) (k : ℕ)
      → (outward actor k (sever actor persona s) ≤ outward actor k s)
        × (inward actor k (sever actor persona s) ≤ inward actor k s)
  unfolding sever
  sever-fewer persona s k =
      let s' = delete_follower_by_actor_uri persona actor s in
      let dropped = delete_follower-followers persona actor s in
      let rest = drop_follow-fewer (get_follow_by_target persona actor s') s' k in
      let here : outward actor k s' ≡ outward actor k s = rw dropped.1 refl in
      (
        omega (arith, rest.0, here),
        rw (rest.1, dropped.0)
            (count_where-delete_le (is_follower_of persona actor) (is_follower_of k actor)
              s.followers),
      )

  sever-none :
      (persona : ℕ) (s : Store)
      → outward actor persona s ≤ 1
      → (outward actor persona (sever actor persona s) ≡ 0)
        × (inward actor persona (sever actor persona s) ≡ 0)
  unfolding sever
  sever-none persona s h =
      let s' = delete_follower_by_actor_uri persona actor s in
      let dropped = delete_follower-followers persona actor s in
      let o = get_follow_by_target persona actor s' in
      (
        drop_follow-none s' persona o refl (rw dropped.1 h),
        rw ((drop_follow-fewer o s' persona).1, dropped.0)
            (count_where-none (is_follower_of persona actor) _
              (delete_where-none (is_follower_of persona actor) s.followers)),
      )

  sever_all-fewer :
      (ps : List Persona) (s : Store) (k : ℕ)
      → (outward actor k (sever_all actor ps s) ≤ outward actor k s)
        × (inward actor k (sever_all actor ps s) ≤ inward actor k s)
  unfolding sever_all
  sever_all-fewer [] s k = (omega arith, omega arith)
  sever_all-fewer (p ∷ ps) s k =
      let first = sever-fewer p.id s k in
      let rest = sever_all-fewer ps (sever actor p.id s) k in
      (omega (arith, first.0, rest.0), omega (arith, first.1, rest.1))

  sever_all-AreSevered :
      (ps : List Persona) (s : Store)
      → ((k : ℕ) → outward actor k s ≤ 1)
      → AreSevered actor (sever_all actor ps s) ps
  unfolding sever_all
  sever_all-AreSevered [] s h = tt
  sever_all-AreSevered (p ∷ ps) s h =
      let first = sever-none p.id s (h p.id) in
      let later = sever_all-fewer ps (sever actor p.id s) p.id in
      (
        (omega (arith, first.0, later.0), omega (arith, first.1, later.1)),
        sever_all-AreSevered ps (sever actor p.id s) (λ k.
            let fewer = sever-fewer p.id s k in let bound = h k in omega (arith, fewer.0, bound)),
      )

module _ (site : Site) (actor : String) where
  blocked-AreSevered :
      (w : World) (s : Store)
      → ((k : ℕ) → outward actor k s ≤ 1)
      → ((blocked site actor w (some s)).1 ≡ ok)
        × AreSevered actor (blocked site actor w (some s)).0.store s.personas
  unfolding blocked
  blocked-AreSevered w s h = (refl, rw tell-store (sever_all-AreSevered actor s.personas s h))

  -- If the actor is named and not blocked yet, the id of the row is new and no persona follows the
  -- actor twice, then blocks.create succeeds, and afterwards no persona follows the actor or is
  -- followed by it.
  pub blocks_create-AreSevered :
      (w : World)
      → str_eq actor "" ≡ false
      → any_row (λ c. c.id == site.ext.new_id w.draws || str_eq c.actor_uri actor) w.store.blocks
        ≡ false
      → ((k : ℕ) → outward actor k w.store ≤ 1)
      → ((blocks_create site (some actor) w).1 ≡ ok)
        × AreSevered actor (blocks_create site (some actor) w).0.store w.store.personas
  unfolding blocks_create with_params
  blocks_create-AreSevered w named fresh h =
      let b : Block = record {
        id = site.ext.new_id w.draws;
        actor_uri = actor;
        created_at = site.now;
      } in
      rw (named, create_block-fresh b w.store fresh)
        (blocked-AreSevered w (record w.store { blocks = b ∷ w.store.blocks }) h)
