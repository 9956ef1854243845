-- ===== src/Methods/Blocks.antt =====
-- handler/api_mur_blocks.go: blocks.create, blocks.delete, domain_blocks.create and
-- domain_blocks.delete.
pub mod Kept
pub mod Severed
use murlog.Prelude.{ℕ, suc, if◌then◌else◌, Bool, Option, none, some, List, [], ◌∷◌, String, str_eq}
use murlog.Domain.{JobType}
use murlog.Domain.Social.{Persona, Follow}
use murlog.Rpc.{invalid_params, conflict}
use murlog.Queue.{cancel_by_domain}
use murlog.Store.{Store}
use murlog.Store.Followers.{
  delete_follower_by_actor_uri, get_follow_by_target, delete_follow,
  delete_follows_by_target_domain, delete_followers_by_actor_domain,
}
use murlog.Store.Interactions.{create_block, delete_block, create_domain_block, delete_domain_block}
use murlog.Worker.{World}
use murlog.Inbox.{Site, attempt, with_store}
use murlog.Methods.{Answer, ok, refused, enqueue_job, primary_persona_id, with_params}

drop_follow : Option Follow → Store → Store
drop_follow none s = s
drop_follow (some f) s = delete_follow f.id s

-- one turn of the loop over the personas
pub sever : String → ℕ → Store → Store
unfolding drop_follow
sever actor persona s =
    let s' = delete_follower_by_actor_uri persona actor s in
    drop_follow (get_follow_by_target persona actor s') s'

pub sever_all : String → List Persona → Store → Store
unfolding sever
sever_all actor [] s = s
sever_all actor (p ∷ ps) s = sever_all actor ps (sever actor p.id s)

module _ (site : Site) where
  -- the job that tells the actor, if there is a persona
  pub tell : JobType → String → Option ℕ → World → World
  tell kind actor none w = w
  tell kind actor (some persona) w =
      enqueue_job site kind
        (("persona_id", site.id_text persona) ∷ ("target_actor_uri", actor) ∷ []) w

  blocked : String → World → Option Store → World × Answer
  unfolding tell sever_all
  blocked actor w none = (record w { draws = suc (w.draws) }, refused conflict)
  blocked actor w (some s) =
      let w' : World = record w { store = sever_all actor s.personas s; draws = suc (w.draws) } in
      (tell JobType.send_block actor (primary_persona_id w'.store) w', ok)

  -- rpcBlocksCreate
  pub blocks_create : Option String → World → World × Answer
  unfolding blocked
  blocks_create params = with_params params (λ actor w.
      if str_eq actor ""
      then (w, refused invalid_params)
      else blocked actor w (
          create_block
            (record { id = site.ext.new_id w.draws; actor_uri = actor; created_at = site.now })
            w.store))

  -- rpcBlocksDelete
  pub blocks_delete : Option String → World → World × Answer
  unfolding tell
  blocks_delete params = with_params params (λ actor w.
      if str_eq actor "" then (w, refused invalid_params) else (
        tell JobType.send_undo_block actor (primary_persona_id w.store)
            (with_store (delete_block actor) w),
        ok,
      ))

  -- `like text pattern` is the LIKE of the database; errors of the two deletions are dropped
  purge : (String → String → Bool) → String → Store → Store
  purge like domain s =
      let s' = attempt s (delete_follows_by_target_domain like domain s) in
      attempt s' (delete_followers_by_actor_domain like domain s')

  domain_blocked : (String → String → Bool) → String → World → Option Store → World × Answer
  unfolding purge
  domain_blocked like domain w none = (record w { draws = suc (w.draws) }, refused conflict)
  domain_blocked like domain w (some s) = (
    record w {
      queue = (cancel_by_domain like domain w.queue).0;
      store = purge like domain s;
      draws = suc (w.draws);
    },
    ok,
  )

  -- rpcDomainBlocksCreate
  pub domain_blocks_create : (String → String → Bool) → Option String → World → World × Answer
  unfolding domain_blocked
  domain_blocks_create like params = with_params params (λ domain w.
      if str_eq domain ""
      then (w, refused invalid_params)
      else domain_blocked like domain w (
          create_domain_block
            (record { id = site.ext.new_id w.draws; domain = domain; created_at = site.now })
            w.store))

  -- rpcDomainBlocksDelete
  pub domain_blocks_delete : Option String → World → World × Answer
  domain_blocks_delete params = with_params params (λ domain w.
      if str_eq domain ""
      then (w, refused invalid_params)
      else (with_store (delete_domain_block domain) w, ok))
