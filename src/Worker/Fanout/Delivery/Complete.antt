-- ===== src/Worker/Fanout/Delivery/Complete.antt =====
-- worker/worker.go: fanoutToFollowers as a whole.
use murlog.Prelude.{
  [], ℕ, zero, suc, ◌/◌, ◌≤◌, ◌<◌, ◌*◌, ◌≡◌, refl, ap, ◌∙◌, sym, inl, inr, arith, ltb,
  if◌then◌else◌, some, List, String, length, take, drop, Bool-cases, length-take, length-drop,
  take-append-drop, take_all,
}
use murlog.Prelude.Tables.{select}
use murlog.Prelude.Keys.{IdsUnique}
use murlog.Prelude.Paging.{beyond, next_page, last_key}
use murlog.Domain.Social.{Follower}
use murlog.Externals.{Externals}
use murlog.Worker.{World, success}
use murlog.Worker.Fanout.{
  MakeJob, Fan, page_jobs, fanout_loop, fanout_to_followers, follower_id, list_followers_paged,
}
use murlog.Worker.Fanout.Pages.{
  length-audience, everyone, audience, audience-Ascending, list_followers_paged_lem,
}
use murlog.Worker.Fanout.Delivery.{Sent, deliver_each, deliver_each-append, Fresh}
use murlog.Worker.Fanout.Delivery.Cached.{nothing_cached}
use murlog.Worker.Fanout.Delivery.Batches.{Agrees, page_jobs_lem}

module _ (ext : Externals) (now : ℕ) (make : MakeJob)
    (injective : (m n : ℕ) → ext.new_id m ≡ ext.new_id n → m ≡ n) (persona : ℕ) (w : World)
    (unique : IdsUnique follower_id w.store.followers) where
  -- the world after a delivery
  abbrev pub with_sent : Sent → World
  with_sent s = record w { queue = s.queue; draws = s.draws }

  abbrev each : List Follower → Sent → Sent
  each = deliver_each ext now make w.store.failures

  abbrev page_of : ℕ → List Follower
  page_of cursor = list_followers_paged persona cursor 100 w.store.followers

  -- one turn of the loop whose batch is enqueued
  turn :
      (fuel cursor : ℕ) (st : Fan) (s : Sent) (page : List Follower)
      → page_of cursor ≡ page
      → Agrees ext now make w.store.failures st s
      → fanout_loop ext now make (suc fuel) persona cursor st (with_sent s) ≡ (
          let st' = (page_jobs ext now make w.store.failures st page).0 in
          if ltb (length page) 100
          then some (with_sent (each page s), success)
          else fanout_loop ext now make fuel persona
              (last_key follower_id 0 page)
              st'
              (with_sent (each page s)))
  unfolding fanout_loop
  turn fuel cursor st s page e a =
      let (queue, agree) = page_jobs_lem ext now make w.store.failures injective page st s a in
      rw (e, queue, e, agree.draws_same, fanout_loop) refl

  loop_lem :
      (fuel cursor : ℕ) (rest : List Follower) (st : Fan) (s : Sent)
      → select (beyond follower_id cursor) (audience persona w.store.followers) ≡ rest
      → length rest < 100 * fuel
      → Agrees ext now make w.store.failures st s
      → fanout_loop ext now make fuel persona cursor st (with_sent s)
        ≡ some (with_sent (each rest s), success)
  loop_lem zero cursor rest st s e enough a = absurd (omega arith)
  loop_lem (suc fuel) cursor rest st s e enough a =
      let page = take 100 rest in
      let listed : page_of cursor ≡ page =
        list_followers_paged_lem persona cursor 100 w.store.followers unique ∙ ap (take 100) e in
      let agree = (page_jobs_lem ext now make w.store.failures injective page st s a).1 in
      let size = length-take 100 rest in
      turn fuel cursor st s page listed a ∙ elim (Bool-cases (ltb (length page) 100)) [
        | inl h ↦
            let short : length rest ≤ 100 = ground (arith, size) in
            rw h (
              ap (λ (fs : List Follower). some (with_sent (each fs s), success))
                (take_all 100 rest short))
        | inr h ↦
            let full : 100 ≤ length rest = ground (arith, size) in
            let left = length-drop 100 rest in
            let behind =
              next_page follower_id 98 cursor (audience persona w.store.followers) rest
                (audience-Ascending persona w.store.followers unique) e full in
            let both =
              sym (deliver_each-append ext now make w.store.failures page (drop 100 rest) s)
              ∙ ap (λ (fs : List Follower). each fs s) (take-append-drop 100 rest) in
            rw h (
              loop_lem fuel (last_key follower_id 0 page) (drop 100 rest) _ (each page s) behind
                (omega (arith, left, full)) agree
              ∙ ap (λ (r : Sent). some (with_sent r, success)) both)
      ]

-- A fan-out always ends and succeeds while the identifiers to be drawn are new, with the fuel that
-- it is given. It makes the same jobs as the plain loop over all approved followers of the persona
-- in the order of their ids: the pages leave nobody out and take nobody twice, the cache of dead
-- domains answers as the table does, and the batches are what one insertion after another gives.
pub fanout_to_followers_lem :
    (ext : Externals) (now : ℕ) (make : MakeJob) (persona : ℕ) (delivered : List String) (w : World)
    → ((m n : ℕ) → ext.new_id m ≡ ext.new_id n → m ≡ n)
    → IdsUnique follower_id w.store.followers
    → Fresh ext now make w.store.failures
        (record { delivered = delivered; draws = w.draws; queue = w.queue })
    → fanout_to_followers ext now make persona delivered w ≡ (
        let sent =
          deliver_each ext now make w.store.failures
            (audience persona w.store.followers)
            (record { delivered = delivered; draws = w.draws; queue = w.queue }) in
        some (record w { queue = sent.queue; draws = sent.draws }, success))
unfolding fanout_to_followers
fanout_to_followers_lem ext now make persona delivered w injective unique fresh =
    let start : Sent = record { delivered = delivered; draws = w.draws; queue = w.queue } in
    let agrees : Agrees ext now make w.store.failures
        (record { dead_cache = []; delivered = delivered; draws = w.draws }) start =
      record {
        delivered_same = refl;
        draws_same = refl;
        truthful = nothing_cached now w.store.failures;
        fresh = fresh;
      } in
    loop_lem ext now make injective persona w unique (suc (length w.store.followers / 100)) 0
      (audience persona w.store.followers) _ start (everyone persona w.store.followers)
      (omega (arith, length-audience persona w.store.followers)) agrees
