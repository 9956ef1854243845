-- ===== src/Worker/Fanout/Announce/Whole.antt =====
-- worker/worker.go: handleSendAnnounce and handleSendUndoAnnounce behind their parameters.
use murlog.Prelude.{
  ℕ, suc, ◌≤◌, false, ◌≡◌, ap, ◌∙◌, arith, if◌then◌else◌, List, [], ◌∷◌, String, str_eq,
}
use murlog.Prelude.Tables.{any_row}
use murlog.Prelude.Keys.{IdsUnique}
use murlog.Domain.{JobType}
use murlog.Queue.{has_id, inserted}
use murlog.Queue.Updates.{enqueue-new}
use murlog.Externals.{Externals}
use murlog.Worker.{World, success}
use murlog.Worker.Fanout.{new_job, follower_id, fanout_to_followers, or_stuck}
use murlog.Worker.Fanout.Pages.{audience}
use murlog.Worker.Fanout.Delivery.{Sent, deliver_each, Fresh}
use murlog.Worker.Fanout.Delivery.Complete.{fanout_to_followers_lem}
use murlog.Worker.Fanout.Announce.{
  make_announce, announce_payload, announce_author, announce_to, kept,
}

-- what the followers' delivery starts from: the author of the post has been told, if there is one
abbrev pub author_told : Externals → ℕ → String → String → String → String → World → Sent
author_told ext now persona post activity target w =
    if str_eq target ""
    then record { delivered = []; draws = w.draws; queue = w.queue }
    else record {
      delivered = target ∷ [];
      draws = suc (w.draws);
      queue =
          inserted (
            new_job ext now w.draws JobType.deliver_announce
              (announce_payload persona post activity target))
          ∷ w.queue;
    }

-- no id that is still to be drawn is in the queue
abbrev pub AreNew : Externals → World → Type 0
AreNew ext w = (n : ℕ) → w.draws ≤ n → any_row (has_id (ext.new_id n)) w.queue ≡ false

module _ (ext : Externals) (now : ℕ) (activity : String) (id : ℕ) (persona post target : String)
    (w : World) (injective : (m n : ℕ) → ext.new_id m ≡ ext.new_id n → m ≡ n)
    (unique : IdsUnique follower_id w.store.followers) (fresh : AreNew ext w) where
  author_lem : announce_author ext now activity persona post target w ≡ (
      let s = author_told ext now persona post activity target w in
      (s.delivered, record w { queue = s.queue; draws = s.draws }))
  unfolding announce_author kept
  author_lem =
      let job =
        new_job ext now w.draws JobType.deliver_announce
          (announce_payload persona post activity target) in
      ground (arith, enqueue-new job w.queue (fresh w.draws (omega arith)))

  author_told-Fresh :
      Fresh ext now
        (make_announce persona post activity)
        w.store.failures
        (author_told ext now persona post activity target w)
  author_told-Fresh n le = ground (arith, fresh n, injective w.draws n)

  -- An announcement always succeeds while new ids are drawn: the author of the post is told first,
  -- and then the followers as in the plain loop over all of them.
  pub announce_to_lem : announce_to ext now activity id persona post target w ≡ (
      let sent =
        deliver_each ext now
          (make_announce persona post activity)
          w.store.failures
          (audience id w.store.followers)
          (author_told ext now persona post activity target w) in
      (record w { queue = sent.queue; draws = sent.draws }, success))
  unfolding announce_to or_stuck
  announce_to_lem =
      let s = author_told ext now persona post activity target w in
      ap
        (λ (r : List String × World).
          or_stuck r.1
            (fanout_to_followers ext now (make_announce persona post activity) id r.0 r.1))
        author_lem
      ∙ ap (or_stuck (record w { queue = s.queue; draws = s.draws })) (
          fanout_to_followers_lem ext now (make_announce persona post activity) id s.delivered
            (record w { queue = s.queue; draws = s.draws }) injective unique author_told-Fresh)
