-- ===== src/Inbox/Requests/Reach.antt =====
-- handler/activitypub.go: handleInbox as a sequence of calls of the store.
use murlog.Prelude.{ℕ, not, ◌&&◌, ◌||◌, Option, none, some, String, str_eq, Bool-cases, inl, inr}
use murlog.Domain.Social.{Persona}
use murlog.Store.Interactions.{is_blocked}
use murlog.Signature.{Crypto, Request, header, verify_digest}
use murlog.Worker.{World}
use murlog.Inbox.{Activity, Site}
use murlog.Inbox.Effects.{Effects, done}
use murlog.Inbox.Relations.Reach.{
  handle_inbox_follow-Effects, handle_inbox_accept-Effects, handle_inbox_reject-Effects,
  handle_inbox_block-Effects, handle_inbox_undo-Effects, handle_inbox_like-Effects,
}
use murlog.Inbox.Changes.Reach.{
  handle_inbox_announce-Effects, handle_inbox_create-Effects, handle_inbox_update-Effects,
  handle_inbox_delete-Effects,
}
use murlog.Inbox.Requests.{
  Verb, follow, undo, create, like, announce, block, delete, update, accept, reject, other,
  handle_verb, verb_of, is_exempt, Delivery, handle_inbox, check_persona, check_body,
  check_signature, check_actor, receive, verify_inbox_signature,
}

handle_verb-Effects :
    (site : Site) (v : Verb) (persona : Persona) (activity : Activity) (w : World)
    → Effects w.store (handle_verb site v persona activity w).store
unfolding handle_verb
handle_verb-Effects site follow persona = handle_inbox_follow-Effects site persona
handle_verb-Effects site undo persona = handle_inbox_undo-Effects site persona
handle_verb-Effects site create persona = handle_inbox_create-Effects site persona
handle_verb-Effects site like persona = handle_inbox_like-Effects site persona
handle_verb-Effects site announce persona = handle_inbox_announce-Effects site persona
handle_verb-Effects site block persona = handle_inbox_block-Effects site persona
handle_verb-Effects site delete persona = handle_inbox_delete-Effects site persona
handle_verb-Effects site update persona = handle_inbox_update-Effects site persona
handle_verb-Effects site accept persona = handle_inbox_accept-Effects site persona
handle_verb-Effects site reject persona = handle_inbox_reject-Effects site persona
handle_verb-Effects site other persona = λ activity w. done

module _ (site : Site) (crypto : Crypto) (decode : String → Option Activity) (clock : ℕ) where
  receive-Effects :
      (persona : Persona) (activity : Activity) (w : World)
      → Effects w.store (receive site crypto decode clock persona activity w).1.store
  unfolding receive
  receive-Effects persona activity w =
      elim (Bool-cases
        (not (is_exempt activity.kind) && is_blocked site.ext.hostname activity.actor w.store)) [
          | inl e ↦ rw e done
          | inr e ↦ rw e (handle_verb-Effects site (verb_of activity.kind) persona activity w)
        ]

  check_actor-Effects :
      (persona : Persona) (signer : String) (o : Option Activity) (w : World)
      → Effects w.store (check_actor site crypto decode clock persona signer o w).1.store
  unfolding check_actor
  check_actor-Effects persona signer none w = done
  check_actor-Effects persona signer (some activity) w =
      elim (Bool-cases (str_eq activity.actor signer)) [
        | inl e ↦ rw e (receive-Effects persona activity w)
        | inr e ↦ rw e done
      ]

  check_signature-Effects :
      (persona : Persona) (body : String) (o : Option String) (w : World)
      → Effects w.store (check_signature site crypto decode clock persona body o w).1.store
  unfolding check_signature
  check_signature-Effects persona body none w = done
  check_signature-Effects persona body (some signer) w =
      check_actor-Effects persona signer (decode body) w

  check_body-Effects :
      (persona : Persona) (r : Request) (o : Option String) (w : World)
      → Effects w.store (check_body site crypto decode clock persona r o w).1.store
  unfolding check_body
  check_body-Effects persona r none w = done
  check_body-Effects persona r (some sent) w =
      elim (Bool-cases
        (str_eq (header crypto "Digest" r) "" || not (verify_digest crypto r sent))) [
          | inl e ↦ rw e done
          | inr e ↦ rw e (
              check_signature-Effects persona sent
                (verify_inbox_signature site crypto decode clock r sent) w)
        ]

  check_persona-Effects :
      (o : Option Persona) (d : Delivery) (w : World)
      → Effects w.store (check_persona site crypto decode clock o d w).1.store
  unfolding check_persona
  check_persona-Effects none d w = done
  check_persona-Effects (some persona) d w = check_body-Effects persona d.request d.body w

  pub handle_inbox-Effects :
      (d : Delivery) (w : World)
      → Effects w.store (handle_inbox site crypto decode clock d w).1.store
  unfolding handle_inbox
  handle_inbox-Effects d w = check_persona-Effects _ d w
