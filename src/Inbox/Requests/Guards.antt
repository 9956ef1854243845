-- ===== src/Inbox/Requests/Guards.antt =====
-- handler/activitypub.go: what handleInbox asks of a request before any handler runs.
use mathlib.Core.Path.{subst}
use murlog.Prelude.{
  ℕ, true, false, ◌≡◌, ◌⊎◌, refl, arith, Option, none, some, String, str_eq, eq_iff, Bool-cases,
  inl, inr, Option-cases,
}
use murlog.Prelude.Tables.{find_row}
use murlog.Domain.Social.{Persona}
use murlog.Store.Interactions.{is_blocked}
use murlog.Signature.{
  Crypto, Request, header, verify_digest, verify_request, parse_signature_key_id,
}
use murlog.Worker.{World}
use murlog.Inbox.{Activity, Actor, Site}
use murlog.Inbox.Requests.{
  Delivery, Status, accepted, handle_inbox, check_persona, check_body, check_signature, check_actor,
  receive, verify_inbox_signature, verify_key, handle_verb, verb_of, is_exempt, key_owner,
}

module _ (site : Site) (crypto : Crypto) (decode : String → Option Activity) (clock : ℕ) where
  -- `signer` is who signed the request: the owner of the key that it names, whose published key
  -- verifies it
  pub record Signed (r : Request) (body signer : String) : Type 0 where
    pub key_id : String
    pub actor : Actor
    pub names : parse_signature_key_id (header crypto "Signature" r) ≡ some key_id
    pub owner : key_owner key_id ≡ signer
    pub fetched : site.fetch_actor signer ≡ some actor
    pub verified : verify_request crypto clock r actor.public_key_pem body ≡ true

  -- the request is for the persona, and `activity` is what it brings
  pub record Granted (d : Delivery) (w : World) : Type 0 where
    pub persona : Persona
    pub sent : String
    pub activity : Activity
    pub found : find_row (λ p. str_eq p.username d.username) w.store.personas ≡ some persona
    pub read : d.body ≡ some sent
    pub has_digest : str_eq (header crypto "Digest" d.request) "" ≡ false
    pub digested : verify_digest crypto d.request sent ≡ true
    pub decoded : decode sent ≡ some activity
    pub signed : Signed d.request sent activity.actor
    pub allowed :
        (is_exempt activity.kind ≡ true)
        ⊎ (is_blocked site.ext.hostname activity.actor w.store ≡ false)
    pub handled :
        handle_inbox site crypto decode clock d w
        ≡ (accepted, handle_verb site (verb_of activity.kind) persona activity w)

  verify_key-some :
      (r : Request) (body owner : String) (o : Option Actor) (signer : String)
      → verify_key site crypto decode clock r body owner o ≡ some signer
      → (owner ≡ signer)
        × (actor : Actor) × (o ≡ some actor)
        × (verify_request crypto clock r actor.public_key_pem body ≡ true)
  unfolding verify_key
  verify_key-some r body owner none signer h = cc
  verify_key-some r body owner (some actor) signer h = (ground arith, actor, refl, ground arith)

  verify-Signed :
      (r : Request) (body signer : String)
      → verify_inbox_signature site crypto decode clock r body ≡ some signer
      → Signed r body signer
  unfolding verify_inbox_signature
  verify-Signed r body signer h =
      elim (Option-cases (parse_signature_key_id (header crypto "Signature" r))) [
        | inl e ↦ let h' : none ≡ some signer = rw (e, verify_inbox_signature) at h in cc
        | inr (key_id, e) ↦
            let owner = key_owner key_id in
            let h' : verify_key site crypto decode clock r body owner (site.fetch_actor owner)
                ≡ some signer =
              rw (e, verify_inbox_signature) at h in
            let v = verify_key-some r body owner (site.fetch_actor owner) signer h' in
            record {
              key_id = key_id;
              actor = v.1;
              names = e;
              owner = v.0;
              fetched = rw v.0 at v.2;
              verified = v.3;
            }
      ]

  -- what the checks behind the signature leave open
  Received : Persona → String → Option Activity → World → Status × World → Type 0
  Received persona signer o w out =
      (activity : Activity) × (o ≡ some activity)
      × (activity.actor ≡ signer)
      × ((is_exempt activity.kind ≡ true)
          ⊎ (is_blocked site.ext.hostname activity.actor w.store ≡ false))
      × (out ≡ (accepted, handle_verb site (verb_of activity.kind) persona activity w))

  receive-cases :
      (persona : Persona) (activity : Activity) (w : World)
      → ((receive site crypto decode clock persona activity w).1 ≡ w)
        ⊎ Received persona activity.actor
            (some activity)
            w
            (receive site crypto decode clock persona activity w)
  unfolding receive Received
  receive-cases persona activity w = elim (Bool-cases (is_exempt activity.kind)) [
    | inl e ↦ rw e (inr (activity, refl, refl, inl e, refl))
    | inr e ↦ elim (Bool-cases (is_blocked site.ext.hostname activity.actor w.store)) [
      | inl b ↦ rw (e, b) (inl refl)
      | inr b ↦ rw (e, b) (inr (activity, refl, refl, inr b, refl))
    ]
  ]

  check_actor-cases :
      (persona : Persona) (signer : String) (o : Option Activity) (w : World)
      → ((check_actor site crypto decode clock persona signer o w).1 ≡ w)
        ⊎ Received persona signer o w (check_actor site crypto decode clock persona signer o w)
  unfolding check_actor
  check_actor-cases persona signer none w = inl refl
  check_actor-cases persona signer (some activity) w =
      elim (Bool-cases (str_eq activity.actor signer)) [
        | inl e ↦
            let same : activity.actor ≡ signer = ground (arith, eq_iff activity.actor signer) in
            let out = receive site crypto decode clock persona activity w in
            rw e (
              subst (λ x. (out.1 ≡ w) ⊎ Received persona x (some activity) w out) same
                (receive-cases persona activity w))
        | inr e ↦ rw e (inl refl)
      ]

  check_signature-cases :
      (persona : Persona) (body : String) (o : Option String) (w : World)
      → ((check_signature site crypto decode clock persona body o w).1 ≡ w)
        ⊎ ((signer : String) × (o ≡ some signer)
            × Received persona signer
                (decode body)
                w
                (check_signature site crypto decode clock persona body o w))
  unfolding check_signature
  check_signature-cases persona body none w = inl refl
  check_signature-cases persona body (some signer) w =
      elim (check_actor-cases persona signer (decode body) w) [
        | inl e ↦ inl e
        | inr r ↦ inr (signer, refl, r)
      ]

  -- the request passes the checks of the digest, the signature and the activity
  Passed : Persona → Request → String → World → Status × World → Type 0
  Passed persona r body w out =
      (signer : String) × (str_eq (header crypto "Digest" r) "" ≡ false)
      × (verify_digest crypto r body ≡ true)
      × (verify_inbox_signature site crypto decode clock r body ≡ some signer)
      × Received persona signer (decode body) w out

  check_body-cases :
      (persona : Persona) (r : Request) (sent : String) (w : World)
      → ((check_body site crypto decode clock persona r (some sent) w).1 ≡ w)
        ⊎ Passed persona r sent w (check_body site crypto decode clock persona r (some sent) w)
  unfolding check_body Passed
  check_body-cases persona r sent w = elim (Bool-cases (str_eq (header crypto "Digest" r) "")) [
    | inl e ↦ rw e (inl refl)
    | inr e ↦ elim (Bool-cases (verify_digest crypto r sent)) [
      | inr v ↦ rw (e, v) (inl refl)
      | inl v ↦
          elim (check_signature-cases persona sent
            (verify_inbox_signature site crypto decode clock r sent) w) [
              | inl same ↦ rw (e, v) (inl same)
              | inr (signer, signed, received) ↦
                  rw (e, v) (inr (signer, refl, refl, signed, received))
            ]
    ]
  ]

  -- A request that does not pass the guards of the inbox leaves the whole state as it is.
  pub handle_inbox-Granted :
      (d : Delivery) (w : World) → ((handle_inbox site crypto decode clock d w).1 ≡ w) ⊎ Granted d w
  unfolding handle_inbox check_persona Received Passed
  handle_inbox-Granted d w =
      elim (Option-cases (find_row (λ p. str_eq p.username d.username) w.store.personas)) [
        | inl e ↦ rw e (inl refl)
        | inr (persona, found) ↦ elim (Option-cases d.body) [
          | inl e ↦ rw (found, e, check_body) (inl refl)
          | inr (sent, read) ↦ elim (check_body-cases persona d.request sent w) [
            | inl same ↦ rw (found, read) (inl same)
            | inr (signer, has_digest, digested, signed, received) ↦ inr (record {
              persona = persona;
              sent = sent;
              activity = received.0;
              found = found;
              read = read;
              has_digest = has_digest;
              digested = digested;
              decoded = received.1;
              signed = rw received.2 (verify-Signed d.request _ signer signed);
              allowed = received.3;
              handled = rw (found, read) received.4;
            })
          ]
        ]
      ]
