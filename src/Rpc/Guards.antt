-- ===== src/Rpc/Guards.antt =====
-- handler/rpc.go: what the dispatcher lets through, and what it answers.
use murlog.Prelude.{
  ◌==◌, ltb, Bool, true, false, ◌≡◌, ◌≢◌, inl, inr, refl, ap, ◌∙◌, arith, Option, none, some, List,
  [], ◌∷◌, All, String, str_eq, map, length, Bool-cases,
}
use murlog.Rpc.{
  RpcRequest, RpcResponse, RpcResult, result, failed, Reply, no_content, one, many, Server,
  dispatch_rpc, guarded, refuse, run, dispatch_all, keep, reply_all, handle_rpc_batch,
}
use murlog.Rpc.Methods.{is_public}

abbrev pub IsError : RpcResult → Type 0
IsError (result r) = ⊥
IsError (failed code message) = Unit {0}

module _ {S : Type 0} (server : Server S) where
  -- not a method that is public: a method behind the login, or none at all
  abbrev pub IsGuarded : RpcRequest → Type 0
  IsGuarded req = is_public req.method server.methods ≢ some true

  guarded_lem :
      (req : RpcRequest) (found : Option Bool) (s : S)
      → found ≢ some true
      → server.is_authed s ≡ false
      → ((guarded server req found s).0 ≡ s) × IsError (guarded server req found s).1.answer
  unfolding guarded refuse
  guarded_lem req none s h out = (refl, tt)
  guarded_lem req (some true) s h out = absurd (h refl)
  guarded_lem req (some false) s h out = rw out (refl, tt)

  -- Without a login, a request for a method that is not public is answered by an error and leaves
  -- the server as it is.
  pub dispatch_rpc-guarded :
      (req : RpcRequest) (s : S)
      → IsGuarded req
      → server.is_authed s ≡ false
      → ((dispatch_rpc server req s).0 ≡ s) × IsError (dispatch_rpc server req s).1.answer
  unfolding dispatch_rpc refuse
  dispatch_rpc-guarded req s h out = elim (Bool-cases (str_eq req.jsonrpc "2.0")) [
    | inl e ↦ rw e (guarded_lem req (is_public req.method server.methods) s h out)
    | inr e ↦ rw e (refl, tt)
  ]

  keep-All :
      (P : RpcResponse → Type 0) (id : Option String) (r : RpcResponse) (rs : List RpcResponse)
      → P r
      → All P rs
      → All P (keep server id r rs)
  unfolding keep
  keep-All P none r rs p ps = ps
  keep-All P (some id) r rs p ps = (p, ps)

  dispatch_all-guarded :
      (reqs : List RpcRequest) (s : S)
      → All IsGuarded reqs
      → server.is_authed s ≡ false
      → ((dispatch_all server reqs s).0 ≡ s)
        × All (λ r. IsError r.answer) (dispatch_all server reqs s).1
  unfolding dispatch_all
  dispatch_all-guarded [] s h out = (refl, tt)
  dispatch_all-guarded (req ∷ reqs) s h out =
      let (same, error) = dispatch_rpc-guarded req s h.0 out in
      let s' = (dispatch_rpc server req s).0 in
      let (kept, errors) = dispatch_all-guarded reqs s' h.1 (ap server.is_authed same ∙ out) in
      (kept ∙ same, keep-All (λ r. IsError r.answer) req.id _ _ error errors)

  abbrev pub IsRefusal : Reply → Type 0
  IsRefusal no_content = Unit {0}
  IsRefusal (one r) = IsError r.answer
  IsRefusal (many rs) = All (λ r. IsError r.answer) rs

  reply_all-IsRefusal :
      (r : S × List RpcResponse)
      → All (λ a. IsError a.answer) r.1
      → ((reply_all server r).0 ≡ r.0) × IsRefusal (reply_all server r).1
  unfolding reply_all
  reply_all-IsRefusal (s, []) h = (refl, tt)
  reply_all-IsRefusal (s, r ∷ rs) h = (refl, h)

  -- Without a login, a batch of requests for methods that are not public changes nothing, whatever
  -- its size, and every response in the reply is an error.
  pub handle_rpc_batch-guarded :
      (reqs : List RpcRequest) (s : S)
      → All IsGuarded reqs
      → server.is_authed s ≡ false
      → ((handle_rpc_batch server (some reqs) s).0 ≡ s)
        × IsRefusal (handle_rpc_batch server (some reqs) s).1
  unfolding handle_rpc_batch
  handle_rpc_batch-guarded reqs s h out =
      let (same, errors) = dispatch_all-guarded reqs s h out in
      let (kept, refusal) = reply_all-IsRefusal (dispatch_all server reqs s) errors in
      elim (Bool-cases (length reqs == 0)) [
        | inl e ↦ rw e (refl, tt)
        | inr e ↦ elim (Bool-cases (ltb 100 (length reqs))) [
          | inl f ↦ rw (e, f) (refl, tt)
          | inr f ↦ rw (e, f) (kept ∙ same, refusal)
        ]
      ]

  add_id : Option String → List (Option String) → List (Option String)
  add_id none rest = rest
  add_id (some id) rest = some id ∷ rest

  -- the ids of the requests that have one
  pub ids : List RpcRequest → List (Option String)
  unfolding add_id
  ids [] = []
  ids (req ∷ reqs) = add_id req.id (ids reqs)

  keep-ids :
      (id : Option String) (r : RpcResponse) (rs : List RpcResponse) (is : List (Option String))
      → r.id ≡ id
      → map (λ a. a.id) rs ≡ is
      → map (λ a. a.id) (keep server id r rs) ≡ add_id id is
  unfolding keep add_id
  keep-ids none r rs is h hs = hs
  keep-ids (some id) r rs is h hs = cc

  guarded-id :
      (req : RpcRequest) (found : Option Bool) (s : S) → (guarded server req found s).1.id ≡ req.id
  unfolding guarded refuse run
  guarded-id req none s = refl
  guarded-id req (some true) s = refl
  guarded-id req (some false) s = ground arith

  dispatch_rpc-id : (req : RpcRequest) (s : S) → (dispatch_rpc server req s).1.id ≡ req.id
  unfolding dispatch_rpc refuse
  dispatch_rpc-id req s = ground (arith, guarded-id req (is_public req.method server.methods) s)

  -- The responses to a batch answer the requests that have an id, in the order of the batch, and no
  -- others.
  pub dispatch_all-ids :
      (reqs : List RpcRequest) (s : S) → map (λ r. r.id) (dispatch_all server reqs s).1 ≡ ids reqs
  unfolding dispatch_all ids
  dispatch_all-ids [] s = refl
  dispatch_all-ids (req ∷ reqs) s =
      keep-ids req.id _ _ (ids reqs) (dispatch_rpc-id req s)
        (dispatch_all-ids reqs (dispatch_rpc server req s).0)
