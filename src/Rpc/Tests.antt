-- ===== src/Rpc/Tests.antt =====
-- A server that counts the calls that it runs, and the theorems about the dispatcher on it.
use murlog.Prelude.{ℕ, suc, ◌≡◌, refl, false, some, [], ◌∷◌, map}
use murlog.Rpc.{RpcRequest, Server, result, dispatch_all, handle_rpc_batch}
use murlog.Rpc.Methods.{registered, is_public}
use murlog.Rpc.Guards.{IsGuarded, IsRefusal, handle_rpc_batch-guarded, dispatch_all-ids, ids}

abbrev counting : Server ℕ
counting = record {
  methods = registered;
  call = λ name params calls. (suc calls, result "null");
  is_authed = λ calls. false;
}

abbrev delete_post : RpcRequest
delete_post = record { jsonrpc = "2.0"; method = "posts.delete"; params = "{}"; id = some "7" }

delete_post-IsGuarded : IsGuarded counting delete_post
unfolding is_public
delete_post-IsGuarded e = cc

handle_rpc_batch-guarded_example :
    ((handle_rpc_batch counting (some (delete_post ∷ [])) 3).0 ≡ 3)
    × IsRefusal counting (handle_rpc_batch counting (some (delete_post ∷ [])) 3).1
handle_rpc_batch-guarded_example =
    handle_rpc_batch-guarded counting (delete_post ∷ []) 3 (delete_post-IsGuarded, tt) refl

dispatch_all-ids_example :
    map (λ r. r.id) (dispatch_all counting (delete_post ∷ delete_post ∷ []) 3).1
    ≡ ids counting (delete_post ∷ delete_post ∷ [])
dispatch_all-ids_example = dispatch_all-ids counting (delete_post ∷ delete_post ∷ []) 3
