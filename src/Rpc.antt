-- ===== src/Rpc.antt =====
-- handler/rpc.go: the JSON-RPC 2.0 dispatcher. JSON itself is encoding/json's: bodies are bytes, and
-- parameters, results and ids are JSON texts.
pub mod Methods
pub mod Guards
mod Tests
use murlog.Prelude.{
  ℕ, suc, ◌+◌, Bool, true, false, not, ◌&&◌, ◌||◌, ◌==◌, if◌then◌else◌, ltb, leb, Option, none,
  some, List, [], ◌∷◌, String, str_eq, length,
}
use murlog.Rpc.Methods.{is_public}

-- the codes of the errors
pub data RpcCode : Type 0 where
  parse_error invalid_request method_not_found invalid_params internal_error : RpcCode
  unauthorized not_found conflict : RpcCode

-- rpcRequest; a missing or null id is `none`
pub record RpcRequest : Type 0 where
  pub jsonrpc : String
  pub method : String
  pub params : String
  pub id : Option String

-- rpcErr and a result, as a method returns them
pub data RpcResult : Type 0 where
  result : String → RpcResult
  failed : RpcCode → String → RpcResult

-- rpcResponse
pub record RpcResponse : Type 0 where
  pub id : Option String
  pub answer : RpcResult

-- what handleRPC writes
pub data Reply : Type 0 where
  no_content : Reply
  one : RpcResponse → Reply
  many : List RpcResponse → Reply

-- writeRPCError without an id
abbrev pub protocol_error : RpcCode → String → Reply
protocol_error code message = one (record { id = none; answer = failed code message })

-- trimLeft
pub trim_left : List ℕ → List ℕ
trim_left [] = []
trim_left (c ∷ s) =
    let rest = trim_left s in if c == 32 || (c == 9 || (c == 10 || c == 13)) then rest else c ∷ s

-- clampLimit on a value that is not negative
pub clamp_limit : ℕ → ℕ → ℕ → ℕ
clamp_limit val def max = if ltb val 1 then def else if ltb max val then max else val

-- The server around the dispatcher: its state, the public flags of the methods, the methods
-- themselves, and isRPCAuthed of the request's cookie and token.
pub record Server (S : Type 0) : Type 0 where
  pub methods : List (String × Bool)
  pub call : String → String → S → S × RpcResult
  pub is_authed : S → Bool

-- the JSON decoding of a single request and of a batch
pub record Decoder : Type 0 where
  pub single : List ℕ → Option RpcRequest
  pub batch : List ℕ → Option (List RpcRequest)

module _ {S : Type 0} (server : Server S) where
  refuse : RpcRequest → RpcCode → String → S → S × RpcResponse
  refuse req code message s = (s, record { id = req.id; answer = failed code message })

  run : RpcRequest → S → S × RpcResponse
  run req s =
      let r = server.call req.method req.params s in (r.0, record { id = req.id; answer = r.1 })

  -- dispatchRPC behind the lookup of the method
  guarded : RpcRequest → Option Bool → S → S × RpcResponse
  unfolding refuse run
  guarded req none s = refuse req method_not_found "method not found" s
  guarded req (some true) s = run req s
  guarded req (some false) s =
      if server.is_authed s then run req s else refuse req unauthorized "unauthorized" s

  -- dispatchRPC
  pub dispatch_rpc : RpcRequest → S → S × RpcResponse
  unfolding guarded
  dispatch_rpc req s =
      if str_eq req.jsonrpc "2.0"
      then guarded req (is_public req.method server.methods) s
      else refuse req invalid_request "invalid jsonrpc version" s

  -- a response is kept only for a request with an id
  keep : Option String → RpcResponse → List RpcResponse → List RpcResponse
  keep none resp rest = rest
  keep (some id) resp rest = resp ∷ rest

  -- the loop of handleRPCBatch
  pub dispatch_all : List RpcRequest → S → S × List RpcResponse
  unfolding dispatch_rpc keep
  dispatch_all [] s = (s, [])
  dispatch_all (req ∷ reqs) s =
      let r = dispatch_rpc req s in
      let rest = dispatch_all reqs r.0 in (rest.0, keep req.id r.1 rest.1)

  reply_all : S × List RpcResponse → S × Reply
  reply_all (s, []) = (s, no_content)
  reply_all (s, r ∷ rs) = (s, many (r ∷ rs))

  -- handleRPCBatch
  pub handle_rpc_batch : Option (List RpcRequest) → S → S × Reply
  unfolding reply_all dispatch_all
  handle_rpc_batch none s = (s, protocol_error parse_error "parse error")
  handle_rpc_batch (some reqs) s =
      if length reqs == 0
      then (s, protocol_error invalid_request "empty batch")
      else if ltb 100 (length reqs)
      then (s, protocol_error invalid_request "batch too large")
      else reply_all (dispatch_all reqs s)

  reply_one : RpcRequest → S × RpcResponse → S × Reply
  reply_one req (s, r) = elim req.id [ none ↦ (s, no_content) | some id ↦ (s, one r) ]

  -- handleRPCSingle
  pub handle_rpc_single : Option RpcRequest → S → S × Reply
  unfolding dispatch_rpc reply_one
  handle_rpc_single none s = (s, protocol_error parse_error "parse error")
  handle_rpc_single (some req) s = reply_one req (dispatch_rpc req s)

  -- handleRPC on a body that was read
  pub handle_rpc : Decoder → List ℕ → S → S × Reply
  unfolding trim_left handle_rpc_single handle_rpc_batch
  handle_rpc decoder body s = elim (trim_left body) [
    | [] ↦ (s, protocol_error invalid_request "empty request")
    | c ∷ rest ↦
        if c == b'['
        then handle_rpc_batch (decoder.batch (c ∷ rest)) s
        else handle_rpc_single (decoder.single (c ∷ rest)) s
  ]
