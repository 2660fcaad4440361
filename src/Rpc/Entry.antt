-- ===== src/Rpc/Entry.antt =====
-- internal/server/rpc.go: handleRPC, the entry point of POST /rpc.
use anp_server_go.Common.{
  Bool, List, Option, String, [], concat, false, if◌then◌else◌, length, ltb, none, some, take, ℕ,
  ◌+◌, ◌==◌, ◌∷◌,
}
use anp_server_go.Auth.{verify, verify_registration}
use anp_server_go.Env.{Env, Request, RpcRequest}
use anp_server_go.Exec.{Code, Error, Exec, Result, err, ok, plain}
use anp_server_go.Json.{Json}
use anp_server_go.Rpc.{dispatch_idempotent}
use anp_server_go.Store.{Db}
use text.Mathlib.Text.{starts_with}

-- maxBodyBytes
abbrev pub max_body_bytes : ℕ
max_body_bytes = 1048576

-- The body of the HTTP response: the request's id with a result or an error. The protocol's codes
-- are the numbers -32600, -32601 and -32700; `failure` carries a handler's error with its code.
pub data Response : Type 0 where
  result : Json → Json → Response
  bad_request parse_failed : String → Response
  method_missing failure : Json → Error → Response

-- io.ReadAll of the body behind a limit of one byte more than is allowed.
unfoldable pub read_body : List ℕ → List ℕ
read_body bytes = take (max_body_bytes + 1) bytes

-- An error that is no *rpcError and begins with "unknown method" is sent as -32601.
abbrev pub is_unknown : Code → String → Bool
is_unknown plain format = starts_with format "unknown method"
is_unknown _ format = false

abbrev pub reply_of : Json → Result Json → Response
reply_of id (ok v) = result id v
reply_of id (err e) = if is_unknown e.code e.format then method_missing id e else failure id e

unfoldable pub authenticate : Env → Request → List ℕ → RpcRequest → Exec String
authenticate env req body rpc =
    if rpc.method == "did.register_document"
    then verify_registration env req body rpc.params
    else verify env req body

unfoldable pub base_url_of : Request → String
base_url_of req = concat (if req.tls then "https" else "http") (concat "://" req.host)

-- The dispatch with its caller's identity, under the server's mutex.
unfoldable pub answer : Env → Request → RpcRequest → Result String → Db → Response × Db
answer env req rpc (err e) s = (failure rpc.id e, s)
answer env req rpc (ok did) s =
    let (r, t) = dispatch_idempotent env rpc.method rpc.params did (base_url_of req) s in
    (reply_of rpc.id r, t)

unfoldable pub handle_parsed : Env → Request → List ℕ → Option RpcRequest → Db → Response × Db
handle_parsed env req body none s = (parse_failed "parse error", s)
handle_parsed env req body (some rpc) s =
    let (identity, t) = authenticate env req body rpc s in answer env req rpc identity t

unfoldable pub handle_body : Env → Request → Option (List ℕ) → Db → Response × Db
unfolding read_body
handle_body env req none s = (parse_failed "read error", s)
handle_body env req (some bytes) s =
    let body = read_body bytes in
    if ltb max_body_bytes (length body)
    then (bad_request "request too large", s)
    else handle_parsed env req body (env.parse_request body) s

unfoldable pub handle_rpc : Env → Request → Db → Response × Db
handle_rpc env req s =
    if req.method == "POST"
    then handle_body env req req.body s
    else (bad_request "method not allowed", s)

-- A run of the server: requests to /rpc one after the other, each with the environment it meets.
unfoldable pub serve : List (Env × Request) → Db → Db
serve [] s = s
serve ((env, req) ∷ rest) s = serve rest (handle_rpc env req s).1
