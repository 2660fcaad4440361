-- ===== src/Writes/Entry.antt =====
-- Whole requests of internal/server/rpc.go, and runs of the server, along a preorder that all
-- statements and the registration of documents follow.
use anp_server_go.Common.{
  Bool-cases, List, Option, String, [], inl, inr, length, ltb, none, some, ℕ, ◌==◌, ◌∷◌,
}
use anp_server_go.Did.{did_register_document}
use anp_server_go.Env.{Env, Request, RpcRequest}
use anp_server_go.Exec.{Result, err, ok}
use anp_server_go.Json.{GoMap, Json}
use anp_server_go.Moves.{Moves, Preorder}
use anp_server_go.Rpc.Entry.{
  answer, authenticate, base_url_of, handle_body, handle_parsed, handle_rpc, max_body_bytes,
  read_body, serve,
}
use anp_server_go.Sql.{insert_response}
use anp_server_go.Store.{Db}
use anp_server_go.Writes.{Writes}
use anp_server_go.Writes.Dispatch.{Bindings, authenticate-Moves, dispatch_idempotent-Moves}

module _ {p : Preorder} (w : Writes p) (b : Bindings p)
    (respond : (key : String) (v : Json) → Moves p (insert_response key v))
    (document : (params : GoMap) → Moves p (did_register_document params)) where
  answer-Rel :
      (env : Env) (req : Request) (rpc : RpcRequest) (identity : Result String) (s : Db)
      → p.Rel s (answer env req rpc identity s).1
  unfolding answer
  answer-Rel env req rpc (err e) s = p.rel_refl s
  answer-Rel env req rpc (ok did) s =
      (dispatch_idempotent-Moves w b respond env rpc.method rpc.params did (base_url_of req)
          (λ _. document rpc.params)).at
        s

  handle_parsed-Rel :
      (env : Env) (req : Request) (body : List ℕ) (rpc : Option RpcRequest) (s : Db)
      → p.Rel s (handle_parsed env req body rpc s).1
  unfolding handle_parsed
  handle_parsed-Rel env req body none s = p.rel_refl s
  handle_parsed-Rel env req body (some rpc) s =
      let (identity, t) = authenticate env req body rpc s in
      p.rel_trans s t _ ((authenticate-Moves {p = p} env req body rpc).at s)
        (answer-Rel env req rpc identity t)

  handle_body-Rel :
      (env : Env) (req : Request) (body : Option (List ℕ)) (s : Db)
      → p.Rel s (handle_body env req body s).1
  unfolding handle_body
  handle_body-Rel env req none s = p.rel_refl s
  handle_body-Rel env req (some bytes) s =
      elim (Bool-cases (ltb max_body_bytes (length (read_body bytes)))) [
        | inl large ↦ rw large (p.rel_refl s)
        | inr fits ↦ rw fits (handle_parsed-Rel env req _ _ s)
      ]

  pub handle_rpc-Rel : (env : Env) (req : Request) (s : Db) → p.Rel s (handle_rpc env req s).1
  unfolding handle_rpc
  handle_rpc-Rel env req s = elim (Bool-cases (req.method == "POST")) [
    | inl post ↦ rw post (handle_body-Rel env req req.body s)
    | inr other ↦ rw other (p.rel_refl s)
  ]

  pub serve-Rel : (requests : List (Env × Request)) (s : Db) → p.Rel s (serve requests s)
  unfolding serve
  serve-Rel [] s = p.rel_refl s
  serve-Rel ((env, req) ∷ rest) s =
      p.rel_trans s (handle_rpc env req s).1 _ (handle_rpc-Rel env req s)
        (serve-Rel rest (handle_rpc env req s).1)
