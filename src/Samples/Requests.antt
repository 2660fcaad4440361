-- ===== src/Samples/Requests.antt =====
-- The theorems on whole requests at the sample server.
use anp_server_go.Common.{
  List, Option, String, [], arith, eq_iff, false, none, pair, pair_eq, refl, some, string_eq, ℕ,
  ◌+◌, ◌==◌, ◌∷◌, ◌≡◌, ◌≢◌,
}
use mathlib.Core.Bool.{false≢true}
use mathlib.Core.Path.{subst}
use anp_server_go.Auth.{header_get, is_empty}
use anp_server_go.Auth.Registration.{IsSignedFor, handle_rpc_document}
use anp_server_go.Auth.Unsigned.{IsNoRegistration, IsUnsigned, handle_rpc_unsigned}
use anp_server_go.Common.Dict.{lookup}
use anp_server_go.Env.{RpcRequest}
use anp_server_go.Evolution.{Evolves}
use anp_server_go.Evolution.Dispatch.{handle_rpc-Evolves, serve_handles}
use anp_server_go.Exec.{err, ok, ◌>>=◌}
use anp_server_go.Handle.{handle_register}
use anp_server_go.Inbox.{inbox_rows}
use anp_server_go.Inbox.Order.{inbox_rows-IsBelow}
use anp_server_go.Json.{Json, get_map, get_str, lookup_field, object, str}
use anp_server_go.Numbering.{AreUnique, IsBelow, IsNumbered, serve-IsNumbered}
use anp_server_go.Rpc.{
  cache_key, dispatch, dispatch_idempotent, operation_id, run, run_first, unknown_method,
}
use anp_server_go.Rpc.Entry.{handle_rpc, read_body, serve}
use anp_server_go.Rpc.Replay.{dispatch_idempotent_failed, dispatch_idempotent_replay}
use anp_server_go.Samples.{
  alice, alice_document, board_with_notes, bob, db, env, register_body, request, unsigned_request,
}
use anp_server_go.Sql.{insert_response, upsert_handle}
use anp_server_go.Store.{empty}

handle_rpc-Evolves_example : Evolves db (handle_rpc env request db).1
handle_rpc-Evolves_example = handle_rpc-Evolves env request db

bob_kept : lookup "bob.x.org" db.handles ≡ some bob
unfolding lookup
bob_kept = refl

bob_named : bob ≢ ""
bob_named h = false≢true ((eq_iff bob "").1 h)

serve_handles_example :
    lookup "bob.x.org" (serve ((env, request) ∷ (env, unsigned_request) ∷ []) db).handles ≡ some bob
serve_handles_example =
    serve_handles ((env, request) ∷ (env, unsigned_request) ∷ []) db "bob.x.org" bob bob_kept
      bob_named

alice_registered : lookup alice db.registered_dids ≡ some alice_document
unfolding lookup
alice_registered = refl

unsigned : (body : List ℕ) → ¬ IsSignedFor env unsigned_request body alice alice_document
unfolding header_get
unsigned body (key, signed, named) = cc

handle_rpc_document_example :
    lookup alice (handle_rpc env unsigned_request db).1.registered_dids ≡ some alice_document
handle_rpc_document_example =
    handle_rpc_document env unsigned_request alice alice_document db alice_registered
      (λ bytes given. unsigned (read_body bytes))

abbrev register_reply : Json
register_reply =
    object (("did", str alice) ∷ ("handle", str "alice.x.org") ∷ ("status", str "registered") ∷ [])

named_operation : (operation_id (some register_body) == "") ≡ false
unfolding operation_id get_map get_str lookup_field
named_operation = refl

registered_once :
    (dispatch_idempotent env "handle.register" (some register_body) alice "" db).0
    ≡ ok (register_reply)
unfolding dispatch_idempotent operation_id get_map get_str lookup_field dispatch run run_first
    lookup handle_register cache_key ◌>>=◌ upsert_handle insert_response
registered_once = refl

dispatch_idempotent_replay_example :
    (let later =
        serve
          ((env, unsigned_request) ∷ [])
          (dispatch_idempotent env "handle.register" (some register_body) alice "" db).1 in
      dispatch_idempotent env "handle.register" (some register_body) alice "https://x.org" later
      ≡ (ok (register_reply), later))
dispatch_idempotent_replay_example =
    dispatch_idempotent_replay env env "handle.register" (some register_body) (some register_body)
      alice "" "https://x.org" db _ ((env, unsigned_request) ∷ []) named_operation refl
      registered_once

registered : is_empty db.registered_dids ≡ false
registered = refl

nobody_signed : IsUnsigned env unsigned_request
unfolding header_get
nobody_signed doc body = refl

abbrev method_of : Option RpcRequest → String
method_of none = ""
method_of (some rpc) = rpc.method

no_registration : (body : List ℕ) → IsNoRegistration env body
no_registration body rpc parsed =
    subst (λ o. (method_of o == "did.register_document") ≡ false) parsed refl

handle_rpc_unsigned_example : (handle_rpc env unsigned_request db).1 ≡ db
handle_rpc_unsigned_example =
    handle_rpc_unsigned env unsigned_request db registered nobody_signed
      (λ bytes given. no_registration (read_body bytes))

unknown_fails :
    (dispatch_idempotent env "group.delete" (some register_body) alice "" db).0
    ≡ err (unknown_method "group.delete")
unfolding dispatch_idempotent operation_id get_map get_str lookup_field dispatch run run_first
    lookup cache_key ◌>>=◌ insert_response
unknown_fails = refl

dispatch_idempotent_failed_example :
    (dispatch_idempotent env "group.delete" (some register_body) alice "" db).1.idempotency
    ≡ db.idempotency
dispatch_idempotent_failed_example =
    dispatch_idempotent_failed env "group.delete" (some register_body) alice "" db
      (unknown_method "group.delete") unknown_fails

notes-IsBelow : IsBelow 4 board_with_notes.messages
notes-IsBelow = pair (omega arith) (pair (omega arith) (pair (omega arith) tt))

notes_unique : AreUnique board_with_notes.messages
notes_unique = pair refl (pair refl (pair refl tt))

serve-IsNumbered_example :
    IsNumbered (serve ((env, request) ∷ (env, unsigned_request) ∷ []) board_with_notes)
serve-IsNumbered_example =
    serve-IsNumbered ((env, request) ∷ (env, unsigned_request) ∷ []) board_with_notes
      (notes-IsBelow, notes_unique)

inbox_rows-IsBelow_example :
    IsBelow
      ((serve ((env, request) ∷ []) empty).last_id + 1)
      (inbox_rows (serve ((env, request) ∷ []) empty) bob 20)
inbox_rows-IsBelow_example = inbox_rows-IsBelow ((env, request) ∷ []) bob 20
