-- ===== src/Writes/Dispatch.antt =====
-- Every dispatched request follows a preorder that the shared statements, the handlers on handles
-- and, where it is called, the registration of a document follow.
use anp_server_go.Common.{List, Option, String, ap, none, pair_eq, refl, some, string_eq, ℕ, ◌≡◌}
use anp_server_go.Auth.{
  check_signature, verify, verify_as, verify_owner, verify_registration, verify_service_signature,
  verify_signed,
}
use anp_server_go.Common.Dict.{lookup}
use anp_server_go.Did.{did_register_document}
use anp_server_go.Env.{Env, Request, RpcRequest}
use anp_server_go.Exec.{Error, Exec}
use anp_server_go.Handle.{handle_recover, handle_register}
use anp_server_go.Json.{Fields, GoMap, Json}
use anp_server_go.Moves.{
  Moves, Moves-bind, Moves-gets, Moves-if, Moves-pure, Moves-raise, Preorder, moves_rules,
}
use anp_server_go.Rpc.{
  Method, abort_object, add, add_e2ee, cached_or_run, commit_object, create, create_e2ee,
  create_slot, direct_incoming, dispatch, dispatch_idempotent, get_bundle, get_info, get_package,
  get_ticket, inbox, incoming, join, leave, notice_e2ee, publish_bundle, publish_package,
  rebind_member, recover_handle, register_document, register_handle, remove, remove_e2ee, resolve,
  routes, run, run_first, run_or_unknown, send_direct, send_e2ee, send_group, state_changed,
  update_policy, update_profile,
}
use anp_server_go.Rpc.Entry.{authenticate}
use anp_server_go.Sql.{insert_response}
use anp_server_go.Writes.{Writes}
use anp_server_go.Writes.Groups.{
  group_add-Moves, group_create-Moves, group_get_info-Moves, group_join-Moves, group_leave-Moves,
  group_rebind_member-Moves, group_remove-Moves, group_send-Moves, group_update_policy-Moves,
  group_update_profile-Moves,
}
use anp_server_go.Writes.Handlers.{did_resolve-Moves, msg_inbox-Moves, placeholder-Moves}
use anp_server_go.Writes.Messages.{
  attachment_abort_object-Moves, attachment_commit_object-Moves, attachment_create_slot-Moves,
  attachment_get_download_ticket-Moves, direct_send-Moves, get_key_package-Moves,
  get_prekey_bundle-Moves, group_e2ee_add-Moves, group_e2ee_create-Moves, group_e2ee_notice-Moves,
  group_e2ee_remove-Moves, group_e2ee_send-Moves, publish_key_package-Moves,
  publish_prekey_bundle-Moves,
}

-- The handlers that check what they bind.
pub record Bindings (p : Preorder) : Type 0 where
  pub register :
      (env : Env) (did : String) (params : GoMap) → Moves p (handle_register env did params)
  pub recover : (did : String) (params : GoMap) → Moves p (handle_recover did params)

module _ {p : Preorder} (w : Writes p) (b : Bindings p) where
  run-Moves :
      (env : Env) (did base : String) (params : GoMap) (m : Method)
      → (m ≡ register_document → Moves p (did_register_document params))
      → Moves p (run env did base params m)
  unfolding run
  run-Moves env did base params inbox document = msg_inbox-Moves env did params w
  run-Moves env did base params resolve document = did_resolve-Moves env did params w
  run-Moves env did base params register_document document = document refl
  run-Moves env did base params register_handle document = b.register env did params
  run-Moves env did base params recover_handle document = b.recover did params
  run-Moves env did base params send_direct document = direct_send-Moves env did params w
  run-Moves env did base params publish_bundle document =
      publish_prekey_bundle-Moves env did params w
  run-Moves env did base params get_bundle document = get_prekey_bundle-Moves env did params w
  run-Moves env did base params direct_incoming document = placeholder-Moves env did params w
  run-Moves env did base params create document = group_create-Moves env did params w
  run-Moves env did base params get_info document = group_get_info-Moves env did params w
  run-Moves env did base params join document = group_join-Moves env did params w
  run-Moves env did base params add document = group_add-Moves env did params w
  run-Moves env did base params remove document = group_remove-Moves env did params w
  run-Moves env did base params leave document = group_leave-Moves env did params w
  run-Moves env did base params update_profile document =
      group_update_profile-Moves env did params w
  run-Moves env did base params update_policy document = group_update_policy-Moves env did params w
  run-Moves env did base params send_group document = group_send-Moves env did params w
  run-Moves env did base params incoming document = placeholder-Moves env did params w
  run-Moves env did base params state_changed document = placeholder-Moves env did params w
  run-Moves env did base params rebind_member document = group_rebind_member-Moves env did params w
  run-Moves env did base params publish_package document =
      publish_key_package-Moves env did params w
  run-Moves env did base params get_package document = get_key_package-Moves env did params w
  run-Moves env did base params create_e2ee document = group_e2ee_create-Moves env did params w
  run-Moves env did base params add_e2ee document = group_e2ee_add-Moves env did params w
  run-Moves env did base params remove_e2ee document = group_e2ee_remove-Moves env did params w
  run-Moves env did base params send_e2ee document = group_e2ee_send-Moves env did params w
  run-Moves env did base params notice_e2ee document = group_e2ee_notice-Moves env did params w
  run-Moves env did base params create_slot document =
      attachment_create_slot-Moves env did params w base
  run-Moves env did base params commit_object document =
      attachment_commit_object-Moves env did params w
  run-Moves env did base params abort_object document =
      attachment_abort_object-Moves env did params w
  run-Moves env did base params get_ticket document =
      attachment_get_download_ticket-Moves env did params w

  run_or_unknown-Moves :
      (env : Env) (did base : String) (params : GoMap) (method : String) (m : Option Method)
      → (m ≡ some register_document → Moves p (did_register_document params))
      → Moves p (run_or_unknown env did base params method m)
  run_or_unknown-Moves env did base params method none document = Moves-raise _
  run_or_unknown-Moves env did base params method (some m) document =
      run-Moves env did base params m (λ e. document (ap some e))

  pub dispatch-Moves :
      (env : Env) (method : String) (params : GoMap) (did base : String)
      → (lookup method routes ≡ some register_document → Moves p (did_register_document params))
      → Moves p (dispatch env method params did base)
  unfolding dispatch
  dispatch-Moves env method params did base document =
      run_or_unknown-Moves env did base params method _ document

module _ {p : Preorder} where
  cached_or_run-Moves :
      (cached : Option Json) (first : Exec Json)
      → Moves p first
      → Moves p (cached_or_run cached first)
  cached_or_run-Moves none first h = h
  cached_or_run-Moves (some v) first h = Moves-pure v

module _ {p : Preorder} (w : Writes p) (b : Bindings p)
    (respond : (key : String) (v : Json) → Moves p (insert_response key v)) where
  run_first-Moves :
      (env : Env) (method : String) (params : GoMap) (did base key : String)
      → (lookup method routes ≡ some register_document → Moves p (did_register_document params))
      → Moves p (run_first env method params did base key)
  unfolding run_first
  run_first-Moves env method params did base key document =
      Moves-bind _ _ (dispatch-Moves w b env method params did base document)
        (λ v. Moves-bind _ _ (respond key v) (λ _. Moves-pure v))

  pub dispatch_idempotent-Moves :
      (env : Env) (method : String) (params : GoMap) (did base : String)
      → (lookup method routes ≡ some register_document → Moves p (did_register_document params))
      → Moves p (dispatch_idempotent env method params did base)
  unfolding dispatch_idempotent
  dispatch_idempotent-Moves env method params did base document =
      Moves-if _ _ _ (dispatch-Moves w b env method params did base document) (
        Moves-bind _ _ (Moves-gets _) (λ cached.
          cached_or_run-Moves cached _ (run_first-Moves env method params did base _ document)))

-- Authentication writes nothing.
module _ {p : Preorder} where
  check_signature-Moves :
      (env : Env) (req : Request) (body : List ℕ) (doc : GoMap) (failed : Error)
      → Moves p (check_signature env req body doc failed)
  unfolding check_signature
  check_signature-Moves env req body doc failed = search moves_rules

  verify_service_signature-Moves :
      (env : Env) (req : Request) (body : List ℕ) (did : String)
      → Moves p (verify_service_signature env req body did)
  unfolding verify_service_signature
  verify_service_signature-Moves env req body did =
      search (moves_rules, check_signature-Moves) depth 8

  verify_as-Moves :
      (env : Env) (req : Request) (body : List ℕ) (did : String) (doc : Option Fields)
      → Moves p (verify_as env req body did doc)
  unfolding verify_as
  verify_as-Moves env req body did none = search (moves_rules, verify_service_signature-Moves)
  verify_as-Moves env req body did (some doc) = search (moves_rules, check_signature-Moves)

  verify_signed-Moves :
      (env : Env) (req : Request) (body : List ℕ) → Moves p (verify_signed env req body)
  unfolding verify_signed
  verify_signed-Moves env req body = search (moves_rules, verify_as-Moves) depth 10

  verify_owner-Moves :
      (env : Env) (req : Request) (body : List ℕ) (did : String) (doc : Option Fields)
      → Moves p (verify_owner env req body did doc)
  unfolding verify_owner
  verify_owner-Moves env req body did none = Moves-pure did
  verify_owner-Moves env req body did (some doc) =
      search (moves_rules, check_signature-Moves) depth 8

  pub authenticate-Moves :
      (env : Env) (req : Request) (body : List ℕ) (rpc : RpcRequest)
      → Moves p (authenticate env req body rpc)
  unfolding authenticate verify verify_registration
  authenticate-Moves env req body rpc =
      search (moves_rules, verify_signed-Moves, verify_owner-Moves) depth 8
