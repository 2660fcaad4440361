-- ===== src/Rpc.antt =====
-- internal/server/rpc.go: the routing of JSON-RPC methods.
pub mod Entry
pub mod Replay
use anp_server_go.Common.{
  List, Option, String, [], concat, if◌then◌else◌, none, pair_eq, some, string_eq, ◌==◌, ◌∷◌,
}
use anp_server_go.Attachment.Slots.{
  attachment_abort_object, attachment_commit_object, attachment_create_slot,
}
use anp_server_go.Attachment.Tickets.{attachment_get_download_ticket}
use anp_server_go.Common.Dict.{lookup}
use anp_server_go.Did.{did_register_document, did_resolve}
use anp_server_go.Direct.{direct_send, get_prekey_bundle, publish_prekey_bundle}
use anp_server_go.Env.{Env}
use anp_server_go.Exec.{Error, Exec, errorf, gets, pure, raise, ◌>>=◌, ◌>>◌}
use anp_server_go.Group.Membership.{group_add, group_create, group_join, group_leave, group_remove}
use anp_server_go.Group.Send.{group_send, placeholder}
use anp_server_go.Group.Updates.{
  group_get_info, group_rebind_member, group_update_policy, group_update_profile,
}
use anp_server_go.GroupE2ee.Messages.{group_e2ee_notice, group_e2ee_send}
use anp_server_go.GroupE2ee.Packages.{get_key_package, publish_key_package}
use anp_server_go.GroupE2ee.States.{group_e2ee_add, group_e2ee_create, group_e2ee_remove}
use anp_server_go.Handle.{handle_recover, handle_register}
use anp_server_go.Inbox.{msg_inbox}
use anp_server_go.Json.{GoMap, Json, get_map, get_str}
use anp_server_go.Sql.{insert_response}

-- The cases of the switch in `dispatch`.
pub data Method : Type 0 where
  inbox resolve register_document register_handle recover_handle : Method
  send_direct publish_bundle get_bundle direct_incoming : Method
  create get_info join add remove leave update_profile update_policy send_group : Method
  incoming state_changed rebind_member : Method
  publish_package get_package create_e2ee add_e2ee remove_e2ee send_e2ee notice_e2ee : Method
  create_slot commit_object abort_object get_ticket : Method

abbrev pub routes : List (String × Method)
routes =
    ("msg.inbox", inbox)
    ∷ ("did.resolve", resolve)
    ∷ ("did.register_document", register_document)
    ∷ ("handle.register", register_handle)
    ∷ ("handle.recover", recover_handle)
    ∷ ("direct.send", send_direct)
    ∷ ("direct.e2ee.publish_prekey_bundle", publish_bundle)
    ∷ ("direct.e2ee.get_prekey_bundle", get_bundle)
    ∷ ("direct.incoming", direct_incoming)
    ∷ ("group.create", create)
    ∷ ("group.get_info", get_info)
    ∷ ("group.join", join)
    ∷ ("group.add", add)
    ∷ ("group.remove", remove)
    ∷ ("group.leave", leave)
    ∷ ("group.update_profile", update_profile)
    ∷ ("group.update_policy", update_policy)
    ∷ ("group.send", send_group)
    ∷ ("group.incoming", incoming)
    ∷ ("group.state_changed", state_changed)
    ∷ ("group.rebind_member", rebind_member)
    ∷ ("group.e2ee.publish_key_package", publish_package)
    ∷ ("group.e2ee.get_key_package", get_package)
    ∷ ("group.e2ee.create", create_e2ee)
    ∷ ("group.e2ee.add", add_e2ee)
    ∷ ("group.e2ee.remove", remove_e2ee)
    ∷ ("group.e2ee.send", send_e2ee)
    ∷ ("group.e2ee.notice", notice_e2ee)
    ∷ ("attachment.create_slot", create_slot)
    ∷ ("attachment.commit_object", commit_object)
    ∷ ("attachment.abort_object", abort_object)
    ∷ ("attachment.get_download_ticket", get_ticket)
    ∷ []

-- A request with its caller and the base URL that its Host header gives.
unfoldable pub run : Env → String → String → GoMap → Method → Exec Json
run env did base params inbox = msg_inbox did params
run env did base params resolve = did_resolve env params
run env did base params register_document = did_register_document params
run env did base params register_handle = handle_register env did params
run env did base params recover_handle = handle_recover did params
run env did base params send_direct = direct_send env did params
run env did base params publish_bundle = publish_prekey_bundle env did params
run env did base params get_bundle = get_prekey_bundle env params
run env did base params direct_incoming = placeholder
run env did base params create = group_create env did params
run env did base params get_info = group_get_info env params
run env did base params join = group_join env did params
run env did base params add = group_add env did params
run env did base params remove = group_remove did params
run env did base params leave = group_leave did params
run env did base params update_profile = group_update_profile did params
run env did base params update_policy = group_update_policy did params
run env did base params send_group = group_send env did params
run env did base params incoming = placeholder
run env did base params state_changed = placeholder
run env did base params rebind_member = group_rebind_member did params
run env did base params publish_package = publish_key_package env did params
run env did base params get_package = get_key_package params
run env did base params create_e2ee = group_e2ee_create env did params
run env did base params add_e2ee = group_e2ee_add env did params
run env did base params remove_e2ee = group_e2ee_remove env did params
run env did base params send_e2ee = group_e2ee_send env did params
run env did base params notice_e2ee = group_e2ee_notice env params
run env did base params create_slot = attachment_create_slot env did base params
run env did base params commit_object = attachment_commit_object env params
run env did base params abort_object = attachment_abort_object env params
run env did base params get_ticket = attachment_get_download_ticket env did params

abbrev pub unknown_method : String → Error
unknown_method method = errorf "unknown method %q" (method ∷ [])

abbrev pub run_or_unknown : Env → String → String → GoMap → String → Option Method → Exec Json
run_or_unknown env did base params method none = raise (unknown_method method)
run_or_unknown env did base params method (some m) = run env did base params m

unfoldable pub dispatch : Env → String → GoMap → String → String → Exec Json
dispatch env method params did base =
    run_or_unknown env did base params method (lookup method routes)

-- `meta.operation_id`, or `operation_id` where that is missing or empty
unfoldable pub operation_id : GoMap → String
operation_id params =
    let id = get_str (get_map params "meta") "operation_id" in
    if id == "" then get_str params "operation_id" else id

unfoldable pub cache_key : String → String → String → String
cache_key did method id = concat did (concat "\0" (concat method (concat "\0" id)))

-- A first run, whose successful response is kept.
unfoldable pub run_first : Env → String → GoMap → String → String → String → Exec Json
run_first env method params did base key = do
  result ← dispatch env method params did base
  insert_response key result
  pure result

abbrev pub cached_or_run : Option Json → Exec Json → Exec Json
cached_or_run none first = first
cached_or_run (some response) first = pure response

unfoldable pub dispatch_idempotent : Env → String → GoMap → String → String → Exec Json
dispatch_idempotent env method params did base =
    let id = operation_id params in
    let key = cache_key did method id in
    if id == "" then dispatch env method params did base else do
      cached ← gets (λ s. lookup key s.idempotency)
      cached_or_run cached (run_first env method params did base key)
