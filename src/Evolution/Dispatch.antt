-- ===== src/Evolution/Dispatch.antt =====
-- Requests and runs of the server along the preorder of Evolution.
use anp_server_go.Common.{List, String, pair_eq, some, string_eq, ◌≡◌, ◌≢◌}
use mathlib.Core.Path.{subst}
use anp_server_go.Attachment.Slots.{bound}
use anp_server_go.Common.Dict.{lookup}
use anp_server_go.Env.{Env, Request}
use anp_server_go.Evolution.{BindingKept, Evolves, evolution}
use anp_server_go.Evolution.Handlers.{
  did_register_document-Moves, handle_recover-Moves, handle_register-Moves,
}
use anp_server_go.Evolution.Statements.{
  activate_member-Evolution, delete_member-Evolution, increment_event_seq-Evolution,
  increment_state_version-Evolution, insert_group-Evolution, insert_message-Evolution,
  rename_member-Evolution, set_policy-Evolution, set_profile-Evolution, upsert_member-Evolution,
}
use anp_server_go.Evolution.Stores.{
  abort_slot-Evolution, commit_slot-Evolution, delete_prekey-Evolution, insert_prekey-Evolution,
  insert_response-Evolution, insert_slot-Evolution, insert_ticket-Evolution, trim_prekeys-Evolution,
  upsert_bundle-Evolution, upsert_crypto_state-Evolution, upsert_key_package-Evolution,
}
use anp_server_go.Rpc.Entry.{handle_rpc, serve}
use anp_server_go.Store.{Db}
use anp_server_go.Writes.{Writes}
use anp_server_go.Writes.Dispatch.{Bindings}
use anp_server_go.Writes.Entry.{handle_rpc-Rel, serve-Rel}

evolution-Writes : Writes evolution
evolution-Writes = record {
  insert_message_moves = insert_message-Evolution;
  insert_group_moves = insert_group-Evolution;
  increment_state_version_moves = increment_state_version-Evolution;
  increment_event_seq_moves = increment_event_seq-Evolution;
  set_profile_moves = set_profile-Evolution;
  set_policy_moves = set_policy-Evolution;
  upsert_member_moves = upsert_member-Evolution;
  activate_member_moves = activate_member-Evolution;
  delete_member_moves = delete_member-Evolution;
  rename_member_moves = rename_member-Evolution;
  upsert_bundle_moves = upsert_bundle-Evolution;
  insert_prekey_moves = insert_prekey-Evolution;
  trim_prekeys_moves = trim_prekeys-Evolution;
  delete_prekey_moves = delete_prekey-Evolution;
  upsert_key_package_moves = upsert_key_package-Evolution;
  upsert_crypto_state_moves = upsert_crypto_state-Evolution;
  insert_slot_moves = insert_slot-Evolution;
  commit_slot_moves = commit_slot-Evolution;
  abort_slot_moves = abort_slot-Evolution;
  insert_ticket_moves = insert_ticket-Evolution;
}

evolution-Bindings : Bindings evolution
evolution-Bindings = record { register = handle_register-Moves; recover = handle_recover-Moves }

-- Whatever a request is and however it ends, it leaves every handle with its DID, where
-- this is not empty, every group with
-- its creator and with counters that have not fallen, every stored message, every registered DID,
-- every ticket and every cached response.
pub handle_rpc-Evolves : (env : Env) (req : Request) (s : Db) → Evolves s (handle_rpc env req s).1
handle_rpc-Evolves =
    handle_rpc-Rel evolution-Writes evolution-Bindings insert_response-Evolution
      did_register_document-Moves

pub serve-Evolves : (requests : List (Env × Request)) (s : Db) → Evolves s (serve requests s)
serve-Evolves =
    serve-Rel evolution-Writes evolution-Bindings insert_response-Evolution
      did_register_document-Moves

-- A handle that is bound to a DID, not to the empty text, is bound to it after any requests.
pub serve_handles :
    (requests : List (Env × Request)) (s : Db) (handle did : String)
    → lookup handle s.handles ≡ some did
    → did ≢ ""
    → lookup handle (serve requests s).handles ≡ some did
serve_handles requests s handle did bound nonempty =
    (subst (λ o. BindingKept o (lookup handle (serve requests s).handles)) bound
        ((serve-Evolves requests s).handles handle))
      nonempty
