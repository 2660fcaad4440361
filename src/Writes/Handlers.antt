-- ===== src/Writes/Handlers.antt =====
-- The handlers that resolve DIDs and read the inbox, and the placeholders, follow every preorder.
use anp_server_go.Common.{Option, String, none, some}
use anp_server_go.Did.{did_resolve, local_or_remote, resolve_remote}
use anp_server_go.Env.{Env}
use anp_server_go.Group.Send.{placeholder}
use anp_server_go.Inbox.{msg_inbox}
use anp_server_go.Json.{Fields, GoMap}
use anp_server_go.Moves.{Moves, Preorder}
use anp_server_go.Writes.{Writes}
use anp_server_go.Writes.Groups.{group_parts}

module _ (env : Env) (caller : String) (params : GoMap) where
  resolve_remote-Moves :
      {p : Preorder} (w : Writes p) (did : String) → Moves p (resolve_remote env did)
  unfolding resolve_remote
  resolve_remote-Moves w did = search group_parts depth 8

  local_or_remote-Moves :
      {p : Preorder} (w : Writes p) (did : String) (found : Option Fields)
      → Moves p (local_or_remote env did found)
  unfolding local_or_remote
  local_or_remote-Moves w did none = resolve_remote-Moves w did
  local_or_remote-Moves w did (some doc) = search group_parts

  pub did_resolve-Moves : {p : Preorder} (w : Writes p) → Moves p (did_resolve env params)
  unfolding did_resolve
  did_resolve-Moves w = search (group_parts, local_or_remote-Moves) depth 10

  pub msg_inbox-Moves : {p : Preorder} (w : Writes p) → Moves p (msg_inbox caller params)
  unfolding msg_inbox
  msg_inbox-Moves w = search group_parts

  pub placeholder-Moves : {p : Preorder} (w : Writes p) → Moves p placeholder
  unfolding placeholder
  placeholder-Moves w = search group_parts
