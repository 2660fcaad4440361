-- ===== src/Group/Reads.antt =====
-- internal/server/group.go: what the group handlers read, the group DID of a request, roles,
-- permissions and the classification of a message body.
use mathlib.Core.Option
use anp_server_go.Common.{
  Bool, List, Option, String, [], false, if◌then◌else◌, is_some, none, not, pair_eq, some,
  string_eq, true, ℕ, ◌==◌, ◌||◌, ◌∷◌,
}
use anp_server_go.Common.Dict.{lookup}
use anp_server_go.Env.{Env}
use anp_server_go.Exec.{Error, Exec, did_not_found, errorf, gets, or_raise, rpc_error, ◌>>=◌, ◌>>◌}
use anp_server_go.Json.{GoMap, get, get_map, get_str}
use anp_server_go.Sql.{increment_event_seq, increment_state_version}
use anp_server_go.Store.{Db, GroupRow, Member}

-- groupDIDFromParams: `body.group_did`, and `meta.target.did` where that is missing or empty.
unfoldable pub group_did_from_params : GoMap → String
group_did_from_params params =
    let gid = get_str (get_map params "body") "group_did" in
    if gid == "" then get_str (get_map (get_map params "meta") "target") "did" else gid

-- The caller, or `meta.sender_did` while no caller is authenticated.
unfoldable pub sender_or_claimed : String → GoMap → String
sender_or_claimed auth_did meta = if auth_did == "" then get_str meta "sender_did" else auth_did

abbrev pub group_not_found : Error
group_not_found = rpc_error did_not_found "group not found"

unfoldable pub load_group : String → Exec GroupRow
load_group gid = do or_raise (← gets (λ s. lookup gid s.groups)) group_not_found

abbrev version_of : GroupRow → ℕ
version_of r = r.group_state_version

unfoldable pub group_state_version : String → Exec ℕ
group_state_version gid = do
  or_raise (← gets (λ s. Option.map version_of (lookup gid s.groups))) group_not_found

unfoldable pub bump_group_state_version : String → Exec ℕ
bump_group_state_version gid = do increment_state_version gid; group_state_version gid

abbrev seq_of : GroupRow → ℕ
seq_of r = r.group_event_seq

-- A group that is not there is sql.ErrNoRows here, not an *rpcError.
unfoldable pub next_group_event_seq : String → Exec ℕ
next_group_event_seq gid = do
  increment_event_seq gid
  or_raise (← gets (λ s. Option.map seq_of (lookup gid s.groups)))
      (errorf "sql: no rows in result set" [])

abbrev role_if_active : Option Member → String
role_if_active none = ""
role_if_active (some m) = if m.status == "active" then m.role else ""

-- The role of an active member, and "" for anybody else.
unfoldable pub group_member_role : Db → String → String → String
group_member_role s gid did = role_if_active (lookup (gid, did) s.group_members)

unfoldable pub is_group_member : Db → String → String → Bool
unfolding group_member_role
is_group_member s gid did = not (group_member_role s gid did == "")

unfoldable pub default_required_role : String → String
default_required_role action =
    if action == "update_policy"
    then "owner"
    else if action == "add" || action == "remove" || action == "update_profile"
    then "admin"
    else "member"

-- The role that the policy's permissions map demands for the action, or else the default.
abbrev or_default : String → String → String
or_default v action = if v == "" then default_required_role action else v

unfoldable pub required_role : Db → String → String → String
unfolding default_required_role
required_role s gid action = elim (lookup gid s.groups) [
  | none ↦ default_required_role action
  | some r ↦ or_default (get_str (get_map (some r.group_policy) "permissions") action) action
]

-- The switch that ends groupPermitted.
unfoldable pub role_suffices : String → String → Bool
role_suffices role required =
    if required == "owner"
    then role == "owner"
    else if required == "admin"
    then role == "admin" || role == "owner"
    else not (role == "")

unfoldable pub group_permitted : Db → String → String → String → Bool
unfolding group_member_role required_role role_suffices
group_permitted s gid did action =
    let role = group_member_role s gid did in
    if role == "owner"
    then true
    else if role == ""
    then false
    else role_suffices role (required_role s gid action)

unfoldable pub owner_did : Db → String → String
owner_did s gid = elim (lookup gid s.groups) [ none ↦ "" | some r ↦ r.owner_did ]

abbrev known_did : Option String → Option String
known_did none = none
known_did (some did) = if did == "" then none else some did

-- A handle is looked up, and any other text passes as a DID; none is a failed resolution.
unfoldable pub resolve_member_did : Env → Db → String → Option String
resolve_member_did env s v =
    if v == "" then none else if env.handle_syntax v then known_did (lookup v s.handles) else some v

-- What classifyPayload counts: the kinds of content that are present, in the source's order.
abbrev when {ℓ} : {A : Type ℓ} → Bool → A → List A → List A
when b a xs = if b then a ∷ xs else xs

unfoldable pub payload_kinds : GoMap → List String
payload_kinds body = when (not (get_str body "text" == "")) "text" (
    when (is_some (get body "payload")) "json"
      (when (not (get_str body "payload_b64u" == "")) "binary" []))

-- (kind, text), or none unless exactly one kind of content is present. The text is the one of the
-- body for the kind "text", and empty for the others.
abbrev only_kind : GoMap → List String → Option (String × String)
only_kind body (kind ∷ []) = some (kind, get_str body "text")
only_kind body _ = none

unfoldable pub classify_payload : GoMap → Option (String × String)
unfolding payload_kinds
classify_payload body = only_kind body (payload_kinds body)
