-- ===== src/Did.antt =====
-- internal/server/did.go: registering and resolving DID documents, and the guard against requests
-- to internal hosts.
use anp_server_go.Common.{
  Bool, Option, String, [], if◌then◌else◌, none, not, pair_eq, some, string_eq, ◌&&◌, ◌==◌, ◌||◌,
  ◌∷◌,
}
use anp_server_go.Attachment.Slots.{bound}
use anp_server_go.Common.Dict.{lookup}
use anp_server_go.Env.{Env, IpAddress}
use anp_server_go.Exec.{
  Error, Exec, did_not_found, errorf, gets, or_raise, pure, raise_if, rpc_error, ◌>>=◌, ◌>>◌,
}
use anp_server_go.Json.{Fields, GoMap, Json, get_map, get_str, map_json, object, str}
use anp_server_go.Sql.{upsert_did}
use anp_server_go.Strings.{cut, trim_last}
use text.Mathlib.Text.{starts_with}

unfoldable pub did_register_document : GoMap → Exec Json
did_register_document params = do
  let did = get_str params "did"
  raise_if (did == "") (errorf "did and did_document are required" [])
  doc ← or_raise (get_map params "did_document") (errorf "did and did_document are required" [])
  let doc_id = get_str (some doc) "id"
  raise_if (not (doc_id == "") && not (doc_id == did))
      (errorf "did_document.id %q does not match did %q" (doc_id ∷ did ∷ []))
  upsert_did did doc
  pure (object (("did", str did) ∷ ("status", str "registered") ∷ []))

abbrev or_blank : Option String → String
or_blank none = ""
or_blank (some s) = s

-- The third of the parts between colons, for a did:wba or did:web with at least three parts.
abbrev third_part : Env → String × Option String → String
third_part env (_, none) = ""
third_part env (method, some rest) =
    if method == "wba" || method == "web"
    then or_blank (env.path_unescape (cut b':' rest).0)
    else ""

abbrev after_did : Env → String × Option String → String
after_did env (_, none) = ""
after_did env (scheme, some rest) = if scheme == "did" then third_part env (cut b':' rest) else ""

unfoldable pub did_host : Env → String → String
unfolding cut
did_host env did = after_did env (cut b':' did)

abbrev or_else : Option String → String → String
or_else none s = s
or_else (some h) s = h

abbrev is_blocked_ip : Option IpAddress → String → Bool
is_blocked_ip none host = host == "localhost" || host == "metadata.google.internal"
is_blocked_ip (some ip) host =
    ip.is_loopback || ip.is_private || ip.is_link_local_unicast || ip.is_link_local_multicast
    || ip.is_unspecified

unfoldable pub is_blocked_host : Env → String → Bool
unfolding trim_last
is_blocked_host env hostport =
    let lowered = env.lower_trim hostport in
    let host = trim_last b'.' (or_else (env.split_host_port lowered) lowered) in
    is_blocked_ip (env.parse_ip host) host

abbrev did_missing : Error
did_missing = rpc_error did_not_found "did not found"

abbrev did_reply : String → GoMap → Json
did_reply did doc = object (("did", str did) ∷ ("did_document", map_json doc) ∷ [])

-- Whether resolution may go to the network for this DID.
unfoldable pub may_fetch : Env → String → Bool
unfolding did_host is_blocked_host
may_fetch env did =
    let host = did_host env did in
    (starts_with did "did:wba:" || starts_with did "did:web:")
    && (host == "" || not (is_blocked_host env host))

unfoldable pub resolve_remote : Env → String → Exec Json
unfolding may_fetch
resolve_remote env did = do
  raise_if (not (may_fetch env did)) did_missing
  doc ← or_raise (env.resolve_did did) did_missing
  pure (did_reply did doc)

abbrev or_target : Option String → String → String
or_target none target = target
or_target (some did) target = if did == "" then target else did

-- The document that is registered here, or else the one that the network gives.
unfoldable pub local_or_remote : Env → String → Option Fields → Exec Json
local_or_remote env did (some doc) = pure (did_reply did (some doc))
local_or_remote env did none = resolve_remote env did

unfoldable pub did_resolve : Env → GoMap → Exec Json
did_resolve env params = do
  let target = get_str params "target"
  raise_if (target == "") (errorf "target is required" [])
  bound ← gets (λ s. lookup target s.handles)
  let did = or_target bound target
  found ← gets (λ s. lookup did s.registered_dids)
  local_or_remote env did found
