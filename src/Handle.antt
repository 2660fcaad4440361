-- ===== src/Handle.antt =====
-- internal/server/handle.go: binding a handle to a DID.
use anp_server_go.Common.{
  Option, String, [], if◌then◌else◌, none, not, pair_eq, some, string_eq, ◌&&◌, ◌==◌, ◌||◌, ◌∷◌,
}
use anp_server_go.Common.Dict.{lookup}
use anp_server_go.Env.{Env}
use anp_server_go.Exec.{
  Exec, did_not_found, errorf, gets, handle_taken, invalid, or_raise, pure, raise_if, ◌>>=◌, ◌>>◌,
}
use anp_server_go.Json.{GoMap, Json, get_str, object, str}
use anp_server_go.Sql.{update_handle, upsert_handle}

abbrev pub or_unbound : Option String → String
or_unbound none = ""
or_unbound (some did) = did

-- The reply of both handlers.
abbrev handle_reply : String → String → String → Json
handle_reply did handle status =
    object (("did", str did) ∷ ("handle", str handle) ∷ ("status", str status) ∷ [])

unfoldable pub handle_register : Env → String → GoMap → Exec Json
handle_register env auth_did params = do
  let handle = get_str params "handle"
  let did = if auth_did == "" then get_str params "did" else auth_did
  raise_if (handle == "" || did == "") (errorf "handle and did are required" [])
  raise_if (not (env.handle_syntax handle)) (errorf "invalid handle %q" (handle ∷ []))
  existing ← gets (λ s. or_unbound (lookup handle s.handles))
  raise_if (not (existing == "") && not (existing == did)) (record {
    code = handle_taken;
    format = "handle %q is already registered by another identity";
    args = handle ∷ [];
  })
  upsert_handle handle did
  pure (handle_reply did handle "registered")

unfoldable pub handle_recover : String → GoMap → Exec Json
handle_recover auth_did params = do
  let handle = get_str params "handle"
  raise_if (handle == "") (invalid "handle is required")
  bound ← gets (λ s. lookup handle s.handles)
  old ←
      or_raise bound
        (record { code = did_not_found; format = "handle %q not found"; args = handle ∷ [] })
  raise_if (not (auth_did == "") && not (auth_did == old))
      (errorf "recovery denied: only the handle's current owner may re-bind it" [])
  let new = if auth_did == "" then old else auth_did
  update_handle handle new
  pure (handle_reply new handle "recovered")
