-- ===== src/Inbox.antt =====
-- internal/server/msg.go: the inbox.
pub mod Page
pub mod Order
use anp_server_go.Common.{
  Bool, List, Option, String, [], false, filter, if◌then◌else◌, leb, ltb, map, none, not, pair_eq,
  some, string_eq, take, ℕ, ◌&&◌, ◌==◌, ◌||◌, ◌∷◌,
}
use anp_server_go.Common.Dict.{lookup}
use anp_server_go.Exec.{Exec, gets, pure, ◌>>=◌, ◌>>◌}
use anp_server_go.Json.{GoMap, Json, Number, arr, get, items, map_json, nat, num, object}
use anp_server_go.Store.{Db, Member, Message}

-- `v >= 1 && v <= 1000` of a float64
unfoldable pub in_limit_range : Number → Bool
in_limit_range v =
    not v.negative && leb 1 v.whole && (ltb v.whole 1000 || (leb v.whole 1000 && leb v.fraction 0))

abbrev pub limit_of : Option Json → ℕ
limit_of (some (num v)) = if in_limit_range v then v.whole else 100
limit_of _ = 100

unfoldable pub inbox_limit : GoMap → ℕ
unfolding in_limit_range
inbox_limit params = limit_of (get params "limit")

abbrev pub active_row : Option Member → Bool
active_row none = false
active_row (some m) = m.status == "active"

unfoldable pub is_active_in : Db → Option String → String → Bool
is_active_in s none did = false
is_active_in s (some gid) did = active_row (lookup (gid, did) s.group_members)

abbrev pub is_text : Option String → String → Bool
is_text none t = false
is_text (some s) t = s == t

-- The WHERE clause: the message is addressed to the caller, or to a group of the caller.
unfoldable pub is_visible : Db → String → Message → Bool
unfolding is_active_in
is_visible s did m = is_text m.recipient_did did || is_active_in s m.group_did did

-- ORDER BY id DESC LIMIT; the table holds the newest row first.
unfoldable pub inbox_rows : Db → String → ℕ → List (ℕ × Message)
unfolding is_visible
inbox_rows s did limit = take limit (filter (λ r. is_visible s did r.1) s.messages)

abbrev pub inbox_entry : ℕ × Message → Json
inbox_entry (id, m) =
    object (
      ("server_seq", nat id) ∷ ("meta", map_json m.wire_meta) ∷ ("body", map_json m.wire_body) ∷ [])

unfoldable pub msg_inbox : String → GoMap → Exec Json
msg_inbox auth_did params = do
  rows ← gets (λ s. inbox_rows s auth_did (inbox_limit params))
  pure (object (("messages", arr (items (map inbox_entry rows))) ∷ []))
