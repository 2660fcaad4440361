-- ===== src/Samples/Handlers.antt =====
-- The theorems on single handlers at the sample server.
use anp_server_go.Common.{
  [], arith, is_some, map, none, pair_eq, refl, some, string_eq, true, ◌↔◌, ◌∷◌, ◌≡◌, ◌≤◌,
}
use anp_server_go.Attachment.Access.{Commit, attachment_commit_object-Commit}
use anp_server_go.Attachment.DataPlane.{
  Grants, Uploads, handle_download-Grants, handle_upload-Uploads,
}
use anp_server_go.Attachment.Slots.{attachment_commit_object, is_past}
use anp_server_go.Attachment.Tickets.{
  handle_download, handle_upload, object_bytes, object_uri_matches,
}
use anp_server_go.Common.Dict.{lookup}
use anp_server_go.Common.Tests.{pair_beq}
use anp_server_go.Direct.{publish_prekey_bundle, take_prekey}
use anp_server_go.Direct.Prekeys.{
  AreBounded, Taken, publish_prekey_bundle-AreBounded, take_prekey-Taken,
}
use anp_server_go.Group.Membership.{group_remove}
use anp_server_go.Group.Patches.{HasUniqueKeys, lookup_field-merge_patch, patched}
use anp_server_go.Group.Permissions.{
  asked, classify_payload_iff, contents, group_permitted_iff, rank,
}
use anp_server_go.Group.Reads.{classify_payload, group_member_role, group_permitted, required_role}
use anp_server_go.Group.Removal.{group_remove_owner}
use anp_server_go.Group.Send.{group_send}
use anp_server_go.Group.Send.Delivery.{Sends, group_send-Sends}
use anp_server_go.Group.Updates.{merge_patch}
use anp_server_go.Inbox.{inbox_limit, inbox_rows, is_active_in, is_visible}
use anp_server_go.Inbox.Page.{IsFor, ShowsPage, is_visible_iff, msg_inbox-IsPage}
use anp_server_go.Json.{
  Fields, GoMap, Json, arr, fields, get, get_map, get_str, items, lookup_field, nat, null, obj,
  object, str,
}
use anp_server_go.Mentions.{validate_mentions}
use anp_server_go.Mentions.Distinct.{AreMentions, validate_mentions_iff}
use anp_server_go.Samples.{alice, board, board_with_notes, bob, db, env, for_bob, group}
use anp_server_go.Store.{Db, empty}
use anp_server_go.Strings.{ends_with, strip_prefix, trim_last, trim_left, trim_right, trim_space}

abbrev pub greeting : Fields
greeting = fields (
    (
      "meta",
      object (
          ("target", object (("did", str group) ∷ []))
          ∷ ("message_id", str "m1")
          ∷ ("operation_id", str "op-2")
          ∷ ("content_type", str "text/plain")
          ∷ []),
    )
    ∷ ("body", object (("text", str "hello") ∷ []))
    ∷ [])

group_send-Sends_example : Sends env bob (some greeting) db (group_send env bob (some greeting) db)
group_send-Sends_example = group_send-Sends env bob (some greeting) db

abbrev commit_request : Fields
commit_request = fields (
    (
      "body",
      object (
          ("attachment_id", str "a1") ∷ ("slot_id", str "s1") ∷ ("commit_token", str "token") ∷ []),
    )
    ∷ [])

attachment_commit_object-Commit_example :
    Commit env (some commit_request) db (attachment_commit_object env (some commit_request) db)
attachment_commit_object-Commit_example =
    attachment_commit_object-Commit env (some commit_request) db

handle_upload-Uploads_example :
    Uploads env "s1" (some (7 ∷ 8 ∷ [])) db (handle_upload env "s1" (some (7 ∷ 8 ∷ [])) db)
handle_upload-Uploads_example = handle_upload-Uploads env "s1" (some (7 ∷ 8 ∷ [])) db

downloaded : handle_download env "o1" "Bearer t1" db ≡ object_bytes (1 ∷ 2 ∷ 3 ∷ [])
unfolding handle_download strip_prefix trim_space lookup is_past get_str get_map lookup_field
    object_uri_matches trim_left trim_right ends_with trim_last
downloaded = refl

handle_download-Grants_example : Grants env "o1" "Bearer t1" db (1 ∷ 2 ∷ 3 ∷ [])
handle_download-Grants_example =
    handle_download-Grants env "o1" "Bearer t1" db (1 ∷ 2 ∷ 3 ∷ []) downloaded

abbrev ticket_request : Fields
ticket_request = fields (
    (
      "body",
      object (
          ("attachment_id", str "a2")
          ∷ ("object_uri", str "https://x.org/objects/o2")
          ∷ ("requester_did", str bob)
          ∷ ("message_id", str "m1")
          ∷ ("message_security_profile", str "transport-protected")
          ∷ []),
    )
    ∷ [])

abbrev ticket_binding : Fields
ticket_binding = fields (
    ("attachment_id", str "a2")
    ∷ ("object_uri", str "https://x.org/objects/o2")
    ∷ ("requester_did", str bob)
    ∷ ("message_id", str "m1")
    ∷ ("message_security_profile", str "transport-protected")
    ∷ [])

abbrev ticket_reply : Json
ticket_reply = object (
    ("download_ticket_b64u", str "fresh")
    ∷ ("expires_at", str "2023-11-14T22:13:20Z")
    ∷ ("ticket_binding", obj ticket_binding)
    ∷ [])

abbrev with_ticket : Db
with_ticket = record db {
  attachment_tickets =
      (
        "t1",
        record {
          binding = fields (("object_uri", str "https://x.org/objects/o1") ∷ []);
          expires_at = 1700000300;
        },
      )
      ∷ ("fresh", record { binding = ticket_binding; expires_at = 1700000300 })
      ∷ [];
}

take_prekey-Taken_example : Taken env alice db (take_prekey env alice db)
take_prekey-Taken_example = take_prekey-Taken env alice db

abbrev prekeys : Fields
prekeys =
    fields
      (("body", object (("one_time_prekeys", arr (items (str "k3" ∷ str "k4" ∷ []))) ∷ [])) ∷ [])

publish_prekey_bundle-AreBounded_example :
    AreBounded (publish_prekey_bundle env alice (some prekeys) empty).1
publish_prekey_bundle-AreBounded_example =
    publish_prekey_bundle-AreBounded env alice (some prekeys) empty (λ d. omega arith)

group_permitted_iff_example :
    (group_permitted db group bob "add" ≡ true)
    ↔ (asked (required_role db group "add") ≤ rank (group_member_role db group bob))
group_permitted_iff_example = group_permitted_iff db group bob "add"

abbrev removal : Fields
removal = fields (("body", object (("group_did", str group) ∷ ("member_did", str bob) ∷ [])) ∷ [])

board_found : lookup group db.groups ≡ some board
unfolding lookup
board_found = refl

group_remove_owner_example :
    lookup (group, alice) (group_remove alice (some removal) db).1.group_members
    ≡ lookup (group, alice) db.group_members
group_remove_owner_example = group_remove_owner alice (some removal) db group board board_found

abbrev hello : GoMap
hello = some (fields (("text", str "hello") ∷ []))

classify_payload_iff_example : (is_some (classify_payload hello) ≡ true) ↔ (contents hello ≡ 1)
classify_payload_iff_example = classify_payload_iff hello

abbrev mentioning : GoMap
mentioning = some (
    fields (
      ("mentions", arr (items (object (("id", str "1") ∷ []) ∷ object (("id", str "2") ∷ []) ∷ [])))
      ∷ []))

validate_mentions_iff_example :
    (validate_mentions mentioning ≡ none) ↔ AreMentions (get mentioning "mentions")
validate_mentions_iff_example = validate_mentions_iff mentioning

abbrev patch : Fields
patch = fields (("name", str "board") ∷ ("topic", null) ∷ [])

rest_unique : HasUniqueKeys (fields (("topic", null) ∷ []))
unfolding lookup_field
rest_unique = (refl, tt)

patch_unique : HasUniqueKeys patch
unfolding lookup_field
patch_unique = (refl, rest_unique)

lookup_field-merge_patch_example :
    lookup_field "topic" (merge_patch patch (fields (("topic", str "news") ∷ [])))
    ≡ patched
        (lookup_field "topic" patch)
        (lookup_field "topic" (fields (("topic", str "news") ∷ [])))
lookup_field-merge_patch_example =
    lookup_field-merge_patch "topic" patch (fields (("topic", str "news") ∷ [])) patch_unique

abbrev page_request : GoMap
page_request = some (fields (("limit", nat 20) ∷ []))

two_shown : map (λ r. r.0) (inbox_rows board_with_notes bob 20) ≡ 3 ∷ 1 ∷ []
unfolding inbox_rows is_visible is_active_in lookup pair_beq
two_shown = refl

msg_inbox-IsPage_example :
    (1 ≤ inbox_limit page_request)
    × (inbox_limit page_request ≤ 1000)
    × ShowsPage board_with_notes bob page_request
msg_inbox-IsPage_example = msg_inbox-IsPage board_with_notes bob page_request

is_visible_iff_example :
    (is_visible board_with_notes bob for_bob ≡ true) ↔ IsFor board_with_notes bob for_bob
is_visible_iff_example = is_visible_iff board_with_notes bob for_bob
