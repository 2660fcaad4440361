-- ===== src/Samples/Groups.antt =====
-- The theorems on key packages and on leaving a group at the sample server.
use anp_server_go.Common.{[], pair_eq, refl, some, string_eq, true, ◌∷◌}
use anp_server_go.Common.Dict.{insert}
use anp_server_go.Exec.{ok, ◌>>=◌}
use anp_server_go.Group.Leaving.{Left, StoresNone, group_leave-Left, group_send-group_leave}
use anp_server_go.Group.Membership.{group_leave}
use anp_server_go.Group.Reads.{group_did_from_params, sender_or_claimed}
use anp_server_go.Group.Send.{group_send, send_target}
use anp_server_go.GroupE2ee.KeyPackages.{Published, publish_key_package-Published}
use anp_server_go.GroupE2ee.Packages.{publish_key_package, required_body_string}
use anp_server_go.Json.{
  Fields, GoMap, Json, bool, fields, get, get_map, get_str, lookup_field, object, set_field, str,
}
use anp_server_go.Samples.{bob, db, env, group}
use anp_server_go.Samples.Handlers.{greeting}
use anp_server_go.Sql.{upsert_key_package}
use anp_server_go.Store.{Db}

abbrev package_request : Fields
package_request = fields (
    (
      "body",
      object (
          (
            "group_key_package",
            object (("key_package_id", str "kp1") ∷ ("mls_key_package_b64u", str "AAEC") ∷ []),
          )
          ∷ []),
    )
    ∷ [])

abbrev published_reply : Json
published_reply = object (
    ("published", bool true)
    ∷ ("owner_did", str bob)
    ∷ ("key_package_id", str "kp1")
    ∷ ("published_at", str "2023-11-14T22:13:20Z")
    ∷ [])

abbrev with_package : Db
with_package = record db {
  group_key_packages =
      (
        bob,
        record {
          key_package = fields (
              ("key_package_id", str "kp1")
              ∷ ("mls_key_package_b64u", str "AAEC")
              ∷ ("owner_did", str bob)
              ∷ []);
          key_package_id = "kp1";
          published_at = 1700000000;
        },
      )
      ∷ [];
}

-- Bob's package is accepted and stored.
publish_key_package-Published_example :
    Published bob (some package_request) db (ok published_reply, with_package)
unfolding publish_key_package required_body_string get_str get_map get lookup_field ◌>>=◌
    upsert_key_package insert set_field
publish_key_package-Published_example =
    publish_key_package-Published env bob (some package_request) db

abbrev leave_request : GoMap
leave_request = some (fields (("body", object (("group_did", str group) ∷ [])) ∷ []))

group_leave-Left_example : Left group bob db (group_leave bob leave_request db)
unfolding group_did_from_params get_str get_map get lookup_field sender_or_claimed
group_leave-Left_example = group_leave-Left bob leave_request db refl

-- Bob's greeting, which the group stores while he is a member, is refused after he has left.
group_send-group_leave_example :
    StoresNone db (group_send env bob (some greeting) (group_leave bob leave_request db).1)
unfolding group_did_from_params send_target get_str get_map get lookup_field sender_or_claimed
group_send-group_leave_example =
    group_send-group_leave env bob bob leave_request (some greeting) db refl refl refl
