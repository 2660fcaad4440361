-- ===== src/Samples/Callers.antt =====
-- The theorems on who may act for whom at the sample server.
use anp_server_go.Common.{
  String, [], false, none, pair_eq, refl, some, string_eq, true, ◌==◌, ◌∷◌, ◌≡◌,
}
use anp_server_go.Common.Dict.{lookup}
use anp_server_go.Common.Tests.{pair_beq}
use anp_server_go.Direct.{direct_send, is_plaintext, plaintext_content}
use anp_server_go.Direct.Proofs.{direct_send-IsProven}
use anp_server_go.Exec.{ok, ◌>>=◌}
use anp_server_go.Group.Joining.{MemberKept, group_join-MemberKept}
use anp_server_go.Group.Membership.{group_join}
use anp_server_go.Group.Reads.{classify_payload, group_member_role, sender_or_claimed}
use anp_server_go.Group.Rebinding.{group_rebind_member-takeover, takeover}
use anp_server_go.Group.Updates.{group_rebind_member}
use anp_server_go.GroupE2ee.Owners.{KeepsStates, handlers-KeepsStates}
use anp_server_go.GroupE2ee.States.{group_e2ee_add, group_e2ee_create, group_e2ee_remove}
use anp_server_go.Json.{
  Fields, Json, bool, fields, get, get_map, get_str, lookup_field, obj, object, str,
}
use anp_server_go.Proof.{verify_origin_proof}
use anp_server_go.Proof.Origin.{IsProven}
use anp_server_go.Samples.{alice, bob, db, env, group}
use anp_server_go.Sql.{insert_message}

abbrev joining : Fields
joining = fields (("body", object (("group_did", str group) ∷ [])) ∷ [])

group_join-MemberKept_example :
    MemberKept
      (lookup (group, alice) db.group_members)
      (lookup (group, alice) (group_join env alice (some joining) db).1.group_members)
group_join-MemberKept_example = group_join-MemberKept env alice (some joining) db (group, alice)

abbrev eve : String
eve = "did:wba:x.org:eve"

alice_member :
    lookup (group, alice) db.group_members
    ≡ some (record { role = "owner"; status = "active"; joined_at = 1690000000 })
unfolding lookup pair_beq
alice_member = refl

eve_outside : lookup (group, eve) db.group_members ≡ none
unfolding lookup pair_beq
eve_outside = refl

group_rebind_member-takeover_example :
    lookup (group, eve) (group_rebind_member eve (takeover group alice eve) db).1.group_members
    ≡ some (record { role = "owner"; status = "active"; joined_at = 1690000000 })
group_rebind_member-takeover_example =
    group_rebind_member-takeover db group alice eve
      (record { role = "owner"; status = "active"; joined_at = 1690000000 }) refl refl refl refl
      alice_member eve_outside

abbrev note_meta : Fields
note_meta = fields (
    ("profile", str "anp.direct.base.v1")
    ∷ ("security_profile", str "transport-protected")
    ∷ ("target", object (("did", str bob) ∷ []))
    ∷ ("message_id", str "m2")
    ∷ [])

abbrev note_proof : Fields
note_proof = fields (
    (
      "origin_proof",
      object
          (("contentDigest", str "d") ∷ ("signatureInput", str "i") ∷ ("signature", str "s") ∷ []),
    )
    ∷ [])

abbrev note : Fields
note = fields (
    ("meta", obj note_meta)
    ∷ ("body", object (("text", str "hello") ∷ []))
    ∷ ("auth", obj note_proof)
    ∷ [])

note_transport : is_plaintext (get_map (some note) "meta") ≡ true
unfolding is_plaintext get_map get_str lookup_field
note_transport = refl

abbrev note_reply : Json
note_reply = object (
    ("accepted", bool true)
    ∷ ("message_id", str "m2")
    ∷ ("operation_id", str "")
    ∷ ("target_did", str bob)
    ∷ ("accepted_at", str "2023-11-14T22:13:20Z")
    ∷ [])

note_accepted : (direct_send env alice (some note) db).0 ≡ ok note_reply
unfolding direct_send is_plaintext get_str get_map get lookup_field plaintext_content
    verify_origin_proof ◌>>=◌ classify_payload insert_message lookup sender_or_claimed
note_accepted = refl

direct_send-IsProven_example :
    IsProven env
      (sender_or_claimed alice (get_map (some note) "meta"))
      "direct.send"
      (get_map (some note) "meta")
      (get_map (some note) "body")
      (get_map (some note) "auth")
      db
direct_send-IsProven_example =
    direct_send-IsProven env alice (some note) db note_reply note_transport note_accepted

bob_is_no_owner : (group_member_role db group bob == "owner") ≡ false
unfolding group_member_role lookup pair_beq
bob_is_no_owner = refl

abbrev crypto_request : Fields
crypto_request = fields (
    (
      "body",
      object (
          ("group_did", str group)
          ∷ ("group_state_ref", object [])
          ∷ ("suite", str "suite")
          ∷ ("creator_key_package", object [])
          ∷ ("crypto_group_id_b64u", str "c1")
          ∷ ("epoch", str "1")
          ∷ []),
    )
    ∷ [])

handlers-KeepsStates_example :
    KeepsStates group (group_e2ee_create env bob (some crypto_request)) db
    × KeepsStates group (group_e2ee_add env bob (some crypto_request)) db
    × KeepsStates group (group_e2ee_remove env bob (some crypto_request)) db
handlers-KeepsStates_example =
    handlers-KeepsStates env bob (some crypto_request) db group bob_is_no_owner
