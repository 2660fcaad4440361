-- ===== src/Writes/Messages.antt =====
-- Direct messages, prekeys, the E2EE methods of groups and the attachments follow every preorder of their
-- statements.
use anp_server_go.Common.{List, Option, String, [], none, some, ◌∷◌}
use anp_server_go.Attachment.Slots.{
  attachment_abort_object, attachment_commit_object, attachment_create_slot, bound, load_slot,
}
use anp_server_go.Attachment.Tickets.{attachment_get_download_ticket}
use anp_server_go.Direct.{
  direct_send, envelope_content, get_prekey_bundle, insert_prekeys, plaintext_content,
  publish_prekey_bundle, store_prekeys, take_prekey, with_prekey,
}
use anp_server_go.Env.{Env}
use anp_server_go.GroupE2ee.Messages.{group_e2ee_notice, group_e2ee_send}
use anp_server_go.GroupE2ee.Packages.{
  get_key_package, publish_key_package, require_all, require_owner, required_body_string,
}
use anp_server_go.GroupE2ee.States.{
  group_e2ee_add, group_e2ee_create, group_e2ee_remove, owned_group, store_e2ee_state,
}
use anp_server_go.Json.{Fields, GoMap, Json}
use anp_server_go.Moves.{Moves, Moves-bind, Moves-pure, Preorder}
use anp_server_go.Writes.{Writes, insert_prekey-Moves}
use anp_server_go.Writes.Groups.{group_parts, verify_origin_proof-Moves}

module _ (env : Env) (sender : String) (meta body : GoMap) where
  plaintext_content-Moves :
      {p : Preorder} (w : Writes p) (auth : GoMap)
      → Moves p (plaintext_content env sender meta body auth)
  unfolding plaintext_content
  plaintext_content-Moves w auth = search (group_parts, verify_origin_proof-Moves) depth 10

  envelope_content-Moves :
      {p : Preorder} (w : Writes p) (auth : GoMap)
      → Moves p (envelope_content env sender meta body auth)
  unfolding envelope_content
  envelope_content-Moves w auth = search group_parts depth 8

insert_prekeys-Moves :
    {p : Preorder} (w : Writes p) (did : String) (entries : List Json)
    → Moves p (insert_prekeys did entries)
unfolding insert_prekeys
insert_prekeys-Moves w did [] = Moves-pure tt
insert_prekeys-Moves w did (e ∷ es) =
    Moves-bind _ _ (insert_prekey-Moves w did e) (λ _. insert_prekeys-Moves w did es)

store_prekeys-Moves :
    {p : Preorder} (w : Writes p) (did : String) (entries : Option (List Json))
    → Moves p (store_prekeys did entries)
unfolding store_prekeys
store_prekeys-Moves w did none = Moves-pure tt
store_prekeys-Moves w did (some es) = search (group_parts, insert_prekeys-Moves)

take_prekey-Moves :
    {p : Preorder} (w : Writes p) (env : Env) (did : String) → Moves p (take_prekey env did)
unfolding take_prekey
take_prekey-Moves w env did = search group_parts depth 8

with_prekey-Moves :
    {p : Preorder} (w : Writes p) (env : Env) (did : String) (bundle : GoMap)
    → Moves p (with_prekey env did bundle)
unfolding with_prekey
with_prekey-Moves w env did bundle = search (group_parts, take_prekey-Moves)

required_body_string-Moves :
    {p : Preorder} (w : Writes p) (body : GoMap) (name : String)
    → Moves p (required_body_string body name)
unfolding required_body_string
required_body_string-Moves w body name = search group_parts

require_all-Moves :
    {p : Preorder} (w : Writes p) (body : GoMap) (names : List String)
    → Moves p (require_all body names)
unfolding require_all
require_all-Moves w body [] = Moves-pure tt
require_all-Moves w body (f ∷ fs) =
    Moves-bind _ _ (required_body_string-Moves w body f) (λ _. require_all-Moves w body fs)

require_owner-Moves :
    {p : Preorder} (w : Writes p) (gid did : String) → Moves p (require_owner gid did)
unfolding require_owner
require_owner-Moves w gid did = search group_parts depth 8

owned_group-Moves :
    {p : Preorder} (w : Writes p) (did : String) (body : Fields) → Moves p (owned_group did body)
unfolding owned_group
owned_group-Moves w did body = search (group_parts, require_owner-Moves) depth 8

store_e2ee_state-Moves :
    {p : Preorder} (w : Writes p) (env : Env) (gid cid epoch : String) (state : Fields)
    → Moves p (store_e2ee_state env gid cid epoch state)
unfolding store_e2ee_state
store_e2ee_state-Moves w env gid cid epoch state = search group_parts

bound-Moves :
    {p : Preorder} (w : Writes p) (env : Env) (body : Fields) (name : String)
    → Moves p (bound env body name)
unfolding bound
bound-Moves w env body name = search group_parts

load_slot-Moves : {p : Preorder} (w : Writes p) (id : String) → Moves p (load_slot id)
unfolding load_slot
load_slot-Moves w id = search group_parts

ruleset parts = (
  group_parts, plaintext_content-Moves, envelope_content-Moves, store_prekeys-Moves,
  with_prekey-Moves, required_body_string-Moves, require_all-Moves, owned_group-Moves,
  store_e2ee_state-Moves, bound-Moves, load_slot-Moves,
)

module _ (env : Env) (caller : String) (params : GoMap) where
  pub direct_send-Moves : {p : Preorder} (w : Writes p) → Moves p (direct_send env caller params)
  unfolding direct_send
  direct_send-Moves w = search parts depth 12

  pub publish_prekey_bundle-Moves :
      {p : Preorder} (w : Writes p) → Moves p (publish_prekey_bundle env caller params)
  unfolding publish_prekey_bundle
  publish_prekey_bundle-Moves w = search parts depth 12

  pub get_prekey_bundle-Moves :
      {p : Preorder} (w : Writes p) → Moves p (get_prekey_bundle env params)
  unfolding get_prekey_bundle
  get_prekey_bundle-Moves w = search parts depth 12

  pub publish_key_package-Moves :
      {p : Preorder} (w : Writes p) → Moves p (publish_key_package env caller params)
  unfolding publish_key_package
  publish_key_package-Moves w = search parts depth 15

  pub get_key_package-Moves : {p : Preorder} (w : Writes p) → Moves p (get_key_package params)
  unfolding get_key_package
  get_key_package-Moves w = search parts depth 12

  pub group_e2ee_create-Moves :
      {p : Preorder} (w : Writes p) → Moves p (group_e2ee_create env caller params)
  unfolding group_e2ee_create
  group_e2ee_create-Moves w = search parts depth 25

  pub group_e2ee_add-Moves :
      {p : Preorder} (w : Writes p) → Moves p (group_e2ee_add env caller params)
  unfolding group_e2ee_add
  group_e2ee_add-Moves w = search parts depth 25

  pub group_e2ee_remove-Moves :
      {p : Preorder} (w : Writes p) → Moves p (group_e2ee_remove env caller params)
  unfolding group_e2ee_remove
  group_e2ee_remove-Moves w = search parts depth 25

  pub group_e2ee_send-Moves :
      {p : Preorder} (w : Writes p) → Moves p (group_e2ee_send env caller params)
  unfolding group_e2ee_send
  group_e2ee_send-Moves w = search parts depth 30

  pub group_e2ee_notice-Moves :
      {p : Preorder} (w : Writes p) → Moves p (group_e2ee_notice env params)
  unfolding group_e2ee_notice
  group_e2ee_notice-Moves w = search parts depth 15

  pub attachment_create_slot-Moves :
      {p : Preorder} (w : Writes p) (base : String)
      → Moves p (attachment_create_slot env caller base params)
  unfolding attachment_create_slot
  attachment_create_slot-Moves w base = search parts depth 25

  pub attachment_commit_object-Moves :
      {p : Preorder} (w : Writes p) → Moves p (attachment_commit_object env params)
  unfolding attachment_commit_object
  attachment_commit_object-Moves w = search parts depth 30

  pub attachment_abort_object-Moves :
      {p : Preorder} (w : Writes p) → Moves p (attachment_abort_object env params)
  unfolding attachment_abort_object
  attachment_abort_object-Moves w = search parts depth 20

  pub attachment_get_download_ticket-Moves :
      {p : Preorder} (w : Writes p) → Moves p (attachment_get_download_ticket env caller params)
  unfolding attachment_get_download_ticket
  attachment_get_download_ticket-Moves w = search parts depth 30
