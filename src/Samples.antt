-- ===== src/Samples.antt =====
-- A small server with two users, a group, a committed attachment and a ticket for it.
mod Requests
mod Groups
mod Handlers
mod Callers
use anp_server_go.Common.{
  List, Option, String, [], false, if◌then◌else◌, none, some, true, ◌==◌, ◌||◌, ◌∷◌,
}
use anp_server_go.Auth.{header_get}
use anp_server_go.Env.{Env, Request}
use anp_server_go.Group.Reads.{group_state_version, owner_did}
use anp_server_go.Json.{Fields, as_str, fields, nat, str}
use anp_server_go.Store.{Db, GroupRow, Member, Message, Object, Slot, empty}

abbrev pub alice : String
alice = "did:wba:x.org:alice"

abbrev pub bob : String
bob = "did:wba:x.org:bob"

abbrev pub group : String
group = "did:wba:x.org:group"

-- A signature is valid where the header Signature says so, and it is Alice's.
abbrev pub signed_by : List (String × String) → Option String
signed_by headers =
    if header_get headers "Signature" == "valid" then some "did:wba:x.org:alice#key-1" else none

abbrev pub register_body : Fields
register_body = fields (("handle", str "alice.x.org") ∷ ("operation_id", str "op-1") ∷ [])

abbrev pub env : Env
env = record {
  service_did = "";
  base_url = "";
  now = 1700000000000000000;
  rfc3339 = λ n. "2023-11-14T22:13:20Z";
  decimal = λ n. "1700000000";
  random_hex = λ i n. "fresh";
  handle_syntax = λ s. s == "alice.x.org" || s == "bob.x.org";
  verify_proof = λ proof method meta body doc signer. true;
  verify_signature = λ doc url headers body. signed_by headers;
  resolve_did = λ did. none;
  marshal = λ v. as_str (some v);
  sha256_b64u = λ bytes. "digest";
  parse_request = λ bytes.
      some (record { method = "handle.register"; params = some register_body; id = nat 1 });
  path_unescape = λ s. some s;
  lower_trim = λ s. s;
  split_host_port = λ s. some s;
  parse_ip = λ s. none;
  bind_text = λ v. some none;
}

abbrev pub request : Request
request = record {
  method = "POST";
  tls = true;
  host = "x.org";
  path = "/rpc";
  headers =
      ("Signature-Input", "keyid=\"did:wba:x.org:alice#key-1\"") ∷ ("Signature", "valid") ∷ [];
  body = some (b'a' ∷ []);
}

abbrev pub unsigned_request : Request
unsigned_request = record request { headers = [] }

abbrev pub alice_document : Fields
alice_document = fields (("id", str alice) ∷ [])

abbrev pub board : GroupRow
board = record {
  group_policy = fields (("admission_mode", str "open-join") ∷ []);
  group_profile = none;
  owner_did = alice;
  group_state_version = 1;
  group_event_seq = 4;
  created_at = 1690000000;
}

abbrev member_with : String → Member
member_with role = record { role = role; status = "active"; joined_at = 1690000000 }

abbrev pub photo : Object
photo = record { content = 1 ∷ 2 ∷ 3 ∷ []; digest = "digest" }

abbrev pub slot_with : String → Slot
slot_with status = record {
  attachment_id = "a1";
  object_id = "o1";
  upload_uri = "https://x.org/upload/s1";
  object_uri = "https://x.org/objects/o1";
  commit_token = "token";
  status = status;
  object_encryption_mode = "none";
  expected_size = none;
  mime_type = none;
  filename = none;
  expected_digest = none;
  actual_size = none;
  actual_digest = none;
  expires_at = 1700003600;
  created_at = 1700000000;
  owner_did = alice;
}

abbrev committed_slot : Slot
committed_slot = record (slot_with "committed") {
  attachment_id = "a2";
  object_id = "o2";
  upload_uri = "https://x.org/upload/s2";
  object_uri = "https://x.org/objects/o2";
}

abbrev pub db : Db
db = record empty {
  registered_dids = (alice, alice_document) ∷ [];
  handles = ("bob.x.org", bob) ∷ [];
  groups = (group, board) ∷ [];
  group_members = ((group, alice), member_with "owner") ∷ ((group, bob), member_with "member") ∷ [];
  one_time_prekeys =
      record { rowid = 1; owner_did = alice; prekey = str "k1" }
      ∷ record { rowid = 2; owner_did = bob; prekey = str "k2" }
      ∷ [];
  attachment_slots = ("s1", slot_with "created") ∷ ("s2", committed_slot) ∷ [];
  attachment_objects = ("o1", photo) ∷ [];
  attachment_tickets =
      (
        "t1",
        record {
          binding = fields (("object_uri", str "https://x.org/objects/o1") ∷ []);
          expires_at = 1700000300;
        },
      )
      ∷ [];
}

abbrev pub for_bob : Message
for_bob = record {
  message_id = "n1";
  sender_did = alice;
  recipient_did = some bob;
  group_did = none;
  kind = "text";
  text = "hi";
  secure = false;
  sent_at = 1700000000;
  wire_meta = none;
  wire_body = none;
}

abbrev pub board_with_notes : Db
board_with_notes = record db {
  messages =
      (3, record for_bob { message_id = "n3"; recipient_did = none; group_did = some group })
      ∷ (2, record for_bob { message_id = "n2"; recipient_did = some alice })
      ∷ (1, for_bob)
      ∷ [];
  last_id = 3;
}
