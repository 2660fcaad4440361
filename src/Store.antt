-- ===== src/Store.antt =====
-- The database of internal/server/schema.go: one record for a row of each table, and the tables.
-- A table with a primary key is a dictionary from the key's columns to the others. A text column
-- that only ever holds what json.Marshal wrote keeps the value that was marshalled, and a
-- timestamp column the second that time.RFC3339 writes.
use anp_server_go.Common.{ℕ, String, Bool, Option, List, []}
use anp_server_go.Common.Dict.{Dict}
use anp_server_go.Json.{Json, Fields, GoMap}

-- messages, without its key `id`.
pub record Message : Type 0 where
  pub message_id : String
  pub sender_did : String
  pub recipient_did : Option String
  pub group_did : Option String
  pub kind : String
  pub text : String
  pub secure : Bool
  pub sent_at : ℕ
  pub wire_meta : GoMap
  pub wire_body : GoMap

-- groups. `group_profile` is none where the column holds the empty text.
pub record GroupRow : Type 0 where
  pub group_policy : Fields
  pub group_profile : GoMap
  pub owner_did : String
  pub group_state_version : ℕ
  pub group_event_seq : ℕ
  pub created_at : ℕ

-- group_members, keyed by (group_did, member_did)
pub record Member : Type 0 where
  pub role : String
  pub status : String
  pub joined_at : ℕ

-- group_key_packages, keyed by owner_did
pub record KeyPackage : Type 0 where
  pub key_package : Fields
  pub key_package_id : String
  pub published_at : ℕ

-- group_e2ee_states, keyed by (group_did, crypto_group_id)
pub record CryptoState : Type 0 where
  pub epoch : String
  pub state : Fields
  pub updated_at : ℕ

-- one_time_prekeys; `rowid` is SQLite's implicit key
pub record OneTimePrekey : Type 0 where
  pub rowid : ℕ
  pub owner_did : String
  pub prekey : Json

-- attachment_slots, keyed by slot_id
pub record Slot : Type 0 where
  pub attachment_id : String
  pub object_id : String
  pub upload_uri : String
  pub object_uri : String
  pub commit_token : String
  pub status : String
  pub object_encryption_mode : String
  pub expected_size : Option String
  pub mime_type : Option String
  pub filename : Option String
  pub expected_digest : GoMap
  pub actual_size : Option ℕ
  pub actual_digest : Option String
  pub expires_at : ℕ
  pub created_at : ℕ
  pub owner_did : String

-- attachment_objects, keyed by object_id; the bytes are numbers below 256
pub record Object : Type 0 where
  pub content : List ℕ
  pub digest : String

-- attachment_tickets, keyed by ticket_b64u
pub record Ticket : Type 0 where
  pub binding : Fields
  pub expires_at : ℕ

pub record Db : Type 0 where
  pub registered_dids : Dict String Fields
  -- (id, row), the newest first
  pub messages : List (ℕ × Message)
  -- the last id that AUTOINCREMENT gave out
  pub last_id : ℕ
  pub handles : Dict String String
  pub groups : Dict String GroupRow
  pub group_members : Dict (String × String) Member
  pub prekey_bundles : Dict String GoMap
  -- in the order of rowid
  pub one_time_prekeys : List OneTimePrekey
  pub group_key_packages : Dict String KeyPackage
  pub group_e2ee_states : Dict (String × String) CryptoState
  pub attachment_slots : Dict String Slot
  pub attachment_objects : Dict String Object
  pub attachment_tickets : Dict String Ticket
  pub idempotency : Dict String Json

abbrev pub empty : Db
empty = record {
  registered_dids = [];
  messages = [];
  last_id = 0;
  handles = [];
  groups = [];
  group_members = [];
  prekey_bundles = [];
  one_time_prekeys = [];
  group_key_packages = [];
  group_e2ee_states = [];
  attachment_slots = [];
  attachment_objects = [];
  attachment_tickets = [];
  idempotency = [];
}
