-- ===== src/Attachment/Access.antt =====
-- How attachment.commit_object of internal/server/attachment.go ends.
use mathlib.Core.Option
use anp_server_go.Common.{
  Bool-cases, Option-cases, String, ap, arith, eq_iff, false, if◌then◌else◌, inl, inr, length, not,
  pair_eq, refl, some, string_eq, sym, ◌==◌, ◌∙◌, ◌≡◌,
}
use anp_server_go.Attachment.Slots.{
  attachment_commit_object, digest_differs, is_past, load_slot, size_differs, size_to_int64,
}
use anp_server_go.Common.Dict.{lookup, lookup-update, update}
use anp_server_go.Ends.{Ends, Ends-gets, Ends-modify, Ends-or_raise, Ends-pure, Ends-raise_if}
use anp_server_go.Env.{Env}
use anp_server_go.Exec.{Error, Exec, Result, err, ok, pure, raise_if, ◌>>=◌}
use anp_server_go.GroupE2ee.Packages.{required_body_string}
use anp_server_go.Json.{Fields, GoMap, Json, get, get_map, get_str}
use anp_server_go.Sql.{commit_slot}
use anp_server_go.Store.{Db, Object, Slot, empty}

-- A commit's effect on a slot.
abbrev pub committed : Object → Slot → Slot
committed stored slot = record slot {
  status = "committed";
  actual_size = some (length stored.content);
  actual_digest = some stored.digest;
}

-- The slot may be committed by a request: it has the request's token and attachment, it is new and
-- has not expired, its content is there, and it is what the request declares.
abbrev pub IsCommittable : Env → Fields → Slot → Object → Type 0
IsCommittable env body slot stored =
    (slot.commit_token ≡ get_str (some body) "commit_token")
    × (slot.attachment_id ≡ get_str (some body) "attachment_id")
    × (slot.status ≡ "created")
    × (is_past env slot.expires_at ≡ false)
    × (size_differs (size_to_int64 (get (some body) "size")) (length stored.content) ≡ false)
    × (digest_differs env (get_map (some body) "digest") stored.content ≡ false)

abbrev pub Commit : Env → GoMap → Db → Result Json × Db → Type 0
Commit env params s (err e, t) = t ≡ s
Commit env params s (ok v, t) =
    (body : Fields) × (slot : Slot) × (stored : Object) × (get_map params "body" ≡ some body)
    × (lookup (get_str (some body) "slot_id") s.attachment_slots ≡ some slot)
    × (lookup slot.object_id s.attachment_objects ≡ some stored)
    × IsCommittable env body slot stored
    × (t.attachment_objects ≡ s.attachment_objects)
    × ((id : String)
        → lookup id t.attachment_slots ≡ (
            if get_str (some body) "slot_id" == id
            then some (committed stored slot)
            else lookup id s.attachment_slots))

pub required :
    {B : Type 0} {R : Result B × Db → Type 0} {s : Db} (body : GoMap) (name : String)
    (f : String → Exec B)
    → ((e : Error) → R (err e, s))
    → Ends R (f (get_str body name)) s
    → Ends R (required_body_string body name >>= f) s
unfolding required_body_string ◌>>=◌ raise_if pure
required {R} {s} body name f failed passed = elim (Bool-cases (get_str body name == "")) [
  | inl empty ↦ record { at = rw empty (failed _) }
  | inr present ↦ record { at = rw present passed.at }
]

pub equal : {a b : String} → not (a == b) ≡ false → a ≡ b
equal {a} {b} h = ground (arith, eq_iff a b)

loaded :
    {B : Type 0} {R : Result B × Db → Type 0} {s : Db} (slot_id : String) (f : Slot → Exec B)
    → ((e : Error) → R (err e, s))
    → ((slot : Slot) → lookup slot_id s.attachment_slots ≡ some slot → Ends R (f slot) s)
    → Ends R (load_slot slot_id >>= f) s
unfolding load_slot ◌>>=◌
loaded {R} {s} slot_id f failed passed = elim (Option-cases (lookup slot_id s.attachment_slots)) [
  | inl gone ↦ record { at = rw gone (failed _) }
  | inr (slot, found) ↦ record { at = rw found ((passed slot found).at) }
]

lookup-committed :
    (slot_id id : String) (slot : Slot) (stored : Object) (s : Db)
    → lookup slot_id s.attachment_slots ≡ some slot
    → lookup id (update slot_id (committed stored) s.attachment_slots)
      ≡ (if slot_id == id then some (committed stored slot) else lookup id s.attachment_slots)
lookup-committed slot_id id slot stored s found =
    rw (lookup-update slot_id id (committed stored) s.attachment_slots)
      (elim (Bool-cases (slot_id == id)) [
        | inl same ↦ rw same (
            ap (Option.map (committed stored))
              (ap (λ k. lookup k s.attachment_slots) (sym ((eq_iff slot_id id).0 same)) ∙ found))
        | inr other ↦ rw other refl
      ])

commits :
    (env : Env) (params : GoMap) (s : Db)
    → Ends (Commit env params s) (attachment_commit_object env params) s
unfolding attachment_commit_object commit_slot
commits env params s =
    Ends-or_raise _ _ _ (λ gone. refl)
      λ body given.
        required _ _ _ (λ e. refl)
          (required _ _ _ (λ e. refl)
            (required _ _ _ (λ e. refl)
              (loaded _ _ (λ e. refl)
                λ slot found. Ends-raise_if _ _ _ refl λ same. Ends-raise_if _ _ _ refl λ token.
                  Ends-raise_if _ _ _ refl λ fresh. Ends-raise_if _ _ _ refl λ early.
                    Ends-gets _ _ (
                      Ends-or_raise _ _ _ (λ gone. refl)
                        λ stored there. Ends-raise_if _ _ _ refl λ size.
                          Ends-raise_if _ _ _ refl λ digest. Ends-modify _ _ (
                            Ends-pure _ (
                              body,
                              slot,
                              stored,
                              given,
                              found,
                              there,
                              (equal token, equal same, equal fresh, early, size, digest),
                              refl,
                              λ id. lookup-committed _ id slot stored s found,
                            ))))))

-- A commit that fails changes nothing. One that succeeds names a new slot that has not expired by
-- its token and its attachment, and its declared size and digest fit the stored object; it then
-- marks this slot as committed with the size and the digest of the object, and changes no other.
pub attachment_commit_object-Commit :
    (env : Env) (params : GoMap) (s : Db)
    → Commit env params s (attachment_commit_object env params s)
attachment_commit_object-Commit env params s = (commits env params s).at
