-- ===== src/Group/Patches.antt =====
-- The patches of group.update_profile and group.update_policy in internal/server/group.go.
use anp_server_go.Common.{Option, String, arith, eq_iff, none, refl, some, ◌≡◌}
use anp_server_go.Group.Updates.{merge_patch}
use anp_server_go.Json.{
  Fields, Json, delete_field, end, field, lookup_field, lookup_field-delete_field,
  lookup_field-set_field, null, set_field,
}

-- A Go map has each key once.
abbrev pub HasUniqueKeys : Fields → Type 0
HasUniqueKeys end = Unit
HasUniqueKeys (field k v fs) = (lookup_field k fs ≡ none) × HasUniqueKeys fs

-- What a key holds after a patch: what it held, if the patch has no such key; nothing, if the patch
-- has a null there; and else the patch's value.
abbrev pub patched : Option Json → Option Json → Option Json
patched none old = old
patched (some null) old = none
patched (some v) old = some v

-- After a patch, which has each key once, every key of a map holds what the patch says of it, or
-- else what it held before.
pub lookup_field-merge_patch :
    (k : String) (patch old : Fields)
    → HasUniqueKeys patch
    → lookup_field k (merge_patch patch old) ≡ patched (lookup_field k patch) (lookup_field k old)
unfolding merge_patch lookup_field
lookup_field-merge_patch k end old u = refl
lookup_field-merge_patch k (field j null fs) old (new, u) = ground (
  arith,
  lookup_field-merge_patch k fs (delete_field j old) u,
  lookup_field-delete_field j k old,
  eq_iff j k,
)
lookup_field-merge_patch k (field j v fs) old (new, u) = ground (
  arith,
  lookup_field-merge_patch k fs (set_field j v old) u,
  lookup_field-set_field j k v old,
  eq_iff j k,
)
