-- ===== src/Group/Permissions.antt =====
-- groupPermitted of internal/server/group.go against an order of the roles.
use anp_server_go.Common.{
  Bool, Bool-cases, String, arith, eq_iff, false, if◌then◌else◌, inl, inr, is_some, not, true, ℕ,
  ◌+◌, ◌==◌, ◌↔◌, ◌≡◌, ◌≤◌,
}
use mathlib.Core.Path.{subst}
use anp_server_go.Group.Reads.{
  classify_payload, group_member_role, group_permitted, required_role, role_suffices,
}
use anp_server_go.Json.{GoMap, get, get_str}
use anp_server_go.Store.{Db}

-- How much a role may do; "" is no member.
abbrev pub rank : String → ℕ
rank role =
    if role == "owner" then 3 else if role == "admin" then 2 else if role == "" then 0 else 1

-- How much a policy asks for: a text that is no known role asks for membership.
abbrev pub asked : String → ℕ
asked required = if required == "owner" then 3 else if required == "admin" then 2 else 1

abbrev suffices : String → String → Bool
suffices role required =
    if role == "owner" then true else if role == "" then false else role_suffices role required

asked_positive : (required : String) → asked required ≤ 0 → ⊥
asked_positive required h = ground arith

-- The empty role is no owner's and no admin's, so that it ranks at 0.
empty_rank : (role required : String) → (role == "") ≡ true → asked required ≤ rank role → ⊥
empty_rank role required h le =
    asked_positive required (subst (λ r. asked required ≤ rank r) ((eq_iff role "").0 h) le)

suffices_ranks :
    (role required : String) → suffices role required ≡ true → asked required ≤ rank role
unfolding role_suffices
suffices_ranks role required h = elim (Bool-cases (role == "owner")) [
  | inl owner ↦ ground arith
  | inr other ↦ elim (Bool-cases (role == "")) [
    | inl outside ↦ ground arith
    | inr member ↦ ground arith
  ]
]

ranks_suffices :
    (role required : String) → asked required ≤ rank role → suffices role required ≡ true
unfolding role_suffices
ranks_suffices role required h = elim (Bool-cases (role == "owner")) [
  | inl owner ↦ ground arith
  | inr other ↦ elim (Bool-cases (role == "")) [
    | inl outside ↦ absurd (empty_rank role required outside h)
    | inr member ↦ ground arith
  ]
]

suffices_iff :
    (role required : String) → (suffices role required ≡ true) ↔ (asked required ≤ rank role)
suffices_iff role required = (suffices_ranks role required, ranks_suffices role required)

-- A DID may act in a group exactly when its role there ranks at least as high as the role that the
-- group's policy, or else the default for the action, asks for.
pub group_permitted_iff :
    (s : Db) (gid did action : String)
    → (group_permitted s gid did action ≡ true)
      ↔ (asked (required_role s gid action) ≤ rank (group_member_role s gid did))
unfolding group_permitted
group_permitted_iff s gid did action =
    suffices_iff (group_member_role s gid did) (required_role s gid action)

abbrev count : Bool → ℕ
count true = 1
count false = 0

-- How many of the three kinds of content a body carries.
abbrev pub contents : GoMap → ℕ
contents body =
    count (not (get_str body "text" == ""))
    + count (is_some (get body "payload"))
    + count (not (get_str body "payload_b64u" == ""))

-- A message body is classified exactly when it carries one kind of content, and no other number.
pub classify_payload_iff :
    (body : GoMap) → (is_some (classify_payload body) ≡ true) ↔ (contents body ≡ 1)
unfolding classify_payload
classify_payload_iff body = ground arith
