-- ===== src/GroupE2ee/KeyPackages.antt =====
-- The key packages of internal/server/group_e2ee.go: what group.e2ee.get_key_package answers after
-- group.e2ee.publish_key_package.
use anp_server_go.Common.{
  Bool-cases, Option-cases, String, [], ap, eq_iff, false, if◌then◌else◌, inl, inr, pair_eq, refl,
  some, string_eq, sym, ◌==◌, ◌∙◌, ◌∷◌, ◌≡◌,
}
use mathlib.Core.Path.{subst}
use anp_server_go.Attachment.Access.{required}
use anp_server_go.Common.Dict.{insert, lookup, lookup-insert}
use anp_server_go.Ends.{Ends, Ends-modify, Ends-or_raise, Ends-pure, Ends-raise_if}
use anp_server_go.Env.{Env}
use anp_server_go.Exec.{Result, err, ok, or_raise, pure, raise_if, ◌>>=◌}
use anp_server_go.GroupE2ee.Packages.{get_key_package, publish_key_package, required_body_string}
use anp_server_go.Json.{Fields, GoMap, Json, get_map, get_str, obj, object, set_field, str}
use anp_server_go.Sql.{upsert_key_package}
use anp_server_go.Store.{Db, KeyPackage}

-- The DID whose package a query asks for.
abbrev pub target : GoMap → String
target query = get_str (get_map query "body") "target_did"

-- The owner of a package: the authenticated caller, else the one that the package names.
abbrev pub owner_of : String → Fields → String
owner_of caller pkg = if caller == "" then get_str (some pkg) "owner_did" else caller

-- The answer of group.e2ee.get_key_package with the package of a DID.
abbrev pub package_reply : String → Fields → Json
package_reply did pkg = object (("target_did", str did) ∷ ("group_key_package", obj pkg) ∷ [])

-- How group.e2ee.publish_key_package ends: an error changes nothing; else the owner's package is
-- the given one, and a query for any other DID is answered as before.
abbrev pub Published : String → GoMap → Db → Result Json × Db → Type 0
Published caller params s (err e, t) = t ≡ s
Published caller params s (ok v, t) =
    (pkg : Fields) × (get_map (get_map params "body") "group_key_package" ≡ some pkg)
    × ((owner_of caller pkg == "") ≡ false)
    × ((query : GoMap)
        → get_key_package query t ≡ (
          (if owner_of caller pkg == target query
              then ok (
                  package_reply (owner_of caller pkg)
                    (set_field "owner_did" (str (owner_of caller pkg)) pkg))
              else (get_key_package query s).0),
          t,
        ))

query_found :
    (query : GoMap) (t : Db) (row : KeyPackage)
    → (target query == "") ≡ false
    → lookup (target query) t.group_key_packages ≡ some row
    → get_key_package query t ≡ (ok (package_reply (target query) row.key_package), t)
unfolding get_key_package required_body_string ◌>>=◌ raise_if pure or_raise
query_found query t row named found = rw (named, found) refl

-- A query reads its target's row alone.
query_kept :
    (query : GoMap) (s t : Db)
    → lookup (target query) t.group_key_packages ≡ lookup (target query) s.group_key_packages
    → get_key_package query t ≡ ((get_key_package query s).0, t)
unfolding get_key_package required_body_string ◌>>=◌ raise_if pure or_raise
query_kept query s t kept = elim (Bool-cases (target query == "")) [
  | inl unnamed ↦ rw unnamed refl
  | inr named ↦ elim (Option-cases (lookup (target query) s.group_key_packages)) [
    | inl missing ↦ rw (named, kept) (rw missing refl)
    | inr (row, found) ↦ rw (named, kept) (rw found refl)
  ]
]

stored :
    (s : Db) (owner : String) (row : KeyPackage) (query : GoMap)
    → (owner == "") ≡ false
    → let t = record s { group_key_packages = insert owner row s.group_key_packages } in
      get_key_package query t ≡ (
        (if owner == target query
            then ok (package_reply owner row.key_package)
            else (get_key_package query s).0),
        t,
      )
stored s owner row query named =
    let t : Db = record s { group_key_packages = insert owner row s.group_key_packages } in
    let read = lookup-insert owner (target query) row s.group_key_packages in
    elim (Bool-cases (owner == target query)) [
      | inl same ↦
          let is_owner = (eq_iff owner (target query)).0 same in
          rw same (
            query_found query t row (subst (λ o. (o == "") ≡ false) is_owner named)
              (rw read (rw same refl))
            ∙ ap (λ o. (ok (package_reply o row.key_package), t)) (sym is_owner))
      | inr other ↦ rw other (query_kept query s t (rw read (rw other refl)))
    ]

publishes :
    (env : Env) (caller : String) (params : GoMap) (s : Db)
    → Ends (Published caller params s) (publish_key_package env caller params) s
unfolding publish_key_package upsert_key_package
publishes env caller params s =
    Ends-or_raise _ _ _ (λ gone. refl)
      λ body given.
        Ends-or_raise _ _ _ (λ gone. refl)
          λ pkg found. Ends-raise_if _ _ _ refl λ named.
            required _ _ _ (λ e. refl)
              (required _ _ _ (λ e. refl)
                (Ends-modify _ _ (
                  Ends-pure _ (
                    pkg,
                    ap (λ m. get_map m "group_key_package") given ∙ found,
                    named,
                    λ query. stored s _ _ query named,
                  ))))

-- Publishing a key package that is refused changes nothing. After one that is accepted, the key
-- package of its owner, who is the authenticated caller where there is one, is answered as the given
-- one with the owner's DID set, and a query for any other DID is answered as before.
pub publish_key_package-Published :
    (env : Env) (caller : String) (params : GoMap) (s : Db)
    → Published caller params s (publish_key_package env caller params s)
publish_key_package-Published env caller params s = (publishes env caller params s).at
