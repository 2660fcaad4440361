-- ===== src/Inbox/Page.antt =====
-- The page that msg.inbox of internal/server/msg.go shows.
use anp_server_go.Common.{
  All, Bool, Bool-cases, List, Option, String, [], ap, arith, eq_iff, filter, inl, inr, length, map,
  map-All, none, pair_eq, refl, some, string_eq, suc, take, true, zero, ℕ, ◌++◌, ◌↔◌, ◌∙◌, ◌∷◌, ◌≡◌,
  ◌≤◌, ◌⊎◌,
}
use Prim.Native.Nat.{min}
use anp_server_go.Common.Dict.{lookup}
use anp_server_go.Exec.{ok, ◌>>=◌}
use anp_server_go.Inbox.{
  active_row, in_limit_range, inbox_entry, inbox_limit, inbox_rows, is_active_in, is_text,
  is_visible, limit_of, msg_inbox,
}
use anp_server_go.Json.{GoMap, Json, arr, get, items, num, object}
use anp_server_go.Store.{Db, Member, Message}

length-take : {A : Type 0} (n : ℕ) (xs : List A) → length (take n xs) ≡ min n (length xs)
length-take zero xs = omega arith
length-take (suc n) [] = omega arith
length-take (suc n) (x ∷ xs) = omega (arith, length-take n xs)

take-prefix : {A : Type 0} (n : ℕ) (xs : List A) → (rest : List A) × (xs ≡ take n xs ++ rest)
take-prefix zero xs = (xs, refl)
take-prefix (suc n) [] = ([], refl)
take-prefix (suc n) (x ∷ xs) =
    let (rest, split) = take-prefix n xs in (rest, ap (λ ys. x ∷ ys) split)

filter-All : {A : Type 0} (p : A → Bool) (xs : List A) → All (λ x. p x ≡ true) (filter p xs)
filter-All p [] = tt
filter-All p (x ∷ xs) = elim (Bool-cases (p x)) [
  | inl passes ↦ rw passes (passes, filter-All p xs)
  | inr fails ↦ rw fails (filter-All p xs)
]

take-All : {A : Type 0} (P : A → Type 0) (n : ℕ) (xs : List A) → All P xs → All P (take n xs)
take-All P zero xs h = tt
take-All P (suc n) [] h = tt
take-All P (suc n) (x ∷ xs) (px, h) = (px, take-All P n xs h)

-- Every number in the range of the parameter `limit` is between 1 and 1000.
limit_of_range : (v : Option Json) → (1 ≤ limit_of v) × (limit_of v ≤ 1000)
unfolding in_limit_range
limit_of_range (some (num v)) = (ground arith, ground arith)
limit_of_range _ = (omega arith, omega arith)

-- The message's group has the DID as an active member.
abbrev pub IsForGroup : Db → String → Option String → Type 0
IsForGroup s did group =
    (gid : String) × (row : Member) × (group ≡ some gid)
    × (lookup (gid, did) s.group_members ≡ some row)
    × (row.status ≡ "active")

-- The message is for the DID itself, or for a group in which the DID is an active member.
abbrev pub IsFor : Db → String → Message → Type 0
IsFor s did m = (m.recipient_did ≡ some did) ⊎ IsForGroup s did m.group_did

some_inj : {A : Type 0} {a b : A} → some a ≡ some b → a ≡ b
some_inj h = cc

none_some : {A C : Type 0} {a : A} → none ≡ some a → C
none_some h = cc

is_text_iff : (o : Option String) (did : String) → (is_text o did ≡ true) ↔ (o ≡ some did)
is_text_iff none did = (λ h. cc, none_some)
is_text_iff (some a) did = (λ h. ap some ((eq_iff a did).0 h), λ h. (eq_iff a did).1 (some_inj h))

active_row_found :
    (o : Option Member)
    → active_row o ≡ true
    → (row : Member) × (o ≡ some row) × (row.status ≡ "active")
active_row_found none h = cc
active_row_found (some row) h = (row, refl, (eq_iff row.status "active").0 h)

is_active_in-IsForGroup :
    (s : Db) (group : Option String) (did : String)
    → is_active_in s group did ≡ true
    → IsForGroup s did group
unfolding is_active_in
is_active_in-IsForGroup s none did h = cc
is_active_in-IsForGroup s (some gid) did h =
    let (row, found, active) = active_row_found (lookup (gid, did) s.group_members) h in
    (gid, row, refl, found, active)

IsForGroup-is_active_in :
    (s : Db) (group : Option String) (did : String)
    → IsForGroup s did group
    → is_active_in s group did ≡ true
unfolding is_active_in
IsForGroup-is_active_in s none did (gid, row, named, found, active) = none_some named
IsForGroup-is_active_in s (some g) did (gid, row, named, found, active) =
    ap active_row (ap (λ x. lookup (x, did) s.group_members) (some_inj named) ∙ found)
    ∙ (eq_iff row.status "active").1 active

-- The inbox has a message visible to a caller exactly when the message is addressed to the caller,
-- or to a group in which the caller is an active member.
pub is_visible_iff :
    (s : Db) (did : String) (m : Message) → (is_visible s did m ≡ true) ↔ IsFor s did m
unfolding is_visible
is_visible_iff s did m = (
  λ h. elim (Bool-cases (is_text m.recipient_did did)) [
    | inl own ↦ inl ((is_text_iff m.recipient_did did).0 own)
    | inr other ↦ inr (is_active_in-IsForGroup s m.group_did did (ground arith))
  ],
  λ h. elim h [
    | inl own ↦ rw ((is_text_iff m.recipient_did did).1 own) refl
    | inr member ↦ rw (IsForGroup-is_active_in s m.group_did did member) (ground arith)
  ],
)

-- A page: a first part of the visible rows in the table's order, as many rows as the limit or, where
-- they are fewer, all of them.
abbrev pub IsPage : Db → String → ℕ → List (ℕ × Message) → Type 0
IsPage s did limit rows =
    let visible = filter (λ r. is_visible s did r.1) s.messages in
    All (λ r. IsFor s did r.1) rows
    × (length rows ≡ min limit (length visible))
    × ((rest : List (ℕ × Message)) × (visible ≡ rows ++ rest))

take-IsPage : (s : Db) (did : String) (n : ℕ) → IsPage s did n (inbox_rows s did n)
unfolding inbox_rows
take-IsPage s did n =
    let visible = filter (λ r. is_visible s did r.1) s.messages in
    (
      map-All (λ r. is_visible s did r.1 ≡ true) _ (take n visible)
          (λ r. (is_visible_iff s did r.1).0)
          (take-All (λ r. is_visible s did r.1 ≡ true) n visible (filter-All _ s.messages)),
      length-take n visible,
      take-prefix n visible,
    )

-- A request's answer has the entries of a page, and the request changes nothing.
abbrev pub ShowsPage : Db → String → GoMap → Type 0
ShowsPage s did params =
    (rows : List (ℕ × Message)) × IsPage s did (inbox_limit params) rows
    × (msg_inbox did params s
        ≡ (ok (object (("messages", arr (items (map inbox_entry rows))) ∷ [])), s))

msg_inbox-ShowsPage : (s : Db) (did : String) (params : GoMap) → ShowsPage s did params
unfolding msg_inbox ◌>>=◌
msg_inbox-ShowsPage s did params =
    (inbox_rows s did (inbox_limit params), take-IsPage s did (inbox_limit params), refl)

-- The inbox of a request has a limit between 1 and 1000. It shows a first part of the rows that the
-- caller may see, in the table's order, which has the newest row first: as many as the limit, or all
-- of them where they are fewer. Each is addressed to the caller, or to a group in which the caller
-- is an active member. The answer has an entry for each of these rows and no other, and the database
-- stays as it is.
pub msg_inbox-IsPage :
    (s : Db) (did : String) (params : GoMap)
    → (1 ≤ inbox_limit params) × (inbox_limit params ≤ 1000) × ShowsPage s did params
unfolding inbox_limit
msg_inbox-IsPage s did params =
    let range = limit_of_range (get params "limit") in
    (range.0, range.1, msg_inbox-ShowsPage s did params)
