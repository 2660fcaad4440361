-- ===== src/Group/Send/Delivery.antt =====
-- How group.send of internal/server/group.go ends.
use anp_server_go.Common.{
  Bool-cases, Option-cases, String, false, inl, inr, none, pair_eq, refl, some, string_eq, sym,
  true, ℕ, ◌+◌, ◌∷◌, ◌≡◌,
}
use mathlib.Core.Path.{subst}
use anp_server_go.Common.Dict.{beq_refl, lookup, lookup-update, update}
use anp_server_go.Ends.{
  Ends, Ends-bind, Ends-gets, Ends-or_raise, Ends-pure, Ends-raise_any, Ends-raise_if, positive,
}
use anp_server_go.Env.{Env, now_sec}
use anp_server_go.Exec.{Error, Exec, Result, err, ok, ◌>>=◌}
use anp_server_go.Group.Reads.{
  classify_payload, group_state_version, is_group_member, next_group_event_seq, sender_or_claimed,
}
use anp_server_go.Group.Send.{group_send, mentions_error, send_target}
use anp_server_go.Json.{GoMap, Json, as_map, get, get_map, get_str, lookup_field, nat}
use anp_server_go.Moves.{Moves, Moves-pure, moves_rules, unchanged}
use anp_server_go.Proof.{verify_attached_proof, verify_origin_proof}
use anp_server_go.Proof.Origin.{IsProvenIf, verify_attached_proof-IsProvenIf}
use anp_server_go.Sql.{has_message, increment_event_seq, insert_message}
use anp_server_go.Store.{Db, GroupRow, Message}

-- An action that writes nothing.
Ends-check :
    {A B : Type 0} {R : Result B × Db → Type 0} {s : Db} (m : Exec A) (f : A → Exec B)
    → Moves unchanged m
    → ((e : Error) → R (err e, s))
    → ((a : A) → (m s).0 ≡ ok a → Ends R (f a) s)
    → Ends R (m >>= f) s
Ends-check {R} {s} m f still failed passed =
    Ends-bind m f (λ e h. subst (λ t. R (err e, t)) (sym (still.at s)) (failed e))
      (λ a h. subst (λ t. Ends R (f a) t) (sym (still.at s)) (passed a h))

-- The group's row with the next event number.
abbrev pub numbered : GroupRow → GroupRow
numbered r = record r { group_event_seq = r.group_event_seq + 1 }

Ends-next_group_event_seq :
    {B : Type 0} {R : Result B × Db → Type 0} {s : Db} (gid : String) (f : ℕ → Exec B)
    → ((e : Error) → R (err e, record s { groups = update gid numbered s.groups }))
    → ((r : GroupRow)
        → lookup gid s.groups ≡ some r
        → Ends R (f (r.group_event_seq + 1)) (record s { groups = update gid numbered s.groups }))
    → Ends R (next_group_event_seq gid >>= f) s
unfolding next_group_event_seq increment_event_seq ◌>>=◌
Ends-next_group_event_seq {R} {s} gid f failed passed = elim (Option-cases (lookup gid s.groups)) [
  | inl gone ↦ record {
    at = rw (lookup-update gid gid numbered s.groups) (rw (beq_refl gid) (rw gone (failed _)));
  }
  | inr (r, found) ↦ record {
    at =
        rw (lookup-update gid gid numbered s.groups)
          (rw (beq_refl gid) (rw found (passed r found).at));
  }
]

Ends-insert_message :
    {B : Type 0} {R : Result B × Db → Type 0} {s : Db} (m : Message) (f : Unit {0} → Exec B)
    → ((e : Error) → R (err e, s))
    → (has_message m.message_id s.messages ≡ false
        → Ends R
            (f tt)
            (record s { messages = (s.last_id + 1, m) ∷ s.messages; last_id = s.last_id + 1 }))
    → Ends R (insert_message m >>= f) s
unfolding insert_message ◌>>=◌
Ends-insert_message {R} {s} m f failed passed =
    elim (Bool-cases (has_message m.message_id s.messages)) [
      | inl taken ↦ record { at = rw taken (failed _) }
      | inr free ↦ record { at = rw free (passed free).at }
    ]

verify_origin_proof-Unchanged :
    (env : Env) (sender method : String) (meta body auth : GoMap)
    → Moves unchanged (verify_origin_proof env sender method meta body auth)
unfolding verify_origin_proof
verify_origin_proof-Unchanged env sender method meta body auth = search moves_rules depth 12

verify_attached_proof-Unchanged :
    (env : Env) (sender method : String) (meta body auth : GoMap)
    → Moves unchanged (verify_attached_proof env sender method meta body auth)
unfolding verify_attached_proof
verify_attached_proof-Unchanged env sender method meta body none = Moves-pure tt
verify_attached_proof-Unchanged env sender method meta body (some auth) =
    search (moves_rules, verify_origin_proof-Unchanged)

group_state_version-Unchanged : (gid : String) → Moves unchanged (group_state_version gid)
unfolding group_state_version
group_state_version-Unchanged gid = search moves_rules

-- The message that a request of a sender stores.
abbrev pub group_message : Env → String → GoMap → String × String → Message
group_message env sender params content = record {
  message_id = get_str (get_map params "meta") "message_id";
  sender_did = sender;
  recipient_did = none;
  group_did = some (send_target params);
  kind = content.0;
  text = content.1;
  secure = false;
  sent_at = now_sec env;
  wire_meta = get_map params "meta";
  wire_body = get_map params "body";
}

-- How group.send ends: an error leaves the messages and the members as they are; else the sender is
-- a member, its mentions and its proof pass, its message is new and is appended with the next id,
-- and the group's row has the next event number, which the answer gives.
abbrev pub Sends : Env → String → GoMap → Db → Result Json × Db → Type 0
Sends env caller params s (err e, t) =
    (t.messages ≡ s.messages) × (t.group_members ≡ s.group_members)
Sends env caller params s (ok v, t) =
    let gid = send_target params in
    let sender = sender_or_claimed caller (get_map params "meta") in
    (content : String × String) × (r : GroupRow) × (is_group_member s gid sender ≡ true)
    × (classify_payload (get_map params "body") ≡ some content)
    × (mentions_error content.0 (get_map params "body") ≡ none)
    × IsProvenIf env sender "group.send" (get_map params "meta") (get_map params "body")
        (get_map params "auth") s
    × (lookup gid s.groups ≡ some r)
    × (has_message (get_str (get_map params "meta") "message_id") s.messages ≡ false)
    × (t.messages ≡ (s.last_id + 1, group_message env sender params content) ∷ s.messages)
    × (t.group_members ≡ s.group_members)
    × (t.groups ≡ update gid numbered s.groups)
    × (get (as_map (some v)) "group_event_seq" ≡ some (nat (r.group_event_seq + 1)))

sends :
    (env : Env) (caller : String) (params : GoMap) (s : Db)
    → Ends (Sends env caller params s) (group_send env caller params) s
unfolding group_send get as_map lookup_field
sends env caller params s =
    Ends-raise_if _ _ _ (refl, refl)
      λ a.
        Ends-raise_if _ _ _ (refl, refl)
          λ b.
            Ends-raise_if _ _ _ (refl, refl)
              λ c.
                Ends-raise_if _ _ _ (refl, refl)
                  λ d. Ends-gets _ _ (
                    Ends-raise_if _ _ _ (refl, refl)
                      λ member.
                        Ends-or_raise _ _ _ (λ none_or_several. (refl, refl))
                          λ content one.
                            Ends-raise_any _ _ (λ e wrong. (refl, refl))
                              λ mentioned.
                                Ends-check _ _ (verify_attached_proof-Unchanged env _ _ _ _ _)
                                  (λ e. (refl, refl))
                                  λ u proved.
                                    Ends-next_group_event_seq _ _ (λ e. (refl, refl))
                                      λ r found.
                                        Ends-check _ _ (group_state_version-Unchanged _)
                                          (λ e. (refl, refl))
                                          λ version read.
                                            Ends-insert_message _ _ (λ e. (refl, refl))
                                              λ free. Ends-pure _ (
                                                content,
                                                r,
                                                positive member,
                                                one,
                                                mentioned,
                                                verify_attached_proof-IsProvenIf env _ _ _ _ _ s u
                                                    proved,
                                                found,
                                                free,
                                                refl,
                                                refl,
                                                refl,
                                                refl,
                                              ))

-- group.send that fails leaves the messages and the members as they are. One that succeeds comes
-- from a member of the group, has exactly one kind of content, mentions that are valid where this is
-- a JSON payload, a proof of origin that verifies where it has an auth object, and a message id that
-- is not stored yet; it appends this one message with the next id, changes no member, and gives the
-- group the next event number, which it answers.
pub group_send-Sends :
    (env : Env) (caller : String) (params : GoMap) (s : Db)
    → Sends env caller params s (group_send env caller params s)
group_send-Sends env caller params s = (sends env caller params s).at
