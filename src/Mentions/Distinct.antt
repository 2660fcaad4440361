-- ===== src/Mentions/Distinct.antt =====
-- The ids in the mentions that validateMentions of internal/server/mentions.go reads.
use anp_server_go.Common.{
  List, Option, String, [], arith, false, if◌then◌else◌, none, refl, some, ◌==◌, ◌↔◌, ◌∷◌, ◌≡◌,
}
use anp_server_go.Json.{GoMap, Json, arr, elems, get}
use anp_server_go.Mentions.{check_mentions, check_value, contains, mention_id, validate_mentions}

-- The ids that the check compares.
abbrev pub ids : List Json → List String
ids [] = []
ids (item ∷ rest) =
    let id = mention_id item in let others = ids rest in if id == "" then others else id ∷ others

-- No id stands twice, nor among those seen before.
abbrev pub AreFresh : List String → List String → Type 0
AreFresh seen [] = Unit
AreFresh seen (id ∷ rest) = (contains seen id ≡ false) × AreFresh (id ∷ seen) rest

check_mentions_sound :
    (seen : List String) (items : List Json)
    → check_mentions seen items ≡ none
    → AreFresh seen (ids items)
unfolding check_mentions
check_mentions_sound seen [] h = tt
check_mentions_sound seen (item ∷ rest) h =
    ground
      (arith, check_mentions_sound seen rest, check_mentions_sound (mention_id item ∷ seen) rest)

check_mentions_complete :
    (seen : List String) (items : List Json)
    → AreFresh seen (ids items)
    → check_mentions seen items ≡ none
unfolding check_mentions
check_mentions_complete seen [] h = refl
check_mentions_complete seen (item ∷ rest) h = ground (
  arith,
  check_mentions_complete seen rest,
  check_mentions_complete (mention_id item ∷ seen) rest,
)

-- What the payload's mentions must be: missing, or an array in which no id that is not empty stands
-- twice.
abbrev pub AreMentions : Option Json → Type 0
AreMentions none = Unit
AreMentions (some (arr vs)) = AreFresh [] (ids (elems vs))
AreMentions (some _) = ⊥

value_iff : (v : Option Json) → (check_value v ≡ none) ↔ AreMentions v
value_iff none = (λ _. tt, λ _. refl)
value_iff (some (arr vs)) =
    (check_mentions_sound [] (elems vs), check_mentions_complete [] (elems vs))
value_iff (some _) = (λ h. cc, λ h. absurd h)

-- Mentions are accepted exactly when they are missing, or an array in which no id that is not empty
-- stands twice.
pub validate_mentions_iff :
    (payload : GoMap) → (validate_mentions payload ≡ none) ↔ AreMentions (get payload "mentions")
unfolding validate_mentions
validate_mentions_iff payload = value_iff (get payload "mentions")
