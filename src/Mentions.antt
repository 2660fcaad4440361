-- ===== src/Mentions.antt =====
-- internal/server/mentions.go: the check of a message's mentions.
pub mod Distinct
use anp_server_go.Common.{
  Bool, List, Option, String, [], false, if◌then◌else◌, none, some, ◌==◌, ◌||◌, ◌∷◌,
}
use anp_server_go.Exec.{Error, errorf}
use anp_server_go.Json.{GoMap, Json, arr, as_map, elems, get, get_str}

-- The id of an entry, "" for an entry that is no map or has no text as its id.
unfoldable pub mention_id : Json → String
mention_id item = get_str (as_map (some item)) "id"

unfoldable pub contains : List String → String → Bool
contains [] id = false
contains (x ∷ xs) id = x == id || contains xs id

-- The loop of validateMentions; `seen` holds the ids of the entries before.
unfoldable pub check_mentions : List String → List Json → Option Error
unfolding mention_id contains
check_mentions seen [] = none
check_mentions seen (item ∷ rest) =
    let id = mention_id item in
    let skipped = check_mentions seen rest in
    let noted = check_mentions (id ∷ seen) rest in
    if id == ""
    then skipped
    else if contains seen id
    then some (errorf "duplicate mention id %q" (id ∷ []))
    else noted

abbrev pub check_value : Option Json → Option Error
check_value none = none
check_value (some (arr vs)) = check_mentions [] (elems vs)
check_value (some _) = some (errorf "mentions must be an array" [])

-- None is the nil error.
unfoldable pub validate_mentions : GoMap → Option Error
unfolding check_mentions
validate_mentions payload = check_value (get payload "mentions")
