-- ===== src/Json.antt =====
-- The values that encoding/json reads into `any`, and the type assertions that every handler makes
-- on them: internal/server/group.go (asMap), group_e2ee.go (requiredBodyString) and the
-- `v, _ := m["k"].(string)` lines of all handlers.
use anp_server_go.Common.{
  Bool, List, Option, String, [], arith, eq_iff, false, if◌then◌else◌, none, refl, some, ℕ, ◌==◌,
  ◌∷◌, ◌≡◌,
}

-- A finite float64: its sign, the integer part of its magnitude, and a numeral that is 0 exactly
-- when the magnitude is a whole number.
pub record Number : Type 0 where
  pub negative : Bool
  pub whole : ℕ
  pub fraction : ℕ

mutual
  pub data Json : Type 0 where
    null : Json
    bool : Bool → Json
    num : Number → Json
    str : String → Json
    arr : Items → Json
    obj : Fields → Json

  pub data Items : Type 0 where
    nil : Items
    cons : Json → Items → Items

  pub data Fields : Type 0 where
    end : Fields
    field : String → Json → Fields → Fields

abbrev pub elems : Items → List Json
elems nil = []
elems (cons v vs) = v ∷ elems vs

abbrev pub items : List Json → Items
items [] = nil
items (v ∷ vs) = cons v (items vs)

-- A `map[string]any`; `none` is the nil map, which reads as an empty one.
abbrev pub GoMap : Type 0
GoMap = Option Fields

unfoldable pub lookup_field : String → Fields → Option Json
lookup_field k end = none
lookup_field k (field j v fs) = if j == k then some v else lookup_field k fs

-- `m[k] = v`
unfoldable pub set_field : String → Json → Fields → Fields
set_field k v end = field k v end
set_field k v (field j w fs) = if j == k then field k v fs else field j w (set_field k v fs)

-- `delete(m, k)`
unfoldable pub delete_field : String → Fields → Fields
delete_field k end = end
delete_field k (field j w fs) =
    let rest = delete_field k fs in if j == k then rest else field j w rest

-- `m[k]`, where a missing key differs from a null.
unfoldable pub get : GoMap → String → Option Json
get none k = none
get (some fs) k = lookup_field k fs

-- `m, _ := v.(map[string]any)`
unfoldable pub as_map : Option Json → GoMap
as_map (some (obj fs)) = some fs
as_map _ = none

-- `s, _ := v.(string)`
unfoldable pub as_str : Option Json → String
as_str (some (str s)) = s
as_str _ = ""

-- `b, _ := v.(bool)`
unfoldable pub as_bool : Option Json → Bool
as_bool (some (bool b)) = b
as_bool _ = false

-- `l, ok := v.([]any)`
unfoldable pub as_arr : Option Json → Option (List Json)
as_arr (some (arr vs)) = some (elems vs)
as_arr _ = none

unfoldable pub get_map : GoMap → String → GoMap
unfolding get as_map
get_map m k = as_map (get m k)

unfoldable pub get_str : GoMap → String → String
unfolding get as_str
get_str m k = as_str (get m k)

unfoldable pub get_bool : GoMap → String → Bool
unfolding get as_bool
get_bool m k = as_bool (get m k)

unfoldable pub get_arr : GoMap → String → Option (List Json)
unfolding get as_arr
get_arr m k = as_arr (get m k)

-- A map or an interface value as json.Marshal writes it: nil is null.
abbrev pub map_json : GoMap → Json
map_json none = null
map_json (some fs) = obj fs

abbrev pub any_json : Option Json → Json
any_json none = null
any_json (some v) = v

-- A map literal of a handler.
abbrev pub fields : List (String × Json) → Fields
fields [] = end
fields ((k, v) ∷ kvs) = field k v (fields kvs)

abbrev pub object : List (String × Json) → Json
object kvs = obj (fields kvs)

abbrev pub nat : ℕ → Json
nat n = num (record { negative = false; whole = n; fraction = 0 })

pub lookup_field-set_field :
    (k j : String) (v : Json) (fs : Fields)
    → lookup_field j (set_field k v fs) ≡ (if k == j then some v else lookup_field j fs)
unfolding lookup_field set_field
lookup_field-set_field k j v end = refl
lookup_field-set_field k j v (field i w fs) =
    ground (arith, eq_iff k j, eq_iff i k, eq_iff i j, lookup_field-set_field k j v fs)

pub lookup_field-delete_field :
    (k j : String) (fs : Fields)
    → lookup_field j (delete_field k fs) ≡ (if k == j then none else lookup_field j fs)
unfolding lookup_field delete_field
lookup_field-delete_field k j end = ground arith
lookup_field-delete_field k j (field i w fs) =
    ground (arith, eq_iff k j, eq_iff i k, eq_iff i j, lookup_field-delete_field k j fs)
