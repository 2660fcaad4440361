-- ===== src/Strings.antt =====
-- The functions of package strings that the server calls, on texts as lists of characters.
use anp_server_go.Common.{
  Bool, Option, String, false, if◌then◌else◌, leb, ltb, none, some, true, ℕ, ◌&&◌, ◌+◌, ◌==◌, ◌||◌,
}
use Prim.Native.Char.{Char, code}

-- The characters have the same code.
abbrev pub same_code : ℕ → ℕ → Bool
same_code a b = leb a b && leb b a

-- A text up to its first character with the code, and what follows that.
unfoldable pub cut : ℕ → String → String × Option String
cut sep String.[] = ("", none)
cut sep (String.◌∷◌ c s) =
    let (before, after) = cut sep s in
    if ltb (code c) sep || ltb sep (code c) then (String.◌∷◌ c before, after) else ("", some s)

-- strings.TrimSuffix of one character
unfoldable pub trim_last : ℕ → String → String
trim_last sep String.[] = ""
trim_last sep (String.◌∷◌ c String.[]) = if same_code (code c) sep then "" else String.◌∷◌ c ""
trim_last sep (String.◌∷◌ c (String.◌∷◌ d s)) = String.◌∷◌ c (trim_last sep (String.◌∷◌ d s))

-- strings.HasSuffix
unfoldable pub ends_with : String → String → Bool
ends_with String.[] t = t == ""
ends_with (String.◌∷◌ c s) t = String.◌∷◌ c s == t || ends_with s t

-- What follows a prefix: strings.HasPrefix with the slice behind it.
unfoldable pub strip_prefix : String → String → Option String
strip_prefix String.[] s = some s
strip_prefix (String.◌∷◌ p ps) String.[] = none
strip_prefix (String.◌∷◌ p ps) (String.◌∷◌ c s) =
    let rest = strip_prefix ps s in if same_code (code p) (code c) then rest else none

-- What follows the first occurrence of a marker: strings.Index with the slice behind it.
unfoldable pub after_first : String → String → Option String
unfolding strip_prefix
after_first marker String.[] = strip_prefix marker ""
after_first marker (String.◌∷◌ c s) =
    let later = after_first marker s in
    elim (strip_prefix marker (String.◌∷◌ c s)) [ none ↦ later | some rest ↦ some rest ]

abbrev or_cut : ℕ → ℕ → Option String → Char → Option String
or_cut sep c none d = if same_code c sep then some "" else none
or_cut sep c (some s) d = some (String.◌∷◌ d s)

-- What stands before the last occurrence: strings.LastIndex with the slice in front of it.
unfoldable pub before_last : ℕ → String → Option String
before_last sep String.[] = none
before_last sep (String.◌∷◌ c s) = or_cut sep (code c) (before_last sep s) c

-- White space as unicode.IsSpace has it.
unfoldable pub is_space : ℕ → Bool
is_space c =
    (leb 9 c && leb c 13)
    || same_code c 32
    || same_code c 0x85
    || same_code c 0xA0
    || same_code c 0x1680
    || (leb 0x2000 c && leb c 0x200a)
    || same_code c 0x2028
    || same_code c 0x2029
    || same_code c 0x202f
    || same_code c 0x205f
    || same_code c 0x3000

unfoldable pub trim_left : String → String
unfolding is_space
trim_left String.[] = ""
trim_left (String.◌∷◌ c s) =
    let rest = trim_left s in if is_space (code c) then rest else String.◌∷◌ c s

unfoldable pub trim_right : String → String
unfolding is_space
trim_right String.[] = ""
trim_right (String.◌∷◌ c s) =
    let rest = trim_right s in if rest == "" && is_space (code c) then "" else String.◌∷◌ c rest

-- strings.TrimSpace
unfoldable pub trim_space : String → String
unfolding trim_left trim_right
trim_space s = trim_right (trim_left s)

unfoldable pub lower_code : ℕ → ℕ
lower_code c = if leb b'A' c && leb c b'Z' then c + 32 else c

-- strings.EqualFold of ASCII texts, as header names are
unfoldable pub equal_fold : String → String → Bool
unfolding lower_code
equal_fold String.[] String.[] = true
equal_fold (String.◌∷◌ c s) (String.◌∷◌ d t) =
    same_code (lower_code (code c)) (lower_code (code d)) && equal_fold s t
equal_fold _ _ = false
