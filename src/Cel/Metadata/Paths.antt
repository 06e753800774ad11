-- ===== src/Cel/Metadata/Paths.antt =====
-- `__extract_fields` and `__get_property_path_str` of
-- src/repositories/cel_to_sql/properties_metadata.py: a path of fields as one text, and back.
use Prim.Native.Char.{Char, code}
use Prim.Native.String
use keep_api_gateway.Prelude.{
  ℕ, zero, suc, String, ◌⧺◌, Bool, true, false, not, ◌&&◌, ◌||◌, ◌==◌, leb, nat_eq, join, List, [],
  ◌∷◌, map, if◌then◌else◌,
}

-- What stands before the first of some characters, and the rest.
abbrev pub before_if : Bool → Char → String → String × String → String × String
before_if true c s rest = ("", String.◌∷◌ c s)
before_if false c s (l, r) = (String.◌∷◌ c l, r)

unfoldable pub break : (ℕ → Bool) → String → String × String
break stop String.[] = ("", "")
break stop (String.◌∷◌ c s) = before_if (stop (code c)) c s (break stop s)

abbrev pub is_dot : ℕ → Bool
is_dot c = nat_eq c b'.'

abbrev pub is_open : ℕ → Bool
is_open c = nat_eq c b'['

abbrev pub is_bracket : ℕ → Bool
is_bracket c = nat_eq c b'[' || nat_eq c b']'

-- `\[([^\[\]]+)\]` after its first character: the group, and what follows the match
abbrev pub closed : String × String → Bool
closed (content, String.[]) = false
closed (content, String.◌∷◌ c s) = not (content == "") && nat_eq (code c) b']'

abbrev pub after_first : String → String
after_first String.[] = ""
after_first (String.◌∷◌ c s) = s

-- `re.compile(r"\[([^\[\]]+)\]|([^.]+)").findall(…)`, a unit of fuel for each character
unfoldable pub extract : ℕ → String → List String
unfolding break
extract fuel String.[] = []
extract zero (String.◌∷◌ c s) = []
extract (suc fuel) (String.◌∷◌ c s) =
    let group = break is_bracket s in
    let word = break is_dot (String.◌∷◌ c s) in
    let bracketed = group.0 ∷ extract fuel (after_first group.1) in
    let skipped = extract fuel s in
    let plain = word.0 ∷ extract fuel word.1 in
    if is_open (code c) && closed group
    then bracketed
    else if is_dot (code c)
    then skipped
    else plain

-- `__extract_fields`
unfoldable pub extract_fields : String → List String
unfolding extract
extract_fields s = extract (String.count s) s

-- `re.search(r"[^a-zA-Z0-9*]", item)` finds nothing
abbrev pub is_plain_char : ℕ → Bool
is_plain_char c =
    (leb b'a' c && leb c b'z')
    || (leb b'A' c && leb c b'Z')
    || (leb b'0' c && leb c b'9')
    || nat_eq c b'*'

unfoldable pub is_plain : String → Bool
is_plain String.[] = true
is_plain (String.◌∷◌ c s) = is_plain_char (code c) && is_plain s

abbrev pub in_path : String → String
in_path item = if is_plain item then item else "[" ⧺ (item ⧺ "]")

-- `__get_property_path_str`
unfoldable pub get_property_path_str : List String → String
unfolding is_plain
get_property_path_str path = join "." (map in_path path)
