-- ===== src/PathNormalizer.antt =====
-- middleware/path_normalizer.go: the normalizer learns which segments of a path vary. A lookup in
-- the nested map, with nil for what is missing, is a function; the cache is an association list, in
-- the order of a `range` over it. `Normalize` runs with no other goroutine.
pub mod Bounds
pub mod Learning
pub mod Variation
use Prim.Native.Char.{Char, code}
use Prim.Native.String
use Prim.Native.String.{[], ◌∷◌, slice}
use go_rpc_gateway.Prelude.{
  ℕ, suc, ◌/◌, Bool, true, false, ◌&&◌, Option, none, some, List, [], ◌∷◌, ◌++◌, length, any,
  String, str_eq, ltb, leb, ◌==◌, if◌then◌else◌,
}
use go_rpc_gateway.Prelude.Dict.{Dict, lookup, insert}
use text.Mathlib.Text.{find?}

pub record PathNormalizer : Type 0 where
  pub cache : Dict String
  pub path_structure : String → ℕ → List String
  pub static_paths : List String
  pub max_cache : ℕ
  pub max_values : ℕ

unfoldable pub new_normalizer : List String → PathNormalizer
new_normalizer static_paths = record {
  cache = [];
  path_structure = λ key position. [];
  static_paths = static_paths;
  max_cache = 1000;
  max_values = 5;
}

cons_char : Char → List String → List String
cons_char ch [] = (ch ∷ "") ∷ []
cons_char ch (part ∷ parts) = if code ch == 47 then "" ∷ part ∷ parts else (ch ∷ part) ∷ parts

-- `strings.Split(path, "/")`: 47 is the slash.
unfoldable pub split : String → List String
unfolding cons_char
split [] = "" ∷ []
split (ch ∷ s) = cons_char ch (split s)

-- `strings.Join(parts, "/")`
unfoldable pub join : List String → String
join [] = ""
join (s ∷ []) = s
join (s ∷ t ∷ rest) = String.◌++◌ s (String.◌++◌ "/" (join (t ∷ rest)))

unfoldable pub strip_query : String → String
strip_query path = elim (find? path "?") [ some index ↦ slice path 0 index | none ↦ path ]

unfoldable pub build_prefix_key : List String → String
unfolding join
build_prefix_key [] = "/"
build_prefix_key (part ∷ parts) = join (part ∷ parts)

unfoldable pub is_dynamic_position : String → ℕ → PathNormalizer → Bool
is_dynamic_position key position n = leb n.max_values (length (n.path_structure key position))

unfoldable pub should_be_dynamic : String → ℕ → PathNormalizer → Bool
should_be_dynamic key position n = leb 2 (length (n.path_structure key position))

-- The values of one position after a value was seen there.
unfoldable pub with_value : ℕ → String → List String → List String
with_value max_values value values =
    if any (str_eq value) values
    then values
    else if ltb (length values) max_values
    then values ++ value ∷ []
    else values

unfoldable pub record_value : String → ℕ → String → PathNormalizer → PathNormalizer
unfolding with_value
record_value key position value n = record n {
  path_structure = λ k i.
      if str_eq k key && i == position
      then with_value n.max_values value (n.path_structure key position)
      else n.path_structure k i;
}

-- The loop's body: one segment, which stands at the position behind the prefix.
unfoldable pub normalize_part : String → ℕ → String → PathNormalizer → PathNormalizer × String
unfolding is_dynamic_position should_be_dynamic record_value
normalize_part key position part n =
    if str_eq part ""
    then (n, "")
    else if is_dynamic_position key position n
    then (n, ":param")
    else (let n' = record_value key position part n in
        (n', if should_be_dynamic key position n' then ":param" else part))

-- The loop of `smartNormalize`; the segments before the position are normalized already.
unfoldable pub smart_parts :
    ℕ → List String → List String → PathNormalizer → PathNormalizer × List String
unfolding normalize_part
smart_parts position normalized [] n = (n, normalized)
smart_parts position normalized (part ∷ parts) n =
    let r = normalize_part (build_prefix_key normalized) position part n in
    smart_parts (suc position) (normalized ++ r.1 ∷ []) parts r.0

unfoldable pub smart_normalize : String → PathNormalizer → PathNormalizer × String
unfolding smart_parts
smart_normalize path n = let r = smart_parts 0 [] (split path) n in (r.0, join r.1)

-- The loop that deletes entries until fewer than `limit` are left.
unfoldable pub evict : ℕ → Dict String → Dict String
evict limit [] = []
evict limit (entry ∷ rest) =
    let shorter = evict limit rest in if ltb (length rest) limit then rest else shorter

unfoldable pub add_to_cache : String → String → PathNormalizer → PathNormalizer
unfolding evict
add_to_cache original normalized n = record n {
  cache =
      insert original normalized
        (if leb n.max_cache (length n.cache) then evict (n.max_cache / 2) n.cache else n.cache);
}

unfoldable pub is_static : String → PathNormalizer → Bool
is_static path n = any (str_eq path) n.static_paths

-- `Normalize` from its second step on, for a path without its query.
unfoldable pub normalize_new : String → PathNormalizer → PathNormalizer × String
unfolding is_static smart_normalize add_to_cache
normalize_new path n =
    if is_static path n
    then (add_to_cache path path n, path)
    else (let r = smart_normalize path n in (add_to_cache path r.1 r.0, r.1))

unfoldable pub normalize : String → PathNormalizer → PathNormalizer × String
unfolding normalize_new strip_query
normalize path n = elim (lookup path n.cache) [
  | some normalized ↦ (n, normalized)
  | none ↦ normalize_new (strip_query path) n
]
