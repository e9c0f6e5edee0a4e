-- ===== src/PathNormalizer/Variation.antt =====
-- How the normalizer of middleware/path_normalizer.go finds out that a segment varies.
use go_rpc_gateway.Prelude.{
  ℕ, suc, ◌≤◌, ◌≡◌, ◌≢◌, refl, sym, subst, ◌⊎◌, inl, inr, true, List, [], ◌∷◌, ◌++◌, length,
  length-append, any, String, str_eq, eq_iff, arith, ◌||◌,
}
use go_rpc_gateway.PathNormalizer.{
  PathNormalizer, with_value, record_value, normalize_part, smart_parts, smart_normalize,
  normalize_new, normalize, strip_query, split, add_to_cache, build_prefix_key, is_dynamic_position,
  should_be_dynamic,
}
use go_rpc_gateway.PathNormalizer.Bounds.{
  normalize_all, normalize_state, normalize_new_state, normalize_part_state,
}

any-append :
    (v : String) (xs ys : List String)
    → any (str_eq v) (xs ++ ys) ≡ (any (str_eq v) xs || any (str_eq v) ys)
any-append v [] ys = refl
any-append v (x ∷ xs) ys = ground (arith, any-append v xs ys)

any_present : (v : String) (xs : List String) → any (str_eq v) xs ≡ true → 1 ≤ length xs
any_present v [] h = ground arith
any_present v (x ∷ xs) h = omega arith

any_two :
    (v w : String) (xs : List String)
    → v ≢ w
    → any (str_eq v) xs ≡ true
    → any (str_eq w) xs ≡ true
    → 2 ≤ length xs
any_two v w [] other h k = ground arith
any_two v w (x ∷ xs) other h k =
    ground (arith, eq_iff v x, eq_iff w x, any_present v xs, any_present w xs, other)

-- A position that has seen a value: it is recorded there, or no more are recorded. At least two
-- values have room.
abbrev Seen : String → ℕ → String → PathNormalizer → Type 0
Seen key position v n =
    ((any (str_eq v) (n.path_structure key position) ≡ true)
      ⊎ (n.max_values ≤ length (n.path_structure key position)))
    × (2 ≤ n.max_values)

with_value_grows :
    (max : ℕ) (v w : String) (values : List String)
    → (any (str_eq v) values ≡ true → any (str_eq v) (with_value max w values) ≡ true)
      × (length values ≤ length (with_value max w values))
unfolding with_value
with_value_grows max v w values =
    ground (arith, any-append v values (w ∷ []), length-append values (w ∷ []))

record_value-Seen :
    (key k : String) (position i : ℕ) (v w : String) (n : PathNormalizer)
    → Seen key position v n
    → Seen key position v (record_value k i w n)
unfolding record_value
record_value-Seen key k position i v w n h =
    ground
      (arith, h, eq_iff key k, with_value_grows n.max_values v w (n.path_structure key position))

normalize_part-Seen :
    (key k : String) (position i : ℕ) (v part : String) (n : PathNormalizer)
    → Seen key position v n
    → Seen key position v (normalize_part k i part n).0
normalize_part-Seen key k position i v part n h = elim (normalize_part_state k i part n) [
  | inl same ↦ subst (Seen key position v) (sym same) h
  | inr recorded ↦
      subst (Seen key position v) (sym recorded) (record_value-Seen key k position i v part n h)
]

smart_parts-Seen :
    (key : String) (position : ℕ) (v : String) (i : ℕ) (normalized parts : List String)
    (n : PathNormalizer)
    → Seen key position v n
    → Seen key position v (smart_parts i normalized parts n).0
unfolding smart_parts
smart_parts-Seen key position v i normalized [] n h = h
smart_parts-Seen key position v i normalized (part ∷ parts) n h =
    let r = normalize_part (build_prefix_key normalized) i part n in
    smart_parts-Seen key position v (suc i) (normalized ++ r.1 ∷ []) parts r.0
      (normalize_part-Seen key (build_prefix_key normalized) position i v part n h)

add_to_cache-Seen :
    (key : String) (position : ℕ) (v original normalized : String) (n : PathNormalizer)
    → Seen key position v n
    → Seen key position v (add_to_cache original normalized n)
unfolding add_to_cache
add_to_cache-Seen key position v original normalized n h = h

normalize_new-Seen :
    (key : String) (position : ℕ) (v path : String) (n : PathNormalizer)
    → Seen key position v n
    → Seen key position v (normalize_new path n).0
unfolding smart_normalize
normalize_new-Seen key position v path n h = elim (normalize_new_state path n) [
  | inl static ↦
      subst (Seen key position v) (sym static) (add_to_cache-Seen key position v path path n h)
  | inr learnt ↦
      let r = smart_normalize path n in
      subst (Seen key position v) (sym learnt) (
        add_to_cache-Seen key position v path r.1 r.0
          (smart_parts-Seen key position v 0 [] (split path) n h))
]

normalize_all-Seen :
    (key : String) (position : ℕ) (v : String) (paths : List String) (n : PathNormalizer)
    → Seen key position v n
    → Seen key position v (normalize_all paths n)
unfolding normalize_all
normalize_all-Seen key position v [] n h = h
normalize_all-Seen key position v (path ∷ paths) n h =
    normalize_all-Seen key position v paths (normalize path n).0 (elim (normalize_state path n) [
      | inl same ↦ subst (Seen key position v) (sym same) h
      | inr new ↦
          subst (Seen key position v) (sym new)
            (normalize_new-Seen key position v (strip_query path) n h)
    ])

with_value_present :
    (max : ℕ) (v : String) (values : List String)
    → (any (str_eq v) (with_value max v values) ≡ true) ⊎ (max ≤ length (with_value max v values))
unfolding with_value
with_value_present max v values = ground (arith, any-append v values (v ∷ []), eq_iff v v)

normalize_part-Seen' :
    (key : String) (position : ℕ) (part : String) (n : PathNormalizer)
    → 2 ≤ n.max_values
    → part ≢ ""
    → Seen key position part (normalize_part key position part n).0
unfolding normalize_part is_dynamic_position record_value
normalize_part-Seen' key position part n room present =
    let recorded = with_value_present n.max_values part (n.path_structure key position) in
    ground (arith, eq_iff part "", eq_iff key key, present, recorded, room)

normalize_part_other :
    (key : String) (position : ℕ) (old part : String) (n : PathNormalizer)
    → Seen key position old n
    → part ≢ ""
    → old ≢ part
    → (normalize_part key position part n).1 ≡ ":param"
unfolding normalize_part is_dynamic_position should_be_dynamic record_value
normalize_part_other key position old part n seen present other =
    let values = n.path_structure key position in
    let after = with_value n.max_values part values in
    ground (
      arith,
      eq_iff part "",
      eq_iff key key,
      present,
      seen,
      with_value_grows n.max_values old part values,
      with_value_present n.max_values part values,
      any_two old part after other,
    )

-- Once two different segments, neither empty, come to one position behind one prefix, the second is
-- answered `:param`, however many paths are normalized between them: the position remembers the
-- first. At least two values have room at a position.
pub normalize_part_twice :
    (key : String) (position : ℕ) (first second : String) (paths : List String) (n : PathNormalizer)
    → 2 ≤ n.max_values
    → first ≢ ""
    → second ≢ ""
    → first ≢ second
    → (normalize_part key position second
        (normalize_all paths (normalize_part key position first n).0)).1
      ≡ ":param"
normalize_part_twice key position first second paths n room present present' other =
    normalize_part_other key position first second _
      (normalize_all-Seen key position first paths (normalize_part key position first n).0
        (normalize_part-Seen' key position first n room present))
      present' other
