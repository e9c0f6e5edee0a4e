-- ===== src/PathNormalizer/Bounds.antt =====
-- The normalizer of middleware/path_normalizer.go after any history of paths.
use go_rpc_gateway.Prelude.{
  ℕ, suc, ◌/◌, ◌+◌, ◌≤◌, ◌<◌, ◌≡◌, refl, sym, subst, ◌⊎◌, inl, inr, List, [], ◌∷◌, ◌++◌, length,
  length-append, String, arith, ◌∙◌,
}
use go_rpc_gateway.Prelude.Dict.{Dict, insert}
use go_rpc_gateway.PathNormalizer.{
  PathNormalizer, new_normalizer, split, strip_query, with_value, record_value, normalize_part,
  smart_parts, smart_normalize, evict, add_to_cache, normalize_new, normalize, build_prefix_key,
}

length-insert-le :
    (key value : String) (m : Dict String) → length (insert key value m) ≤ length m + 1
unfolding insert
length-insert-le key value [] = omega arith
length-insert-le key value (entry ∷ rest) = ground (arith, length-insert-le key value rest)

length-evict :
    (limit : ℕ) (m : Dict String) → (length (evict limit m) ≡ 0) ⊎ (length (evict limit m) < limit)
unfolding evict
length-evict limit [] = inl refl
length-evict limit (entry ∷ rest) = ground (arith, length-evict limit rest)

length-with_value :
    (max : ℕ) (value : String) (values : List String)
    → length values ≤ max
    → length (with_value max value values) ≤ max
unfolding with_value
length-with_value max value values h = ground (arith, length-append values (value ∷ []))

-- What the cache and the recorded values may take up: at most 1000 entries, and at most 5 values at
-- each position.
pub record IsBounded (n : PathNormalizer) : Type 0 where
  pub max_cache : n.max_cache ≡ 1000
  pub max_values : n.max_values ≡ 5
  pub cache : length n.cache ≤ n.max_cache
  pub values : (key : String) (i : ℕ) → length (n.path_structure key i) ≤ n.max_values

add_to_cache-IsBounded :
    (original normalized : String) (n : PathNormalizer)
    → IsBounded n
    → IsBounded (add_to_cache original normalized n)
unfolding add_to_cache
add_to_cache-IsBounded original normalized n h = record {
  max_cache = h.max_cache;
  max_values = h.max_values;
  cache = ground (
    arith,
    h.max_cache,
    h.cache,
    length-insert-le original normalized n.cache,
    length-insert-le original normalized (evict (n.max_cache / 2) n.cache),
    length-evict (n.max_cache / 2) n.cache,
  );
  values = h.values;
}

-- What learning leaves as it was, and the bound that it keeps.
pub record Learns (n n' : PathNormalizer) : Type 0 where
  pub cache : n'.cache ≡ n.cache
  pub static_paths : n'.static_paths ≡ n.static_paths
  pub max_cache : n'.max_cache ≡ n.max_cache
  pub max_values : n'.max_values ≡ n.max_values
  pub values :
      ((key : String) (i : ℕ) → length (n.path_structure key i) ≤ n.max_values)
      → (key : String) (i : ℕ) → length (n'.path_structure key i) ≤ n.max_values

nothing_learnt : (n : PathNormalizer) → Learns n n
nothing_learnt n = record {
  cache = refl;
  static_paths = refl;
  max_cache = refl;
  max_values = refl;
  values = λ h. h;
}

record_value-Learns :
    (key : String) (position : ℕ) (value : String) (n : PathNormalizer)
    → Learns n (record_value key position value n)
unfolding record_value
record_value-Learns key position value n = record {
  cache = refl;
  static_paths = refl;
  max_cache = refl;
  max_values = refl;
  values = λ h k i.
      let old =
        length-with_value n.max_values value (n.path_structure key position) (h key position) in
      ground (arith, old, h k i);
}

pub normalize_part_state :
    (key : String) (position : ℕ) (part : String) (n : PathNormalizer)
    → ((normalize_part key position part n).0 ≡ n)
      ⊎ ((normalize_part key position part n).0 ≡ record_value key position part n)
unfolding normalize_part
normalize_part_state key position part n = ground arith

normalize_part-Learns :
    (key : String) (position : ℕ) (part : String) (n : PathNormalizer)
    → Learns n (normalize_part key position part n).0
normalize_part-Learns key position part n = elim (normalize_part_state key position part n) [
  | inl same ↦ subst (λ n'. Learns n n') (sym same) (nothing_learnt n)
  | inr recorded ↦
      subst (λ n'. Learns n n') (sym recorded) (record_value-Learns key position part n)
]

Learns-trans : {a b c : PathNormalizer} → Learns a b → Learns b c → Learns a c
Learns-trans {a} {b} {c} p q = record {
  cache = q.cache ∙ p.cache;
  static_paths = q.static_paths ∙ p.static_paths;
  max_cache = q.max_cache ∙ p.max_cache;
  max_values = q.max_values ∙ p.max_values;
  values = λ h key i.
      let before = p.values h in
      subst (λ m. length (c.path_structure key i) ≤ m) p.max_values
        (q.values
          (λ k j. subst (λ m. length (b.path_structure k j) ≤ m) (sym p.max_values) (before k j))
          key i);
}

smart_parts-Learns :
    (position : ℕ) (normalized parts : List String) (n : PathNormalizer)
    → Learns n (smart_parts position normalized parts n).0
unfolding smart_parts
smart_parts-Learns position normalized [] n = nothing_learnt n
smart_parts-Learns position normalized (part ∷ parts) n =
    let r = normalize_part (build_prefix_key normalized) position part n in
    Learns-trans (normalize_part-Learns (build_prefix_key normalized) position part n)
      (smart_parts-Learns (suc position) (normalized ++ r.1 ∷ []) parts r.0)

Learns-IsBounded : {n n' : PathNormalizer} → Learns n n' → IsBounded n → IsBounded n'
Learns-IsBounded {n} {n'} l h = record {
  max_cache = l.max_cache ∙ h.max_cache;
  max_values = l.max_values ∙ h.max_values;
  cache = ground (arith, l.cache, l.max_cache, h.cache);
  values = λ key i. ground (arith, l.max_values, l.values h.values key i);
}

pub normalize_new_state :
    (path : String) (n : PathNormalizer)
    → ((normalize_new path n).0 ≡ add_to_cache path path n)
      ⊎ ((normalize_new path n).0
          ≡ add_to_cache path (smart_normalize path n).1 (smart_normalize path n).0)
unfolding normalize_new
normalize_new_state path n = ground arith

pub normalize_state :
    (path : String) (n : PathNormalizer)
    → ((normalize path n).0 ≡ n) ⊎ ((normalize path n).0 ≡ (normalize_new (strip_query path) n).0)
unfolding normalize
normalize_state path n = ground arith

pub smart_normalize-Learns :
    (path : String) (n : PathNormalizer) → Learns n (smart_normalize path n).0
unfolding smart_normalize
smart_normalize-Learns path n = smart_parts-Learns 0 [] (split path) n

normalize_new-IsBounded :
    (path : String) (n : PathNormalizer) → IsBounded n → IsBounded (normalize_new path n).0
normalize_new-IsBounded path n h = elim (normalize_new_state path n) [
  | inl static ↦ subst IsBounded (sym static) (add_to_cache-IsBounded path path n h)
  | inr learnt ↦
      let bounded = Learns-IsBounded (smart_normalize-Learns path n) h in
      subst IsBounded (sym learnt)
        (add_to_cache-IsBounded path (smart_normalize path n).1 (smart_normalize path n).0 bounded)
]

normalize-IsBounded :
    (path : String) (n : PathNormalizer) → IsBounded n → IsBounded (normalize path n).0
normalize-IsBounded path n h = elim (normalize_state path n) [
  | inl same ↦ subst IsBounded (sym same) h
  | inr new ↦ subst IsBounded (sym new) (normalize_new-IsBounded (strip_query path) n h)
]

unfoldable pub normalize_all : List String → PathNormalizer → PathNormalizer
normalize_all [] n = n
normalize_all (path ∷ paths) n = normalize_all paths (normalize path n).0

normalize_all_from-IsBounded :
    (paths : List String) (n : PathNormalizer) → IsBounded n → IsBounded (normalize_all paths n)
unfolding normalize_all
normalize_all_from-IsBounded [] n h = h
normalize_all_from-IsBounded (path ∷ paths) n h =
    normalize_all_from-IsBounded paths (normalize path n).0 (normalize-IsBounded path n h)

-- However many paths a new normalizer is given, its maxima stay 1000 and 5, its cache never holds
-- more than 1000 entries, and at no position behind any prefix are more than 5 values recorded.
pub normalize_all-IsBounded :
    (static_paths paths : List String)
    → IsBounded (normalize_all paths (new_normalizer static_paths))
unfolding new_normalizer
normalize_all-IsBounded static_paths paths =
    normalize_all_from-IsBounded paths (new_normalizer static_paths) (record {
      max_cache = refl;
      max_values = refl;
      cache = omega arith;
      values = λ key i. omega arith;
    })
