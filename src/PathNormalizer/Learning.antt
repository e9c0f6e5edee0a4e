-- ===== src/PathNormalizer/Learning.antt =====
-- What the normalizer of middleware/path_normalizer.go answers: static paths, and learnt ones.
use go_rpc_gateway.Prelude.{
  ℕ, suc, ◌/◌, ◌≡◌, ◌≢◌, refl, sym, subst, ap, ◌⊎◌, inl, inr, true, false, some, List, [], ◌∷◌,
  ◌++◌, length, any, All, String, str_eq, eq_iff, ltb, leb, arith, ◌∙◌, Option-cases, if_either,
}
use mathlib.Core.List.{append-nil, append_assoc}
use go_rpc_gateway.Prelude.Dict.{Dict, lookup, insert}
use go_rpc_gateway.PathNormalizer.{
  PathNormalizer, new_normalizer, split, join, strip_query, normalize_part, smart_parts,
  smart_normalize, evict, add_to_cache, is_static, normalize_new, normalize, build_prefix_key,
}
use go_rpc_gateway.PathNormalizer.Bounds.{
  normalize_all, Learns, smart_normalize-Learns, normalize_state,
}

-- A cached static path is its own normal form.
abbrev Sound : List String → Dict String → Type 0
Sound statics m = All (λ e. any (str_eq e.0) statics ≡ true → e.1 ≡ e.0) m

insert-Sound :
    (statics : List String) (key value : String) (m : Dict String)
    → (any (str_eq key) statics ≡ true → value ≡ key)
    → Sound statics m
    → Sound statics (insert key value m)
unfolding insert
insert-Sound statics key value [] f h = (f, h)
insert-Sound statics key value (entry ∷ rest) f (e, h) =
    let later = insert-Sound statics key value rest f h in
    if_either (Sound statics) (str_eq entry.0 key) (f, h) (e, later)

evict-Sound :
    (statics : List String) (limit : ℕ) (m : Dict String)
    → Sound statics m
    → Sound statics (evict limit m)
unfolding evict
evict-Sound statics limit [] h = h
evict-Sound statics limit (entry ∷ rest) (e, h) =
    if_either (Sound statics) (ltb (length rest) limit) h (evict-Sound statics limit rest h)

lookup-Sound :
    (statics : List String) (key value : String) (m : Dict String)
    → Sound statics m
    → any (str_eq key) statics ≡ true
    → lookup key m ≡ some value
    → value ≡ key
unfolding lookup
lookup-Sound statics key value [] h s found = ground arith
lookup-Sound statics key value (entry ∷ rest) (e, h) s found =
    let later = lookup-Sound statics key value rest h s in
    ground (arith, eq_iff entry.0 key, e, s, later)

-- The state of a normalizer made for the static paths, whatever it has seen.
record KeepsStatic (statics : List String) (n : PathNormalizer) : Type 0 where
  static_paths : n.static_paths ≡ statics
  sound : Sound statics n.cache

add_to_cache-KeepsStatic :
    (statics : List String) (original value : String) (n : PathNormalizer)
    → (any (str_eq original) statics ≡ true → value ≡ original)
    → KeepsStatic statics n
    → KeepsStatic statics (add_to_cache original value n)
unfolding add_to_cache
add_to_cache-KeepsStatic statics original value n f h = record {
  static_paths = h.static_paths;
  sound = insert-Sound statics original value _ f (
      if_either (Sound statics) (leb n.max_cache (length n.cache))
        (evict-Sound statics (n.max_cache / 2) n.cache h.sound) h.sound);
}

Learns-KeepsStatic :
    {statics : List String} {n n' : PathNormalizer}
    → Learns n n'
    → KeepsStatic statics n
    → KeepsStatic statics n'
Learns-KeepsStatic {statics} l h = record {
  static_paths = l.static_paths ∙ h.static_paths;
  sound = subst (Sound statics) (sym l.cache) h.sound;
}

-- A static path is stored as it is, so what is learnt is stored for another.
learnt_KeepsStatic :
    (statics : List String) (path : String) (n : PathNormalizer)
    → KeepsStatic statics n
    → is_static path n ≡ false
    → KeepsStatic statics (add_to_cache path (smart_normalize path n).1 (smart_normalize path n).0)
unfolding is_static
learnt_KeepsStatic statics path n h other =
    add_to_cache-KeepsStatic statics path (smart_normalize path n).1 (smart_normalize path n).0
      (λ listed. absurd (ground (arith, listed, other, h.static_paths)))
      (Learns-KeepsStatic (smart_normalize-Learns path n) h)

normalize_new_static :
    (path : String) (n : PathNormalizer)
    → ((normalize_new path n).0 ≡ add_to_cache path path n)
      ⊎ ((is_static path n ≡ false)
          × ((normalize_new path n).0
              ≡ add_to_cache path (smart_normalize path n).1 (smart_normalize path n).0))
unfolding normalize_new
normalize_new_static path n = ground arith

normalize_new-KeepsStatic :
    (statics : List String) (path : String) (n : PathNormalizer)
    → KeepsStatic statics n
    → KeepsStatic statics (normalize_new path n).0
normalize_new-KeepsStatic statics path n h = elim (normalize_new_static path n) [
  | inl stored ↦
      subst (KeepsStatic statics) (sym stored)
        (add_to_cache-KeepsStatic statics path path n (λ listed. refl) h)
  | inr (other, stored) ↦
      subst (KeepsStatic statics) (sym stored) (learnt_KeepsStatic statics path n h other)
]

normalize-KeepsStatic :
    (statics : List String) (path : String) (n : PathNormalizer)
    → KeepsStatic statics n
    → KeepsStatic statics (normalize path n).0
normalize-KeepsStatic statics path n h = elim (normalize_state path n) [
  | inl same ↦ subst (KeepsStatic statics) (sym same) h
  | inr new ↦
      subst (KeepsStatic statics) (sym new)
        (normalize_new-KeepsStatic statics (strip_query path) n h)
]

normalize_all-KeepsStatic :
    (statics paths : List String) (n : PathNormalizer)
    → KeepsStatic statics n
    → KeepsStatic statics (normalize_all paths n)
unfolding normalize_all
normalize_all-KeepsStatic statics [] n h = h
normalize_all-KeepsStatic statics (path ∷ paths) n h =
    normalize_all-KeepsStatic statics paths (normalize path n).0
      (normalize-KeepsStatic statics path n h)

-- The answer for a path, in two steps: the cache, and then the path without its query.
normalize_answer :
    (statics : List String) (path : String) (n : PathNormalizer)
    → KeepsStatic statics n
    → any (str_eq path) statics ≡ true
    → strip_query path ≡ path
    → (normalize path n).1 ≡ path
unfolding normalize normalize_new is_static
normalize_answer statics path n h listed plain = elim (Option-cases (lookup path n.cache)) [
  | inl missing ↦ ground (arith, missing, plain, listed, h.static_paths)
  | inr (value, found) ↦
      ground (arith, found, lookup-Sound statics path value n.cache h.sound listed found)
]

-- A static path without a query is its own normal form, whatever paths the normalizer has seen
-- since it was made.
pub normalize_all-static :
    (statics paths : List String) (path : String)
    → any (str_eq path) statics ≡ true
    → strip_query path ≡ path
    → (normalize path (normalize_all paths (new_normalizer statics))).1 ≡ path
unfolding new_normalizer
normalize_all-static statics paths path listed plain =
    normalize_answer statics path (normalize_all paths (new_normalizer statics))
      (normalize_all-KeepsStatic statics paths (new_normalizer statics)
        (record { static_paths = refl; sound = _ }))
      listed plain

-- A path's segments, and those of a normal form: each is kept, or stands as `:param` for a segment
-- that is not empty.
pub data Generalises : List String → List String → Type 0 where
  done : Generalises [] []
  kept : {p : String} {ps qs : List String} → Generalises ps qs → Generalises (p ∷ ps) (p ∷ qs)
  varied :
      {p : String} {ps qs : List String}
      → p ≢ ""
      → Generalises ps qs
      → Generalises (p ∷ ps) (":param" ∷ qs)

normalize_part_answer :
    (key : String) (position : ℕ) (part : String) (n : PathNormalizer)
    → ((normalize_part key position part n).1 ≡ part)
      ⊎ ((part ≢ "") × ((normalize_part key position part n).1 ≡ ":param"))
unfolding normalize_part
normalize_part_answer key position part n = ground (arith, eq_iff part "")

generalised :
    {p q : String} {ps qs : List String}
    → (q ≡ p) ⊎ ((p ≢ "") × (q ≡ ":param"))
    → Generalises ps qs
    → Generalises (p ∷ ps) (q ∷ qs)
generalised {p} {q} {ps} {qs} (inl same) g =
    subst (λ s. Generalises (p ∷ ps) (s ∷ qs)) (sym same) (kept g)
generalised {p} {q} {ps} {qs} (inr (present, param)) g =
    subst (λ s. Generalises (p ∷ ps) (s ∷ qs)) (sym param) (varied present g)

smart_parts-Generalises :
    (position : ℕ) (normalized parts : List String) (n : PathNormalizer)
    → (out : List String) × ((smart_parts position normalized parts n).1 ≡ normalized ++ out)
      × Generalises parts out
unfolding smart_parts
smart_parts-Generalises position normalized [] n = ([], sym (append-nil normalized), done)
smart_parts-Generalises position normalized (part ∷ parts) n =
    let key = build_prefix_key normalized in
    let r = normalize_part key position part n in
    let (out, e, g) = smart_parts-Generalises (suc position) (normalized ++ r.1 ∷ []) parts r.0 in
    (
      r.1 ∷ out,
      e ∙ append_assoc normalized (r.1 ∷ []) out,
      generalised (normalize_part_answer key position part n) g,
    )

-- A path that is normalized by learning keeps its number of segments: each is as it was, or is
-- `:param` in the place of a segment that is not empty.
pub smart_normalize-Generalises :
    (path : String) (n : PathNormalizer)
    → (out : List String) × ((smart_normalize path n).1 ≡ join out) × Generalises (split path) out
unfolding smart_normalize
smart_normalize-Generalises path n =
    let (out, e, g) = smart_parts-Generalises 0 [] (split path) n in (out, ap join e, g)
