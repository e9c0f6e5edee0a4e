-- ===== src/Startup/Laws.antt =====
-- What global/initializer.go starts, and what it stops afterwards.
use mathlib.Core.List.{reverse, reverse-cons, reverse-reverse, append_assoc, append-nil}
use go_rpc_gateway.Prelude.{
  suc, ◌≡◌, ◌↔◌, inl, inr, refl, sym, ap, ◌∙◌, Bool, true, false, not, ◌&&◌, none, some,
  if◌then◌else◌, List, [], ◌∷◌, ◌++◌, length, get_elem?, String, str_eq, eq_iff, length-append,
  Bool-cases, Option-cases, arith,
}
use go_rpc_gateway.Prelude.Dict.{Dict, lookup, insert, lookup-insert}
use go_rpc_gateway.Startup.{
  Initializer, is_initialized, initialize_each, initialize_all, cleanup_errors, cleanup_one,
  cleanup_down, cleanup_all,
}

is_initialized-insert :
    (name other : String) (flags : Dict Bool)
    → is_initialized (insert name true flags) other
      ≡ (if str_eq name other then true else is_initialized flags other)
unfolding is_initialized
is_initialized-insert name other flags = ground (arith, lookup-insert name other true flags)

module _ {C S E : Type 0} where
  -- The initialisers that `InitializeAll` gets through, from a state.
  abbrev pub started : C → List (Initializer C S E) → S → List (Initializer C S E)
  started cfg [] s = []
  started cfg (init ∷ rest) s = elim (init.initialize cfg s).1 [
    | some err ↦ []
    | none ↦ init ∷ started cfg rest (init.initialize cfg s).0
  ]

  -- Cleanups in the order of a list, with the errors that they give.
  abbrev pub cleanups : List (Initializer C S E) → S → S × List (String × E)
  cleanups [] s = (s, [])
  cleanups (init ∷ rest) s =
      let later = cleanups rest (init.cleanup s).0 in
      (later.0, cleanup_errors init (init.cleanup s).1 ++ later.1)

  abbrev pub has_name : String → List (Initializer C S E) → Bool
  has_name name [] = false
  has_name name (init ∷ rest) = if str_eq init.name name then true else has_name name rest

  -- No name stands twice.
  abbrev pub distinct : List (Initializer C S E) → Bool
  distinct [] = true
  distinct (init ∷ rest) = not (has_name init.name rest) && distinct rest

  -- The initialisers whose flag is set.
  abbrev kept : Dict Bool → List (Initializer C S E) → List (Initializer C S E)
  kept flags [] = []
  kept flags (init ∷ rest) = elim (is_initialized flags init.name) [
    | true ↦ init ∷ kept flags rest
    | false ↦ kept flags rest
  ]

  kept-append :
      (flags : Dict Bool) (xs ys : List (Initializer C S E))
      → kept flags (xs ++ ys) ≡ kept flags xs ++ kept flags ys
  kept-append flags [] ys = refl
  kept-append flags (x ∷ xs) ys = ground (arith, kept-append flags xs ys)

  kept-reverse :
      (flags : Dict Bool) (xs : List (Initializer C S E))
      → kept flags (reverse xs) ≡ reverse (kept flags xs)
  kept-reverse flags [] = refl
  kept-reverse flags (x ∷ xs) =
      ap (kept flags) (reverse-cons x xs)
      ∙ kept-append flags (reverse xs) (x ∷ [])
      ∙ ap (λ u. u ++ kept flags (x ∷ [])) (kept-reverse flags xs)
      ∙ last (is_initialized flags x.name) refl
    where
      last :
          (b : Bool)
          → is_initialized flags x.name ≡ b
          → reverse (kept flags xs) ++ kept flags (x ∷ []) ≡ reverse (kept flags (x ∷ xs))
      last true h = rw (kept, h) (sym (reverse-cons x (kept flags xs)))
      last false h = rw (kept, h) (append-nil (reverse (kept flags xs)))

  length-reverse : (xs : List (Initializer C S E)) → length (reverse xs) ≡ length xs
  length-reverse [] = refl
  length-reverse (x ∷ xs) =
      rw (reverse-cons x xs) (omega (arith, length-append (reverse xs) (x ∷ []), length-reverse xs))

  get_elem?-middle :
      (r post : List (Initializer C S E)) (x : Initializer C S E)
      → get_elem? (reverse r ++ x ∷ post) (length r) ≡ some x
  get_elem?-middle r post x =
      ap (get_elem? (reverse r ++ x ∷ post)) (sym (length-reverse r)) ∙ there (reverse r)
    where
      there : (xs : List (Initializer C S E)) → get_elem? (xs ++ x ∷ post) (length xs) ≡ some x
      there [] = refl
      there (y ∷ ys) = there ys

  reverse-middle :
      (r post : List (Initializer C S E)) (x : Initializer C S E)
      → reverse (x ∷ r) ++ post ≡ reverse r ++ x ∷ post
  reverse-middle r post x =
      ap (λ u. u ++ post) (reverse-cons x r) ∙ append_assoc (reverse r) (x ∷ []) post

  cleanup_down-reverse :
      (r post : List (Initializer C S E)) (flags : Dict Bool) (s : S)
      → cleanup_down (reverse r ++ post) flags (length r) s ≡ cleanups (kept flags r) s
  unfolding cleanup_down cleanup_one
  cleanup_down-reverse [] post flags s = refl
  cleanup_down-reverse (x ∷ r) post flags s =
      ap (λ u. cleanup_down u flags (suc (length r)) s) (reverse-middle r post x)
      ∙ elim (Bool-cases (is_initialized flags x.name)) [
        | inl set ↦ ground (
          arith,
          set,
          get_elem?-middle r post x,
          cleanup_down-reverse r (x ∷ post) flags (x.cleanup s).0,
        )
        | inr unset ↦
            ground
              (arith, unset, get_elem?-middle r post x, cleanup_down-reverse r (x ∷ post) flags s)
      ]

  -- `CleanupAll` runs the cleanups whose flags are set, from the last to the first.
  cleanup_all_lem :
      (inits : List (Initializer C S E)) (flags : Dict Bool) (s : S)
      → cleanup_all (record { initializers = inits; initialized = flags }) s
        ≡ cleanups (reverse (kept flags inits)) s
  unfolding cleanup_all
  cleanup_all_lem inits flags s =
      ap (λ n. cleanup_down inits flags n s) (sym (length-reverse inits))
      ∙ ap (λ u. cleanup_down u flags (length (reverse inits)) s)
          (sym (append-nil (reverse (reverse inits)) ∙ reverse-reverse inits))
      ∙ cleanup_down-reverse (reverse inits) [] flags s
      ∙ ap (λ u. cleanups u s) (kept-reverse flags inits)

  -- No initialiser of the list has its flag set.
  abbrev unset : Dict Bool → List (Initializer C S E) → Bool
  unset flags [] = true
  unset flags (init ∷ rest) = not (is_initialized flags init.name) && unset flags rest

  -- A flag that is set stays set.
  initialize_each_keeps :
      (cfg : C) (inits : List (Initializer C S E)) (flags : Dict Bool) (s : S) (name : String)
      → is_initialized flags name ≡ true
      → is_initialized (initialize_each cfg inits flags s).initialized name ≡ true
  unfolding initialize_each
  initialize_each_keeps cfg [] flags s name h = h
  initialize_each_keeps cfg (init ∷ rest) flags s name h =
      elim (Option-cases (init.initialize cfg s).1) [
        | inl well ↦ ground (
          arith,
          well,
          initialize_each_keeps cfg rest (insert init.name true flags) (init.initialize cfg s).0
              name (ground (arith, h, is_initialized-insert init.name name flags)),
        )
        | inr (err, bad) ↦ ground (arith, bad, h)
      ]

  kept-unset :
      (flags : Dict Bool) (inits : List (Initializer C S E))
      → unset flags inits ≡ true
      → kept flags inits ≡ []
  kept-unset flags [] h = refl
  kept-unset flags (init ∷ rest) h = ground (arith, h, kept-unset flags rest (ground (arith, h)))

  unset-insert :
      (name : String) (flags : Dict Bool) (inits : List (Initializer C S E))
      → unset flags inits ≡ true
      → has_name name inits ≡ false
      → unset (insert name true flags) inits ≡ true
  unset-insert name flags [] h other = refl
  unset-insert name flags (init ∷ rest) h other = ground (
    arith,
    h,
    other,
    eq_iff init.name name,
    eq_iff name init.name,
    is_initialized-insert name init.name flags,
    unset-insert name flags rest (ground (arith, h)) (ground (arith, other)),
  )

  kept-initialize_each :
      (cfg : C) (inits : List (Initializer C S E)) (flags : Dict Bool) (s : S)
      → distinct inits ≡ true
      → unset flags inits ≡ true
      → kept (initialize_each cfg inits flags s).initialized inits ≡ started cfg inits s
  unfolding initialize_each
  kept-initialize_each cfg [] flags s names fresh = refl
  kept-initialize_each cfg (init ∷ rest) flags s names fresh =
      elim (Option-cases (init.initialize cfg s).1) [
        | inl well ↦
            let flags' = insert init.name true flags in
            let s' = (init.initialize cfg s).0 in
            ground (
              arith,
              well,
              initialize_each_keeps cfg rest flags' s' init.name (
                  ground (
                    arith,
                    is_initialized-insert init.name init.name flags,
                    eq_iff init.name init.name,
                  )),
              kept-initialize_each cfg rest flags' s' (ground (arith, names)) (
                  unset-insert init.name flags rest (ground (arith, fresh))
                    (ground (arith, names))),
            )
        | inr (err, bad) ↦ ground (arith, bad, kept-unset flags (init ∷ rest) fresh)
      ]

  unset-empty : (inits : List (Initializer C S E)) → unset [] inits ≡ true
  unfolding is_initialized lookup
  unset-empty [] = refl
  unset-empty (init ∷ rest) = unset-empty rest

  failure_iff :
      (cfg : C) (inits : List (Initializer C S E)) (flags : Dict Bool) (s : S)
      → ((initialize_each cfg inits flags s).failure ≡ none)
        ↔ (length (started cfg inits s) ≡ length inits)
  unfolding initialize_each
  failure_iff cfg [] flags s = ground arith
  failure_iff cfg (init ∷ rest) flags s = elim (Option-cases (init.initialize cfg s).1) [
    | inl well ↦
        ground (
          arith,
          well,
          failure_iff cfg rest (insert init.name true flags) (init.initialize cfg s).0,
        )
    | inr (err, bad) ↦ ground (arith, bad)
  ]

  -- From a chain on which nothing was started and no name stands twice: `CleanupAll` after
  -- `InitializeAll`, in whatever state it is called, cleans up the initialisers that were started,
  -- each once and in the opposite order, an error of one not keeping the others from it, and none
  -- that failed or was not reached; and `InitializeAll` returns no error exactly when it started
  -- them all.
  pub cleanup_all-initialize_all :
      (cfg : C) (inits : List (Initializer C S E)) (s t : S)
      → distinct inits ≡ true
      → (cleanup_all (initialize_all cfg (record { initializers = inits; initialized = [] }) s).0 t
          ≡ cleanups (reverse (started cfg inits s)) t)
        × (((initialize_all cfg (record { initializers = inits; initialized = [] }) s).2 ≡ none)
            ↔ (length (started cfg inits s) ≡ length inits))
  unfolding initialize_all
  cleanup_all-initialize_all cfg inits s t names = (
    cleanup_all_lem inits (initialize_each cfg inits [] s).initialized t
        ∙ ap (λ u. cleanups (reverse u) t)
            (kept-initialize_each cfg inits [] s names (unset-empty inits)),
    failure_iff cfg inits [] s,
  )
