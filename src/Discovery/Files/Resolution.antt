-- ===== src/Discovery/Files/Resolution.antt =====
-- cpool/grpc/auto_register.go: which proto files are registered in the end, and that it does not
-- depend on the order of the maps.
use go_rpc_gateway.Prelude.{
  ◌≡◌, ◌≢◌, ◌↔◌, false, inl, inr, refl, sym, subst, ◌∙◌, true, some, List, [], ◌∷◌, all, length,
  String, str_eq, eq_iff, Bool-cases, Option-cases, arith,
}
use go_rpc_gateway.Prelude.Dict.{Dict}
use go_rpc_gateway.Discovery.Files.{In, Protos, Progress, pass}
use go_rpc_gateway.Discovery.Files.Passes.{pass-none, pass-some}

module _ (p : Protos) where
  open p use {File, Registry, is_registered, register, name, imports, is_sound, clashes, shares}

  -- The order in which Go ranges over a map: its entries, each once.
  pub record Ranges (range : Dict File → Dict File) : Type 0 where
    pub In-range : (files : Dict File) (n : String) (f : File) → In n f (range files) ↔ In n f files
    pub length-range : (files : Dict File) → length (range files) ≡ length files

  -- The files that are registered, or that are sound and import such files only.
  mutual
    pub data Resolves (files : Dict File) (r : Registry) : String → Type 0 where
      there : {n : String} → is_registered r n ≡ true → Resolves files r n
      loads :
          {n : String} {f : File}
          → In n f files
          → is_sound f ≡ true
          → ResolvesEach files r (imports f)
          → Resolves files r n

    pub data ResolvesEach (files : Dict File) (r : Registry) : List String → Type 0 where
      no_more : ResolvesEach files r []
      one_more :
          {n : String} {ns : List String}
          → Resolves files r n
          → ResolvesEach files r ns
          → ResolvesEach files r (n ∷ ns)

  abbrev pub Names : Dict File → Type 0
  Names files = (n : String) (f : File) → In n f files → name f ≡ n

  -- No two files of different names declare one symbol.
  abbrev pub Disjoint : Dict File → Type 0
  Disjoint files =
      (n m : String) (f g : File) → In n f files → In m g files → n ≢ m → shares f g ≡ false

  -- A file that is not registered declares no symbol of the registry.
  abbrev pub Clean : Dict File → Registry → Type 0
  Clean files r =
      (n : String) (f : File) → In n f files → is_registered r n ≡ false → clashes r f ≡ false

  -- Every file of the registry resolves.
  abbrev pub Justified : Dict File → Registry → Registry → Type 0
  Justified files r₀ r = (n : String) → is_registered r n ≡ true → Resolves files r₀ n

  all-Resolves :
      (files : Dict File) (r₀ r : Registry)
      → Justified files r₀ r
      → (ns : List String) → all (is_registered r) ns ≡ true
      → ResolvesEach files r₀ ns
  all-Resolves files r₀ r just [] h = no_more
  all-Resolves files r₀ r just (n ∷ ns) h =
      one_more (just n (ground (arith, h))) (all-Resolves files r₀ r just ns (ground (arith, h)))

  register-Justified :
      (files : Dict File) (r₀ r r' : Registry) (n : String) (f : File)
      → In n f files
      → name f ≡ n
      → register f r ≡ some r'
      → Justified files r₀ r
      → Justified files r₀ r'
  register-Justified files r₀ r r' n f m named done just k h =
      elim (Bool-cases (str_eq (name f) k)) [
        | inl same ↦
            let able = (p.register-some_iff f r).0 (λ e. ground (arith, e, done)) in
            let path = sym named ∙ (eq_iff (name f) k).0 same in
            loads (subst (λ (x : String). In x f files) path m) (ground (arith, able))
              (all-Resolves files r₀ r just (imports f) (ground (arith, able)))
        | inr other ↦ just k (ground (arith, h, other, p.is_registered-register f r r' k done))
      ]

  pub pass-Justified :
      (files : Dict File) (r₀ : Registry) (fs : Dict File) (r : Registry)
      → ((n : String) (f : File) → In n f fs → In n f files)
      → Names files
      → Justified files r₀ r
      → Justified files r₀ (pass p fs r).registry
  unfolding pass
  pass-Justified files r₀ [] r sub named just = just
  pass-Justified files r₀ ((path, g) ∷ fs) r sub named just = elim (Option-cases (register g r)) [
    | inl failed ↦
        subst (λ (now : Progress p). Justified files r₀ now.registry)
          (sym (pass-none p path g fs r failed))
          (pass-Justified files r₀ fs r (λ k e i. sub k e (inr i)) named just)
    | inr (r', done) ↦
        let mine = sub path g (inl (refl, refl)) in
        subst (λ (now : Progress p). Justified files r₀ now.registry)
          (sym (pass-some p path g fs r r' done))
          (pass-Justified files r₀ fs r' (λ k e i. sub k e (inr i)) named
            (register-Justified files r₀ r r' path g mine (named path g mine) done just))
  ]

  register-Clean :
      (files : Dict File) (r r' : Registry) (m : String) (g : File)
      → In m g files
      → name g ≡ m
      → register g r ≡ some r'
      → Disjoint files
      → Clean files r
      → Clean files r'
  register-Clean files r r' m g at named done apart clean n f i fresh =
      let known = p.is_registered-register g r r' n done in
      let other : m ≢ n =
        λ same. absurd (ground (arith, known, fresh, (eq_iff (name g) n).1 (named ∙ same))) in
      ground (
        arith,
        p.clashes-register g f r r' done,
        apart m n g f at i other,
        clean n f i (ground (arith, known, fresh)),
      )

  pub pass-Clean :
      (files fs : Dict File) (r : Registry)
      → ((n : String) (f : File) → In n f fs → In n f files)
      → Names files
      → Disjoint files
      → Clean files r
      → Clean files (pass p fs r).registry
  unfolding pass
  pass-Clean files [] r sub named apart clean = clean
  pass-Clean files ((path, g) ∷ fs) r sub named apart clean = elim (Option-cases (register g r)) [
    | inl failed ↦
        subst (λ (now : Progress p). Clean files now.registry)
          (sym (pass-none p path g fs r failed))
          (pass-Clean files fs r (λ k e i. sub k e (inr i)) named apart clean)
    | inr (r', done) ↦
        let mine = sub path g (inl (refl, refl)) in
        subst (λ (now : Progress p). Clean files now.registry)
          (sym (pass-some p path g fs r r' done))
          (pass-Clean files fs r' (λ k e i. sub k e (inr i)) named apart
            (register-Clean files r r' path g mine (named path g mine) done apart clean))
  ]
