-- ===== src/Discovery/Files/Passes.antt =====
-- cpool/grpc/auto_register.go: what one pass over the remaining proto files leaves.
use go_rpc_gateway.Prelude.{
  suc, ◌+◌, ◌≡◌, ◌⊎◌, inl, inr, refl, sym, ap, ◌∙◌, Bool, true, ◌||◌, none, some, [], ◌∷◌, length,
  String, eq_iff, Option-cases, arith, subst,
}
use go_rpc_gateway.Prelude.Dict.{Dict}
use go_rpc_gateway.Discovery.Files.{In, Protos, Progress, pass}

module _ (p : Protos) where
  open p use {File, Registry, is_registered, register, name, imports, is_sound}

  -- A file that is not registered stays.
  pub pass-none :
      (path : String) (g : File) (fs : Dict File) (r : Registry)
      → register g r ≡ none
      → pass p ((path, g) ∷ fs) r
        ≡ (let later = pass p fs r in record later { remaining = (path, g) ∷ later.remaining })
  unfolding pass
  pass-none path g fs r failed = rw (failed, pass)

  pub pass-some :
      (path : String) (g : File) (fs : Dict File) (r r' : Registry)
      → register g r ≡ some r'
      → pass p ((path, g) ∷ fs) r
        ≡ (let later = pass p fs r' in record later { registered = suc later.registered })
  unfolding pass
  pass-some path g fs r r' done = rw (done, pass)

  -- The files that a pass leaves are among its files.
  pub pass-In :
      (fs : Dict File) (r : Registry) (n : String) (f : File)
      → In n f (pass p fs r).remaining
      → In n f fs
  unfolding pass
  pass-In [] r n f m = m
  pass-In ((path, g) ∷ fs) r n f m = elim (Option-cases (register g r)) [
    | inl failed ↦
        elim (subst (λ (now : Progress p). In n f now.remaining) (pass-none path g fs r failed) m) [
          | inl here ↦ inl here
          | inr later ↦ inr (pass-In fs r n f later)
        ]
    | inr (r', done) ↦ inr (
        pass-In fs r' n f
          (subst (λ (now : Progress p). In n f now.remaining) (pass-some path g fs r r' done) m))
  ]

  pub pass_keeps :
      (fs : Dict File) (r : Registry) (n : String)
      → is_registered r n ≡ true
      → is_registered (pass p fs r).registry n ≡ true
  unfolding pass
  pass_keeps [] r n h = h
  pass_keeps ((path, g) ∷ fs) r n h = elim (Option-cases (register g r)) [
    | inl failed ↦ ground (arith, failed, pass_keeps fs r n h)
    | inr (r', done) ↦ ground (
      arith,
      done,
      pass_keeps fs r' n (ground (arith, h, p.is_registered-register g r r' n done)),
    )
  ]

  -- A file is registered or left.
  abbrev pub Kept : Progress p → String → File → Type 0
  Kept now n f = (is_registered now.registry n ≡ true) ⊎ In n f now.remaining

  -- Every file of a pass is left or registered.
  pub pass_covers :
      (fs : Dict File) (r : Registry)
      → ((n : String) (f : File) → In n f fs → name f ≡ n)
      → (n : String) (f : File) → In n f fs
      → Kept (pass p fs r) n f
  unfolding pass
  pass_covers [] r named n f m = inr m
  pass_covers ((path, g) ∷ fs) r named n f m = elim (Option-cases (register g r)) [
    | inl failed ↦
        subst (λ (now : Progress p). Kept now n f) (sym (pass-none path g fs r failed))
          (elim m [
            | inl here ↦ inr (inl here)
            | inr later ↦ elim (pass_covers fs r (λ k e i. named k e (inr i)) n f later) [
              | inl kept ↦ inl kept
              | inr left ↦ inr (inr left)
            ]
          ])
    | inr (r', done) ↦
        subst (λ (now : Progress p). Kept now n f) (sym (pass-some path g fs r r' done))
          (elim m [
            | inl here ↦ inl (
                pass_keeps fs r' n (
                  p.is_registered-register g r r' n done
                  ∙ ap (λ (b : Bool). b || is_registered r n)
                      ((eq_iff (name g) n).1 (named path g (inl (refl, refl)) ∙ here.0))))
            | inr later ↦ pass_covers fs r' (λ k e i. named k e (inr i)) n f later
          ])
  ]

  pub pass_count :
      (fs : Dict File) (r : Registry)
      → (pass p fs r).registered + length (pass p fs r).remaining ≡ length fs
  unfolding pass
  pass_count [] r = refl
  pass_count ((path, g) ∷ fs) r = elim (Option-cases (register g r)) [
    | inl failed ↦ ground (arith, failed, pass_count fs r)
    | inr (r', done) ↦ ground (arith, done, pass_count fs r')
  ]

  -- A pass that registers nothing leaves the registry.
  pub pass_stuck :
      (fs : Dict File) (r : Registry) → (pass p fs r).registered ≡ 0 → (pass p fs r).registry ≡ r
  unfolding pass
  pass_stuck [] r h = refl
  pass_stuck ((path, g) ∷ fs) r h = elim (Option-cases (register g r)) [
    | inl failed ↦
        let same = sym (pass-none path g fs r failed) in
        ap (λ (now : Progress p). now.registry) (pass-none path g fs r failed)
        ∙ pass_stuck fs r (ap (λ (now : Progress p). now.registered) same ∙ h)
    | inr (r', done) ↦ ground (arith, h, pass-some path g fs r r' done)
  ]

  -- A file that a pass without progress met could not be registered.
  pub pass_stuck-none :
      (fs : Dict File) (r : Registry)
      → (pass p fs r).registered ≡ 0
      → (n : String) (f : File) → In n f fs
      → register f r ≡ none
  unfolding pass
  pass_stuck-none [] r h n f m = elim m [ ]
  pass_stuck-none ((path, g) ∷ fs) r h n f m = elim (Option-cases (register g r)) [
    | inl failed ↦
        let same = sym (pass-none path g fs r failed) in
        elim m [
          | inl here ↦ subst (λ (e : File). register e r ≡ none) here.1 failed
          | inr later ↦
              pass_stuck-none fs r (ap (λ (now : Progress p). now.registered) same ∙ h) n f later
        ]
    | inr (r', done) ↦ ground (arith, h, pass-some path g fs r r' done)
  ]
