-- ===== src/Discovery/Files/Fresh.antt =====
-- cpool/grpc/auto_register.go: the found proto files that were registered before are dropped.
use go_rpc_gateway.Prelude.{
  ℕ, ◌+◌, ◌≡◌, ◌⊎◌, inl, inr, refl, subst, true, [], ◌∷◌, length, String, Bool-cases, if_either,
  arith,
}
use go_rpc_gateway.Prelude.Dict.{Dict}
use go_rpc_gateway.Discovery.Files.{In, Protos, unregistered}

module _ (p : Protos) where
  open p use {File, Registry, is_registered}

  -- The filter drops what is registered.
  pub In-unregistered :
      (files : Dict File) (r : Registry) (n : String) (f : File)
      → In n f (unregistered p files r).0
      → In n f files
  unfolding unregistered
  In-unregistered [] r n f m = m
  In-unregistered ((path, g) ∷ rest) r n f m =
      if_either (λ (kept : Dict File × ℕ). In n f kept.0 → In n f ((path, g) ∷ rest))
        (is_registered r path) (λ i. inr (In-unregistered rest r n f i))
        (λ i. elim i [ inl here ↦ inl here | inr later ↦ inr (In-unregistered rest r n f later) ]) m

  pub unregistered-In :
      (files : Dict File) (r : Registry) (n : String) (f : File)
      → In n f files
      → (is_registered r n ≡ true) ⊎ In n f (unregistered p files r).0
  unfolding unregistered
  unregistered-In [] r n f m = inr m
  unregistered-In ((path, g) ∷ rest) r n f m = elim (Bool-cases (is_registered r path)) [
    | inl known ↦ rw known (elim m [
      | inl here ↦ inl (subst (λ (x : String). is_registered r x ≡ true) here.0 known)
      | inr later ↦ unregistered-In rest r n f later
    ])
    | inr fresh ↦ rw fresh (elim m [
      | inl here ↦ inr (inl here)
      | inr later ↦ elim (unregistered-In rest r n f later) [
        | inl known ↦ inl known
        | inr kept ↦ inr (inr kept)
      ]
    ])
  ]

  pub unregistered_count :
      (files : Dict File) (r : Registry)
      → (let fresh = unregistered p files r in length fresh.0 + fresh.1 ≡ length files)
  unfolding unregistered
  unregistered_count [] r = refl
  unregistered_count ((path, g) ∷ rest) r = ground (arith, unregistered_count rest r)
