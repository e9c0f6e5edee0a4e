-- ===== src/Discovery/Files/Laws.antt =====
-- cpool/grpc/auto_register.go: the proto files that are registered in the end, in whatever order
-- Go ranges over the maps.
use go_rpc_gateway.Prelude.{
  ℕ, zero, suc, ◌+◌, ◌<◌, ◌≡◌, ◌≢◌, ◌↔◌, inl, inr, refl, sym, subst, true, false, none, List, [],
  ◌∷◌, all, length, String, ◌==◌, ==_iff, Bool-cases, arith,
}
use go_rpc_gateway.Prelude.Dict.{Dict}
use go_rpc_gateway.Discovery.Files.{
  In, Protos, Progress, unregistered, pass, passes, register_file_descriptors,
}
use go_rpc_gateway.Discovery.Files.Passes.{
  Kept, pass-In, pass_keeps, pass_covers, pass_count, pass_stuck, pass_stuck-none,
}
use go_rpc_gateway.Discovery.Files.Resolution.{
  Ranges, Resolves, there, loads, ResolvesEach, no_more, one_more, Names, Disjoint, Clean,
  Justified, pass-Justified, pass-Clean,
}
use go_rpc_gateway.Discovery.Files.Fresh.{In-unregistered, unregistered-In, unregistered_count}

not_zero : (n : ℕ) → n ≢ 0 → (n == 0) ≡ false
not_zero n h = ground (arith, h)

module _ (p : Protos) where
  open p use {File, Registry, is_registered, register, name, imports, is_sound, clashes}

  module _ (range : Dict File → Dict File) (ranges : Ranges p range) where
    abbrev Within : Dict File → Dict File → Type 0
    Within all_files fs = (n : String) (f : File) → In n f fs → In n f all_files

    range-Within : (all_files fs : Dict File) → Within all_files fs → Within all_files (range fs)
    range-Within all_files fs sub n f m = sub n f ((ranges.In-range fs n f).0 m)

    -- A pass that registers a file leaves fewer.
    range_shorter :
        (fs : Dict File) (r : Registry) (fuel : ℕ)
        → length fs < suc fuel
        → (pass p (range fs) r).registered ≢ 0
        → length (pass p (range fs) r).remaining < fuel
    range_shorter fs r fuel h progress =
        ground (arith, h, progress, pass_count p (range fs) r, ranges.length-range fs)

    passes_zero :
        (fuel : ℕ) (fs : Dict File) (r : Registry)
        → (pass p (range fs) r).registered ≡ 0
        → passes p range (suc fuel) fs r ≡ pass p (range fs) r
    unfolding passes
    passes_zero fuel fs r h = rw h refl

    passes_more :
        (fuel : ℕ) (fs : Dict File) (r : Registry)
        → (pass p (range fs) r).registered ≢ 0
        → passes p range (suc fuel) fs r ≡ (
            let now = pass p (range fs) r in
            let more = passes p range fuel now.remaining now.registry in
            record more { registered = now.registered + more.registered })
    unfolding passes
    passes_more fuel fs r h = rw (not_zero (pass p (range fs) r).registered h) refl

    -- What the passes leave: every file is registered or left, what is left was among the files and
    -- cannot be registered, and all that is registered resolves.
    record Closed (all_files : Dict File) (r₀ : Registry) (fs : Dict File) (r : Registry)
        (end : Progress p) : Type 0 where
      keeps : (n : String) → is_registered r n ≡ true → is_registered end.registry n ≡ true
      covers : (n : String) (f : File) → In n f fs → Kept p end n f
      stuck : (n : String) (f : File) → In n f end.remaining → register f end.registry ≡ none
      just : Justified p all_files r₀ r → Justified p all_files r₀ end.registry
      clean : Disjoint p all_files → Clean p all_files r → Clean p all_files end.registry
      counts : end.registered + length end.remaining ≡ length fs

    -- The passes end at a pass that registers nothing.
    idle-Closed :
        (all_files : Dict File) (r₀ : Registry) (fs : Dict File) (r : Registry)
        → (pass p (range fs) r).registered ≡ 0
        → Names p all_files
        → Within all_files fs
        → Closed all_files r₀ fs r (pass p (range fs) r)
    idle-Closed all_files r₀ fs r idle named sub =
        let within = range-Within all_files fs sub in
        record {
          keeps = pass_keeps p (range fs) r;
          covers = λ n f m.
              pass_covers p (range fs) r (λ k e i. named k e (within k e i)) n f
                ((ranges.In-range fs n f).1 m);
          stuck = λ n f m.
              subst (λ (now : Registry). register f now ≡ none)
                (sym (pass_stuck p (range fs) r idle))
                (pass_stuck-none p (range fs) r idle n f (pass-In p (range fs) r n f m));
          just = pass-Justified p all_files r₀ (range fs) r within named;
          clean = pass-Clean p all_files (range fs) r within named;
          counts = ground (arith, pass_count p (range fs) r, ranges.length-range fs);
        }

    -- The passes after one that registers a file.
    later-Closed :
        (all_files : Dict File) (r₀ : Registry) (fs : Dict File) (r : Registry) (more : Progress p)
        → Names p all_files
        → Within all_files fs
        → (let now = pass p (range fs) r in
            Closed all_files r₀ now.remaining now.registry more
            → Closed all_files r₀ fs r
                (record more { registered = now.registered + more.registered }))
    later-Closed all_files r₀ fs r more named sub rest =
        let within = range-Within all_files fs sub in
        record {
          keeps = λ n h. rest.keeps n (pass_keeps p (range fs) r n h);
          covers = λ n f m.
              elim (pass_covers p (range fs) r (λ k e i. named k e (within k e i)) n f
                ((ranges.In-range fs n f).1 m)) [
                  | inl kept ↦ inl (rest.keeps n kept)
                  | inr left ↦ rest.covers n f left
                ];
          stuck = rest.stuck;
          just = λ h. rest.just (pass-Justified p all_files r₀ (range fs) r within named h);
          clean = λ apart h.
              rest.clean apart (pass-Clean p all_files (range fs) r within named apart h);
          counts = ground (arith, pass_count p (range fs) r, ranges.length-range fs, rest.counts);
        }

    passes-Closed :
        (all_files : Dict File) (r₀ : Registry) (fuel : ℕ) (fs : Dict File) (r : Registry)
        → Names p all_files
        → Within all_files fs
        → length fs < fuel
        → Closed all_files r₀ fs r (passes p range fuel fs r)
    passes-Closed all_files r₀ zero fs r named sub h = absurd (ground (arith, h))
    passes-Closed all_files r₀ (suc fuel) fs r named sub h =
        let now = pass p (range fs) r in
        elim (Bool-cases (now.registered == 0)) [
          | inl idle ↦
              let same = (==_iff now.registered 0).0 idle in
              subst (Closed all_files r₀ fs r) (sym (passes_zero fuel fs r same))
                (idle-Closed all_files r₀ fs r same named sub)
          | inr progress ↦
              let some_file : now.registered ≢ 0 = ground (arith, progress) in
              let within = range-Within all_files fs sub in
              subst (Closed all_files r₀ fs r) (sym (passes_more fuel fs r some_file)) (
                later-Closed all_files r₀ fs r (passes p range fuel now.remaining now.registry)
                  named sub
                  (passes-Closed all_files r₀ fuel now.remaining now.registry named
                    (λ k e i. within k e (pass-In p (range fs) r k e i))
                    (range_shorter fs r fuel h some_file)))
        ]

    -- A sound file whose imports are registered and that clashes with none, unless it is registered,
    -- is refused only when it is registered.
    refused_registered :
        (f : File) (r : Registry)
        → is_sound f ≡ true
        → all (is_registered r) (imports f) ≡ true
        → (is_registered r (name f) ≡ false → clashes r f ≡ false)
        → register f r ≡ none
        → is_registered r (name f) ≡ true
    refused_registered f r sound each apart failed = elim (Bool-cases (is_registered r (name f))) [
      | inl known ↦ known
      | inr fresh ↦
          absurd ((p.register-some_iff f r).1 (rw (sound, fresh, each, apart fresh) refl) failed)
    ]

    final : Dict File → Registry → Progress p
    final files r = (register_file_descriptors p range files r).0

    final-Closed :
        (files : Dict File) (r : Registry)
        → Names p files
        → Closed files r (unregistered p files r).0 r (final files r)
    unfolding final register_file_descriptors
    final-Closed files r named =
        let fresh = unregistered p files r in
        passes-Closed files r (suc (length fresh.0)) fresh.0 r named (In-unregistered p files r)
          (omega (arith))

    mutual
      resolved :
          (files : Dict File) (r : Registry)
          → Names p files
          → Disjoint p files
          → Clean p files r
          → (n : String) → Resolves p files r n
          → is_registered (final files r).registry n ≡ true
      resolved files r named apart clean n (there h) = (final-Closed files r named).keeps n h
      resolved files r named apart clean n (loads {f} m sound each) =
          let end = final files r in
          let closed = final-Closed files r named in
          elim (unregistered-In p files r n f m) [
            | inl known ↦ closed.keeps n known
            | inr fresh ↦ elim (closed.covers n f fresh) [
              | inl done ↦ done
              | inr left ↦
                  let path : name f ≡ n = named n f m in
                  subst (λ (x : String). is_registered end.registry x ≡ true) path
                    (refused_registered f end.registry sound
                      (resolved_each files r named apart clean (imports f) each)
                      (λ fresh_name. closed.clean apart clean n f m (
                        subst (λ (x : String). is_registered end.registry x ≡ false) path
                          fresh_name))
                      (closed.stuck n f left))
            ]
          ]

      resolved_each :
          (files : Dict File) (r : Registry)
          → Names p files
          → Disjoint p files
          → Clean p files r
          → (ns : List String) → ResolvesEach p files r ns
          → all (is_registered (final files r).registry) ns ≡ true
      resolved_each files r named apart clean [] no_more = refl
      resolved_each files r named apart clean (n ∷ ns) (one_more first rest) = ground (
        arith,
        resolved files r named apart clean n first,
        resolved_each files r named apart clean ns rest,
      )

    -- Whatever the order in which the maps are ranged over, when each file stands under its own name,
    -- no two declare one symbol, and none that is not registered declares a symbol that is: after
    -- `registerFileDescriptors` a file is registered exactly when it was, or when it was found, is
    -- sound, and imports only files of which the same holds; so no order of the passes misses a file
    -- whose imports come later.
    pub is_registered-register_file_descriptors :
        (files : Dict File) (r : Registry)
        → Names p files
        → Disjoint p files
        → Clean p files r
        → (n : String)
        → (is_registered (register_file_descriptors p range files r).0.registry n ≡ true)
          ↔ Resolves p files r n
    unfolding final
    is_registered-register_file_descriptors files r named apart clean n =
        ((final-Closed files r named).just (λ k h. there h) n, resolved files r named apart clean n)

    -- Every file that was found is counted as registered or as skipped, or is left over.
    pub register_file_descriptors_count :
        (files : Dict File) (r : Registry)
        → Names p files
        → (let (end, skipped) = register_file_descriptors p range files r in
            end.registered + length end.remaining + skipped ≡ length files)
    unfolding final register_file_descriptors
    register_file_descriptors_count files r named =
        ground (arith, (final-Closed files r named).counts, unregistered_count p files r)
