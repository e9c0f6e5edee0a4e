-- ===== src/Discovery/Files.antt =====
-- cpool/grpc/auto_register.go: `registerFileDescriptors`, which registers the proto files that
-- reflection found, each after the files that it imports.
pub mod Passes
pub mod Fresh
pub mod Resolution
pub mod Laws
use go_rpc_gateway.Prelude.{
  ℕ, zero, suc, ◌+◌, ◌≡◌, ◌≢◌, ◌↔◌, ◌⊎◌, Bool, true, false, not, ◌&&◌, ◌||◌, Option, none, some,
  List, [], ◌∷◌, all, length, String, str_eq, ◌==◌, if◌then◌else◌,
}
use go_rpc_gateway.Prelude.Dict.{Dict}

-- An entry of a map.
abbrev pub In : {V : Type 0} → String → V → Dict V → Type 0
In name v [] = ⊥
In name v (entry ∷ rest) = ((entry.0 ≡ name) × (entry.1 ≡ v)) ⊎ In name v rest

-- Packages protodesc and protoregistry: `register` is `NewFile` with `RegisterFile` under `recover`,
-- `none` for an error or a panic. It succeeds for a file that is sound in itself, that is not
-- registered, whose imports are, and that declares no symbol of a registered file: `clashes` says
-- that it declares one, and `shares` that two files declare a symbol both.
pub record Protos : Type 1 where
  pub File : Type 0
  pub Registry : Type 0
  pub is_registered : Registry → String → Bool
  pub register : File → Registry → Option Registry
  pub name : File → String
  pub imports : File → List String
  pub is_sound : File → Bool
  pub clashes : Registry → File → Bool
  pub shares : File → File → Bool
  pub register-some_iff :
      (f : File) (r : Registry)
      → (register f r ≢ none) ↔ (
          (is_sound f
            && not (is_registered r (name f))
            && all (is_registered r) (imports f)
            && not (clashes r f))
          ≡ true)
  pub is_registered-register :
      (f : File) (r r' : Registry) (path : String)
      → register f r ≡ some r'
      → is_registered r' path ≡ (str_eq (name f) path || is_registered r path)
  pub clashes-register :
      (f g : File) (r r' : Registry)
      → register f r ≡ some r'
      → clashes r' g ≡ (shares f g || clashes r g)

module _ (p : Protos) where
  open p use {File, Registry}

  -- The files that are not registered, and how many are.
  unfoldable pub unregistered : Dict File → Registry → Dict File × ℕ
  unregistered [] r = ([], 0)
  unregistered ((path, f) ∷ rest) r =
      let later = unregistered rest r in
      if p.is_registered r path then (later.0, suc later.1) else ((path, f) ∷ later.0, later.1)

  -- What is left, the registry, and how many files were registered.
  pub record Progress : Type 0 where
    pub remaining : Dict File
    pub registry : Registry
    pub registered : ℕ

  -- One pass over the remaining files.
  unfoldable pub pass : Dict File → Registry → Progress
  pass [] r = record { remaining = []; registry = r; registered = 0 }
  pass ((path, f) ∷ rest) r = elim (p.register f r) [
    | none ↦ let later = pass rest r in record later { remaining = (path, f) ∷ later.remaining }
    | some r' ↦ let later = pass rest r' in record later { registered = suc later.registered }
  ]

  -- The passes, until one registers nothing; `range` is the order in which Go ranges over a map. The
  -- fuel is one more than the number of files.
  unfoldable pub passes : (Dict File → Dict File) → ℕ → Dict File → Registry → Progress
  unfolding pass
  passes range zero files r = record { remaining = files; registry = r; registered = 0 }
  passes range (suc fuel) files r =
      let now = pass (range files) r in
      let more = passes range fuel now.remaining now.registry in
      if now.registered == 0
      then now
      else record more { registered = now.registered + more.registered }

  -- With the number of files that were registered before.
  unfoldable pub register_file_descriptors :
      (Dict File → Dict File) → Dict File → Registry → Progress × ℕ
  unfolding passes unregistered
  register_file_descriptors range files r =
      let fresh = unregistered files r in (passes range (suc (length fresh.0)) fresh.0 r, fresh.1)
