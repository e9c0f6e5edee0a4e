-- ===== src/Prelude/Dict.antt =====
-- A Go map with string keys, as an association list. A key stands once; the order of the entries
-- stands for the order of a `range` over the map, which Go leaves open.
use Prim.Native.String.{String}
use mathlib.Core.Path.{◌≡◌, refl}
use mathlib.Core.List.{List, [], ◌∷◌}
use mathlib.Core.Option.{Option, none, some}
use native.Mathlib.Omega.{arith}
use text.Mathlib.Text.{◌==◌ as str_eq}
use text.Mathlib.TextEquality.{eq_iff}
use go_rpc_gateway.Prelude.Tests.{if◌then◌else◌}

abbrev pub Dict {ℓ} : Type ℓ → Type ℓ
Dict V = List (String × V)

module _ {ℓ} {V : Type ℓ} where
  unfoldable pub lookup : String → Dict V → Option V
  lookup key [] = none
  lookup key (entry ∷ rest) = if str_eq entry.0 key then some entry.1 else lookup key rest

  unfoldable pub insert : String → V → Dict V → Dict V
  insert key value [] = (key, value) ∷ []
  insert key value (entry ∷ rest) =
      if str_eq entry.0 key then (key, value) ∷ rest else entry ∷ insert key value rest

  -- A read after a write sees the write at its key, and the old value at any other.
  pub lookup-insert :
      (key other : String) (value : V) (m : Dict V)
      → lookup other (insert key value m)
        ≡ (if str_eq key other then some value else lookup other m)
  unfolding lookup insert
  lookup-insert key other value [] = refl
  lookup-insert key other value (entry ∷ rest) =
      let later = lookup-insert key other value rest in
      ground (arith, later, eq_iff entry.0 other, eq_iff entry.0 key, eq_iff key other)
