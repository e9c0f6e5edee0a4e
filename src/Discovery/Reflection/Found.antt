-- ===== src/Discovery/Reflection/Found.antt =====
-- cpool/grpc/auto_register.go: which services and which proto files `discoverServices` finds at a
-- server that answers every request, and which files the goroutines of all clients collect.

use go_rpc_gateway.Prelude.{
  ◌≡◌, refl, ◌∙◌, Bool, false, ◌||◌, Option, none, some, List, [], ◌∷◌, any, String, str_eq, arith,
}
use go_rpc_gateway.Prelude.Dict.{Dict, lookup, insert, lookup-insert}
use go_rpc_gateway.Discovery.Files.{Protos}
use go_rpc_gateway.Discovery.Connections.{is_some}
use go_rpc_gateway.Discovery.Reflection.{
  Response, file_descriptors, Stream, Receiving, merge, add_discovered, discover_single_client,
  discover_each,
}

module _ (p : Protos) {Raw : Type 0} (unmarshal : Raw → Option p.File) where
  open p use {File, name}

  -- A serialised file can be read, and has this name.
  abbrev pub is_named : String → Raw → Bool
  is_named n raw = elim (unmarshal raw) [ none ↦ false | some f ↦ str_eq (name f) n ]

  -- A map has a file under this name, as an entry of its list, and to a lookup.
  abbrev pub is_key : String → Dict File → Bool
  is_key n files = any (λ (entry : String × File). str_eq entry.0 n) files

  abbrev has : String → Dict File → Bool
  has n files = is_some (lookup n files)

  -- An answer with some files, and the answers with them.
  abbrev pub answers_of : List (Raw × List Raw) → List (Option (Response Raw))
  answers_of [] = []
  answers_of ((raw, raws) ∷ rest) = some (file_descriptors (raw ∷ raws)) ∷ answers_of rest

  -- One of the answers holds a file of this name.
  abbrev pub sends : String → List (Raw × List Raw) → Bool
  sends n batches = any (λ batch. any (is_named n) (batch.0 ∷ batch.1)) batches

  abbrev start : List (Raw × List Raw) → Dict File → Receiving p Raw
  start batches cache = record { answers = answers_of batches; failures = []; cache = cache }

  has-merge :
      (n : String) (cache all_files : Dict File)
      → has n (merge p cache all_files) ≡ (is_key n cache || has n all_files)
  unfolding merge
  has-merge n [] all_files = refl
  has-merge n ((path, f) ∷ rest) all_files =
      ground (arith, has-merge n rest (insert path f all_files), lookup-insert path n f all_files)

  module _ {Conn : Type 0} (conns : Dict Conn) (streams : Conn → Stream Raw) where
    -- The discovery of a client succeeds, with a file of this name.
    abbrev pub finds : String → String → Bool
    finds n client = elim (discover_single_client p unmarshal conns streams client) [
      | none ↦ false
      | some (services, cache) ↦ is_key n cache
    ]

    has-add_discovered :
        (n client : String) (result : Option (List String × Dict File))
        (found : Dict (List String) × Dict File)
        → has n (add_discovered p client result found).1 ≡ (
            elim result [ none ↦ false | some (services, cache) ↦ is_key n cache ] || has n found.1)
    unfolding add_discovered
    has-add_discovered n client none found = refl
    has-add_discovered n client (some (services, cache)) found = has-merge n cache found.1

    discover_each_found :
        (n : String) (clients : List String) (found : Dict (List String) × Dict File)
        → has n (discover_each p unmarshal conns streams clients found).1
          ≡ (any (finds n) clients || has n found.1)
    unfolding discover_each
    discover_each_found n [] found = refl
    discover_each_found n (client ∷ rest) found =
        let result = discover_single_client p unmarshal conns streams client in
        ground (
          arith,
          discover_each_found n rest (add_discovered p client result found),
          has-add_discovered n client result found,
        )

    -- Whatever the servers answer and in whatever order the goroutines take the lock, the files that
    -- they collect hold one of a name exactly when the discovery of some client succeeds with a file of
    -- that name.
    pub is_some-discover_each :
        (n : String) (clients : List String)
        → is_some (lookup n (discover_each p unmarshal conns streams clients ([], [])).1)
          ≡ any (finds n) clients
    unfolding lookup
    is_some-discover_each n clients = discover_each_found n clients ([], []) ∙ ground arith
