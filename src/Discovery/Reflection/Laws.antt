-- ===== src/Discovery/Reflection/Laws.antt =====
-- cpool/grpc/auto_register.go: reflection finds each proto file under its own name, so that all files
-- that can be registered are.
use go_rpc_gateway.Prelude.{
  ◌≡◌, ◌↔◌, inl, inr, refl, subst, ◌∙◌, true, not, Option, none, some, List, [], ◌∷◌, String,
  str_eq, if◌then◌else◌, if_either, Option-cases,
}
use go_rpc_gateway.Prelude.Dict.{Dict, lookup, insert}
use go_rpc_gateway.Discovery.Files.{Protos}
use go_rpc_gateway.Discovery.Files.Resolution.{Ranges, Resolves, Names, Disjoint, Clean}
use go_rpc_gateway.Discovery.Files.Laws.{is_registered-register_file_descriptors}
use go_rpc_gateway.Discovery.Reflection.{
  has_failed, send_each, Response, list_services, file_descriptors, another, Stream, add_file,
  add_files, parse_file_descriptor_response, Receiving, receive, receive_each, discover_listed,
  discover_answered, discover_connected, add_discovered, service_names, sort_strings,
  discover_services, discover_single_client, merge, discover_each, Reflected, discover_all_services,
}

module _ (p : Protos) where
  open p use {File, name}

  insert-Names :
      (path : String) (f : File) (files : Dict File)
      → name f ≡ path
      → Names p files
      → Names p (insert path f files)
  unfolding insert
  insert-Names path f [] same named n g (inl here) =
      subst (λ (e : File). name e ≡ n) here.1 (same ∙ here.0)
  insert-Names path f [] same named n g (inr m) = elim m [ ]
  insert-Names path f ((key, g) ∷ rest) same named n₀ g₀ m₀ =
      if_either (Names p) (str_eq key path)
        (λ n e m. elim m [
          | inl here ↦ subst (λ (x : File). name x ≡ n) here.1 (same ∙ here.0)
          | inr later ↦ named n e (inr later)
        ])
        (λ n e m. elim m [
          | inl here ↦ named n e (inl here)
          | inr later ↦ insert-Names path f rest same (λ k x i. named k x (inr i)) n e later
        ])
        n₀ g₀ m₀

  add_file-Names :
      (o : Option File) (cache : Dict File) → Names p cache → Names p (add_file p o cache)
  unfolding add_file
  add_file-Names none cache named = named
  add_file-Names (some f) cache named = elim (Option-cases (lookup (name f) cache)) [
    | inl new ↦
        rw new (
          if_either (Names p) (str_eq (name f) "") named (insert-Names (name f) f cache refl named))
    | inr (g, known) ↦ rw known (if_either (Names p) (str_eq (name f) "") named named)
  ]

  merge-Names :
      (cache all_files : Dict File)
      → Names p cache
      → Names p all_files
      → Names p (merge p cache all_files)
  unfolding merge
  merge-Names [] all_files named known = known
  merge-Names ((path, f) ∷ rest) all_files named known =
      merge-Names rest (insert path f all_files) (λ n g m. named n g (inr m))
        (insert-Names path f all_files (named path f (inl (refl, refl))) known)

module _ (p : Protos) {Raw : Type 0} (unmarshal : Raw → Option p.File) where
  open p use {File, Registry, is_registered, name}

  add_files-Names :
      (raws : List Raw) (cache : Dict File)
      → Names p cache
      → Names p (add_files p unmarshal raws cache)
  unfolding add_files
  add_files-Names [] cache named = named
  add_files-Names (raw ∷ rest) cache named =
      add_files-Names rest (add_file p (unmarshal raw) cache)
        (add_file-Names p (unmarshal raw) cache named)

  parse-Names :
      (response : Response Raw) (cache : Dict File)
      → Names p cache
      → Names p (parse_file_descriptor_response p unmarshal response cache).0
  unfolding parse_file_descriptor_response
  parse-Names (list_services names) cache named = named
  parse-Names (file_descriptors []) cache named = named
  parse-Names (file_descriptors (raw ∷ rest)) cache named = add_files-Names (raw ∷ rest) cache named
  parse-Names another cache named = named

  receive-Names :
      (service : String) (answers : List (Option (Response Raw))) (state : Receiving p Raw)
      → state.answers ≡ answers
      → Names p state.cache
      → Names p (receive p unmarshal service state).cache
  unfolding receive
  receive-Names service [] state e named = rw e named
  receive-Names service (none ∷ rest) state e named = rw e named
  receive-Names service (some response ∷ rest) state e named =
      rw e (parse-Names response state.cache named)

  receive_each-Names :
      (services : List String) (state : Receiving p Raw)
      → Names p state.cache
      → Names p (receive_each p unmarshal services state).cache
  unfolding receive_each
  receive_each-Names [] state named = named
  receive_each-Names (service ∷ rest) state named =
      let next = receive p unmarshal service state in
      receive_each-Names rest (if has_failed state.failures service then state else next) (
        if_either (λ (now : Receiving p Raw). Names p now.cache) (has_failed state.failures service)
          named (receive-Names service state.answers state refl named))

  discover_listed-Names :
      (stream : Stream Raw) (services : List String)
      → Names p (discover_listed p unmarshal stream services).1
  unfolding discover_listed
  discover_listed-Names stream [] n f m = elim m [ ]
  discover_listed-Names stream (service ∷ rest) n₀ f₀ m₀ =
      receive_each-Names (service ∷ rest)
        (record {
          answers = stream.answers;
          failures = send_each stream.takes (service ∷ rest) [];
          cache = [];
        })
        (λ n f m. elim m [ ]) n₀ f₀ m₀

  -- What an error or a result says of its files.
  abbrev NamesOf : Option (List String × Dict File) → Type 0
  NamesOf none = Unit
  NamesOf (some (services, cache)) = Names p cache

  discover_answered-Names :
      (stream : Stream Raw) (answer : Option (Response Raw))
      → NamesOf (discover_answered p unmarshal stream answer)
  unfolding discover_answered
  discover_answered-Names stream none = tt
  discover_answered-Names stream (some (list_services names)) =
      discover_listed-Names stream (sort_strings (service_names names))
  discover_answered-Names stream (some (file_descriptors raws)) = tt
  discover_answered-Names stream (some another) = tt

  discover_services-Names : (stream : Stream Raw) → NamesOf (discover_services p unmarshal stream)
  unfolding discover_services
  discover_services-Names stream =
      if_either NamesOf (not stream.opens) tt (
        if_either NamesOf (not stream.takes_list) tt (discover_answered-Names stream stream.listed))

  add_discovered-Names :
      (client : String) (result : Option (List String × Dict File))
      (found : Dict (List String) × Dict File)
      → NamesOf result
      → Names p found.1
      → Names p (add_discovered p client result found).1
  unfolding add_discovered
  add_discovered-Names client none found own known = known
  add_discovered-Names client (some (services, cache)) found own known =
      merge-Names p cache found.1 own known

  module _ {Conn : Type 0} (conns : Dict Conn) (streams : Conn → Stream Raw) where
    connected-Names : (conn : Option Conn) → NamesOf (discover_connected p unmarshal streams conn)
    unfolding discover_connected
    connected-Names none = tt
    connected-Names (some conn) = discover_services-Names (streams conn)

    discover_each-Names :
        (clients : List String) (found : Dict (List String) × Dict File)
        → Names p found.1
        → Names p (discover_each p unmarshal conns streams clients found).1
    unfolding discover_each discover_single_client
    discover_each-Names [] found known = known
    discover_each-Names (client ∷ rest) found known =
        let result = discover_single_client p unmarshal conns streams client in
        discover_each-Names rest (add_discovered p client result found)
          (add_discovered-Names client result found (connected-Names (lookup client conns)) known)

    -- `DiscoverAllServices` registers what `registerFileDescriptors` can of the files that the
    -- goroutines collected, in whatever order the maps are ranged over: each of them stands under its
    -- own name. No two of them declare one symbol, and none that is not registered declares a symbol
    -- that is.
    pub is_registered-discover_all_services :
        (range : Dict File → Dict File)
        → Ranges p range
        → (clients : List String) (reflected : Reflected p) (n : String)
        → Disjoint p (discover_each p unmarshal conns streams clients ([], [])).1
        → Clean p (discover_each p unmarshal conns streams clients ([], [])).1 reflected.files
        → (let end = discover_all_services p unmarshal range conns streams clients reflected in
            let found = discover_each p unmarshal conns streams clients ([], []) in
            (is_registered end.files n ≡ true) ↔ Resolves p found.1 reflected.files n)
    unfolding discover_all_services
    is_registered-discover_all_services range ranges clients reflected n apart clean =
        is_registered-register_file_descriptors p range ranges
          (discover_each p unmarshal conns streams clients ([], [])).1 reflected.files
          (discover_each-Names clients ([], []) (λ k f m. elim m [ ])) apart clean n
