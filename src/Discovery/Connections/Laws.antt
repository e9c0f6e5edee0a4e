-- ===== src/Discovery/Connections/Laws.antt =====
-- cpool/grpc/client.go and cpool/grpc/auto_register.go: which services are connected, and when the
-- server of a TLS connection is verified.
use go_rpc_gateway.Prelude.{
  ◌≡◌, ◌≢◌, ◌↔◌, inl, inr, refl, sym, ap, subst, ◌∙◌, Bool, true, false, not, ◌&&◌, ◌||◌, Option,
  none, some, List, [], ◌∷◌, any, String, str_eq, eq_iff, if◌then◌else◌, Bool-cases, Option-cases,
  arith,
}
use go_rpc_gateway.Prelude.Dict.{Dict, lookup, lookup-insert}
use go_rpc_gateway.Discovery.Reflection.Sorting.{any-sort_strings}
use go_rpc_gateway.Discovery.Connections.{
  GrpcClient, Credentials, insecure, tls, Dialer, Connections, with_ca, build_tls_config, put_conn,
  connected_to, connect_first, connect, init_by, init_one, init_each, init_all_connections, is_some,
  keep, races,
}

-- Whether a name is among the clients.
abbrev pub is_client : String → Dict (Option GrpcClient) → Bool
is_client n [] = false
is_client n ((name, client) ∷ rest) = str_eq n name || is_client n rest

any-if :
    (n : String) (b : Bool) (name : String) (rest : List String)
    → any (str_eq n) (if b then name ∷ rest else rest)
      ≡ ((b && str_eq n name) || any (str_eq n) rest)
any-if n true name rest = refl
any-if n false name rest = refl

-- A name is noted at its client or at a later one of the same name.
added_name :
    (b c e l : Bool)
    → (b ≡ true → e ≡ true)
    → (c ≡ false → e ≡ b)
    → l ≡ (c && e)
    → ((b && true) || l) ≡ e
added_name true c e l keeps others later = sym (keeps refl)
added_name false true e l keeps others later = later
added_name false false e l keeps others later = later ∙ sym (others refl)

any-keep :
    (survives : String → Bool) (n : String) (names : List String)
    → any (str_eq n) (keep survives names) ≡ (any (str_eq n) names && survives n)
unfolding keep
any-keep survives n [] = refl
any-keep survives n (name ∷ rest) = elim (Bool-cases (str_eq n name)) [
  | inl same ↦
      let path = ap survives ((eq_iff n name).0 same) in
      ground (arith, same, path, any-keep survives n rest)
  | inr other ↦ ground (arith, other, any-keep survives n rest)
]

module _ {Conn Certificates KeyPair : Type 0} (d : Dialer Conn Certificates KeyPair) where
  -- What a step does: it connects its name or not, and no other.
  record Step (name : String) (connections end : Connections Conn) (connected : Bool) : Type 0 where
    own : is_some (lookup name end.pool) ≡ connected
    kept : is_some (lookup name connections.pool) ≡ true → connected ≡ true
    others : (n : String) → str_eq n name ≡ false → lookup n end.pool ≡ lookup n connections.pool

  connected_to-Step :
      (name endpoint : String) (conn : Option Conn) (connections : Connections Conn)
      → lookup name connections.pool ≡ none
      → (let now = connected_to d name endpoint conn connections in
          Step name connections now.0 now.1)
  unfolding connected_to put_conn
  connected_to-Step name endpoint none connections missing = record {
    own = ap is_some missing;
    kept = λ h. sym (ap is_some missing) ∙ h;
    others = λ n h. refl;
  }
  connected_to-Step name endpoint (some conn) connections missing = record {
    own = ground (arith, lookup-insert name name conn connections.pool, eq_iff name name);
    kept = λ h. refl;
    others = λ n h.
        ground (arith, h, lookup-insert name n conn connections.pool, eq_iff name n, eq_iff n name);
  }

  idle-Step :
      (name : String) (connections : Connections Conn)
      → lookup name connections.pool ≡ none
      → Step name connections connections false
  idle-Step name connections missing = record {
    own = ap is_some missing;
    kept = λ h. sym (ap is_some missing) ∙ h;
    others = λ n h. refl;
  }

  connect_first-Step :
      (name : String) (client : GrpcClient) (endpoints : List String)
      (connections : Connections Conn)
      → lookup name connections.pool ≡ none
      → (let now = connect_first d name client endpoints connections in
          Step name connections now.0 now.1)
  unfolding connect_first
  connect_first-Step name client [] connections missing = idle-Step name connections missing
  connect_first-Step name client (endpoint ∷ rest) connections missing =
      connected_to-Step name endpoint _ connections missing

  connect-Step :
      (name : String) (client : Option GrpcClient) (connections : Connections Conn)
      → lookup name connections.pool ≡ none
      → (let now = connect d name client connections in Step name connections now.0 now.1)
  unfolding connect
  connect-Step name none connections missing = idle-Step name connections missing
  connect-Step name (some client) connections missing =
      connect_first-Step name client client.endpoints connections missing

  init_by-Step :
      (name : String) (client : Option GrpcClient) (conn : Option Conn)
      (connections : Connections Conn)
      → lookup name connections.pool ≡ conn
      → (let now = init_by d name client conn connections in Step name connections now.0 now.1)
  unfolding init_by
  init_by-Step name client (some conn) connections found = record {
    own = ap is_some found;
    kept = λ h. refl;
    others = λ n h. refl;
  }
  init_by-Step name client none connections missing = connect-Step name client connections missing

  init_one-Step :
      (name : String) (client : Option GrpcClient) (connections : Connections Conn)
      → (let now = init_one d name client connections in Step name connections now.0 now.1)
  init_one-Step name client connections =
      init_by-Step name client (lookup name connections.pool) connections refl

  -- A connection stays.
  Step-keeps :
      (name : String) (connections end : Connections Conn) (connected : Bool)
      → Step name connections end connected
      → (n : String) → is_some (lookup n connections.pool) ≡ true
      → is_some (lookup n end.pool) ≡ true
  Step-keeps name connections end connected step n h = elim (Bool-cases (str_eq n name)) [
    | inl same ↦
        let path = sym ((eq_iff n name).0 same) in
        subst (λ (x : String). is_some (lookup x end.pool) ≡ true) path
          (step.own
            ∙ step.kept
                (subst (λ (x : String). is_some (lookup x connections.pool) ≡ true) (sym path) h))
    | inr other ↦ ap is_some (step.others n other) ∙ h
  ]

  init_each_keeps :
      (clients : Dict (Option GrpcClient)) (connections : Connections Conn) (n : String)
      → is_some (lookup n connections.pool) ≡ true
      → is_some (lookup n (init_each d clients connections).0.pool) ≡ true
  unfolding init_each
  init_each_keeps [] connections n h = h
  init_each_keeps ((name, client) ∷ rest) connections n h =
      let now = init_one d name client connections in
      init_each_keeps rest now.0 n
        (Step-keeps name connections now.0 now.1 (init_one-Step name client connections) n h)

  init_each_others :
      (clients : Dict (Option GrpcClient)) (connections : Connections Conn) (n : String)
      → is_client n clients ≡ false
      → lookup n (init_each d clients connections).0.pool ≡ lookup n connections.pool
  unfolding init_each
  init_each_others [] connections n h = refl
  init_each_others ((name, client) ∷ rest) connections n h =
      let now = init_one d name client connections in
      init_each_others rest now.0 n (ground (arith, h))
      ∙ (init_one-Step name client connections).others n (ground (arith, h))

  any-init_each :
      (clients : Dict (Option GrpcClient)) (connections : Connections Conn) (n : String)
      → (let end = init_each d clients connections in
          any (str_eq n) end.1 ≡ (is_client n clients && is_some (lookup n end.0.pool)))
  unfolding init_each
  any-init_each [] connections n = refl
  any-init_each ((name, client) ∷ rest) connections n =
      let now = init_one d name client connections in
      let step = init_one-Step name client connections in
      let later = any-init_each rest now.0 n in
      elim (Bool-cases (str_eq n name)) [
        | inl same ↦
            let path = (eq_iff n name).0 same in
            let own : is_some (lookup n now.0.pool) ≡ now.1 =
              subst (λ (x : String). is_some (lookup x now.0.pool) ≡ now.1) (sym path) step.own in
            any-if n now.1 name (init_each d rest now.0).1
            ∙ ap (λ b. (now.1 && b) || any (str_eq n) (init_each d rest now.0).1) same
            ∙ added_name now.1 (is_client n rest)
                (is_some (lookup n (init_each d rest now.0).0.pool))
                (any (str_eq n) (init_each d rest now.0).1)
                (λ h. init_each_keeps rest now.0 n (own ∙ h))
                (λ h. ap is_some (init_each_others rest now.0 n h) ∙ own) later
            ∙ ap
                (λ b. (b || is_client n rest) && is_some (lookup n (init_each d rest now.0).0.pool))
                (sym same)
        | inr other ↦ ground (arith, other, later, any-if n now.1 name (init_each d rest now.0).1)
      ]

  any-if_keep :
      (survives : String → Bool) (race : Bool) (names : List String) (n : String)
      → any (str_eq n) (if race then keep survives names else names)
        ≡ (any (str_eq n) names && (not race || survives n))
  any-if_keep survives true names n = any-keep survives n names
  any-if_keep survives false names n = ground arith

  -- Whatever the configuration and the pool, the names that `initAllConnections` returns are those of
  -- the clients that have a connection in the pool when it ends, but for those that the race of its
  -- appends loses; there is none unless at the start one client has a connection and another has not.
  pub any-init_all_connections :
      (survives : String → Bool) (clients : Dict (Option GrpcClient))
      (connections : Connections Conn) (n : String)
      → (let end = init_all_connections d survives clients connections in
          any (str_eq n) end.1 ≡ (
            (is_client n clients && is_some (lookup n end.0.pool))
            && (not (races d clients connections) || survives n)))
  unfolding init_all_connections
  any-init_all_connections survives clients connections n =
      any-sort_strings (str_eq n) (
        if races d clients connections
        then keep survives (init_each d clients connections).1
        else (init_each d clients connections).1)
      ∙ any-if_keep survives (races d clients connections) (init_each d clients connections).1 n
      ∙ ap (λ b. b && (not (races d clients connections) || survives n))
          (any-init_each clients connections n)

  -- The credentials skip the verification of the server.
  abbrev pub skips_verify : Credentials Certificates KeyPair → Bool
  skips_verify insecure = true
  skips_verify (tls config) = config.insecure_skip_verify

  -- A server is verified exactly when TLS is enabled and a CA file is configured, can be read and has
  -- certificates: a CA file that is missing or broken turns the verification off.
  pub build_tls_config-verifies_iff :
      (client : GrpcClient)
      → (skips_verify (build_tls_config d client) ≡ false) ↔ (
          (client.enable_tls ≡ true)
          × (client.tls_ca_file ≢ "")
          × (d.ca_file client.tls_ca_file ≢ none))
  unfolding build_tls_config with_ca
  build_tls_config-verifies_iff client = elim (Option-cases (d.ca_file client.tls_ca_file)) [
    | inl missing ↦ ground (arith, missing, eq_iff client.tls_ca_file "")
    | inr (certificates, found) ↦ ground (arith, found, eq_iff client.tls_ca_file "")
  ]
