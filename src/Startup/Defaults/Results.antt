-- ===== src/Startup/Defaults/Results.antt =====
-- What the default initialisers of global/initializer.go leave behind, and what their cleanup does.
use go_rpc_gateway.Prelude.{
  ℕ, zero, suc, ◌≡◌, inl, inr, refl, true, false, Option, none, some, List, [], ◌∷◌, get_elem?,
  String, Option-cases, arith,
}
use go_rpc_gateway.Prelude.Dict.{lookup}
use go_rpc_gateway.Startup.{
  Initializer, is_initialized, register, initialize_each, initialize_all, cleanup_one, cleanup_down,
  cleanup_all,
}
use go_rpc_gateway.Startup.Defaults.{
  Services, Error, node_failed, manager_failed, Globals, Part, logger_initializer,
  snowflake_initializer, pool_manager_initializer, context_initializer, increasing,
  get_default_initializer_chain, initialize_with_defaults, cleanup_with_defaults,
}

-- No flag is set, so nothing is cleaned up.
cleanup_down_idle :
    {C S E : Type 0} (inits : List (Initializer C S E)) (n : ℕ) (s : S)
    → cleanup_down inits [] n s ≡ (s, [])
unfolding cleanup_down cleanup_one is_initialized lookup
cleanup_down_idle inits zero s = refl
cleanup_down_idle inits (suc n) s = elim (Option-cases (get_elem? inits n)) [
  | inl over ↦ ground (arith, over, cleanup_down_idle inits n s)
  | inr (init, found) ↦ ground (arith, found, cleanup_down_idle inits n s)
]

module _ {C E : Type 0} (x : Services C E) where
  -- `CleanupWithDefaults` makes a chain of its own, on which nothing was started: whatever was
  -- initialised before, it cleans up nothing. The pool manager is not closed and the context is not
  -- cancelled.
  pub cleanup_with_defaults-initialize_with_defaults :
      (sort : List (Part x) → List (Part x)) (cfg : C) (g : Globals x.Pool)
      → cleanup_with_defaults x sort (initialize_with_defaults x sort cfg g).0
        ≡ ((initialize_with_defaults x sort cfg g).0, [])
  unfolding cleanup_with_defaults cleanup_all get_default_initializer_chain register
  cleanup_with_defaults-initialize_with_defaults sort cfg g = cleanup_down_idle _ _ _

  -- The four initialisers in the order of their priorities.
  abbrev in_order : List (Part x)
  in_order =
      logger_initializer x
      ∷ context_initializer x
      ∷ snowflake_initializer x
      ∷ pool_manager_initializer x
      ∷ []

  -- The outcome of the start, by that of the node and that of the pool manager.
  abbrev pub start_result :
      Option E → x.Pool × Option E → Globals x.Pool → Globals x.Pool × Option (String × Error E)
  start_result (some err) manager g =
      (record g { logger = true; cancel = some false }, some ("Snowflake", node_failed err))
  start_result none (manager, some err) g = (
    record g { logger = true; cancel = some false; node = true },
    some ("PoolManager", manager_failed err),
  )
  start_result none (manager, none) g = (
    record {
      logger = true;
      cancel = some false;
      node = true;
      pool_manager = some manager;
      resources = some manager;
    },
    none,
  )

  module _ (sort : List (Part x) → List (Part x))
      (sort_increasing : (parts : List (Part x))
        → increasing x parts ≡ true
        → sort parts ≡ parts) where
    chain_in_order :
        get_default_initializer_chain x sort ≡ record { initializers = in_order; initialized = [] }
    unfolding get_default_initializer_chain register logger_initializer context_initializer
        snowflake_initializer pool_manager_initializer
    chain_in_order =
        rw
          (
            sort_increasing (logger_initializer x ∷ []) refl,
            sort_increasing (logger_initializer x ∷ context_initializer x ∷ []) refl,
            sort_increasing
                (logger_initializer x ∷ context_initializer x ∷ snowflake_initializer x ∷ []) refl,
            sort_increasing in_order refl,
          )
          refl

    -- Where the sort leaves a list alone that is in the order of increasing priorities,
    -- `InitializeWithDefaults` succeeds exactly when the node and the pool manager can be made, and
    -- names the one that failed otherwise: the pool manager never misses the logger, whatever the
    -- globals were before. A start that succeeds sets every handle.
    pub initialize_with_defaults-start_result :
        (cfg : C) (g : Globals x.Pool)
        → initialize_with_defaults x sort cfg g
          ≡ start_result x.new_node (x.initialize_manager cfg) g
    unfolding initialize_with_defaults initialize_all initialize_each logger_initializer
        context_initializer snowflake_initializer pool_manager_initializer
    initialize_with_defaults-start_result cfg g =
        rw chain_in_order (elim (Option-cases x.new_node) [
          | inl node ↦ elim (Option-cases (x.initialize_manager cfg).1) [
            | inl manager ↦ ground (arith, node, manager)
            | inr (err, bad) ↦ ground (arith, node, bad)
          ]
          | inr (err, bad) ↦ ground (arith, bad)
        ])
