-- ===== src/Startup/Defaults.antt =====
-- global/initializer.go: the initialisers that the gateway registers, and what they do to the globals.
pub mod Results
use go_rpc_gateway.Prelude.{
  Bool, true, false, ◌&&◌, Option, none, some, List, [], ◌∷◌, all, ◌≡◌, String, if◌then◌else◌,
}
use go_rpc_gateway.Prelude.Int.{ℤ, pos, ltb_ℤ}
use go_rpc_gateway.Prelude.Dict.{Dict}
use go_rpc_gateway.Startup.{
  Initializer, InitializerChain, new_initializer_chain, register, initialize_all, cleanup_all,
}

-- What the initialisers call: `snowflake.NewNode`, by its error; a connection pool manager that is
-- made and initialised, its `Close` and its `HealthCheck`.
pub record Services (C E : Type 0) : Type 1 where
  pub Pool : Type 0
  pub new_node : Option E
  pub initialize_manager : C → Pool × Option E
  pub close : Pool → Pool × Option E
  pub health_check : Pool → Dict Bool

-- The errors: of the services, and those that the initialisers make.
pub data Error (E : Type 0) : Type 0 where
  node_failed : E → Error E
  manager_failed : E → Error E
  close_failed : E → Error E
  logger_missing node_missing manager_missing : Error E
  component_failed : String → Error E

-- The global handles: whether `LOGGER` is set; `CANCEL`, with whether it was called; whether `Node` is
-- set; `POOL_MANAGER`; and the manager whose resources `DB`, `REDIS` and `MinIO` are.
pub record Globals (P : Type 0) : Type 0 where
  pub logger : Bool
  pub cancel : Option Bool
  pub node : Bool
  pub pool_manager : Option P
  pub resources : Option P

module _ {C E : Type 0} (x : Services C E) where
  abbrev pub Part : Type 0
  Part = Initializer C (Globals x.Pool) (Error E)

  unfoldable pub logger_initializer : Part
  logger_initializer = record {
    name = "Logger";
    priority = pos 1;
    initialize = λ cfg g. (record g { logger = true }, none);
    cleanup = λ g. (g, none);
    health_check = λ g. none;
  }

  abbrev snowflake_initialize : Option E → Globals x.Pool → Globals x.Pool × Option (Error E)
  snowflake_initialize (some err) g = (g, some (node_failed err))
  snowflake_initialize none g = (record g { node = true }, none)

  unfoldable pub snowflake_initializer : Part
  snowflake_initializer = record {
    name = "Snowflake";
    priority = pos 5;
    initialize = λ cfg g. snowflake_initialize x.new_node g;
    cleanup = λ g. (record g { node = false }, none);
    health_check = λ g. if g.node then none else some node_missing;
  }

  abbrev bind_manager : x.Pool × Option E → Globals x.Pool → Globals x.Pool × Option (Error E)
  bind_manager (manager, some err) g = (g, some (manager_failed err))
  bind_manager (manager, none) g =
      (record g { pool_manager = some manager; resources = some manager }, none)

  abbrev manager_cleanup : Option x.Pool → Globals x.Pool → Globals x.Pool × Option (Error E)
  manager_cleanup none g = (g, none)
  manager_cleanup (some manager) g = (
    record g { pool_manager = some (x.close manager).0 },
    elim (x.close manager).1 [ none ↦ none | some err ↦ some (close_failed err) ],
  )

  abbrev first_unhealthy : Dict Bool → Option (Error E)
  first_unhealthy [] = none
  first_unhealthy ((name, healthy) ∷ rest) =
      let later = first_unhealthy rest in if healthy then later else some (component_failed name)

  unfoldable pub pool_manager_initializer : Part
  pool_manager_initializer = record {
    name = "PoolManager";
    priority = pos 10;
    initialize = λ cfg g.
        if g.logger then bind_manager (x.initialize_manager cfg) g else (g, some logger_missing);
    cleanup = λ g. manager_cleanup g.pool_manager g;
    health_check = λ g. elim g.pool_manager [
      | none ↦ some manager_missing
      | some manager ↦ first_unhealthy (x.health_check manager)
    ];
  }

  unfoldable pub context_initializer : Part
  context_initializer = record {
    name = "Context";
    priority = pos 2;
    initialize = λ cfg g. (record g { cancel = some false }, none);
    cleanup =
        λ g. (record g { cancel = elim g.cancel [ none ↦ none | some called ↦ some true ] }, none);
    health_check = λ g. none;
  }

  -- Each priority is below those behind it.
  abbrev pub increasing : List Part → Bool
  increasing [] = true
  increasing (i ∷ rest) = all (λ j. ltb_ℤ i.priority j.priority) rest && increasing rest

  unfoldable pub get_default_initializer_chain :
      (List Part → List Part) → InitializerChain C (Globals x.Pool) (Error E)
  get_default_initializer_chain sort = register sort pool_manager_initializer (
      register sort snowflake_initializer (
        register sort context_initializer (register sort logger_initializer new_initializer_chain)))

  -- The globals, and the initialiser that failed with its error.
  unfoldable pub initialize_with_defaults :
      (List Part → List Part) → C → Globals x.Pool → Globals x.Pool × Option (String × Error E)
  initialize_with_defaults sort cfg g =
      let done = initialize_all cfg (get_default_initializer_chain sort) g in (done.1, done.2)

  unfoldable pub cleanup_with_defaults :
      (List Part → List Part) → Globals x.Pool → Globals x.Pool × List (String × Error E)
  cleanup_with_defaults sort g = cleanup_all (get_default_initializer_chain sort) g
