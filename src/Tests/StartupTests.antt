-- ===== src/Tests/StartupTests.antt =====
-- The initialisers (global/initializer.go).
use go_rpc_gateway.Prelude.{
  ℕ, ◌≡◌, ◌↔◌, refl, Bool, true, false, none, some, List, [], ◌∷◌, length, String, if◌then◌else◌,
}
use mathlib.Core.List.{reverse}
use go_rpc_gateway.Prelude.Int.{pos}
use go_rpc_gateway.Startup.{Initializer, initialize_all, cleanup_all}
use go_rpc_gateway.Startup.Laws.{started, cleanups, cleanup_all-initialize_all}
use go_rpc_gateway.Startup.Defaults.{
  Services, Globals, Part, increasing, initialize_with_defaults, cleanup_with_defaults,
}
use go_rpc_gateway.Startup.Defaults.Results.{cleanup_with_defaults-initialize_with_defaults}

-- An initialiser that writes down its steps, and fails to start if it is to.
abbrev part : String → Bool → Initializer ℕ (List String) String
part name fails = record {
  name = name;
  priority = pos 1;
  initialize = λ cfg log. (name ∷ log, if fails then some "down" else none);
  cleanup = λ log. (name ∷ log, some "busy");
  health_check = λ log. none;
}

abbrev parts : List (Initializer ℕ (List String) String)
parts = part "logger" false ∷ part "node" false ∷ part "pool" true ∷ part "late" false ∷ []

abbrev no_steps : List String
no_steps = []

cleanup_all-initialize_all_example :
    (cleanup_all
        (initialize_all 0 (record { initializers = parts; initialized = [] }) no_steps).0
        no_steps
      ≡ cleanups (reverse (started 0 parts no_steps)) no_steps)
    × (((initialize_all 0 (record { initializers = parts; initialized = [] }) no_steps).2 ≡ none)
        ↔ (length (started 0 parts no_steps) ≡ length parts))
cleanup_all-initialize_all_example = cleanup_all-initialize_all 0 parts no_steps no_steps refl

abbrev steps : List String
steps = "logger" ∷ "node" ∷ []

-- The last of the initialisers that were started is cleaned up first, so it stands last.
parts_run : (cleanups (reverse (started 0 parts no_steps)) no_steps).0 ≡ steps
parts_run = refl

abbrev services : Services ℕ String
services = record {
  Pool = Bool;
  new_node = none;
  initialize_manager = λ cfg. (true, none);
  close = λ manager. (false, none);
  health_check = λ manager. [];
}

abbrev unset_globals : Globals Bool
unset_globals = record {
  logger = false;
  cancel = none;
  node = false;
  pool_manager = none;
  resources = none;
}

abbrev keep : List (Part services) → List (Part services)
keep inits = inits

cleanup_with_defaults-initialize_with_defaults_example :
    cleanup_with_defaults services keep (initialize_with_defaults services keep 0 unset_globals).0
    ≡ ((initialize_with_defaults services keep 0 unset_globals).0, [])
cleanup_with_defaults-initialize_with_defaults_example =
    cleanup_with_defaults-initialize_with_defaults services keep 0 unset_globals

keep-increasing :
    (inits : List (Part services)) → increasing services inits ≡ true → keep inits ≡ inits
keep-increasing inits h = refl
