-- ===== src/Startup.antt =====
-- global/initializer.go: the chain of initialisers, by which a gateway's parts start and stop. `S` is
-- the state that they change, `C` the configuration, `E` the type of errors.
pub mod Laws
pub mod Defaults
use go_rpc_gateway.Prelude.{
  ℕ, zero, suc, Bool, true, false, Option, none, some, List, [], ◌∷◌, ◌++◌, length, get_elem?,
  String,
}
use go_rpc_gateway.Prelude.Int.{ℤ}
use go_rpc_gateway.Prelude.Dict.{Dict, lookup, insert}

-- An error of nil is `none`.
pub record Initializer (C S E : Type 0) : Type 0 where
  pub name : String
  pub priority : ℤ
  pub initialize : C → S → S × Option E
  pub cleanup : S → S × Option E
  pub health_check : S → Option E

pub record InitializerChain (C S E : Type 0) : Type 0 where
  pub initializers : List (Initializer C S E)
  pub initialized : Dict Bool

-- What `InitializeAll` leaves: the flags, the state, and the initialiser that failed with its error.
pub record Progress (S E : Type 0) : Type 0 where
  pub initialized : Dict Bool
  pub state : S
  pub failure : Option (String × E)

-- A flag that is not in the map is false.
unfoldable pub is_initialized : Dict Bool → String → Bool
is_initialized flags name = elim (lookup name flags) [ none ↦ false | some flag ↦ flag ]

module _ {C S E : Type 0} where
  abbrev pub new_initializer_chain : InitializerChain C S E
  new_initializer_chain = record { initializers = []; initialized = [] }

  -- `sort` is `sort.Slice` by the priority.
  unfoldable pub register :
      (List (Initializer C S E) → List (Initializer C S E))
      → Initializer C S E
      → InitializerChain C S E
      → InitializerChain C S E
  register sort init c = record c { initializers = sort (c.initializers ++ init ∷ []) }

  -- The loop of `InitializeAll`.
  unfoldable pub initialize_each : C → List (Initializer C S E) → Dict Bool → S → Progress S E
  initialize_each cfg [] flags s = record { initialized = flags; state = s; failure = none }
  initialize_each cfg (init ∷ rest) flags s = elim (init.initialize cfg s).1 [
    | some err ↦ record {
      initialized = flags;
      state = (init.initialize cfg s).0;
      failure = some (init.name, err);
    }
    | none ↦ initialize_each cfg rest (insert init.name true flags) (init.initialize cfg s).0
  ]

  unfoldable pub initialize_all :
      C → InitializerChain C S E → S → InitializerChain C S E × S × Option (String × E)
  initialize_all cfg c s =
      let done = initialize_each cfg c.initializers c.initialized s in
      (record c { initialized = done.initialized }, done.state, done.failure)

  -- An error of an initialiser, with its name.
  abbrev pub cleanup_errors : Initializer C S E → Option E → List (String × E)
  cleanup_errors init none = []
  cleanup_errors init (some err) = (init.name, err) ∷ []

  -- One round of the loop of `CleanupAll`.
  unfoldable pub cleanup_one : Dict Bool → Option (Initializer C S E) → S → S × List (String × E)
  cleanup_one flags none s = (s, [])
  cleanup_one flags (some init) s = elim (is_initialized flags init.name) [
    | true ↦ ((init.cleanup s).0, cleanup_errors init (init.cleanup s).1)
    | false ↦ (s, [])
  ]

  -- The rounds from the index `i - 1` down to 0.
  unfoldable pub cleanup_down : List (Initializer C S E) → Dict Bool → ℕ → S → S × List (String × E)
  cleanup_down inits flags zero s = (s, [])
  cleanup_down inits flags (suc i) s =
      let round = cleanup_one flags (get_elem? inits i) s in
      let rest = cleanup_down inits flags i round.0 in (rest.0, round.1 ++ rest.1)

  -- The errors that `CleanupAll` collects; it returns an error if there are any.
  unfoldable pub cleanup_all : InitializerChain C S E → S → S × List (String × E)
  cleanup_all c s = cleanup_down c.initializers c.initialized (length c.initializers) s

  -- The loop of `HealthCheckAll`, with the results so far.
  unfoldable pub health_check_each :
      List (Initializer C S E) → Dict Bool → S → Dict (Option E) → Dict (Option E)
  health_check_each [] flags s results = results
  health_check_each (init ∷ rest) flags s results =
      health_check_each rest flags s (elim (is_initialized flags init.name) [
        | true ↦ insert init.name (init.health_check s) results
        | false ↦ results
      ])

  unfoldable pub health_check_all : InitializerChain C S E → S → Dict (Option E)
  health_check_all c s = health_check_each c.initializers c.initialized s []
