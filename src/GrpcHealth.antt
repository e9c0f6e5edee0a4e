-- ===== src/GrpcHealth.antt =====
-- cpool/grpc/health.go: what is known of the services behind the gateway, and the calls that it
-- refuses. `lastCheck`, which nothing reads, is left out. `Conn` is the type of connections.
pub mod Laws
use go_rpc_gateway.Prelude.{
  Bool, true, false, not, ◌&&◌, Option, none, some, List, [], ◌∷◌, ◌++◌, String, if◌then◌else◌,
}
use go_rpc_gateway.Prelude.Dict.{Dict, lookup, insert}

pub record ClientHealth (Conn : Type 0) : Type 0 where
  pub conn : Option Conn
  pub healthy : Bool

-- `on_recover` says whether a callback is set; its calls are listed by service.
pub record HealthChecker (Conn : Type 0) : Type 0 where
  pub clients : Dict (ClientHealth Conn)
  pub on_recover : Bool

-- What a client's call comes to: it is invoked, or answered with a code.
pub data Outcome : Type 0 where
  invoked failed_precondition unavailable : Outcome

module _ {Conn : Type 0} where
  abbrev pub new_health_checker : HealthChecker Conn
  new_health_checker = record { clients = []; on_recover = false }

  abbrev pub set_on_recover : Bool → HealthChecker Conn → HealthChecker Conn
  set_on_recover callback hc = record hc { on_recover = callback }

  -- `reachable` says whether `net.DialTimeout` connects.
  unfoldable pub check_endpoint_health : String → Bool → HealthChecker Conn → HealthChecker Conn
  check_endpoint_health name reachable hc = elim (lookup name hc.clients) [
    | none ↦ hc
    | some h ↦ record hc { clients = insert name (record h { healthy = reachable }) hc.clients }
  ]

  unfoldable pub register : String → Option Conn → Bool → HealthChecker Conn → HealthChecker Conn
  unfolding check_endpoint_health
  register name conn reachable hc =
      check_endpoint_health name reachable
        (record hc { clients = insert name (record { conn = conn; healthy = false }) hc.clients })

  -- Whether the service is healthy, and whether it is registered.
  unfoldable pub get_service_health : String → HealthChecker Conn → Bool × Bool
  get_service_health name hc = elim (lookup name hc.clients) [
    | none ↦ (false, false)
    | some h ↦ (h.healthy, true)
  ]

  unfoldable pub is_healthy : HealthChecker Conn → String → Bool
  unfolding get_service_health
  is_healthy hc name = (get_service_health name hc).0

  -- One goroutine of a periodic check, from its dial to its end, with the callbacks.
  unfoldable pub probe : String → Bool → HealthChecker Conn → HealthChecker Conn × List String
  probe name reachable hc = elim (lookup name hc.clients) [
    | none ↦ (hc, [])
    | some h ↦ (
      record hc { clients = insert name (record h { healthy = reachable }) hc.clients },
      if reachable && not h.healthy && hc.on_recover then name ∷ [] else [],
    )
  ]

  -- Only a service with an endpoint has a goroutine.
  unfoldable pub probe_at :
      Option String
      → (String → Bool)
      → String
      → HealthChecker Conn
      → HealthChecker Conn × List String
  probe_at none dial name hc = (hc, [])
  probe_at (some endpoint) dial name hc = probe name (dial endpoint) hc

  -- The goroutines of a tick, one after another; `dial` says which endpoints are reachable.
  unfoldable pub probe_each :
      Dict String
      → (String → Bool)
      → Dict (ClientHealth Conn)
      → HealthChecker Conn
      → HealthChecker Conn × List String
  unfolding probe_at
  probe_each endpoints dial [] hc = (hc, [])
  probe_each endpoints dial ((name, h) ∷ services) hc =
      let step = probe_at (lookup name endpoints) dial name hc in
      let rest = probe_each endpoints dial services step.0 in (rest.0, step.1 ++ rest.1)

  unfoldable pub tick :
      Dict String → (String → Bool) → HealthChecker Conn → HealthChecker Conn × List String
  tick endpoints dial hc = probe_each endpoints dial hc.clients hc

  -- The ticks of `StartPeriodicCheck`, by what is reachable in each.
  unfoldable pub periodic_check :
      Dict String → List (String → Bool) → HealthChecker Conn → HealthChecker Conn × List String
  periodic_check [] dials hc = (hc, [])
  periodic_check (e ∷ endpoints) [] hc = (hc, [])
  periodic_check (e ∷ endpoints) (dial ∷ dials) hc =
      let now = tick (e ∷ endpoints) dial hc in
      let rest = periodic_check (e ∷ endpoints) dials now.0 in (rest.0, now.1 ++ rest.1)

  unfoldable pub status_of : Dict (ClientHealth Conn) → Dict Bool
  status_of [] = []
  status_of ((name, h) ∷ rest) = (name, h.healthy) ∷ status_of rest

  unfoldable pub get_health_status : HealthChecker Conn → Dict Bool
  get_health_status hc = status_of hc.clients

  unfoldable pub connections : Dict (ClientHealth Conn) → List Conn
  connections [] = []
  connections ((name, h) ∷ rest) =
      let others = connections rest in elim h.conn [ none ↦ others | some c ↦ c ∷ others ]

  -- The connections that are closed, too.
  unfoldable pub close : HealthChecker Conn → HealthChecker Conn × List Conn
  close hc = (record hc { clients = [] }, connections hc.clients)

  -- `UnaryClientHealthInterceptor`, and `StreamClientHealthInterceptor`, which asks the same.
  unfoldable pub unary_client_health_interceptor : String → Option (HealthChecker Conn) → Outcome
  unfolding get_service_health
  unary_client_health_interceptor name none = invoked
  unary_client_health_interceptor name (some hc) =
      let health = get_service_health name hc in
      if health.1 && not health.0 then unavailable else invoked

  unfoldable pub stream_client_health_interceptor : String → Option (HealthChecker Conn) → Outcome
  unfolding get_service_health
  stream_client_health_interceptor name none = invoked
  stream_client_health_interceptor name (some hc) =
      let health = get_service_health name hc in
      if health.1 && not health.0 then unavailable else invoked

-- `has_client` says that the client is not nil.
unfoldable pub ensure_service_ready : Bool → Option (String → Bool) → String → Outcome
ensure_service_ready has_client none name = if has_client then invoked else failed_precondition
ensure_service_ready has_client (some test) name =
    if has_client then (if test name then invoked else unavailable) else failed_precondition

pub record ServiceGuard : Type 0 where
  pub service_name : String
  pub client : Bool
  pub health_test : Option (String → Bool)

abbrev pub new_service_guard : String → ServiceGuard
new_service_guard name = record { service_name = name; client = false; health_test = none }

abbrev pub with_service_name : String → ServiceGuard → ServiceGuard
with_service_name name g = record g { service_name = name }

abbrev pub with_client : Bool → ServiceGuard → ServiceGuard
with_client client g = record g { client = client }

abbrev pub with_health_checker : (String → Bool) → ServiceGuard → ServiceGuard
with_health_checker test g = record g { health_test = some test }

abbrev pub ensure : ServiceGuard → Outcome
ensure g = ensure_service_ready g.client g.health_test g.service_name
