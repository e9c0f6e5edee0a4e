-- ===== src/GrpcHealth/Laws.antt =====
-- Which services the health checker of cpool/grpc/health.go takes for available.
use go_rpc_gateway.Prelude.{
  ◌≡◌, ◌↔◌, inl, inr, refl, ap, ◌∙◌, Bool, true, false, not, ◌&&◌, ◌||◌, any, Option, none, some,
  List, [], ◌∷◌, ◌++◌, String, str_eq, eq_iff, if◌then◌else◌, Option-cases, arith,
}
use go_rpc_gateway.Prelude.Dict.{Dict, lookup, insert, lookup-insert}
use go_rpc_gateway.GrpcHealth.{
  ClientHealth, HealthChecker, new_health_checker, invoked, unavailable, check_endpoint_health,
  register, is_healthy, probe, probe_each, tick, close, unary_client_health_interceptor,
  ensure_service_ready,
}

-- Whether a callback was called for a service.
abbrev pub called : String → List String → Bool
called service names = any (λ name. str_eq name service) names

called-append :
    (service : String) (xs ys : List String)
    → called service (xs ++ ys) ≡ (called service xs || called service ys)
called-append service [] ys = refl
called-append service (x ∷ xs) ys = ground (arith, called-append service xs ys)

-- Whether a service that was unreachable is reachable at its endpoint, if it has one.
abbrev pub recovers : Option Bool → Option String → (String → Bool) → Bool
recovers none endpoint dial = false
recovers (some b) none dial = false
recovers (some b) (some endpoint) dial = not b && dial endpoint

-- What happens to a checker: a service is registered and dialled, the periodic check ticks, or
-- the checker is closed.
pub data Event (Conn : Type 0) : Type 0 where
  registers : (name : String) (conn : Option Conn) (reachable : Bool) → Event Conn
  ticks : (endpoints : Dict String) (dial : String → Bool) → Event Conn
  closes : Event Conn

module _ {Conn : Type 0} where
  abbrev pub after : Event Conn → HealthChecker Conn → HealthChecker Conn
  after (registers name conn reachable) hc = register name conn reachable hc
  after (ticks endpoints dial) hc = (tick endpoints dial hc).0
  after closes hc = (close hc).0

  abbrev pub run : List (Event Conn) → HealthChecker Conn → HealthChecker Conn
  run [] hc = hc
  run (e ∷ es) hc = run es (after e hc)

  -- The last dial of a service that is registered.
  abbrev pub dialled : String → Event Conn → Option Bool → Option Bool
  dialled service (registers name conn reachable) last =
      if str_eq name service then some reachable else last
  dialled service (ticks endpoints dial) none = none
  dialled service (ticks endpoints dial) (some b) = elim (lookup service endpoints) [
    | none ↦ some b
    | some endpoint ↦ some (dial endpoint)
  ]
  dialled service closes last = none

  abbrev pub last_dial : String → List (Event Conn) → Option Bool → Option Bool
  last_dial service [] last = last
  last_dial service (e ∷ es) last = last_dial service es (dialled service e last)

  -- What the checker holds of a service.
  abbrev pub held : String → HealthChecker Conn → Option Bool
  held service hc = elim (lookup service hc.clients) [ none ↦ none | some h ↦ some h.healthy ]

  held-probe :
      (service name : String) (reachable : Bool) (hc : HealthChecker Conn)
      → held service (probe name reachable hc).0 ≡ elim (held service hc) [
        | none ↦ none
        | some b ↦ some (if str_eq name service then reachable else b)
      ]
  unfolding probe
  held-probe service name reachable hc = elim (Option-cases (lookup name hc.clients)) [
    | inl missing ↦ ground (arith, missing, eq_iff name service)
    | inr (h, found) ↦ ground (
      arith,
      found,
      eq_iff name service,
      lookup-insert name service (record h { healthy = reachable }) hc.clients,
    )
  ]

  -- What a tick makes of a service, when the services of a list are left to be dialled.
  abbrev redialled :
      String → Dict String → (String → Bool) → Dict (ClientHealth Conn) → Option Bool → Option Bool
  redialled service endpoints dial services none = none
  redialled service endpoints dial services (some b) = elim (lookup service services) [
    | none ↦ some b
    | some h ↦ elim (lookup service endpoints) [
      | none ↦ some b
      | some endpoint ↦ some (dial endpoint)
    ]
  ]

  held-probe_each :
      (service : String) (endpoints : Dict String) (dial : String → Bool)
      (services : Dict (ClientHealth Conn)) (hc : HealthChecker Conn)
      → held service (probe_each endpoints dial services hc).0
        ≡ redialled service endpoints dial services (held service hc)
  unfolding probe_each lookup
  held-probe_each service endpoints dial [] hc = ground arith
  held-probe_each service endpoints dial ((name, h) ∷ services) hc =
      elim (Option-cases (lookup name endpoints)) [
        | inl missing ↦ ground (
          arith,
          missing,
          eq_iff name service,
          held-probe_each service endpoints dial services hc,
        )
        | inr (endpoint, found) ↦ ground (
          arith,
          found,
          eq_iff name service,
          held-probe service name (dial endpoint) hc,
          held-probe_each service endpoints dial services (probe name (dial endpoint) hc).0,
        )
      ]

  held-after :
      (service : String) (e : Event Conn) (hc : HealthChecker Conn)
      → held service (after e hc) ≡ dialled service e (held service hc)
  unfolding register check_endpoint_health tick close lookup
  held-after service (registers name conn reachable) hc =
      let fresh : ClientHealth Conn = record { conn = conn; healthy = false } in
      let clients = insert name fresh hc.clients in
      ground (
        arith,
        eq_iff name service,
        eq_iff name name,
        lookup-insert name name fresh hc.clients,
        lookup-insert name service fresh hc.clients,
        lookup-insert name service (record fresh { healthy = reachable }) clients,
      )
  held-after service (ticks endpoints dial) hc =
      held-probe_each service endpoints dial hc.clients hc ∙ ground arith
  held-after service closes hc = refl

  held-run :
      (service : String) (es : List (Event Conn)) (hc : HealthChecker Conn)
      → held service (run es hc) ≡ last_dial service es (held service hc)
  held-run service [] hc = refl
  held-run service (e ∷ es) hc =
      held-run service es (after e hc) ∙ ap (last_dial service es) (held-after service e hc)

  -- After any sequence of registrations, ticks of the periodic check and closings, from a new
  -- checker on, the interceptor answers a call to a service with `Unavailable` exactly when the
  -- service is registered and the last dial of it failed. With a client, `EnsureServiceReady` by the
  -- checker's `IsHealthy` lets it through exactly when the service is registered and the last dial
  -- of it succeeded.
  pub run_refuses_iff :
      (service : String) (es : List (Event Conn))
      → ((unary_client_health_interceptor service (some (run es new_health_checker)) ≡ unavailable)
          ↔ (last_dial service es none ≡ some false))
        × ((ensure_service_ready true (some (is_healthy (run es new_health_checker))) service
              ≡ invoked)
            ↔ (last_dial service es none ≡ some true))
  unfolding unary_client_health_interceptor ensure_service_ready is_healthy lookup
  run_refuses_iff service es =
      let state = held-run service es new_health_checker in
      elim (Option-cases (lookup service (run es new_health_checker).clients)) [
        | inl missing ↦ (ground (arith, missing, state), ground (arith, missing, state))
        | inr (h, found) ↦ (ground (arith, found, state), ground (arith, found, state))
      ]

  on_recover-probe :
      (name : String) (reachable : Bool) (hc : HealthChecker Conn)
      → (probe name reachable hc).0.on_recover ≡ hc.on_recover
  unfolding probe
  on_recover-probe name reachable hc = ground arith

  called-probe :
      (service name : String) (reachable : Bool) (hc : HealthChecker Conn)
      → called service (probe name reachable hc).1 ≡ (
          str_eq name service
          && hc.on_recover
          && recovers (held service hc) (some "") (λ endpoint. reachable))
  unfolding probe
  called-probe service name reachable hc = elim (Option-cases (lookup name hc.clients)) [
    | inl missing ↦ ground (arith, missing, eq_iff name service)
    | inr (h, found) ↦ ground (arith, found, eq_iff name service)
  ]

  -- The callbacks of a tick, when the services of a list are left to be dialled.
  abbrev calls_back :
      String → Dict String → (String → Bool) → Dict (ClientHealth Conn) → HealthChecker Conn → Bool
  calls_back service endpoints dial services hc = elim (lookup service services) [
    | none ↦ false
    | some h ↦ hc.on_recover && recovers (held service hc) (lookup service endpoints) dial
  ]

  called-probe_each :
      (service : String) (endpoints : Dict String) (dial : String → Bool)
      (services : Dict (ClientHealth Conn)) (hc : HealthChecker Conn)
      → called service (probe_each endpoints dial services hc).1
        ≡ calls_back service endpoints dial services hc
  unfolding probe_each lookup
  called-probe_each service endpoints dial [] hc = refl
  called-probe_each service endpoints dial ((name, h) ∷ services) hc =
      elim (Option-cases (lookup name endpoints)) [
        | inl missing ↦ ground (
          arith,
          missing,
          eq_iff name service,
          called-probe_each service endpoints dial services hc,
        )
        | inr (endpoint, found) ↦
            let next = (probe name (dial endpoint) hc).0 in
            ground (
              arith,
              found,
              eq_iff name service,
              called-append service (probe name (dial endpoint) hc).1
                  (probe_each endpoints dial services next).1,
              called-probe service name (dial endpoint) hc,
              held-probe service name (dial endpoint) hc,
              on_recover-probe name (dial endpoint) hc,
              called-probe_each service endpoints dial services next,
            )
      ]

  -- A tick of the periodic check calls the callback for a service exactly when one is set, the
  -- service is registered, it was unreachable at the last dial, and it is reachable at its endpoint
  -- now.
  pub called-tick :
      (service : String) (endpoints : Dict String) (dial : String → Bool) (hc : HealthChecker Conn)
      → called service (tick endpoints dial hc).1
        ≡ (hc.on_recover && recovers (held service hc) (lookup service endpoints) dial)
  unfolding tick
  called-tick service endpoints dial hc =
      called-probe_each service endpoints dial hc.clients hc ∙ ground arith
