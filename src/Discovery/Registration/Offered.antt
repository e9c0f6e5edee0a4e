-- ===== src/Discovery/Registration/Offered.antt =====
-- cpool/grpc/auto_register.go: which routes the goroutines of `RegisterDynamicHandlers` send, described
-- by the rules of the services.
use go_rpc_gateway.Prelude.{
  ◌≡◌, ◌↔◌, refl, sym, ap, ◌∙◌, Bool, false, ◌&&◌, ◌||◌, Option, none, some, List, [], ◌∷◌, any,
  All, String, inl, inr, Bool-cases, arith,
}
use go_rpc_gateway.Prelude.Dict.{Dict, lookup}
use go_rpc_gateway.Discovery.Routes.{HttpRoute, Service, extract_http_routes}
use go_rpc_gateway.Discovery.Routes.Offers.{offers, any-append, any-extract_http_routes}
use go_rpc_gateway.Discovery.Registration.{
  ServeMux, SvcRoutes, sent, sent_by, client_routes, all_routes,
}
use go_rpc_gateway.Discovery.Registration.Laws.{accepted, routes_in}

any-none : {A : Type 0} (t : A → Bool) (xs : List A) → any t xs ≡ false → All (λ x. t x ≡ false) xs
any-none t [] e = tt
any-none t (x ∷ xs) e = (ground (arith, e), any-none t xs (ground (arith, e)))

none-any : {A : Type 0} (t : A → Bool) (xs : List A) → All (λ x. t x ≡ false) xs → any t xs ≡ false
none-any t [] h = refl
none-any t (x ∷ xs) (here, later) = ground (arith, here, none-any t xs later)

-- Lists of which the same properties hold throughout pass the same tests.
pub any_same :
    {A : Type 0} (xs ys : List A)
    → ((P : A → Type 0) → All P xs ↔ All P ys)
    → (t : A → Bool) → any t ys ≡ any t xs
any_same xs ys same t = elim (Bool-cases (any t xs)) [
  | inr absent ↦ none-any t ys ((same (λ x. t x ≡ false)).0 (any-none t xs absent)) ∙ sym absent
  | inl found ↦ elim (Bool-cases (any t ys)) [
    | inl there ↦ there ∙ sym found
    | inr absent ↦
        absurd (
          ground (arith, found, none-any t xs ((same (λ x. t x ≡ false)).1 (any-none t ys absent))))
  ]
]

pub any-accepted :
    (parses : String → Bool) (p : HttpRoute → Bool) (routes : List HttpRoute)
    → any p (accepted parses routes) ≡ any (λ r. parses r.http_path && p r) routes
unfolding accepted
any-accepted parses p [] = refl
any-accepted parses p (route ∷ rest) = elim (Bool-cases (parses route.http_path)) [
  | inl good ↦ ground (arith, good, any-accepted parses p rest)
  | inr bad ↦ ground (arith, bad, any-accepted parses p rest)
]

module _ {Conn Descriptor : Type 0} (s : ServeMux Conn Descriptor) (p : HttpRoute → Bool) where
  pub any-routes_in :
      (collected : List (SvcRoutes s))
      → any p (routes_in s collected) ≡ any (λ sr. any p sr.routes) collected
  any-routes_in [] = refl
  any-routes_in (sr ∷ rest) =
      any-append p sr.routes (routes_in s rest)
      ∙ ap (λ b. any p sr.routes || b) (any-routes_in rest)

  module _ (find : String → Option (Service Descriptor)) where
    -- A service of that name is found, and offers a route that passes the test.
    abbrev pub offers_name : String → Bool
    offers_name info = elim (find info) [ none ↦ false | some service ↦ offers p service ]

    -- A client has a connection, and one of its services offers a route that passes the test.
    abbrev pub offers_client : Dict Conn → String × List String → Bool
    offers_client conns (client, infos) = elim (lookup client conns) [
      | none ↦ false
      | some conn ↦ any offers_name infos
    ]

    abbrev passes : SvcRoutes s → Bool
    passes sr = any p sr.routes

    any-sent :
        (conn : Conn) (service : Service Descriptor) (routes : List HttpRoute)
        → any passes (sent s conn service routes) ≡ any p routes
    unfolding sent
    any-sent conn service [] = refl
    any-sent conn service (route ∷ routes) = ground arith

    any-sent_by :
        (conn : Conn) (found : Option (Service Descriptor))
        → any passes (sent_by s conn found)
          ≡ elim found [ none ↦ false | some service ↦ offers p service ]
    unfolding sent_by
    any-sent_by conn none = refl
    any-sent_by conn (some service) =
        any-sent conn service (extract_http_routes service) ∙ any-extract_http_routes p service

    any-client_routes :
        (conn : Option Conn) (infos : List String)
        → any passes (client_routes s find conn infos)
          ≡ elim conn [ none ↦ false | some conn ↦ any offers_name infos ]
    unfolding client_routes
    any-client_routes none infos = refl
    any-client_routes (some conn) [] = refl
    any-client_routes (some conn) (info ∷ rest) =
        any-append passes (sent_by s conn (find info)) (client_routes s find (some conn) rest)
        ∙ ap (λ b. b || any passes (client_routes s find (some conn) rest))
            (any-sent_by conn (find info))
        ∙ ap (λ b. offers_name info || b) (any-client_routes (some conn) rest)

    pub any-all_routes :
        (conns : Dict Conn) (services : Dict (List String))
        → any passes (all_routes s find conns services) ≡ any (offers_client conns) services
    unfolding all_routes
    any-all_routes conns [] = refl
    any-all_routes conns ((client, infos) ∷ rest) =
        any-append passes (client_routes s find (lookup client conns) infos)
          (all_routes s find conns rest)
        ∙ ap (λ b. b || any passes (all_routes s find conns rest))
            (any-client_routes (lookup client conns) infos)
        ∙ ap (λ b. offers_client conns (client, infos) || b) (any-all_routes conns rest)
