-- ===== src/RateLimit/Decisions/Laws.antt =====
-- When the rate limit middleware of middleware/ratelimit.go calls the next handler.
use go_rpc_gateway.Prelude.{
  ◌≡◌, ◌≢◌, ◌↔◌, refl, true, false, Option, none, some, List, [], ◌∷◌, All, String, eq_iff, ◌⊎◌,
  inl, inr, Option-cases, Bool-cases, arith,
}
use text.Mathlib.TextLemmas.{append-eq-nil_iff}
use go_rpc_gateway.RateLimit.Config.{
  LimitRule, Strategy, Scope, global, per_ip, per_user, per_route, unknown, RateLimitConfig,
  Request,
}
use go_rpc_gateway.RateLimit.Rules.{◌^◌, Matchers, generate_key}
use go_rpc_gateway.RateLimit.Decisions.{
  Decision, Dynamic, Decided, failed, decided, normalize_decisions, get_decisions, Reply, allowed,
  Outcome, next_called, allow_requests, middleware,
}

-- What `getLimiter` gives for each strategy, `none` for a nil limiter.
abbrev Limiters : Type 0 → Type 0
Limiters S = Strategy → Option (String → Option LimitRule → S → S × Reply)

-- A run of all decisions in order, each allowed by the limiter of its strategy, from one state of
-- the limiters to another.
pub data Passes {S : Type 0}
    (limiter : Strategy → Option (String → Option LimitRule → S → S × Reply))
    : List Decision → S → S → Type 0 where
  done : {s : S} → Passes limiter [] s s
  pass :
      {d : Decision} {ds : List Decision} {s t u : S}
      (allow : String → Option LimitRule → S → S × Reply)
      → limiter d.strategy ≡ some allow
      → allow d.key d.rule s ≡ (t, allowed)
      → Passes limiter ds t u
      → Passes limiter (d ∷ ds) s u

module _ {S E : Type 0}
    (limiter : Strategy → Option (String → Option LimitRule → S → S × Reply)) where
  abbrev answer : List Decision → S → S × Outcome E
  answer ds s = allow_requests limiter ds s

  answer_step :
      (d : Decision) (ds : List Decision) (s t : S)
      → answer (d ∷ ds) s ≡ (t, next_called)
      → (allow : String → Option LimitRule → S → S × Reply) × (limiter d.strategy ≡ some allow)
        × ((allow d.key d.rule s).1 ≡ allowed)
        × (answer ds (allow d.key d.rule s).0 ≡ (t, next_called))
  unfolding allow_requests
  answer_step d ds s t e = elim (Option-cases (limiter d.strategy)) [
    | inl nil ↦ absurd (ground arith)
    | inr (allow, found) ↦ (allow, found, ground arith, ground arith)
  ]

  answer-Passes :
      (ds : List Decision) (s t : S) → answer ds s ≡ (t, next_called) → Passes limiter ds s t
  unfolding allow_requests
  answer-Passes [] s t e = let same : s ≡ t = ground arith in rw (← same) done
  answer-Passes (d ∷ ds) s t e =
      let (allow, found, good, rest) = answer_step d ds s t e in
      pass allow found (ground arith) (answer-Passes ds (allow d.key d.rule s).0 t rest)

  Passes-answer :
      {ds : List Decision} {s t : S} → Passes limiter ds s t → answer ds s ≡ (t, next_called)
  unfolding allow_requests
  Passes-answer done = refl
  Passes-answer (pass allow l a p) = ground (arith, Passes-answer p)

  Decided-cases :
      (g : Decided E) → ((e : E) × (g ≡ failed e)) ⊎ ((ds : List Decision) × (g ≡ decided ds))
  Decided-cases (failed e) = inl (e, refl)
  Decided-cases (decided ds) = inr (ds, refl)

  -- How a request gets to the next handler: rate limiting is off and nothing is done, or decisions
  -- are found for it and all pass.
  abbrev pub GetsThrough :
      Matchers → RateLimitConfig → Option (Dynamic E) → Request → S → S → Type 0
  GetsThrough x c provider r s t =
      ((c.enabled ≡ false) × (s ≡ t))
      ⊎ ((c.enabled ≡ true)
          × ((ds : List Decision) × (get_decisions x c provider r ≡ decided ds)
              × Passes limiter ds s t))

  module _ (x : Matchers) (c : RateLimitConfig) (provider : Option (Dynamic E)) (r : Request)
      (s t : S) where
    middleware-GetsThrough :
        middleware limiter x c provider r s ≡ (t, next_called) → GetsThrough x c provider r s t
    unfolding middleware
    middleware-GetsThrough e = elim (Bool-cases c.enabled) [
      | inl on ↦ elim (Decided-cases (get_decisions x c provider r)) [
        | inl (err, bad) ↦ absurd (ground arith)
        | inr (ds, found) ↦ inr (on, (ds, found, answer-Passes ds s t (ground arith)))
      ]
      | inr off ↦ inl (off, ground arith)
    ]

    GetsThrough-middleware :
        GetsThrough x c provider r s t → middleware limiter x c provider r s ≡ (t, next_called)
    unfolding middleware
    GetsThrough-middleware (inl (off, same)) = ground arith
    GetsThrough-middleware (inr (on, (ds, found, p))) = ground (arith, Passes-answer p)

    -- The middleware calls the next handler, and leaves the limiters in the state `t`, exactly when
    -- rate limiting is off and nothing was done, or the request's decisions were found and each, in
    -- order, was allowed by the limiter of its strategy, on the way from the state `s` to `t`.
    pub middleware-next_called_iff :
        (middleware limiter x c provider r s ≡ (t, next_called)) ↔ GetsThrough x c provider r s t
    middleware-next_called_iff = (middleware-GetsThrough, GetsThrough-middleware)

-- A decision that can be carried out: it has a rule and a key.
abbrev pub IsCarriable : Decision → Type 0
IsCarriable d = (d.rule ≢ none) × (d.key ≢ "")

append_ne : (p q : String) → p ≢ "" → p ^ q ≢ ""
append_ne p q h e = h (append-eq-nil_iff.0 e).0

generate_key-ne : (r : Request) (scope : Scope) → generate_key r scope ≢ ""
unfolding generate_key
generate_key-ne r global = ground (arith, eq_iff "global" "")
generate_key-ne r per_ip = append_ne "ip:" r.client_ip (ground (arith, eq_iff "ip:" ""))
generate_key-ne r per_user = append_ne "user:" r.user_id (ground (arith, eq_iff "user:" ""))
generate_key-ne r per_route =
    append_ne "route:" (r.method ^ ":" ^ r.path) (ground (arith, eq_iff "route:" ""))
generate_key-ne r unknown = ground (arith, eq_iff "global" "")

-- Whatever decisions a dynamic provider gives, those that are carried out have a rule and a key that
-- is not empty.
pub normalize_decisions-IsCarriable :
    (c : RateLimitConfig) (r : Request) (ds : List Decision)
    → All IsCarriable (normalize_decisions c r ds)
unfolding normalize_decisions
normalize_decisions-IsCarriable c r [] = tt
normalize_decisions-IsCarriable c r (d ∷ ds) =
    let rest = normalize_decisions-IsCarriable c r ds in
    elim (Option-cases d.rule) [
      | inl nil ↦ ground (arith, rest)
      | inr (rule, has) ↦ ground (arith, rest, eq_iff d.key "", generate_key-ne r c.default_scope)
    ]
