-- ===== src/RateLimit/Decisions.antt =====
-- middleware/ratelimit.go and middleware/dynamic.go: from a request to its decisions, and from the
-- decisions to the answer.
pub mod Laws
use go_rpc_gateway.Prelude.{
  Bool, true, false, Option, none, some, List, [], ◌∷◌, String, str_eq, if◌then◌else◌,
}
use go_rpc_gateway.RateLimit.Config.{
  LimitRule, Strategy, sliding_window, fixed_window, token_bucket, unset, unknown, RateLimitConfig,
  Request,
}
use go_rpc_gateway.RateLimit.Rules.{Matchers, generate_key, get_rule_and_key}

pub record Decision : Type 0 where
  pub rule : Option LimitRule
  pub key : String
  pub strategy : Strategy

-- What a dynamic provider gives: an application error, no result, or a result.
pub data Dynamic (E : Type 0) : Type 0 where
  app_error : E → Dynamic E
  no_result : Dynamic E
  result : (skip : Bool) → List Decision → Dynamic E

-- What `getDecisions` gives: an application error, or decisions.
pub data Decided (E : Type 0) : Type 0 where
  failed : E → Decided E
  decided : List Decision → Decided E

abbrev or_default : Strategy → Strategy → Strategy
or_default unset default = default
or_default s default = s

normalize : RateLimitConfig → Request → Decision → Decision
normalize c r d = record d {
  key = if str_eq d.key "" then generate_key r c.default_scope else d.key;
  strategy = or_default d.strategy c.strategy;
}

unfoldable pub normalize_decisions : RateLimitConfig → Request → List Decision → List Decision
unfolding normalize
normalize_decisions c r [] = []
normalize_decisions c r (d ∷ ds) =
    let rest = normalize_decisions c r ds in
    elim d.rule [ some rule ↦ normalize c r d ∷ rest | none ↦ rest ]

module _ {E : Type 0} (x : Matchers) where
  static_decisions : RateLimitConfig → Request → Decided E
  static_decisions c r =
      let (rule, key) = get_rule_and_key x c r in
      elim rule [
        | some limit ↦ decided (record { rule = some limit; key = key; strategy = c.strategy } ∷ [])
        | none ↦ decided []
      ]

  dynamic_decisions : RateLimitConfig → Request → Dynamic E → Decided E
  unfolding static_decisions
  dynamic_decisions c r (app_error e) = failed e
  dynamic_decisions c r no_result = static_decisions c r
  dynamic_decisions c r (result true ds) = decided []
  dynamic_decisions c r (result false []) = static_decisions c r
  dynamic_decisions c r (result false (d ∷ ds)) = decided (normalize_decisions c r (d ∷ ds))

  -- `provider` is what the dynamic provider answers, if there is one.
  unfoldable pub get_decisions : RateLimitConfig → Option (Dynamic E) → Request → Decided E
  unfolding dynamic_decisions static_decisions
  get_decisions c provider r = elim provider [
    | some answer ↦ dynamic_decisions c r answer
    | none ↦ static_decisions c r
  ]

-- What a limiter answers: allowed or not, or an error.
pub data Reply : Type 0 where
  allowed denied broken : Reply

-- How the middleware ends: it calls the next handler, or it writes an error.
pub data Outcome (E : Type 0) : Type 0 where
  next_called too_many internal_error : Outcome E
  refused : E → Outcome E

-- `S` is the state of all limiters. `limiter` is `getLimiter`: none is a nil limiter.
module _ {S E : Type 0}
    (limiter : Strategy → Option (String → Option LimitRule → S → S × Reply)) where
  unfoldable pub allow_requests : List Decision → S → S × Outcome E
  allow_requests [] s = (s, next_called)
  allow_requests (d ∷ ds) s = elim (limiter d.strategy) [
    | none ↦ (s, internal_error)
    | some allow ↦
        (let s' = (allow d.key d.rule s).0 in
          let rest = allow_requests ds s' in
          elim (allow d.key d.rule s).1 [
            | allowed ↦ rest
            | denied ↦ (s', too_many)
            | broken ↦ (s', internal_error)
          ])
  ]

  -- `Middleware`
  unfoldable pub middleware :
      Matchers → RateLimitConfig → Option (Dynamic E) → Request → S → S × Outcome E
  middleware x c provider r s =
      if c.enabled
      then (elim (get_decisions x c provider r) [
        | failed e ↦ (s, refused e)
        | decided ds ↦ allow_requests ds s
      ])
      else (s, next_called)
