-- ===== src/Decision/Router.antt =====
-- internal/decision/router.go: the chain of routing strategies. The state is the balancer, which
-- `Select` changes; the rest of `Router` is read alone. `modelProviders` and `buildCandidates` are
-- the functions that `NewRouter` is handed; a pointer or function that may be nil is an Option.
pub mod Outcome
pub mod Soundness
use momu_llmgateway.Base.{
  ℕ, zero, suc, ◌+◌, ◌/◌, String, Bool, true, false, not, Option, none, some, List, [], ◌∷◌, ◌==◌,
  if◌then◌else◌, ltb,
}
use momu_llmgateway.Base.Text.{split_slash}
use momu_llmgateway.Decision.Balancer.{Num, ProviderCandidate, Balancer, select}
use momu_llmgateway.Decision.Capability.{
  CapabilityRouter, route_capability, CostRouter, cascade_for,
}
use momu_llmgateway.Model.{
  Message, StandardRequest, Provider, Result, ok, err, model_error, new_error,
  err_code_model_not_found,
}
use Prim.Native.String.{len}

pub record RouteDecision : Type 0 where
  pub provider_name : String
  pub model : String
  pub strategy : String

-- The semantic strategy is here a function from requests to models: `Semantic.route_semantic`.
pub record Router (N W : Type 0) : Type 0 where
  pub strategies : List String
  pub default_cascade : List String
  pub has_balancer : Bool
  pub semantic_router : Option (StandardRequest → List String)
  pub capability_router : Option CapabilityRouter
  pub cost_router : Option CostRouter
  pub model_providers : String → List (Provider W)
  pub build_candidates : Option (List (Provider W) → String → List (ProviderCandidate N))

-- `estimateInputTokens`: a quarter of the bytes.
unfoldable pub total_chars : List Message → ℕ
total_chars [] = 0
total_chars (m ∷ ms) = len m.content + total_chars ms

unfoldable pub estimate_input_tokens : List Message → ℕ
unfolding total_chars
estimate_input_tokens messages =
    let total = total_chars messages in if ltb 0 total then total / 4 else 0

module _ {N W : Type 0} (num : Num N) (r : Router N W) where
  -- A decision, or none, with the balancer after it.
  abbrev pub Resolved : Type 0
  Resolved = Balancer N × Option RouteDecision

  abbrev pub first_provider : List (Provider W) → String → String → Balancer N → Resolved
  first_provider [] model strategy b = (b, none)
  first_provider (p ∷ ps) model strategy b =
      (b, some (record { provider_name = p.name; model = model; strategy = strategy }))

  -- The selected candidate, if it names a provider.
  abbrev pub selected_or_first :
      List (Provider W) → String → String → Balancer N × ProviderCandidate N → Resolved
  selected_or_first providers model strategy (b, selected) =
      if selected.provider_name == "" then first_provider providers model strategy b else (
        b,
        some
            (record { provider_name = selected.provider_name; model = model; strategy = strategy }),
      )

  abbrev pub select_among :
      List (Provider W) → String → String → List (ProviderCandidate N) → Balancer N → Resolved
  select_among providers model strategy [] b = first_provider providers model strategy b
  select_among providers model strategy (c ∷ cs) b =
      selected_or_first providers model strategy (select num (c ∷ cs) b)

  abbrev pub candidates_of :
      Bool
      → Option (List (Provider W) → String → List (ProviderCandidate N))
      → List (Provider W)
      → String
      → List (ProviderCandidate N)
  candidates_of true (some build) providers model = build providers model
  candidates_of _ _ providers model = []

  -- `resolveWithBalancer`.
  unfoldable pub resolve_with_balancer : List (Provider W) → String → String → Balancer N → Resolved
  resolve_with_balancer providers model strategy b =
      select_among providers model strategy
        (candidates_of r.has_balancer r.build_candidates providers model) b

  abbrev pub resolve_provided : List (Provider W) → String → String → Balancer N → Resolved
  resolve_provided [] model strategy b = (b, none)
  resolve_provided (p ∷ ps) model strategy b = resolve_with_balancer (p ∷ ps) model strategy b

  -- A decision that was made, or else the rest of the search.
  infixr 20 ◌or_else◌
  abbrev pub ◌or_else◌ {ℓ} :
      {A : Type ℓ}
      → Balancer N × Option A
      → (Balancer N → Balancer N × Option A)
      → Balancer N × Option A
  (b, some dec) or_else next = (b, some dec)
  (b, none) or_else next = next b

  -- `resolveModelList`.
  unfoldable pub resolve_model_list : List String → String → Balancer N → Resolved
  unfolding resolve_with_balancer
  resolve_model_list [] strategy b = (b, none)
  resolve_model_list (m ∷ ms) strategy b =
      resolve_provided (r.model_providers m) m strategy b or_else resolve_model_list ms strategy

  abbrev pub or_default : List String → List String
  or_default [] = r.default_cascade
  or_default (m ∷ ms) = m ∷ ms

  abbrev pub semantic_models :
      Option (StandardRequest → List String) → StandardRequest → List String
  semantic_models none req = []
  semantic_models (some route) req = route req

  abbrev pub capability_models : Option CapabilityRouter → StandardRequest → List String
  capability_models none req = []
  capability_models (some cr) req = route_capability cr req (estimate_input_tokens req.messages)

  abbrev pub cost_models : Option CostRouter → StandardRequest → List String
  cost_models none req = []
  cost_models (some cr) req = or_default (cascade_for cr req.model)

  -- The models that a strategy proposes. A router that is nil proposes none, and a list of none
  -- resolves to nothing, as does a strategy that the switch does not name.
  unfoldable pub proposed : String → StandardRequest → List String
  proposed strategy req =
      if strategy == "explicit"
      then []
      else if strategy == "semantic"
      then semantic_models r.semantic_router req
      else if strategy == "capability"
      then capability_models r.capability_router req
      else if strategy == "cost_cascade"
      then cost_models r.cost_router req
      else []

  -- The loop over the strategies.
  unfoldable pub try_strategies : List String → StandardRequest → Balancer N → Resolved
  unfolding proposed resolve_model_list
  try_strategies [] req b = (b, none)
  try_strategies (strategy ∷ strategies) req b =
      resolve_model_list (proposed strategy req) strategy b or_else try_strategies strategies req

  abbrev pub try_model : StandardRequest → Balancer N → Resolved
  try_model req b =
      if req.model == ""
      then (b, none)
      else resolve_with_balancer (r.model_providers req.model) req.model "default" b

  abbrev pub decide : Resolved → Balancer N × Result RouteDecision
  decide (b, some dec) = (b, ok dec)
  decide (b, none) = (b, err (model_error (new_error err_code_model_not_found "no route matched")))

  abbrev pub route_split :
      Option (String × String) → StandardRequest → Balancer N → Balancer N × Result RouteDecision
  route_split (some (provider, model)) req b =
      (b, ok (record { provider_name = provider; model = model; strategy = "explicit" }))
  route_split none req b = decide (
      try_strategies r.strategies req b or_else λ b'.
      resolve_model_list r.default_cascade "default" b' or_else try_model req)

  -- `Route`.
  unfoldable pub route : StandardRequest → Balancer N → Balancer N × Result RouteDecision
  unfolding try_strategies resolve_model_list resolve_with_balancer
  route req b = route_split (split_slash req.model) req b
