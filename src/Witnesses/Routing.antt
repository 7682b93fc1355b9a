-- ===== src/Witnesses/Routing.antt =====
-- The router and the registry at concrete providers.
use momu_llmgateway.Base.{
  String, true, none, some, List, [], ◌∷◌, ◌==◌, All, Any, ◌≡◌, ◌↔◌, ◌⊎◌, inl, inr, refl, ap, sym,
  subst, if◌then◌else◌,
}
use momu_llmgateway.Base.Dict.{lookup}
use momu_llmgateway.Base.Int.{ℤ, ◌+ℤ◌, ◌*ℤ◌}
use momu_llmgateway.Base.Text.{split_slash}
use momu_llmgateway.Decision.Balancer.{
  ProviderCandidate, select, select_slot, resolve_slots, effective_weight,
}
use momu_llmgateway.Decision.Balancer.Rounds.{int_num}
use momu_llmgateway.Decision.Capability.{cascade_for}
use momu_llmgateway.Decision.Router.{Router, RouteDecision, proposed, route}
use momu_llmgateway.Decision.Router.Outcome.{
  Unserved, BuildsFromProviders, not_found, route-eq-not_found_iff,
}
use momu_llmgateway.Decision.Router.Soundness.{BuildsNamed, IsServed, IsOffered, route-IsServed}
use momu_llmgateway.Decision.Semantic.{CategoryPrototype, no_semantic_route, best_category}
use momu_llmgateway.Decision.Semantic.Choice.{IsOf, IsBeaten, best_category-IsBest}
use mathlib.Core.Option.{some-injective}
use momu_llmgateway.Model.{Provider, ok}
use momu_llmgateway.Witnesses.{World, test_ops, hello, provider_a, provider_b}
use momu_llmgateway.Witnesses.Balancing.{balancer, candidate}

abbrev candidates : List (Provider World) → String → List (ProviderCandidate ℤ)
candidates [] model = []
candidates (p ∷ ps) model = record (candidate p.name 1) { model = model } ∷ candidates ps model

-- `small` is offered by `b` and `a`, and costs are cascaded from `large` to `small`.
abbrev router : Router ℤ World
router = record {
  strategies = "cost_cascade" ∷ [];
  default_cascade = "large" ∷ "small" ∷ [];
  has_balancer = true;
  semantic_router = none;
  capability_router = none;
  cost_router = some (record { chains = [] });
  model_providers = λ model. if model == "small" then provider_b ∷ provider_a ∷ [] else [];
  build_candidates = some candidates;
}

candidates-BuildsFromProviders : BuildsFromProviders int_num router
candidates-BuildsFromProviders build model e =
    ap (λ f. f [] model) (sym (some-injective candidates build e))

candidates-IsOffered :
    (all ps : List (Provider World)) (model : String)
    → ((name : String) → IsOffered int_num router ps name → IsOffered int_num router all name)
    → All (λ c. IsOffered int_num router all c.provider_name) (candidates ps model)
candidates-IsOffered all [] model h = tt
candidates-IsOffered all (p ∷ ps) model h =
    (h p.name (inl refl), candidates-IsOffered all ps model (λ name o. h name (inr o)))

candidates-BuildsNamed : BuildsNamed int_num router
candidates-BuildsNamed build providers model e =
    subst (λ f. All (λ c. IsOffered int_num router providers c.provider_name) (f providers model))
      (some-injective candidates build e)
      (candidates-IsOffered providers providers model (λ name o. o))

plain_model : split_slash hello.model ≡ none
unfolding split_slash
plain_model = refl

route-eq-not_found_iff_example :
    ((route int_num router hello balancer).1 ≡ not_found int_num router) ↔ (
      All (λ s. Unserved int_num router (proposed int_num router s hello)) ("cost_cascade" ∷ [])
      × Unserved int_num router ("large" ∷ "small" ∷ [])
      × ((hello.model ≡ "") ⊎ (router.model_providers hello.model ≡ [])))
route-eq-not_found_iff_example =
    route-eq-not_found_iff int_num router hello balancer candidates-BuildsFromProviders plain_model

abbrev decision : RouteDecision
decision = record { provider_name = "b"; model = "small"; strategy = "cost_cascade" }

first_route : (route int_num router hello balancer).1 ≡ ok decision
unfolding route split_slash cascade_for lookup select select_slot resolve_slots ◌+ℤ◌
    effective_weight ◌*ℤ◌
first_route = refl

route-IsServed_example : IsServed int_num router decision
route-IsServed_example =
    route-IsServed int_num router hello balancer decision candidates-BuildsNamed plain_model
      first_route

abbrev prototypes : List CategoryPrototype
prototypes =
    record { name = "code"; target_models = "large" ∷ []; vector = 4607182418800017408 ∷ [] }
    ∷ record { name = "chat"; target_models = "small" ∷ []; vector = [] }
    ∷ []

best_category-IsBest_example :
    let best = best_category test_ops (4607182418800017408 ∷ []) 0 prototypes no_semantic_route in
    ((best ≡ no_semantic_route) ⊎ Any (IsOf test_ops (4607182418800017408 ∷ []) 0 best) prototypes)
    × All (IsBeaten test_ops (4607182418800017408 ∷ []) 0 best.confidence) prototypes
best_category-IsBest_example = best_category-IsBest test_ops (4607182418800017408 ∷ []) 0 prototypes
