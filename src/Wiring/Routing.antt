-- ===== src/Wiring/Routing.antt =====
-- The router, the registry and the look-up of providers as `main` puts them together.
use momu_llmgateway.Base.{
  String, Option, none, some, List, [], ◌∷◌, All, Any, ◌≡◌, ◌≢◌, ◌⊎◌, inl, inr, refl, sym, ◌∙◌, ap,
  subst,
}
use momu_llmgateway.Base.Int.{ℤ}
use momu_llmgateway.Base.Text.{split_slash}
use momu_llmgateway.Config.{Config, ProviderConfig}
use momu_llmgateway.Decision.Balancer.{Num, Balancer}
use momu_llmgateway.Decision.Router.{Router, RouteDecision, Resolved, decide, route}
use momu_llmgateway.Decision.Router.Outcome.{not_found, BuildsFromProviders, route-eq-not_found_iff}
use momu_llmgateway.Decision.Router.Soundness.{BuildsNamed, route-IsServed}
use momu_llmgateway.Egress.Anthropic.{AnthropicJson}
use momu_llmgateway.Egress.Http.{HttpClient}
use momu_llmgateway.Egress.OpenAi.{OpenAiJson}
use momu_llmgateway.Model.{StandardRequest, Provider, ok}
use momu_llmgateway.Wiring.{build_candidates, router_of, provider_lookup}
use momu_llmgateway.Wiring.Models.{NoRepeat, IsConfigured}
use momu_llmgateway.Wiring.Providers.{
  names, IsProviding, registered, provider_lookup-IsProviding, offering-some,
}
use mathlib.Core.Option.{some-injective}

-- A router decides or finds no route.
pub route-cases :
    {N W : Type 0} (num : Num N) (r : Router N W) (req : StandardRequest) (b : Balancer N)
    → split_slash req.model ≡ none
    → ((route num r req b).1 ≡ not_found num r)
      ⊎ ((dec : RouteDecision) × ((route num r req b).1 ≡ ok dec))
unfolding route
route-cases num r req b plain = rw plain (decided _)
  where
    decided :
        (x : Resolved num r)
        → ((decide num r x).1 ≡ not_found num r)
          ⊎ ((dec : RouteDecision) × ((decide num r x).1 ≡ ok dec))
    decided (b, some dec) = inr (dec, refl)
    decided (b, none) = inl refl

module _ {N W : Type 0} (anthropic : AnthropicJson) (open_ai : OpenAiJson) (http : ℤ → HttpClient W)
    (num : Num N) (pcs : List (String × ProviderConfig)) (cfg : Config)
    (semantic : Option (StandardRequest → List String)) where
  abbrev pub router : Router N W
  router = router_of anthropic open_ai http num pcs cfg semantic

  build_candidates-offered :
      (all ps : List (Provider W)) (model : String)
      → ((name : String) → Any (λ p. p.name ≡ name) ps → Any (λ p. p.name ≡ name) all)
      → All
          (λ c. Any (λ p. p.name ≡ c.provider_name) all)
          (build_candidates anthropic open_ai http num pcs ps model)
  unfolding build_candidates
  build_candidates-offered all [] model h = tt
  build_candidates-offered all (p ∷ ps) model h =
      (h p.name (inl refl), build_candidates-offered all ps model (λ name o. h name (inr o)))

  router_of-BuildsNamed : BuildsNamed num router
  unfolding router_of
  router_of-BuildsNamed build ps model e =
      subst (λ f. All (λ c. Any (λ p. p.name ≡ c.provider_name) ps) (f ps model))
        (some-injective (build_candidates anthropic open_ai http num pcs) build e)
        (build_candidates-offered ps ps model (λ name o. o))

  router_of-BuildsFromProviders : BuildsFromProviders num router
  unfolding router_of
  router_of-BuildsFromProviders build model e =
      ap (λ f. f [] model)
        (sym (some-injective (build_candidates anthropic open_ai http num pcs) build e))
      ∙ (unfold build_candidates in refl)

  -- For a request with a model that names no provider and that some provider is configured with, where
  -- the names of the providers differ: the router decides, and under the name that it decides on there
  -- is a provider of that name that is configured with the model decided on.
  pub route-IsProviding :
      (req : StandardRequest) (b : Balancer N)
      → NoRepeat (names pcs)
      → split_slash req.model ≡ none
      → req.model ≢ ""
      → IsConfigured pcs req.model
      → (dec : RouteDecision) × (((route num router req b).1 ≡ ok dec)
          × ((p : Provider W) × ((provider_lookup anthropic open_ai http pcs dec.provider_name
                  ≡ some p)
                × IsProviding dec.provider_name dec.model p)))
  unfolding router_of
  route-IsProviding req b distinct plain named configured =
      elim (route-cases num router req b plain) [
        | inl lost ↦
            let (strategies, cascade, own) =
              (route-eq-not_found_iff num router req b router_of-BuildsFromProviders plain).0
                lost in
            elim own [
              | inl unnamed ↦ absurd (named unnamed)
              | inr unserved ↦ absurd (
                  offering-some anthropic open_ai http pcs req.model configured
                    (sym (registered anthropic open_ai http pcs req.model) ∙ unserved))
            ]
        | inr (dec, decided) ↦ (
          dec,
          (
            decided,
            provider_lookup-IsProviding anthropic open_ai http pcs dec.provider_name dec.model
                distinct (route-IsServed num router req b dec router_of-BuildsNamed plain decided),
          ),
        )
      ]
