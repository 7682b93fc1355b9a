-- ===== src/Decision/Router/Soundness.antt =====
-- What a decision of the router promises.
use momu_llmgateway.Base.{
  String, Bool, true, false, Option, none, some, List, [], ◌∷◌, ◌==◌, All, Any, ◌≡◌, inl, inr, refl,
  sym, subst, Bool-cases,
}
use momu_llmgateway.Base.Text.{split_slash}
use momu_llmgateway.Decision.Balancer.{Num, ProviderCandidate, Balancer, select}
use momu_llmgateway.Decision.Balancer.Membership.{select-All}
use momu_llmgateway.Decision.Router.{
  RouteDecision, Router, Resolved, ◌or_else◌, resolve_provided, candidates_of, try_model, decide,
  first_provider, select_among, resolve_with_balancer, resolve_model_list, proposed, try_strategies,
  route,
}
use momu_llmgateway.Model.{StandardRequest, Provider, ok}

module _ {N W : Type 0} (num : Num N) (r : Router N W) where
  abbrev pub IsOffered : List (Provider W) → String → Type 0
  IsOffered providers name = Any (λ p. p.name ≡ name) providers

  -- `buildCandidates` names its candidates after the providers that it is given.
  abbrev pub BuildsNamed : Type 0
  BuildsNamed =
      (build : List (Provider W) → String → List (ProviderCandidate N))
      (providers : List (Provider W)) (model : String)
      → r.build_candidates ≡ some build
      → All (λ c. IsOffered providers c.provider_name) (build providers model)

  -- The decision is for a provider that offers its model.
  abbrev pub IsServed : RouteDecision → Type 0
  IsServed dec = IsOffered (r.model_providers dec.model) dec.provider_name

  candidates_of-IsOffered :
      (providers : List (Provider W)) (model : String)
      → BuildsNamed
      → All
          (λ c. IsOffered providers c.provider_name)
          (candidates_of num r r.has_balancer r.build_candidates providers model)
  candidates_of-IsOffered providers model h = go r.has_balancer r.build_candidates refl
    where
      go :
          (has : Bool) (build : Option (List (Provider W) → String → List (ProviderCandidate N)))
          → r.build_candidates ≡ build
          → All
              (λ c. IsOffered providers c.provider_name)
              (candidates_of num r has build providers model)
      go true (some build) e = h build providers model e
      go true none e = tt
      go false (some build) e = tt
      go false none e = tt

  -- A property of the decision, if there is one.
  abbrev pub Holds : (RouteDecision → Type 0) → Option RouteDecision → Type 0
  Holds P none = Unit
  Holds P (some dec) = P dec

  or_else-Holds :
      (P : RouteDecision → Type 0) (x : Resolved num r) (f : Balancer N → Resolved num r)
      → Holds P x.1
      → ((b : Balancer N) → Holds P (f b).1)
      → Holds P (◌or_else◌ num r x f).1
  or_else-Holds P (b, some dec) f h k = h
  or_else-Holds P (b, none) f h k = k b

  abbrev IsFor : List (Provider W) → String → RouteDecision → Type 0
  IsFor providers model dec = (dec.model ≡ model) × IsOffered providers dec.provider_name

  first_provider-IsFor :
      (providers : List (Provider W)) (model strategy : String) (b : Balancer N)
      → Holds (IsFor providers model) (first_provider num r providers model strategy b).1
  first_provider-IsFor [] model strategy b = tt
  first_provider-IsFor (p ∷ ps) model strategy b = (refl, inl refl)

  select_among-IsFor :
      (providers : List (Provider W)) (model strategy : String) (cs : List (ProviderCandidate N))
      (b : Balancer N)
      → All (λ c. IsOffered providers c.provider_name) cs
      → Holds (IsFor providers model) (select_among num r providers model strategy cs b).1
  select_among-IsFor providers model strategy [] b h =
      first_provider-IsFor providers model strategy b
  select_among-IsFor providers model strategy (c ∷ cs) b h =
      let (b', selected) = select num (c ∷ cs) b in
      elim (Bool-cases (selected.provider_name == "")) [
        | inl unnamed ↦ rw unnamed (first_provider-IsFor providers model strategy b')
        | inr named ↦
            rw named (refl, select-All num (λ c. IsOffered providers c.provider_name) c cs b h)
      ]

  resolve_with_balancer-IsFor :
      (providers : List (Provider W)) (model strategy : String) (b : Balancer N)
      → BuildsNamed
      → Holds (IsFor providers model) (resolve_with_balancer num r providers model strategy b).1
  unfolding resolve_with_balancer
  resolve_with_balancer-IsFor providers model strategy b h =
      select_among-IsFor providers model strategy _ b (candidates_of-IsOffered providers model h)

  IsFor-IsServed :
      (model : String) (o : Option RouteDecision)
      → Holds (IsFor (r.model_providers model) model) o
      → Holds IsServed o
  IsFor-IsServed model none h = tt
  IsFor-IsServed model (some dec) (same, h) =
      subst (λ m. IsOffered (r.model_providers m) dec.provider_name) (sym same) h

  resolve_model_list-IsServed :
      (ms : List String) (strategy : String) (b : Balancer N)
      → BuildsNamed
      → Holds IsServed (resolve_model_list num r ms strategy b).1
  unfolding resolve_model_list
  resolve_model_list-IsServed [] strategy b h = tt
  resolve_model_list-IsServed (m ∷ ms) strategy b h =
      or_else-Holds IsServed (resolve_provided num r (r.model_providers m) m strategy b) _
        (provided (r.model_providers m) refl) (λ b'. resolve_model_list-IsServed ms strategy b' h)
    where
      provided :
          (providers : List (Provider W))
          → r.model_providers m ≡ providers
          → Holds IsServed (resolve_provided num r providers m strategy b).1
      provided [] e = tt
      provided (p ∷ ps) e = IsFor-IsServed m _ (
          subst (λ l. Holds (IsFor l m) (resolve_with_balancer num r (p ∷ ps) m strategy b).1)
            (sym e) (resolve_with_balancer-IsFor (p ∷ ps) m strategy b h))

  try_strategies-IsServed :
      (strategies : List String) (req : StandardRequest) (b : Balancer N)
      → BuildsNamed
      → Holds IsServed (try_strategies num r strategies req b).1
  unfolding try_strategies
  try_strategies-IsServed [] req b h = tt
  try_strategies-IsServed (s ∷ strategies) req b h =
      or_else-Holds IsServed (resolve_model_list num r (proposed num r s req) s b) _
        (resolve_model_list-IsServed (proposed num r s req) s b h)
        (λ b'. try_strategies-IsServed strategies req b' h)

  try_model-IsServed :
      (req : StandardRequest) (b : Balancer N)
      → BuildsNamed
      → Holds IsServed (try_model num r req b).1
  try_model-IsServed req b h = elim (Bool-cases (req.model == "")) [
    | inl e ↦ rw e tt
    | inr e ↦ rw e (
        IsFor-IsServed req.model _
          (resolve_with_balancer-IsFor (r.model_providers req.model) req.model "default" b h))
  ]

  decide-IsServed :
      (x : Resolved num r) (dec : RouteDecision)
      → Holds IsServed x.1
      → (decide num r x).1 ≡ ok dec
      → IsServed dec
  decide-IsServed (b, some dec') dec h e = let same : dec' ≡ dec = cc in subst IsServed same h
  decide-IsServed (b, none) dec h e = cc

  -- A decision for a request whose model names no provider is for a provider that offers the model
  -- decided on, if `buildCandidates` names its candidates after the providers that it is given.
  pub route-IsServed :
      (req : StandardRequest) (b : Balancer N) (dec : RouteDecision)
      → BuildsNamed
      → split_slash req.model ≡ none
      → (route num r req b).1 ≡ ok dec
      → IsServed dec
  unfolding route
  route-IsServed req b dec h plain e =
      decide-IsServed _ dec
        (or_else-Holds IsServed (try_strategies num r r.strategies req b) _
          (try_strategies-IsServed r.strategies req b h)
          (λ b'.
            or_else-Holds IsServed (resolve_model_list num r r.default_cascade "default" b') _
              (resolve_model_list-IsServed r.default_cascade "default" b' h)
              (λ b''. try_model-IsServed req b'' h)))
        (rw plain at e)
