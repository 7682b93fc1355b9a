-- ===== src/Decision/Router/Outcome.antt =====
-- When the router decides, and when it gives up.
use momu_llmgateway.Base.{
  String, none, some, List, [], ◌∷◌, ◌==◌, eq_iff, All, ◌≡◌, ◌≢◌, ◌↔◌, ◌⊎◌, inl, inr, refl, sym,
  ◌∙◌, arith, Bool-cases, Option-cases,
}
use mathlib.Core.Bool.{false≢true}
use momu_llmgateway.Base.Text.{split_slash}
use momu_llmgateway.Decision.Balancer.{Num, ProviderCandidate, Balancer}
use momu_llmgateway.Decision.Router.{
  RouteDecision, Router, Resolved, ◌or_else◌, resolve_provided, candidates_of, try_model, decide,
  resolve_with_balancer, resolve_model_list, proposed, try_strategies, route,
}
use momu_llmgateway.Model.{
  StandardRequest, Provider, Result, ok, err, model_error, new_error, err_code_model_not_found,
}

module _ {N W : Type 0} (num : Num N) (r : Router N W) where
  -- No provider offers any of the models.
  abbrev pub Unserved : List String → Type 0
  Unserved ms = All (λ m. r.model_providers m ≡ []) ms

  resolve_with_balancer_some :
      (p : Provider W) (ps : List (Provider W)) (model strategy : String) (b : Balancer N)
      → (resolve_with_balancer num r (p ∷ ps) model strategy b).1 ≢ none
  unfolding resolve_with_balancer
  resolve_with_balancer_some p ps model strategy b = ground arith

  or_else-eq-none_iff :
      (x : Resolved num r) (f : Balancer N → Resolved num r)
      → ((◌or_else◌ num r x f).1 ≡ none) ↔ ((x.1 ≡ none) × ((f x.0).1 ≡ none))
  or_else-eq-none_iff (b, some dec) f = ground arith
  or_else-eq-none_iff (b, none) f = ((λ h. (refl, h)), (λ h. h.1))

  resolve_provided-eq-none_iff :
      (providers : List (Provider W)) (model strategy : String) (b : Balancer N)
      → ((resolve_provided num r providers model strategy b).1 ≡ none) ↔ (providers ≡ [])
  resolve_provided-eq-none_iff [] model strategy b = ((λ _. refl), (λ _. refl))
  resolve_provided-eq-none_iff (p ∷ ps) model strategy b =
      ((λ h. absurd (resolve_with_balancer_some p ps model strategy b h)), (λ h. cc))

  resolve_model_list-eq-none_iff :
      (ms : List String) (strategy : String) (b : Balancer N)
      → ((resolve_model_list num r ms strategy b).1 ≡ none) ↔ Unserved ms
  unfolding resolve_model_list
  resolve_model_list-eq-none_iff [] strategy b = ((λ _. tt), (λ _. refl))
  resolve_model_list-eq-none_iff (m ∷ ms) strategy b =
      let here = resolve_provided num r (r.model_providers m) m strategy b in
      let (to, from) = or_else-eq-none_iff here (resolve_model_list num r ms strategy) in
      let (first, first') = resolve_provided-eq-none_iff (r.model_providers m) m strategy b in
      let (later, later') = resolve_model_list-eq-none_iff ms strategy here.0 in
      ((λ h. (first (to h).0, later (to h).1)), (λ u. from (first' u.0, later' u.1)))

  try_strategies-eq-none_iff :
      (strategies : List String) (req : StandardRequest) (b : Balancer N)
      → ((try_strategies num r strategies req b).1 ≡ none)
        ↔ All (λ s. Unserved (proposed num r s req)) strategies
  unfolding try_strategies
  try_strategies-eq-none_iff [] req b = ((λ _. tt), (λ _. refl))
  try_strategies-eq-none_iff (s ∷ strategies) req b =
      let here = resolve_model_list num r (proposed num r s req) s b in
      let (to, from) = or_else-eq-none_iff here (try_strategies num r strategies req) in
      let (first, first') = resolve_model_list-eq-none_iff (proposed num r s req) s b in
      let (later, later') = try_strategies-eq-none_iff strategies req here.0 in
      ((λ h. (first (to h).0, later (to h).1)), (λ u. from (first' u.0, later' u.1)))

  -- `buildCandidates` makes no candidate out of no provider.
  abbrev pub BuildsFromProviders : Type 0
  BuildsFromProviders =
      (build : List (Provider W) → String → List (ProviderCandidate N)) (model : String)
      → r.build_candidates ≡ some build
      → build [] model ≡ []

  candidates_of-nil :
      (model : String)
      → BuildsFromProviders
      → candidates_of num r r.has_balancer r.build_candidates [] model ≡ []
  candidates_of-nil model h = elim (Option-cases r.build_candidates) [
    | inl e ↦ ground arith
    | inr (build, e) ↦ ground (arith, h build model e)
  ]

  resolve_with_balancer-eq-none_iff :
      (providers : List (Provider W)) (model strategy : String) (b : Balancer N)
      → BuildsFromProviders
      → ((resolve_with_balancer num r providers model strategy b).1 ≡ none) ↔ (providers ≡ [])
  resolve_with_balancer-eq-none_iff [] model strategy b h =
      ((λ _. refl), (λ _. unfold resolve_with_balancer in rw (candidates_of-nil model h) refl))
  resolve_with_balancer-eq-none_iff (p ∷ ps) model strategy b h =
      ((λ e. absurd (resolve_with_balancer_some p ps model strategy b e)), (λ e. cc))

  try_model-eq-none_iff :
      (req : StandardRequest) (b : Balancer N)
      → BuildsFromProviders
      → ((try_model num r req b).1 ≡ none) ↔ ((req.model ≡ "") ⊎ (r.model_providers req.model ≡ []))
  try_model-eq-none_iff req b h =
      let (to, from) =
        resolve_with_balancer-eq-none_iff (r.model_providers req.model) req.model "default" b h in
      elim (Bool-cases (req.model == "")) [
        | inl e ↦ ((λ _. inl ((eq_iff _ _).0 e)), (λ _. rw e refl))
        | inr e ↦ (
          (λ n. inr (to (rw e at n))),
          elim [ inl m ↦ absurd (false≢true (sym e ∙ (eq_iff _ _).1 m)) | inr n ↦ rw e (from n) ],
        )
      ]

  abbrev pub not_found : Result RouteDecision
  not_found = err (model_error (new_error err_code_model_not_found "no route matched"))

  decide-eq-not_found_iff : (x : Resolved num r) → ((decide num r x).1 ≡ not_found) ↔ (x.1 ≡ none)
  decide-eq-not_found_iff (b, some dec) = ground arith
  decide-eq-not_found_iff (b, none) = ((λ _. refl), (λ _. refl))

  -- If `buildCandidates` makes no candidate out of no provider, then for a request whose model names no
  -- provider, the router fails exactly if no provider offers any
  -- of the models that its strategies propose, nor any of the default cascade, and the request names
  -- no model or one that no provider offers; the error is then `model_not_found`.
  pub route-eq-not_found_iff :
      (req : StandardRequest) (b : Balancer N)
      → BuildsFromProviders
      → split_slash req.model ≡ none
      → ((route num r req b).1 ≡ not_found) ↔ (
          All (λ s. Unserved (proposed num r s req)) r.strategies
          × Unserved r.default_cascade
          × ((req.model ≡ "") ⊎ (r.model_providers req.model ≡ [])))
  unfolding route
  route-eq-not_found_iff req b h plain =
      let first = try_strategies num r r.strategies req b in
      let second = resolve_model_list num r r.default_cascade "default" first.0 in
      let (to, from) = or_else-eq-none_iff first _ in
      let (to', from') = or_else-eq-none_iff second (try_model num r req) in
      let (a, a') = try_strategies-eq-none_iff r.strategies req b in
      let (c, c') = resolve_model_list-eq-none_iff r.default_cascade "default" first.0 in
      let (d, d') = try_model-eq-none_iff req second.0 h in
      let (e, e') = decide-eq-not_found_iff _ in
      rw plain (
        (λ n. let n' = to (e n) in let n'' = to' n'.1 in (a n'.0, c n''.0, d n''.1)),
        (λ u. e' (from (a' u.0, from' (c' u.1, d' u.2)))),
      )

  -- A model of the form `provider/model` is routed to that provider and model as they stand, and the
  -- balancer is left alone, whatever the configuration.
  pub route-explicit :
      (req : StandardRequest) (b : Balancer N) (provider model : String)
      → split_slash req.model ≡ some (provider, model)
      → route num r req b
        ≡ (b, ok (record { provider_name = provider; model = model; strategy = "explicit" }))
  unfolding route
  route-explicit req b provider model h = rw h refl
