-- ===== src/Wiring/Providers.antt =====
-- The registry that `main` fills.
use momu_llmgateway.Base.{
  String, false, Bool-cases, Option, none, some, List, [], ◌∷◌, ◌++◌, map, ◌==◌, eq_iff, Any, ◌≡◌,
  ◌≢◌, ◌⊎◌, inl, inr, refl, sym, ◌∙◌, ap, arith, subst, if◌then◌else◌,
}
use momu_llmgateway.Base.Dict.{is_among}
use momu_llmgateway.Base.Int.{ℤ}
use momu_llmgateway.Config.{ProviderConfig}
use momu_llmgateway.Egress.Anthropic.{AnthropicJson}
use momu_llmgateway.Egress.Http.{HttpClient}
use momu_llmgateway.Egress.OpenAi.{OpenAiJson}
use momu_llmgateway.Egress.Registry.{Registry, register, new_registry, providers_for_model}
use momu_llmgateway.Egress.Registry.Contents.{
  register_all, offers, offering, last_named, providers_for_model-register_all,
  provider_by_name-register_all,
}
use momu_llmgateway.Model.{Provider}
use momu_llmgateway.Wiring.{new_provider, register_providers, registry_of, provider_lookup}
use momu_llmgateway.Wiring.Models.{NoRepeat, IsConfigured}

-- The names of the map's entries.
abbrev pub names : List (String × ProviderConfig) → List String
names pcs = map (λ pc. pc.0) pcs

Any-append : {A : Type 0} (P : A → Type 0) (xs ys : List A) → Any P (xs ++ ys) → Any P xs ⊎ Any P ys
Any-append P [] ys h = inr h
Any-append P (x ∷ xs) ys (inl h) = inl (inl h)
Any-append P (x ∷ xs) ys (inr h) = elim (Any-append P xs ys h) [
  | inl k ↦ inl (inr k)
  | inr k ↦ inr k
]

append-nil_left : {A : Type 0} (xs ys : List A) → xs ++ ys ≡ [] → xs ≡ []
append-nil_left [] ys e = refl
append-nil_left (x ∷ xs) ys e = cc

append-nil_right : {A : Type 0} (xs ys : List A) → xs ++ ys ≡ [] → ys ≡ []
append-nil_right [] ys e = e
append-nil_right (x ∷ xs) ys e = cc

module _ {W : Type 0} where
  -- A provider of that name that offers the model.
  abbrev pub IsProviding : String → String → Provider W → Type 0
  IsProviding name model p = (p.name ≡ name) × Any (λ m. m ≡ model) p.models

  offers-Any :
      (name model : String) (p : Provider W) (ms : List String)
      → Any (λ q. q.name ≡ name) (offers model p ms)
      → (p.name ≡ name) × Any (λ m. m ≡ model) ms
  offers-Any name model p [] h = absurd h
  offers-Any name model p (m ∷ ms) h = elim (Bool-cases (m == model)) [
    | inl here ↦ elim (rw here at h) [
      | inl named ↦ (named, inl ((eq_iff m model).0 here))
      | inr later ↦ let (named, k) = offers-Any name model p ms later in (named, inr k)
    ]
    | inr other ↦ let (named, k) = offers-Any name model p ms (rw other at h) in (named, inr k)
  ]

  offering-IsProviding :
      (name model : String) (ps : List (Provider W))
      → Any (λ q. q.name ≡ name) (offering model ps)
      → Any (IsProviding name model) ps
  offering-IsProviding name model [] h = absurd h
  offering-IsProviding name model (p ∷ ps) h =
      elim (Any-append (λ q. q.name ≡ name) (offers model p p.models) (offering model ps) h) [
        | inl here ↦ inl (offers-Any name model p p.models here)
        | inr later ↦ inr (offering-IsProviding name model ps later)
      ]

  last_named-absent :
      (name : String) (found : Option (Provider W)) (ps : List (Provider W))
      → is_among name (map (λ p. p.name) ps) ≡ false
      → last_named name found ps ≡ found
  last_named-absent name found [] e = refl
  last_named-absent name found (p ∷ ps) e =
      let (other, rest) : ((p.name == name) ≡ false)
          × (is_among name (map (λ q. q.name) ps) ≡ false) =
        ground (arith, e) in
      last_named-absent name (if p.name == name then some p else found) ps rest ∙ rw other refl

  last_named-IsProviding :
      (name model : String) (found : Option (Provider W)) (ps : List (Provider W))
      → NoRepeat (map (λ p. p.name) ps)
      → Any (IsProviding name model) ps
      → (p : Provider W) × ((last_named name found ps ≡ some p) × IsProviding name model p)
  last_named-IsProviding name model found [] d h = absurd h
  last_named-IsProviding name model found (p ∷ ps) (new, d) (inl (named, k)) = (
    p,
    (
      last_named-absent name (if p.name == name then some p else found) ps
            (subst (λ n. is_among n (map (λ q. q.name) ps) ≡ false) named new)
          ∙ rw ((eq_iff p.name name).1 named) refl,
      (named, k),
    ),
  )
  last_named-IsProviding name model found (p ∷ ps) (new, d) (inr later) =
      last_named-IsProviding name model (if p.name == name then some p else found) ps d later

module _ {W : Type 0} (anthropic : AnthropicJson) (open_ai : OpenAiJson)
    (http : ℤ → HttpClient W) where
  abbrev made : String → ProviderConfig → Provider W
  made name pc = new_provider anthropic open_ai http name pc

  -- The providers in the order of their registration.
  abbrev pub providers_of : List (String × ProviderConfig) → List (Provider W)
  providers_of pcs = map (λ pc. made pc.0 pc.1) pcs

  new_provider-fields :
      (name : String) (pc : ProviderConfig)
      → ((made name pc).name ≡ name) × ((made name pc).models ≡ pc.models)
  unfolding new_provider
  new_provider-fields name pc = elim (Bool-cases (pc.kind == "anthropic")) [
    | inl a ↦ rw a (refl, refl)
    | inr o ↦ rw o (refl, refl)
  ]

  names-providers_of :
      (pcs : List (String × ProviderConfig)) → map (λ p. p.name) (providers_of pcs) ≡ names pcs
  names-providers_of [] = refl
  names-providers_of ((name, pc) ∷ pcs) =
      rw ((new_provider-fields name pc).0, names-providers_of pcs) refl

  register_providers-eq-register_all :
      (pcs : List (String × ProviderConfig)) (r : Registry W)
      → register_providers anthropic open_ai http pcs r ≡ register_all (providers_of pcs) r
  unfolding register_providers register_all
  register_providers-eq-register_all [] r = refl
  register_providers-eq-register_all ((name, pc) ∷ pcs) r =
      register_providers-eq-register_all pcs (register (made name pc) r)

  pub registered :
      (pcs : List (String × ProviderConfig)) (model : String)
      → providers_for_model model (registry_of anthropic open_ai http pcs)
        ≡ offering model (providers_of pcs)
  unfolding registry_of
  registered pcs model =
      ap (λ r. providers_for_model model r)
        (register_providers-eq-register_all pcs (new_registry W))
      ∙ providers_for_model-register_all model (providers_of pcs)

  -- What is found under the name of a provider that a model has.
  pub provider_lookup-IsProviding :
      (pcs : List (String × ProviderConfig)) (name model : String)
      → NoRepeat (names pcs)
      → Any
          (λ p. p.name ≡ name)
          (providers_for_model model (registry_of anthropic open_ai http pcs))
      → (p : Provider W) × ((provider_lookup anthropic open_ai http pcs name ≡ some p)
          × IsProviding name model p)
  unfolding provider_lookup registry_of
  provider_lookup-IsProviding pcs name model d h =
      let (p, (found, q)) =
        last_named-IsProviding name model none (providers_of pcs)
          (subst NoRepeat (sym (names-providers_of pcs)) d)
          (offering-IsProviding name model (providers_of pcs)
            (subst (λ l. Any (λ q. q.name ≡ name) l) (registered pcs model) h)) in
      (
        p,
        (
          rw (register_providers-eq-register_all pcs (new_registry W))
                (provider_by_name-register_all name (providers_of pcs))
              ∙ found,
          q,
        ),
      )

  offers-some :
      (model : String) (p : Provider W) (ms : List String)
      → Any (λ m. m ≡ model) ms
      → offers model p ms ≢ []
  offers-some model p [] h e = h
  offers-some model p (m ∷ ms) (inl same) e = cc (rw ((eq_iff m model).1 same) at e)
  offers-some model p (m ∷ ms) (inr later) e = elim (Bool-cases (m == model)) [
    | inl here ↦ cc (rw here at e)
    | inr other ↦ offers-some model p ms later (rw other at e)
  ]

  pub offering-some :
      (pcs : List (String × ProviderConfig)) (model : String)
      → IsConfigured pcs model
      → offering model (providers_of pcs) ≢ []
  offering-some [] model h e = h
  offering-some ((name, pc) ∷ pcs) model (inl here) e =
      offers-some model (made name pc) (made name pc).models
        (subst (λ ms. Any (λ m. m ≡ model) ms) (sym (new_provider-fields name pc).1) here)
        (append-nil_left (offers model (made name pc) (made name pc).models)
          (offering model (providers_of pcs)) e)
  offering-some ((name, pc) ∷ pcs) model (inr later) e = offering-some pcs model later (
      append-nil_right (offers model (made name pc) (made name pc).models)
        (offering model (providers_of pcs)) e)
