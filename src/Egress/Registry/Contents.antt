-- ===== src/Egress/Registry/Contents.antt =====
-- What the registry's two maps hold after a list of providers was registered.
use momu_llmgateway.Base.{
  String, Option, none, some, List, [], ◌∷◌, ◌++◌, ◌==◌, eq_iff, ◌≡◌, refl, sym, ap, ◌∙◌,
  if◌then◌else◌, Bool-cases, inl, inr,
}
use momu_llmgateway.Base.Dict.{lookup, insert, get, lookup-insert}
use momu_llmgateway.Model.{Provider}
use momu_llmgateway.Egress.Registry.{
  Registry, new_registry, register, add_models, providers_for_model, provider_by_name,
}
use mathlib.Core.List.{append-nil, append_assoc}

module _ {W : Type 0} where
  -- Register the providers of a list, the first one first.
  unfoldable pub register_all : List (Provider W) → Registry W → Registry W
  register_all [] r = r
  register_all (p ∷ ps) r = register_all ps (register p r)

  -- The provider, as often as it names the model.
  abbrev pub offers : String → Provider W → List String → List (Provider W)
  offers model p [] = []
  offers model p (m ∷ ms) = if m == model then p ∷ offers model p ms else offers model p ms

  abbrev pub offering : String → List (Provider W) → List (Provider W)
  offering model [] = []
  offering model (p ∷ ps) = offers model p p.models ++ offering model ps

  -- The last provider of that name, or else the one given.
  abbrev pub last_named : String → Option (Provider W) → List (Provider W) → Option (Provider W)
  last_named name found [] = found
  last_named name found (p ∷ ps) = last_named name (if p.name == name then some p else found) ps

  lookup-add_models :
      (model : String) (p : Provider W) (ms : List String) (d : List (String × List (Provider W)))
      → get (lookup model (add_models p ms d)) ≡ get (lookup model d) ++ offers model p ms
  unfolding add_models
  lookup-add_models model p [] d = sym (append-nil _)
  lookup-add_models model p (m ∷ ms) d =
      let old = get (lookup m d) in
      let d' = insert m (old ++ p ∷ []) d in
      rw (lookup-add_models model p ms d') (
        rw (lookup-insert m model (old ++ p ∷ []) d) (elim (Bool-cases (m == model)) [
          | inl same ↦ rw (same, (eq_iff m model).0 same) (append_assoc _ (p ∷ []) _)
          | inr other ↦ rw other refl
        ]))

  providers_for_model-register :
      (model : String) (p : Provider W) (r : Registry W)
      → providers_for_model model (register p r)
        ≡ providers_for_model model r ++ offers model p p.models
  unfolding providers_for_model register
  providers_for_model-register model p r = lookup-add_models model p p.models r.by_model

  provider_by_name-register :
      (name : String) (p : Provider W) (r : Registry W)
      → provider_by_name name (register p r)
        ≡ (if p.name == name then some p else provider_by_name name r)
  unfolding provider_by_name register
  provider_by_name-register name p r = lookup-insert p.name name p r.by_name

  providers_for_model-register_all_from :
      (model : String) (ps : List (Provider W)) (r : Registry W)
      → providers_for_model model (register_all ps r)
        ≡ providers_for_model model r ++ offering model ps
  unfolding register_all
  providers_for_model-register_all_from model [] r = sym (append-nil _)
  providers_for_model-register_all_from model (p ∷ ps) r =
      providers_for_model-register_all_from model ps (register p r)
      ∙ (ap (λ l. l ++ offering model ps) (providers_for_model-register model p r)
          ∙ append_assoc _ (offers model p p.models) (offering model ps))

  -- The providers of a model are those that name it, in the order of their registration, each as
  -- often as it names it.
  pub providers_for_model-register_all :
      (model : String) (ps : List (Provider W))
      → providers_for_model model (register_all ps (new_registry W)) ≡ offering model ps
  providers_for_model-register_all model ps =
      providers_for_model-register_all_from model ps (new_registry W)
      ∙ (unfold providers_for_model new_registry lookup in refl)

  provider_by_name-register_all_from :
      (name : String) (ps : List (Provider W)) (r : Registry W)
      → provider_by_name name (register_all ps r) ≡ last_named name (provider_by_name name r) ps
  unfolding register_all
  provider_by_name-register_all_from name [] r = refl
  provider_by_name-register_all_from name (p ∷ ps) r =
      provider_by_name-register_all_from name ps (register p r)
      ∙ ap (λ o. last_named name o ps) (provider_by_name-register name p r)

  -- A name is looked up as the provider of that name that was registered last, or none.
  pub provider_by_name-register_all :
      (name : String) (ps : List (Provider W))
      → provider_by_name name (register_all ps (new_registry W)) ≡ last_named name none ps
  provider_by_name-register_all name ps =
      provider_by_name-register_all_from name ps (new_registry W)
      ∙ (unfold provider_by_name new_registry lookup in refl)
