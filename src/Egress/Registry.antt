-- ===== src/Egress/Registry.antt =====
-- internal/egress/adapter.go: the provider registry. Its lock makes each method one step; the copies
-- that the readers return are values here.
pub mod Contents
use momu_llmgateway.Base.{String, Bool, Option, List, [], ◌∷◌, ◌++◌}
use momu_llmgateway.Base.Dict.{lookup, insert, get}
use momu_llmgateway.Model.{Provider}

pub record Registry (W : Type 0) : Type 0 where
  pub providers : List (Provider W)
  pub by_name : List (String × Provider W)
  pub by_model : List (String × List (Provider W))

module _ {W : Type 0} where
  -- The loop of `Register` over `p.Models()`.
  unfoldable pub add_models :
      Provider W
      → List String
      → List (String × List (Provider W))
      → List (String × List (Provider W))
  add_models p [] by_model = by_model
  add_models p (m ∷ ms) by_model =
      add_models p ms (insert m (get (lookup m by_model) ++ p ∷ []) by_model)

  -- `Register`.
  unfoldable pub register : Provider W → Registry W → Registry W
  unfolding add_models
  register p r = record {
    providers = r.providers ++ p ∷ [];
    by_name = insert p.name p r.by_name;
    by_model = add_models p p.models r.by_model;
  }

  -- `ProvidersForModel`.
  unfoldable pub providers_for_model : String → Registry W → List (Provider W)
  providers_for_model model r = get (lookup model r.by_model)

  -- `ProviderByName`.
  unfoldable pub provider_by_name : String → Registry W → Option (Provider W)
  provider_by_name name r = lookup name r.by_name

-- `NewRegistry`.
unfoldable pub new_registry : (W : Type 0) → Registry W
new_registry W = record { providers = []; by_name = []; by_model = [] }
