-- ===== src/Decision/Semantic/Prototypes.antt =====
-- `NewSemanticRouter`: the prototype of a category is the mean of the vectors of its exemplars, scaled
-- to length 1. An index beyond the first vector is a panic.
use momu_llmgateway.Base.{ℕ, Option, none, some, List, [], ◌∷◌, ◌++◌, map, length, replicate}
use momu_llmgateway.Base.Float.{Float64, FloatOps, float_zero}
use momu_llmgateway.Config.{SemanticRoutingConfig, SemanticCategoryConfig}
use momu_llmgateway.Decision.Semantic.{Embedder, CategoryPrototype}
use momu_llmgateway.Embedding.{normalize_vector}
use momu_llmgateway.Model.{GoError, Result, ok, err}

pub data Built : Type 0 where
  built : List CategoryPrototype → Built
  refused : GoError → Built
  crashed : Built

module _ (ops : FloatOps) (float_of : ℕ → Float64) where
  abbrev with_head : Float64 → Option (List Float64) → Option (List Float64)
  with_head x none = none
  with_head x (some xs) = some (x ∷ xs)

  -- The loop that adds a vector to the sums; none is a panic.
  unfoldable pub add_vector : List Float64 → List Float64 → Option (List Float64)
  add_vector sums [] = some sums
  add_vector [] (x ∷ xs) = none
  add_vector (s ∷ sums) (x ∷ xs) = with_head (ops.add s x) (add_vector sums xs)

  unfoldable pub sum_vectors : List (List Float64) → Option (List Float64) → Option (List Float64)
  unfolding add_vector
  sum_vectors [] sums = sums
  sum_vectors (v ∷ vs) none = none
  sum_vectors (v ∷ vs) (some sums) = sum_vectors vs (add_vector sums v)

  abbrev mean_of : ℕ → Option (List Float64) → Option (List Float64)
  mean_of n none = none
  mean_of n (some sums) = some (normalize_vector ops (map (λ x. ops.div x (float_of n)) sums))

  -- The prototype of the vectors, of which there is at least the first.
  unfoldable pub prototype_of : List Float64 → List (List Float64) → Option (List Float64)
  unfolding sum_vectors normalize_vector
  prototype_of v vs =
      mean_of (length (v ∷ vs)) (sum_vectors (v ∷ vs) (some (replicate (length v) float_zero)))

  -- What follows the call of Embed for a category, with the categories so far.
  abbrev add_category :
      SemanticCategoryConfig
      → Option (List Float64)
      → List CategoryPrototype
      → Option (List CategoryPrototype)
  add_category cat none done = none
  add_category cat (some vector) done =
      some (
        done ++ record { name = cat.name; target_models = cat.target_models; vector = vector } ∷ [])

  abbrev embedded :
      SemanticCategoryConfig → Result (List (List Float64)) → List CategoryPrototype → Built
  embedded cat (err e) done = refused e
  embedded cat (ok []) done = built done
  embedded cat (ok (v ∷ vs)) done = elim (add_category cat (prototype_of v vs) done) [
    | none ↦ crashed
    | some done' ↦ built done'
  ]

  -- The loop over the categories.
  unfoldable pub build_categories : Embedder → List SemanticCategoryConfig → Built → Built
  unfolding prototype_of
  build_categories embed [] done = done
  build_categories embed (cat ∷ cats) (built done) =
      build_categories embed cats (embedded cat (embed cat.exemplars) done)
  build_categories embed (cat ∷ cats) (refused e) = refused e
  build_categories embed (cat ∷ cats) crashed = crashed

  -- The categories of `NewSemanticRouter`, for an engine that may be nil.
  unfoldable pub new_semantic_router : SemanticRoutingConfig → Option Embedder → Built
  unfolding build_categories
  new_semantic_router cfg none = built []
  new_semantic_router cfg (some embed) = build_categories embed cfg.categories (built [])
