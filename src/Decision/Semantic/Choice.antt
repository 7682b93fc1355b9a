-- ===== src/Decision/Semantic/Choice.antt =====
-- Which category the semantic strategy chooses.
use momu_llmgateway.Base.{
  Bool, true, false, ◌&&◌, Bool-cases, List, [], ◌∷◌, All, Any, ◌≡◌, ◌⊎◌, inl, inr, refl, arith,
  if◌then◌else◌,
}
use momu_llmgateway.Base.Float.{Float64, FloatOps, float_ge, float_lt}
use momu_llmgateway.Decision.Semantic.{
  CategoryPrototype, SemanticRoute, no_semantic_route, best_category,
}
use momu_llmgateway.Embedding.{cosine_similarity}

-- What is not above a score is not above a greater one.
not_above :
    (low high s : Float64)
    → float_lt low high ≡ true
    → float_lt low s ≡ false
    → float_lt high s ≡ false
unfolding float_lt
not_above low high s h g = ground (arith, h, g)

not_above_self : (x : Float64) → float_lt x x ≡ false
unfolding float_lt
not_above_self x = ground arith

module _ (ops : FloatOps) (vec : List Float64) (threshold : Float64) where
  abbrev similarity : CategoryPrototype → Float64
  similarity cat = cosine_similarity ops vec cat.vector

  -- A category that is below the threshold or not above a confidence.
  abbrev pub IsBeaten : Float64 → CategoryPrototype → Type 0
  IsBeaten confidence cat =
      (float_ge (similarity cat) threshold ≡ false) ⊎ (float_lt confidence (similarity cat) ≡ false)

  abbrev pub route_of : CategoryPrototype → SemanticRoute
  route_of cat = record {
    models = cat.target_models;
    category = cat.name;
    confidence = similarity cat;
  }

  -- The route of a category that is not below the threshold.
  abbrev pub IsOf : SemanticRoute → CategoryPrototype → Type 0
  IsOf best cat = (best ≡ route_of cat) × (float_ge (similarity cat) threshold ≡ true)

  abbrev is_better : CategoryPrototype → SemanticRoute → Bool
  is_better cat best =
      float_ge (similarity cat) threshold && float_lt best.confidence (similarity cat)

  either :
      {A : Type 0} (P : A → Type 0) (b : Bool) (x y : A)
      → (b ≡ true → P x)
      → (b ≡ false → P y)
      → P (if b then x else y)
  either P true x y f g = f refl
  either P false x y f g = g refl

  -- One round of the loop: what holds in both cases, holds behind it.
  one_round :
      (P : SemanticRoute → Type 0) (cat : CategoryPrototype) (cats : List CategoryPrototype)
      (best : SemanticRoute)
      → (is_better cat best ≡ true → P (best_category ops vec threshold cats (route_of cat)))
      → (is_better cat best ≡ false → P (best_category ops vec threshold cats best))
      → P (best_category ops vec threshold (cat ∷ cats) best)
  unfolding best_category
  one_round P cat cats best f g =
      either (λ b. P (best_category ops vec threshold cats b)) (is_better cat best) (route_of cat)
        best f g

  -- The confidence does not fall in the loop.
  best_category-rises :
      (cats : List CategoryPrototype) (best : SemanticRoute) (s : Float64)
      → float_lt best.confidence s ≡ false
      → float_lt (best_category ops vec threshold cats best).confidence s ≡ false
  unfolding best_category
  best_category-rises [] best s h = h
  best_category-rises (cat ∷ cats) best s h =
      one_round (λ b. float_lt b.confidence s ≡ false) cat cats best
        (λ better.
          best_category-rises cats (route_of cat) s
            (not_above best.confidence (similarity cat) s (ground (arith, better)) h))
        (λ worse. best_category-rises cats best s h)

  best_category-IsBeaten :
      (cats : List CategoryPrototype) (best : SemanticRoute)
      → All (IsBeaten (best_category ops vec threshold cats best).confidence) cats
  best_category-IsBeaten [] best = tt
  best_category-IsBeaten (cat ∷ cats) best =
      one_round (λ b. All (IsBeaten b.confidence) (cat ∷ cats)) cat cats best
        (λ better. (
          inr (
              best_category-rises cats (route_of cat) (similarity cat)
                (not_above_self (similarity cat))),
          best_category-IsBeaten cats (route_of cat),
        ))
        (λ worse. (beaten worse, best_category-IsBeaten cats best))
    where
      beaten :
          is_better cat best ≡ false
          → IsBeaten (best_category ops vec threshold cats best).confidence cat
      beaten worse = elim (Bool-cases (float_ge (similarity cat) threshold)) [
        | inr low ↦ inl low
        | inl high ↦ inr (best_category-rises cats best (similarity cat) (rw high at worse))
      ]

  best_category-IsOf :
      (cats : List CategoryPrototype) (best : SemanticRoute)
      → (best_category ops vec threshold cats best ≡ best)
        ⊎ Any (IsOf (best_category ops vec threshold cats best)) cats
  unfolding best_category
  best_category-IsOf [] best = inl refl
  best_category-IsOf (cat ∷ cats) best =
      one_round (λ b. (b ≡ best) ⊎ Any (IsOf b) (cat ∷ cats)) cat cats best
        (λ better. elim (best_category-IsOf cats (route_of cat)) [
          | inl same ↦ inr (inl (same, ground (arith, better)))
          | inr later ↦ inr (inr later)
        ])
        (λ worse. elim (best_category-IsOf cats best) [
          | inl same ↦ inl same
          | inr later ↦ inr (inr later)
        ])

  -- The semantic strategy chooses no category, or one whose similarity is at least the threshold; and no
  -- category that is, is more similar than the confidence that is returned, which is that of the
  -- chosen one, or 0.
  pub best_category-IsBest :
      (cats : List CategoryPrototype)
      → let best = best_category ops vec threshold cats no_semantic_route in
        ((best ≡ no_semantic_route) ⊎ Any (IsOf best) cats) × All (IsBeaten best.confidence) cats
  best_category-IsBest cats =
      (best_category-IsOf cats no_semantic_route, best_category-IsBeaten cats no_semantic_route)
