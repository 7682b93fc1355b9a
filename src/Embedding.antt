-- ===== src/Embedding.antt =====
-- internal/embedding/embedding.go, and the padding of onnx.go. The arithmetic of float64 is
-- `FloatOps`.
pub mod Engine
pub mod Masks
pub mod Pooling
pub mod Shapes
use momu_llmgateway.Base.{
  ℕ, zero, suc, ◌+◌, ◌-◌, ◌*◌, Bool, true, false, not, ◌||◌, Option, none, some, List, [], ◌∷◌,
  ◌++◌, map, length, take, drop, replicate, eqb, if◌then◌else◌,
}
use momu_llmgateway.Base.Float.{Float64, FloatOps, float_zero, float_eq, float_lt}

module _ (ops : FloatOps) where
  -- The loop of `CosineSimilarity`: the three sums.
  unfoldable pub dots :
      Float64 → Float64 → Float64 → List Float64 → List Float64 → Float64 × Float64 × Float64
  dots dot na nb (x ∷ xs) (y ∷ ys) =
      dots (ops.add dot (ops.mul x y)) (ops.add na (ops.mul x x)) (ops.add nb (ops.mul y y)) xs ys
  dots dot na nb _ _ = (dot, na, nb)

  -- `CosineSimilarity`.
  unfoldable pub cosine_similarity : List Float64 → List Float64 → Float64
  unfolding dots
  cosine_similarity a b =
      let (dot, na, nb) = dots float_zero float_zero float_zero a b in
      if eqb (length a) 0 || not (eqb (length a) (length b))
      then float_zero
      else if float_eq na float_zero || float_eq nb float_zero
      then float_zero
      else ops.div dot (ops.mul (ops.sqrt na) (ops.sqrt nb))

  unfoldable pub sum_squares : Float64 → List Float64 → Float64
  sum_squares norm [] = norm
  sum_squares norm (x ∷ xs) = sum_squares (ops.add norm (ops.mul x x)) xs

  -- `NormalizeVector`.
  unfoldable pub normalize_vector : List Float64 → List Float64
  unfolding sum_squares
  normalize_vector v =
      let norm = ops.sqrt (sum_squares float_zero v) in
      if float_eq norm float_zero then v else map (λ x. ops.div x norm) v

-- `padAndMaskInt`, by the number of places that are left: the ids and the mask.
unfoldable pub pad_and_mask_int : List ℕ → ℕ → List ℕ × List ℕ
pad_and_mask_int ids zero = ([], [])
pad_and_mask_int [] (suc n) = let (full, mask) = pad_and_mask_int [] n in (0 ∷ full, 0 ∷ mask)
pad_and_mask_int (id ∷ ids) (suc n) =
    let (full, mask) = pad_and_mask_int ids n in (id ∷ full, 1 ∷ mask)
