-- ===== src/Embedding/Pooling.antt =====
-- internal/embedding/onnx.go and `MeanPooling` of embedding.go: how the texts become the tensors of a
-- session of ONNX, and its output their vectors. The tokenizer, the session and the conversions of
-- numbers are parameters. The tensors have the lengths of their shapes, so no slice or index is out of
-- range.
use momu_llmgateway.Base.{
  ℕ, zero, suc, ◌+◌, ◌*◌, String, List, [], ◌∷◌, ◌++◌, map, length, take, drop, replicate,
  if◌then◌else◌,
}
use momu_llmgateway.Base.Float.{Float64, FloatOps, float_zero, float_lt}
use momu_llmgateway.Embedding.{pad_and_mask_int, normalize_vector}
use momu_llmgateway.Model.{Result, ok, err}

abbrev pub default_max_length : ℕ
default_max_length = 512

abbrev pub default_embedding_dim : ℕ
default_embedding_dim = 512

-- `flat[base:base+n]`.
abbrev pub slice {ℓ} : {A : Type ℓ} → ℕ → ℕ → List A → List A
slice base n flat = take n (drop base flat)

-- The loop of `reshapeMask` from a row on, by the number of rows left.
unfoldable pub mask_rows : ℕ → ℕ → ℕ → List ℕ → List (List ℕ)
mask_rows zero b seq_len flat = []
mask_rows (suc n) b seq_len flat =
    slice (b * seq_len) seq_len flat ∷ mask_rows n (b + 1) seq_len flat

-- `reshapeMask`.
unfoldable pub reshape_mask : List ℕ → ℕ → ℕ → List (List ℕ)
unfolding mask_rows
reshape_mask flat batch seq_len = mask_rows batch 0 seq_len flat

-- The inner loop of `reshapeHidden`, from the row with this number on.
unfoldable pub hidden_rows : ℕ → ℕ → ℕ → List Float64 → List (List Float64)
hidden_rows zero row dim flat = []
hidden_rows (suc n) row dim flat = slice (row * dim) dim flat ∷ hidden_rows n (row + 1) dim flat

unfoldable pub hidden_batches : ℕ → ℕ → ℕ → ℕ → List Float64 → List (List (List Float64))
unfolding hidden_rows
hidden_batches zero b seq_len dim flat = []
hidden_batches (suc n) b seq_len dim flat =
    hidden_rows seq_len (b * seq_len) dim flat ∷ hidden_batches n (b + 1) seq_len dim flat

-- `reshapeHidden`.
unfoldable pub reshape_hidden : List Float64 → ℕ → ℕ → ℕ → List (List (List Float64))
unfolding hidden_batches
reshape_hidden flat batch seq_len dim = hidden_batches batch 0 seq_len dim flat

abbrev pub flatten {ℓ} : {A : Type ℓ} → List (List A) → List A
flatten [] = []
flatten (row ∷ rows) = row ++ flatten rows

module _ (ops : FloatOps) (float_of : ℕ → Float64) where
  -- `vec[d] += hidden[b][s][d] * weight`, for each d.
  unfoldable pub add_weighted : Float64 → List Float64 → List Float64 → List Float64
  add_weighted weight (v ∷ vec) (h ∷ hs) = ops.add v (ops.mul h weight) ∷ add_weighted weight vec hs
  add_weighted weight vec _ = vec

  -- The loop over the positions of a text: the vector and the sum of the weights.
  unfoldable pub pool_rows :
      List (List Float64) → List ℕ → List Float64 × Float64 → List Float64 × Float64
  unfolding add_weighted
  pool_rows (h ∷ hs) (m ∷ ms) (vec, sum) =
      pool_rows hs ms (add_weighted (float_of m) vec h, ops.add sum (float_of m))
  pool_rows _ _ x = x

  abbrev pub divided : List Float64 × Float64 → List Float64
  divided (vec, sum) = if float_lt float_zero sum then map (λ x. ops.div x sum) vec else vec

  unfoldable pub pool_batches : ℕ → List (List (List Float64)) → List (List ℕ) → List (List Float64)
  unfolding pool_rows
  pool_batches dim (h ∷ hs) (m ∷ ms) =
      divided (pool_rows h m (replicate dim float_zero, float_zero)) ∷ pool_batches dim hs ms
  pool_batches dim _ _ = []

  abbrev pub dim_of : List (List (List Float64)) → ℕ
  dim_of ((row ∷ rows) ∷ batches) = length row
  dim_of _ = 0

  -- `MeanPooling`.
  unfoldable pub mean_pooling : List (List (List Float64)) → List (List ℕ) → List (List Float64)
  unfolding pool_batches
  mean_pooling hidden mask = pool_batches (dim_of hidden) hidden mask

  module _ (tokenizer : String → List ℕ)
      (run : List ℕ → List ℕ → List ℕ → Result (List Float64)) where
    abbrev pub padded : String → List ℕ × List ℕ
    padded text = pad_and_mask_int (tokenizer text) default_max_length

    abbrev pub masks_of : List String → List (List ℕ)
    masks_of texts = map (λ text. (padded text).1) texts

    -- What follows the run of the session.
    abbrev pub pooled : List String → Result (List Float64) → Result (List (List Float64))
    pooled texts (err e) = err e
    pooled texts (ok output) =
        let batch = length texts in
        let hidden = reshape_hidden output batch default_max_length default_embedding_dim in
        let mask = reshape_mask (flatten (masks_of texts)) batch default_max_length in
        ok (map (normalize_vector ops) (mean_pooling hidden mask))

    -- `embed`; the error of a tensor is one of the run here.
    unfoldable pub embed : List String → Result (List (List Float64))
    unfolding reshape_hidden reshape_mask mean_pooling normalize_vector pad_and_mask_int
    embed [] = ok []
    embed (t ∷ ts) =
        let texts = t ∷ ts in
        pooled texts (
          run (flatten (map (λ text. (padded text).0) texts)) (flatten (masks_of texts))
            (replicate (length texts * default_max_length) 0))
