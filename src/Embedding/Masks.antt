-- ===== src/Embedding/Masks.antt =====
-- The masks that the pooling reads are those of the texts.
use momu_llmgateway.Base.{
  ℕ, zero, suc, ◌+◌, ◌*◌, String, List, [], ◌∷◌, ◌++◌, map, length, take, drop, All, ◌≡◌, refl, ◌∙◌,
  ap, ap₂, arith, subst, length-append, length-map, replicate,
}
use momu_llmgateway.Embedding.{pad_and_mask_int, normalize_vector}
use momu_llmgateway.Base.Float.{Float64, FloatOps}
use momu_llmgateway.Model.{Result, ok}
use momu_llmgateway.Embedding.Pooling.{
  default_max_length, default_embedding_dim, padded, masks_of, embed, mean_pooling, reshape_hidden,
  slice, flatten, mask_rows, reshape_mask,
}
use mathlib.Core.List.{append_assoc}

drop-append : {A : Type 0} (xs ys : List A) → drop (length xs) (xs ++ ys) ≡ ys
drop-append [] ys = refl
drop-append (x ∷ xs) ys = drop-append xs ys

take-append : {A : Type 0} (xs ys : List A) → take (length xs) (xs ++ ys) ≡ xs
take-append [] ys = refl
take-append (x ∷ xs) ys = ap (λ l. x ∷ l) (take-append xs ys)

mask_rows-flatten :
    (seq_len : ℕ) (rows : List (List ℕ)) (before : List ℕ) (b : ℕ)
    → All (λ row. length row ≡ seq_len) rows
    → length before ≡ b * seq_len
    → mask_rows (length rows) b seq_len (before ++ flatten rows) ≡ rows
unfolding mask_rows
mask_rows-flatten seq_len [] before b h e = refl
mask_rows-flatten seq_len (row ∷ rows) before b (same, h) e =
    ap₂ ◌∷◌
      (subst (λ n. slice (b * seq_len) n (before ++ (row ++ flatten rows)) ≡ row) same
        (subst (λ n. slice n (length row) (before ++ (row ++ flatten rows)) ≡ row) e
          (ap (take (length row)) (drop-append before (row ++ flatten rows))
            ∙ take-append row (flatten rows))))
      (subst (λ l. mask_rows (length rows) (b + 1) seq_len l ≡ rows)
        (append_assoc before row (flatten rows))
        (mask_rows-flatten seq_len rows (before ++ row) (b + 1) h
          (omega (arith, length-append before row, e, same))))

-- `reshapeMask` takes a flat list of rows apart again, if each row is as long as it says.
pub reshape_mask-flatten :
    (seq_len : ℕ) (rows : List (List ℕ))
    → All (λ row. length row ≡ seq_len) rows
    → reshape_mask (flatten rows) (length rows) seq_len ≡ rows
unfolding reshape_mask
reshape_mask-flatten seq_len rows h = mask_rows-flatten seq_len rows [] 0 h (omega arith)

length-pad_and_mask_int : (ids : List ℕ) (n : ℕ) → length (pad_and_mask_int ids n).1 ≡ n
unfolding pad_and_mask_int
length-pad_and_mask_int ids zero = refl
length-pad_and_mask_int [] (suc n) = ap suc (length-pad_and_mask_int [] n)
length-pad_and_mask_int (id ∷ ids) (suc n) = ap suc (length-pad_and_mask_int ids n)

module _ (ops : FloatOps) (float_of : ℕ → Float64) (tokenizer : String → List ℕ)
    (run : List ℕ → List ℕ → List ℕ → Result (List Float64)) where
  abbrev masks : List String → List (List ℕ)
  masks texts = masks_of ops float_of tokenizer run texts

  masks-length : (texts : List String) → All (λ row. length row ≡ default_max_length) (masks texts)
  masks-length [] = tt
  masks-length (t ∷ ts) =
      (length-pad_and_mask_int (tokenizer t) default_max_length, masks-length ts)

  -- Behind a run of the session that succeeds, the vectors of `embed` are pooled from its output, cut
  -- into texts and positions, with for each text the mask of its own tokens, and scaled to length 1.
  pub embed-masks_of :
      (t : String) (ts : List String) (output : List Float64)
      → run
          (flatten (map (λ text. (padded ops float_of tokenizer run text).0) (t ∷ ts)))
          (flatten (masks (t ∷ ts)))
          (replicate (length (t ∷ ts) * default_max_length) 0)
        ≡ ok output
      → embed ops float_of tokenizer run (t ∷ ts)
        ≡ ok (
            map (normalize_vector ops) (
              mean_pooling ops float_of
                (reshape_hidden output (length (t ∷ ts)) default_max_length default_embedding_dim)
                (masks (t ∷ ts))))
  unfolding embed
  embed-masks_of t ts output e = rw e (
      ap
        (λ m. ok (
          map (normalize_vector ops) (
            mean_pooling ops float_of
              (reshape_hidden output (length (t ∷ ts)) default_max_length default_embedding_dim)
              m)))
        (subst (λ n. reshape_mask (flatten (masks (t ∷ ts))) n default_max_length ≡ masks (t ∷ ts))
          (length-map (t ∷ ts) (λ text. (padded ops float_of tokenizer run text).1))
          (reshape_mask-flatten default_max_length (masks (t ∷ ts)) (masks-length (t ∷ ts)))))
