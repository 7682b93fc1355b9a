-- ===== src/Embedding/Shapes.antt =====
-- Padding and truncation of the token ids.
use momu_llmgateway.Base.{
  ℕ, zero, suc, ◌-◌, List, [], ◌∷◌, ◌++◌, take, length, replicate, ◌≡◌, refl, arith,
}
use Prim.Native.Nat.{min}
use momu_llmgateway.Embedding.{pad_and_mask_int}

take_nil : (n : ℕ) → take {A = ℕ} n [] ≡ []
take_nil zero = refl
take_nil (suc n) = refl

-- The ids are cut to `n` or filled up with zeros to `n`, and the mask has a one for each id that was
-- kept and a zero for each place filled.
pub pad_and_mask_int_lem :
    (ids : List ℕ) (n : ℕ)
    → pad_and_mask_int ids n ≡ (
      take n ids ++ replicate (n - length ids) 0,
      replicate (min n (length ids)) 1 ++ replicate (n - length ids) 0,
    )
unfolding pad_and_mask_int
pad_and_mask_int_lem ids zero =
    let none_left : 0 - length ids ≡ 0 = omega arith in
    let none_kept : min 0 (length ids) ≡ 0 = omega arith in rw (none_left, none_kept) refl
pad_and_mask_int_lem [] (suc n) =
    let all_left : n - 0 ≡ n = omega arith in
    let one_more : suc n - 0 ≡ suc n = omega arith in
    let none_kept : min n 0 ≡ 0 = omega arith in
    let none_kept' : min (suc n) 0 ≡ 0 = omega arith in
    let ih = rw (all_left, none_kept) at (pad_and_mask_int_lem [] n) in
    rw (one_more, none_kept') (ground (arith, ih, take_nil n))
pad_and_mask_int_lem (id ∷ ids) (suc n) =
    let same_left : suc n - suc (length ids) ≡ n - length ids = omega arith in
    let one_kept : min (suc n) (suc (length ids)) ≡ suc (min n (length ids)) = omega arith in
    rw (same_left, one_kept) (ground (arith, pad_and_mask_int_lem ids n))
