-- ===== src/Base/Slice/Swapping.antt =====
-- What a slice holds after one element was swapped out, and how long the results are.
use momu_llmgateway.Base.Tests.{Bool-cases}
use momu_llmgateway.Base.Lists.{
  length, get_elem?, set, take, length-set, length-append, length-take, get_elem?-set_self,
}
use Prim.Native.Nat.{ℕ, zero, suc, ◌-◌, ◌≤◌, ◌<◌}
use mathlib.Core.Path.{◌≡◌, refl, sym, subst, ◌∙◌, ap}
use mathlib.Core.Logic.{inl, inr}
use mathlib.Core.Bool.{Bool, false}
use mathlib.Core.Option.{Option, none, some, some-injective, none-ne-some}
use mathlib.Core.List.{List, [], ◌∷◌, ◌++◌, Perm, perm_middle, append-nil}
use mathlib.Core.List.Perm
use native.Mathlib.Omega.{arith}
use momu_llmgateway.Base.Slice.{whole, live, overwrite, swap_remove, swap_remove_bounded, reject}
use momu_llmgateway.Base.Slice.Positions.{split_at, get_elem?-append}
use momu_llmgateway.Base.Slice.Removal.{swap_remove_bounded-in, swap_remove-Holds, Holds-live}

module _ {ℓ} {A : Type ℓ} where
  -- Swapping out one element leaves the others, in some order.
  pub swap_remove-Perm :
      (xs : List A) (i : ℕ) (v : A)
      → get_elem? xs i ≡ some v
      → Perm (v ∷ live (swap_remove i (whole xs))) xs
  unfolding swap_remove
  swap_remove-Perm xs i v h =
      let (p, ys, same, hi) = split_at xs i v h in
      let (zs, held, perm) = swap_remove-Holds p v ys (whole xs) (record {
        rest = [];
        array = same ∙ ap (λ l. p ++ (v ∷ l)) (sym (append-nil ys));
        len = ap length same ∙ length-append p (v ∷ ys);
      }) in
      let removed : swap_remove_bounded (length p) (whole xs) ≡ swap_remove i (whole xs) = rw hi (
        swap_remove_bounded-in (length p) (whole xs)
          (omega (arith, ap length same, length-append p (v ∷ ys)))) in
      subst (λ s. Perm (v ∷ live s) xs) removed
        (rw (Holds-live p zs _ held) (
          subst (λ l. Perm (v ∷ (p ++ zs)) l) (sym same)
            (Perm.trans (Perm.cons v (Perm.append_left p perm)) (Perm.symm (perm_middle p ys)))))

  -- Its length.
  pub length-swap_remove :
      (xs : List A) (i : ℕ) → length (live (swap_remove i (whole xs))) ≡ length xs - 1
  unfolding swap_remove
  length-swap_remove xs i = go (get_elem? xs (length xs - 1))
    where
      go : (o : Option A) → length (take (length xs - 1) (overwrite xs i o)) ≡ length xs - 1
      go none = omega (arith, length-take (length xs - 1) xs)
      go (some v) = omega (arith, length-take (length xs - 1) (set xs i v), length-set xs i v)

  pub length-reject : (t : A → Bool) (xs : List A) → length (reject t xs) ≤ length xs
  unfolding reject
  length-reject t [] = omega arith
  length-reject t (x ∷ xs) = elim (Bool-cases (t x)) [
    | inl gone ↦ rw gone (omega (arith, length-reject t xs))
    | inr kept ↦ rw kept (omega (arith, length-reject t xs))
  ]

  get_elem?-take : (n : ℕ) (xs : List A) (i : ℕ) → i < n → get_elem? (take n xs) i ≡ get_elem? xs i
  get_elem?-take zero xs i l = elim l [ ]
  get_elem?-take (suc n) [] i l = refl
  get_elem?-take (suc n) (x ∷ xs) zero l = refl
  get_elem?-take (suc n) (x ∷ xs) (suc i) l = get_elem?-take n xs i (omega arith)

  -- The last element takes the place of one before it that is swapped out.
  pub get_elem?-swap_remove :
      (p : List A) (z : A) (i : ℕ)
      → i < length p
      → get_elem? (live (swap_remove i (whole (p ++ z ∷ [])))) i ≡ some z
  unfolding swap_remove
  get_elem?-swap_remove p z i l =
      let n : length (p ++ z ∷ []) - 1 ≡ length p = omega (arith, length-append p (z ∷ [])) in
      rw (n, get_elem?-append p z [])
        (get_elem?-take (length p) (set (p ++ z ∷ []) i z) i l
          ∙ get_elem?-set_self (p ++ z ∷ []) i z (omega (arith, length-append p (z ∷ []))))

  pub get_elem?-reject :
      (t : A → Bool) (xs : List A) (i : ℕ) (v : A)
      → get_elem? xs i ≡ some v
      → t v ≡ false
      → (j : ℕ) × (get_elem? (reject t xs) j ≡ some v)
  unfolding reject
  get_elem?-reject t [] i v h kept = absurd (none-ne-some v h)
  get_elem?-reject t (x ∷ xs) zero v h kept = rw (ap t (some-injective x v h) ∙ kept) (0, h)
  get_elem?-reject t (x ∷ xs) (suc i) v h kept =
      let (j, found) = get_elem?-reject t xs i v h kept in
      elim (Bool-cases (t x)) [
        | inl gone ↦ rw gone (j, found)
        | inr stays ↦ rw stays (suc j, found)
      ]
