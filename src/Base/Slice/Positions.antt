-- ===== src/Base/Slice/Positions.antt =====
-- Elements of a list by their position.
use momu_llmgateway.Base.Lists.{All, length, get_elem?, set, take}
use Prim.Native.Nat.{ℕ, zero, suc, ◌<◌}
use mathlib.Core.Path.{◌≡◌, refl, ap, subst}
use mathlib.Core.Logic.{◌⊎◌, inl, inr}
use mathlib.Core.Option.{some, some-injective, none-ne-some}
use mathlib.Core.List.{List, [], ◌∷◌, ◌++◌}
use native.Mathlib.Omega.{arith}

module _ {ℓ} {A : Type ℓ} where
  pub get_elem?-append :
      (p : List A) (x : A) (xs : List A) → get_elem? (p ++ x ∷ xs) (length p) ≡ some x
  get_elem?-append [] x xs = refl
  get_elem?-append (y ∷ p) x xs = get_elem?-append p x xs

  pub set-append :
      (p : List A) (x y : A) (xs : List A) → set (p ++ x ∷ xs) (length p) y ≡ p ++ y ∷ xs
  set-append [] x y xs = refl
  set-append (z ∷ p) x y xs = ap (◌∷◌ z) (set-append p x y xs)

  pub take-append : (p xs : List A) → take (length p) (p ++ xs) ≡ p
  take-append [] xs = refl
  take-append (x ∷ p) xs = ap (◌∷◌ x) (take-append p xs)

  -- A list is empty, or has a last element.
  pub last_cases : (xs : List A) → (xs ≡ []) ⊎ ((ws : List A) × (z : A) × (xs ≡ ws ++ z ∷ []))
  last_cases [] = inl refl
  last_cases (x ∷ xs) = elim (last_cases xs) [
    | inl empty ↦ inr ([], x, ap (◌∷◌ x) empty)
    | inr (ws, z, same) ↦ inr (x ∷ ws, z, ap (◌∷◌ x) same)
  ]

  pub get_elem?-at :
      (xs q : List A) (z : A) (rest : List A) (i : ℕ)
      → xs ≡ q ++ z ∷ rest
      → i ≡ length q
      → get_elem? xs i ≡ some z
  get_elem?-at xs q z rest i same hi = rw (same, hi) (get_elem?-append q z rest)

  pub get_elem?-bound : (es : List A) (j : ℕ) (e : A) → get_elem? es j ≡ some e → j < length es
  get_elem?-bound [] j e found = absurd (none-ne-some e found)
  get_elem?-bound (x ∷ es) zero e found = omega arith
  get_elem?-bound (x ∷ es) (suc j) e found = omega (arith, get_elem?-bound es j e found)

  pub split_at :
      (xs : List A) (i : ℕ) (v : A)
      → get_elem? xs i ≡ some v
      → (p : List A) × (ys : List A) × (xs ≡ p ++ v ∷ ys) × (i ≡ length p)
  split_at [] i v h = absurd (none-ne-some v h)
  split_at (x ∷ xs) zero v h = ([], xs, ap (λ y. y ∷ xs) (some-injective x v h), refl)
  split_at (x ∷ xs) (suc i) v h =
      let (p, ys, same, hi) = split_at xs i v h in (x ∷ p, ys, ap (◌∷◌ x) same, ap suc hi)

module _ {ℓ κ} {A : Type ℓ} where
  pub get_elem?-All :
      {P : A → Type κ} (xs : List A) → ((j : ℕ) (x : A) → get_elem? xs j ≡ some x → P x) → All P xs
  get_elem?-All [] h = tt
  get_elem?-All {P} (x ∷ xs) h = (h 0 x refl, get_elem?-All xs (λ j y e. h (suc j) y e))

  pub All-get_elem? :
      (P : A → Type κ) (xs : List A) (j : ℕ) (x : A) → All P xs → get_elem? xs j ≡ some x → P x
  All-get_elem? P [] j x h found = absurd (none-ne-some x found)
  All-get_elem? P (y ∷ xs) zero x (p, h) found = subst P (some-injective y x found) p
  All-get_elem? P (y ∷ xs) (suc j) x (p, h) found = All-get_elem? P xs j x h found
