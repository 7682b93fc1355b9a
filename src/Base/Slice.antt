-- ===== src/Base/Slice.antt =====
-- A Go slice on its backing array: a write goes to the array, and shortening the slice keeps the
-- array. What a pointer into the array reads later depends on both.
pub mod Positions
pub mod Removal
pub mod Swapping
use momu_llmgateway.Base.Tests.{leb, if◌then◌else◌, Bool-cases}
use momu_llmgateway.Base.Lists.{
  All, length, get_elem?, set, take, get_elem?-set_ne, length-set, length-append, length-take,
}
use Prim.Native.Nat.{ℕ, zero, suc, ◌+◌, ◌-◌, ◌<◌, ◌≤◌}
use mathlib.Core.Path.{◌≡◌, refl, sym, subst, ◌∙◌, ap}
use mathlib.Core.Logic.{◌≢◌, ◌⊎◌, inl, inr}
use mathlib.Core.Bool.{Bool, false}
use mathlib.Core.Option.{Option, none, some, some-injective, none-ne-some}
use mathlib.Core.List.{List, [], ◌∷◌, ◌++◌, Perm, perm_middle, append_assoc, append-nil}
use mathlib.Core.List.Perm
use native.Mathlib.Omega.{arith}

module _ {ℓ} where
  pub record Slice (A : Type ℓ) : Type ℓ where
    pub array : List A
    pub len : ℕ

module _ {ℓ} {A : Type ℓ} where
  -- A slice of a whole array, and the elements of a slice.
  abbrev pub whole : List A → Slice A
  whole xs = record { array = xs; len = length xs }

  abbrev pub live : Slice A → List A
  live s = take s.len s.array

  abbrev pub overwrite : List A → ℕ → Option A → List A
  overwrite xs i none = xs
  overwrite xs i (some v) = set xs i v

  pub overwrite-cons :
      (x : A) (xs : List A) (i : ℕ) (o : Option A)
      → overwrite (x ∷ xs) (suc i) o ≡ x ∷ overwrite xs i o
  overwrite-cons x xs i none = refl
  overwrite-cons x xs i (some v) = refl

  -- `entries[i] = entries[len-1]; entries = entries[:len-1]`.
  unfoldable pub swap_remove : ℕ → Slice A → Slice A
  swap_remove i s =
      let last = s.len - 1 in
      record { array = overwrite s.array i (get_elem? s.array last); len = last }

  -- `swap_remove`, out of bounds not at all.
  abbrev pub swap_remove_bounded : ℕ → Slice A → Slice A
  swap_remove_bounded i s = if leb s.len i then s else swap_remove i s

  -- The indices of a list are removed from its last to its first.
  unfoldable pub remove_all : List ℕ → Slice A → Slice A
  unfolding swap_remove
  remove_all [] s = s
  remove_all (i ∷ is) s = swap_remove_bounded i (remove_all is s)

  -- The indices of the elements that pass a test, the first element standing at `i`.
  unfoldable pub indices_of : (A → Bool) → ℕ → List A → List ℕ
  indices_of p i [] = []
  indices_of p i (x ∷ xs) = let rest = indices_of p (suc i) xs in if p x then i ∷ rest else rest

  unfoldable pub reject : (A → Bool) → List A → List A
  reject p [] = []
  reject p (x ∷ xs) = let rest = reject p xs in if p x then rest else x ∷ rest
