-- ===== src/Base/Dict.antt =====
-- A Go map with string keys, as an association list that holds a key once.
use momu_llmgateway.Base.Tests.{Bool-cases, if◌then◌else◌}
use Prim.Native.String.{String}
use mathlib.Core.Path.{◌≡◌, refl}
use mathlib.Core.Logic.{inl, inr}
use mathlib.Core.Option.{Option, none, some}
use mathlib.Core.List.{List, [], ◌∷◌}
use text.Mathlib.Text.{◌==◌}
use text.Mathlib.TextEquality.{eq_iff}
use native.Mathlib.Omega.{arith}
use mathlib.Core.Bool.{Bool, true, false, ◌||◌}
use momu_llmgateway.Base.Lists.{Any}

module _ {ℓ} {V : Type ℓ} where
  -- `v, ok := m[k]`.
  unfoldable pub lookup : String → List (String × V) → Option V
  lookup wanted [] = none
  lookup wanted ((name, value) ∷ rest) = if name == wanted then some value else lookup wanted rest

  -- `m[k] = v`: the value of a key that is there is replaced in its place.
  unfoldable pub insert : String → V → List (String × V) → List (String × V)
  insert new value [] = (new, value) ∷ []
  insert new value ((name, old) ∷ rest) =
      if name == new then (new, value) ∷ rest else (name, old) ∷ insert new value rest

  -- What stands under every key after a write.
  pub lookup-insert :
      (new wanted : String) (value : V) (rest : List (String × V))
      → lookup wanted (insert new value rest)
        ≡ (if new == wanted then some value else lookup wanted rest)
  unfolding lookup insert
  lookup-insert new wanted value [] = refl
  lookup-insert new wanted value ((name, old) ∷ rest) =
      let later = lookup-insert new wanted value rest in
      elim (Bool-cases (name == new)) [
        | inl here ↦ rw (here, (eq_iff name new).0 here) (ground arith)
        | inr there ↦
            rw there
              (ground (arith, later, there, eq_iff name wanted, eq_iff new wanted, eq_iff name new))
      ]

-- `m[k]` of a map to slices: nil on a missing key.
abbrev pub get {ℓ} : {V : Type ℓ} → Option (List V) → List V
get none = []
get (some vs) = vs

-- A set of texts, as a Go map to `bool` or a loop over a list reads it.
abbrev pub is_among : String → List String → Bool
is_among m [] = false
is_among m (x ∷ xs) = x == m || is_among m xs

pub is_among-Any : (m : String) (ms : List String) → is_among m ms ≡ true → Any (λ x. x ≡ m) ms
is_among-Any m [] e = absurd (ground (arith, e))
is_among-Any m (x ∷ xs) e = elim (Bool-cases (x == m)) [
  | inl same ↦ inl ((eq_iff x m).0 same)
  | inr other ↦ inr (is_among-Any m xs (rw other at e))
]

pub Any-is_among : (m : String) (ms : List String) → Any (λ x. x ≡ m) ms → is_among m ms ≡ true
Any-is_among m [] h = absurd h
Any-is_among m (x ∷ xs) (inl same) = ground (arith, same, eq_iff x m)
Any-is_among m (x ∷ xs) (inr later) = ground (arith, Any-is_among m xs later)
