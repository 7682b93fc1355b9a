-- ===== src/Base/Slice/Removal.antt =====
-- What a slice holds after its elements at some indices were swapped out.
use momu_llmgateway.Base.Tests.{Bool-cases}
use momu_llmgateway.Base.Lists.{All, length, get_elem?, set, take, get_elem?-set_ne, length-append}
use Prim.Native.Nat.{ℕ, zero, suc, ◌+◌, ◌-◌, ◌<◌}
use mathlib.Core.Path.{◌≡◌, refl, sym, subst, ◌∙◌, ap}
use mathlib.Core.Logic.{◌≢◌, inl, inr}
use mathlib.Core.Bool.{Bool, false}
use mathlib.Core.Option.{Option, none, some, some-injective}
use mathlib.Core.List.{List, [], ◌∷◌, ◌++◌, Perm, perm_middle, append_assoc, append-nil}
use mathlib.Core.List.Perm
use native.Mathlib.Omega.{arith}
use momu_llmgateway.Base.Slice.{
  Slice, whole, live, overwrite, swap_remove, swap_remove_bounded, remove_all, indices_of, reject,
}
use momu_llmgateway.Base.Slice.Positions.{set-append, take-append, last_cases, get_elem?-at}

module _ {ℓ} {A : Type ℓ} where
  -- A slice that holds `p` and then `ys`, before what is left of its array.
  pub record Holds (p ys : List A) (s : Slice A) : Type ℓ where
    pub rest : List A
    pub array : s.array ≡ p ++ (ys ++ rest)
    pub len : s.len ≡ length p + length ys

  pub swap_remove_bounded-in :
      (i : ℕ) (s : Slice A)
      → i < s.len
      → swap_remove_bounded i s
        ≡ record { array = overwrite s.array i (get_elem? s.array (s.len - 1)); len = s.len - 1 }
  unfolding swap_remove
  swap_remove_bounded-in i s h = ground arith

  -- The last element, `x` itself or another, is moved to where `x` stood.
  move_last :
      (p : List A) (x z : A) (ws rest : List A) (s : Slice A)
      → s.array ≡ p ++ (x ∷ (ws ++ z ∷ rest))
      → s.len ≡ length p + suc (suc (length ws))
      → Holds p (z ∷ ws) (swap_remove_bounded (length p) s)
  move_last p x z ws rest s array len =
      rw (swap_remove_bounded-in (length p) s (omega arith)) (record {
        rest = z ∷ rest;
        array =
            rw
              (get_elem?-at s.array (p ++ x ∷ ws) z rest (s.len - 1)
                (array ∙ sym (append_assoc p (x ∷ ws) (z ∷ rest)))
                (omega (arith, length-append p (x ∷ ws))))
              (ap (λ xs. set xs (length p) z) array ∙ set-append p x z (ws ++ z ∷ rest));
        len = omega arith;
      })

  drop_last :
      (p : List A) (x : A) (rest : List A) (s : Slice A)
      → s.array ≡ p ++ (x ∷ rest)
      → s.len ≡ length p + 1
      → Holds p [] (swap_remove_bounded (length p) s)
  drop_last p x rest s array len = rw (swap_remove_bounded-in (length p) s (omega arith)) (record {
    rest = x ∷ rest;
    array =
        rw (get_elem?-at s.array p x rest (s.len - 1) array (omega arith))
          (ap (λ xs. set xs (length p) x) array ∙ set-append p x x rest);
    len = omega arith;
  })

  pub swap_remove-Holds :
      (p : List A) (x : A) (ys : List A) (s : Slice A)
      → Holds p (x ∷ ys) s
      → (zs : List A) × Holds p zs (swap_remove_bounded (length p) s) × Perm zs ys
  swap_remove-Holds p x ys s h = elim (last_cases ys) [
    | inl empty ↦ (
      [],
      drop_last p x h.rest s (h.array ∙ ap (λ l. p ++ (x ∷ (l ++ h.rest))) empty)
          (h.len ∙ ap (λ l. length p + suc (length l)) empty),
      subst (λ l. Perm [] l) (sym empty) (Perm.refl []),
    )
    | inr (ws, z, same) ↦ (
      z ∷ ws,
      move_last p x z ws h.rest s
          (h.array
            ∙ ap (λ l. p ++ (x ∷ l)) (ap (λ l. l ++ h.rest) same ∙ append_assoc ws (z ∷ []) h.rest))
          (h.len
            ∙ ap (λ l. length p + suc (length l)) same
            ∙ omega (arith, length-append ws (z ∷ []))),
      subst (λ l. Perm (z ∷ ws) l) (sym same)
          (subst (λ l. Perm (z ∷ l) (ws ++ z ∷ [])) (append-nil ws)
            (Perm.symm (perm_middle ws []))),
    )
  ]

  pub Holds-live : (p ys : List A) (s : Slice A) → Holds p ys s → live s ≡ p ++ ys
  Holds-live p ys s h =
      ap (λ n. take n s.array) (h.len ∙ sym (length-append p ys))
      ∙ ap (λ l. take (length (p ++ ys)) l) (h.array ∙ sym (append_assoc p ys h.rest))
      ∙ take-append (p ++ ys) h.rest

  remove_all-Holds :
      (t : A → Bool) (p xs : List A) (n : ℕ) (all : List A)
      → n ≡ length p
      → all ≡ p ++ xs
      → (ys : List A) × Holds p ys (remove_all (indices_of t n xs) (whole all))
        × Perm ys (reject t xs)
  unfolding remove_all indices_of reject
  remove_all-Holds t p [] n all hn same = (
    [],
    record { rest = []; array = same; len = ap length same ∙ length-append p [] },
    Perm.refl [],
  )
  remove_all-Holds t p (x ∷ xs) n all hn same = step (
      remove_all-Holds t (p ++ x ∷ []) xs (suc n) all (omega (arith, length-append p (x ∷ [])))
        (same ∙ sym (append_assoc p (x ∷ []) xs)))
    where
      again : (ys : List A) (s : Slice A) → Holds (p ++ x ∷ []) ys s → Holds p (x ∷ ys) s
      again ys s h = record {
        rest = h.rest;
        array = h.array ∙ append_assoc p (x ∷ []) (ys ++ h.rest);
        len = h.len ∙ omega (arith, length-append p (x ∷ []));
      }

      step :
          ((ys : List A) × Holds (p ++ x ∷ []) ys (remove_all (indices_of t (suc n) xs) (whole all))
            × Perm ys (reject t xs))
          → (ys : List A) × Holds p ys (remove_all (indices_of t n (x ∷ xs)) (whole all))
            × Perm ys (reject t (x ∷ xs))
      step (ys, h, perm) = elim (Bool-cases (t x)) [
        | inl gone ↦
            let (zs, held, moved) = swap_remove-Holds p x ys _ (again ys _ h) in
            rw (gone, hn)
              (
                zs,
                subst
                    (λ m. Holds p zs (
                      swap_remove_bounded (length p)
                        (remove_all (indices_of t (suc m) xs) (whole all))))
                    hn held,
                Perm.trans moved perm,
              )
        | inr kept ↦ rw kept (x ∷ ys, again ys _ h, Perm.cons x perm)
      ]

  -- Once the elements that pass a test are swapped out, a list holds the others, in some order.
  pub remove_all-Perm :
      (t : A → Bool) (xs : List A)
      → Perm (live (remove_all (indices_of t 0 xs) (whole xs))) (reject t xs)
  remove_all-Perm t xs =
      let (ys, h, perm) = remove_all-Holds t [] xs 0 xs refl refl in
      subst (λ l. Perm l (reject t xs)) (sym (Holds-live [] ys _ h)) perm

  -- An index that is not removed keeps its element in the array.
  remove_all-keeps :
      (is : List ℕ) (s : Slice A) (j : ℕ)
      → All (λ i. i ≢ j) is
      → get_elem? (remove_all is s).array j ≡ get_elem? s.array j
  unfolding remove_all swap_remove
  remove_all-keeps [] s j h = refl
  remove_all-keeps (i ∷ is) s j (ne, h) =
      kept (remove_all is s) (get_elem? (remove_all is s).array ((remove_all is s).len - 1)) refl
      ∙ remove_all-keeps is s j h
    where
      kept :
          (r : Slice A) (o : Option A)
          → get_elem? r.array (r.len - 1) ≡ o
          → get_elem? (swap_remove_bounded i r).array j ≡ get_elem? r.array j
      kept r none same = ground (arith, same)
      kept r (some v) same = ground (arith, same, get_elem?-set_ne r.array v ne)

  indices_of-ge :
      (t : A → Bool) (n j : ℕ) (xs : List A) → j < n → All (λ i. i ≢ j) (indices_of t n xs)
  unfolding indices_of
  indices_of-ge t n j [] h = tt
  indices_of-ge t n j (x ∷ xs) h = elim (Bool-cases (t x)) [
    | inl gone ↦ rw gone (omega arith, indices_of-ge t (suc n) j xs (omega arith))
    | inr kept ↦ rw kept (indices_of-ge t (suc n) j xs (omega arith))
  ]

  indices_of-kept :
      (t : A → Bool) (n j : ℕ) (xs : List A) (x : A)
      → get_elem? xs j ≡ some x
      → t x ≡ false
      → All (λ i. i ≢ n + j) (indices_of t n xs)
  unfolding indices_of
  indices_of-kept t n j [] x h e = tt
  indices_of-kept t n zero (y ∷ xs) x h e = rw (ap t (some-injective y x h) ∙ e) (
      subst (λ m. All (λ i. i ≢ m) (indices_of t (suc n) xs)) (omega arith)
        (indices_of-ge t (suc n) n xs (omega arith)))
  indices_of-kept t n (suc j) (y ∷ xs) x h e =
      let rest =
        subst (λ m. All (λ i. i ≢ m) (indices_of t (suc n) xs)) {x = suc n + j} {y = n + suc j}
          (omega arith) (indices_of-kept t (suc n) j xs x h e) in
      elim (Bool-cases (t y)) [ inl gone ↦ rw gone (omega arith, rest) | inr kept ↦ rw kept rest ]

  -- While elements are swapped out, one that stays is still found at its old index of the array.
  pub get_elem?-remove_all :
      (t : A → Bool) (xs : List A) (j : ℕ) (x : A)
      → get_elem? xs j ≡ some x
      → t x ≡ false
      → get_elem? (remove_all (indices_of t 0 xs) (whole xs)).array j ≡ some x
  get_elem?-remove_all t xs j x h e =
      remove_all-keeps (indices_of t 0 xs) (whole xs) j (
        subst (λ m. All (λ i. i ≢ m) (indices_of t 0 xs)) {x = 0 + j} {y = j} (omega arith)
          (indices_of-kept t 0 j xs x h e))
      ∙ h
