-- ===== src/Cache/Race.antt =====
-- Two calls of `Lookup` of internal/cache/semantic.go that overlap. `Lookup` reads the entries under one
-- lock, looks for the expired ones without a lock, and removes them, by their indices, under another.
use momu_llmgateway.Base.{
  ℕ, suc, true, false, some, List, [], ◌∷◌, ◌++◌, length, get_elem?, All, leb, ◌≡◌, refl, ap, arith,
}
use momu_llmgateway.Base.Slice.{whole, live, swap_remove, remove_all, indices_of}
use momu_llmgateway.Base.Slice.Swapping.{swap_remove-Perm, get_elem?-swap_remove}
use momu_llmgateway.Cache.{CacheEntry, SemanticCache, is_expired}
use mathlib.Core.List.{Perm}
use mathlib.Core.List.Perm
use mathlib.Core.Option.{none-ne-some}

-- `removeExpired`, on the entries that it finds under its lock.
unfoldable pub remove_expired : List ℕ → List CacheEntry → List CacheEntry
unfolding remove_all
remove_expired indices es = live (remove_all indices (whole es))

module _ {S : Type 0} (c : SemanticCache S) (now : ℕ) where
  -- The indices that a `Lookup` collects in the entries that it read.
  unfoldable pub expired_indices : List CacheEntry → List ℕ
  unfolding indices_of
  expired_indices es = indices_of (is_expired c now) 0 es

  -- Two calls that both read the entries before one of them removes any.
  unfoldable pub overlapping_lookups : List CacheEntry → List CacheEntry
  unfolding remove_expired expired_indices
  overlapping_lookups es =
      let indices = expired_indices es in remove_expired indices (remove_expired indices es)

  indices_of-fresh :
      (i : ℕ) (es : List CacheEntry)
      → All (λ e. is_expired c now e ≡ false) es
      → indices_of (is_expired c now) i es ≡ []
  unfolding indices_of
  indices_of-fresh i [] h = refl
  indices_of-fresh i (e ∷ es) (fresh, h) = rw fresh (indices_of-fresh (suc i) es h)

  expired_indices-first :
      (e : CacheEntry) (es : List CacheEntry)
      → is_expired c now e ≡ true
      → All (λ x. is_expired c now x ≡ false) es
      → expired_indices (e ∷ es) ≡ 0 ∷ []
  unfolding expired_indices
  expired_indices-first e es old h = rw old (ap (◌∷◌ 0) (indices_of-fresh 1 es h))

  remove_expired-first :
      (e : CacheEntry) (es : List CacheEntry)
      → remove_expired (0 ∷ []) (e ∷ es) ≡ live (swap_remove 0 (whole (e ∷ es)))
  unfolding remove_expired
  remove_expired-first e es =
      let inside : leb (suc (length es)) 0 ≡ false = ground arith in rw inside refl

  -- Removing at the first index takes out the first entry, whatever that is by now.
  remove_expired-Perm :
      (v : CacheEntry) (es : List CacheEntry)
      → get_elem? es 0 ≡ some v
      → Perm (v ∷ remove_expired (0 ∷ []) es) es
  remove_expired-Perm v [] at = absurd (none-ne-some v at)
  remove_expired-Perm v (e ∷ es) at =
      rw (remove_expired-first e es) (swap_remove-Perm (e ∷ es) 0 v at)

  -- Two calls of `Lookup` that overlap take out an entry that is not expired: where the first entry of a
  -- model is its only expired one and there are others, the last entry is moved to its place by the one
  -- call and taken out by the other.
  pub overlapping_lookups-Perm :
      (e z : CacheEntry) (es : List CacheEntry)
      → is_expired c now e ≡ true
      → All (λ x. is_expired c now x ≡ false) (es ++ z ∷ [])
      → Perm (e ∷ z ∷ overlapping_lookups (e ∷ (es ++ z ∷ []))) (e ∷ (es ++ z ∷ []))
  unfolding overlapping_lookups
  overlapping_lookups-Perm e z es old fresh =
      let xs = e ∷ (es ++ z ∷ []) in
      let first = remove_expired (0 ∷ []) xs in
      let moved : get_elem? first 0 ≡ some z =
        rw (remove_expired-first e (es ++ z ∷ []))
          (get_elem?-swap_remove (e ∷ es) z 0 (omega arith)) in
      rw (expired_indices-first e (es ++ z ∷ []) old fresh) (
        Perm.trans (Perm.cons e (remove_expired-Perm z first moved))
          (remove_expired-Perm e xs refl))
