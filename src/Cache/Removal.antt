-- ===== src/Cache/Removal.antt =====
-- What a lookup leaves in the cache: internal/cache/semantic.go, `Lookup` and `removeExpired`.
use momu_llmgateway.Base.{
  ℕ, zero, suc, String, Option, none, some, List, [], ◌∷◌, map, get_elem?, take, ◌≡◌, refl, ap, ◌∙◌,
  eq_refl,
}
use momu_llmgateway.Base.Dict.{get, lookup-insert}
use momu_llmgateway.Base.Float.{Float64, FloatOps}
use momu_llmgateway.Base.Slice.{
  Slice, whole, live, overwrite, overwrite-cons, remove_all, indices_of, reject,
}
use momu_llmgateway.Base.Slice.Removal.{remove_all-Perm}
use momu_llmgateway.Cache.{CacheEntry, SemanticCache, Codec, entries_of, put_entries, is_expired}
use momu_llmgateway.Cache.Lookup.{best_entry, lookup_vector, finish_lookup, touched}
use mathlib.Core.List.{Perm}
use mathlib.Core.List.Perm

-- An entry without its access time, which a lookup may write.
abbrev pub unaccessed : CacheEntry → CacheEntry
unaccessed e = record e { last_access = 0 }

unaccessed-set :
    (xs : List CacheEntry) (i n now : ℕ)
    → map unaccessed (take n (overwrite xs i (touched now (get_elem? xs i))))
      ≡ map unaccessed (take n xs)
unaccessed-set [] i n now = refl
unaccessed-set (x ∷ xs) zero zero now = refl
unaccessed-set (x ∷ xs) zero (suc n) now = refl
unaccessed-set (x ∷ xs) (suc i) zero now = refl
unaccessed-set (x ∷ xs) (suc i) (suc n) now =
    rw (overwrite-cons x xs i (touched now (get_elem? xs i)))
      (ap (◌∷◌ (unaccessed x)) (unaccessed-set xs i n now))

module _ {S : Type 0} (ops : FloatOps) (codec : Codec) (c : SemanticCache S) (now : ℕ)
    (vec : List Float64) where
  entries_of-put_entries :
      (model : String) (es : List CacheEntry) → entries_of model (put_entries model es c) ≡ es
  entries_of-put_entries model es =
      ap get (lookup-insert model model es c.entries) ∙ rw (eq_refl model) refl

  finish_lookup-entries :
      (model : String) (s : Slice CacheEntry) (best : Option ℕ)
      → map unaccessed (entries_of model (finish_lookup ops codec c model now s best).cache)
        ≡ map unaccessed (live s)
  finish_lookup-entries model s none = rw (entries_of-put_entries model (live s)) refl
  finish_lookup-entries model s (some i) =
      rw
        (entries_of-put_entries model
          (take s.len (overwrite s.array i (touched now (get_elem? s.array i)))))
        (unaccessed-set s.array i s.len now)

  -- A lookup leaves, up to their order and the times of access, just the entries of the model that are
  -- not expired.
  pub lookup_vector-Perm :
      (model : String)
      → Perm
          (map unaccessed
            (entries_of model (lookup_vector ops codec c model now vec (entries_of model c)).cache))
          (map unaccessed (reject (is_expired c now) (entries_of model c)))
  unfolding reject remove_all indices_of
  lookup_vector-Perm model = go (entries_of model c) refl
    where
      go :
          (es : List CacheEntry)
          → entries_of model c ≡ es
          → Perm
              (map unaccessed (entries_of model (lookup_vector ops codec c model now vec es).cache))
              (map unaccessed (reject (is_expired c now) es))
      go [] same = rw same (Perm.refl [])
      go (e ∷ es) same =
          rw
            (finish_lookup-entries model
              (remove_all (indices_of (is_expired c now) 0 (e ∷ es)) (whole (e ∷ es)))
              (best_entry ops codec c now vec 0 (e ∷ es) none c.threshold))
            (Perm.map unaccessed (remove_all-Perm (is_expired c now) (e ∷ es)))
