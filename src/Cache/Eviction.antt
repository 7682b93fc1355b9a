-- ===== src/Cache/Eviction.antt =====
-- The bound on the entries of a model: internal/cache/semantic.go, `Store` and `evictOne`.
use momu_llmgateway.Base.{
  ℕ, zero, suc, ◌-◌, ◌*◌, ◌/◌, ◌<◌, ◌≤◌, String, true, false, not, ◌||◌, Option, none, some, List,
  [], ◌∷◌, ◌++◌, length, get_elem?, All, ltb, ◌≡◌, inl, inr, refl, sym, ap, subst, ◌∙◌, arith,
  Bool-cases, length-append, ◌==◌, if◌then◌else◌,
}
use momu_llmgateway.Base.Dict.{lookup-insert}
use momu_llmgateway.Base.Float.{Float64}
use momu_llmgateway.Base.Slice.Positions.{get_elem?-at, get_elem?-bound, get_elem?-All}
use momu_llmgateway.Base.Slice.Swapping.{swap_remove-Perm, length-swap_remove, length-reject}
use momu_llmgateway.Base.Slice.{reject}
use momu_llmgateway.Cache.{
  CacheEntry, SemanticCache, Codec, entries_of, prompt_too_long, latest_user_content, is_expired,
}
use momu_llmgateway.Cache.Store.{
  StoreTimes, oldest_index, evict_one, trimmed, append_entry, store_response, store_text,
  store_embedded, store_marshalled, new_entry,
}
use momu_llmgateway.Decision.Semantic.{Embedder}
use momu_llmgateway.Model.{StandardRequest, StandardResponse, Result, ok, err}
use mathlib.Core.List.{Perm, append_assoc, append-nil}
use mathlib.Core.Option.{some-injective}

-- The entry at an index, and that no entry below another index was accessed earlier.
record IsOldest (all : List CacheEntry) (i oldest access : ℕ) : Type 0 where
  entry : CacheEntry
  at : get_elem? all oldest ≡ some entry
  accessed : entry.last_access ≡ access
  least : (j : ℕ) (x : CacheEntry) → j < i → get_elem? all j ≡ some x → access ≤ x.last_access

oldest_index-IsOldest :
    (all seen es : List CacheEntry) (i oldest access : ℕ)
    → all ≡ seen ++ es
    → i ≡ length seen
    → IsOldest all i oldest access
    → (final : ℕ) × IsOldest all (length all) (oldest_index i es oldest access) final
unfolding oldest_index
oldest_index-IsOldest all seen [] i oldest access same hi h = (
  access,
  subst (λ n. IsOldest all n oldest access)
      (hi ∙ ap length (sym (append-nil seen)) ∙ ap length (sym same)) h,
)
oldest_index-IsOldest all seen (e ∷ es) i oldest access same hi h =
    let at_i = get_elem?-at all seen e es i same hi in
    let rest = λ (o : ℕ). λ (a : ℕ).
      oldest_index-IsOldest all (seen ++ e ∷ []) es (suc i) o a
        (same ∙ sym (append_assoc seen (e ∷ []) es)) (omega (arith, length-append seen (e ∷ []))) in
    elim (Bool-cases (ltb e.last_access access)) [
      | inl older ↦ rw older (rest i e.last_access (younger at_i older))
      | inr other ↦ rw other (rest oldest access (kept at_i other))
    ]
  where
    at_most :
        (a : ℕ)
        → a ≤ access
        → a ≤ e.last_access
        → get_elem? all i ≡ some e
        → (j : ℕ) (x : CacheEntry) → j < suc i
        → get_elem? all j ≡ some x
        → a ≤ x.last_access
    at_most a below own at_i j x l found = elim (Bool-cases (ltb j i)) [
      | inl lower ↦
          let before = h.least j x (ground (arith, lower)) found in omega (arith, before, below)
      | inr here ↦
          let j_eq : j ≡ i = ground (arith, here, l) in
          subst (λ y. a ≤ y.last_access)
            (some-injective e x (sym at_i ∙ ap (get_elem? all) (sym j_eq) ∙ found)) own
    ]

    younger :
        get_elem? all i ≡ some e
        → ltb e.last_access access ≡ true
        → IsOldest all (suc i) i e.last_access
    younger at_i older = record {
      entry = e;
      at = at_i;
      accessed = refl;
      least = at_most e.last_access (ground (arith, older)) (omega arith) at_i;
    }

    kept :
        get_elem? all i ≡ some e
        → ltb e.last_access access ≡ false
        → IsOldest all (suc i) oldest access
    kept at_i other = record {
      entry = h.entry;
      at = h.at;
      accessed = h.accessed;
      least = at_most access (omega arith) (ground (arith, other)) at_i;
    }

-- Eviction takes out one entry of a list that has one, and no entry of the list was accessed before
-- it.
pub evict_one-Perm :
    (e : CacheEntry) (es : List CacheEntry)
    → (victim : CacheEntry) × Perm (victim ∷ evict_one (e ∷ es)) (e ∷ es)
      × All (λ x. victim.last_access ≤ x.last_access) (e ∷ es)
unfolding evict_one
evict_one-Perm e es =
    let (final, o) = oldest_index-IsOldest (e ∷ es) (e ∷ []) es 1 0 e.last_access refl refl start in
    (
      o.entry,
      swap_remove-Perm (e ∷ es) (oldest_index 1 es 0 e.last_access) o.entry o.at,
      get_elem?-All (e ∷ es) (λ j x found.
          subst (λ a. a ≤ x.last_access) (sym o.accessed)
            (o.least j x (get_elem?-bound (e ∷ es) j x found) found)),
    )
  where
    first :
        (j : ℕ) (x : CacheEntry)
        → j < 1
        → get_elem? (e ∷ es) j ≡ some x
        → e.last_access ≤ x.last_access
    first zero x l found =
        subst (λ y. e.last_access ≤ y.last_access) (some-injective e x found) (omega arith)
    first (suc j) x l found = absurd (omega (arith, l))

    start : IsOldest (e ∷ es) 1 0 e.last_access
    start = record { entry = e; at = refl; accessed = refl; least = first }

length-evict_one : (es : List CacheEntry) → length (evict_one es) ≡ length es - 1
unfolding evict_one
length-evict_one [] = omega arith
length-evict_one (e ∷ es) = length-swap_remove (e ∷ es) (oldest_index 1 es 0 e.last_access)

module _ {S : Type 0} where
  length-trimmed :
      (c : SemanticCache S) (now : ℕ) (es : List CacheEntry)
      → length es ≤ suc c.max_entries
      → length (trimmed c now es) ≤ c.max_entries
  unfolding trimmed
  length-trimmed c now es h =
      compacted (if ltb c.max_entries (length es) then evict_one es else es)
        (ground (arith, h, length-evict_one es))
    where
      compacted :
          (kept : List CacheEntry)
          → length kept ≤ c.max_entries
          → length (
              if ltb (c.max_entries * 3 / 2) (length kept)
              then reject (is_expired c now) kept
              else kept)
            ≤ c.max_entries
      compacted kept bound = elim (Bool-cases (ltb (c.max_entries * 3 / 2) (length kept))) [
        | inl large ↦ rw large (omega (arith, bound, length-reject (is_expired c now) kept))
        | inr small ↦ rw small bound
      ]

  -- No model has more entries than the limit.
  abbrev pub IsBounded : SemanticCache S → Type 0
  IsBounded c = (model : String) → length (entries_of model c) ≤ c.max_entries

  append_entry-IsBounded :
      (times : StoreTimes) (e : CacheEntry) (c : SemanticCache S)
      → IsBounded c
      → IsBounded (append_entry times e c)
  append_entry-IsBounded times e c h model =
      let es = entries_of e.model c ++ e ∷ [] in
      let trimmed_bound =
        length-trimmed c times.compacted es
          (omega (arith, length-append (entries_of e.model c) (e ∷ []), h e.model)) in
      elim (Bool-cases (e.model == model)) [
        | inl same ↦
            rw (lookup-insert e.model model (trimmed c times.compacted es) c.entries, same)
              trimmed_bound
        | inr other ↦
            rw (lookup-insert e.model model (trimmed c times.compacted es) c.entries, other)
              (h model)
      ]

  -- If every model is within the limit, `Store` keeps it so, whatever the embedder, the codec and the store do.
  pub store_response-IsBounded :
      (codec : Codec) (req : StandardRequest) (resp : StandardResponse) (times : StoreTimes)
      (c : SemanticCache S) (s : S)
      → IsBounded c
      → IsBounded (store_response codec req resp times (c, s)).0
  unfolding store_response
  store_response-IsBounded codec req resp times c s h =
      elim (Bool-cases (not c.enabled || req.stream)) [
        | inl skipped ↦ rw skipped h
        | inr used ↦ rw used (text c.embedder (latest_user_content req.messages))
      ]
    where
      marshalled :
          (t : String) (vec : List Float64) (json : Result String)
          → IsBounded (store_marshalled codec req t vec json times (c, s)).0
      marshalled t vec (err e) = h
      marshalled t vec (ok json) =
          append_entry-IsBounded times (new_entry codec req t vec json times) c h

      embedded :
          (t : String) (vecs : Result (List (List Float64)))
          → IsBounded (store_embedded codec req resp t vecs times (c, s)).0
      embedded t (err e) = h
      embedded t (ok []) = h
      embedded t (ok (vec ∷ vecs)) = marshalled t vec (codec.marshal resp)

      text :
          (embedder : Option Embedder) (t : String)
          → IsBounded (store_text codec req resp embedder t times (c, s)).0
      text none t = h
      text (some embed) t = elim (Bool-cases (t == "" || prompt_too_long c t)) [
        | inl skipped ↦ rw skipped h
        | inr used ↦ rw used (embedded t (embed (t ∷ [])))
      ]
