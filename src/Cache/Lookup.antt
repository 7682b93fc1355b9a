-- ===== src/Cache/Lookup.antt =====
-- `Lookup` of internal/cache/semantic.go.
use momu_llmgateway.Base.{
  ℕ, suc, String, Bool, true, false, not, ◌||◌, ◌&&◌, Option, none, some, List, [], ◌∷◌, get_elem?,
  take, ◌==◌, if◌then◌else◌,
}
use momu_llmgateway.Base.Float.{Float64, FloatOps, float_ge}
use momu_llmgateway.Base.Slice.{Slice, whole, live, overwrite, remove_all, indices_of}
use momu_llmgateway.Decision.Semantic.{Embedder}
use momu_llmgateway.Embedding.{cosine_similarity}
use momu_llmgateway.Model.{StandardRequest, StandardResponse, Result, ok, err}
use momu_llmgateway.Cache.{
  CacheEntry, SemanticCache, Codec, latest_user_content, entries_of, put_entries, prompt_too_long,
  is_expired,
}

-- `best.LastAccess = now`, through the pointer into the array.
abbrev pub touched : ℕ → Option CacheEntry → Option CacheEntry
touched now none = none
touched now (some e) = some (record e { last_access = now })

abbrev pub decoded : Result StandardResponse → Option StandardResponse
decoded (err e) = none
decoded (ok resp) = some (record resp { cache_hit = true })

abbrev pub read_entry : Codec → Option CacheEntry → Option StandardResponse
read_entry codec none = none
read_entry codec (some e) = decoded (codec.unmarshal e.response)

-- What `Lookup` leaves and returns, and whether it counts a hit.
pub record LookupResult (S : Type 0) : Type 0 where
  pub cache : SemanticCache S
  pub response : Option StandardResponse
  pub counted : Bool

module _ {S : Type 0} where
  abbrev pub missed : SemanticCache S → LookupResult S
  missed c = record { cache = c; response = none; counted = false }

  module _ (ops : FloatOps) (codec : Codec) where
    -- The loop of `Lookup`, its best entry: the index and the score so far.
    unfoldable pub best_entry :
        SemanticCache S → ℕ → List Float64 → ℕ → List CacheEntry → Option ℕ → Float64 → Option ℕ
    best_entry c now vec i [] best score = best
    best_entry c now vec i (e ∷ es) best score =
        let next = cosine_similarity ops vec e.vector in
        let better = not (is_expired c now e) && float_ge next score in
        best_entry c now vec (suc i) es (if better then some i else best)
          (if better then next else score)

    -- `Lookup` after `removeExpired` has left the slice.
    abbrev pub finish_lookup :
        SemanticCache S → String → ℕ → Slice CacheEntry → Option ℕ → LookupResult S
    finish_lookup c model now s none = missed (put_entries model (live s) c)
    finish_lookup c model now s (some i) = record {
      cache =
          put_entries model (take s.len (overwrite s.array i (touched now (get_elem? s.array i))))
            c;
      response = read_entry codec (get_elem? s.array i);
      counted = true;
    }

    -- `Lookup` on the entries of the model.
    abbrev pub lookup_vector :
        SemanticCache S → String → ℕ → List Float64 → List CacheEntry → LookupResult S
    lookup_vector c model now vec [] = missed c
    lookup_vector c model now vec (e ∷ es) =
        finish_lookup c model now
          (remove_all (indices_of (is_expired c now) 0 (e ∷ es)) (whole (e ∷ es)))
          (best_entry c now vec 0 (e ∷ es) none c.threshold)

    abbrev lookup_embedded :
        SemanticCache S → String → ℕ → Result (List (List Float64)) → LookupResult S
    lookup_embedded c model now (ok (vec ∷ vecs)) =
        lookup_vector c model now vec (entries_of model c)
    lookup_embedded c model now _ = missed c

    abbrev lookup_text :
        SemanticCache S → StandardRequest → ℕ → Option Embedder → String → LookupResult S
    lookup_text c req now none text = missed c
    lookup_text c req now (some embed) text =
        if text == "" || prompt_too_long c text
        then missed c
        else lookup_embedded c req.model now (embed (text ∷ []))

    -- `Lookup`.
    unfoldable pub lookup_cached : StandardRequest → ℕ → SemanticCache S → LookupResult S
    unfolding best_entry remove_all indices_of latest_user_content
    lookup_cached req now c =
        if c.enabled
        then lookup_text c req now c.embedder (latest_user_content req.messages)
        else missed c
