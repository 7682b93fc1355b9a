-- ===== src/Witnesses/Caching.antt =====
-- The semantic cache, the vectors and the padding at concrete values.
use momu_llmgateway.Base.{List, ℕ, ◌≤◌, String, true, none, some, [], ◌∷◌, All, map, arith, refl}
use momu_llmgateway.Base.Dict.{lookup}
use momu_llmgateway.Base.Int.{pos}
use momu_llmgateway.Base.Slice.{reject}
use momu_llmgateway.Cache.{CacheEntry, SemanticCache, Codec, entries_of, is_expired, new}
use momu_llmgateway.Cache.Lookup.{lookup_vector}
use momu_llmgateway.Cache.Store.{evict_one, store_response}
use momu_llmgateway.Cache.Eviction.{IsBounded, evict_one-Perm, store_response-IsBounded}
use momu_llmgateway.Cache.Hits.{IsAnswer, lookup_vector-IsAnswer}
use momu_llmgateway.Cache.Race.{overlapping_lookups, overlapping_lookups-Perm}
use momu_llmgateway.Cache.Removal.{unaccessed, lookup_vector-Perm}
use momu_llmgateway.Model.{ok}
use momu_llmgateway.Witnesses.{World, hello, greeting, test_ops}
use mathlib.Core.List.{Perm}

abbrev pub codec : Codec
codec = record {
  marshal = λ resp. ok resp.id;
  unmarshal = λ text. ok greeting;
  sha256_prefix = λ text. text;
}

abbrev entry : String → ℕ → ℕ → CacheEntry
entry key stored_at last_access = record {
  model = "small";
  key = key;
  vector = 1 ∷ [];
  response = key;
  stored_at = stored_at;
  last_access = last_access;
}

-- At 100, the entries that were stored before 50 are expired.
abbrev pub cache : SemanticCache World
cache = record {
  entries = ("small", entry "old" 10 90 ∷ entry "new" 80 95 ∷ []) ∷ [];
  max_entries = 2;
  threshold = 0;
  ttl = pos 50;
  max_prompt_length = pos 0;
  enabled = true;
  embedder = some (λ texts. ok ((1 ∷ []) ∷ []));
  store = none;
  recoverable_models = [];
}

lookup_vector-IsAnswer_example :
    IsAnswer test_ops codec cache 100 (1 ∷ []) (entry "old" 10 90 ∷ entry "new" 80 95 ∷ []) (
      lookup_vector test_ops codec cache "small" 100
        (1 ∷ [])
        (entry "old" 10 90 ∷ entry "new" 80 95 ∷ []))
lookup_vector-IsAnswer_example =
    lookup_vector-IsAnswer test_ops codec cache 100 (1 ∷ []) "small"
      (entry "old" 10 90 ∷ entry "new" 80 95 ∷ [])

lookup_vector-Perm_example :
    Perm
      (map unaccessed (
        entries_of "small"
          (lookup_vector test_ops codec cache "small" 100
            (1 ∷ [])
            (entries_of "small" cache)).cache))
      (map unaccessed (reject (is_expired cache 100) (entries_of "small" cache)))
lookup_vector-Perm_example = lookup_vector-Perm test_ops codec cache 100 (1 ∷ []) "small"

-- The limit of the cache of `new`, and what it holds.
abbrev empty_cache : SemanticCache World
empty_cache =
    new
      (record {
        enabled = true;
        similarity_threshold = 0;
        max_entries = pos 2;
        ttl = pos 50;
        max_prompt_length = pos 0;
      })
      cache.embedder none

empty_cache-IsBounded : IsBounded empty_cache
unfolding lookup
empty_cache-IsBounded = λ model. omega arith

store_response-IsBounded_example :
    IsBounded
      (store_response codec hello greeting
        (record { stored = 1; accessed = 2; compacted = 3 })
        (empty_cache, [])).0
store_response-IsBounded_example =
    store_response-IsBounded codec hello greeting
      (record { stored = 1; accessed = 2; compacted = 3 }) empty_cache [] empty_cache-IsBounded

evict_one-Perm_example :
    (victim : CacheEntry) × Perm
      (victim ∷ evict_one (entry "old" 10 90 ∷ entry "new" 80 95 ∷ []))
      (entry "old" 10 90 ∷ entry "new" 80 95 ∷ [])
    × All (λ x. victim.last_access ≤ x.last_access) (entry "old" 10 90 ∷ entry "new" 80 95 ∷ [])
evict_one-Perm_example = evict_one-Perm (entry "old" 10 90) (entry "new" 80 95 ∷ [])

abbrev tokens : String → List ℕ
tokens text = 101 ∷ 102 ∷ []

overlapping_lookups-Perm_example :
    Perm
      (entry "old" 10 90
        ∷ entry "new" 90 95
        ∷ overlapping_lookups cache 100
            (entry "old" 10 90 ∷ entry "kept" 80 95 ∷ entry "new" 90 95 ∷ []))
      (entry "old" 10 90 ∷ entry "kept" 80 95 ∷ entry "new" 90 95 ∷ [])
overlapping_lookups-Perm_example =
    overlapping_lookups-Perm cache 100 (entry "old" 10 90) (entry "new" 90 95)
      (entry "kept" 80 95 ∷ []) refl (refl, (refl, tt))
