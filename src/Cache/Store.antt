-- ===== src/Cache/Store.antt =====
-- `Store`, `evictOne`, `compactExpired` and `LoadFromStore` of internal/cache/semantic.go.
use momu_llmgateway.Base.{
  ℕ, suc, ◌*◌, ◌/◌, String, not, ◌||◌, Option, none, some, List, [], ◌∷◌, ◌++◌, map, length, ltb,
  ◌==◌, if◌then◌else◌,
}
use momu_llmgateway.Base.Float.{Float64}
use momu_llmgateway.Base.Int.{ℤ}
use momu_llmgateway.Base.Slice.{whole, live, swap_remove, reject}
use momu_llmgateway.Decision.Semantic.{Embedder}
use momu_llmgateway.Model.{GoError, StandardRequest, StandardResponse, Result, ok, err}
use momu_llmgateway.Cache.{
  CacheEntry, CacheStore, SemanticCache, Codec, latest_user_content, entries_of, put_entries,
  prompt_too_long, is_expired,
}

-- The loop of `evictOne`: the index and the last access of the oldest so far.
unfoldable pub oldest_index : ℕ → List CacheEntry → ℕ → ℕ → ℕ
oldest_index i [] oldest access = oldest
oldest_index i (e ∷ es) oldest access =
    let older = ltb e.last_access access in
    oldest_index (suc i) es (if older then i else oldest) (if older then e.last_access else access)

-- `evictOne`.
unfoldable pub evict_one : List CacheEntry → List CacheEntry
unfolding oldest_index swap_remove
evict_one [] = []
evict_one (e ∷ es) = live (swap_remove (oldest_index 1 es 0 e.last_access) (whole (e ∷ es)))

-- The readings of the clock in one `Store`.
pub record StoreTimes : Type 0 where
  pub stored : ℕ
  pub accessed : ℕ
  pub compacted : ℕ

abbrev pub new_entry :
    Codec → StandardRequest → String → List Float64 → String → StoreTimes → CacheEntry
new_entry codec req text vec json times = record {
  model = req.model;
  key = codec.sha256_prefix text;
  vector = vec;
  response = json;
  stored_at = times.stored;
  last_access = times.accessed;
}

-- A loaded entry starts anew.
abbrev pub restarted : ℕ → CacheEntry → CacheEntry
restarted now e = record e { stored_at = now; last_access = now }

module _ {S : Type 0} where
  -- `compactExpired`.
  abbrev pub compact_expired : SemanticCache S → ℕ → List CacheEntry → List CacheEntry
  compact_expired c now es = reject (is_expired c now) es

  -- The size checks of `Store`, once the entry is appended.
  unfoldable pub trimmed : SemanticCache S → ℕ → List CacheEntry → List CacheEntry
  unfolding evict_one reject
  trimmed c now es =
      let kept = if ltb c.max_entries (length es) then evict_one es else es in
      if ltb (c.max_entries * 3 / 2) (length kept) then compact_expired c now kept else kept

  -- `c.store.Save`, whose error is dropped.
  abbrev pub saved : Option (CacheStore S) → CacheEntry → ℤ → S → S
  saved none e ttl s = s
  saved (some store) e ttl s = store.save e.model e.key e.vector e.response ttl s

  abbrev pub append_entry : StoreTimes → CacheEntry → SemanticCache S → SemanticCache S
  append_entry times e c =
      put_entries e.model (trimmed c times.compacted (entries_of e.model c ++ e ∷ [])) c

  module _ (codec : Codec) where
    abbrev pub store_marshalled :
        StandardRequest
        → String
        → List Float64
        → Result String
        → StoreTimes
        → SemanticCache S × S
        → SemanticCache S × S × Option GoError
    store_marshalled req text vec (err e) times (c, s) = (c, s, some e)
    store_marshalled req text vec (ok json) times (c, s) =
        let e = new_entry codec req text vec json times in
        (append_entry times e c, saved c.store e c.ttl s, none)

    abbrev pub store_embedded :
        StandardRequest
        → StandardResponse
        → String
        → Result (List (List Float64))
        → StoreTimes
        → SemanticCache S × S
        → SemanticCache S × S × Option GoError
    store_embedded req resp text (err e) times (c, s) = (c, s, some e)
    store_embedded req resp text (ok []) times (c, s) = (c, s, none)
    store_embedded req resp text (ok (vec ∷ vecs)) times (c, s) =
        store_marshalled req text vec (codec.marshal resp) times (c, s)

    abbrev pub store_text :
        StandardRequest
        → StandardResponse
        → Option Embedder
        → String
        → StoreTimes
        → SemanticCache S × S
        → SemanticCache S × S × Option GoError
    store_text req resp none text times (c, s) = (c, s, none)
    store_text req resp (some embed) text times (c, s) =
        if text == "" || prompt_too_long c text
        then (c, s, none)
        else store_embedded req resp text (embed (text ∷ [])) times (c, s)

    -- `Store`.
    unfoldable pub store_response :
        StandardRequest
        → StandardResponse
        → StoreTimes
        → SemanticCache S × S
        → SemanticCache S × S × Option GoError
    unfolding trimmed latest_user_content
    store_response req resp times (c, s) =
        if not c.enabled || req.stream
        then (c, s, none)
        else store_text req resp c.embedder (latest_user_content req.messages) times (c, s)

  -- `LoadFromStore`: the entries of one model, then those of every model. An error is passed over.
  abbrev pub loaded : ℕ → String → Result (List CacheEntry) → SemanticCache S → SemanticCache S
  loaded now model (ok (e ∷ es)) c =
      put_entries model (entries_of model c ++ map {A = CacheEntry} (restarted now) (e ∷ es)) c
  loaded now model _ c = c

  unfoldable pub load_models :
      CacheStore S → S → ℕ → List String → SemanticCache S → SemanticCache S
  load_models store s now [] c = c
  load_models store s now (m ∷ ms) c =
      load_models store s now ms (loaded now m (store.load_all m s) c)

  abbrev pub load_from : Option (CacheStore S) → S → ℕ → SemanticCache S → SemanticCache S
  load_from none s now c = c
  load_from (some store) s now c = load_models store s now c.recoverable_models c

  unfoldable pub load_from_store : S → ℕ → SemanticCache S → SemanticCache S
  unfolding load_models
  load_from_store s now c = load_from c.store s now c
