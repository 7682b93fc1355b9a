-- ===== src/Cache/Restart.antt =====
-- What a cache answers with that `LoadFromStore` of internal/cache/semantic.go has filled from the Redis
-- store of internal/cache/redis_store.go.
use momu_llmgateway.Base.{
  ℕ, zero, suc, String, true, false, ◌==◌, eq_iff, eq_refl, some, List, [], ◌∷◌, ◌++◌, map, All,
  Any, ◌≡◌, refl, sym, ap, subst, ◌∙◌, inl, inr, Bool-cases,
}
use momu_llmgateway.Base.Dict.{lookup-insert, is_among}
use momu_llmgateway.Base.Float.{FloatOps, float_ge}
use momu_llmgateway.Cache.{
  CacheEntry, CacheStore, SemanticCache, Codec, entries_of, latest_user_content, is_expired,
}
use momu_llmgateway.Cache.Lookup.{lookup_cached}
use momu_llmgateway.Cache.Redis.{Redis, save, load_all}
use momu_llmgateway.Cache.Redis.History.{IsEmpty, saved}
use momu_llmgateway.Cache.Redis.Laws.{RedisLaws, WholeSeconds}
use momu_llmgateway.Cache.Redis.Restoring.{load_all-Restored}
use momu_llmgateway.Cache.Redis.Saving.{Saved, SavedBy, IsHistory, last_saved, saved_entry}
use momu_llmgateway.Cache.Retention.{Holds}
use momu_llmgateway.Cache.Reuse.{
  IsEmbedded, with_entries-IsEmbedded, IsReused, lookup_cached-IsReused, AreReadable, IsHit,
  IsReused-IsHit,
}
use momu_llmgateway.Cache.Store.{restarted, loaded, load_models, load_from, load_from_store}
use momu_llmgateway.Embedding.{cosine_similarity}
use momu_llmgateway.Model.{StandardRequest, Result, ok, err}
use mathlib.Core.Bool.{false≢true}
use mathlib.Core.Option.{none-ne-some}

Holds-append : (e : CacheEntry) (es more : List CacheEntry) → Holds e es → Holds e (es ++ more)
Holds-append e [] more (j, found) = absurd (none-ne-some e found)
Holds-append e (x ∷ es) more (zero, found) = (0, found)
Holds-append e (x ∷ es) more (suc j, found) =
    let (k, later) = Holds-append e es more (j, found) in (suc k, later)

append-Holds : (e : CacheEntry) (es more : List CacheEntry) → Holds e more → Holds e (es ++ more)
append-Holds e [] more h = h
append-Holds e (x ∷ es) more h = let (k, later) = append-Holds e es more h in (suc k, later)

-- A loaded entry is held, with its new times.
restarted-Holds :
    (now : ℕ) (e : CacheEntry) (es : List CacheEntry)
    → Any (λ x. x ≡ e) es
    → Holds (restarted now e) (map {A = CacheEntry} (restarted now) es)
restarted-Holds now e [] h = absurd h
restarted-Holds now e (x ∷ es) (inl same) = (0, ap (λ y. some (restarted now y)) same)
restarted-Holds now e (x ∷ es) (inr h) =
    let (k, later) = restarted-Holds now e es h in (suc k, later)

module _ {S : Type 0} (store : CacheStore S) (s : S) (now : ℕ) where
  loaded-Holds :
      (model model' : String) (e : CacheEntry) (r : Result (List CacheEntry)) (c : SemanticCache S)
      → Holds e (entries_of model c)
      → Holds e (entries_of model (loaded now model' r c))
  loaded-Holds model model' e (err error) c h = h
  loaded-Holds model model' e (ok []) c h = h
  loaded-Holds model model' e (ok (x ∷ xs)) c h =
      rw
        (lookup-insert model' model
          (entries_of model' c ++ map {A = CacheEntry} (restarted now) (x ∷ xs)) c.entries)
        (elim (Bool-cases (model' == model)) [
          | inl same ↦ rw same (
              Holds-append e (entries_of model' c) _
                (subst (λ m. Holds e (entries_of m c)) (sym ((eq_iff model' model).0 same)) h))
          | inr other ↦ rw other h
        ])

  loaded-new :
      (model : String) (e : CacheEntry) (es : List CacheEntry) (c : SemanticCache S)
      → Any (λ x. x ≡ e) es
      → Holds (restarted now e) (entries_of model (loaded now model (ok es) c))
  loaded-new model e [] c h = absurd h
  loaded-new model e (x ∷ xs) c h =
      rw
        (lookup-insert model model
          (entries_of model c ++ map {A = CacheEntry} (restarted now) (x ∷ xs)) c.entries)
        (rw (eq_refl model) (
          append-Holds (restarted now e) (entries_of model c) _ (restarted-Holds now e (x ∷ xs) h)))

  load_models-keeps :
      (model : String) (e : CacheEntry) (models : List String) (c : SemanticCache S)
      → Holds e (entries_of model c)
      → Holds e (entries_of model (load_models store s now models c))
  unfolding load_models
  load_models-keeps model e [] c h = h
  load_models-keeps model e (m ∷ models) c h =
      load_models-keeps model e models (loaded now m (store.load_all m s) c)
        (loaded-Holds model m e (store.load_all m s) c h)

  load_models-Holds :
      (model : String) (e : CacheEntry) (es : List CacheEntry) (models : List String)
      (c : SemanticCache S)
      → store.load_all model s ≡ ok es
      → Any (λ x. x ≡ e) es
      → is_among model models ≡ true
      → Holds (restarted now e) (entries_of model (load_models store s now models c))
  unfolding load_models
  load_models-Holds model e es [] c loads h among = absurd (false≢true among)
  load_models-Holds model e es (m ∷ models) c loads h among = elim (Bool-cases (m == model)) [
    | inl same ↦
        let m_eq = (eq_iff m model).0 same in
        load_models-keeps model (restarted now e) models (loaded now m (store.load_all m s) c) (
          subst (λ r. Holds (restarted now e) (entries_of model (loaded now m r c)))
            (sym (ap (λ n. store.load_all n s) m_eq ∙ loads))
            (subst (λ n. Holds (restarted now e) (entries_of model (loaded now n (ok es) c)))
              (sym m_eq) (loaded-new model e es c h)))
    | inr other ↦
        load_models-Holds model e es models (loaded now m (store.load_all m s) c) loads h
          (rw other at among)
  ]

  -- Loading changes the entries alone.
  loaded-entries :
      (model : String) (r : Result (List CacheEntry)) (c : SemanticCache S)
      → (es : List (String × List CacheEntry)) × (loaded now model r c ≡ record c { entries = es })
  loaded-entries model (err error) c = (c.entries, refl)
  loaded-entries model (ok []) c = (c.entries, refl)
  loaded-entries model (ok (x ∷ xs)) c = (_, refl)

  load_models-entries :
      (models : List String) (c : SemanticCache S)
      → (es : List (String × List CacheEntry)) × (load_models store s now models c
          ≡ record c { entries = es })
  unfolding load_models
  load_models-entries [] c = (c.entries, refl)
  load_models-entries (m ∷ models) c =
      let (es, one) = loaded-entries m (store.load_all m s) c in
      let (es', rest) = load_models-entries models (loaded now m (store.load_all m s) c) in
      (
        es',
        rest ∙ ap {A = SemanticCache S} {B = SemanticCache S} (λ b. record b { entries = es' }) one,
      )

-- The Redis store, as the cache sees it at an instant.
abbrev pub store_at :
    {R : Type 0} → (String → List ℕ) → (List ℕ → String) → Redis R → ℕ → CacheStore R
store_at to_bytes of_bytes redis now = record {
  save = λ model key vector response ttl r.
      (save to_bytes of_bytes redis now model key vector response ttl r).0;
  load_all = λ model r. load_all to_bytes of_bytes redis now model r;
}

module _ {R : Type 0} (to_bytes : String → List ℕ) (of_bytes : List ℕ → String) (redis : Redis R)
    (laws : RedisLaws redis) (d : ℕ) (whole : WholeSeconds d) (r : R)
    (empty : IsEmpty to_bytes of_bytes redis laws d whole r) (history : List Saved)
    (valid : IsHistory history)
    (readable : All (λ x. of_bytes (to_bytes x.response) ≡ x.response) history) (ops : FloatOps)
    (codec : Codec) where
  -- A lookup after a load reuses an entry, whether it can be decoded or not.
  load_from_store-IsReused :
      (c : SemanticCache R) (loading now : ℕ) (key text : String) (x : Saved)
      (req : StandardRequest)
      → SavedBy loading history
      → c.store ≡ some (store_at to_bytes of_bytes redis loading)
      → is_among req.model c.recoverable_models ≡ true
      → last_saved d loading req.model key history ≡ some x
      → IsEmbedded c text x.vector
      → latest_user_content req.messages ≡ text
      → is_expired c now (restarted loading (saved_entry x)) ≡ false
      → float_ge (cosine_similarity ops x.vector x.vector) c.threshold ≡ true
      → IsReused ops codec
          (load_from_store (saved to_bytes of_bytes redis laws d whole r history) loading c)
          req.model
          now
          x.vector
          (lookup_cached ops codec req now
            (load_from_store (saved to_bytes of_bytes redis laws d whole r history) loading c))
  unfolding load_from_store
  load_from_store-IsReused c loading now key text x req past stored among last embedded prompt fresh
        similar =
      let s = saved to_bytes of_bytes redis laws d whole r history in
      let store = store_at to_bytes of_bytes redis loading in
      let (es, loads, sound, complete) =
        load_all-Restored to_bytes of_bytes redis laws d whole r empty loading req.model history
          valid past readable in
      let (entries, same) = load_models-entries store s loading c.recoverable_models c in
      let held =
        load_models-Holds store s loading req.model (saved_entry x) es c.recoverable_models c loads
          (complete key x last) among in
      rw (ap (λ o. load_from o s loading c) stored ∙ same) (
        lookup_cached-IsReused ops codec (record c { entries = entries }) req text x.vector now
          (restarted loading (saved_entry x))
          (with_entries-IsEmbedded c entries text x.vector embedded) prompt
          (subst (λ b. Holds (restarted loading (saved_entry x)) (entries_of req.model b)) same
            held)
          refl fresh similar)

  -- What was saved before a restart answers after it. A cache with the Redis store, filled by
  -- `LoadFromStore` after a history of calls of `Save` as in `load_all-Restored`, hits for a prompt whose
  -- vector was the one last saved for some key of its model, alive when it was loaded: the lookup returns
  -- the response, decoded and marked as a hit, of an entry that is no less similar to the vector than
  -- that is to itself. So it is where the model is among the recoverable ones, the lookup is within the
  -- time to live of the load, the vector's similarity to itself is at least the threshold, and every
  -- entry of the model in the cache can then be decoded.
  pub lookup_cached-load_from_store :
      (c : SemanticCache R) (loading now : ℕ) (key text : String) (x : Saved)
      (req : StandardRequest)
      → SavedBy loading history
      → c.store ≡ some (store_at to_bytes of_bytes redis loading)
      → is_among req.model c.recoverable_models ≡ true
      → last_saved d loading req.model key history ≡ some x
      → IsEmbedded c text x.vector
      → latest_user_content req.messages ≡ text
      → is_expired c now (restarted loading (saved_entry x)) ≡ false
      → float_ge (cosine_similarity ops x.vector x.vector) c.threshold ≡ true
      → AreReadable codec
          (load_from_store (saved to_bytes of_bytes redis laws d whole r history) loading c)
          req.model
      → IsHit ops codec
          (load_from_store (saved to_bytes of_bytes redis laws d whole r history) loading c)
          req.model
          now
          x.vector
          (lookup_cached ops codec req now
            (load_from_store (saved to_bytes of_bytes redis laws d whole r history) loading c))
  lookup_cached-load_from_store c loading now key text x req past stored among last embedded prompt
        fresh similar readable =
      let c' = load_from_store (saved to_bytes of_bytes redis laws d whole r history) loading c in
      IsReused-IsHit ops codec c' req.model now x.vector (lookup_cached ops codec req now c')
        (load_from_store-IsReused c loading now key text x req past stored among last embedded
          prompt fresh similar)
        readable
