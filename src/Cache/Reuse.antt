-- ===== src/Cache/Reuse.antt =====
-- A response that was stored is found again: internal/cache/semantic.go, `Store` and then `Lookup`.
use momu_llmgateway.Base.{
  ℕ, ◌<◌, String, true, false, ◌||◌, ◌==◌, some, List, [], ◌∷◌, ◌++◌, ◌≡◌, inl, inr, refl, sym, ◌∙◌,
  ap, eq_refl,
}
use momu_llmgateway.Base.Dict.{insert, lookup-insert}
use momu_llmgateway.Base.Float.{Float64, FloatOps, float_ge}
use momu_llmgateway.Base.Slice.Positions.{All-get_elem?}
use momu_llmgateway.Cache.{
  CacheEntry, SemanticCache, Codec, entries_of, put_entries, prompt_too_long, latest_user_content,
  is_expired,
}
use momu_llmgateway.Cache.Hits.{Usable, IsAnswer, IsSurpassed, lookup_vector-IsAnswer}
use momu_llmgateway.Cache.Lookup.{LookupResult, lookup_cached, lookup_vector, decoded}
use momu_llmgateway.Cache.Store.{StoreTimes, trimmed, append_entry, store_response, new_entry}
use momu_llmgateway.Cache.Retention.{Holds, AccessedBy, trimmed-Holds}
use momu_llmgateway.Decision.Semantic.{Embedder}
use momu_llmgateway.Embedding.{cosine_similarity}
use momu_llmgateway.Model.{StandardRequest, StandardResponse, ok}
use mathlib.Core.Bool.{false≢true}

-- The cache is on and has an embedder, which gives the prompt `text`, of a good length, its vector.
pub record IsEmbedded {S : Type 0} (c : SemanticCache S) (text : String) (vec : List Float64)
    : Type 0 where
  pub embed : Embedder
  pub others : List (List Float64)
  pub enabled : c.enabled ≡ true
  pub usable : (text == "" || prompt_too_long c text) ≡ false
  pub embedder : c.embedder ≡ some embed
  pub embeds : embed (text ∷ []) ≡ ok (vec ∷ others)

-- What `Store` needs in order to store: besides, the request asks for no stream, its prompt is `text`,
-- and the response is encoded.
pub record IsStorable {S : Type 0} (codec : Codec) (c : SemanticCache S) (req : StandardRequest)
    (resp : StandardResponse) (text : String) (vec : List Float64) (json : String) : Type 0 where
  pub embedded : IsEmbedded c text vec
  pub plain : req.stream ≡ false
  pub prompt : latest_user_content req.messages ≡ text
  pub marshals : codec.marshal resp ≡ ok json

-- A hit whose entry is unexpired and no less similar to the vector than that is to itself.
pub record IsReused {S : Type 0} (ops : FloatOps) (codec : Codec) (c : SemanticCache S)
    (model : String) (now : ℕ) (vec : List Float64) (r : LookupResult S) : Type 0 where
  pub entry : CacheEntry
  pub held : Holds entry (entries_of model c)
  pub fresh : is_expired c now entry ≡ false
  pub similar :
      float_ge (cosine_similarity ops vec entry.vector) (cosine_similarity ops vec vec) ≡ true
  pub answer : r.response ≡ decoded (codec.unmarshal entry.response)
  pub counted : r.counted ≡ true

-- Every entry of the model can be decoded.
abbrev pub AreReadable : {S : Type 0} → Codec → SemanticCache S → String → Type 0
AreReadable codec c model =
    (e : CacheEntry)
    → Holds e (entries_of model c)
    → (resp : StandardResponse) × (codec.unmarshal e.response ≡ ok resp)

-- A lookup that reuses an entry and returns its response, decoded and marked as a hit.
pub record IsHit {S : Type 0} (ops : FloatOps) (codec : Codec) (c : SemanticCache S)
    (model : String) (now : ℕ) (vec : List Float64) (r : LookupResult S) : Type 0 where
  pub reused : IsReused ops codec c model now vec r
  pub decoded_response : StandardResponse
  pub decodes : codec.unmarshal reused.entry.response ≡ ok decoded_response
  pub hits : r.response ≡ some (record decoded_response { cache_hit = true })

module _ {S : Type 0} (ops : FloatOps) (codec : Codec) (c : SemanticCache S) where
  pub IsReused-IsHit :
      (model : String) (now : ℕ) (vec : List Float64) (r : LookupResult S)
      → IsReused ops codec c model now vec r
      → AreReadable codec c model
      → IsHit ops codec c model now vec r
  IsReused-IsHit model now vec r h readable =
      let (resp, reads) = readable h.entry h.held in
      record {
        reused = h;
        decoded_response = resp;
        decodes = reads;
        hits = h.answer ∙ ap decoded reads;
      }

  lookup_cached-looks :
      (req : StandardRequest) (text : String) (vec : List Float64) (now : ℕ)
      → IsEmbedded c text vec
      → latest_user_content req.messages ≡ text
      → lookup_cached ops codec req now c
        ≡ lookup_vector ops codec c req.model now vec (entries_of req.model c)
  unfolding lookup_cached
  lookup_cached-looks req text vec now h prompt =
      rw (h.enabled, prompt, h.embedder) (rw h.usable (rw h.embeds refl))

  answer-IsReused :
      (model : String) (now : ℕ) (vec : List Float64) (stored : CacheEntry) (r : LookupResult S)
      → Holds stored (entries_of model c)
      → stored.vector ≡ vec
      → is_expired c now stored ≡ false
      → float_ge (cosine_similarity ops vec vec) c.threshold ≡ true
      → IsAnswer ops codec c now vec (entries_of model c) r
      → IsReused ops codec c model now vec r
  answer-IsReused model now vec stored r (i, at) same fresh similar (inl (_, _, unusable)) =
      absurd (
        All-get_elem? (λ e. ¬ Usable ops codec c now vec e) (entries_of model c) i stored unusable
          at (record { fresh = fresh; similar = rw same similar }))
  answer-IsReused model now vec stored r (i, at) same fresh similar
        (inr (j, e, found, usable, most, answer, counted)) =
      let surpassed =
        All-get_elem? (IsSurpassed ops codec c now vec (cosine_similarity ops vec e.vector))
          (entries_of model c) i stored most at in
      record {
        entry = e;
        held = (j, found);
        fresh = usable.fresh;
        similar = elim surpassed [
          | inl old ↦ absurd (false≢true (sym fresh ∙ old))
          | inr (inl low) ↦ absurd (false≢true (sym low ∙ rw same similar))
          | inr (inr above) ↦ rw same at above
        ];
        answer = answer;
        counted = counted;
      }

  -- Where an unexpired entry bears the vector of the prompt, a lookup reuses an entry.
  pub lookup_cached-IsReused :
      (req : StandardRequest) (text : String) (vec : List Float64) (now : ℕ) (stored : CacheEntry)
      → IsEmbedded c text vec
      → latest_user_content req.messages ≡ text
      → Holds stored (entries_of req.model c)
      → stored.vector ≡ vec
      → is_expired c now stored ≡ false
      → float_ge (cosine_similarity ops vec vec) c.threshold ≡ true
      → IsReused ops codec c req.model now vec (lookup_cached ops codec req now c)
  lookup_cached-IsReused req text vec now stored h prompt held same fresh similar =
      rw (lookup_cached-looks req text vec now h prompt) (
        answer-IsReused req.model now vec stored
          (lookup_vector ops codec c req.model now vec (entries_of req.model c)) held same fresh
          similar (lookup_vector-IsAnswer ops codec c now vec req.model (entries_of req.model c)))

  store_response-stores :
      (req : StandardRequest) (resp : StandardResponse) (text : String) (vec : List Float64)
      (json : String) (times : StoreTimes) (s : S)
      → IsStorable codec c req resp text vec json
      → (store_response codec req resp times (c, s)).0
        ≡ append_entry times (new_entry codec req text vec json times) c
  unfolding store_response
  store_response-stores req resp text vec json times s h =
      rw (h.embedded.enabled, h.plain, h.prompt, h.embedded.embedder)
        (rw h.embedded.usable (rw h.embedded.embeds (rw h.marshals refl)))

-- The fields that a lookup reads, entries aside.
pub with_entries-IsEmbedded :
    {S : Type 0} (c : SemanticCache S) (es : List (String × List CacheEntry)) (text : String)
    (vec : List Float64)
    → IsEmbedded c text vec
    → IsEmbedded (record c { entries = es }) text vec
with_entries-IsEmbedded c es text vec h = record {
  embed = h.embed;
  others = h.others;
  enabled = h.enabled;
  usable = h.usable;
  embedder = h.embedder;
  embeds = h.embeds;
}

module _ {S : Type 0} (ops : FloatOps) (codec : Codec) (c : SemanticCache S) where
  -- A lookup after a store reuses an entry, whether it can be decoded or not.
  pub store_response-IsReused :
      (req req' : StandardRequest) (resp : StandardResponse) (text : String) (vec : List Float64)
      (json : String) (times : StoreTimes) (s : S) (now : ℕ)
      → IsStorable codec c req resp text vec json
      → req'.model ≡ req.model
      → latest_user_content req'.messages ≡ text
      → 0 < c.max_entries
      → AccessedBy times.accessed (entries_of req.model c)
      → is_expired c times.compacted (new_entry codec req text vec json times) ≡ false
      → is_expired c now (new_entry codec req text vec json times) ≡ false
      → float_ge (cosine_similarity ops vec vec) c.threshold ≡ true
      → IsReused ops codec
          (store_response codec req resp times (c, s)).0
          req'.model
          now
          vec
          (lookup_cached ops codec req' now (store_response codec req resp times (c, s)).0)
  store_response-IsReused req req' resp text vec json times s now h same prompt room accessed
        compacts fresh similar =
      let e = new_entry codec req text vec json times in
      let es = trimmed c times.compacted (entries_of req.model c ++ e ∷ []) in
      let c' = put_entries req.model es c in
      rw (store_response-stores ops codec c req resp text vec json times s h) (
        lookup_cached-IsReused ops codec c' req' text vec now e
          (with_entries-IsEmbedded c (insert req.model es c.entries) text vec h.embedded) prompt
          (rw (same, lookup-insert req.model req.model es c.entries)
            (rw (eq_refl req.model)
              (trimmed-Holds c times.compacted e (entries_of req.model c) room accessed compacts)))
          refl fresh similar)

  -- After `Store` has stored a response, a `Lookup` for the same prompt and model hits and counts it:
  -- it returns the response, decoded and marked as a hit, of an unexpired entry that is no less similar
  -- to the prompt's vector than that is to itself. So it is where the cache has room for an entry, no
  -- entry of the model was accessed after the new one, the new entry is unexpired when `Store` compacts
  -- and when `Lookup` runs, the vector's similarity to itself is at least the threshold, and every entry
  -- of the model can then be decoded.
  pub lookup_cached-store_response :
      (req req' : StandardRequest) (resp : StandardResponse) (text : String) (vec : List Float64)
      (json : String) (times : StoreTimes) (s : S) (now : ℕ)
      → IsStorable codec c req resp text vec json
      → req'.model ≡ req.model
      → latest_user_content req'.messages ≡ text
      → 0 < c.max_entries
      → AccessedBy times.accessed (entries_of req.model c)
      → is_expired c times.compacted (new_entry codec req text vec json times) ≡ false
      → is_expired c now (new_entry codec req text vec json times) ≡ false
      → float_ge (cosine_similarity ops vec vec) c.threshold ≡ true
      → AreReadable codec (store_response codec req resp times (c, s)).0 req'.model
      → IsHit ops codec
          (store_response codec req resp times (c, s)).0
          req'.model
          now
          vec
          (lookup_cached ops codec req' now (store_response codec req resp times (c, s)).0)
  lookup_cached-store_response req req' resp text vec json times s now h same prompt room accessed
        compacts fresh similar readable =
      let c' = (store_response codec req resp times (c, s)).0 in
      IsReused-IsHit ops codec c' req'.model now vec (lookup_cached ops codec req' now c')
        (store_response-IsReused req req' resp text vec json times s now h same prompt room accessed
          compacts fresh similar)
        readable
