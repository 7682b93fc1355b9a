-- ===== src/Cache/Redis/Saving.antt =====
-- What one call of `Save` does to Redis: internal/cache/redis_store.go.
use momu_llmgateway.Base.{
  ℕ, ◌+◌, ◌/◌, ◌^◌, ◌<◌, ◌≤◌, String, ◌||◌, ◌&&◌, ◌==◌, Option, none, some, List, [], ◌∷◌, ltb,
  if◌then◌else◌, ◌≡◌, refl, ap, ap₂, ◌∙◌, arith, All,
}
use momu_llmgateway.Base.Dict.{is_among}
use momu_llmgateway.Base.Float.{Float64}
use momu_llmgateway.Base.Int.{pos}
use momu_llmgateway.Cache.{CacheEntry}
use momu_llmgateway.Cache.Redis.{
  Redis, set, z_add, expire, vector_key, response_key, index_key, save,
}
use momu_llmgateway.Cache.Redis.Keys.{
  NoColon, vector_key-eq, response_key-eq, index_key-eq, vector-ne-response, response-ne-vector,
  index-ne-vector, index-ne-response, vector-ne-index, response-ne-index,
}
use momu_llmgateway.Cache.Redis.Laws.{RedisLaws, WholeSeconds, applied}
use momu_llmgateway.Cache.Vectors.{encode_vector}

-- A call of `Save`, and when.
pub record Saved : Type 0 where
  pub at : ℕ
  pub model : String
  pub key : String
  pub vector : List Float64
  pub response : String

-- No call was later than an instant.
abbrev pub SavedBy : ℕ → List Saved → Type 0
SavedBy t history = All (λ x. x.at ≤ t) history

-- The last call comes first. The keys hold no colon, as hexadecimal digits do not, and the vectors are
-- of 64-bit patterns.
abbrev pub IsHistory : List Saved → Type 0
IsHistory [] = Unit
IsHistory (x ∷ history) =
    NoColon x.key × All (λ v. v < 2 ^ 64) x.vector × SavedBy x.at history × IsHistory history

-- The last call for a model and a key, if its values live at `t`.
abbrev pub last_saved : ℕ → ℕ → String → String → List Saved → Option Saved
last_saved d t model key [] = none
last_saved d t model key (x ∷ history) =
    if x.model == model && x.key == key
    then (if ltb t (x.at + d) then some x else none)
    else last_saved d t model key history

-- The entry that a call saved.
abbrev pub saved_entry : Saved → CacheEntry
saved_entry x = record {
  model = x.model;
  key = x.key;
  vector = x.vector;
  response = x.response;
  stored_at = 0;
  last_access = 0;
}

module _ {R : Type 0} (to_bytes : String → List ℕ) (of_bytes : List ℕ → String) (redis : Redis R)
    (laws : RedisLaws redis) (d : ℕ) where
  open laws use {value, members, apply}

  -- The state after a history of calls.
  unfoldable pub save_all : List Saved → R → R
  save_all [] r = r
  save_all (x ∷ history) r =
      (save to_bytes of_bytes redis x.at x.model x.key x.vector x.response (pos d)
        (save_all history r)).0

  saved_lem :
      (x : Saved) (r : R)
      → (save to_bytes of_bytes redis x.at x.model x.key x.vector x.response (pos d) r).0
        ≡ applied apply x.at
            (set (vector_key x.model x.key) (encode_vector x.vector) (pos d)
              ∷ set (response_key x.model x.key) (to_bytes x.response) (pos d)
              ∷ z_add (index_key x.model) (x.at / 1000000000) x.key
              ∷ expire (index_key x.model) (pos d)
              ∷ [])
            r
  unfolding save
  saved_lem x r = laws.exec_lem x.at _ r

  module _ (positive : 0 < d) (t : ℕ) (x : Saved) (r : R) (later : x.at ≤ t) where
    abbrev pub after : R
    after = (save to_bytes of_bytes redis x.at x.model x.key x.vector x.response (pos d) r).0

    pub vector-save :
        (model key : String)
        → NoColon x.key
        → NoColon key
        → value t (vector_key model key) after ≡ (
            if x.model == model && x.key == key
            then (if ltb t (x.at + d) then some (encode_vector x.vector) else none)
            else value t (vector_key model key) r)
    vector-save model key h h' =
        ap (value t (vector_key model key)) (saved_lem x r)
        ∙ laws.value-expire x.at t d _ _ _ later (index-ne-vector x.model x.key model key)
        ∙ laws.value-z_add x.at t _ _ _ _ _ later (index-ne-vector x.model x.key model key)
        ∙ laws.value-set x.at t d _ _ _ _ later positive
        ∙ rw (response-ne-vector x.model x.key model key) (
            laws.value-set x.at t d _ _ _ _ later positive
            ∙ rw (vector_key-eq x.model x.key model key h h') refl)

    pub response-save :
        (model key : String)
        → NoColon x.key
        → NoColon key
        → value t (response_key model key) after ≡ (
            if x.model == model && x.key == key
            then (if ltb t (x.at + d) then some (to_bytes x.response) else none)
            else value t (response_key model key) r)
    response-save model key h h' =
        ap (value t (response_key model key)) (saved_lem x r)
        ∙ laws.value-expire x.at t d _ _ _ later (index-ne-response x.model x.key model key)
        ∙ laws.value-z_add x.at t _ _ _ _ _ later (index-ne-response x.model x.key model key)
        ∙ laws.value-set x.at t d _ _ _ _ later positive
        ∙ rw (response_key-eq x.model x.key model key h h') (
            ap
              (λ o.
                if x.model == model && x.key == key
                then (if ltb t (x.at + d) then some (to_bytes x.response) else none)
                else o)
              (laws.value-set x.at t d _ _ _ _ later positive
                ∙ rw (vector-ne-response x.model x.key model key) refl))

    pub members-save :
        (model key : String)
        → WholeSeconds d
        → is_among key (members t (index_key model) after) ≡ (
            if x.model == model
            then ltb t (x.at + d)
              && (x.key == key || is_among key (members x.at (index_key model) r))
            else is_among key (members t (index_key model) r))
    members-save model key whole =
        ap (λ s. is_among key (members t (index_key model) s)) (saved_lem x r)
        ∙ laws.members-add x.at t d _ _ _ _ _ _ later whole
        ∙ rw (index_key-eq x.model model) (
            ap₂ (λ a b. if x.model == model then ltb t (x.at + d) && (x.key == key || a) else b)
              (ap (is_among key) (sets x.at (omega arith))) (ap (is_among key) (sets t later)))
      where
        sets :
            (u : ℕ)
            → x.at ≤ u
            → members u (index_key model) (
                apply x.at
                  (set (response_key x.model x.key) (to_bytes x.response) (pos d))
                  (apply x.at (set (vector_key x.model x.key) (encode_vector x.vector) (pos d)) r))
              ≡ members u (index_key model) r
        sets u l =
            laws.members-set x.at u d _ _ _ _ l positive (response-ne-index x.model x.key model key)
            ∙ laws.members-set x.at u d _ _ _ _ l positive (vector-ne-index x.model x.key model key)
