-- ===== src/Witnesses/Reusing.antt =====
-- A response that is stored or loaded, and found again.
use momu_llmgateway.Base.{true, some, [], ◌∷◌, ◌≡◌, refl, arith}
use momu_llmgateway.Base.Dict.{lookup}
use momu_llmgateway.Base.Float.{float_ge, float_eq}
use momu_llmgateway.Base.Int.{pos}
use momu_llmgateway.Base.Text.{codes}
use momu_llmgateway.Cache.{SemanticCache, latest_user_content}
use momu_llmgateway.Cache.Lookup.{lookup_cached}
use momu_llmgateway.Cache.Redis.History.{saved}
use momu_llmgateway.Cache.Restart.{store_at, lookup_cached-load_from_store}
use momu_llmgateway.Cache.Reuse.{IsStorable, IsHit, lookup_cached-store_response}
use momu_llmgateway.Cache.Store.{store_response, load_from_store}
use momu_llmgateway.Embedding.{cosine_similarity}
use momu_llmgateway.Model.{ok}
use momu_llmgateway.Witnesses.{hello, greeting, test_ops}
use momu_llmgateway.Witnesses.Caching.{codec, cache}
use momu_llmgateway.Witnesses.Storing.{
  Log, logging, logging-RedisLaws, logging-IsEmpty, history, history-IsHistory,
}

cache-IsStorable : IsStorable codec cache hello greeting "hello" (1 ∷ []) "1"
unfolding latest_user_content
cache-IsStorable = record {
  embedded = record {
    embed = λ texts. ok ((1 ∷ []) ∷ []);
    others = [];
    enabled = refl;
    usable = refl;
    embedder = refl;
    embeds = refl;
  };
  plain = refl;
  prompt = refl;
  marshals = refl;
}

hello-prompt : latest_user_content hello.messages ≡ "hello"
unfolding latest_user_content
hello-prompt = refl

lookup_cached-store_response_example :
    IsHit test_ops codec
      (store_response codec hello greeting
        (record { stored = 100; accessed = 101; compacted = 102 })
        (cache, [])).0
      "small"
      140
      (1 ∷ [])
      (lookup_cached test_ops codec hello 140
        (store_response codec hello greeting
          (record { stored = 100; accessed = 101; compacted = 102 })
          (cache, [])).0)
unfolding lookup cosine_similarity float_ge float_eq
lookup_cached-store_response_example =
    lookup_cached-store_response test_ops codec cache hello hello greeting "hello" (1 ∷ []) "1"
      (record { stored = 100; accessed = 101; compacted = 102 }) [] 140 cache-IsStorable refl
      hello-prompt (omega arith) (omega arith) refl refl refl (λ e h. (greeting, refl))

-- The cache of a process that has just started.
abbrev started : SemanticCache Log
started = record {
  entries = [];
  max_entries = 2;
  threshold = 0;
  ttl = pos 50;
  max_prompt_length = pos 0;
  enabled = true;
  embedder = some (λ texts. ok ((1 ∷ []) ∷ []));
  store = some (store_at codes (λ bytes. "{}") logging 10);
  recoverable_models = "small" ∷ [];
}

abbrev after_load : SemanticCache Log
after_load =
    load_from_store
      (saved codes (λ bytes. "{}") logging logging-RedisLaws 3000000000
        (3, omega arith, omega arith) [] history)
      10 started

lookup_cached-load_from_store_example :
    IsHit test_ops codec after_load "small" 20
      (1 ∷ [])
      (lookup_cached test_ops codec hello 20 after_load)
unfolding cosine_similarity float_ge float_eq
lookup_cached-load_from_store_example =
    lookup_cached-load_from_store codes (λ bytes. "{}") logging logging-RedisLaws 3000000000
      (3, omega arith, omega arith) [] logging-IsEmpty history history-IsHistory
      (refl, (refl, (refl, tt))) test_ops codec started 10 20 "a1" "hello"
      (record { at = 9; model = "small"; key = "a1"; vector = 1 ∷ []; response = "{}" }) hello
      (omega arith) refl refl refl
      (record {
        embed = λ texts. ok ((1 ∷ []) ∷ []);
        others = [];
        enabled = refl;
        usable = refl;
        embedder = refl;
        embeds = refl;
      })
      hello-prompt refl refl (λ e h. (greeting, refl))
