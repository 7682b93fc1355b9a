-- ===== src/Witnesses/Repeating.antt =====
-- A repeated completion, a relayed stream, the embedding engine and the configuration, at concrete values.
use momu_llmgateway.Base.{ℕ, true, none, some, List, [], ◌∷◌, ◌≡◌, refl, arith, eq_iff, Option}
use momu_llmgateway.Base.Dict.{lookup}
use momu_llmgateway.Base.Float.{float_ge, float_eq}
use momu_llmgateway.Base.Text.{codes}
use momu_llmgateway.Cache.{SemanticCache, latest_user_content}
use momu_llmgateway.Cache.Lookup.{lookup_cached}
use momu_llmgateway.Config.{Config}
use momu_llmgateway.Config.Loading.{
  Viper, watch_and_reload, latest, valid_configs, watch_and_reload-latest,
}
use momu_llmgateway.Decision.Router.{RouteDecision}
use momu_llmgateway.Egress.Http.{Line, empty_chunk}
use momu_llmgateway.Egress.OpenAi.{OpenAiJson, stream_lines}
use momu_llmgateway.Embedding.{cosine_similarity}
use momu_llmgateway.Embedding.Engine.{Runtime}
use momu_llmgateway.Fallback.{answered}
use momu_llmgateway.Ingress.Handler.{stream_events}
use momu_llmgateway.Ingress.Handler.Events.{write_events, scan_lines}
use momu_llmgateway.Ingress.Handler.Events.Relaying.{object, relayed, stream_lines-write_events}
use momu_llmgateway.Ingress.Service.{Services, count_hit, handle_chat_completion}
use momu_llmgateway.Model.{StandardResponse, StreamChunk, Result, ok, err, other_error}
use momu_llmgateway.Wiring.Caching.{CacheLens, cache_ops, looked}
use momu_llmgateway.Wiring.Repeating.{ended, handle_chat_completion-repeated}
use momu_llmgateway.Witnesses.{World, hello, greeting, test_ops}
use momu_llmgateway.Witnesses.Caching.{codec, cache}
use momu_llmgateway.Witnesses.Wired.{config}

abbrev Cached : Type 0
Cached = SemanticCache World × World

abbrev lens : CacheLens Cached World
lens = record {
  get = λ g. g;
  put = λ x g. x;
  get-put = λ x g. refl;
  now = λ g. 140;
  times = λ g. record { stored = 100; accessed = 101; compacted = 102 };
}

abbrev decision : RouteDecision
decision = record { provider_name = "a"; model = "small"; strategy = "cost" }

abbrev service : Services Cached
service = record {
  route = λ req g. (g, ok decision);
  allow = λ provider model g. (g, true);
  record_success = λ provider model g. g;
  record_failure = λ provider model g. g;
  cache = some (cache_ops lens test_ops codec);
  execute = λ provider model send g. (g, answered greeting "primary");
  provider_lookup = λ name. none;
  count = λ metric g. g;
}

handle_chat_completion-repeated_example :
    (resp' : StandardResponse) × (resp'.cache_hit ≡ true)
    × (handle_chat_completion service hello (
          ended lens test_ops codec service refl hello hello decision greeting "primary" "hello" "1"
            (1 ∷ [])
            (cache, []))
        ≡ (
          count_hit service hello
              (looked lens test_ops codec
                (ended lens test_ops codec service refl hello hello decision greeting "primary"
                  "hello" "1"
                  (1 ∷ [])
                  (cache, []))
                (lookup_cached test_ops codec hello 140
                  (ended lens test_ops codec service refl hello hello decision greeting "primary"
                    "hello" "1"
                    (1 ∷ [])
                    (cache, [])).0)).0,
          ok resp',
        ))
unfolding lookup cosine_similarity float_ge float_eq latest_user_content
handle_chat_completion-repeated_example =
    handle_chat_completion-repeated lens test_ops codec service refl hello hello decision greeting
      "primary" "hello" "1" (1 ∷ []) (cache, [])
      (λ e. absurd (ground (arith, eq_iff "primary" "fallback_exhausted", e)))
      (record {
        embedded = record {
          embed = λ texts. ok ((1 ∷ []) ∷ []);
          others = [];
          enabled = refl;
          usable = refl;
          embedder = refl;
          embeds = refl;
        };
        plain = refl;
        prompt = refl;
        marshals = refl;
      })
      refl refl refl (omega arith) (omega arith) refl refl refl (λ e h. (greeting, refl))

-- A stream of one chunk, whose content is "hi".
abbrev chunks : List StreamChunk
chunks =
    record empty_chunk { id = "1"; model = "small"; delta = record { role = ""; content = "hi" } }
    ∷ []

abbrev to_json : StreamChunk → Result Line
to_json chunk = ok (object (codes "..."))

abbrev reading : OpenAiJson
reading = record {
  marshal_body = λ body. ok body.model;
  unmarshal_response = λ text. err (other_error "unexpected end of JSON input");
  unmarshal_event = λ line. ok (record { id = "1"; model = "small"; choices = [] });
}

stream_lines-write_events_example :
    stream_lines reading (scan_lines (write_events to_json [] (stream_events chunks))) none
    ≡ relayed (stream_events chunks)
stream_lines-write_events_example =
    stream_lines-write_events to_json reading chunks
      (record { inside = codes "..."; encoded = refl; one_line = omega arith; read_as = refl }, tt)

-- A runtime in which all goes well.
abbrev pub runtime : Runtime World ℕ ℕ ℕ
runtime = record {
  set_library_path = λ path w. path ∷ w;
  initialize_environment = λ w. (w, none);
  read_file = λ path w. ok "{}";
  parse_config = λ text. ok 1;
  tokenizer_from_file = λ config path w. ok 2;
  new_session = λ path inputs outputs w. (path ∷ w, ok 3);
  encode = λ tokenizer text. [];
  run = λ session ids mask types. ok [];
  destroy = λ session w. w;
}

-- A file is a configuration, or cannot be read.
abbrev pub viper : Viper Config (Option Config)
viper = record {
  read = λ path files. elim files [ none ↦ err (other_error "no such file") | some cfg ↦ ok cfg ];
  all_keys = λ v. [];
  get = λ key v. none;
  set = λ key value v. v;
  unmarshal = λ v. ok v;
  get_string_map = λ key v. [];
}

watch_and_reload-latest_example :
    watch_and_reload viper (λ s. s) "gateway.yaml" (some config) (some config ∷ none ∷ []) none ≡ (
      (
        latest viper
            (λ s. s)
            none
            (valid_configs viper (λ s. s) "gateway.yaml" (some config ∷ none ∷ []) []),
        valid_configs viper (λ s. s) "gateway.yaml" (some config ∷ none ∷ []) [],
      ),
      none,
    )
watch_and_reload-latest_example =
    watch_and_reload-latest viper (λ s. s) "gateway.yaml" (some config) (some config ∷ none ∷ [])
      none config refl
