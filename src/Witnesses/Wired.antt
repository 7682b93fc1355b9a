-- ===== src/Witnesses/Wired.antt =====
-- Two providers, an answer of each kind, and the gateway that is wired of them.
use momu_llmgateway.Base.{
  ◌≤◌, String, false, none, some, List, [], ◌∷◌, filter, if◌then◌else◌, Any, ◌≡◌, ◌↔◌, refl, arith,
  inl, eq_iff,
}
use momu_llmgateway.Base.Dict.{lookup}
use momu_llmgateway.Base.Int.{ℤ, pos}
use momu_llmgateway.Base.Text.{codes, codes_eq, has_prefix, split_slash}
use momu_llmgateway.Config.{Config, ProviderConfig}
use momu_llmgateway.Decision.Balancer.Rounds.{int_num}
use momu_llmgateway.Decision.Balancer.Selection.{Weights}
use momu_llmgateway.Decision.Router.{RouteDecision, route}
use momu_llmgateway.Egress.Anthropic.{
  AnthropicJson, AnthropicEvent, stream_lines, build_stream_body, split_system, parse_sse_event,
  event_chunk,
}
use momu_llmgateway.Egress.Anthropic.Client.{send_stream}
use momu_llmgateway.Egress.Anthropic.Stream.{carries, stream_lines-carries}
use momu_llmgateway.Egress.Http.{empty_chunk, error_chunk, Line, HttpClient}
use momu_llmgateway.Egress.OpenAi.{OpenAiJson}
use momu_llmgateway.Egress.Streams.{IsStream}
use momu_llmgateway.Fallback.{Context}
use momu_llmgateway.Ingress.Handler.Replies.{through_error}
use momu_llmgateway.Ingress.Service.Streaming.{error_count}
use momu_llmgateway.Ingress.Breakers.{new_manager}
use momu_llmgateway.Model.{other_error, StreamChunk, Result, ok, err, Provider}
use momu_llmgateway.Wiring.{collect_all_models, new_provider, provider_lookup, build_candidates}
use momu_llmgateway.Wiring.Models.{NoRepeat, IsConfigured, collect_all_models-IsConfigured}
use momu_llmgateway.Wiring.Providers.{names, IsProviding}
use momu_llmgateway.Wiring.Routing.{router, route-IsProviding}
use momu_llmgateway.Wiring.Service.{Gateway}
use momu_llmgateway.Wiring.Streams.{send_stream-drained}
use momu_llmgateway.Wiring.Weights.{build_candidates-Weights}
use momu_llmgateway.Witnesses.{World, hello, provider_a}
use momu_llmgateway.Witnesses.Admitting.{keys, request}
use momu_llmgateway.Witnesses.Balancing.{balancer}

abbrev hi : AnthropicEvent
hi = record {
  kind = "content_block_delta";
  message_id = "";
  message_role = "";
  message_model = "";
  delta_kind = "text_delta";
  delta_text = "hi";
}

-- One payload is a piece of text, one an event of the kind "error", and the rest is malformed.
abbrev decode_event : Line → Result AnthropicEvent
decode_event line =
    if codes_eq line (codes "{1}")
    then ok hi
    else if codes_eq line (codes "{2}")
    then ok (record hi { kind = "error" })
    else err (other_error "invalid character")

abbrev anthropic : AnthropicJson
anthropic = record {
  marshal_body = λ body. ok body.system;
  unmarshal_reply = λ text. err (other_error "unexpected end of JSON input");
  unmarshal_event = decode_event;
}

abbrev open_ai : OpenAiJson
open_ai = record {
  marshal_body = λ body. ok body.model;
  unmarshal_response = λ text. err (other_error "unexpected end of JSON input");
  unmarshal_event = λ line. err (other_error "invalid character");
}

abbrev lines : List Line
lines =
    codes "event: content_block_delta"
    ∷ codes "data: {1}"
    ∷ []
    ∷ codes "event: error"
    ∷ codes "data: {2}"
    ∷ []

abbrev http : ℤ → HttpClient World
http timeout request s = (
  request.method ∷ s,
  ok (record {
    status_code = 200;
    status = "200 OK";
    body = "";
    lines = lines;
    scan_error = some (other_error "unexpected EOF");
  }),
)

abbrev pub provider_config : String → List String → ProviderConfig
provider_config kind models = record {
  kind = kind;
  base_url = "http://localhost";
  api_key = "k";
  models = models;
  weight = pos 5;
  timeout = pos 0;
}

abbrev pub pcs : List (String × ProviderConfig)
pcs =
    ("a", provider_config "anthropic" ("small" ∷ "large" ∷ []))
    ∷ ("b", provider_config "openai" ("small" ∷ []))
    ∷ []

names-NoRepeat : NoRepeat (names pcs)
names-NoRepeat = (refl, (refl, tt))

stream_lines-carries_example :
    stream_lines anthropic [] lines none
    ≡ stream_lines anthropic [] (filter (carries anthropic) lines) none
stream_lines-carries_example = stream_lines-carries anthropic [] lines none

collect_all_models-IsConfigured_example :
    NoRepeat (collect_all_models pcs)
    × ((model : String) → Any (λ m. m ≡ model) (collect_all_models pcs) ↔ IsConfigured pcs model)
collect_all_models-IsConfigured_example = collect_all_models-IsConfigured pcs

build_candidates-Weights_example :
    Weights balancer.cfg
      (build_candidates anthropic open_ai http int_num pcs (provider_a ∷ []) "small")
      (5 ∷ [])
unfolding lookup
build_candidates-Weights_example =
    build_candidates-Weights anthropic open_ai http pcs balancer.cfg "small" (provider_a ∷ [])

abbrev streamed : List StreamChunk
streamed =
    record empty_chunk { delta = record { role = ""; content = "hi" } }
    ∷ error_chunk (other_error "unexpected EOF")
    ∷ []

delivered :
    ((new_provider anthropic open_ai http "a" (provider_config "anthropic" [])).send_stream hello
      []).1
    ≡ ok streamed
unfolding new_provider send_stream build_stream_body split_system stream_lines parse_sse_event
    event_chunk has_prefix
delivered = refl

send_stream-drained_example :
    IsStream streamed × ((through_error streamed ≡ streamed) × (error_count streamed ≤ 1))
send_stream-drained_example =
    send_stream-drained anthropic open_ai http "a" (provider_config "anthropic" []) hello []
      streamed delivered

abbrev pub config : Config
config = record {
  server = record { port = pos 8080; read_timeout = pos 0; write_timeout = pos 0 };
  redis = record { addr = ""; password = ""; db = pos 0 };
  auth = record { api_keys = keys };
  providers = pcs;
  routing = record { strategies = "cost_cascade" ∷ []; rules = []; cascade = [] };
  semantic_routing = record {
    similarity_threshold = 0;
    max_prompt_length = pos 0;
    categories = [];
  };
  semantic_cache = record {
    enabled = false;
    similarity_threshold = 0;
    ttl = pos 0;
    max_entries = pos 0;
    max_prompt_length = pos 0;
  };
  fallback = record { retry_max = pos 1; retry_backoff = pos 5; chains = [] };
  circuit_breaker = record { failure_threshold = pos 3; window = pos 0; cooldown = pos 10 };
  balancer = record {
    concurrency_penalty_coefficient = 0;
    latency_penalty_coefficient = 0;
    warmup_enabled = false;
    warmup_duration = pos 0;
    health_window_size = pos 0;
    health_min_requests = pos 0;
  };
  embedding = record { onnx_library_path = ""; model_path = "" };
}

plain_model : split_slash hello.model ≡ none
unfolding split_slash
plain_model = refl

route-IsProviding_example :
    (dec : RouteDecision) × (((route int_num
          (router anthropic open_ai http int_num pcs config none)
          hello
          balancer).1
        ≡ ok dec)
      × ((p : Provider World) × ((provider_lookup anthropic open_ai http pcs dec.provider_name
              ≡ some p)
            × IsProviding dec.provider_name dec.model p)))
route-IsProviding_example =
    route-IsProviding anthropic open_ai http int_num pcs config none hello balancer names-NoRepeat
      plain_model (λ e. ground (arith, e, eq_iff "small" "")) (inl (inl refl))

abbrev context : Context (Gateway ℤ World)
context = record { error = λ g. none; wait = λ d g. (g, none) }

abbrev gateway : Gateway ℤ World
gateway = record { balancer = balancer; manager = new_manager (pos 3) (pos 10); world = [] }
