-- ===== src/Ingress/Service.antt =====
-- internal/ingress/service.go: the chat service. Its five collaborators are Go interfaces, here the
-- record `Services` over a state `S` of all that they can see or change; the Prometheus counters are
-- the calls of `count`. A request's context is part of the state.
pub mod Answering
pub mod Caching
pub mod Degrading
pub mod Streaming
use momu_llmgateway.Base.{
  ℕ, String, Bool, true, false, Option, none, some, List, [], ◌∷◌, ◌==◌, if◌then◌else◌,
}
use momu_llmgateway.Base.Int.{ℤ}
use momu_llmgateway.Decision.Router.{RouteDecision}
use momu_llmgateway.Fallback.{SendFunc, Outcome, answered, failed}
use momu_llmgateway.Model.{
  ◌<>◌, Error, GoError, model_error, new_error, Result, ok, err, StandardRequest, StandardResponse,
  StreamChunk, Provider, err_code_invalid_request, err_code_circuit_open, err_code_provider_error,
}

-- The metrics, each with its labels.
pub data Metric : Type 0 where
  cache_hit_total : String → String → Metric
  request_total : String → String → String → Metric
  request_duration : String → String → Metric
  fallback_total : String → String → String → Metric
  tokens_total : String → String → String → ℤ → Metric

-- `SemanticCache`.
pub record CacheOps (S : Type 0) : Type 0 where
  pub lookup : StandardRequest → S → S × Option StandardResponse
  pub store : StandardRequest → StandardResponse → S → S × Option GoError

-- `chatServiceImpl`: router, cbManager, cache (which may be nil), fallbackEng and providerLookup.
pub record Services (S : Type 0) : Type 0 where
  pub route : StandardRequest → S → S × Result RouteDecision
  pub allow : String → String → S → S × Bool
  pub record_success : String → String → S → S
  pub record_failure : String → String → S → S
  pub cache : Option (CacheOps S)
  pub execute : String → String → Option (SendFunc S) → S → S × Outcome
  pub provider_lookup : String → Option (Provider S)
  pub count : Metric → S → S

abbrev pub provider_missing : String → GoError
provider_missing name =
    model_error (new_error err_code_provider_error ("provider not found: " <> name))

abbrev pub circuit_open : String → String → GoError
circuit_open provider model =
    model_error
      (new_error err_code_circuit_open ("circuit breaker open for " <> provider <> "/" <> model))

module _ {S : Type 0} (svc : Services S) where
  abbrev pub labelled : String → String → StandardResponse → StandardResponse
  labelled provider model resp = record resp {
    provider = provider;
    model = if resp.model == "" then model else resp.model;
  }

  -- What follows `provider.Send`.
  abbrev pub sent : String → String → S × Result StandardResponse → S × Result StandardResponse
  sent provider model (s, err error) = (svc.record_failure provider model s, err error)
  sent provider model (s, ok resp) =
      (svc.record_success provider model s, ok (labelled provider model resp))

  abbrev pub send_allowed :
      StandardRequest → Provider S → String → String → S × Bool → S × Result StandardResponse
  send_allowed req p provider model (s, allowed) =
      if allowed
      then sent provider model (p.send (record req { model = model; stream = false }) s)
      else (s, err (circuit_open provider model))

  abbrev pub send_found :
      StandardRequest → Option (Provider S) → String → String → S → S × Result StandardResponse
  send_found req none provider model s = (s, err (provider_missing provider))
  send_found req (some p) provider model s =
      send_allowed req p provider model (svc.allow provider model s)

  -- `buildSendFn`.
  unfoldable pub build_send_fn : StandardRequest → SendFunc S
  build_send_fn req provider model s =
      send_found req (svc.provider_lookup provider) provider model s

  abbrev pub counted_level : String → StandardRequest → RouteDecision → S → S
  counted_level level req dec s =
      if level == "fallback_exhausted"
      then s
      else if level == "primary"
      then s
      else svc.count (fallback_total level req.model dec.model) s

  abbrev pub status_of : String → String
  status_of level = if level == "fallback_exhausted" then "fallback_exhausted" else "success"

  abbrev pub count_answer : String → StandardResponse → StandardRequest → RouteDecision → S → S
  count_answer level resp req dec s =
      let s1 = svc.count (request_duration dec.provider_name dec.model) s in
      let s2 = counted_level level req dec s1 in
      let s3 = svc.count (request_total dec.provider_name dec.model (status_of level)) s2 in
      let s4 =
        svc.count (tokens_total dec.provider_name dec.model "prompt" resp.usage.prompt_tokens) s3 in
      svc.count (tokens_total dec.provider_name dec.model "completion" resp.usage.completion_tokens)
        s4

  abbrev pub with_provider : RouteDecision → StandardResponse → StandardResponse
  with_provider dec resp = record resp {
    provider = if resp.provider == "" then dec.provider_name else resp.provider;
  }

  -- `s.cache.Store`, whose error is dropped.
  abbrev pub stored : Option (CacheOps S) → String → StandardRequest → StandardResponse → S → S
  stored none level req resp s = s
  stored (some cache) level req resp s =
      if level == "fallback_exhausted" then s else (cache.store req resp s).0

  -- What follows `Execute`.
  abbrev pub executed : StandardRequest → RouteDecision → S × Outcome → S × Result StandardResponse
  executed req dec (s, failed error) = (s, err error)
  executed req dec (s, answered resp level) =
      let resp' = with_provider dec resp in
      (stored svc.cache level req resp' (count_answer level resp req dec s), ok resp')

  abbrev pub run_allowed : StandardRequest → RouteDecision → S × Bool → S × Result StandardResponse
  run_allowed req dec (s, allowed) =
      if allowed
      then executed req dec (svc.execute dec.provider_name dec.model (some (build_send_fn req)) s)
      else (s, err (circuit_open dec.provider_name dec.model))

  abbrev pub run_routed : StandardRequest → S × Result RouteDecision → S × Result StandardResponse
  run_routed req (s, err error) = (s, err error)
  run_routed req (s, ok dec) = run_allowed req dec (svc.allow dec.provider_name dec.model s)

  abbrev pub count_hit : StandardRequest → S → S
  count_hit req s =
      let s1 = svc.count (cache_hit_total req.model "semantic") s in
      let s2 = svc.count (request_total "cache" req.model "success") s1 in
      svc.count (request_duration "cache" req.model) s2

  abbrev pub run_missed :
      StandardRequest → S × Option StandardResponse → S × Result StandardResponse
  run_missed req (s, some resp) = (count_hit req s, ok resp)
  run_missed req (s, none) = run_routed req (svc.route req s)

  abbrev pub run_cached : Option (CacheOps S) → StandardRequest → S → S × Result StandardResponse
  run_cached none req s = run_routed req (svc.route req s)
  run_cached (some cache) req s = run_missed req (cache.lookup req s)

  -- `HandleChatCompletion`.
  unfoldable pub handle_chat_completion : StandardRequest → S → S × Result StandardResponse
  unfolding build_send_fn
  handle_chat_completion req s =
      if req.stream
      then (
        s,
        err (
            model_error (
              new_error err_code_invalid_request
                "use HandleChatCompletionStream for streaming requests")),
      )
      else run_cached svc.cache req s

  -- The goroutine that forwards the chunks: it records a failure for each chunk with an error, and a
  -- success at the end of a stream with none. Every chunk is passed on.
  unfoldable pub forward : String → String → List StreamChunk → Bool → S → S
  forward provider model [] got_error s =
      if got_error then s else svc.record_success provider model s
  forward provider model (chunk ∷ chunks) got_error s = elim chunk.error [
    | none ↦ forward provider model chunks got_error s
    | some error ↦ forward provider model chunks true (svc.record_failure provider model s)
  ]

  abbrev pub streamed :
      RouteDecision → S × Result (List StreamChunk) → S × Result (List StreamChunk)
  streamed dec (s, err error) = (svc.record_failure dec.provider_name dec.model s, err error)
  streamed dec (s, ok chunks) = (forward dec.provider_name dec.model chunks false s, ok chunks)

  abbrev pub stream_found :
      StandardRequest → RouteDecision → Option (Provider S) → S → S × Result (List StreamChunk)
  stream_found req dec none s = (s, err (provider_missing dec.provider_name))
  stream_found req dec (some p) s = streamed dec (p.send_stream req s)

  abbrev pub stream_allowed :
      StandardRequest → RouteDecision → S × Bool → S × Result (List StreamChunk)
  stream_allowed req dec (s, allowed) =
      if allowed
      then stream_found req dec (svc.provider_lookup dec.provider_name) s
      else (s, err (circuit_open dec.provider_name dec.model))

  abbrev pub stream_routed :
      StandardRequest → S × Result RouteDecision → S × Result (List StreamChunk)
  stream_routed req (s, err error) = (s, err error)
  stream_routed req (s, ok dec) = stream_allowed req dec (svc.allow dec.provider_name dec.model s)

  -- `HandleChatCompletionStream`, up to the end of the stream. The request that is handed to the
  -- router and to the provider is the caller's, with `Stream` set.
  unfoldable pub handle_chat_completion_stream : StandardRequest → S → S × Result (List StreamChunk)
  unfolding forward
  handle_chat_completion_stream req s =
      let req' = record req { stream = true } in stream_routed req' (svc.route req' s)
