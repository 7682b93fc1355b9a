-- ===== src/Lib.antt =====
-- A verification library of the Momu LLM gateway: an HTTP gateway that routes chat completions to the
-- providers of language models, with a semantic cache, circuit breakers, retries and a fallback.
--
-- The parts, and the files that model them.
--   Model, Config: internal/model and the records of internal/config/config.go; Config/Loading: its
--     functions.
--   Ingress/Service: internal/ingress/service.go. `handle_chat_completion` looks into the cache, asks the
--     router, asks the circuit breaker, runs the degradation engine on `build_send_fn`, counts, and
--     stores the answer; `handle_chat_completion_stream` routes, asks the breaker and forwards chunks.
--     Its collaborators are Go interfaces, and fields of the record `Services` here.
--   Ingress/Breakers: the circuit breaker manager of the same Go file; one breaker for each key.
--   Ingress/Handler: internal/ingress/handler.go, the handlers of chat completions and their replies;
--     Ingress/Handler/Events: the bytes of a stream, Ingress/Handler/Routes: the table of the routes.
--   Ingress/Middleware: internal/ingress/middleware_auth.go, middleware_ratelimit.go,
--     middleware_validation.go and middleware_requestid.go; Ingress/Middleware/Pipeline runs them in the order of the wiring.
--   Ingress/Health: internal/ingress/health.go.
--   Decision/CircuitBreaker: internal/decision/circuitbreaker.go.
--   Decision/Balancer: internal/decision/balancer.go, smooth weighted round robin.
--   Decision/Router: internal/decision/router.go; its strategies are in Decision/Capability
--     (strategy_capability.go and strategy_cost.go) and Decision/Semantic (strategy_semantic.go).
--   Fallback: internal/fallback/engine.go.
--   Egress/Registry: internal/egress/adapter.go; Egress/OpenAi and Egress/Anthropic: openai.go and
--     anthropic.go beside it, over the client of Egress/Http.
--   Wiring: cmd/gateway/main.go, how the parts are put together; Wiring/Service is the chat service on the
--     parts themselves, Wiring/Serving the way of a request from the first middleware to the reply, Wiring/Caching the
--     cache and its store, Wiring/Starting the start of the program with what fails in it, Wiring/Repeating a
--     request that comes again.
--   Cache: internal/cache/semantic.go, with its methods in Cache/Lookup and Cache/Store; the slices that
--     share an array are in Base/Slice. Cache/Redis: internal/cache/redis_store.go, the store of the
--     cache; its laws are in Cache/Redis/Laws.
--   Embedding: internal/embedding/embedding.go; Embedding/Pooling: what onnx.go computes
--     around a run; Embedding/Engine: the rest of onnx.go, and engine.go.
--   Witnesses: test data, and the theorems at concrete inputs.
--
-- The conventions. A method that changes its receiver returns the new one; a method under a mutex is one
-- step, and a call of a collaborator is a function on a state `S` of all that it sees or changes. A Go
-- error is a value of `GoError`, a pair of a value and an error a `Result`, a pointer that may be nil an
-- Option, a map an association list, a channel the list of what it delivers. Instants and durations
-- are nanoseconds. An int is an integer without a bound, as the counters stay far below 2^63; the
-- total of the tokens that a provider reports is wrapped. A float64 is its bit pattern with a computed order (Base/Float); its rounded arithmetic is the parameter `FloatOps`.
-- The balancer works over any arithmetic `Num`, and its fairness is about whole weights, on which float64
-- is exact below 2^53. No function takes fuel: all loops run over a list or a number.
--
-- Parameters: the context and the timer, encoding/json, net/http, Redis, crypto/sha256, viper and the
-- files, onnxruntime and the tokenizer. A stream's chunks are known as a whole once it is open. The JSON
-- of a response, which is bytes, is a string in the cache, and a function to its bytes is given.
-- Not modelled: the metrics and the log, the HTTP server, its signals and the shutdown, and calls through a nil engine.
pub mod Base
pub mod Cache
pub mod Config
pub mod Decision
pub mod Egress
pub mod Embedding
pub mod Fallback
pub mod Ingress
pub mod Model
pub mod Wiring
pub mod Witnesses
