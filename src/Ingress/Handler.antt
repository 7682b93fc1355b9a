-- ===== src/Ingress/Handler.antt =====
-- internal/ingress/handler.go: what the chat handlers reply, once a request is parsed. A failed type
-- assertion is the reply `panicked`. Writing to the connection and the JSON of a chunk are taken to
-- succeed, as the code drops their errors.
pub mod Events
pub mod Replies
pub mod Routes
pub mod Streams
use momu_llmgateway.Base.{
  ℕ, String, Bool, true, false, ◌||◌, Option, none, some, List, [], ◌∷◌, ◌==◌, if◌then◌else◌,
}
use momu_llmgateway.Ingress.Service.{
  Services, handle_chat_completion, handle_chat_completion_stream,
}
use momu_llmgateway.Ingress.Middleware.{GinContext, RequestJson}
use momu_llmgateway.Model.{
  Error, GoError, model_error, other_error, new_error, Result, ok, err, StandardRequest,
  StandardResponse, StreamChunk, err_code_invalid_request, err_code_authentication,
  err_code_rate_limit, err_code_model_not_found, err_code_provider_error, err_code_circuit_open,
  err_code_timeout, err_code_fallback_exhausted, err_code_internal,
}

-- The switch of `errorToHTTPStatus`.
unfoldable pub status_of_code : String → ℕ
status_of_code code =
    if code == err_code_invalid_request || code == err_code_model_not_found
    then 400
    else if code == err_code_authentication
    then 401
    else if code == err_code_rate_limit
    then 429
    else if code == err_code_circuit_open
    then 503
    else if code == err_code_provider_error || code == err_code_timeout
    then 502
    else if code == err_code_fallback_exhausted
    then 503
    else 500

-- `errorToHTTPStatus`.
unfoldable pub error_to_http_status : GoError → ℕ
unfolding status_of_code
error_to_http_status (model_error e) = status_of_code e.code
error_to_http_status (other_error text) = 500

-- What is written for a stream.
pub data Event : Type 0 where
  chunk_event : StreamChunk → Event
  done_event : Event

-- `json_reply` says whether the header `X-Cache` is set; the error of `plain_error` is a text.
pub data Reply : Type 0 where
  json_reply : Bool → StandardResponse → Reply
  error_reply : ℕ → Error → Reply
  event_stream : List Event → Reply
  panicked : Reply
  plain_error : ℕ → String → Reply

abbrev pub reply_error : GoError → Reply
reply_error (model_error e) = error_reply (error_to_http_status (model_error e)) e
reply_error (other_error text) = panicked

-- `handleNonStreaming` after the call of the service.
unfoldable pub reply_of : Result StandardResponse → Reply
unfolding error_to_http_status
reply_of (err error) = reply_error error
reply_of (ok resp) = json_reply resp.cache_hit resp

-- The loop of `handleStream`, and what follows it.
unfoldable pub stream_events : List StreamChunk → List Event
stream_events [] = done_event ∷ []
stream_events (chunk ∷ chunks) = elim chunk.error [
  | none ↦ chunk_event chunk ∷ stream_events chunks
  | some error ↦ chunk_event chunk ∷ []
]

-- `handleStream` after the call of the service; whether the writer can flush.
unfoldable pub stream_reply_of : Bool → Result (List StreamChunk) → Reply
unfolding stream_events error_to_http_status
stream_reply_of flushes (err error) = reply_error error
stream_reply_of flushes (ok chunks) =
    if flushes
    then event_stream (stream_events chunks)
    else error_reply 500 (new_error err_code_internal "streaming not supported")

module _ {S : Type 0} (svc : Services S) where
  -- `handleNonStreaming`.
  unfoldable pub handle_non_streaming : StandardRequest → S → S × Reply
  handle_non_streaming req s =
      let (s', result) = handle_chat_completion svc req s in (s', reply_of result)

  -- `handleStream`.
  unfoldable pub handle_stream : Bool → StandardRequest → S → S × Reply
  handle_stream flushes req s =
      let (s', result) = handle_chat_completion_stream svc req s in
      (s', stream_reply_of flushes result)

  -- `chatCompletionHandler` once the body is parsed.
  abbrev pub dispatch : Bool → StandardRequest → S → S × Reply
  dispatch flushes req s =
      if req.stream then handle_stream flushes req s else handle_non_streaming req s

-- What the handler puts into a parsed request.
abbrev pub with_request_id : Option String → StandardRequest → StandardRequest
with_request_id none req = req
with_request_id (some id) req = record req { request_id = id }

module _ {S : Type 0} (json : RequestJson) where
  abbrev pub handle_parsed :
      Option (Services S) → Bool → GinContext → Option StandardRequest → S → S × Reply
  handle_parsed svc flushes c none s =
      (s, error_reply 400 (new_error err_code_invalid_request "invalid request body"))
  handle_parsed none flushes c (some req) s = (s, plain_error 501 "chat service not wired")
  handle_parsed (some svc) flushes c (some req) s =
      dispatch svc flushes (with_request_id c.request_id req) s

  abbrev pub handle_read : Option (Services S) → Bool → GinContext → Option String → S → S × Reply
  handle_read svc flushes c none s =
      (s, error_reply 400 (new_error err_code_invalid_request "failed to read body"))
  handle_read svc flushes c (some body) s =
      handle_parsed svc flushes c (json.standard_request body) s

  -- `chatCompletionHandler`; a service that is nil is none.
  unfoldable pub chat_completion_handler : Option (Services S) → Bool → GinContext → S → S × Reply
  unfolding handle_stream handle_non_streaming
  chat_completion_handler svc flushes c s = handle_read svc flushes c c.body s
