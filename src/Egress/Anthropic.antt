-- ===== src/Egress/Anthropic.antt =====
-- internal/egress/anthropic.go: the adapter for the messages of Anthropic. What is encoded and decoded
-- are records here, and encoding/json is `AnthropicJson`.
pub mod Client
pub mod Stream
use momu_llmgateway.Base.{
  ℕ, String, Bool, true, false, not, ◌&&◌, ◌||◌, Option, none, some, List, [], ◌∷◌, ◌++◌, leb, ◌==◌,
  if◌then◌else◌,
}
use momu_llmgateway.Base.Int.{ℤ, ◌+ℤ◌, wrap_int}
use momu_llmgateway.Base.Text.{codes, codes_eq, has_prefix, trim_prefix, trim_space}
use momu_llmgateway.Egress.Http.{
  Line, HttpRequest, HttpResponse, HttpClient, empty_chunk, done_chunk, error_chunk, scan_end,
  health_result, get_request,
}
use momu_llmgateway.Model.{
  ◌<>◌, new_error, err_code_provider_error, GoError, model_error, Delta, Message, Choice,
  StandardRequest, StandardResponse, StreamChunk, Result, ok, err, Provider,
}

pub record Anthropic : Type 0 where
  pub name : String
  pub base_url : String
  pub api_key : String
  pub models : List String

-- The map that is encoded; a `max_tokens` of none is null, and `stream` is a key of a stream's map.
pub record MessagesBody : Type 0 where
  pub model : String
  pub system : String
  pub messages : List Message
  pub max_tokens : Option ℤ
  pub stream : Bool

-- The struct that `Send` decodes; a piece of content is its text.
pub record MessagesReply : Type 0 where
  pub id : String
  pub model : String
  pub content : List String
  pub input_tokens : ℤ
  pub output_tokens : ℤ

-- The struct that `parseAnthropicSSEEvent` decodes, less the fields that nothing reads.
pub record AnthropicEvent : Type 0 where
  pub kind : String
  pub message_id : String
  pub message_role : String
  pub message_model : String
  pub delta_kind : String
  pub delta_text : String

pub record AnthropicJson : Type 0 where
  pub marshal_body : MessagesBody → Result String
  pub unmarshal_reply : String → Result MessagesReply
  pub unmarshal_event : Line → Result AnthropicEvent

-- The loop of `buildRequestBody`: the system prompt and the other messages so far.
unfoldable pub split_system : String → List Message → List Message → String × List Message
split_system system messages [] = (system, messages)
split_system system messages (m ∷ ms) =
    if m.role == "system"
    then split_system m.content messages ms
    else split_system system (messages ++ m ∷ []) ms

-- The switch of `parseAnthropicSSEEvent`.
unfoldable pub event_chunk : AnthropicEvent → StreamChunk × Bool
event_chunk event =
    if event.kind == "message_start"
    then (
      record empty_chunk {
        id = event.message_id;
        model = event.message_model;
        delta = record { role = event.message_role; content = "" };
      },
      false,
    )
    else if event.kind == "content_block_delta"
    then (if event.delta_kind == "text_delta"
        then (
          record empty_chunk { delta = record { role = ""; content = event.delta_text } },
          false,
        )
        else (empty_chunk, false))
    else if event.kind == "message_stop"
    then (done_chunk, true)
    else (empty_chunk, false)

module _ (json : AnthropicJson) where
  abbrev pub body_of : StandardRequest → Bool → String × List Message → MessagesBody
  body_of req stream (system, messages) = record {
    model = req.model;
    system = system;
    messages = messages;
    max_tokens = req.max_tokens;
    stream = stream;
  }

  -- `buildRequestBody`.
  unfoldable pub build_request_body : StandardRequest → Result String
  unfolding split_system
  build_request_body req = json.marshal_body (body_of req false (split_system "" [] req.messages))

  -- The first lines of `StreamAnthropic`, which build the body once more.
  unfoldable pub build_stream_body : StandardRequest → Result String
  unfolding split_system
  build_stream_body req = json.marshal_body (body_of req true (split_system "" [] req.messages))

  abbrev pub parsed_event : Result AnthropicEvent → Result (StreamChunk × Bool)
  parsed_event (err e) = err e
  parsed_event (ok event) = ok (event_chunk event)

  -- `parseAnthropicSSEEvent`.
  unfoldable pub parse_sse_event : Line → Line → Result (StreamChunk × Bool)
  unfolding has_prefix event_chunk
  parse_sse_event event_type text =
      let event = trim_space event_type in
      let payload = trim_space text in
      if codes_eq event [] && codes_eq payload []
      then ok (empty_chunk, false)
      else if not (has_prefix (codes "{") payload)
      then ok (empty_chunk, false)
      else parsed_event (json.unmarshal_event payload)

  -- What a line of data sends, given what the lines behind it send.
  abbrev pub emit : Result (StreamChunk × Bool) → List StreamChunk → List StreamChunk
  emit (err e) rest = error_chunk e ∷ []
  emit (ok (chunk, done)) rest =
      if done
      then chunk ∷ []
      else if not (chunk.id == "")
          || (not (chunk.delta.content == "") || not (chunk.delta.role == ""))
      then chunk ∷ rest
      else rest

  -- The loop of `StreamAnthropic` over the lines; the first argument is `currentEvent`.
  unfoldable pub stream_lines : Line → List Line → Option GoError → List StreamChunk
  unfolding parse_sse_event
  stream_lines event [] scan_error = scan_end scan_error
  stream_lines event (line ∷ lines) scan_error =
      let named = stream_lines (trim_space (trim_prefix (codes "event:") line)) lines scan_error in
      let rest = stream_lines [] lines scan_error in
      let same = stream_lines event lines scan_error in
      if has_prefix (codes "event:") line
      then named
      else if has_prefix (codes "data:") line
      then emit (parse_sse_event event (trim_prefix (codes "data:") line)) rest
      else same
