-- ===== src/Egress/OpenAi.antt =====
-- internal/egress/openai.go: the adapter for the providers that speak the protocol of OpenAI. What is
-- encoded and decoded are records here, and encoding/json is `OpenAiJson`.
use momu_llmgateway.Base.{
  String, Bool, true, false, not, ◌||◌, Option, List, [], ◌∷◌, leb, ◌==◌, if◌then◌else◌,
}
use momu_llmgateway.Base.Float.{Float64}
use momu_llmgateway.Base.Int.{ℤ}
use momu_llmgateway.Base.Text.{codes, codes_eq, has_prefix, trim_prefix, trim_space}
use momu_llmgateway.Egress.Http.{
  Line, HttpResponse, HttpClient, empty_chunk, done_chunk, error_chunk, scan_end, health_result,
  get_request,
}
use momu_llmgateway.Model.{
  ◌<>◌, new_error, err_code_provider_error, GoError, model_error, Delta, Message, StandardRequest,
  StandardResponse, StreamChunk, Result, ok, err, Provider,
}

pub record OpenAiCompatible : Type 0 where
  pub name : String
  pub base_url : String
  pub api_key : String
  pub models : List String

-- The map that `buildRequestBody` encodes; the last two keys are there if they are not none.
pub record ChatBody : Type 0 where
  pub model : String
  pub messages : List Message
  pub stream : Bool
  pub temperature : Option Float64
  pub max_tokens : Option ℤ

-- The struct that `parseSSELine` decodes; a choice is its delta.
pub record OpenAiEvent : Type 0 where
  pub id : String
  pub model : String
  pub choices : List Delta

pub record OpenAiJson : Type 0 where
  pub marshal_body : ChatBody → Result String
  pub unmarshal_response : String → Result StandardResponse
  pub unmarshal_event : Line → Result OpenAiEvent

abbrev pub first_delta : List Delta → Delta
first_delta [] = record { role = ""; content = "" }
first_delta (delta ∷ deltas) = delta

abbrev pub event_chunk : OpenAiEvent → StreamChunk
event_chunk event = record empty_chunk {
  id = event.id;
  model = event.model;
  delta = first_delta event.choices;
}

module _ (json : OpenAiJson) where
  -- `buildRequestBody`.
  unfoldable pub build_request_body : StandardRequest → Result String
  build_request_body req = json.marshal_body (record {
    model = req.model;
    messages = req.messages;
    stream = req.stream;
    temperature = req.temperature;
    max_tokens = req.max_tokens;
  })

  abbrev pub parsed_event : Result OpenAiEvent → Result (StreamChunk × Bool)
  parsed_event (err e) = err e
  parsed_event (ok event) = ok (event_chunk event, false)

  abbrev pub parse_payload : Line → Result (StreamChunk × Bool)
  parse_payload payload =
      if codes_eq payload (codes "[DONE]")
      then ok (done_chunk, true)
      else parsed_event (json.unmarshal_event payload)

  -- `parseSSELine`.
  unfoldable pub parse_sse_line : Line → Result (StreamChunk × Bool)
  unfolding has_prefix
  parse_sse_line text =
      let line = trim_space text in
      if codes_eq line [] || not (has_prefix (codes "data:") line)
      then ok (empty_chunk, false)
      else parse_payload (trim_space (trim_prefix (codes "data:") line))

  -- What a line sends, given what the lines behind it send.
  abbrev pub emit : Result (StreamChunk × Bool) → List StreamChunk → List StreamChunk
  emit (err e) rest = error_chunk e ∷ []
  emit (ok (chunk, done)) rest =
      if done
      then chunk ∷ []
      else if not (chunk.id == "") || not (chunk.delta.content == "")
      then chunk ∷ rest
      else rest

  -- The loop of `streamOpenAI` over the lines.
  unfoldable pub stream_lines : List Line → Option GoError → List StreamChunk
  unfolding parse_sse_line
  stream_lines [] scan_error = scan_end scan_error
  stream_lines (line ∷ lines) scan_error =
      emit (parse_sse_line line) (stream_lines lines scan_error)

  module _ {W : Type 0} (client : HttpClient W) (p : OpenAiCompatible) where
    abbrev pub bearer_headers : List (String × String)
    bearer_headers =
        ("Authorization", "Bearer " <> p.api_key) ∷ ("Content-Type", "application/json") ∷ []

    abbrev pub chat_url : String
    chat_url = p.base_url <> "/chat/completions"

    abbrev pub status_error : HttpResponse → GoError
    status_error resp =
        model_error (new_error err_code_provider_error (resp.status <> ": " <> resp.body))

    abbrev pub named_response : Result StandardResponse → Result StandardResponse
    named_response (err e) = err e
    named_response (ok out) = ok (record out { provider = p.name })

    -- What follows `p.client.Do` in `Send`.
    abbrev pub read_response : W × Result HttpResponse → W × Result StandardResponse
    read_response (w, err e) = (w, err e)
    read_response (w, ok resp) = (
      w,
      (if leb 400 resp.status_code
          then err (status_error resp)
          else named_response (json.unmarshal_response resp.body)),
    )

    abbrev pub send_body : W → Result String → W × Result StandardResponse
    send_body w (err e) = (w, err e)
    send_body w (ok body) = read_response (
        client (record { method = "POST"; url = chat_url; headers = bearer_headers; body = body })
          w)

    -- `Send`.
    unfoldable pub send : StandardRequest → W → W × Result StandardResponse
    unfolding build_request_body
    send req w = send_body w (build_request_body req)

    -- What follows `client.Do` in `streamOpenAI`: the chunks that its goroutine sends.
    abbrev pub read_stream : W × Result HttpResponse → W × Result (List StreamChunk)
    read_stream (w, err e) = (w, err e)
    read_stream (w, ok resp) = (
      w,
      (if leb 400 resp.status_code
          then err (status_error resp)
          else ok (stream_lines resp.lines resp.scan_error)),
    )

    abbrev pub stream_body : W → Result String → W × Result (List StreamChunk)
    stream_body w (err e) = (w, err e)
    stream_body w (ok body) = read_stream (
        client
          (record {
            method = "POST";
            url = chat_url;
            headers =
                ("Authorization", "Bearer " <> p.api_key)
                ∷ ("Content-Type", "application/json")
                ∷ ("Accept", "text/event-stream")
                ∷ [];
            body = body;
          })
          w)

    -- `SendStream`, which sets `Stream` in the caller's request, and `streamOpenAI`.
    unfoldable pub send_stream : StandardRequest → W → W × Result (List StreamChunk)
    unfolding build_request_body stream_lines
    send_stream req w = stream_body w (build_request_body (record req { stream = true }))

    -- `HealthCheck`: any response will do.
    unfoldable pub health_check : W → W × Option GoError
    health_check w = health_result (client (get_request p.base_url) w)

    -- The adapter as a `model.Provider`.
    abbrev pub provider : Provider W
    provider = record {
      name = p.name;
      models = p.models;
      send = send;
      send_stream = send_stream;
      health_check = health_check;
    }
