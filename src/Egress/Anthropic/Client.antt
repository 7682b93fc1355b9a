-- ===== src/Egress/Anthropic/Client.antt =====
-- internal/egress/anthropic.go: the calls of the adapter for Anthropic, as a `model.Provider`.
use momu_llmgateway.Base.{String, false, Option, List, [], ◌∷◌, leb, if◌then◌else◌}
use momu_llmgateway.Base.Int.{◌+ℤ◌, wrap_int}
use momu_llmgateway.Egress.Http.{HttpResponse, HttpClient, health_result, get_request}
use momu_llmgateway.Model.{
  ◌<>◌, new_error, err_code_provider_error, GoError, model_error, Choice, StandardRequest,
  StandardResponse, StreamChunk, Result, ok, err, Provider,
}
use momu_llmgateway.Egress.Anthropic.{
  Anthropic, AnthropicJson, MessagesReply, build_request_body, build_stream_body, stream_lines,
}

abbrev pub first_choice : List String → List Choice
first_choice [] = []
first_choice (text ∷ texts) =
    record {
      index = 0;
      message = record { role = "assistant"; content = text };
      finish_reason = "stop";
    }
    ∷ []

module _ (json : AnthropicJson) where
  module _ {W : Type 0} (client : HttpClient W) (p : Anthropic) where
    abbrev pub messages_url : String
    messages_url = p.base_url <> "/v1/messages"

    abbrev pub status_error : HttpResponse → GoError
    status_error resp = model_error (new_error err_code_provider_error resp.status)

    abbrev pub response_of : Result MessagesReply → Result StandardResponse
    response_of (err e) = err e
    response_of (ok raw) = ok (record {
      id = raw.id;
      model = raw.model;
      provider = p.name;
      choices = first_choice raw.content;
      usage = record {
        prompt_tokens = raw.input_tokens;
        completion_tokens = raw.output_tokens;
        total_tokens = wrap_int (raw.input_tokens +ℤ raw.output_tokens);
      };
      cache_hit = false;
    })

    -- What follows `p.client.Do` in `Send`.
    abbrev pub read_response : W × Result HttpResponse → W × Result StandardResponse
    read_response (w, err e) = (w, err e)
    read_response (w, ok resp) = (
      w,
      (if leb 400 resp.status_code
          then err (status_error resp)
          else response_of (json.unmarshal_reply resp.body)),
    )

    abbrev pub send_body : W → Result String → W × Result StandardResponse
    send_body w (err e) = (w, err e)
    send_body w (ok body) = read_response (
        client
          (record {
            method = "POST";
            url = messages_url;
            headers =
                ("x-api-key", p.api_key)
                ∷ ("anthropic-version", "2023-06-01")
                ∷ ("Content-Type", "application/json")
                ∷ [];
            body = body;
          })
          w)

    -- `Send`.
    unfoldable pub send : StandardRequest → W → W × Result StandardResponse
    unfolding build_request_body
    send req w = send_body w (build_request_body json req)

    -- What follows `client.Do` in `StreamAnthropic`: the chunks that its goroutine sends.
    abbrev pub read_stream : W × Result HttpResponse → W × Result (List StreamChunk)
    read_stream (w, err e) = (w, err e)
    read_stream (w, ok resp) = (
      w,
      (if leb 400 resp.status_code
          then err (status_error resp)
          else ok (stream_lines json [] resp.lines resp.scan_error)),
    )

    abbrev pub stream_body : W → Result String → W × Result (List StreamChunk)
    stream_body w (err e) = (w, err e)
    stream_body w (ok body) = read_stream (
        client
          (record {
            method = "POST";
            url = messages_url;
            headers =
                ("x-api-key", p.api_key)
                ∷ ("anthropic-version", "2023-06-01")
                ∷ ("Content-Type", "application/json")
                ∷ ("Accept", "text/event-stream")
                ∷ [];
            body = body;
          })
          w)

    -- `SendStream` and `StreamAnthropic`.
    unfoldable pub send_stream : StandardRequest → W → W × Result (List StreamChunk)
    unfolding build_stream_body stream_lines
    send_stream req w = stream_body w (build_stream_body json req)

    -- `HealthCheck`: any response will do.
    unfoldable pub health_check : W → W × Option GoError
    health_check w = health_result (client (get_request p.base_url) w)

    -- The adapter as a `model.Provider`.
    abbrev pub provider : Provider W
    provider = record {
      name = p.name;
      models = p.models;
      send = send;
      send_stream = send_stream;
      health_check = health_check;
    }
