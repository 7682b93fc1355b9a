-- ===== src/Egress/Streams/Messages.antt =====
-- The streams that the adapter of internal/egress/anthropic.go delivers.
use momu_llmgateway.Base.{
  Bool, true, false, not, ◌&&◌, ◌||◌, Bool-cases, leb, String, Option, List, [], ◌∷◌, ◌==◌,
  if◌then◌else◌, refl, inl, inr,
}
use momu_llmgateway.Base.Text.{codes, codes_eq, has_prefix, trim_prefix, trim_space}
use momu_llmgateway.Egress.Anthropic
use momu_llmgateway.Egress.Anthropic.Client
use momu_llmgateway.Egress.Http.{Line, HttpClient, HttpResponse, empty_chunk}
use momu_llmgateway.Model.{GoError, StandardRequest, StreamChunk, Result, ok, err}
use momu_llmgateway.Egress.Streams.{
  IsStream, IsStreamed, IsParsed, scan_end-IsStream, either-IsParsed,
}

module _ (json : Anthropic.AnthropicJson) where
  messages_event-IsParsed :
      (event : Anthropic.AnthropicEvent) → IsParsed (ok (Anthropic.event_chunk event))
  unfolding Anthropic.event_chunk
  messages_event-IsParsed event = elim (Bool-cases (event.kind == "message_start")) [
    | inl start ↦ rw start (refl, refl)
    | inr a ↦ elim (Bool-cases (event.kind == "content_block_delta")) [
      | inl delta ↦ elim (Bool-cases (event.delta_kind == "text_delta")) [
        | inl text ↦ rw (a, delta, text) (refl, refl)
        | inr other ↦ rw (a, delta, other) (refl, refl)
      ]
      | inr b ↦ elim (Bool-cases (event.kind == "message_stop")) [
        | inl stop ↦ rw (a, b, stop) (refl, refl)
        | inr c ↦ rw (a, b, c) (refl, refl)
      ]
    ]
  ]

  messages_result-IsParsed :
      (r : Result Anthropic.AnthropicEvent) → IsParsed (Anthropic.parsed_event json r)
  messages_result-IsParsed (err e) = tt
  messages_result-IsParsed (ok event) = messages_event-IsParsed event

  parse_sse_event-IsParsed :
      (event text : Line) → IsParsed (Anthropic.parse_sse_event json event text)
  unfolding Anthropic.parse_sse_event
  parse_sse_event-IsParsed event text =
      let payload = trim_space text in
      either-IsParsed (codes_eq (trim_space event) [] && codes_eq payload [])
        (ok (empty_chunk, false))
        (if not (has_prefix (codes "{") payload)
          then ok (empty_chunk, false)
          else Anthropic.parsed_event json (json.unmarshal_event payload))
        (refl, refl)
        (either-IsParsed (not (has_prefix (codes "{") payload)) (ok (empty_chunk, false))
          (Anthropic.parsed_event json (json.unmarshal_event payload)) (refl, refl)
          (messages_result-IsParsed (json.unmarshal_event payload)))

  messages_emit-IsStream :
      (r : Result (StreamChunk × Bool)) (rest : List StreamChunk)
      → IsParsed r
      → IsStream rest
      → IsStream (Anthropic.emit json r rest)
  messages_emit-IsStream (err e) rest h hs = inl refl
  messages_emit-IsStream (ok (chunk, true)) rest h hs = inl refl
  messages_emit-IsStream (ok (chunk, false)) rest h hs =
      elim (Bool-cases (
        not (chunk.id == "")
        || (not (chunk.delta.content == "") || not (chunk.delta.role == "")))) [
          | inl sends ↦ rw sends (inr (h, hs))
          | inr skips ↦ rw skips hs
        ]

  messages_lines-IsStream :
      (event : Line) (lines : List Line) (scan_error : Option GoError)
      → IsStream (Anthropic.stream_lines json event lines scan_error)
  unfolding Anthropic.stream_lines
  messages_lines-IsStream event [] scan_error = scan_end-IsStream scan_error
  messages_lines-IsStream event (line ∷ lines) scan_error =
      elim (Bool-cases (has_prefix (codes "event:") line)) [
        | inl named ↦ rw named (
            messages_lines-IsStream (trim_space (trim_prefix (codes "event:") line)) lines
              scan_error)
        | inr unnamed ↦ elim (Bool-cases (has_prefix (codes "data:") line)) [
          | inl data_line ↦
              rw (unnamed, data_line)
                (messages_emit-IsStream
                  (Anthropic.parse_sse_event json event (trim_prefix (codes "data:") line))
                  (Anthropic.stream_lines json [] lines scan_error)
                  (parse_sse_event-IsParsed event (trim_prefix (codes "data:") line))
                  (messages_lines-IsStream [] lines scan_error))
          | inr other ↦ rw (unnamed, other) (messages_lines-IsStream event lines scan_error)
        ]
      ]

  module _ {W : Type 0} (client : HttpClient W) (p : Anthropic.Anthropic) where
    messages_read-IsStreamed :
        (x : W × Result HttpResponse) → IsStreamed (Client.read_stream json client p x).1
    messages_read-IsStreamed (w, err e) = tt
    messages_read-IsStreamed (w, ok resp) = elim (Bool-cases (leb 400 resp.status_code)) [
      | inl bad ↦ rw bad tt
      | inr fine ↦ rw fine (messages_lines-IsStream [] resp.lines resp.scan_error)
    ]

    messages_body-IsStreamed :
        (w : W) (body : Result String) → IsStreamed (Client.stream_body json client p w body).1
    messages_body-IsStreamed w (err e) = tt
    messages_body-IsStreamed w (ok body) = messages_read-IsStreamed (
        client
          (record {
            method = "POST";
            url = Client.messages_url json client p;
            headers =
                ("x-api-key", p.api_key)
                ∷ ("anthropic-version", "2023-06-01")
                ∷ ("Content-Type", "application/json")
                ∷ ("Accept", "text/event-stream")
                ∷ [];
            body = body;
          })
          w)

    pub anthropic-IsStreamed :
        (req : StandardRequest) (w : W) → IsStreamed (Client.send_stream json client p req w).1
    unfolding Client.send_stream
    anthropic-IsStreamed req w = messages_body-IsStreamed w (Anthropic.build_stream_body json req)
