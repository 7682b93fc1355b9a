-- ===== src/Egress/Streams.antt =====
-- The streams that the adapters of internal/egress deliver; here those of openai.go.
pub mod Messages
use momu_llmgateway.Base.{
  Bool, true, false, not, ◌&&◌, ◌||◌, Bool-cases, leb, String, Option, none, some, List, [], ◌∷◌,
  ◌==◌, if◌then◌else◌, ◌≡◌, refl, ◌⊎◌, inl, inr,
}
use momu_llmgateway.Base.Text.{codes, codes_eq, has_prefix, trim_prefix, trim_space}
use momu_llmgateway.Egress.Anthropic
use momu_llmgateway.Egress.Http.{Line, HttpClient, HttpResponse, empty_chunk, done_chunk, scan_end}
use momu_llmgateway.Egress.OpenAi
use momu_llmgateway.Model.{◌<>◌, GoError, StandardRequest, StreamChunk, Result, ok, err}

-- Nothing follows a chunk that bears an error or the mark of the end.
abbrev pub IsStream : List StreamChunk → Type 0
IsStream [] = Unit
IsStream (chunk ∷ chunks) =
    (chunks ≡ []) ⊎ (((chunk.error ≡ none) × (chunk.done ≡ false)) × IsStream chunks)

abbrev pub IsStreamed : Result (List StreamChunk) → Type 0
IsStreamed (err e) = Unit
IsStreamed (ok chunks) = IsStream chunks

-- What parsing a line ends with: a chunk with no error, whose mark of the end is the flag beside it.
abbrev pub IsParsed : Result (StreamChunk × Bool) → Type 0
IsParsed (err e) = Unit
IsParsed (ok (chunk, done)) = (chunk.error ≡ none) × (chunk.done ≡ done)

pub scan_end-IsStream : (scan_error : Option GoError) → IsStream (scan_end scan_error)
scan_end-IsStream none = tt
scan_end-IsStream (some e) = inl refl

pub either-IsParsed :
    (b : Bool) (r r' : Result (StreamChunk × Bool))
    → IsParsed r
    → IsParsed r'
    → IsParsed (if b then r else r')
either-IsParsed true r r' h h' = h
either-IsParsed false r r' h h' = h'

module _ (json : OpenAi.OpenAiJson) where
  parsed_event-IsParsed : (r : Result OpenAi.OpenAiEvent) → IsParsed (OpenAi.parsed_event json r)
  parsed_event-IsParsed (err e) = tt
  parsed_event-IsParsed (ok event) = (refl, refl)

  parse_sse_line-IsParsed : (line : Line) → IsParsed (OpenAi.parse_sse_line json line)
  unfolding OpenAi.parse_sse_line
  parse_sse_line-IsParsed text =
      let line = trim_space text in
      let payload = trim_space (trim_prefix (codes "data:") line) in
      either-IsParsed (codes_eq line [] || not (has_prefix (codes "data:") line))
        (ok (empty_chunk, false)) (OpenAi.parse_payload json payload) (refl, refl)
        (either-IsParsed (codes_eq payload (codes "[DONE]")) (ok (done_chunk, true))
          (OpenAi.parsed_event json (json.unmarshal_event payload)) (refl, refl)
          (parsed_event-IsParsed (json.unmarshal_event payload)))

  emit-IsStream :
      (r : Result (StreamChunk × Bool)) (rest : List StreamChunk)
      → IsParsed r
      → IsStream rest
      → IsStream (OpenAi.emit json r rest)
  emit-IsStream (err e) rest h hs = inl refl
  emit-IsStream (ok (chunk, true)) rest h hs = inl refl
  emit-IsStream (ok (chunk, false)) rest h hs =
      elim (Bool-cases (not (chunk.id == "") || not (chunk.delta.content == ""))) [
        | inl sends ↦ rw sends (inr (h, hs))
        | inr skips ↦ rw skips hs
      ]

  stream_lines-IsStream :
      (lines : List Line) (scan_error : Option GoError)
      → IsStream (OpenAi.stream_lines json lines scan_error)
  unfolding OpenAi.stream_lines
  stream_lines-IsStream [] scan_error = scan_end-IsStream scan_error
  stream_lines-IsStream (line ∷ lines) scan_error =
      emit-IsStream (OpenAi.parse_sse_line json line) (OpenAi.stream_lines json lines scan_error)
        (parse_sse_line-IsParsed line) (stream_lines-IsStream lines scan_error)

  module _ {W : Type 0} (client : HttpClient W) (p : OpenAi.OpenAiCompatible) where
    read_stream-IsStreamed :
        (x : W × Result HttpResponse) → IsStreamed (OpenAi.read_stream json client p x).1
    read_stream-IsStreamed (w, err e) = tt
    read_stream-IsStreamed (w, ok resp) = elim (Bool-cases (leb 400 resp.status_code)) [
      | inl bad ↦ rw bad tt
      | inr fine ↦ rw fine (stream_lines-IsStream resp.lines resp.scan_error)
    ]

    stream_body-IsStreamed :
        (w : W) (body : Result String) → IsStreamed (OpenAi.stream_body json client p w body).1
    stream_body-IsStreamed w (err e) = tt
    stream_body-IsStreamed w (ok body) = read_stream-IsStreamed (
        client
          (record {
            method = "POST";
            url = OpenAi.chat_url json client p;
            headers =
                ("Authorization", "Bearer " <> p.api_key)
                ∷ ("Content-Type", "application/json")
                ∷ ("Accept", "text/event-stream")
                ∷ [];
            body = body;
          })
          w)

    pub open_ai-IsStreamed :
        (req : StandardRequest) (w : W) → IsStreamed (OpenAi.send_stream json client p req w).1
    unfolding OpenAi.send_stream
    open_ai-IsStreamed req w =
        stream_body-IsStreamed w (OpenAi.build_request_body json (record req { stream = true }))
