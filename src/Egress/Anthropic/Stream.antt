-- ===== src/Egress/Anthropic/Stream.antt =====
-- What the adapter for Anthropic sends, and what it makes of the events that come back.
use momu_llmgateway.Base.{
  String, Bool, true, false, not, ◌&&◌, ◌||◌, Bool-cases, Option, List, [], ◌∷◌, ◌++◌, ◌==◌, filter,
  ◌≡◌, refl, sym, ◌∙◌, ap, arith, inl, inr,
}
use mathlib.Core.List.{append-nil, append_assoc}
use momu_llmgateway.Base.Text.{codes, has_prefix, trim_prefix, trim_space}
use momu_llmgateway.Egress.Anthropic.{
  AnthropicJson, AnthropicEvent, split_system, build_request_body, build_stream_body, body_of,
  parse_sse_event, event_chunk, stream_lines,
}
use momu_llmgateway.Egress.Http.{Line, empty_chunk}
use momu_llmgateway.Model.{GoError, Message, StandardRequest, Result, ok, err, Result-cases}

abbrev is_system : Message → Bool
is_system m = m.role == "system"

-- The content of the last message of a list, or a default.
abbrev pub last_content : String → List Message → String
last_content d [] = d
last_content d (m ∷ ms) = last_content m.content ms

split_system_from :
    (system : String) (before ms : List Message)
    → split_system system before ms
      ≡ (last_content system (filter is_system ms), before ++ filter (λ m. not (is_system m)) ms)
unfolding split_system
split_system_from system before [] = ap (λ l. (system, l)) (sym (append-nil before))
split_system_from system before (m ∷ ms) = elim (Bool-cases (is_system m)) [
  | inl here ↦ rw here (split_system_from m.content before ms)
  | inr there ↦ rw there (
      split_system_from system (before ++ m ∷ []) ms
      ∙ rw (append_assoc before (m ∷ []) (filter (λ m. not (is_system m)) ms)) refl)
]

module _ (json : AnthropicJson) where
  -- Both bodies carry the content of the last system message (or nothing) as the system prompt, and
  -- the messages of the other roles in their order.
  pub build_request_body-split :
      (req : StandardRequest)
      → (build_request_body json req
          ≡ json.marshal_body (
              body_of json req false (
                last_content "" (filter is_system req.messages),
                filter (λ m. not (is_system m)) req.messages,
              )))
        × (build_stream_body json req
            ≡ json.marshal_body (
                body_of json req true (
                  last_content "" (filter is_system req.messages),
                  filter (λ m. not (is_system m)) req.messages,
                )))
  unfolding build_request_body build_stream_body
  build_request_body-split req = (
    ap (λ x. json.marshal_body (body_of json req false x)) (split_system_from "" [] req.messages),
    ap (λ x. json.marshal_body (body_of json req true x)) (split_system_from "" [] req.messages),
  )

  -- The name of an event has no influence.
  parse_any_event :
      (event other text : Line) → parse_sse_event json event text ≡ parse_sse_event json other text
  unfolding parse_sse_event has_prefix
  parse_any_event event other text = elim (trim_space text) [
    | [] ↦ ground arith
    | c ∷ cs ↦ ground arith
  ]

  abbrev is_carried : Result AnthropicEvent → Bool
  is_carried (err e) = true
  is_carried (ok event) =
      event.kind == "message_start"
      || (event.kind == "content_block_delta" || event.kind == "message_stop")

  -- A line of data that holds an object which is malformed or of one of the three kinds of event that
  -- the adapter reads.
  abbrev pub carries : Line → Bool
  carries line =
      let payload = trim_space (trim_prefix (codes "data:") line) in
      not (has_prefix (codes "event:") line)
      && (has_prefix (codes "data:") line
          && (has_prefix (codes "{") payload && is_carried (json.unmarshal_event payload)))

  unread_event :
      (event : AnthropicEvent)
      → is_carried (ok event) ≡ false
      → event_chunk event ≡ (empty_chunk, false)
  unfolding event_chunk
  unread_event event h = ground (arith, h)

  -- What a line of data that is not carried is parsed to.
  parse_uncarried :
      (text : Line)
      → (has_prefix (codes "{") (trim_space text)
          && is_carried (json.unmarshal_event (trim_space text)))
        ≡ false
      → parse_sse_event json [] text ≡ ok (empty_chunk, false)
  unfolding parse_sse_event
  parse_uncarried text h = elim (Bool-cases (has_prefix (codes "{") (trim_space text))) [
    | inr plain ↦ rw plain (ground arith)
    | inl object ↦ elim (Result-cases (json.unmarshal_event (trim_space text))) [
      | inr (e, failed) ↦ absurd (ground (arith, rw (object, failed) at h))
      | inl (event, parsed) ↦
          rw (object, parsed, unread_event event (rw (object, parsed) at h)) (ground arith)
    ]
  ]

  -- The stream that the client is sent is that of the lines that `carries` tells, whatever lines stand
  -- between them: the lines that name an event and the events of any other kind, those of kind
  -- "error" among them, leave no trace.
  pub stream_lines-carries :
      (event : Line) (lines : List Line) (scan_error : Option GoError)
      → stream_lines json event lines scan_error
        ≡ stream_lines json [] (filter carries lines) scan_error
  unfolding stream_lines
  stream_lines-carries event [] scan_error = refl
  stream_lines-carries event (line ∷ lines) scan_error =
      let payload = trim_prefix (codes "data:") line in
      elim (Bool-cases (has_prefix (codes "event:") line)) [
        | inl names ↦
            rw names (
              stream_lines-carries (trim_space (trim_prefix (codes "event:") line)) lines
                scan_error)
        | inr unnamed ↦ elim (Bool-cases (has_prefix (codes "data:") line)) [
          | inr other ↦ rw (unnamed, other) (stream_lines-carries event lines scan_error)
          | inl data_line ↦ elim (Bool-cases (carries line)) [
            | inl carried ↦
                rw
                  (
                    carried,
                    unnamed,
                    data_line,
                    parse_any_event event [] payload,
                    stream_lines-carries [] lines scan_error,
                  )
                  refl
            | inr dropped ↦
                rw
                  (
                    dropped,
                    unnamed,
                    data_line,
                    parse_any_event event [] payload,
                    parse_uncarried payload (rw (unnamed, data_line) at dropped),
                  )
                  (stream_lines-carries [] lines scan_error)
          ]
        ]
      ]
