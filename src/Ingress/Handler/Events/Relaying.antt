-- ===== src/Ingress/Handler/Events/Relaying.antt =====
-- What the adapter of internal/egress/openai.go reads from a stream that internal/ingress/handler.go
-- writes.
use momu_llmgateway.Base.{
  ℕ, false, none, List, [], ◌∷◌, ◌++◌, ◌==◌, All, ◌≡◌, ◌≢◌, refl, sym, ap, ◌∙◌, inl, inr, arith,
  Bool-cases, Option-cases, eqb, if◌then◌else◌,
}
use momu_llmgateway.Base.Text.{codes, has_prefix, is_space, drop_space, trim_space}
use momu_llmgateway.Egress.Http.{Line, empty_chunk, done_chunk}
use momu_llmgateway.Egress.OpenAi.{
  OpenAiJson, OpenAiEvent, event_chunk, parse_sse_line, emit, stream_lines,
}
use momu_llmgateway.Ingress.Handler.{Event, chunk_event, done_event, stream_events}
use momu_llmgateway.Ingress.Handler.Events.{
  newline, written, write_event, write_events, write_sse_event, write_sse_done, drop_return,
  lines_from, scan_lines,
}
use momu_llmgateway.Model.{StreamChunk, Result, ok, err}
use mathlib.Core.List.{reverse, reverse-append, reverse-reverse, append_assoc, append-nil}

-- No newline among the characters.
abbrev pub NoNewline : Line → Type 0
NoNewline s = All (λ c. c ≢ newline) s

lines_from-append :
    (line s rest : Line)
    → NoNewline s
    → lines_from line (s ++ newline ∷ rest) ≡ drop_return (line ++ s) ∷ lines_from [] rest
unfolding lines_from
lines_from-append line [] rest h =
    ap (λ l. drop_return l ∷ lines_from [] rest) (sym (append-nil line))
lines_from-append line (c ∷ s) rest (c≢, h) = elim (Bool-cases (eqb c newline)) [
  | inl same ↦ absurd (c≢ (ground (arith, same)))
  | inr other ↦ rw other (
      lines_from-append (line ++ c ∷ []) s rest h
      ∙ ap (λ l. drop_return l ∷ lines_from [] rest) (append_assoc line (c ∷ []) s))
]

drop_return-append : (s : Line) (c : ℕ) → eqb c 13 ≡ false → drop_return (s ++ c ∷ []) ≡ s ++ c ∷ []
drop_return-append [] c h = rw h refl
drop_return-append (x ∷ []) c h = rw h refl
drop_return-append (x ∷ y ∷ s) c h = ap (◌∷◌ x) (drop_return-append (y ∷ s) c h)

drop_space-kept : (c : ℕ) (s : Line) → is_space c ≡ false → drop_space (c ∷ s) ≡ c ∷ s
drop_space-kept c s h = rw h refl

trim_space-inner :
    (a b : ℕ) (s : Line)
    → is_space a ≡ false
    → is_space b ≡ false
    → trim_space (a ∷ (s ++ b ∷ [])) ≡ a ∷ (s ++ b ∷ [])
trim_space-inner a b s ha hb =
    ap (λ l. reverse (drop_space (reverse l))) (drop_space-kept a (s ++ b ∷ []) ha)
    ∙ ap (λ l. reverse (drop_space l)) (reverse-append (a ∷ s) (b ∷ []))
    ∙ ap reverse (drop_space-kept b (reverse (a ∷ s)) hb)
    ∙ ap reverse (sym (reverse-append (a ∷ s) (b ∷ [])))
    ∙ reverse-reverse (a ∷ (s ++ b ∷ []))

trim_space-space : (s : Line) → trim_space (b' ' ∷ s) ≡ trim_space s
trim_space-space s = refl

-- The text of a JSON object on one line.
abbrev pub object : Line → Line
object s = b'{' ∷ (s ++ b'}' ∷ [])

-- How a chunk is encoded, and how the adapter decodes that: as an event with the same id and model, and
-- without choices, as the encoding has no such key.
pub record IsEncoded (to_json : StreamChunk → Result Line) (json : OpenAiJson) (chunk : StreamChunk)
    : Type 0 where
  pub inside : Line
  pub encoded : to_json chunk ≡ ok (object inside)
  pub one_line : NoNewline inside
  pub read_as :
      json.unmarshal_event (object inside)
      ≡ ok (record { id = chunk.id; model = chunk.model; choices = [] })

-- A chunk that bears an id and a model alone.
abbrev pub bare : StreamChunk → StreamChunk
bare chunk = record empty_chunk { id = chunk.id; model = chunk.model }

-- What is read of the events that are written: the chunks with an id, and the end.
unfoldable pub relayed : List Event → List StreamChunk
relayed [] = []
relayed (chunk_event chunk ∷ events) =
    let rest = relayed events in if chunk.id == "" then rest else bare chunk ∷ rest
relayed (done_event ∷ events) = done_chunk ∷ []

abbrev pub AllEncoded : (StreamChunk → Result Line) → OpenAiJson → List Event → Type 0
AllEncoded to_json json [] = Unit
AllEncoded to_json json (chunk_event chunk ∷ events) =
    IsEncoded to_json json chunk × AllEncoded to_json json events
AllEncoded to_json json (done_event ∷ events) = AllEncoded to_json json events

abbrev data_line : Line → Line
data_line s = codes "data: " ++ object s

NoNewline-append : (s t : Line) → NoNewline s → NoNewline t → NoNewline (s ++ t)
NoNewline-append [] t h h' = h'
NoNewline-append (c ∷ s) t (c≢, h) h' = (c≢, NoNewline-append s t h h')

module _ (json : OpenAiJson) where
  parse_data_line :
      (s : Line) (event : OpenAiEvent)
      → json.unmarshal_event (object s) ≡ ok event
      → parse_sse_line json (data_line s) ≡ ok (event_chunk event, false)
  unfolding parse_sse_line has_prefix
  parse_data_line s event e =
      rw (trim_space-inner b'd' b'}' (codes "ata: {" ++ s) refl refl)
        (rw (trim_space-inner b'{' b'}' s refl refl) (rw e refl))

  emit-bare :
      (chunk : StreamChunk) (rest : List StreamChunk)
      → emit json (ok (bare chunk, false)) rest
        ≡ (if chunk.id == "" then rest else bare chunk ∷ rest)
  emit-bare chunk rest = elim (Bool-cases (chunk.id == "")) [
    | inl empty ↦ rw empty refl
    | inr named ↦ rw named refl
  ]

module _ (to_json : StreamChunk → Result Line) where
  write_event-append :
      (out : Line) (event : Event)
      → write_event to_json out event ≡ out ++ write_event to_json [] event
  unfolding write_sse_event write_sse_done
  write_event-append out (chunk_event chunk) = text (to_json chunk)
    where
      text : (r : Result Line) → written out r ≡ out ++ written [] r
      text (ok s) = refl
      text (err e) = sym (append-nil out)
  write_event-append out done_event = refl

  write_events-append :
      (out : Line) (events : List Event)
      → write_events to_json out events ≡ out ++ write_events to_json [] events
  unfolding write_events
  write_events-append out [] = sym (append-nil out)
  write_events-append out (event ∷ events) =
      write_events-append (write_event to_json out event) events
      ∙ ap (λ l. l ++ write_events to_json [] events) (write_event-append out event)
      ∙ append_assoc out (write_event to_json [] event) (write_events to_json [] events)
      ∙ ap (◌++◌ out) (sym (write_events-append (write_event to_json [] event) events))

  -- The lines of an event of data, and of those behind it.
  lines_of_data :
      (s rest : Line)
      → NoNewline s
      → lines_from [] (written [] (ok (object s)) ++ rest) ≡ data_line s ∷ [] ∷ lines_from [] rest
  unfolding lines_from
  lines_of_data s rest h =
      ap (lines_from []) (
        append_assoc (codes "data: ") (object s ++ newline ∷ newline ∷ []) rest
        ∙ ap (◌++◌ (codes "data: ")) (append_assoc (object s) (newline ∷ newline ∷ []) rest)
        ∙ sym (append_assoc (codes "data: ") (object s) (newline ∷ newline ∷ rest)))
      ∙ lines_from-append [] (data_line s) (newline ∷ rest) (
          NoNewline-append (codes "data: {") (s ++ b'}' ∷ []) (omega arith)
            (NoNewline-append s (b'}' ∷ []) h (omega arith)))
      ∙ ap (λ l. l ∷ [] ∷ lines_from [] rest) (drop_return-append (codes "data: {" ++ s) b'}' refl)

  module _ (json : OpenAiJson) where
    stream_lines-relayed :
        (events : List Event)
        → AllEncoded to_json json events
        → stream_lines json (scan_lines (write_events to_json [] events)) none ≡ relayed events
    unfolding scan_lines stream_lines relayed write_events
    stream_lines-relayed [] h = refl
    stream_lines-relayed (chunk_event chunk ∷ events) (e, h) =
        rw (write_events-append (write_event to_json [] (chunk_event chunk)) events) (
          rw e.encoded (
            rw (lines_of_data e.inside (write_events to_json [] events) e.one_line) (
              rw (parse_data_line json e.inside _ e.read_as) (
                emit-bare json chunk _
                ∙ ap (λ l. if chunk.id == "" then l else bare chunk ∷ l)
                    (stream_lines-relayed events h)))))
    stream_lines-relayed (done_event ∷ events) h =
        rw (write_events-append (write_event to_json [] done_event) events) refl

    stream_events-AllEncoded :
        (chunks : List StreamChunk)
        → All (IsEncoded to_json json) chunks
        → AllEncoded to_json json (stream_events chunks)
    unfolding stream_events
    stream_events-AllEncoded [] h = tt
    stream_events-AllEncoded (chunk ∷ chunks) (e, h) = elim (Option-cases chunk.error) [
      | inl fine ↦ rw fine (e, stream_events-AllEncoded chunks h)
      | inr (error, bad) ↦ rw bad (e, tt)
    ]

    -- What an OpenAI adapter reads of a stream that this gateway writes: for each event of a chunk that
    -- has an id, a chunk with that id and the model and nothing else, and the end if that is written. So
    -- the content and the errors are lost. It is so where a chunk is encoded as an object on one line,
    -- which the adapter decodes with its id and model and without choices.
    pub stream_lines-write_events :
        (chunks : List StreamChunk)
        → All (IsEncoded to_json json) chunks
        → stream_lines json (scan_lines (write_events to_json [] (stream_events chunks))) none
          ≡ relayed (stream_events chunks)
    stream_lines-write_events chunks h =
        stream_lines-relayed (stream_events chunks) (stream_events-AllEncoded chunks h)
