-- ===== src/Ingress/Handler/Events.antt =====
-- internal/ingress/handler.go: what `handleStream` writes, as bytes. `StreamChunk.ToJSON` of
-- internal/model/request.go, a call of encoding/json, is a parameter; errors of the writer are dropped,
-- as the code does.
pub mod Relaying
use momu_llmgateway.Base.{ℕ, List, [], ◌∷◌, ◌++◌, eqb, if◌then◌else◌}
use momu_llmgateway.Base.Text.{codes}
use momu_llmgateway.Egress.Http.{Line}
use momu_llmgateway.Ingress.Handler.{Event, chunk_event, done_event}
use momu_llmgateway.Model.{StreamChunk, Result, ok, err}

abbrev pub newline : ℕ
newline = 10

abbrev pub written : Line → Result Line → Line
written out (err e) = out
written out (ok text) = out ++ (codes "data: " ++ (text ++ (newline ∷ newline ∷ [])))

module _ (to_json : StreamChunk → Result Line) where
  -- `writeSSEEvent`, behind what is written already.
  unfoldable pub write_sse_event : Line → StreamChunk → Line
  write_sse_event out chunk = written out (to_json chunk)

  -- `writeSSEDone`.
  unfoldable pub write_sse_done : Line → Line
  write_sse_done out = out ++ (codes "data: [DONE]" ++ (newline ∷ newline ∷ []))

  abbrev pub write_event : Line → Event → Line
  write_event out (chunk_event chunk) = write_sse_event out chunk
  write_event out done_event = write_sse_done out

  -- The body of the reply, the events written one after the other.
  unfoldable pub write_events : Line → List Event → Line
  unfolding write_sse_event write_sse_done
  write_events out [] = out
  write_events out (event ∷ events) = write_events (write_event out event) events

-- `bufio.ScanLines`: a line ends with a newline, of which a carriage return before it is a part, or with
-- the text, if it is not empty.
abbrev pub drop_return : Line → Line
drop_return [] = []
drop_return (c ∷ []) = if eqb c 13 then [] else c ∷ []
drop_return (c ∷ d ∷ s) = c ∷ drop_return (d ∷ s)

abbrev last_line : Line → List Line
last_line [] = []
last_line (c ∷ s) = drop_return (c ∷ s) ∷ []

unfoldable pub lines_from : Line → Line → List Line
lines_from line [] = last_line line
lines_from line (c ∷ s) =
    let next = drop_return line ∷ lines_from [] s in
    let more = lines_from (line ++ c ∷ []) s in if eqb c newline then next else more

unfoldable pub scan_lines : Line → List Line
unfolding lines_from
scan_lines text = lines_from [] text
