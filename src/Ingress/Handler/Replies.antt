-- ===== src/Ingress/Handler/Replies.antt =====
-- What a client gets to see.
use momu_llmgateway.Base.{
  String, Option, none, some, List, [], ◌∷◌, ◌++◌, map, ltb, ◌≡◌, refl, arith, if◌then◌else◌, eqb,
}
use momu_llmgateway.Base.Int.{ℤ}
use momu_llmgateway.Fallback.{Engine, Context, SendFunc, execute, is_permanent_code}
use momu_llmgateway.Ingress.Handler.{
  Reply, json_reply, error_reply, event_stream, panicked, plain_error, chunk_event, done_event,
  error_to_http_status, reply_of, stream_events, handle_non_streaming,
}
use momu_llmgateway.Ingress.Service.{Services, handle_chat_completion}
use momu_llmgateway.Ingress.Service.Degrading.{IsModelError, handle_chat_completion-IsModelError}
use momu_llmgateway.Ingress.Service.Streaming.{error_count}
use momu_llmgateway.Model.{
  Error, model_error, other_error, Result, ok, err, StandardRequest, StandardResponse, StreamChunk,
}

-- A reply goes out.
abbrev pub IsSent : Reply → Type 0
IsSent (json_reply hit resp) = Unit
IsSent (error_reply status error) = Unit
IsSent (event_stream events) = Unit
IsSent panicked = ⊥
IsSent (plain_error status text) = Unit

reply_of-IsSent :
    (result : Result StandardResponse) → IsModelError result → IsSent (reply_of result)
unfolding reply_of
reply_of-IsSent (ok resp) h = tt
reply_of-IsSent (err (model_error error)) h = tt
reply_of-IsSent (err (other_error text)) h = absurd h

-- Where the engine of internal/fallback is wired in, its context is never done, its waits end, and the router's errors are of the model
-- package, the handler of a plain chat completion does not panic.
pub handle_non_streaming-IsSent :
    {S : Type 0} (svc : Services S) (ctx : Context S) (e : Engine) (req : StandardRequest) (s : S)
    → ((provider model : String) (send : Option (SendFunc S)) (s : S)
        → svc.execute provider model send s ≡ execute ctx e provider model send s)
    → ((s : S) → ctx.error s ≡ none)
    → ((d : ℤ) (s : S) → (ctx.wait d s).1 ≡ none)
    → ((req : StandardRequest) (s : S) → IsModelError (svc.route req s).1)
    → IsSent (handle_non_streaming svc req s).1
unfolding handle_non_streaming
handle_non_streaming-IsSent svc ctx e req s wired live fires routes =
    reply_of-IsSent (handle_chat_completion svc req s).1
      (handle_chat_completion-IsModelError svc ctx e wired live fires routes req s)

-- A model error is answered with a status below 500 exactly if the degradation engine does not retry
-- it.
pub error_to_http_status-eq-is_permanent_code :
    (error : Error)
    → ltb (error_to_http_status (model_error error)) 500 ≡ is_permanent_code error.code
unfolding error_to_http_status
error_to_http_status-eq-is_permanent_code error = ground arith

-- The chunks of a stream through the first that bears an error.
abbrev pub through_error : List StreamChunk → List StreamChunk
through_error [] = []
through_error (chunk ∷ chunks) = elim chunk.error [
  | none ↦ chunk ∷ through_error chunks
  | some error ↦ chunk ∷ []
]

-- The client of a stream is sent the chunks through the first that bears an error, and the mark of the
-- end exactly if none does.
pub stream_events_lem :
    (chunks : List StreamChunk)
    → stream_events chunks
      ≡ map chunk_event (through_error chunks)
        ++ (if eqb (error_count chunks) 0 then done_event ∷ [] else [])
unfolding stream_events
stream_events_lem [] = refl
stream_events_lem (chunk ∷ chunks) = ground (arith, stream_events_lem chunks)
