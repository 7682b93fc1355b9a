-- ===== src/Ingress/Handler/Streams.antt =====
-- What a client gets of a stream that a provider refuses.
use momu_llmgateway.Base.{Bool, true, false, some, List, ◌≡◌, ◌↔◌, refl}
use momu_llmgateway.Decision.Router.{RouteDecision}
use momu_llmgateway.Ingress.Handler.{panicked, stream_reply_of, handle_stream}
use momu_llmgateway.Ingress.Service.{Services, streamed, handle_chat_completion_stream}
use momu_llmgateway.Model.{
  model_error, other_error, Result, ok, err, StandardRequest, StreamChunk, Provider,
}

-- An error that is not of the model package.
abbrev pub IsForeign : {A : Type 0} → Result A → Type 0
IsForeign (ok a) = ⊥
IsForeign (err (model_error error)) = ⊥
IsForeign (err (other_error text)) = Unit

stream_reply_of-panicked :
    (flushes : Bool) (result : Result (List StreamChunk))
    → (stream_reply_of flushes result ≡ panicked) ↔ IsForeign result
unfolding stream_reply_of
stream_reply_of-panicked true (ok chunks) = (λ e. cc, λ h. absurd h)
stream_reply_of-panicked false (ok chunks) = (λ e. cc, λ h. absurd h)
stream_reply_of-panicked flushes (err (model_error error)) = (λ e. cc, λ h. absurd h)
stream_reply_of-panicked flushes (err (other_error text)) = (λ e. tt, λ h. refl)

streamed-IsForeign :
    {S : Type 0} (svc : Services S) (dec : RouteDecision) (x : S × Result (List StreamChunk))
    → IsForeign (streamed svc dec x).1 ↔ IsForeign x.1
streamed-IsForeign svc dec (s, ok chunks) = (λ h. h, λ h. h)
streamed-IsForeign svc dec (s, err error) = (λ h. h, λ h. h)

-- Where the router decides, the breaker lets the call through and the provider is found: the handler of
-- a stream panics exactly if opening the stream fails with an error that is not of the model package,
-- as a failed connection does.
pub handle_stream-panicked_iff :
    {S : Type 0} (svc : Services S) (flushes : Bool) (req : StandardRequest) (dec : RouteDecision)
    (p : Provider S) (s s1 s2 : S)
    → svc.route (record req { stream = true }) s ≡ (s1, ok dec)
    → svc.allow dec.provider_name dec.model s1 ≡ (s2, true)
    → svc.provider_lookup dec.provider_name ≡ some p
    → ((handle_stream svc flushes req s).1 ≡ panicked)
      ↔ IsForeign (p.send_stream (record req { stream = true }) s2).1
unfolding handle_stream handle_chat_completion_stream
handle_stream-panicked_iff svc flushes req dec p s s1 s2 routed allowed found =
    rw (routed, allowed, found)
      (let (to, from) =
          stream_reply_of-panicked flushes
            (streamed svc dec (p.send_stream (record req { stream = true }) s2)).1 in
        let (to', from') =
          streamed-IsForeign svc dec (p.send_stream (record req { stream = true }) s2) in
        (λ e. to' (to e), λ h. from (from' h)))
