-- ===== src/Wiring/Streams.antt =====
-- The streams of the providers that `main` registers, on their way to the client.
use momu_llmgateway.Base.{
  ◌≤◌, String, Bool-cases, List, [], ◌∷◌, ◌==◌, ◌≡◌, inl, inr, refl, sym, arith, subst,
}
use momu_llmgateway.Base.Int.{ℤ}
use momu_llmgateway.Config.{ProviderConfig}
use momu_llmgateway.Egress.Anthropic.{AnthropicJson}
use momu_llmgateway.Egress.Http.{HttpClient}
use momu_llmgateway.Egress.OpenAi.{OpenAiJson}
use momu_llmgateway.Egress.Streams.{IsStream, IsStreamed, open_ai-IsStreamed}
use momu_llmgateway.Egress.Streams.Messages.{anthropic-IsStreamed}
use momu_llmgateway.Ingress.Handler.Replies.{through_error}
use momu_llmgateway.Ingress.Service.Streaming.{error_count}
use momu_llmgateway.Model.{StandardRequest, StreamChunk, ok}
use momu_llmgateway.Wiring.{new_provider}

error_at_end :
    (chunk : StreamChunk)
    → (through_error (chunk ∷ []) ≡ chunk ∷ []) × (error_count (chunk ∷ []) ≤ 1)
error_at_end chunk = (ground arith, ground arith)

IsStream-drained :
    (chunks : List StreamChunk)
    → IsStream chunks
    → (through_error chunks ≡ chunks) × (error_count chunks ≤ 1)
IsStream-drained [] h = (refl, omega arith)
IsStream-drained (chunk ∷ chunks) (inl last) =
    subst (λ l. (through_error (chunk ∷ l) ≡ chunk ∷ l) × (error_count (chunk ∷ l) ≤ 1)) (sym last)
      (error_at_end chunk)
IsStream-drained (chunk ∷ chunks) (inr ((fine, open_end), h)) =
    let (same, few) = IsStream-drained chunks h in
    (ground (arith, fine, same), ground (arith, fine, few))

module _ {W : Type 0} (anthropic : AnthropicJson) (open_ai : OpenAiJson)
    (http : ℤ → HttpClient W) where
  new_provider-IsStreamed :
      (name : String) (pc : ProviderConfig) (req : StandardRequest) (w : W)
      → IsStreamed ((new_provider anthropic open_ai http name pc).send_stream req w).1
  unfolding new_provider
  new_provider-IsStreamed name pc req w = elim (Bool-cases (pc.kind == "anthropic")) [
    | inl a ↦ rw a (
        anthropic-IsStreamed anthropic (http pc.timeout)
          (record { name = name; base_url = pc.base_url; api_key = pc.api_key; models = pc.models })
          req w)
    | inr o ↦ rw o (
        open_ai-IsStreamed open_ai (http pc.timeout)
          (record { name = name; base_url = pc.base_url; api_key = pc.api_key; models = pc.models })
          req w)
  ]

  -- In a stream that a provider of the wiring delivers, only the last chunk may bear an error or the
  -- mark of the end: so the handler, which stops at the first error, reads every chunk, and the circuit
  -- breaker hears of one failure at most.
  pub send_stream-drained :
      (name : String) (pc : ProviderConfig) (req : StandardRequest) (w : W)
      (chunks : List StreamChunk)
      → ((new_provider anthropic open_ai http name pc).send_stream req w).1 ≡ ok chunks
      → IsStream chunks × ((through_error chunks ≡ chunks) × (error_count chunks ≤ 1))
  send_stream-drained name pc req w chunks e =
      let h : IsStream chunks = subst IsStreamed e (new_provider-IsStreamed name pc req w) in
      (h, IsStream-drained chunks h)
