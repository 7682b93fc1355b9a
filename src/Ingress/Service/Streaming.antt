-- ===== src/Ingress/Service/Streaming.antt =====
-- The streaming path: what it records, and what it asks of the provider.
use momu_llmgateway.Base.{
  ℕ, zero, suc, String, true, false, none, some, List, [], ◌∷◌, ◌≡◌, refl, arith,
}
use momu_llmgateway.Ingress.Service.{Services, forward}
use momu_llmgateway.Model.{StreamChunk}

-- The chunks with an error.
abbrev pub error_count : List StreamChunk → ℕ
error_count [] = 0
error_count (chunk ∷ chunks) = elim chunk.error [
  | none ↦ error_count chunks
  | some error ↦ suc (error_count chunks)
]

abbrev pub repeat {ℓ} : {A : Type ℓ} → ℕ → (A → A) → A → A
repeat zero f a = a
repeat (suc n) f a = repeat n f (f a)

module _ {S : Type 0} (svc : Services S) (provider model : String) where
  forward_from :
      (chunks : List StreamChunk) (s : S)
      → forward svc provider model chunks true s
        ≡ repeat (error_count chunks) (svc.record_failure provider model) s
  unfolding forward
  forward_from [] s = refl
  forward_from (chunk ∷ chunks) s =
      ground
        (arith, forward_from chunks s, forward_from chunks (svc.record_failure provider model s))

  -- For a stream that is received to its end, the circuit breaker hears of one success if no chunk bears
  -- an error, and otherwise of
  -- one failure for each chunk that does, and of no success.
  pub forward_lem :
      (chunks : List StreamChunk) (s : S)
      → forward svc provider model chunks false s ≡ elim (error_count chunks) [
        | zero ↦ svc.record_success provider model s
        | suc n ↦ repeat (suc n) (svc.record_failure provider model) s
      ]
  unfolding forward
  forward_lem [] s = refl
  forward_lem (chunk ∷ chunks) s =
      ground
        (arith, forward_lem chunks s, forward_from chunks (svc.record_failure provider model s))
