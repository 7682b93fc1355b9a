-- ===== src/Wiring/Serving.antt =====
-- A request from the first middleware to the reply, through the parts as `main` wires them.
use momu_llmgateway.Base.{Option, ◌≡◌}
use momu_llmgateway.Config.{Config}
use momu_llmgateway.Ingress.Handler.{Reply, json_reply, error_reply}
use momu_llmgateway.Model.{err_code_circuit_open}

-- A response, or the refusal of a circuit breaker.
abbrev pub IsServedReply : Reply → Type 0
IsServedReply (json_reply hit resp) = Unit
IsServedReply (error_reply status error) = (status ≡ 503) × (error.code ≡ err_code_circuit_open)
IsServedReply _ = ⊥
