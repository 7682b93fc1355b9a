-- ===== src/Decision/Capability.antt =====
-- internal/decision/strategy_capability.go and strategy_cost.go: the capability and cost strategies.
use momu_llmgateway.Base.{
  ℕ, String, Bool, true, false, not, ◌&&◌, Option, none, some, List, [], ◌∷◌, ◌==◌, if◌then◌else◌,
}
use momu_llmgateway.Base.Dict.{lookup}
use momu_llmgateway.Base.Int.{ℤ, pos, ltb_ℤ, leb_ℤ}
use momu_llmgateway.Base.Text.{codes, codes_eq, fields_from, atoi}
use momu_llmgateway.Config.{RoutingRuleConfig}
use momu_llmgateway.Model.{StandardRequest}

-- The switch on the operator.
abbrev compare_by : List ℕ → ℕ → ℤ → Bool
compare_by op input_tokens threshold =
    if codes_eq op (codes ">")
    then ltb_ℤ threshold (pos input_tokens)
    else if codes_eq op (codes "<")
    then ltb_ℤ (pos input_tokens) threshold
    else if codes_eq op (codes ">=")
    then leb_ℤ threshold (pos input_tokens)
    else if codes_eq op (codes "<=")
    then leb_ℤ (pos input_tokens) threshold
    else false

abbrev compare_parsed : List ℕ → ℕ → Option ℤ → Bool
compare_parsed op input_tokens none = false
compare_parsed op input_tokens (some threshold) = compare_by op input_tokens threshold

-- The test of three fields.
abbrev evaluate_fields : List (List ℕ) → ℕ → Bool
evaluate_fields (subject ∷ op ∷ number ∷ []) input_tokens =
    if codes_eq subject (codes "input_tokens")
    then compare_parsed op input_tokens (atoi number)
    else false
evaluate_fields _ input_tokens = false

-- `evaluateCondition`.
unfoldable pub evaluate_condition : String → ℕ → Bool
unfolding fields_from atoi
evaluate_condition condition input_tokens =
    evaluate_fields (fields_from [] (codes condition)) input_tokens

-- `matchesRule`.
unfoldable pub matches_rule : RoutingRuleConfig → StandardRequest → ℕ → Bool
matches_rule rule req estimated_tokens =
    if not (rule.task_type == "") && not (rule.task_type == req.task_type)
    then false
    else if not (rule.condition == "") && not (evaluate_condition rule.condition estimated_tokens)
    then false
    else true

pub record CapabilityRouter : Type 0 where
  pub rules : List RoutingRuleConfig

abbrev route_rules : List RoutingRuleConfig → StandardRequest → ℕ → List String
route_rules [] req estimated_tokens = []
route_rules (rule ∷ rules) req estimated_tokens =
    if matches_rule rule req estimated_tokens
    then rule.target_models
    else route_rules rules req estimated_tokens

-- `CapabilityRouter.Route`; nil is the empty list.
unfoldable pub route_capability : CapabilityRouter → StandardRequest → ℕ → List String
route_capability cr req estimated_tokens = route_rules cr.rules req estimated_tokens

pub record CostRouter : Type 0 where
  pub chains : List (String × List String)

-- A chain that is there and not empty, or else another.
abbrev chain_or : Option (List String) → List String → List String
chain_or (some (m ∷ ms)) other = m ∷ ms
chain_or _ other = other

-- `CascadeFor`.
unfoldable pub cascade_for : CostRouter → String → List String
cascade_for cr model = chain_or (lookup model cr.chains) (chain_or (lookup "default" cr.chains) [])
