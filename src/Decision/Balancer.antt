-- ===== src/Decision/Balancer.antt =====
-- internal/decision/balancer.go: smooth weighted round robin.
-- The arithmetic is that of `Num`: float64 in the program. The wiring of cmd/gateway/main.go hands in
-- whole weights, on which float64 is exact up to 2^53, so the integers are the other instance.
-- `Select` reads the slots under the mutex and is one step here. An index outside `slots` would be a
-- panic: `IsValid` in the child `Invariant` excludes it.
pub mod Fairness
pub mod Invariant
pub mod Membership
pub mod Rounds
pub mod Selection
pub mod Shares
use momu_llmgateway.Base.{
  ℕ, zero, suc, ◌+◌, ◌-◌, String, Bool, true, false, Option, none, some, List, [], ◌∷◌, ◌++◌, map,
  length, get_or, set, if◌then◌else◌,
}
use momu_llmgateway.Base.Dict.{lookup, insert}
use momu_llmgateway.Base.Int.{ℤ}

pub record Num (N : Type 0) : Type 0 where
  pub zero : N
  pub one : N
  -- -1 << 63
  pub lowest : N
  pub of_int : ℤ → N
  pub add : N → N → N
  pub sub : N → N → N
  pub mul : N → N → N
  pub div : N → N → N
  pub max : N → N → N
  pub lt : N → N → Bool
  pub le : N → N → Bool

pub record BalancerConfig (N : Type 0) : Type 0 where
  pub concurrency_penalty_coefficient : N
  pub latency_penalty_coefficient : N
  pub warmup_enabled : Bool
  pub warmup_duration : N
  pub health_window_size : N
  pub health_min_requests : ℤ

pub record ProviderCandidate (N : Type 0) : Type 0 where
  pub provider_name : String
  pub model : String
  pub base_weight : N
  pub active_connections : ℤ
  pub normalized_p99_latency : N
  pub health_score : N
  pub warmup_factor : N

-- A slot is `nodeState`, whose one field is `currentWeight`.
pub record Balancer (N : Type 0) : Type 0 where
  pub cfg : BalancerConfig N
  pub slots : List N
  pub name_to_slot : List (String × ℕ)

-- `NewBalancer`.
unfoldable pub new_balancer : {N : Type 0} → BalancerConfig N → Balancer N
new_balancer cfg = record { cfg = cfg; slots = []; name_to_slot = [] }

module _ {N : Type 0} (num : Num N) where
  abbrev pub slot_or_new : String → Option ℕ → Balancer N → Balancer N × ℕ
  slot_or_new name (some slot) b = (b, slot)
  slot_or_new name none b =
      let slot = length b.slots in
      (
        record b {
          slots = b.slots ++ num.zero ∷ [];
          name_to_slot = insert name slot b.name_to_slot;
        },
        slot,
      )

  -- `Register`, and the body of the loop of `resolveSlots`.
  unfoldable pub register : String → Balancer N → Balancer N × ℕ
  register name b = slot_or_new name (lookup name b.name_to_slot) b

  -- `EffectiveWeight`.
  unfoldable pub effective_weight : BalancerConfig N → ProviderCandidate N → N
  effective_weight cfg c =
      let warmup = if num.le c.warmup_factor num.zero then num.zero else c.warmup_factor in
      let base = num.mul c.base_weight warmup in
      let denom =
        num.add
          (num.add num.one
            (num.mul cfg.concurrency_penalty_coefficient (num.of_int c.active_connections)))
          (num.mul cfg.latency_penalty_coefficient c.normalized_p99_latency) in
      let load_factor = num.div num.one denom in
      let health = if num.le c.health_score num.zero then num.zero else c.health_score in
      num.max (num.mul (num.mul base load_factor) health) num.zero

  -- `resolveSlots`.
  unfoldable pub resolve_slots : List (ProviderCandidate N) → Balancer N → Balancer N × List ℕ
  unfolding register
  resolve_slots [] b = (b, [])
  resolve_slots (c ∷ cs) b =
      let (b', slot) = register c.provider_name b in
      let (b'', slots) = resolve_slots cs b' in (b'', slot ∷ slots)

  -- The sum of the effective weights.
  unfoldable pub sum_from : N → List N → N
  sum_from total [] = total
  sum_from total (eff ∷ effs) = sum_from (num.add total eff) effs

  -- The loop of `Select` that adds the weights and keeps the first best: the slots, the next index,
  -- the best index and the best weight so far.
  unfoldable pub accumulate : List N → ℕ → ℕ → N → List ℕ → List N → List N × ℕ
  accumulate slots i best_idx best_weight (s ∷ ss) (eff ∷ effs) =
      let cw = num.add (get_or slots s num.zero) eff in
      let better = num.lt best_weight cw in
      accumulate (set slots s cw) (i + 1) (if better then i else best_idx)
        (if better then cw else best_weight) ss effs
  accumulate slots i best_idx best_weight _ _ = (slots, best_idx)

  abbrev pub no_candidate : ProviderCandidate N
  no_candidate = record {
    provider_name = "";
    model = "";
    base_weight = num.zero;
    active_connections = ℤ.pos 0;
    normalized_p99_latency = num.zero;
    health_score = num.zero;
    warmup_factor = num.zero;
  }

  -- The part of `Select` under the mutex, on resolved slots: the new slots and the chosen index.
  unfoldable pub select_slot : List N → List ℕ → List N → List N × ℕ
  unfolding accumulate sum_from
  select_slot slots ss effs =
      let (slots', best_idx) = accumulate slots 0 0 num.lowest ss effs in
      let best = get_or ss best_idx 0 in
      (set slots' best (num.sub (get_or slots' best num.zero) (sum_from num.zero effs)), best_idx)

  -- `Select`.
  unfoldable pub select : List (ProviderCandidate N) → Balancer N → Balancer N × ProviderCandidate N
  select [] b = (b, no_candidate)
  select (c ∷ cs) b =
      let effs = map (effective_weight b.cfg) (c ∷ cs) in
      let (b', ss) = resolve_slots (c ∷ cs) b in
      let (slots, best_idx) = select_slot b'.slots ss effs in
      (record b' { slots = slots }, get_or (c ∷ cs) best_idx no_candidate)
