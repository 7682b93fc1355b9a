-- ===== src/Witnesses/Balancing.antt =====
-- The balancer at two candidates, of the weights 5 and 1.
use momu_llmgateway.Base.{
  ◌⊎◌, none, ℕ, ◌*◌, ◌<◌, String, false, List, [], ◌∷◌, map, length, get_or, ◌≡◌, ◌≢◌, refl, arith,
  eq_iff,
}
use momu_llmgateway.Base.Dict.{lookup}
use momu_llmgateway.Base.Int.{ℤ, pos, ◌*ℤ◌, ◌+ℤ◌}
use momu_llmgateway.Decision.Balancer.{
  BalancerConfig, ProviderCandidate, Balancer, effective_weight, no_candidate, select, select_slot,
}
use momu_llmgateway.Decision.Balancer.Invariant.{
  IsValid, AreSlots, Registered, AreDistinct, select_slots-IsValid,
}
use momu_llmgateway.Decision.Balancer.Rounds.{int_num, view, round, select_slot-eq-round}
use momu_llmgateway.Decision.Balancer.Selection.{selections, Weights, selections_cycle}
use momu_llmgateway.Decision.Balancer.Shares.{times, zeros}

abbrev config : BalancerConfig ℤ
config = record {
  concurrency_penalty_coefficient = pos 0;
  latency_penalty_coefficient = pos 0;
  warmup_enabled = false;
  warmup_duration = pos 0;
  health_window_size = pos 0;
  health_min_requests = pos 0;
}

abbrev pub candidate : String → ℕ → ProviderCandidate ℤ
candidate name weight = record {
  provider_name = name;
  model = "small";
  base_weight = pos weight;
  active_connections = pos 0;
  normalized_p99_latency = pos 0;
  health_score = pos 1;
  warmup_factor = pos 1;
}

abbrev heavy : ProviderCandidate ℤ
heavy = candidate "a" 5

abbrev light : ProviderCandidate ℤ
light = candidate "b" 1

abbrev pub balancer : Balancer ℤ
balancer = record {
  cfg = config;
  slots = pos 0 ∷ pos 0 ∷ [];
  name_to_slot = ("a", 0) ∷ ("b", 1) ∷ [];
}

balancer-IsValid : IsValid balancer
unfolding lookup
balancer-IsValid = record {
  inside = λ name s h. ground (arith, h);
  apart = λ name name' s h h'.
      ground (arith, h, h', eq_iff "a" name, eq_iff "b" name, eq_iff "a" name', eq_iff "b" name');
}

both-AreDistinct : AreDistinct (heavy ∷ light ∷ [])
both-AreDistinct = ((a_ne_b, tt), (tt, tt))
  where
    a_ne_b : ◌≢◌ {A = String} "a" "b"
    a_ne_b = λ e. ground (arith, e, eq_iff "a" "b")

both-Registered : Registered balancer.name_to_slot (heavy ∷ light ∷ []) (0 ∷ 1 ∷ [])
unfolding lookup
both-Registered = (refl, (refl, tt))

both-Weights : Weights config (heavy ∷ light ∷ []) (5 ∷ 1 ∷ [])
unfolding effective_weight ◌*ℤ◌ ◌+ℤ◌
both-Weights = refl

both-AreSlots : AreSlots 2 (0 ∷ 1 ∷ [])
both-AreSlots = (omega arith, (omega arith, tt), (omega arith, tt, tt))

selections_cycle_example :
    let (b', picks) = selections (2 * 6) (heavy ∷ light ∷ []) balancer in
    (view b'.slots (0 ∷ 1 ∷ []) ≡ zeros (5 ∷ 1 ∷ []))
    × (bs : List ℕ) × (picks ≡ map (λ i. get_or (heavy ∷ light ∷ []) i (no_candidate int_num)) bs)
    × ((i : ℕ) → i < 2 → times i bs ≡ 2 * get_or (5 ∷ 1 ∷ []) i 0)
selections_cycle_example =
    selections_cycle 2 balancer heavy (light ∷ []) (0 ∷ 1 ∷ []) (5 ∷ 1 ∷ []) balancer-IsValid
      both-AreDistinct both-Registered both-Weights refl (omega arith)

select_slot-eq-round_example :
    (view
        (select_slot int_num (pos 3 ∷ pos 0 ∷ []) (0 ∷ 1 ∷ []) (pos 5 ∷ pos 1 ∷ [])).0
        (0 ∷ 1 ∷ [])
      ≡ (round (view (pos 3 ∷ pos 0 ∷ []) (0 ∷ 1 ∷ [])) (pos 5 ∷ pos 1 ∷ [])).0)
    × ((select_slot int_num (pos 3 ∷ pos 0 ∷ []) (0 ∷ 1 ∷ []) (pos 5 ∷ pos 1 ∷ [])).1
        ≡ (round (view (pos 3 ∷ pos 0 ∷ []) (0 ∷ 1 ∷ [])) (pos 5 ∷ pos 1 ∷ [])).1)
    × AreSlots
        (length (select_slot int_num (pos 3 ∷ pos 0 ∷ []) (0 ∷ 1 ∷ []) (pos 5 ∷ pos 1 ∷ [])).0)
        (0 ∷ 1 ∷ [])
select_slot-eq-round_example =
    select_slot-eq-round (pos 3 ∷ pos 0 ∷ []) (0 ∷ 1 ∷ []) (pos 5 ∷ pos 1 ∷ []) both-AreSlots
      (omega arith) refl

select_slots-IsValid_example :
    IsValid (select int_num (heavy ∷ light ∷ []) balancer).0
    × ((lookup "b" balancer.name_to_slot ≡ none)
        ⊎ (lookup "b" (select int_num (heavy ∷ light ∷ []) balancer).0.name_to_slot
            ≡ lookup "b" balancer.name_to_slot))
    × (ss : List ℕ) × Registered
        (select int_num (heavy ∷ light ∷ []) balancer).0.name_to_slot
        (heavy ∷ light ∷ [])
        ss
    × AreSlots (length (select int_num (heavy ∷ light ∷ []) balancer).0.slots) ss
select_slots-IsValid_example =
    select_slots-IsValid int_num (heavy ∷ light ∷ []) balancer "b" balancer-IsValid both-AreDistinct
