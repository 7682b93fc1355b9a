-- ===== src/Decision/Balancer/Selection.antt =====
-- `Select` as the textbook round: runs of it on candidates whose slots are known.
use momu_llmgateway.Base.{
  ℕ, zero, suc, ◌*◌, ◌<◌, String, List, [], ◌∷◌, map, length, length-map, get_or, ◌≡◌, refl, sym,
  ap, ◌∙◌, arith,
}
use momu_llmgateway.Base.Int.{ℤ, pos}
use momu_llmgateway.Decision.Balancer.{
  BalancerConfig, ProviderCandidate, Balancer, no_candidate, resolve_slots, effective_weight,
  select_slot, select,
}
use momu_llmgateway.Decision.Balancer.Invariant.{
  IsValid, AreSlots, Registered, AreDistinct, AreSlots-Registered,
}
use momu_llmgateway.Decision.Balancer.Rounds.{int_num, view, select_slot-eq-round}
use momu_llmgateway.Decision.Balancer.Fairness.{sum}
use momu_llmgateway.Decision.Balancer.Shares.{rounds, times, zeros, rounds_cycle}

-- `n` selections among the same candidates: the balancer after them, and the chosen candidates.
pub selections :
    ℕ → List (ProviderCandidate ℤ) → Balancer ℤ → Balancer ℤ × List (ProviderCandidate ℤ)
selections zero cs b = (b, [])
selections (suc n) cs b =
    let (b', c) = select int_num cs b in let (b'', picks) = selections n cs b' in (b'', c ∷ picks)

-- The effective weights are these whole numbers.
abbrev pub Weights : BalancerConfig ℤ → List (ProviderCandidate ℤ) → List ℕ → Type 0
Weights cfg cs ws = map (effective_weight int_num cfg) cs ≡ map pos ws

resolve_slots-Registered :
    (b : Balancer ℤ) (cs : List (ProviderCandidate ℤ)) (ss : List ℕ)
    → Registered b.name_to_slot cs ss
    → resolve_slots int_num cs b ≡ (b, ss)
unfolding resolve_slots
resolve_slots-Registered b [] [] h = refl
resolve_slots-Registered b (c ∷ cs) (s ∷ ss) (e, h) =
    rw e (rw (resolve_slots-Registered b cs ss h) refl)
resolve_slots-Registered b [] (s ∷ ss) h = elim h [ ]
resolve_slots-Registered b (c ∷ cs) [] h = elim h [ ]

-- A selection on known slots.
select-Registered :
    (b : Balancer ℤ) (c : ProviderCandidate ℤ) (cs : List (ProviderCandidate ℤ)) (ss ws : List ℕ)
    → Registered b.name_to_slot (c ∷ cs) ss
    → Weights b.cfg (c ∷ cs) ws
    → let (slots, best) = select_slot int_num b.slots ss (map pos ws) in
      select int_num (c ∷ cs) b
      ≡ (record b { slots = slots }, get_or (c ∷ cs) best (no_candidate int_num))
unfolding select
select-Registered b c cs ss ws h w = rw w (rw (resolve_slots-Registered b (c ∷ cs) ss h) refl)

selections-eq-rounds :
    (n : ℕ) (b : Balancer ℤ) (c : ProviderCandidate ℤ) (cs : List (ProviderCandidate ℤ))
    (ss ws : List ℕ)
    → Registered b.name_to_slot (c ∷ cs) ss
    → Weights b.cfg (c ∷ cs) ws
    → AreSlots (length b.slots) ss
    → length (map pos ws) ≡ length ss
    → 0 < length ss
    → let (slots, bs) = rounds n (view b.slots ss) (map pos ws) in
      (view (selections n (c ∷ cs) b).0.slots ss ≡ slots)
      × ((selections n (c ∷ cs) b).1 ≡ map (λ i. get_or (c ∷ cs) i (no_candidate int_num)) bs)
unfolding selections rounds
selections-eq-rounds zero b c cs ss ws h w a e l = (refl, refl)
selections-eq-rounds (suc n) b c cs ss ws h w a e l =
    let (slots, best) = select_slot int_num b.slots ss (map pos ws) in
    let (viewed, chosen, a') = select_slot-eq-round b.slots ss (map pos ws) a l e in
    let rest = selections-eq-rounds n (record b { slots = slots }) c cs ss ws h w a' e l in
    rw (select-Registered b c cs ss ws h w) (
      rw (← viewed, ← chosen)
        (rest.0, ap (◌∷◌ (get_or (c ∷ cs) best (no_candidate int_num))) rest.1))

length-Registered :
    (d : List (String × ℕ)) (cs : List (ProviderCandidate ℤ)) (ss : List ℕ)
    → Registered d cs ss
    → length ss ≡ length cs
length-Registered d [] [] h = refl
length-Registered d (c ∷ cs) (s ∷ ss) (_, h) = ap suc (length-Registered d cs ss h)
length-Registered d [] (s ∷ ss) h = elim h [ ]
length-Registered d (c ∷ cs) [] h = elim h [ ]

length-Weights :
    (cfg : BalancerConfig ℤ) (cs : List (ProviderCandidate ℤ)) (ws : List ℕ)
    → Weights cfg cs ws
    → length (map pos ws) ≡ length cs
length-Weights cfg cs ws w = ap length (sym w) ∙ length-map cs (effective_weight int_num cfg)

-- In a balancer with a valid slot table, where candidates of different names are registered, have
-- whole effective weights with a positive sum, and current weights of zero: in `m` times as many
-- selections among them as that sum, each candidate is chosen `m` times for each unit of its
-- weight, and the current weights are zero again.
pub selections_cycle :
    (m : ℕ) (b : Balancer ℤ) (c : ProviderCandidate ℤ) (cs : List (ProviderCandidate ℤ))
    (ss ws : List ℕ)
    → IsValid b
    → AreDistinct (c ∷ cs)
    → Registered b.name_to_slot (c ∷ cs) ss
    → Weights b.cfg (c ∷ cs) ws
    → view b.slots ss ≡ zeros ws
    → 0 < sum ws
    → let (b', picks) = selections (m * sum ws) (c ∷ cs) b in
      (view b'.slots ss ≡ zeros ws)
      × (bs : List ℕ) × (picks ≡ map (λ i. get_or (c ∷ cs) i (no_candidate int_num)) bs)
      × ((i : ℕ) → i < length ws → times i bs ≡ m * get_or ws i 0)
selections_cycle m b c cs ss ws v d h w z l =
    let same = length-Registered b.name_to_slot (c ∷ cs) ss h in
    let (kept, picked) =
      selections-eq-rounds (m * sum ws) b c cs ss ws h w (AreSlots-Registered b (c ∷ cs) ss v d h)
        (length-Weights b.cfg (c ∷ cs) ws w ∙ sym same) (omega arith) in
    let (cs_zero, shares) = rounds_cycle m ws l in
    let bs = (rounds (m * sum ws) (zeros ws) (map pos ws)).1 in
    (
      kept ∙ ap (λ v. (rounds (m * sum ws) v (map pos ws)).0) z ∙ cs_zero,
      bs,
      picked
          ∙ ap
              (λ v.
                map (λ i. get_or (c ∷ cs) i (no_candidate int_num))
                  (rounds (m * sum ws) v (map pos ws)).1)
              z,
      shares,
    )
