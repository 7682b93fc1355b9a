-- ===== src/Decision/Balancer/Membership.antt =====
-- `Select` chooses one of the candidates that it is given.
use momu_llmgateway.Base.{
  ℕ, suc, ◌+◌, ◌<◌, ◌≤◌, List, [], ◌∷◌, map, length, get_or, set, All, get_or-All, if◌then◌else◌,
  ◌≡◌, refl, ap, arith,
}
use momu_llmgateway.Decision.Balancer.{
  Num, ProviderCandidate, Balancer, register, resolve_slots, select_slot, select, effective_weight,
  accumulate, no_candidate,
}

module _ {N : Type 0} (num : Num N) where
  accumulate-lt :
      (slots : List N) (i b : ℕ) (w : N) (ss : List ℕ) (effs : List N) (n : ℕ)
      → b < n
      → i + length ss ≤ n
      → (accumulate num slots i b w ss effs).1 < n
  unfolding accumulate
  accumulate-lt slots i b w [] effs n h l = h
  accumulate-lt slots i b w (s ∷ ss) [] n h l = h
  accumulate-lt slots i b w (s ∷ ss) (eff ∷ effs) n h l =
      let cw = num.add (get_or slots s num.zero) eff in
      accumulate-lt (set slots s cw) (i + 1) (if num.lt w cw then i else b)
        (if num.lt w cw then cw else w) ss effs n (ground arith) (omega arith)

  length-resolve_slots :
      (cs : List (ProviderCandidate N)) (b : Balancer N)
      → length (resolve_slots num cs b).1 ≡ length cs
  unfolding resolve_slots
  length-resolve_slots [] b = refl
  length-resolve_slots (c ∷ cs) b =
      ap suc (length-resolve_slots cs (register num c.provider_name b).0)

  -- What holds of every candidate holds of the one that is chosen.
  pub select-All {κ} :
      (P : ProviderCandidate N → Type κ) (c : ProviderCandidate N) (cs : List (ProviderCandidate N))
      (b : Balancer N)
      → All P (c ∷ cs)
      → P (select num (c ∷ cs) b).1
  unfolding select select_slot
  select-All P c cs b h =
      let effs = map (effective_weight num b.cfg) (c ∷ cs) in
      let (b', ss) = resolve_slots num (c ∷ cs) b in
      get_or-All P (c ∷ cs) (accumulate num b'.slots 0 0 num.lowest ss effs).1 (no_candidate num) h
        (accumulate-lt b'.slots 0 0 num.lowest ss effs (length (c ∷ cs)) (omega arith)
          (omega (arith, length-resolve_slots (c ∷ cs) b)))
