-- ===== src/Decision/Balancer/Shares.antt =====
-- Runs of rounds: each candidate gets its share.
use momu_llmgateway.Base.{
  ℕ, zero, suc, ◌+◌, ◌*◌, ◌<◌, List, [], ◌∷◌, map, length, get_or, eqb, if◌then◌else◌, ◌≡◌, inl,
  inr, refl, sym, ap, ap₂, ◌∙◌, arith,
}
use native.Mathlib.Decide.{dec_lt}
use native.Mathlib.Nat.{zero-add}
use momu_llmgateway.Base.Int.{ℤ, pos, pos_part, neg_part, one_part, eq_of_parts}
use momu_llmgateway.Decision.Balancer.Rounds.{round}
use momu_llmgateway.Decision.Balancer.Fairness.{
  sum, total_pos, total_neg, bump, Balanced, round-Balanced,
}

-- `n` rounds: the weights after them, and the chosen indices.
unfoldable pub rounds : ℕ → List ℤ → List ℤ → List ℤ × List ℕ
rounds zero cs ws = (cs, [])
rounds (suc n) cs ws =
    let (cs', b) = round cs ws in let (cs'', bs) = rounds n cs' ws in (cs'', b ∷ bs)

-- How often an index was chosen.
abbrev pub times : ℕ → List ℕ → ℕ
times i [] = 0
times i (b ∷ bs) = (if eqb i b then 1 else 0) + times i bs

abbrev bump_all : List ℕ → List ℕ → List ℕ
bump_all ks [] = ks
bump_all ks (b ∷ bs) = bump_all (bump ks b) bs

rounds-Balanced :
    (m n : ℕ) (ws : List ℕ) (cs : List ℤ) (ks : List ℕ)
    → 0 < sum ws
    → Balanced (sum ws) n ws cs ks × (total_pos cs ≡ total_neg cs)
    → let (cs', bs) = rounds m cs (map pos ws) in
      Balanced (sum ws) (m + n) ws cs' (bump_all ks bs) × (total_pos cs' ≡ total_neg cs')
unfolding rounds
rounds-Balanced zero n ws cs ks l h = rw zero-add h
rounds-Balanced (suc m) n ws cs ks l h =
    let (cs', b) = round cs (map pos ws) in
    let next = rounds-Balanced m (suc n) ws cs' (bump ks b) l (round-Balanced n ws cs ks l h) in
    let same : m + suc n ≡ suc m + n = omega arith in rw same at next

get_or-bump :
    (ks : List ℕ) (b i : ℕ)
    → i < length ks
    → get_or (bump ks b) i 0 ≡ (if eqb i b then 1 else 0) + get_or ks i 0
get_or-bump [] b i l = elim l [ ]
get_or-bump (k ∷ ks) zero zero l = omega arith
get_or-bump (k ∷ ks) zero (suc i) l = ground arith
get_or-bump (k ∷ ks) (suc b) zero l = ground arith
get_or-bump (k ∷ ks) (suc b) (suc i) l = ground (arith, get_or-bump ks b i)

length-bump : (ks : List ℕ) (b : ℕ) → length (bump ks b) ≡ length ks
length-bump [] b = refl
length-bump (k ∷ ks) zero = refl
length-bump (k ∷ ks) (suc b) = ap suc (length-bump ks b)

get_or-bump_all :
    (ks bs : List ℕ) (i : ℕ)
    → i < length ks
    → get_or (bump_all ks bs) i 0 ≡ times i bs + get_or ks i 0
get_or-bump_all ks [] i l = omega arith
get_or-bump_all ks (b ∷ bs) i l =
    omega (arith, get_or-bump_all (bump ks b) bs i (rw (length-bump ks b) l), get_or-bump ks b i l)

abbrev pub zeros : List ℕ → List ℤ
zeros ws = map (λ w. pos 0) ws

abbrev no_picks : List ℕ → List ℕ
no_picks ws = map (λ w. 0) ws

start-Balanced :
    (W : ℕ) (ws : List ℕ)
    → 0 < W
    → Balanced W 0 ws (zeros ws) (no_picks ws) × (total_pos (zeros ws) ≡ total_neg (zeros ws))
start-Balanced W [] l = (tt, refl)
start-Balanced W (w ∷ ws) l =
    let (h, z) = start-Balanced W ws l in ((grind arith, l, h), omega arith)

get_or-no_picks : (ws : List ℕ) (i : ℕ) → get_or (no_picks ws) i 0 ≡ 0
get_or-no_picks [] i = refl
get_or-no_picks (w ∷ ws) zero = refl
get_or-no_picks (w ∷ ws) (suc i) = get_or-no_picks ws i

length-no_picks : (ws : List ℕ) → length (no_picks ws) ≡ length ws
length-no_picks [] = refl
length-no_picks (w ∷ ws) = ap suc (length-no_picks ws)

Balanced-get_or :
    (W n : ℕ) (ws : List ℕ) (cs : List ℤ) (ks : List ℕ) (i : ℕ)
    → Balanced W n ws cs ks
    → i < length ws
    → (pos_part (get_or cs i (pos 0)) + W * get_or ks i 0
        ≡ n * get_or ws i 0 + neg_part (get_or cs i (pos 0)))
      × (neg_part (get_or cs i (pos 0)) < W)
Balanced-get_or W n [] cs ks i h l = elim l [ ]
Balanced-get_or W n (w ∷ ws) (c ∷ cs) (k ∷ ks) zero (e, m, h) l = (e, m)
Balanced-get_or W n (w ∷ ws) (c ∷ cs) (k ∷ ks) (suc i) (e, m, h) l =
    Balanced-get_or W n ws cs ks i h (omega arith)
Balanced-get_or W n (w ∷ ws) [] ks i h l = elim h [ ]
Balanced-get_or W n (w ∷ ws) (c ∷ cs) [] i h l = elim h [ ]

-- A remainder below the divisor is determined.
remainder_zero : (W k q r : ℕ) → W * k ≡ W * q + r → r < W → r ≡ 0
remainder_zero W k q r e l = elim (dec_lt q k) [ yes h ↦ absurd (grind arith) | no h ↦ grind arith ]

multiple_eq : (W k q : ℕ) → 0 < W → W * k ≡ W * q → k ≡ q
multiple_eq W k q l e = elim (dec_lt q k) [
  | yes h ↦ absurd (grind arith)
  | no h ↦ elim (dec_lt k q) [ yes g ↦ absurd (grind arith) | no g ↦ omega arith ]
]

whole_cycles :
    (W m w k : ℕ) (c : ℤ)
    → pos_part c + W * k ≡ (m * W) * w + neg_part c
    → neg_part c < W
    → neg_part c ≡ 0
whole_cycles W m w k c e l = elim (one_part c) [
  | inl p ↦ remainder_zero W k (m * w) (neg_part c) (grind arith) l
  | inr p ↦ p
]

total_neg-Balanced :
    (W m : ℕ) (ws : List ℕ) (cs : List ℤ) (ks : List ℕ)
    → Balanced W (m * W) ws cs ks
    → total_neg cs ≡ 0
total_neg-Balanced W m [] [] [] h = refl
total_neg-Balanced W m (w ∷ ws) (c ∷ cs) (k ∷ ks) (e, l, h) =
    omega (arith, whole_cycles W m w k c e l, total_neg-Balanced W m ws cs ks h)
total_neg-Balanced W m [] [] (k ∷ ks) h = elim h [ ]
total_neg-Balanced W m [] (c ∷ cs) ks h = elim h [ ]
total_neg-Balanced W m (w ∷ ws) [] ks h = elim h [ ]
total_neg-Balanced W m (w ∷ ws) (c ∷ cs) [] h = elim h [ ]

settled :
    (W m : ℕ) (ws : List ℕ) (cs : List ℤ) (ks : List ℕ)
    → 0 < W
    → Balanced W (m * W) ws cs ks
    → total_pos cs ≡ 0
    → total_neg cs ≡ 0
    → (cs ≡ zeros ws) × (ks ≡ map (λ w. m * w) ws)
settled W m [] [] [] l h p n = (refl, refl)
settled W m (w ∷ ws) (c ∷ cs) (k ∷ ks) l (e, _, h) p n =
    let (cs_zero, ks_share) = settled W m ws cs ks l h (omega arith) (omega arith) in
    let none_left : pos_part c ≡ 0 = omega arith in
    let none_owed : neg_part c ≡ 0 = omega arith in
    (
      ap₂ ◌∷◌ (eq_of_parts c (pos 0) (omega arith)) cs_zero,
      ap₂ ◌∷◌ (multiple_eq W k (m * w) l (grind arith)) ks_share,
    )
settled W m [] [] (k ∷ ks) l h p n = elim h [ ]
settled W m [] (c ∷ cs) ks l h p n = elim h [ ]
settled W m (w ∷ ws) [] ks l h p n = elim h [ ]
settled W m (w ∷ ws) (c ∷ cs) [] l h p n = elim h [ ]

get_or-map_mul :
    (m : ℕ) (ws : List ℕ) (i : ℕ) → get_or (map (λ w. m * w) ws) i 0 ≡ m * get_or ws i 0
get_or-map_mul m [] i = omega arith
get_or-map_mul m (w ∷ ws) zero = refl
get_or-map_mul m (w ∷ ws) (suc i) = get_or-map_mul m ws i

run-Balanced :
    (n : ℕ) (ws : List ℕ)
    → 0 < sum ws
    → let (cs, bs) = rounds n (zeros ws) (map pos ws) in
      Balanced (sum ws) n ws cs (bump_all (no_picks ws) bs) × (total_pos cs ≡ total_neg cs)
run-Balanced n ws l =
    let run = rounds-Balanced n 0 ws (zeros ws) (no_picks ws) l (start-Balanced (sum ws) ws l) in
    let same : n + 0 ≡ n = omega arith in rw same at run

times-picks :
    (ws bs : List ℕ) (i : ℕ) → i < length ws → get_or (bump_all (no_picks ws) bs) i 0 ≡ times i bs
times-picks ws bs i l =
    omega
      (arith, get_or-bump_all (no_picks ws) bs i (rw (length-no_picks ws) l), get_or-no_picks ws i)

-- From weights of zero, after any number of full cycles of rounds (as many rounds as the sum of the
-- weights), every candidate was chosen once a cycle for each unit of its weight, and all weights are
-- zero again.
pub rounds_cycle :
    (m : ℕ) (ws : List ℕ)
    → 0 < sum ws
    → ((rounds (m * sum ws) (zeros ws) (map pos ws)).0 ≡ zeros ws)
      × ((i : ℕ)
          → i < length ws
          → times i (rounds (m * sum ws) (zeros ws) (map pos ws)).1 ≡ m * get_or ws i 0)
rounds_cycle m ws l =
    let (cs, bs) = rounds (m * sum ws) (zeros ws) (map pos ws) in
    let (h, z) = run-Balanced (m * sum ws) ws l in
    let owed = total_neg-Balanced (sum ws) m ws cs (bump_all (no_picks ws) bs) h in
    let (cs_zero, ks_share) =
      settled (sum ws) m ws cs (bump_all (no_picks ws) bs) l h (omega arith) owed in
    (
      cs_zero,
      λ i inside.
          sym (times-picks ws bs i inside)
          ∙ ap (λ ks. get_or ks i 0) ks_share
          ∙ get_or-map_mul m ws i,
    )

-- From weights of zero, after any number of rounds, no candidate was chosen a whole time more than
-- its share, which is the number of rounds times its weight over the sum of the weights.
pub rounds_bound :
    (n : ℕ) (ws : List ℕ) (i : ℕ)
    → 0 < sum ws
    → i < length ws
    → sum ws * times i (rounds n (zeros ws) (map pos ws)).1 < n * get_or ws i 0 + sum ws
rounds_bound n ws i l inside =
    let (cs, bs) = rounds n (zeros ws) (map pos ws) in
    let (e, below) =
      Balanced-get_or (sum ws) n ws cs (bump_all (no_picks ws) bs) i (run-Balanced n ws l).0
        inside in
    let moved = rw (times-picks ws bs i inside) at e in omega arith
