-- ===== src/Decision/Balancer/Fairness.antt =====
-- How often each candidate is chosen in a run of rounds over whole weights.
use momu_llmgateway.Base.{
  ℕ, zero, suc, ◌+◌, ◌*◌, ◌<◌, List, [], ◌∷◌, map, length, get_or, set, All, ◌≡◌, ◌⊎◌, inl, inr,
  refl, ap, ◌∙◌, arith, Bool-cases, ltb→lt,
}
use native.Mathlib.Decide.{dec_lt}
use native.Mathlib.Nat.{zero-add}
use momu_llmgateway.Base.Int.{
  ℤ, pos, negsuc, ◌+ℤ◌, ◌-ℤ◌, ltb_ℤ, pos_part, neg_part, ◌≤ℤ◌, ◌<ℤ◌, +ℤ_parts, -ℤ_parts, int_laws,
  eq_of_parts, one_part,
}
use momu_llmgateway.Decision.Balancer.{sum_from}
use momu_llmgateway.Decision.Balancer.Rounds.{int_num, zip_add, scan, winner, round}

abbrev pub sum : List ℕ → ℕ
sum [] = 0
sum (w ∷ ws) = w + sum ws

abbrev pub total_pos : List ℤ → ℕ
total_pos [] = 0
total_pos (c ∷ cs) = pos_part c + total_pos cs

abbrev pub total_neg : List ℤ → ℕ
total_neg [] = 0
total_neg (c ∷ cs) = neg_part c + total_neg cs

-- One more for the chosen index.
abbrev pub bump : List ℕ → ℕ → List ℕ
bump [] b = []
bump (k ∷ ks) zero = suc k ∷ ks
bump (k ∷ ks) (suc b) = k ∷ bump ks b

-- After `n` rounds a candidate of weight `w` that was chosen `k` times holds n * w - W * k, which is
-- above -W; `W` is the sum of the weights.
abbrev pub Balanced : ℕ → ℕ → List ℕ → List ℤ → List ℕ → Type 0
Balanced W n [] [] [] = Unit
Balanced W n (w ∷ ws) (c ∷ cs) (k ∷ ks) =
    (pos_part c + W * k ≡ n * w + neg_part c) × (neg_part c < W) × Balanced W n ws cs ks
Balanced W n _ _ _ = ⊥

zip_add-Balanced :
    (W n : ℕ) (ws : List ℕ) (cs : List ℤ) (ks : List ℕ)
    → Balanced W n ws cs ks
    → Balanced W (suc n) ws (zip_add cs (map pos ws)) ks
zip_add-Balanced W n [] [] [] h = tt
zip_add-Balanced W n (w ∷ ws) (c ∷ cs) (k ∷ ks) (e, l, h) = (
  grind (arith, +ℤ_parts c (pos w)),
  omega (int_laws, one_part (c +ℤ pos w)),
  zip_add-Balanced W n ws cs ks h,
)
zip_add-Balanced W n [] [] (k ∷ ks) h = elim h [ ]
zip_add-Balanced W n [] (c ∷ cs) ks h = elim h [ ]
zip_add-Balanced W n (w ∷ ws) [] ks h = elim h [ ]
zip_add-Balanced W n (w ∷ ws) (c ∷ cs) [] h = elim h [ ]

set-Balanced :
    (W n : ℕ) (ws : List ℕ) (vs : List ℤ) (ks : List ℕ) (b : ℕ)
    → Balanced W n ws vs ks
    → 0 < W
    → 0 < pos_part (get_or vs b (pos 0))
    → Balanced W n ws (set vs b (get_or vs b (pos 0) -ℤ pos W)) (bump ks b)
set-Balanced W n [] [] [] b h l p = tt
set-Balanced W n (w ∷ ws) (v ∷ vs) (k ∷ ks) zero (e, m, h) l p = (
  grind (arith, -ℤ_parts v (pos W), one_part v),
  omega (int_laws, one_part (v -ℤ pos W), one_part v),
  h,
)
set-Balanced W n (w ∷ ws) (v ∷ vs) (k ∷ ks) (suc b) (e, m, h) l p =
    (e, m, set-Balanced W n ws vs ks b h l p)
set-Balanced W n [] [] (k ∷ ks) b h l p = elim h [ ]
set-Balanced W n [] (c ∷ cs) ks b h l p = elim h [ ]
set-Balanced W n (w ∷ ws) [] ks b h l p = elim h [ ]
set-Balanced W n (w ∷ ws) (c ∷ cs) [] b h l p = elim h [ ]

total-zip_add :
    (ws : List ℕ) (cs : List ℤ)
    → length cs ≡ length ws
    → total_pos (zip_add cs (map pos ws)) + total_neg cs
      ≡ total_neg (zip_add cs (map pos ws)) + total_pos cs + sum ws
total-zip_add [] [] e = refl
total-zip_add [] (c ∷ cs) e = absurd (omega arith)
total-zip_add (w ∷ ws) [] e = absurd (omega arith)
total-zip_add (w ∷ ws) (c ∷ cs) e =
    omega (arith, total-zip_add ws cs (omega arith), +ℤ_parts c (pos w))

total-set :
    (vs : List ℤ) (b W : ℕ)
    → b < length vs
    → let vs' = set vs b (get_or vs b (pos 0) -ℤ pos W) in
      total_pos vs' + total_neg vs + W ≡ total_neg vs' + total_pos vs
total-set [] b W l = elim l [ ]
total-set (v ∷ vs) zero W l = omega (arith, -ℤ_parts v (pos W))
total-set (v ∷ vs) (suc b) W l = omega (arith, total-set vs b W (omega arith))

-- The values above the start lose to the first largest of them.
scan-max :
    (i b : ℕ) (w : ℤ) (vs : List ℤ)
    → (All (λ v. v ≤ℤ w) vs × (scan i b w vs ≡ b))
      ⊎ ((j : ℕ) × (scan i b w vs ≡ i + j)
          × (j < length vs)
          × (w <ℤ get_or vs j (pos 0))
          × All (λ v. v ≤ℤ get_or vs j (pos 0)) vs)
unfolding scan
scan-max i b w [] = inl (tt, refl)
scan-max i b w (v ∷ vs) = elim (Bool-cases (ltb_ℤ w v)) [
  | inl better ↦
      let w<v : w <ℤ v = ltb→lt _ _ better in
      rw better (elim (scan-max (i + 1) i v vs) [
        | inl (all, e) ↦ inr (0, e ∙ omega arith, omega arith, w<v, (omega arith, all))
        | inr (j, e, l, v<m, all) ↦
            inr (suc j, e ∙ omega arith, omega arith, omega arith, (omega arith, all))
      ])
  | inr worse ↦
      let v≤w : v ≤ℤ w = ground (arith, worse) in
      rw worse (elim (scan-max (i + 1) b w vs) [
        | inl (all, e) ↦ inl ((v≤w, all), e)
        | inr (j, e, l, w<m, all) ↦
            inr (suc j, e ∙ omega arith, omega arith, w<m, (omega arith, all))
      ])
]

total_pos-eq-zero : (m : ℤ) (vs : List ℤ) → All (λ v. v ≤ℤ m) vs → m ≤ℤ pos 0 → total_pos vs ≡ 0
total_pos-eq-zero m [] h l = refl
total_pos-eq-zero m (v ∷ vs) (p, h) l =
    omega (arith, total_pos-eq-zero m vs h l, one_part v, one_part m)

-- Where the sum is positive, the winner is an index of the list, and its value is positive.
winner-pos :
    (vs : List ℤ)
    → total_neg vs < total_pos vs
    → (winner vs < length vs) × (0 < pos_part (get_or vs (winner vs) (pos 0)))
winner-pos vs h = elim (scan-max 0 0 (negsuc 9223372036854775807) vs) [
  | inl (all, e) ↦
      absurd (omega (arith, total_pos-eq-zero (negsuc 9223372036854775807) vs all (omega arith)))
  | inr (j, e, l, low, all) ↦
      let same : winner vs ≡ j = e ∙ omega arith in rw same (l, positive j all)
]
  where
    positive : (j : ℕ) → All (λ v. v ≤ℤ get_or vs j (pos 0)) vs → 0 < pos_part (get_or vs j (pos 0))
    positive j all = elim (dec_lt 0 (pos_part (get_or vs j (pos 0)))) [
      | yes p ↦ p
      | no p ↦ absurd (omega (arith, total_pos-eq-zero (get_or vs j (pos 0)) vs all (omega arith)))
    ]

sum_from-pos : (a : ℕ) (ws : List ℕ) → sum_from int_num (pos a) (map pos ws) ≡ pos (a + sum ws)
unfolding sum_from
sum_from-pos a [] = ap pos (omega arith)
sum_from-pos a (w ∷ ws) =
    ap (λ z. sum_from int_num z (map pos ws))
      (eq_of_parts (pos a +ℤ pos w) (pos (a + w)) (omega (int_laws, one_part (pos a +ℤ pos w))))
    ∙ sum_from-pos (a + w) ws
    ∙ ap pos (omega arith)

lengths-Balanced :
    (W n : ℕ) (ws : List ℕ) (cs : List ℤ) (ks : List ℕ)
    → Balanced W n ws cs ks
    → (length cs ≡ length ws) × (length ks ≡ length ws)
lengths-Balanced W n [] [] [] h = (refl, refl)
lengths-Balanced W n (w ∷ ws) (c ∷ cs) (k ∷ ks) (_, _, h) =
    let (p, q) = lengths-Balanced W n ws cs ks h in (ap suc p, ap suc q)
lengths-Balanced W n [] [] (k ∷ ks) h = elim h [ ]
lengths-Balanced W n [] (c ∷ cs) ks h = elim h [ ]
lengths-Balanced W n (w ∷ ws) [] ks h = elim h [ ]
lengths-Balanced W n (w ∷ ws) (c ∷ cs) [] h = elim h [ ]

-- One round keeps the balance, and the weights still add up to zero.
pub round-Balanced :
    (n : ℕ) (ws : List ℕ) (cs : List ℤ) (ks : List ℕ)
    → 0 < sum ws
    → Balanced (sum ws) n ws cs ks × (total_pos cs ≡ total_neg cs)
    → let (cs', b) = round cs (map pos ws) in
      Balanced (sum ws) (suc n) ws cs' (bump ks b) × (total_pos cs' ≡ total_neg cs')
unfolding round
round-Balanced n ws cs ks l (h, z) =
    let vs = zip_add cs (map pos ws) in
    let t = total-zip_add ws cs (lengths-Balanced (sum ws) n ws cs ks h).0 in
    let (inside, positive) = winner-pos vs (omega arith) in
    rw (sum_from-pos 0 ws) (
      rw (zero-add (sum ws)) (
        set-Balanced (sum ws) (suc n) ws vs ks (winner vs) (zip_add-Balanced (sum ws) n ws cs ks h)
            l positive,
        omega (arith, total-set vs (winner vs) (sum ws) inside),
      ))
