-- ===== src/Decision/Balancer/Rounds.antt =====
-- One selection over whole weights, seen on the candidates' own weights.
-- `round` is the textbook step: add every weight, take the first largest, subtract the total from it.
use momu_llmgateway.Base.{
  ℕ, zero, suc, ◌+◌, ◌/◌, ◌<◌, ◌≤◌, List, [], ◌∷◌, map, length, get_or, set, length-set,
  get_or-set_self, get_or-set_ne, if◌then◌else◌, ◌≡◌, ◌≢◌, refl, sym, ap, ap₂, ◌∙◌, arith,
}
use momu_llmgateway.Base.Int.{ℤ, pos, negsuc, ◌+ℤ◌, ◌-ℤ◌, ◌*ℤ◌, ltb_ℤ, leb_ℤ}
use momu_llmgateway.Decision.Balancer.{Num, sum_from, accumulate, select_slot}
use momu_llmgateway.Decision.Balancer.Invariant.{IsFresh, AreSlots, length-accumulate}

-- Division that drops the remainder; the wiring divides by 1 alone.
abbrev quotient : ℤ → ℤ → ℤ
quotient (pos a) (pos b) = pos (a / b)
quotient (pos a) (negsuc b) = pos 0 -ℤ pos (a / suc b)
quotient (negsuc a) (pos b) = pos 0 -ℤ pos (suc a / b)
quotient (negsuc a) (negsuc b) = pos (suc a / suc b)

-- The integers.
abbrev pub int_num : Num ℤ
int_num = record {
  zero = pos 0;
  one = pos 1;
  lowest = negsuc 9223372036854775807;
  of_int = λ z. z;
  add = ◌+ℤ◌;
  sub = ◌-ℤ◌;
  mul = ◌*ℤ◌;
  div = quotient;
  max = λ a b. if leb_ℤ a b then b else a;
  lt = ltb_ℤ;
  le = leb_ℤ;
}

abbrev pub zip_add : List ℤ → List ℤ → List ℤ
zip_add (c ∷ cs) (w ∷ ws) = (c +ℤ w) ∷ zip_add cs ws
zip_add _ _ = []

-- The index of the first largest value above `best`, or else `best_idx`.
unfoldable pub scan : ℕ → ℕ → ℤ → List ℤ → ℕ
scan i best_idx best [] = best_idx
scan i best_idx best (v ∷ vs) =
    let better = ltb_ℤ best v in
    scan (i + 1) (if better then i else best_idx) (if better then v else best) vs

abbrev pub winner : List ℤ → ℕ
winner vs = scan 0 0 (negsuc 9223372036854775807) vs

-- The weights after a round, and the chosen index.
unfoldable pub round : List ℤ → List ℤ → List ℤ × ℕ
unfolding sum_from
round cs ws =
    let vs = zip_add cs ws in
    let best = winner vs in
    (set vs best (get_or vs best (pos 0) -ℤ sum_from int_num (pos 0) ws), best)

-- The weights of the slots of the candidates, in the candidates' order.
abbrev pub view : List ℤ → List ℕ → List ℤ
view slots ss = map (λ s. get_or slots s (pos 0)) ss

view-set_fresh :
    (slots : List ℤ) (s : ℕ) (v : ℤ) (ss : List ℕ)
    → IsFresh s ss
    → view (set slots s v) ss ≡ view slots ss
view-set_fresh slots s v [] h = refl
view-set_fresh slots s v (t ∷ ss) (s≢t, h) =
    ap₂ ◌∷◌ (get_or-set_ne slots s t v (pos 0) s≢t) (view-set_fresh slots s v ss h)

get_or-accumulate_fresh :
    (slots : List ℤ) (i b : ℕ) (w : ℤ) (ss : List ℕ) (effs : List ℤ) (s : ℕ)
    → IsFresh s ss
    → get_or (accumulate int_num slots i b w ss effs).0 s (pos 0) ≡ get_or slots s (pos 0)
unfolding accumulate
get_or-accumulate_fresh slots i b w [] effs s h = refl
get_or-accumulate_fresh slots i b w (t ∷ ss) [] s h = refl
get_or-accumulate_fresh slots i b w (t ∷ ss) (eff ∷ effs) s (s≢t, h) =
    let cw = get_or slots t (pos 0) +ℤ eff in
    get_or-accumulate_fresh (set slots t cw) (i + 1) (if ltb_ℤ w cw then i else b)
      (if ltb_ℤ w cw then cw else w) ss effs s h
    ∙ get_or-set_ne slots t s cw (pos 0) (λ e. s≢t (sym e))

-- Each slot gets its weight, and the best index is that of the sums.
accumulate-view :
    (slots : List ℤ) (i b : ℕ) (w : ℤ) (ss : List ℕ) (effs : List ℤ)
    → AreSlots (length slots) ss
    → length effs ≡ length ss
    → (view (accumulate int_num slots i b w ss effs).0 ss ≡ zip_add (view slots ss) effs)
      × ((accumulate int_num slots i b w ss effs).1 ≡ scan i b w (zip_add (view slots ss) effs))
unfolding accumulate scan
accumulate-view slots i b w [] [] h e = (refl, refl)
accumulate-view slots i b w [] (eff ∷ effs) h e = absurd (omega arith)
accumulate-view slots i b w (s ∷ ss) [] h e = absurd (omega arith)
accumulate-view slots i b w (s ∷ ss) (eff ∷ effs) (s<n, fresh, h) e =
    let cw = get_or slots s (pos 0) +ℤ eff in
    let slots' = set slots s cw in
    let better = ltb_ℤ w cw in
    let rest =
      accumulate-view slots' (i + 1) (if better then i else b) (if better then cw else w) ss effs
        (rw (length-set slots s cw) h) (omega arith) in
    (
      ap₂ ◌∷◌
          (get_or-accumulate_fresh slots' (i + 1) (if better then i else b)
              (if better then cw else w) ss effs s fresh
            ∙ get_or-set_self slots s cw (pos 0) s<n)
          (rest.0 ∙ ap (λ l. zip_add l effs) (view-set_fresh slots s cw ss fresh)),
      rest.1
          ∙ ap
              (λ l.
                scan (i + 1) (if better then i else b) (if better then cw else w) (zip_add l effs))
              (view-set_fresh slots s cw ss fresh),
    )

length-view : (slots : List ℤ) (ss : List ℕ) → length (view slots ss) ≡ length ss
length-view slots [] = refl
length-view slots (s ∷ ss) = ap suc (length-view slots ss)

fresh-ne : (s : ℕ) (ss : List ℕ) (b : ℕ) → IsFresh s ss → b < length ss → get_or ss b 0 ≢ s
fresh-ne s [] b h l = elim l [ ]
fresh-ne s (t ∷ ss) zero (s≢t, h) l = λ e. s≢t (sym e)
fresh-ne s (t ∷ ss) (suc b) (s≢t, h) l = fresh-ne s ss b h (omega arith)

-- A write to the slot of one candidate.
view-set :
    (slots : List ℤ) (ss : List ℕ) (b : ℕ) (v : ℤ)
    → AreSlots (length slots) ss
    → b < length ss
    → view (set slots (get_or ss b 0) v) ss ≡ set (view slots ss) b v
view-set slots [] b v h l = elim l [ ]
view-set slots (s ∷ ss) zero v (s<n, fresh, h) l =
    ap₂ ◌∷◌ (get_or-set_self slots s v (pos 0) s<n) (view-set_fresh slots s v ss fresh)
view-set slots (s ∷ ss) (suc b) v (s<n, fresh, h) l =
    ap₂ ◌∷◌ (get_or-set_ne slots (get_or ss b 0) s v (pos 0) (fresh-ne s ss b fresh (omega arith)))
      (view-set slots ss b v h (omega arith))

get_or-view :
    (slots : List ℤ) (ss : List ℕ) (b : ℕ)
    → b < length ss
    → get_or (view slots ss) b (pos 0) ≡ get_or slots (get_or ss b 0) (pos 0)
get_or-view slots [] b l = elim l [ ]
get_or-view slots (s ∷ ss) zero l = refl
get_or-view slots (s ∷ ss) (suc b) l = get_or-view slots ss b (omega arith)

scan-lt : (i b : ℕ) (w : ℤ) (vs : List ℤ) (n : ℕ) → b < n → i + length vs ≤ n → scan i b w vs < n
unfolding scan
scan-lt i b w [] n h l = h
scan-lt i b w (v ∷ vs) n h l =
    scan-lt (i + 1) (if ltb_ℤ w v then i else b) (if ltb_ℤ w v then v else w) vs n (ground arith)
      (omega arith)

pub length-zip_add : (cs ws : List ℤ) → length ws ≡ length cs → length (zip_add cs ws) ≡ length cs
length-zip_add [] [] e = refl
length-zip_add [] (w ∷ ws) e = refl
length-zip_add (c ∷ cs) [] e = absurd (omega arith)
length-zip_add (c ∷ cs) (w ∷ ws) e = ap suc (length-zip_add cs ws (omega arith))

pub winner-lt : (vs : List ℤ) → 0 < length vs → winner vs < length vs
winner-lt vs h = scan-lt 0 0 (negsuc 9223372036854775807) vs (length vs) h (omega arith)

view-set_sub :
    (slots : List ℤ) (ss : List ℕ) (b : ℕ) (total : ℤ)
    → AreSlots (length slots) ss
    → b < length ss
    → view (set slots (get_or ss b 0) (get_or slots (get_or ss b 0) (pos 0) -ℤ total)) ss
      ≡ set (view slots ss) b (get_or (view slots ss) b (pos 0) -ℤ total)
view-set_sub slots ss b total h l =
    view-set slots ss b (get_or slots (get_or ss b 0) (pos 0) -ℤ total) h l
    ∙ ap (λ c. set (view slots ss) b (c -ℤ total)) (sym (get_or-view slots ss b l))

-- For at least one candidate, slots that differ and lie in the array, and a weight for each: the slots
-- after a selection hold, for the candidates, what the textbook round gives, and the same
-- candidate is chosen; the candidates' slots stay slots.
pub select_slot-eq-round :
    (slots : List ℤ) (ss : List ℕ) (ws : List ℤ)
    → AreSlots (length slots) ss
    → 0 < length ss
    → length ws ≡ length ss
    → (view (select_slot int_num slots ss ws).0 ss ≡ (round (view slots ss) ws).0)
      × ((select_slot int_num slots ss ws).1 ≡ (round (view slots ss) ws).1)
      × AreSlots (length (select_slot int_num slots ss ws).0) ss
unfolding select_slot round
select_slot-eq-round slots ss ws h l e =
    let w = negsuc 9223372036854775807 in
    let (slots', best) = accumulate int_num slots 0 0 w ss ws in
    let vs = zip_add (view slots ss) ws in
    let total = sum_from int_num (pos 0) ws in
    let (viewed, chosen) = accumulate-view slots 0 0 w ss ws h e in
    let slotted : AreSlots (length slots') ss =
      rw (length-accumulate int_num slots 0 0 w ss ws) h in
    let same : length vs ≡ length ss =
      length-zip_add (view slots ss) ws (e ∙ sym (length-view slots ss)) ∙ length-view slots ss in
    let bound : best < length ss = rw chosen (omega (arith, winner-lt vs (omega arith))) in
    (
      view-set_sub slots' ss best total slotted bound
          ∙ ap₂ (λ v b. set v b (get_or v b (pos 0) -ℤ total)) viewed chosen,
      chosen,
      rw (length-set slots' (get_or ss best 0) (get_or slots' (get_or ss best 0) (pos 0) -ℤ total))
          slotted,
    )
