-- ===== src/Ingress/Middleware/RateLimit/Overlaps.antt =====
-- How many requests of a key the rate limit admits where they overlap.
use momu_llmgateway.Base.{
  ℕ, suc, ◌+◌, ◌*◌, ◌≤◌, String, false, ◌&&◌, List, ◌∷◌, ◌++◌, length, ◌≡◌, ◌⊎◌, arith, Bool-cases,
  inl, inr, ap, subst, ◌∙◌,
}
use momu_llmgateway.Base.Int.{ℤ, pos, ◌+ℤ◌, ◌-ℤ◌, leb_ℤ, ltb_ℤ, ◌<ℤ◌, ◌≤ℤ◌, +ℤ_parts, -ℤ_parts}
use momu_llmgateway.Ingress.Middleware.RateLimit.{SortedSets, add_member}
use momu_llmgateway.Ingress.Middleware.RateLimit.Window.{
  SetLaws, later_than, within_minute, within_minute-later_than,
}
use momu_llmgateway.Model.{Result, ok, err}
use momu_llmgateway.Ingress.Middleware.RateLimit.Race.{
  RaceState, instants, read_clock, after_count, count_window, Reaches,
}
use momu_llmgateway.Ingress.Middleware.RateLimit.Readings.{
  later_than-length, later_than-middle, within_minute-length, within_minute-middle, AreBefore,
  AreBefore-later, AreBefore-middle,
}

module _ {R : Type 0} (redis : SortedSets R) (rate_key : String) (limit : ℤ) (laws : SetLaws redis)
    (others : ℕ)
    (falls : (x y : ℤ) (r : R) → x ≤ℤ y → laws.above rate_key y r ≤ laws.above rate_key x r)
    (x : ℤ) where
  -- Before a set is pruned within the minute behind `x`: the set and the pending requests together tell of
  -- the admissions from `x` on.
  Open : RaceState R → Type 0
  Open s =
      (laws.above rate_key x s.set + later_than x (instants s.pending) ≡ later_than x s.admitted)
      × (pos (within_minute x s.admitted) ≤ℤ (limit +ℤ pos others))

  -- After that, only requests that wait already can be admitted within the minute.
  Over : RaceState R → Type 0
  Over s =
      ((x +ℤ pos 60000) <ℤ s.clock)
      × (pos (within_minute x s.admitted + within_minute x (instants s.waiting))
          ≤ℤ (limit +ℤ pos (2 * others)))

  Tracks : RaceState R → Type 0
  Tracks s = AreBefore s.clock s.waiting × (Open s ⊎ Over s)

  outside :
      (now : ℤ) → (x +ℤ pos 60000) <ℤ now → (ltb_ℤ x now && leb_ℤ now (x +ℤ pos 60000)) ≡ false
  outside now e = ground (arith, e)

  read_clock-Tracks :
      (s : RaceState R) (now : ℤ) (member : String)
      → s.clock ≤ℤ now
      → Tracks s
      → Tracks (read_clock now member s)
  unfolding Tracks Open Over
  read_clock-Tracks s now member e (past, phase) = (
    (omega arith, AreBefore-later s.clock now s.waiting e past),
    elim phase [
      | inl open_phase ↦ inl open_phase
      | inr (over, few) ↦
          inr (omega (arith, e, over), rw (outside now (omega (arith, e, over))) few)
    ],
  )

  AreBefore-counted :
      (s : RaceState R) (now : ℤ) (member : String) (z : R × Result ℤ)
      → AreBefore s.clock s.waiting
      → AreBefore
          (after_count redis rate_key limit s now member z).clock
          (after_count redis rate_key limit s now member z).waiting
  AreBefore-counted s now member (r, err e) h = h
  AreBefore-counted s now member (r, ok count) h = elim (Bool-cases (leb_ℤ limit count)) [
    | inl full ↦ rw full h
    | inr free ↦ rw free h
  ]

  -- An admission within the minute, while the set still tells of all from `x` on.
  admitted_bound :
      (inside above : ℕ) (pending : List (ℤ × String)) (admitted : List ℤ)
      → leb_ℤ limit (pos inside) ≡ false
      → above ≤ inside
      → length pending ≤ others
      → above + later_than x (instants pending) ≡ later_than x admitted
      → pos (suc (within_minute x admitted)) ≤ℤ (limit +ℤ pos others)
  admitted_bound inside above pending admitted free le few same =
      let fewer : pos inside <ℤ limit = ground (arith, free) in
      omega (
        arith,
        fewer,
        le,
        few,
        same,
        later_than-length x pending,
        within_minute-later_than x admitted,
        +ℤ_parts limit (pos others),
      )

  count_window-Open :
      (s : RaceState R) (rest : List (ℤ × String)) (now : ℤ) (member : String)
      → now ≤ℤ (x +ℤ pos 60000)
      → length s.pending ≤ others
      → Open s
      → Open (count_window redis rate_key limit now member (record s { waiting = rest }))
  unfolding Open
  count_window-Open s rest now member e few (tells, bound) =
      let w = now -ℤ pos 60000 in
      let near : w ≤ℤ x = omega (arith, e, +ℤ_parts x (pos 60000), -ℤ_parts now (pos 60000)) in
      let (r', (pruned, same)) = laws.prune rate_key w s.set in
      elim (Bool-cases (leb_ℤ limit (pos (laws.above rate_key w s.set)))) [
        | inl full ↦
            rw (pruned, full)
              (ap (λ n. n + later_than x (instants s.pending)) (same x near) ∙ tells, bound)
        | inr free ↦
            let new =
              admitted_bound (laws.above rate_key w s.set) (laws.above rate_key x s.set) s.pending
                s.admitted free (falls w x s.set near) few tells in
            rw (pruned, free) (ground (arith, same x near, tells), ground (arith, new, bound))
      ]

  -- The first count behind the minute.
  count_window-closes :
      (s : RaceState R) (rest : List (ℤ × String)) (now : ℤ) (member : String)
      → (x +ℤ pos 60000) <ℤ now
      → now ≤ℤ s.clock
      → length rest ≤ others
      → Open s
      → Over (count_window redis rate_key limit now member (record s { waiting = rest }))
  unfolding Open Over
  count_window-closes s rest now member e past few (tells, bound) =
      let w = now -ℤ pos 60000 in
      let later : (x +ℤ pos 60000) <ℤ s.clock = omega (arith, e, past) in
      let sum : pos (within_minute x s.admitted + within_minute x (instants rest))
          ≤ℤ (limit +ℤ pos (2 * others)) =
        omega (
          arith,
          bound,
          few,
          within_minute-length x rest,
          +ℤ_parts limit (pos others),
          +ℤ_parts limit (pos (2 * others)),
        ) in
      let (r', (pruned, same)) = laws.prune rate_key w s.set in
      elim (Bool-cases (leb_ℤ limit (pos (laws.above rate_key w s.set)))) [
        | inl full ↦ rw (pruned, full) (later, sum)
        | inr free ↦ rw (pruned, free) (later, rw (outside now e) sum)
      ]

  count_window-Over :
      (s : RaceState R) (before after : List (ℤ × String)) (now : ℤ) (member : String)
      → s.waiting ≡ before ++ (now, member) ∷ after
      → Over s
      → Over (count_window redis rate_key limit now member (record s { waiting = before ++ after }))
  unfolding Over
  count_window-Over s before after now member picked (over, few) =
      let w = now -ℤ pos 60000 in
      let sum =
        subst
          (λ p.
            pos (within_minute x s.admitted + within_minute x (instants p))
            ≤ℤ (limit +ℤ pos (2 * others)))
          picked few in
      let split = within_minute-middle x now member before after in
      let (r', (pruned, same)) = laws.prune rate_key w s.set in
      elim (Bool-cases (leb_ℤ limit (pos (laws.above rate_key w s.set)))) [
        | inl full ↦ rw (pruned, full) (over, ground (arith, sum, split))
        | inr free ↦ rw (pruned, free) (over, ground (arith, sum, split))
      ]

  count_window-Tracks :
      (s : RaceState R) (before after : List (ℤ × String)) (now : ℤ) (member : String)
      → s.waiting ≡ before ++ (now, member) ∷ after
      → length (before ++ after) + length s.pending ≤ others
      → Tracks s
      → Tracks
          (count_window redis rate_key limit now member (record s { waiting = before ++ after }))
  unfolding Tracks
  count_window-Tracks s before after now member picked few (past, phase) =
      let (here, rest) =
        AreBefore-middle s.clock now member before after (subst (AreBefore s.clock) picked past) in
      (
        AreBefore-counted (record s { waiting = before ++ after }) now member
            (redis.prune_and_count rate_key (now -ℤ pos 60000) s.set) rest,
        elim phase [
          | inr over ↦ inr (count_window-Over s before after now member picked over)
          | inl tells ↦ elim (Bool-cases (leb_ℤ now (x +ℤ pos 60000))) [
            | inl near ↦ inl (
                count_window-Open s (before ++ after) now member (ground (arith, near))
                  (omega (arith, few)) tells)
            | inr far ↦ inr (
                count_window-closes s (before ++ after) now member (ground (arith, far)) here
                  (omega (arith, few)) tells)
          ]
        ],
      )

  add_member-Tracks :
      (s : RaceState R) (before after : List (ℤ × String)) (now : ℤ) (member : String)
      → s.pending ≡ before ++ (now, member) ∷ after
      → laws.IsNew rate_key member s.set
      → Tracks s
      → Tracks
          (record s { set = add_member redis rate_key now member s.set; pending = before ++ after })
  unfolding Tracks Open Over
  add_member-Tracks s before after now member same new (past, inr over) = (past, inr over)
  add_member-Tracks s before after now member same new (past, inl (tells, bound)) =
      let old =
        subst
          (λ p. laws.above rate_key x s.set + later_than x (instants p) ≡ later_than x s.admitted)
          same tells in
      (
        past,
        inl (
          ground (
            arith,
            old,
            laws.add rate_key member now x s.set new,
            later_than-middle x now member before after,
          ),
          bound,
        ),
      )

  Reaches-Tracks :
      (s : RaceState R) → pos 0 <ℤ limit → Reaches redis rate_key limit laws others s → Tracks s
  unfolding Tracks Open Over
  Reaches-Tracks _ l (Reaches.started r clock empty) =
      (tt, inl (ground (arith, empty x), omega (arith, l, +ℤ_parts limit (pos others))))
  Reaches-Tracks _ l (Reaches.read s now member reached e) =
      read_clock-Tracks s now member e (Reaches-Tracks s l reached)
  Reaches-Tracks _ l (Reaches.counted s before after now member reached picked few) =
      count_window-Tracks s before after now member picked few (Reaches-Tracks s l reached)
  Reaches-Tracks _ l (Reaches.added s before after now member reached same new) =
      add_member-Tracks s before after now member same new (Reaches-Tracks s l reached)

  -- Of requests of a key that overlap, where at most `others` others have read the clock and are not yet
  -- added or refused when one is counted, the clock does not go back, the members are new and the set is
  -- empty at first: in every minute no more than the limit and twice `others` are admitted, in whatever
  -- order they are counted, if the limit is positive, Redis answers, runs the pipeline of a count as one
  -- step and keeps `SetLaws`, as it does while every request is on its way for less than a minute, and
  -- there are no more members above a greater score.
  pub Reaches-within_minute :
      (s : RaceState R)
      → pos 0 <ℤ limit
      → Reaches redis rate_key limit laws others s
      → pos (within_minute x s.admitted) ≤ℤ (limit +ℤ pos (2 * others))
  unfolding Tracks Open Over
  Reaches-within_minute s l reached = elim (Reaches-Tracks s l reached).1 [
    | inl (tells, bound) ↦
        omega (arith, bound, +ℤ_parts limit (pos others), +ℤ_parts limit (pos (2 * others)))
    | inr (over, few) ↦ omega (arith, few)
  ]
