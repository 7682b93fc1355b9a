-- ===== src/Ingress/Middleware/RateLimit/Race.antt =====
-- The rate limit under requests of a key that overlap. Reading the clock, counting the set and adding to it
-- are three steps; in between, other requests may take theirs. The pipeline of the count is one step.
use momu_llmgateway.Base.{
  ℕ, ◌+◌, ◌≤◌, String, List, [], ◌∷◌, ◌++◌, length, map, if◌then◌else◌, ◌≡◌, Bool-cases, inl, inr,
  refl,
}
use momu_llmgateway.Base.Int.{ℤ, pos, ◌-ℤ◌, leb_ℤ, ◌≤ℤ◌}
use momu_llmgateway.Ingress.Middleware.{GinContext}
use momu_llmgateway.Ingress.Middleware.RateLimit.{SortedSets, add_member, admit}
use momu_llmgateway.Ingress.Middleware.RateLimit.Window.{SetLaws}
use momu_llmgateway.Model.{Result, ok, err}

-- The set, the requests that have read the clock and not counted yet, those that were counted and not yet
-- added, the instants of all that were admitted (the last one first), and the last reading of the clock.
pub record RaceState (R : Type 0) : Type 0 where
  pub set : R
  pub waiting : List (ℤ × String)
  pub pending : List (ℤ × String)
  pub admitted : List ℤ
  pub clock : ℤ

abbrev pub instants : List (ℤ × String) → List ℤ
instants requests = map (λ p. p.0) requests

-- A request reads the clock.
abbrev pub read_clock : {R : Type 0} → ℤ → String → RaceState R → RaceState R
read_clock now member s = record s { waiting = (now, member) ∷ s.waiting; clock = now }

module _ {R : Type 0} (redis : SortedSets R) (rate_key : String) (limit : ℤ) where
  -- A request after its count: refused, or admitted and to be added. If Redis fails it passes.
  abbrev pub after_count : RaceState R → ℤ → String → R × Result ℤ → RaceState R
  after_count s now member (r, err e) = record s { set = r; admitted = now ∷ s.admitted }
  after_count s now member (r, ok count) =
      if leb_ℤ limit count then record s { set = r } else record {
        set = r;
        waiting = s.waiting;
        pending = (now, member) ∷ s.pending;
        admitted = now ∷ s.admitted;
        clock = s.clock;
      }

  -- The count of a request, behind its reading of the clock.
  abbrev pub count_window : ℤ → String → RaceState R → RaceState R
  count_window now member s =
      after_count s now member (redis.prune_and_count rate_key (now -ℤ pos 60000) s.set)

  -- What overlapping requests lead to, where at most so many others are between their first and their
  -- last step when a request is counted, the clock does not go back, and the members that are added are
  -- new. Requests may be counted in another order than that in which they read the clock.
  pub data Reaches (laws : SetLaws redis) (others : ℕ) : RaceState R → Type 0 where
    started :
        (r : R) (clock : ℤ)
        → ((x : ℤ) → laws.above rate_key x r ≡ 0)
        → Reaches laws others
            (record { set = r; waiting = []; pending = []; admitted = []; clock = clock })
    read :
        (s : RaceState R) (now : ℤ) (member : String)
        → Reaches laws others s
        → s.clock ≤ℤ now
        → Reaches laws others (read_clock now member s)
    counted :
        (s : RaceState R) (before after : List (ℤ × String)) (now : ℤ) (member : String)
        → Reaches laws others s
        → s.waiting ≡ before ++ (now, member) ∷ after
        → length (before ++ after) + length s.pending ≤ others
        → Reaches laws others (count_window now member (record s { waiting = before ++ after }))
    added :
        (s : RaceState R) (before after : List (ℤ × String)) (now : ℤ) (member : String)
        → Reaches laws others s
        → s.pending ≡ before ++ (now, member) ∷ after
        → laws.IsNew rate_key member s.set
        → Reaches laws others (record s {
          set = add_member redis rate_key now member s.set;
          pending = before ++ after;
        })

-- Taken at once, the count and the addition are what the middleware does.
admit-after_count :
    {R : Type 0} (redis : SortedSets R) (rate_key : String) (limit now seen : ℤ) (member : String)
    (c : GinContext) (s : RaceState R) (r : R)
    → let s' = after_count redis rate_key limit s now member (r, ok seen) in
      (admit redis rate_key limit now member c (r, ok seen)).0
      ≡ (if leb_ℤ limit seen then s'.set else add_member redis rate_key now member s'.set)
admit-after_count redis rate_key limit now seen member c s r =
    elim (Bool-cases (leb_ℤ limit seen)) [ inl full ↦ rw full refl | inr free ↦ rw free refl ]
