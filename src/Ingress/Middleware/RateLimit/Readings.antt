-- ===== src/Ingress/Middleware/RateLimit/Readings.antt =====
-- The readings of the clock of requests that are on their way.
use momu_llmgateway.Base.{
  suc, ◌≤◌, String, ◌&&◌, List, [], ◌∷◌, ◌++◌, length, All, if◌then◌else◌, ◌≡◌, arith, refl,
}
use momu_llmgateway.Base.Int.{ℤ, pos, ◌+ℤ◌, leb_ℤ, ltb_ℤ, ◌≤ℤ◌}
use momu_llmgateway.Ingress.Middleware.RateLimit.Window.{later_than, within_minute}
use momu_llmgateway.Ingress.Middleware.RateLimit.Race.{instants}

pub later_than-length :
    (x : ℤ) (pending : List (ℤ × String)) → later_than x (instants pending) ≤ length pending
later_than-length x [] = omega arith
later_than-length x ((t, m) ∷ pending) = ground (arith, later_than-length x pending)

pub later_than-middle :
    (x t : ℤ) (m : String) (before after : List (ℤ × String))
    → later_than x (instants (before ++ (t, m) ∷ after)) ≡ (
        if ltb_ℤ x t
        then suc (later_than x (instants (before ++ after)))
        else later_than x (instants (before ++ after)))
later_than-middle x t m [] after = refl
later_than-middle x t m ((u, n) ∷ before) after =
    ground (arith, later_than-middle x t m before after)

pub within_minute-length :
    (x : ℤ) (requests : List (ℤ × String)) → within_minute x (instants requests) ≤ length requests
within_minute-length x [] = omega arith
within_minute-length x ((t, m) ∷ requests) = ground (arith, within_minute-length x requests)

pub within_minute-middle :
    (x t : ℤ) (m : String) (before after : List (ℤ × String))
    → within_minute x (instants (before ++ (t, m) ∷ after)) ≡ (
        if ltb_ℤ x t && leb_ℤ t (x +ℤ pos 60000)
        then suc (within_minute x (instants (before ++ after)))
        else within_minute x (instants (before ++ after)))
within_minute-middle x t m [] after = refl
within_minute-middle x t m ((u, n) ∷ before) after =
    ground (arith, within_minute-middle x t m before after)

-- All the readings are at or before an instant.
abbrev pub AreBefore : ℤ → List (ℤ × String) → Type 0
AreBefore clock requests = All (λ p. p.0 ≤ℤ clock) requests

pub AreBefore-later :
    (clock now : ℤ) (requests : List (ℤ × String))
    → clock ≤ℤ now
    → AreBefore clock requests
    → AreBefore now requests
AreBefore-later clock now [] e h = tt
AreBefore-later clock now ((t, m) ∷ requests) e (f, h) =
    (omega (arith, e, f), AreBefore-later clock now requests e h)

pub AreBefore-middle :
    (clock t : ℤ) (m : String) (before after : List (ℤ × String))
    → AreBefore clock (before ++ (t, m) ∷ after)
    → (t ≤ℤ clock) × AreBefore clock (before ++ after)
AreBefore-middle clock t m [] after h = h
AreBefore-middle clock t m ((u, n) ∷ before) after (f, h) =
    let (here, rest) = AreBefore-middle clock t m before after h in (here, (f, rest))
