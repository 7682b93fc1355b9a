-- ===== src/Ingress/Health.antt =====
-- internal/ingress/health.go: the health check. Its goroutines run in any order; each writes its
-- item under the mutex, which is one step, so a run is the list of the finished checks in the order
-- in which they take it. What a check of Redis or of a provider finds is an argument.
pub mod Items
use momu_llmgateway.Base.{
  String, Bool, true, false, ◌||◌, Option, none, some, List, [], ◌∷◌, map, if◌then◌else◌, All, ◌≡◌,
  ◌↔◌, refl, sym, ◌∙◌, arith, eq_iff,
}
use momu_llmgateway.Base.Dict.{insert}
use momu_llmgateway.Model.{GoError, error_text}
use mathlib.Core.List.{Perm, foldr}
use mathlib.Core.List.Perm
use mathlib.Core.Bool.{Bool-set}

pub record CheckItem : Type 0 where
  pub status : String
  pub error : String

pub record HealthResult : Type 0 where
  pub status : String
  pub checks : List (String × CheckItem)

-- A check that has run: its name, its item, and whether it sets `anyFailed`.
pub record Finished : Type 0 where
  pub name : String
  pub item : CheckItem
  pub failed : Bool

abbrev pub item : String → String → CheckItem
item status error = record { status = status; error = error }

abbrev pub provider_check : String → Option GoError → Finished
provider_check name none = record { name = name; item = item "ok" ""; failed = false }
provider_check name (some e) = record {
  name = name;
  item = item "error" (error_text e);
  failed = true;
}

-- The first goroutine: none where there is no store, or else what its Ping finds.
abbrev pub redis_check : Option (Option GoError) → Finished
redis_check none = record { name = "redis"; item = item "not_configured" ""; failed = false }
redis_check (some found) = provider_check "redis" found

-- The goroutines of `Check`, for the store and for the providers with what they find.
unfoldable pub all_checks : Option (Option GoError) → List (String × Option GoError) → List Finished
all_checks store providers = redis_check store ∷ map (λ p. provider_check p.0 p.1) providers

-- The map and `anyFailed` after the checks that finish.
unfoldable pub finish_checks :
    List Finished → List (String × CheckItem) × Bool → List (String × CheckItem) × Bool
finish_checks [] x = x
finish_checks (f ∷ fs) (checks, any_failed) =
    finish_checks fs (insert f.name f.item checks, (if f.failed then true else any_failed))

abbrev pub status_of : Bool → String
status_of any_failed = if any_failed then "degraded" else "ok"

-- `Check`, where its goroutines finish in the order of the list.
unfoldable pub check : List Finished → HealthResult
unfolding finish_checks
check finished =
    let (checks, any_failed) = finish_checks finished ([], false) in
    record { status = status_of any_failed; checks = checks }

either_failed : Finished → Bool → Bool
either_failed f failed = f.failed || failed

finish_checks-failed :
    (fs : List Finished) (checks : List (String × CheckItem)) (b : Bool)
    → (finish_checks fs (checks, b)).1 ≡ (b || foldr either_failed false fs)
unfolding finish_checks either_failed
finish_checks-failed [] checks b = ground arith
finish_checks-failed (f ∷ fs) checks b =
    finish_checks-failed fs (insert f.name f.item checks) (if f.failed then true else b)
    ∙ ground arith

-- A store that answers or is not configured, and a provider that answers.
abbrev pub Answers : Option (Option GoError) → Type 0
Answers none = Unit
Answers (some found) = found ≡ none

providers_failed :
    (ps : List (String × Option GoError))
    → (foldr either_failed false (map (λ p. provider_check p.0 p.1) ps) ≡ false)
      ↔ All (λ p. p.1 ≡ none) ps
unfolding either_failed
providers_failed [] = (λ e. tt, λ h. refl)
providers_failed ((name, none) ∷ ps) =
    let rest = providers_failed ps in (λ e. (refl, rest.0 e), λ h. rest.1 h.1)
providers_failed ((name, some e) ∷ ps) = (λ q. absurd (ground (arith, q)), λ h. cc)

store_failed :
    (store : Option (Option GoError)) → ((redis_check store).failed ≡ false) ↔ Answers store
store_failed none = (λ e. tt, λ h. refl)
store_failed (some none) = (λ e. refl, λ h. refl)
store_failed (some (some e)) = (λ q. absurd (ground (arith, q)), λ h. cc)

-- Whether a check of the whole list failed, in whatever order they finish.
any_failed_perm :
    (fs gs : List Finished)
    → Perm fs gs
    → (finish_checks fs ([], false)).1 ≡ foldr either_failed false gs
unfolding either_failed
any_failed_perm fs gs order =
    finish_checks-failed fs [] false
    ∙ Perm.foldr-eq Bool-set either_failed (λ f g b. ground arith) order false

status_ok : (b : Bool) → (status_of b ≡ "ok") ↔ (b ≡ false)
status_ok true =
    (λ e. absurd (ground (arith, e, eq_iff "degraded" "ok")), λ e. absurd (ground (arith, e)))
status_ok false = (λ e. refl, λ e. refl)

none_failed : (a b : Bool) → ((a || b) ≡ false) ↔ ((a ≡ false) × (b ≡ false))
none_failed a b = ground arith

-- In whatever order the checks finish, the status is "ok" exactly if every provider answers and the
-- store does, or is not configured.
pub check-ok_iff :
    (store : Option (Option GoError)) (providers : List (String × Option GoError))
    (finished : List Finished)
    → Perm finished (all_checks store providers)
    → ((check finished).status ≡ "ok") ↔ (Answers store × All (λ p. p.1 ≡ none) providers)
unfolding check all_checks either_failed
check-ok_iff store providers finished order =
    let failed = any_failed_perm finished (all_checks store providers) order in
    let status = status_ok (finish_checks finished ([], false)).1 in
    let rest = foldr either_failed false (map (λ p. provider_check p.0 p.1) providers) in
    let both = none_failed (redis_check store).failed rest in
    (
      λ e.
          let (a, b) = both.0 (sym failed ∙ status.0 e) in
          ((store_failed store).0 a, (providers_failed providers).0 b),
      λ (h, hs).
          status.1 (failed ∙ both.1 ((store_failed store).1 h, (providers_failed providers).1 hs)),
    )
