-- ===== src/Ingress/Breakers/Isolation.antt =====
-- The manager as a family of breakers, each with the calls of its own key.
use momu_llmgateway.Base.{
  String, List, [], ◌∷◌, ◌≡◌, ◌==◌, eq_iff, Bool-cases, inl, inr, if◌then◌else◌, refl,
}
use momu_llmgateway.Base.Dict.{lookup, lookup-insert}
use momu_llmgateway.Base.Int.{ℤ}
use momu_llmgateway.Ingress.Breakers.{
  Manager, new_manager, key, get_or_create, put, allow, record_success, record_failure,
}
use momu_llmgateway.Decision.CircuitBreaker
use momu_llmgateway.Decision.CircuitBreaker.{CircuitBreaker}
use momu_llmgateway.Decision.CircuitBreaker.History.{
  Call, allow_call, success_call, failure_call, replay, step,
}

-- A call of the manager: the provider, the model and the call of their breaker.
abbrev pub ManagerCall : Type 0
ManagerCall = String × String × Call

pub manager_step : ManagerCall → Manager → Manager
unfolding allow record_success record_failure
manager_step (provider, model, allow_call now) m = (allow now provider model m).0
manager_step (provider, model, success_call now) m = record_success provider model m
manager_step (provider, model, failure_call now) m = record_failure now provider model m

-- The manager after a history, whose newest call is its head.
pub manager_replay : ℤ → ℤ → List ManagerCall → Manager
unfolding new_manager
manager_replay threshold cooldown [] = new_manager threshold cooldown
manager_replay threshold cooldown (c ∷ h) = manager_step c (manager_replay threshold cooldown h)

-- The calls of one key.
pub calls_of : String → List ManagerCall → List Call
calls_of k [] = []
calls_of k ((provider, model, c) ∷ h) =
    if key provider model == k then c ∷ calls_of k h else calls_of k h

get_or_create-put :
    (j k : String) (cb : CircuitBreaker) (m : Manager)
    → get_or_create k (put j cb m) ≡ (if j == k then cb else get_or_create k m)
unfolding get_or_create
get_or_create-put j k cb m = elim (Bool-cases (j == k)) [
  | inl same ↦ rw (lookup-insert j k cb m.breakers, same) refl
  | inr other ↦ rw (lookup-insert j k cb m.breakers, other) refl
]

-- A write through the breaker of one key, read back under another.
get_or_create-put_step :
    (j k : String) (f : CircuitBreaker → CircuitBreaker) (m : Manager)
    → get_or_create k (put j (f (get_or_create j m)) m)
      ≡ (if j == k then f (get_or_create k m) else get_or_create k m)
get_or_create-put_step j k f m = elim (Bool-cases (j == k)) [
  | inl same ↦ rw (get_or_create-put, same, (eq_iff j k).0 same) refl
  | inr other ↦ rw (get_or_create-put, other) refl
]

get_or_create-manager_step :
    (k : String) (c : ManagerCall) (m : Manager)
    → get_or_create k (manager_step c m)
      ≡ (if key c.0 c.1 == k then step c.2 (get_or_create k m) else get_or_create k m)
unfolding manager_step step
get_or_create-manager_step k (provider, model, allow_call now) m =
    get_or_create-put_step (key provider model) k (λ cb. (CircuitBreaker.allow now cb).0) m
get_or_create-manager_step k (provider, model, success_call now) m =
    get_or_create-put_step (key provider model) k CircuitBreaker.record_success m
get_or_create-manager_step k (provider, model, failure_call now) m =
    get_or_create-put_step (key provider model) k (CircuitBreaker.record_failure now) m

-- After every history of calls for any providers and models, the breaker of a key is the breaker
-- that has seen the calls of that key alone, in their order.
pub get_or_create-manager_replay :
    (threshold cooldown : ℤ) (k : String) (h : List ManagerCall)
    → get_or_create k (manager_replay threshold cooldown h)
      ≡ replay threshold cooldown (calls_of k h)
unfolding manager_replay calls_of replay get_or_create new_manager lookup
get_or_create-manager_replay threshold cooldown k [] = refl
get_or_create-manager_replay threshold cooldown k ((provider, model, c) ∷ h) =
    let m = manager_replay threshold cooldown h in
    rw (get_or_create-manager_step k (provider, model, c) m) (
      rw (get_or_create-manager_replay threshold cooldown k h)
        (elim (Bool-cases (key provider model == k)) [ inl same ↦ rw same | inr other ↦ rw other ]))
