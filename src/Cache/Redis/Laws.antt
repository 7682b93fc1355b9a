-- ===== src/Cache/Redis/Laws.antt =====
-- What internal/cache/redis_store.go relies on in Redis: documented behaviour of SET with a time to
-- live, ZADD, EXPIRE, ZRANGE, GET and of pipelines, on a server that answers and whose clock is that of
-- the gateway.
use momu_llmgateway.Base.{
  ℕ, ◌+◌, ◌*◌, ◌<◌, ◌≤◌, String, false, ◌||◌, ◌&&◌, ◌==◌, Option, none, some, List, [], ◌∷◌, map,
  ltb, if◌then◌else◌, ◌≡◌,
}
use momu_llmgateway.Base.Dict.{is_among}
use momu_llmgateway.Base.Int.{pos}
use momu_llmgateway.Cache.Redis.{Redis, Command, set, z_add, expire, ExecError, redis_nil, failed}
use momu_llmgateway.Model.{ok}

-- EXPIRE counts in seconds.
abbrev pub WholeSeconds : ℕ → Type 0
WholeSeconds d = (s : ℕ) × (0 < s) × (d ≡ s * 1000000000)

abbrev pub NotFailed : Option ExecError → Type 0
NotFailed none = Unit
NotFailed (some redis_nil) = Unit
NotFailed (some (failed e)) = ⊥

-- The commands of a pipeline run in their order.
abbrev pub applied {ℓ} : {R : Type ℓ} → (ℕ → Command → R → R) → ℕ → List Command → R → R
applied apply now [] r = r
applied apply now (command ∷ commands) r = applied apply now commands (apply now command r)

-- `value` is what a text key holds at an instant, `members` what a sorted set does; neither shows what
-- has expired.
pub record RedisLaws {R : Type 0} (redis : Redis R) : Type 1 where
  pub value : ℕ → String → R → Option (List ℕ)
  pub members : ℕ → String → R → List String
  pub apply : ℕ → Command → R → R
  pub exec_lem :
      (now : ℕ) (commands : List Command) (r : R)
      → (redis.exec now commands r).0 ≡ applied apply now commands r
  pub z_range_lem :
      (now : ℕ) (key : String) (r : R) → redis.z_range now key r ≡ ok (members now key r)
  pub get_all_lem :
      (now : ℕ) (keys : List String) (r : R)
      → ((redis.get_all now keys r).0 ≡ map (λ key. value now key r) keys)
        × NotFailed (redis.get_all now keys r).1
  pub value-set :
      (now t d : ℕ) (key key' : String) (v : List ℕ) (r : R)
      → now ≤ t
      → 0 < d
      → value t key' (apply now (set key v (pos d)) r)
        ≡ (if key == key' then (if ltb t (now + d) then some v else none) else value t key' r)
  pub value-z_add :
      (now t score : ℕ) (key member key' : String) (r : R)
      → now ≤ t
      → (key == key') ≡ false
      → value t key' (apply now (z_add key score member) r) ≡ value t key' r
  pub value-expire :
      (now t d : ℕ) (key key' : String) (r : R)
      → now ≤ t
      → (key == key') ≡ false
      → value t key' (apply now (expire key (pos d)) r) ≡ value t key' r
  pub members-set :
      (now t d : ℕ) (key key' : String) (v : List ℕ) (r : R)
      → now ≤ t
      → 0 < d
      → (key == key') ≡ false
      → members t key' (apply now (set key v (pos d)) r) ≡ members t key' r
  pub members-add :
      (now t d score : ℕ) (key member key' member' : String) (r : R)
      → now ≤ t
      → WholeSeconds d
      → is_among member'
          (members t key' (apply now (expire key (pos d)) (apply now (z_add key score member) r)))
        ≡ (if key == key'
            then ltb t (now + d) && (member == member' || is_among member' (members now key' r))
            else is_among member' (members t key' r))
