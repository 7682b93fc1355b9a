-- ===== src/Cache/Redis.antt =====
-- internal/cache/redis_store.go: the store of the cache in Redis. go-redis is the parameter `Redis`; each
-- call is given the instant at which it is made, in nanoseconds.
pub mod Keys
pub mod Laws
pub mod Saving
pub mod History
pub mod Restoring
use momu_llmgateway.Base.{ℕ, ◌/◌, String, Option, none, some, List, [], ◌∷◌, ◌++◌}
use momu_llmgateway.Base.Float.{Float64}
use momu_llmgateway.Base.Int.{ℤ}
use momu_llmgateway.Cache.{CacheEntry}
use momu_llmgateway.Cache.Vectors.{encode_vector, decode_vector}
use momu_llmgateway.Model.{◌<>◌, GoError, other_error, error_text, Result, ok, err}

-- The commands that `Save` queues: SET with a time to live, ZADD with a score in seconds, EXPIRE.
pub data Command : Type 0 where
  set : String → List ℕ → ℤ → Command
  z_add : String → ℕ → String → Command
  expire : String → ℤ → Command

-- The error of a pipeline: `redis.Nil`, or another.
pub data ExecError : Type 0 where
  redis_nil : ExecError
  failed : GoError → ExecError

-- `get_all` is a pipeline of GETs, with one reply for each; none is one whose `Bytes` is an error.
pub record Redis (R : Type 0) : Type 0 where
  pub ping : R → Option GoError
  pub exec : ℕ → List Command → R → R × Option GoError
  pub z_range : ℕ → String → R → Result (List String)
  pub get_all : ℕ → List String → R → List (Option (List ℕ)) × Option ExecError

unfoldable pub vector_key : String → String → String
vector_key model key = "sc:v:" <> model <> ":" <> key

unfoldable pub response_key : String → String → String
response_key model key = "sc:r:" <> model <> ":" <> key

unfoldable pub index_key : String → String
index_key model = "sc:idx:" <> model

abbrev pub connected : {R : Type 0} → Redis R → Option GoError → Result (Redis R)
connected redis none = ok redis
connected redis (some e) = err (other_error ("redis connect: " <> error_text e))

-- `NewRedisStore`: the client, if Redis answers.
unfoldable pub new_redis_store : {R : Type 0} → Redis R → R → Result (Redis R)
new_redis_store redis r = connected redis (redis.ping r)

-- The commands that read an index's entries.
abbrev pub entry_keys : String → List String → List String
entry_keys model [] = []
entry_keys model (key ∷ keys) =
    vector_key model key ∷ response_key model key ∷ entry_keys model keys

-- The bytes of a response, which is a string in the cache: a parameter, with its inverse.
module _ {R : Type 0} (to_bytes : String → List ℕ) (of_bytes : List ℕ → String)
    (redis : Redis R) where
  -- `Save`.
  unfoldable pub save : ℕ → String → String → List Float64 → String → ℤ → R → R × Option GoError
  unfolding encode_vector vector_key response_key index_key
  save now model key vector response ttl r =
      redis.exec now
        (set (vector_key model key) (encode_vector vector) ttl
          ∷ set (response_key model key) (to_bytes response) ttl
          ∷ z_add (index_key model) (now / 1000000000) key
          ∷ expire (index_key model) ttl
          ∷ [])
        r

  -- The entry of two replies, its times the zero of `time.Time`; none if one of them failed.
  abbrev pub read_entry :
      String → String → Option (List ℕ) → Option (List ℕ) → List CacheEntry → List CacheEntry
  read_entry model key (some vector) (some response) rest =
      record {
        model = model;
        key = key;
        vector = decode_vector vector;
        response = of_bytes response;
        stored_at = 0;
        last_access = 0;
      }
      ∷ rest
  read_entry model key _ _ rest = rest

  -- The loop of `LoadAll` over the keys, two replies for each.
  unfoldable pub read_entries : String → List String → List (Option (List ℕ)) → List CacheEntry
  read_entries model (key ∷ keys) (vector ∷ response ∷ replies) =
      read_entry model key vector response (read_entries model keys replies)
  read_entries model _ _ = []

  abbrev pub read_replies :
      String → List String → List (Option (List ℕ)) × Option ExecError → Result (List CacheEntry)
  read_replies model keys (replies, some (failed e)) = err e
  read_replies model keys (replies, some redis_nil) = ok (read_entries model keys replies)
  read_replies model keys (replies, none) = ok (read_entries model keys replies)

  abbrev pub load_keys : ℕ → String → R → Result (List String) → Result (List CacheEntry)
  load_keys now model r (err e) = err e
  load_keys now model r (ok []) = ok []
  load_keys now model r (ok (key ∷ keys)) =
      read_replies model (key ∷ keys) (redis.get_all now (entry_keys model (key ∷ keys)) r)

  -- `LoadAll`.
  unfoldable pub load_all : ℕ → String → R → Result (List CacheEntry)
  unfolding read_entries vector_key response_key index_key decode_vector
  load_all now model r = load_keys now model r (redis.z_range now (index_key model) r)
