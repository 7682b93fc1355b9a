-- ===== src/Cache.antt =====
-- internal/cache/semantic.go: the semantic cache. A method that takes the lock is one step. An instant
-- is a number of nanoseconds, and each reading of the clock is an argument. encoding/json and
-- crypto/sha256 are `Codec`; a response's JSON bytes are a string.
pub mod Eviction
pub mod Hits
pub mod Lookup
pub mod Prompt
pub mod Race
pub mod Redis
pub mod Removal
pub mod Restart
pub mod Retention
pub mod Reuse
pub mod Store
pub mod Vectors
use momu_llmgateway.Base.{
  ℕ, zero, suc, ◌+◌, ◌*◌, ◌/◌, String, Bool, true, false, not, ◌||◌, ◌&&◌, Option, none, some, List,
  [], ◌∷◌, ◌++◌, map, length, get_elem?, set, take, ltb, ◌==◌, if◌then◌else◌,
}
use momu_llmgateway.Base.Dict.{lookup, insert, get}
use momu_llmgateway.Base.Float.{Float64, FloatOps, float_ge}
use momu_llmgateway.Base.Int.{ℤ, pos, negsuc, sub_ℕ, ltb_ℤ, leb_ℤ}
use momu_llmgateway.Base.Slice.{
  Slice, whole, live, overwrite, swap_remove, remove_all, indices_of, reject,
}
use momu_llmgateway.Decision.Semantic.{Embedder}
use momu_llmgateway.Embedding.{cosine_similarity}
use momu_llmgateway.Model.{GoError, Message, StandardRequest, StandardResponse, Result, ok, err}
use Prim.Native.String.{count}

pub record CacheEntry : Type 0 where
  pub model : String
  pub key : String
  pub vector : List Float64
  pub response : String
  pub stored_at : ℕ
  pub last_access : ℕ

pub record SemanticCacheConfig : Type 0 where
  pub enabled : Bool
  pub similarity_threshold : Float64
  pub max_entries : ℤ
  pub ttl : ℤ
  pub max_prompt_length : ℤ

-- `CacheStore`, over the state `S` of what it keeps.
pub record CacheStore (S : Type 0) : Type 0 where
  pub save : String → String → List Float64 → String → ℤ → S → S
  pub load_all : String → S → Result (List CacheEntry)

pub record SemanticCache (S : Type 0) : Type 0 where
  pub entries : List (String × List CacheEntry)
  pub max_entries : ℕ
  pub threshold : Float64
  pub ttl : ℤ
  pub max_prompt_length : ℤ
  pub enabled : Bool
  pub embedder : Option Embedder
  pub store : Option (CacheStore S)
  pub recoverable_models : List String

pub record Codec : Type 0 where
  pub marshal : StandardResponse → Result String
  pub unmarshal : String → Result StandardResponse
  pub sha256_prefix : String → String

-- `MaxEntries`, 10000 where it is not positive.
abbrev pub positive_entries : ℤ → ℕ
positive_entries (pos zero) = 10000
positive_entries (pos (suc n)) = suc n
positive_entries (negsuc n) = 10000

-- `concatenateUserMessages`: its loop from the last message to the first.
unfoldable pub first_user_content : List Message → String
first_user_content [] = ""
first_user_content (m ∷ ms) =
    let rest = first_user_content ms in
    if m.role == "user" && not (m.content == "") then m.content else rest

unfoldable pub reverse_onto {ℓ} : {A : Type ℓ} → List A → List A → List A
reverse_onto acc [] = acc
reverse_onto acc (x ∷ xs) = reverse_onto (x ∷ acc) xs

unfoldable pub latest_user_content : List Message → String
unfolding first_user_content reverse_onto
latest_user_content messages = first_user_content (reverse_onto [] messages)

module _ {S : Type 0} where
  -- `New`.
  abbrev pub new : SemanticCacheConfig → Option Embedder → Option (CacheStore S) → SemanticCache S
  new cfg embedder store = record {
    entries = [];
    max_entries = positive_entries cfg.max_entries;
    threshold = cfg.similarity_threshold;
    ttl = cfg.ttl;
    max_prompt_length = cfg.max_prompt_length;
    enabled = cfg.enabled;
    embedder = embedder;
    store = store;
    recoverable_models = [];
  }

  -- `SetModels`.
  abbrev pub set_models : List String → SemanticCache S → SemanticCache S
  set_models models c = record c { recoverable_models = models }

  -- `c.entries[model]`, and a write to it.
  abbrev pub entries_of : String → SemanticCache S → List CacheEntry
  entries_of model c = get (lookup model c.entries)

  abbrev pub put_entries : String → List CacheEntry → SemanticCache S → SemanticCache S
  put_entries model es c = record c { entries = insert model es c.entries }

  abbrev pub prompt_too_long : SemanticCache S → String → Bool
  prompt_too_long c text =
      ltb_ℤ (pos 0) c.max_prompt_length && ltb_ℤ c.max_prompt_length (pos (count text))

  -- `now.Sub(e.StoredAt) > c.ttl`.
  abbrev pub is_expired : SemanticCache S → ℕ → CacheEntry → Bool
  is_expired c now e = ltb_ℤ c.ttl (sub_ℕ now e.stored_at)
