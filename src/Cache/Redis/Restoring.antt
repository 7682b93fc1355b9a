-- ===== src/Cache/Redis/Restoring.antt =====
-- What `LoadAll` of internal/cache/redis_store.go returns after a history of calls of `Save`.
use momu_llmgateway.Base.{
  ℕ, String, true, ◌==◌, eq_iff, eq_refl, Option, none, some, List, [], ◌∷◌, map, ◌≡◌, refl, sym,
  ap, ◌∙◌, inl, inr, arith, All, Any, Bool-cases,
}
use momu_llmgateway.Base.Dict.{is_among}
use momu_llmgateway.Cache.{CacheEntry}
use momu_llmgateway.Cache.Redis.{
  Redis, ExecError, redis_nil, failed, index_key, entry_keys, read_entry, read_entries,
  read_replies, load_keys, load_all,
}
use momu_llmgateway.Cache.Redis.History.{
  vector_bytes, response_bytes, last_saved-IsLast, last_saved-All, IsEmpty, saved, value-vector,
  value-response, members_complete, members-NoColon,
}
use momu_llmgateway.Cache.Redis.Keys.{NoColon}
use momu_llmgateway.Cache.Redis.Laws.{RedisLaws, WholeSeconds, NotFailed}
use momu_llmgateway.Cache.Redis.Saving.{Saved, SavedBy, IsHistory, last_saved, saved_entry}
use momu_llmgateway.Cache.Vectors.{decode_vector-encode_vector}
use momu_llmgateway.Model.{ok}
use mathlib.Core.Bool.{false≢true}

-- What is among the keys of a list, holds of each.
All-is_among :
    (P : String → Type 0) (keys : List String)
    → ((key : String) → is_among key keys ≡ true → P key)
    → All P keys
All-is_among P [] h = tt
All-is_among P (k ∷ keys) h = (
  h k (ground (arith, eq_refl k)),
  All-is_among P keys (λ key among. h key (ground (arith, among))),
)

abbrev consed : Option Saved → List CacheEntry → List CacheEntry
consed none rest = rest
consed (some x) rest = saved_entry x ∷ rest

module _ {R : Type 0} (to_bytes : String → List ℕ) (of_bytes : List ℕ → String) (redis : Redis R)
    (laws : RedisLaws redis) (d : ℕ) (whole : WholeSeconds d) (r : R)
    (empty : IsEmpty to_bytes of_bytes redis laws d whole r) (t : ℕ) (model : String)
    (history : List Saved) (valid : IsHistory history) (past : SavedBy t history)
    (readable : All (λ x. of_bytes (to_bytes x.response) ≡ x.response) history) where
  open laws use {value, members}

  abbrev state : R
  state = saved to_bytes of_bytes redis laws d whole r history

  -- The entry that was last saved for a key, if it lives.
  abbrev pub restored : String → Option Saved
  restored key = last_saved d t model key history

  abbrev entries_for : List String → List CacheEntry
  entries_for [] = []
  entries_for (key ∷ keys) = consed (restored key) (entries_for keys)

  read_entry_lem :
      (key : String) (o : Option Saved) (rest : List CacheEntry)
      → restored key ≡ o
      → read_entry to_bytes of_bytes redis model key
          (vector_bytes o)
          (response_bytes to_bytes o)
          rest
        ≡ consed o rest
  read_entry_lem key none rest e = refl
  read_entry_lem key (some x) rest e =
      let last = last_saved-IsLast d t model key history x valid e in
      let text =
        last_saved-All (λ y. of_bytes (to_bytes y.response) ≡ y.response) d t model key history x
          readable e in
      rw
        (
          text,
          decode_vector-encode_vector x.vector last.patterns,
          sym last.same_model,
          sym last.same_key,
        )
        refl

  read_entries_lem :
      (keys : List String)
      → All NoColon keys
      → read_entries to_bytes of_bytes redis model keys
          (map (λ key. value t key state) (entry_keys model keys))
        ≡ entries_for keys
  unfolding read_entries
  read_entries_lem [] h = refl
  read_entries_lem (key ∷ keys) (c, h) =
      rw
        (
          value-vector to_bytes of_bytes redis laws d whole r empty t model key history valid past
              c,
          value-response to_bytes of_bytes redis laws d whole r empty t model key history valid past
              c,
          read_entries_lem keys h,
        )
        (read_entry_lem key (restored key) (entries_for keys) refl)

  load_all-entries_for :
      (es : List CacheEntry) × (load_all to_bytes of_bytes redis t model state ≡ ok es)
      × (es ≡ entries_for (members t (index_key model) state))
  unfolding load_all
  load_all-entries_for = rw (laws.z_range_lem t (index_key model) state) (
      loads (members t (index_key model) state) (
        All-is_among NoColon (members t (index_key model) state) (λ key among.
          members-NoColon to_bytes of_bytes redis laws d whole r empty t model key history valid
            past among)))
    where
      replies :
          (keys : List String) (found : List (Option (List ℕ))) (error : Option ExecError)
          → NotFailed error
          → found ≡ map (λ key. value t key state) (entry_keys model keys)
          → All NoColon keys
          → (es : List CacheEntry) × (read_replies to_bytes of_bytes redis model keys (found, error)
              ≡ ok es)
            × (es ≡ entries_for keys)
      replies keys found none h same c = (_, refl, rw same (read_entries_lem keys c))
      replies keys found (some redis_nil) h same c = (_, refl, rw same (read_entries_lem keys c))
      replies keys found (some (failed e)) h same c = absurd h

      loads :
          (keys : List String)
          → All NoColon keys
          → (es : List CacheEntry) × (load_keys to_bytes of_bytes redis t model state (ok keys)
              ≡ ok es)
            × (es ≡ entries_for keys)
      loads [] c = ([], refl, refl)
      loads (key ∷ keys) c =
          let got = laws.get_all_lem t (entry_keys model (key ∷ keys)) state in
          replies (key ∷ keys) _ _ got.1 got.0 c

  abbrev pub Restored : CacheEntry → Type 0
  Restored e = (x : Saved) × (restored e.key ≡ some x) × (saved_entry x ≡ e)

  entries_for-Restored : (keys : List String) → All Restored (entries_for keys)
  entries_for-Restored [] = tt
  entries_for-Restored (key ∷ keys) = go (restored key) refl (entries_for-Restored keys)
    where
      go :
          (o : Option Saved)
          → restored key ≡ o
          → All Restored (entries_for keys)
          → All Restored (consed o (entries_for keys))
      go none e rest = rest
      go (some x) e rest =
          let last = last_saved-IsLast d t model key history x valid e in
          ((x, ap restored last.same_key ∙ e, refl), rest)

  entries_for-Any :
      (key : String) (x : Saved) (keys : List String)
      → restored key ≡ some x
      → is_among key keys ≡ true
      → Any (λ e. e ≡ saved_entry x) (entries_for keys)
  entries_for-Any key x [] found among = absurd (false≢true among)
  entries_for-Any key x (k ∷ keys) found among = elim (Bool-cases (k == key)) [
    | inl same ↦ rw ((eq_iff k key).0 same, found) (inl refl)
    | inr other ↦ skip (restored k) (entries_for-Any key x keys found (rw other at among))
  ]
    where
      skip :
          (o : Option Saved)
          → Any (λ e. e ≡ saved_entry x) (entries_for keys)
          → Any (λ e. e ≡ saved_entry x) (consed o (entries_for keys))
      skip none h = h
      skip (some y) h = inr h

  -- After any history of calls of `Save`, with one time to live in whole seconds, on a server that
  -- was empty: `LoadAll` succeeds, each of its entries is the one that was last saved for its key and
  -- has not expired, and every such entry is returned. So the index never expires before an entry. It is
  -- so where the keys hold no colon, the vectors are of 64-bit patterns, the calls are in the order of
  -- the clock, the bytes of the responses can be read back, and Redis keeps RedisLaws.
  pub load_all-Restored :
      (es : List CacheEntry) × (load_all to_bytes of_bytes redis t model state ≡ ok es)
      × All Restored es
      × ((key : String) (x : Saved) → restored key ≡ some x → Any (λ e. e ≡ saved_entry x) es)
  load_all-Restored =
      let (es, loads, same) = load_all-entries_for in
      (
        es,
        loads,
        rw same (entries_for-Restored (members t (index_key model) state)),
        λ key x found. rw same (
            entries_for-Any key x (members t (index_key model) state) found (
              members_complete to_bytes of_bytes redis laws d whole r empty t model key history x
                valid past found)),
      )
