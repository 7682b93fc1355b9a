-- ===== src/Cache/Retention.antt =====
-- A new entry stays: internal/cache/semantic.go, `evictOne` and the checks of the size in `Store`.
use momu_llmgateway.Base.{
  ℕ, suc, ◌+◌, ◌*◌, ◌/◌, ◌<◌, ◌≤◌, false, some, List, [], ◌∷◌, ◌++◌, length, get_elem?, All, ltb,
  ◌≡◌, inl, inr, arith, Bool-cases, if◌then◌else◌,
}
use momu_llmgateway.Base.Slice.Positions.{get_elem?-append}
use momu_llmgateway.Base.Slice.Swapping.{get_elem?-swap_remove, get_elem?-reject}
use momu_llmgateway.Base.Slice.{reject}
use momu_llmgateway.Cache.{CacheEntry, SemanticCache, is_expired}
use momu_llmgateway.Cache.Store.{oldest_index, evict_one, trimmed}

-- An entry stands somewhere in a list.
abbrev pub Holds : CacheEntry → List CacheEntry → Type 0
Holds e es = (j : ℕ) × (get_elem? es j ≡ some e)

-- No entry was accessed later than an instant.
abbrev pub AccessedBy : ℕ → List CacheEntry → Type 0
AccessedBy now es = All (λ e. e.last_access ≤ now) es

-- The loop of `evictOne` does not choose the last entry, if none was accessed later.
oldest_index-append :
    (e : CacheEntry) (es : List CacheEntry) (i oldest access : ℕ)
    → AccessedBy e.last_access es
    → access ≤ e.last_access
    → oldest_index i (es ++ e ∷ []) oldest access ≡ oldest_index i es oldest access
unfolding oldest_index
oldest_index-append e [] i oldest access h l = ground arith
oldest_index-append e (x ∷ es) i oldest access (hx, h) l = ground (
  arith,
  oldest_index-append e es (suc i) i x.last_access h hx,
  oldest_index-append e es (suc i) oldest access h l,
)

oldest_index-lt :
    (es : List CacheEntry) (i oldest access : ℕ)
    → oldest < i
    → oldest_index i es oldest access < i + length es
unfolding oldest_index
oldest_index-lt [] i oldest access l = omega arith
oldest_index-lt (x ∷ es) i oldest access l =
    ground
      (arith, oldest_index-lt es (suc i) i x.last_access, oldest_index-lt es (suc i) oldest access)

evict_one-Holds :
    (e x : CacheEntry) (es : List CacheEntry)
    → AccessedBy e.last_access (x ∷ es)
    → Holds e (evict_one (x ∷ (es ++ e ∷ [])))
unfolding evict_one
evict_one-Holds e x es (hx, h) = (
  oldest_index 1 es 0 x.last_access,
  rw (oldest_index-append e es 1 0 x.last_access h hx) (
      get_elem?-swap_remove (x ∷ es) e (oldest_index 1 es 0 x.last_access)
        (omega (arith, oldest_index-lt es 1 0 x.last_access (omega arith)))),
)

module _ {S : Type 0} where
  -- An entry that is appended survives the checks of the size.
  pub trimmed-Holds :
      (c : SemanticCache S) (now : ℕ) (e : CacheEntry) (es : List CacheEntry)
      → 0 < c.max_entries
      → AccessedBy e.last_access es
      → is_expired c now e ≡ false
      → Holds e (trimmed c now (es ++ e ∷ []))
  unfolding trimmed
  trimmed-Holds c now e es room h fresh =
      compacted
        (if ltb c.max_entries (length (es ++ e ∷ []))
          then evict_one (es ++ e ∷ [])
          else es ++ e ∷ [])
        (kept es h)
    where
      kept :
          (es : List CacheEntry)
          → AccessedBy e.last_access es
          → Holds e (
              if ltb c.max_entries (length (es ++ e ∷ []))
              then evict_one (es ++ e ∷ [])
              else es ++ e ∷ [])
      kept [] h = (0, ground (arith, room))
      kept (x ∷ es) h = elim (Bool-cases (ltb c.max_entries (length (x ∷ (es ++ e ∷ []))))) [
        | inl full ↦ rw full (evict_one-Holds e x es h)
        | inr fits ↦ rw fits (length (x ∷ es), get_elem?-append (x ∷ es) e [])
      ]

      compacted :
          (kept : List CacheEntry)
          → Holds e kept
          → Holds e (
              if ltb (c.max_entries * 3 / 2) (length kept)
              then reject (is_expired c now) kept
              else kept)
      compacted kept (j, found) = elim (Bool-cases (ltb (c.max_entries * 3 / 2) (length kept))) [
        | inl large ↦ rw large (get_elem?-reject (is_expired c now) kept j e found fresh)
        | inr small ↦ rw small (j, found)
      ]
