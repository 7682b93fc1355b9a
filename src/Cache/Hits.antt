-- ===== src/Cache/Hits.antt =====
-- Which entry a lookup answers with: internal/cache/semantic.go, `Lookup`.
use momu_llmgateway.Base.{
  ℕ, suc, ◌<◌, String, true, false, Option, none, some, List, [], ◌∷◌, ◌++◌, length, get_elem?, All,
  ◌≡◌, ◌⊎◌, inl, inr, refl, sym, ap, subst, ◌∙◌, arith, Bool-cases, ltb, length-append,
}
use momu_llmgateway.Base.Float.{
  Float64, FloatOps, float_ge, float_ge_trans, float_ge_total, float_ge_self,
}
use momu_llmgateway.Base.Slice.{whole, remove_all, indices_of}
use momu_llmgateway.Base.Slice.Positions.{get_elem?-at, get_elem?-bound, get_elem?-All}
use momu_llmgateway.Base.Slice.Removal.{get_elem?-remove_all}
use momu_llmgateway.Cache.{CacheEntry, SemanticCache, Codec, is_expired}
use momu_llmgateway.Cache.Lookup.{
  LookupResult, best_entry, lookup_vector, finish_lookup, decoded, read_entry,
}
use momu_llmgateway.Embedding.{cosine_similarity}
use mathlib.Core.List.{append_assoc, append-nil}
use mathlib.Core.Bool.{false≢true}
use mathlib.Core.Option.{some-injective}

module _ {S : Type 0} (ops : FloatOps) (codec : Codec) (c : SemanticCache S) (now : ℕ)
    (vec : List Float64) where
  abbrev similarity : CacheEntry → Float64
  similarity e = cosine_similarity ops vec e.vector

  -- An entry that a lookup may answer with.
  pub record Usable (e : CacheEntry) : Type 0 where
    pub fresh : is_expired c now e ≡ false
    pub similar : float_ge (similarity e) c.threshold ≡ true

  -- The entry, if it is usable, is not nearer to the prompt than the score.
  abbrev pub AtMost : Float64 → CacheEntry → Type 0
  AtMost score e = Usable e → float_ge score (similarity e) ≡ true

  -- The same, without the implication.
  abbrev pub IsSurpassed : Float64 → CacheEntry → Type 0
  IsSurpassed score e =
      (is_expired c now e ≡ true)
      ⊎ (float_ge (similarity e) c.threshold ≡ false)
      ⊎ (float_ge score (similarity e) ≡ true)

  AtMost-IsSurpassed : (score : Float64) (e : CacheEntry) → AtMost score e → IsSurpassed score e
  AtMost-IsSurpassed score e h = elim (Bool-cases (is_expired c now e)) [
    | inl old ↦ inl old
    | inr fresh ↦ elim (Bool-cases (float_ge (similarity e) c.threshold)) [
      | inl similar ↦ inr (inr (h (record { fresh = fresh; similar = similar })))
      | inr low ↦ inr (inl low)
    ]
  ]

  -- The entry that a lookup chooses: none if none is usable, or a usable one that no usable entry
  -- surpasses.
  abbrev pub IsChoice : List CacheEntry → ℕ → Option ℕ → Float64 → Type 0
  IsChoice all i none score =
      (score ≡ c.threshold)
      × ((j : ℕ) (e : CacheEntry) → j < i → get_elem? all j ≡ some e → ¬ Usable e)
  IsChoice all i (some b) score =
      (e : CacheEntry) × (get_elem? all b ≡ some e)
      × Usable e
      × (similarity e ≡ score)
      × ((j : ℕ) (x : CacheEntry) → j < i → get_elem? all j ≡ some x → AtMost score x)

  -- What holds below `i` and at `i`, holds below the next index.
  below_suc :
      {P : CacheEntry → Type 0} (all : List CacheEntry) (i : ℕ) (e : CacheEntry)
      → get_elem? all i ≡ some e
      → P e
      → ((j : ℕ) (x : CacheEntry) → j < i → get_elem? all j ≡ some x → P x)
      → (j : ℕ) (x : CacheEntry) → j < suc i
      → get_elem? all j ≡ some x
      → P x
  below_suc {P} all i e at here before j x l found = elim (Bool-cases (ltb j i)) [
    | inl lower ↦ before j x (ground (arith, lower)) found
    | inr same ↦
        let j_eq : j ≡ i = ground (arith, same, l) in
        subst P (some-injective e x (sym at ∙ ap (get_elem? all) (sym j_eq) ∙ found)) here
  ]

  IsChoice-skip :
      (all : List CacheEntry) (i : ℕ) (e : CacheEntry) (best : Option ℕ) (score : Float64)
      → get_elem? all i ≡ some e
      → (is_expired c now e ≡ true) ⊎ (float_ge (similarity e) score ≡ false)
      → IsChoice all i best score
      → IsChoice all (suc i) best score
  IsChoice-skip all i e none score at worse (thr, none_before) = (
    thr,
    below_suc {P = λ x. ¬ Usable x} all i e at
        (λ u. elim worse [
          | inl old ↦ absurd (false≢true (sym u.fresh ∙ old))
          | inr low ↦ absurd (false≢true (sym low ∙ ap (float_ge (similarity e)) thr ∙ u.similar))
        ])
        none_before,
  )
  IsChoice-skip all i e (some b) score at worse (x, at_b, usable, sim, most) = (
    x,
    at_b,
    usable,
    sim,
    below_suc {P = AtMost score} all i e at
        (λ u. elim worse [
          | inl old ↦ absurd (false≢true (sym u.fresh ∙ old))
          | inr low ↦
              elim (float_ge_total (similarity e) score c.threshold low
                (ap (λ f. float_ge f c.threshold) (sym sim) ∙ usable.similar)) [
                  | inl below ↦ absurd (false≢true (sym below ∙ u.similar))
                  | inr above ↦ above
                ]
        ])
        most,
  )

  IsChoice-take :
      (all : List CacheEntry) (i : ℕ) (e : CacheEntry) (best : Option ℕ) (score : Float64)
      → get_elem? all i ≡ some e
      → is_expired c now e ≡ false
      → float_ge (similarity e) score ≡ true
      → IsChoice all i best score
      → IsChoice all (suc i) (some i) (similarity e)
  IsChoice-take all i e none score at fresh ge (thr, none_before) =
      let usable : Usable e = record {
        fresh = fresh;
        similar = ap (float_ge (similarity e)) (sym thr) ∙ ge;
      } in
      (
        e,
        at,
        usable,
        refl,
        below_suc {P = AtMost (similarity e)} all i e at
            (λ u. float_ge_self (similarity e) score ge)
            (λ j x l found u. absurd (none_before j x l found u)),
      )
  IsChoice-take all i e (some b) score at fresh ge (x, at_b, usable, sim, most) =
      let similar =
        float_ge_trans (similarity e) score c.threshold ge
          (ap (λ f. float_ge f c.threshold) (sym sim) ∙ usable.similar) in
      (
        e,
        at,
        record { fresh = fresh; similar = similar },
        refl,
        below_suc {P = AtMost (similarity e)} all i e at
            (λ u. float_ge_self (similarity e) score ge)
            (λ j y l found u.
              float_ge_trans (similarity e) score (similarity y) ge (most j y l found u)),
      )

  best_entry-IsChoice :
      (all seen es : List CacheEntry) (i : ℕ) (best : Option ℕ) (score : Float64)
      → all ≡ seen ++ es
      → i ≡ length seen
      → IsChoice all i best score
      → (final : Float64) × IsChoice all
          (length all)
          (best_entry ops codec c now vec i es best score)
          final
  unfolding best_entry
  best_entry-IsChoice all seen [] i best score same hi h = (
    score,
    subst (λ n. IsChoice all n best score)
        (hi ∙ ap length (sym (append-nil seen)) ∙ ap length (sym same)) h,
  )
  best_entry-IsChoice all seen (e ∷ es) i best score same hi h =
      let at = get_elem?-at all seen e es i same hi in
      let rest = λ (o : Option ℕ). λ (f : Float64).
        best_entry-IsChoice all (seen ++ e ∷ []) es (suc i) o f
          (same ∙ sym (append_assoc seen (e ∷ []) es))
          (omega (arith, length-append seen (e ∷ []))) in
      elim (Bool-cases (is_expired c now e)) [
        | inl old ↦ rw old (rest best score (IsChoice-skip all i e best score at (inl old) h))
        | inr fresh ↦ elim (Bool-cases (float_ge (similarity e) score)) [
          | inl ge ↦
              rw (fresh, ge)
                (rest (some i) (similarity e) (IsChoice-take all i e best score at fresh ge h))
          | inr low ↦
              rw (fresh, low) (rest best score (IsChoice-skip all i e best score at (inr low) h))
        ]
      ]

  -- What a lookup among the entries `es` gives, when its entries and its response are these.
  abbrev pub IsAnswer : List CacheEntry → LookupResult S → Type 0
  IsAnswer es r =
      ((r.response ≡ none) × (r.counted ≡ false) × All (λ e. ¬ Usable e) es)
      ⊎ ((j : ℕ) × (e : CacheEntry) × (get_elem? es j ≡ some e)
          × Usable e
          × All (IsSurpassed (similarity e)) es
          × (r.response ≡ decoded (codec.unmarshal e.response))
          × (r.counted ≡ true))

  finish_lookup-IsAnswer :
      (model : String) (es : List CacheEntry) (best : Option ℕ) (score : Float64)
      → IsChoice es (length es) best score
      → IsAnswer es (
          finish_lookup ops codec c model now
            (remove_all (indices_of (is_expired c now) 0 es) (whole es))
            best)
  finish_lookup-IsAnswer model es none score (thr, unusable) = inl (
    refl,
    refl,
    get_elem?-All es (λ j e found. unusable j e (get_elem?-bound es j e found) found),
  )
  finish_lookup-IsAnswer model es (some b) score (e, at, usable, sim, most) = inr (
    b,
    e,
    at,
    usable,
    get_elem?-All es (λ i x found.
        AtMost-IsSurpassed (similarity e) x
          (subst (λ f. AtMost f x) (sym sim) (most i x (get_elem?-bound es i x found) found))),
    ap (read_entry codec) (get_elem?-remove_all (is_expired c now) es b e at usable.fresh),
    refl,
  )

  -- A lookup gives no response and counts no hit if no entry is both unexpired and similar enough.
  -- Otherwise it counts a hit and chooses an entry that is both and that no such entry surpasses in
  -- similarity: it gives its response, or none if that cannot be decoded, although the expired entries were
  -- swapped out of the array before the response was read.
  pub lookup_vector-IsAnswer :
      (model : String) (es : List CacheEntry)
      → IsAnswer es (lookup_vector ops codec c model now vec es)
  lookup_vector-IsAnswer model [] = inl (refl, refl, tt)
  lookup_vector-IsAnswer model (e ∷ es) =
      let (final, choice) =
        best_entry-IsChoice (e ∷ es) [] (e ∷ es) 0 none c.threshold refl refl
          (refl, λ j x l. elim l [ ]) in
      finish_lookup-IsAnswer model (e ∷ es) _ final choice
