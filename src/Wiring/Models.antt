-- ===== src/Wiring/Models.antt =====
-- The models of the configuration, without repetition.
use momu_llmgateway.Base.{
  String, true, false, ◌||◌, Bool-cases, List, [], ◌∷◌, ◌++◌, ◌==◌, eq_iff, Any, ◌≡◌, ◌↔◌, ◌⊎◌, inl,
  inr, refl, sym, ◌∙◌, ap, arith,
}
use momu_llmgateway.Base.Dict.{is_among, is_among-Any, Any-is_among}
use momu_llmgateway.Config.{ProviderConfig}
use momu_llmgateway.Wiring.{add_model, collect_models, collect_from, collect_all_models}

-- No text stands twice.
abbrev pub NoRepeat : List String → Type 0
NoRepeat [] = Unit
NoRepeat (x ∷ xs) = (is_among x xs ≡ false) × NoRepeat xs

is_among-append :
    (x : String) (ms ns : List String) → is_among x (ms ++ ns) ≡ (is_among x ms || is_among x ns)
is_among-append x [] ns = refl
is_among-append x (m ∷ ms) ns = ground (arith, is_among-append x ms ns)

append-NoRepeat :
    (m : String) (ms : List String) → is_among m ms ≡ false → NoRepeat ms → NoRepeat (ms ++ m ∷ [])
append-NoRepeat m [] e h = (refl, tt)
append-NoRepeat m (x ∷ xs) e (new, h) =
    let (other, rest) : ((x == m) ≡ false) × (is_among m xs ≡ false) = ground (arith, e) in
    (
      is_among-append x xs (m ∷ []) ∙ ground (arith, new, other, eq_iff x m, eq_iff m x),
      append-NoRepeat m xs rest h,
    )

-- The set and the list have the same items, and the list has each once.
abbrev Agrees : List String × List String → Type 0
Agrees (seen, models) = ((x : String) → is_among x seen ≡ is_among x models) × NoRepeat models

add_model-Agrees :
    (m : String) (st : List String × List String)
    → Agrees st
    → Agrees (add_model m st)
      × ((x : String) → is_among x (add_model m st).1 ≡ (is_among x st.1 || (m == x)))
add_model-Agrees m (seen, models) (same, h) = elim (Bool-cases (is_among m seen)) [
  | inl old ↦ rw old (
    (same, h),
    λ x. elim (Bool-cases (m == x)) [
      | inl here ↦
          let there : is_among x models ≡ true =
            ap (λ y. is_among y models) (sym ((eq_iff m x).0 here)) ∙ sym (same m) ∙ old in
          ground (arith, there)
      | inr other ↦ ground (arith, other)
    ],
  )
  | inr new ↦ rw new (
    (
      λ x. ground (arith, same x, is_among-append x models (m ∷ [])),
      append-NoRepeat m models (sym (same m) ∙ new) h,
    ),
    λ x. ground (arith, is_among-append x models (m ∷ [])),
  )
]

collect_models-Agrees :
    (ms : List String) (st : List String × List String)
    → Agrees st
    → Agrees (collect_models ms st)
      × ((x : String) → is_among x (collect_models ms st).1 ≡ (is_among x st.1 || is_among x ms))
unfolding collect_models
collect_models-Agrees [] st h = (h, λ x. ground arith)
collect_models-Agrees (m ∷ ms) st h =
    let (h', one) = add_model-Agrees m st h in
    let (h'', more) = collect_models-Agrees ms (add_model m st) h' in
    (h'', λ x. ground (arith, one x, more x))

-- Some provider offers the model.
abbrev pub IsConfigured : List (String × ProviderConfig) → String → Type 0
IsConfigured pcs model = Any (λ pc. Any (λ m. m ≡ model) pc.1.models) pcs

collect_from-Agrees :
    (pcs : List (String × ProviderConfig)) (st : List String × List String)
    → Agrees st
    → Agrees (collect_from pcs st)
      × ((x : String)
          → (is_among x (collect_from pcs st).1 ≡ true)
            ↔ ((is_among x st.1 ≡ true) ⊎ IsConfigured pcs x))
unfolding collect_from
collect_from-Agrees [] st h =
    (h, λ x. (λ e. inl e, λ k. elim k [ inl e ↦ e | inr none_left ↦ absurd none_left ]))
collect_from-Agrees ((name, pc) ∷ pcs) st h =
    let (h', one) = collect_models-Agrees pc.models st h in
    let (h'', more) = collect_from-Agrees pcs (collect_models pc.models st) h' in
    (
      h'',
      λ x. (
        λ e. elim ((more x).0 e) [
          | inl early ↦ elim (Bool-cases (is_among x pc.models)) [
            | inl here ↦ inr (inl (is_among-Any x pc.models here))
            | inr absent ↦ inl (ground (arith, early, one x, absent))
          ]
          | inr late ↦ inr (inr late)
        ],
        λ k. elim k [
          | inl early ↦ (more x).1 (inl (ground (arith, early, one x)))
          | inr (inl here) ↦ (more x).1 (inl (ground (arith, Any-is_among x pc.models here, one x)))
          | inr (inr late) ↦ (more x).1 (inr late)
        ],
      ),
    )

-- `collectAllModels` returns every model that some provider is configured with, and no other, and each
-- once, in whatever order the loop meets the providers.
pub collect_all_models-IsConfigured :
    (pcs : List (String × ProviderConfig))
    → NoRepeat (collect_all_models pcs)
      × ((model : String) → Any (λ m. m ≡ model) (collect_all_models pcs) ↔ IsConfigured pcs model)
unfolding collect_all_models
collect_all_models-IsConfigured pcs =
    let ((same, once), members) = collect_from-Agrees pcs ([], []) ((λ x. refl), tt) in
    (
      once,
      λ model. (
        λ k. elim ((members model).0 (Any-is_among model (collect_from pcs ([], [])).1 k)) [
          | inl early ↦ absurd (ground (arith, early))
          | inr found ↦ found
        ],
        λ found. is_among-Any model (collect_from pcs ([], [])).1 ((members model).1 (inr found)),
      ),
    )
