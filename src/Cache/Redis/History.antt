-- ===== src/Cache/Redis/History.antt =====
-- What a history of calls of `Save` leaves in Redis: internal/cache/redis_store.go.
use momu_llmgateway.Base.{
  ℕ, ◌+◌, ◌^◌, ◌<◌, ◌≤◌, String, Bool, true, ◌&&◌, ◌==◌, eq_iff, Option, none, some, List, [], ◌∷◌,
  ltb, ◌≡◌, refl, sym, subst, ◌∙◌, inl, inr, arith, All, Bool-cases,
}
use momu_llmgateway.Base.Dict.{is_among}
use momu_llmgateway.Cache.Redis.{Redis, vector_key, response_key, index_key}
use momu_llmgateway.Cache.Redis.Keys.{NoColon}
use momu_llmgateway.Cache.Redis.Laws.{RedisLaws, WholeSeconds}
use momu_llmgateway.Cache.Redis.Saving.{
  Saved, SavedBy, IsHistory, last_saved, save_all, vector-save, response-save, members-save,
}
use momu_llmgateway.Cache.Vectors.{encode_vector}
use mathlib.Core.Bool.{false≢true}
use mathlib.Core.Option.{some-injective, none-ne-some}

abbrev pub vector_bytes : Option Saved → Option (List ℕ)
vector_bytes none = none
vector_bytes (some x) = some (encode_vector x.vector)

abbrev pub response_bytes : (String → List ℕ) → Option Saved → Option (List ℕ)
response_bytes to_bytes none = none
response_bytes to_bytes (some x) = some (to_bytes x.response)

-- What a history says of the call that is found in it.
pub record IsLast (d t : ℕ) (model key : String) (x : Saved) : Type 0 where
  pub same_model : x.model ≡ model
  pub same_key : x.key ≡ key
  pub patterns : All (λ v. v < 2 ^ 64) x.vector
  pub living : t < x.at + d

pub last_saved-IsLast :
    (d t : ℕ) (model key : String) (history : List Saved) (x : Saved)
    → IsHistory history
    → last_saved d t model key history ≡ some x
    → IsLast d t model key x
last_saved-IsLast d t model key [] x h e = absurd (none-ne-some x e)
last_saved-IsLast d t model key (y ∷ history) x (_, patterns, _, h) e =
    elim (Bool-cases (y.model == model && y.key == key)) [
      | inl same ↦ elim (Bool-cases (ltb t (y.at + d))) [
        | inl living ↦
            subst (IsLast d t model key) (some-injective y x (rw (same, living) at e)) (record {
              same_model = (eq_iff y.model model).0 (ground (arith, same));
              same_key = (eq_iff y.key key).0 (ground (arith, same));
              patterns = patterns;
              living = ground (arith, living);
            })
        | inr dead ↦ absurd (none-ne-some x (rw (same, dead) at e))
      ]
      | inr other ↦ last_saved-IsLast d t model key history x h (rw other at e)
    ]

-- What holds of every call of a history, holds of the one that is found.
pub last_saved-All :
    (P : Saved → Type 0) (d t : ℕ) (model key : String) (history : List Saved) (x : Saved)
    → All P history
    → last_saved d t model key history ≡ some x
    → P x
last_saved-All P d t model key [] x h e = absurd (none-ne-some x e)
last_saved-All P d t model key (y ∷ history) x (hy, h) e =
    elim (Bool-cases (y.model == model && y.key == key)) [
      | inl same ↦ elim (Bool-cases (ltb t (y.at + d))) [
        | inl living ↦ subst P (some-injective y x (rw (same, living) at e)) hy
        | inr dead ↦ absurd (none-ne-some x (rw (same, dead) at e))
      ]
      | inr other ↦ last_saved-All P d t model key history x h (rw other at e)
    ]

-- What lives at an instant, lived before it.
last_saved-earlier :
    (d t u : ℕ) (model key : String) (history : List Saved) (x : Saved)
    → u ≤ t
    → last_saved d t model key history ≡ some x
    → last_saved d u model key history ≡ some x
last_saved-earlier d t u model key [] x l e = e
last_saved-earlier d t u model key (y ∷ history) x l e =
    elim (Bool-cases (y.model == model && y.key == key)) [
      | inl same ↦ elim (Bool-cases (ltb t (y.at + d))) [
        | inl living ↦
            let still : ltb u (y.at + d) ≡ true = ground (arith, living, l) in
            rw (same, still) (rw (same, living) at e)
        | inr dead ↦ absurd (none-ne-some x (rw (same, dead) at e))
      ]
      | inr other ↦ rw other (last_saved-earlier d t u model key history x l (rw other at e))
    ]

SavedBy-later :
    (now t : ℕ) (history : List Saved) → now ≤ t → SavedBy now history → SavedBy t history
SavedBy-later now t [] l h = tt
SavedBy-later now t (x ∷ history) l (hx, h) =
    (omega (arith, hx, l), SavedBy-later now t history l h)

module _ {R : Type 0} (to_bytes : String → List ℕ) (of_bytes : List ℕ → String) (redis : Redis R)
    (laws : RedisLaws redis) (d : ℕ) (whole : WholeSeconds d) (r : R) where
  open laws use {value, members}

  abbrev pub saved : List Saved → R
  saved history = save_all to_bytes of_bytes redis laws d history r

  positive : 0 < d
  positive = let (s, h, e) = whole in omega (arith, h, e)

  -- A server that holds nothing yet.
  pub record IsEmpty : Type 0 where
    pub no_value : (t : ℕ) (key : String) → value t key r ≡ none
    pub no_member : (t : ℕ) (key : String) → members t key r ≡ []

  module _ (empty : IsEmpty) where
    pub value-vector :
        (t : ℕ) (model key : String) (history : List Saved)
        → IsHistory history
        → SavedBy t history
        → NoColon key
        → value t (vector_key model key) (saved history)
          ≡ vector_bytes (last_saved d t model key history)
    unfolding save_all
    value-vector t model key [] h l c = empty.no_value t (vector_key model key)
    value-vector t model key (x ∷ history) (hx, _, before, h) (lx, l) c =
        vector-save to_bytes of_bytes redis laws d positive t x (saved history) lx model key hx c
        ∙ elim (Bool-cases (x.model == model && x.key == key)) [
          | inl same ↦ rw same (elim (Bool-cases (ltb t (x.at + d))) [
            | inl living ↦ rw living refl
            | inr dead ↦ rw dead refl
          ])
          | inr other ↦ rw other (value-vector t model key history h l c)
        ]

    pub value-response :
        (t : ℕ) (model key : String) (history : List Saved)
        → IsHistory history
        → SavedBy t history
        → NoColon key
        → value t (response_key model key) (saved history)
          ≡ response_bytes to_bytes (last_saved d t model key history)
    unfolding save_all
    value-response t model key [] h l c = empty.no_value t (response_key model key)
    value-response t model key (x ∷ history) (hx, _, before, h) (lx, l) c =
        response-save to_bytes of_bytes redis laws d positive t x (saved history) lx model key hx c
        ∙ elim (Bool-cases (x.model == model && x.key == key)) [
          | inl same ↦ rw same (elim (Bool-cases (ltb t (x.at + d))) [
            | inl living ↦ rw living refl
            | inr dead ↦ rw dead refl
          ])
          | inr other ↦ rw other (value-response t model key history h l c)
        ]

    -- A key whose values live is in the index: that does not expire before them.
    pub members_complete :
        (t : ℕ) (model key : String) (history : List Saved) (x : Saved)
        → IsHistory history
        → SavedBy t history
        → last_saved d t model key history ≡ some x
        → is_among key (members t (index_key model) (saved history)) ≡ true
    unfolding save_all
    members_complete t model key [] x h l e = absurd (none-ne-some x e)
    members_complete t model key (y ∷ history) x (hy, p, before, h) (ly, l) e =
        members-save to_bytes of_bytes redis laws d positive t y (saved history) ly model key whole
        ∙ elim (Bool-cases (y.model == model)) [
          | inr other ↦ rw other (members_complete t model key history x h l (rw other at e))
          | inl model_same ↦ rw model_same (elim (Bool-cases (y.key == key)) [
            | inl key_same ↦
                let last = last_saved-IsLast d t model key (y ∷ history) x (hy, p, before, h) e in
                rw key_same (
                  living_of y.at x.at last.living (
                    last_saved-All (λ z. z.at ≤ y.at) d t model key (y ∷ history) x
                      (omega arith, before) e))
            | inr key_other ↦
                let e' : last_saved d t model key history ≡ some x =
                  rw (model_same, key_other) at e in
                let last = last_saved-IsLast d t model key history x h e' in
                rw
                  (
                    key_other,
                    members_complete y.at model key history x h before
                        (last_saved-earlier d t y.at model key history x ly e'),
                  )
                  (living_of y.at x.at last.living
                    (last_saved-All (λ z. z.at ≤ y.at) d t model key history x before e'))
          ])
        ]
      where
        living_of : (a b : ℕ) → t < b + d → b ≤ a → (ltb t (a + d) && true) ≡ true
        living_of a b living l = ground (arith, living, l)

    -- The index holds keys that were saved.
    pub members-NoColon :
        (t : ℕ) (model key : String) (history : List Saved)
        → IsHistory history
        → SavedBy t history
        → is_among key (members t (index_key model) (saved history)) ≡ true
        → NoColon key
    unfolding save_all
    members-NoColon t model key [] h l e =
        absurd (false≢true (rw (empty.no_member t (index_key model)) at e))
    members-NoColon t model key (y ∷ history) (hy, p, before, h) (ly, l) e =
        let e' =
          sym (
            members-save to_bytes of_bytes redis laws d positive t y (saved history) ly model key
              whole)
          ∙ e in
        elim (Bool-cases (y.model == model)) [
          | inr other ↦ members-NoColon t model key history h l (rw other at e')
          | inl model_same ↦ elim (Bool-cases (y.key == key)) [
            | inl key_same ↦ subst NoColon ((eq_iff y.key key).0 key_same) hy
            | inr key_other ↦
                members-NoColon y.at model key history h before
                  (second (ltb t (y.at + d)) _ (rw (model_same, key_other) at e'))
          ]
        ]
      where
        second : (a b : Bool) → (a && b) ≡ true → b ≡ true
        second a b h = ground (arith, h)
