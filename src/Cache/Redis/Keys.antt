-- ===== src/Cache/Redis/Keys.antt =====
-- The names of the keys of internal/cache/redis_store.go: which of them are the same.
use momu_llmgateway.Base.{
  String, Bool, true, false, ◌&&◌, ◌==◌, eq_iff, Bool-cases, inl, inr, ◌≡◌, ◌≢◌, refl, sym, ap, ap₂,
  subst, ◌∙◌, arith,
}
use momu_llmgateway.Model.{◌<>◌}
use momu_llmgateway.Cache.Redis.{vector_key, response_key, index_key}
use Prim.Native.Char.{Char, code}
use text.Mathlib.TextLemmas.{
  nil-append, cons-append, append_assoc, append_cancel_left, head-eq_of_cons-eq, tail-eq_of_cons-eq,
}
use mathlib.Core.Bool.{false≢true}

-- No colon among the characters.
abbrev pub NoColon : String → Type 0
NoColon String.[] = Unit
NoColon (String.◌∷◌ c s) = (code c ≢ b':') × NoColon s

colon_first : (s : String) → "" <> ":" <> s ≡ String.◌∷◌ ":" s
colon_first s = nil-append _ ∙ cons-append ":" "" s ∙ ap (String.◌∷◌ ":") (nil-append s)

-- A text behind a colon has one.
has_colon : (p s : String) → ¬ NoColon (p <> ":" <> s)
has_colon String.[] s h = (subst NoColon (colon_first s) h).0 refl
has_colon (String.◌∷◌ c p) s h = has_colon p s (subst NoColon (cons-append c p _) h).1

colon-append_inj :
    (p q s t : String) → NoColon s → NoColon t → p <> ":" <> s ≡ q <> ":" <> t → (p ≡ q) × (s ≡ t)
colon-append_inj String.[] String.[] s t hs ht e =
    (refl, tail-eq_of_cons-eq (sym (colon_first s) ∙ e ∙ colon_first t))
colon-append_inj String.[] (String.◌∷◌ d q) s t hs ht e = absurd (
    has_colon q t
      (subst NoColon (tail-eq_of_cons-eq (sym (colon_first s) ∙ e ∙ cons-append d q _)) hs))
colon-append_inj (String.◌∷◌ c p) String.[] s t hs ht e = absurd (
    has_colon p s
      (subst NoColon (sym (tail-eq_of_cons-eq (sym (cons-append c p _) ∙ e ∙ colon_first t))) ht))
colon-append_inj (String.◌∷◌ c p) (String.◌∷◌ d q) s t hs ht e =
    let full = sym (cons-append c p _) ∙ e ∙ cons-append d q _ in
    let (same, rest) = colon-append_inj p q s t hs ht (tail-eq_of_cons-eq full) in
    (ap₂ String.◌∷◌ (head-eq_of_cons-eq full) same, rest)

-- A test of texts that are the same in one case only.
eq-iff_test : (s t : String) (b : Bool) → (b ≡ true → s ≡ t) → (s ≡ t → b ≡ true) → (s == t) ≡ b
eq-iff_test s t true same back = (eq_iff s t).1 (same refl)
eq-iff_test s t false same back = elim (Bool-cases (s == t)) [
  | inl equal ↦ absurd (false≢true (back ((eq_iff s t).0 equal)))
  | inr other ↦ other
]

module _ (prefix model key model' key' : String) (h : NoColon key) (h' : NoColon key') where
  -- Two keys with one prefix are equal if their models and their keys are.
  prefixed-eq :
      (prefix <> model <> ":" <> key) == (prefix <> model' <> ":" <> key')
      ≡ (model == model' && key == key')
  prefixed-eq =
      eq-iff_test _ _ (model == model' && key == key')
        (λ same.
          let ms = (eq_iff model model').0 (ground (arith, same)) in
          let ks = (eq_iff key key').0 (ground (arith, same)) in rw (ms, ks) refl)
        (λ e.
          let (ms, ks) =
            colon-append_inj model model' key key' h h' (append_cancel_left prefix _ _ e) in
          ground (arith, (eq_iff model model').1 ms, (eq_iff key key').1 ks))

pub vector_key-eq :
    (model key model' key' : String)
    → NoColon key
    → NoColon key'
    → (vector_key model key == vector_key model' key') ≡ (model == model' && key == key')
unfolding vector_key
vector_key-eq model key model' key' h h' = prefixed-eq "sc:v:" model key model' key' h h'

pub response_key-eq :
    (model key model' key' : String)
    → NoColon key
    → NoColon key'
    → (response_key model key == response_key model' key') ≡ (model == model' && key == key')
unfolding response_key
response_key-eq model key model' key' h h' = prefixed-eq "sc:r:" model key model' key' h h'

pub index_key-eq :
    (model model' : String) → (index_key model == index_key model') ≡ (model == model')
unfolding index_key
index_key-eq model model' =
    eq-iff_test _ _ (model == model')
      (λ same. ap (λ m. "sc:idx:" <> m) ((eq_iff model model').0 same))
      (λ e. (eq_iff model model').1 (append_cancel_left "sc:idx:" model model' e))

-- Keys of different kinds differ in the character behind "sc:".
kinds_differ :
    (c d : Char) (p q x y : String)
    → code c ≢ code d
    → (("sc:" <> String.◌∷◌ c p) <> x == ("sc:" <> String.◌∷◌ d q) <> y) ≡ false
kinds_differ c d p q x y h =
    eq-iff_test _ _ false (λ e. absurd (false≢true e))
      (λ e. absurd (
        h (
          ap code (
            head-eq_of_cons-eq (
              sym (cons-append c p x)
              ∙ append_cancel_left "sc:" _ _ (
                  sym (append_assoc "sc:" (String.◌∷◌ c p) x)
                  ∙ e
                  ∙ append_assoc "sc:" (String.◌∷◌ d q) y)
              ∙ cons-append d q y)))))

module _ (model key model' key' : String) where
  pub vector-ne-response : (vector_key model key == response_key model' key') ≡ false
  unfolding vector_key response_key
  vector-ne-response = kinds_differ "v" "r" ":" ":" _ _ (λ e. absurd (omega (arith, e)))

  pub response-ne-vector : (response_key model key == vector_key model' key') ≡ false
  unfolding vector_key response_key
  response-ne-vector = kinds_differ "r" "v" ":" ":" _ _ (λ e. absurd (omega (arith, e)))

  pub index-ne-vector : (index_key model == vector_key model' key') ≡ false
  unfolding vector_key index_key
  index-ne-vector = kinds_differ "i" "v" "dx:" ":" _ _ (λ e. absurd (omega (arith, e)))

  pub index-ne-response : (index_key model == response_key model' key') ≡ false
  unfolding response_key index_key
  index-ne-response = kinds_differ "i" "r" "dx:" ":" _ _ (λ e. absurd (omega (arith, e)))

  pub vector-ne-index : (vector_key model key == index_key model') ≡ false
  unfolding vector_key index_key
  vector-ne-index = kinds_differ "v" "i" ":" "dx:" _ _ (λ e. absurd (omega (arith, e)))

  pub response-ne-index : (response_key model key == index_key model') ≡ false
  unfolding response_key index_key
  response-ne-index = kinds_differ "r" "i" ":" "dx:" _ _ (λ e. absurd (omega (arith, e)))
