-- ===== src/Ingress/Breakers/Keys.antt =====
-- Which pairs of a provider and a model share a breaker.
use momu_llmgateway.Base.{String, ◌≡◌, ◌≢◌, refl, sym, ap, ap₂, ◌∙◌}
use momu_llmgateway.Model.{◌<>◌}
use momu_llmgateway.Ingress.Breakers.{key}
use Prim.Native.Char.{code}
use text.Mathlib.TextLemmas.{nil-append, cons-append, head-eq_of_cons-eq, tail-eq_of_cons-eq}

-- No slash among the characters.
abbrev pub NoSlash : String → Type 0
NoSlash String.[] = Unit
NoSlash (String.◌∷◌ c s) = (code c ≢ b'/') × NoSlash s

slash_first : (s : String) → "" <> "/" <> s ≡ String.◌∷◌ "/" s
slash_first s = nil-append _ ∙ cons-append "/" "" s ∙ ap (String.◌∷◌ "/") (nil-append s)

slash-append_inj :
    (p q s t : String) → NoSlash p → NoSlash q → p <> "/" <> s ≡ q <> "/" <> t → (p ≡ q) × (s ≡ t)
slash-append_inj String.[] String.[] s t hp hq e =
    (refl, tail-eq_of_cons-eq (sym (slash_first s) ∙ e ∙ slash_first t))
slash-append_inj String.[] (String.◌∷◌ d q) s t hp hq e =
    absurd (hq.0 (sym (ap code (head-eq_of_cons-eq (sym (slash_first s) ∙ e ∙ cons-append d q _)))))
slash-append_inj (String.◌∷◌ c p) String.[] s t hp hq e =
    absurd (hp.0 (ap code (head-eq_of_cons-eq (sym (cons-append c p _) ∙ e ∙ slash_first t))))
slash-append_inj (String.◌∷◌ c p) (String.◌∷◌ d q) s t (c≢/, hp) (d≢/, hq) e =
    let full = sym (cons-append c p _) ∙ e ∙ cons-append d q _ in
    let (same, rest) = slash-append_inj p q s t hp hq (tail-eq_of_cons-eq full) in
    (ap₂ String.◌∷◌ (head-eq_of_cons-eq full) same, rest)

-- Two pairs whose provider names hold no slash share a breaker only if they are the same pair.
pub key_inj :
    (provider model provider' model' : String)
    → NoSlash provider
    → NoSlash provider'
    → key provider model ≡ key provider' model'
    → (provider ≡ provider') × (model ≡ model')
unfolding key
key_inj provider model provider' model' hp hq e =
    slash-append_inj provider provider' model model' hp hq e

-- With a slash in a name, two different pairs share one.
shared_key : key "a" "b/c" ≡ key "a/b" "c"
unfolding key
shared_key = refl
