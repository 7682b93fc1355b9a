-- ===== src/Decision/Semantic.antt =====
-- internal/decision/strategy_semantic.go: the semantic strategy. The embedding engine is a function
-- from texts to vectors, or an error.
pub mod Choice
pub mod Prototypes
use momu_llmgateway.Base.{
  String, Bool, true, false, not, ◌&&◌, Option, none, some, List, [], ◌∷◌, ◌==◌, if◌then◌else◌,
}
use momu_llmgateway.Base.Float.{Float64, FloatOps, float_zero, float_ge, float_lt}
use momu_llmgateway.Base.Int.{ℤ, pos, ltb_ℤ}
use momu_llmgateway.Embedding.{cosine_similarity}
use momu_llmgateway.Model.{Message, Result, ok, StandardRequest}
use Prim.Native.String.{count}

-- `Embedder`.
abbrev pub Embedder : Type 0
Embedder = List String → Result (List (List Float64))

pub record CategoryPrototype : Type 0 where
  pub name : String
  pub target_models : List String
  pub vector : List Float64

pub record SemanticRouter : Type 0 where
  pub categories : List CategoryPrototype
  pub threshold : Float64
  pub max_prompt_length : ℤ
  pub engine : Option Embedder

-- `concatenateUserMessages`: the last user message that is not empty. The accumulator is the last of
-- `parts`.
unfoldable pub last_user_content : String → List Message → String
last_user_content found [] = found
last_user_content found (m ∷ ms) =
    last_user_content (if m.role == "user" && not (m.content == "") then m.content else found) ms

unfoldable pub concatenate_user_messages : List Message → String
unfolding last_user_content
concatenate_user_messages messages = last_user_content "" messages

-- The three results of `Route`.
pub record SemanticRoute : Type 0 where
  pub models : List String
  pub category : String
  pub confidence : Float64

abbrev pub no_semantic_route : SemanticRoute
no_semantic_route = record { models = []; category = ""; confidence = float_zero }

module _ (ops : FloatOps) where
  -- The loop of `Route` over the categories.
  unfoldable pub best_category :
      List Float64 → Float64 → List CategoryPrototype → SemanticRoute → SemanticRoute
  best_category vec threshold [] best = best
  best_category vec threshold (cat ∷ cats) best =
      let score = cosine_similarity ops vec cat.vector in
      best_category vec threshold cats (
        if float_ge score threshold && float_lt best.confidence score
        then record { models = cat.target_models; category = cat.name; confidence = score }
        else best)

  abbrev match_embedded : SemanticRouter → Result (List (List Float64)) → SemanticRoute
  match_embedded sr (ok (vec ∷ vecs)) =
      best_category vec sr.threshold sr.categories no_semantic_route
  match_embedded sr _ = no_semantic_route

  abbrev too_long : SemanticRouter → String → Bool
  too_long sr text =
      ltb_ℤ (pos 0) sr.max_prompt_length && ltb_ℤ sr.max_prompt_length (pos (count text))

  abbrev route_text : SemanticRouter → Option Embedder → String → SemanticRoute
  route_text sr none text = no_semantic_route
  route_text sr (some embed) text =
      if text == ""
      then no_semantic_route
      else if too_long sr text
      then no_semantic_route
      else match_embedded sr (embed (text ∷ []))

  abbrev has_none {ℓ} : {A : Type ℓ} → List A → Bool
  has_none [] = true
  has_none (x ∷ xs) = false

  -- `SemanticRouter.Route`.
  unfoldable pub route_semantic : SemanticRouter → StandardRequest → SemanticRoute
  unfolding best_category concatenate_user_messages
  route_semantic sr req =
      if has_none sr.categories
      then no_semantic_route
      else route_text sr sr.engine (concatenate_user_messages req.messages)
