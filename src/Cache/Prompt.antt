-- ===== src/Cache/Prompt.antt =====
-- The prompt of a request: internal/cache/semantic.go and internal/decision/strategy_semantic.go each
-- have a `concatenateUserMessages`.
use momu_llmgateway.Base.{List, [], ◌∷◌, ◌≡◌, refl}
use momu_llmgateway.Cache.{first_user_content, reverse_onto, latest_user_content}
use momu_llmgateway.Decision.Semantic.{last_user_content, concatenate_user_messages}
use momu_llmgateway.Model.{Message}

first_user_content-reverse_onto :
    (acc ms : List Message)
    → first_user_content (reverse_onto acc ms) ≡ last_user_content (first_user_content acc) ms
unfolding first_user_content reverse_onto last_user_content
first_user_content-reverse_onto acc [] = refl
first_user_content-reverse_onto acc (m ∷ ms) = first_user_content-reverse_onto (m ∷ acc) ms

-- The cache, which searches the messages from the last to the first, and the semantic router, which
-- collects the user's messages and takes the last, take the same prompt from a request.
pub latest_user_content-eq-concatenate_user_messages :
    (messages : List Message) → latest_user_content messages ≡ concatenate_user_messages messages
unfolding latest_user_content concatenate_user_messages first_user_content
latest_user_content-eq-concatenate_user_messages messages =
    first_user_content-reverse_onto [] messages
