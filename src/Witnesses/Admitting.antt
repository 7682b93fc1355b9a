-- ===== src/Witnesses/Admitting.antt =====
-- The middlewares and the health check at a concrete request.
use momu_llmgateway.Base.{
  ◌*◌, String, Option, none, some, List, [], ◌∷◌, filter, All, ◌≡◌, ◌↔◌, refl, sym, ◌∙◌, ap, arith,
}
use momu_llmgateway.Base.Dict.{lookup, insert}
use momu_llmgateway.Base.Int.{ℤ, pos, ltb_ℤ, ◌≤ℤ◌, ◌-ℤ◌, ◌+ℤ◌}
use momu_llmgateway.Base.Text.{cut_text, has_prefix}
use momu_llmgateway.Config.{ApiKeyConfig}
use momu_llmgateway.Ingress.Health.{
  Finished, Answers, all_checks, provider_check, redis_check, check, check-ok_iff,
}
use momu_llmgateway.Ingress.Middleware.{
  GinContext, pass, ChatRequest, RequestJson, request_id_middleware,
}
use momu_llmgateway.Ingress.Middleware.Auth.{auth_middleware}
use momu_llmgateway.Ingress.Middleware.Auth.Keys.{Authenticated, auth_middleware-Authenticated}
use momu_llmgateway.Ingress.Middleware.Pipeline.{middleware_chain}
use momu_llmgateway.Ingress.Middleware.Pipeline.Admission.{
  DecodesModel, IsAdmitted, middleware_chain-IsAdmitted,
}
use momu_llmgateway.Ingress.Middleware.RateLimit.{SortedSets, rate_limit_middleware}
use momu_llmgateway.Ingress.Middleware.RateLimit.Overlaps.{Reaches-within_minute}
use momu_llmgateway.Ingress.Middleware.RateLimit.Race.{RaceState, read_clock, count_window, Reaches}
use momu_llmgateway.Ingress.Middleware.RateLimit.Window.{
  SetLaws, later_than, later_than_mono, within_minute, serve, rate_limit_middleware-within_minute,
}
use momu_llmgateway.Ingress.Middleware.Validation.{
  validate, validation_middleware, IsAcceptable, validate-eq-pass_iff,
}
use momu_llmgateway.Model.{GoError, other_error, ok}
use momu_llmgateway.Witnesses.{hello}
use mathlib.Core.Option
use mathlib.Core.List.{Perm}
use mathlib.Core.List.Perm
use mathlib.Core.Logic.Or

abbrev chat : ChatRequest
chat = record { model = "small"; messages = 1; temperature = none; max_tokens = some (pos 5) }

-- Every body is decoded as `hello`.
abbrev pub json : RequestJson
json = record {
  model_field = λ body. some "small";
  chat_request = λ body. some chat;
  standard_request = λ body. some hello;
}

pub json-DecodesModel : DecodesModel json
json-DecodesModel = record {
  field = λ body req e. ap (λ r. some r.model) (Option.some-injective chat req e);
  standard = λ body req q e f.
      sym (ap (λ r. r.model) (Option.some-injective hello q f))
      ∙ ap (λ r. r.model) (Option.some-injective chat req e);
}

abbrev pub keys : List ApiKeyConfig
keys = record { key = "sk"; name = "test"; rate_limit = pos 2; allowed_models = "small" ∷ [] } ∷ []

abbrev pub request : GinContext
request = record {
  path = "/v1/chat/completions";
  method = "POST";
  authorization = "Bearer sk";
  body = some "{}";
  request_id = none;
  api_key = none;
  api_key_name = none;
  api_key_rate_limit = none;
}

abbrev with_sk : GinContext → GinContext
with_sk c = record c {
  api_key = some "sk";
  api_key_name = some "test";
  api_key_rate_limit = some (pos 2);
}

accepted : auth_middleware json keys request ≡ pass (with_sk request)
unfolding auth_middleware lookup insert cut_text
accepted = refl

auth_middleware-Authenticated_example : Authenticated json keys request (with_sk request)
auth_middleware-Authenticated_example =
    auth_middleware-Authenticated json keys request (with_sk request) refl accepted

validate-eq-pass_iff_example :
    (validate ("small" ∷ []) chat request ≡ pass request) ↔ IsAcceptable ("small" ∷ []) chat
validate-eq-pass_iff_example = validate-eq-pass_iff ("small" ∷ []) chat request

-- One sorted set, whatever its key: its scores.
abbrev pub scores : SortedSets (List ℤ)
scores = record {
  prune_and_count = λ key w r. (filter (λ a. ltb_ℤ w a) r, ok (pos (later_than w r)));
  z_add = λ key t member r. t ∷ r;
  expire = λ key seconds r. r;
}

later_than-filter :
    (w x : ℤ) (r : List ℤ) → w ≤ℤ x → later_than x (filter (λ a. ltb_ℤ w a) r) ≡ later_than x r
later_than-filter w x [] e = refl
later_than-filter w x (a ∷ r) e = ground (arith, later_than-filter w x r e)

scores-SetLaws : SetLaws scores
scores-SetLaws = record {
  above = λ key x r. later_than x r;
  IsNew = λ key member r. Unit;
  prune = λ key w r. (filter (λ a. ltb_ℤ w a) r, (refl, λ x e. later_than-filter w x r e));
  add = λ key member t x r new. refl;
}

abbrev three : List (ℤ × String)
three = (pos 100000, "x") ∷ (pos 100010, "y") ∷ (pos 100020, "z") ∷ []

rate_limit_middleware-within_minute_example :
    pos (within_minute (pos 99990) (serve scores "sk" (pos 2) request three ([], [])).1) ≤ℤ pos 2
unfolding scores-SetLaws
rate_limit_middleware-within_minute_example =
    rate_limit_middleware-within_minute scores "sk" (pos 2) request scores-SetLaws (pos 100000)
      (pos 99990) three [] (omega arith) refl (λ y. refl)
      (omega arith, (tt, (omega arith, (tt, (omega arith, (tt, tt))))))

abbrev pub admitted : GinContext
admitted = record (with_sk request) { request_id = some "r1" }

pub all_passed :
    (middleware_chain json keys (some scores) ("small" ∷ []) "r1" (pos 100000) "x" request []).1
    ≡ pass admitted
unfolding middleware_chain auth_middleware lookup insert cut_text rate_limit_middleware ◌-ℤ◌
    validation_middleware validate has_prefix request_id_middleware
all_passed = refl

middleware_chain-IsAdmitted_example : IsAdmitted json keys ("small" ∷ []) "r1" request admitted
middleware_chain-IsAdmitted_example =
    middleware_chain-IsAdmitted json json-DecodesModel keys (some scores) ("small" ∷ []) "r1"
      (pos 100000) "x" request admitted [] refl refl all_passed

-- Redis answers and the provider does not; its check finishes first.
abbrev outcome : List (String × Option GoError)
outcome = ("a", some (other_error "connection refused")) ∷ []

abbrev finished : List Finished
finished =
    provider_check "a" (some (other_error "connection refused")) ∷ redis_check (some none) ∷ []

one_finished-Perm : Perm finished (all_checks (some none) outcome)
unfolding all_checks
one_finished-Perm =
    Perm.swap (redis_check (some none))
      (provider_check "a" (some (other_error "connection refused"))) []

check-ok_iff_example :
    ((check finished).status ≡ "ok") ↔ (Answers (some none) × All (λ p. p.1 ≡ none) outcome)
check-ok_iff_example = check-ok_iff (some none) outcome finished one_finished-Perm

-- With a limit of one and one other request on its way at each count: two requests are counted before
-- either is added, and one that read the clock within the minute is counted after another one, which read
-- it later, has pruned the set.
abbrev rate_key : String
rate_key = "ratelimit:sk"

abbrev idle : RaceState (List ℤ)
idle = record { set = []; waiting = []; pending = []; admitted = []; clock = pos 100000 }

abbrev two_read : RaceState (List ℤ)
two_read = read_clock (pos 100010) "y" (read_clock (pos 100000) "x" idle)

abbrev counted_as : ℤ → String → List (ℤ × String) → RaceState (List ℤ) → RaceState (List ℤ)
counted_as now member rest s =
    count_window scores rate_key (pos 1) now member (record s { waiting = rest })

abbrev two_counted : RaceState (List ℤ)
two_counted =
    counted_as (pos 100010) "y" [] (counted_as (pos 100000) "x" ((pos 100010, "y") ∷ []) two_read)

abbrev two_added : RaceState (List ℤ)
two_added = record two_counted { set = pos 100010 ∷ pos 100000 ∷ []; pending = [] }

abbrev four_read : RaceState (List ℤ)
four_read = read_clock (pos 160011) "u" (read_clock (pos 159990) "z" two_added)

abbrev four_counted : RaceState (List ℤ)
four_counted =
    counted_as (pos 159990) "z" [] (counted_as (pos 160011) "u" ((pos 159990, "z") ∷ []) four_read)

abbrev Leads : RaceState (List ℤ) → Type 0
Leads s = Reaches scores rate_key (pos 1) scores-SetLaws 1 s

two_counted-Reaches : Leads two_counted
unfolding scores-SetLaws ◌-ℤ◌
two_counted-Reaches =
    Reaches.counted _ [] [] (pos 100010) "y"
      (Reaches.counted _ ((pos 100010, "y") ∷ []) [] (pos 100000) "x"
        (Reaches.read _ (pos 100010) "y"
          (Reaches.read _ (pos 100000) "x" (Reaches.started [] (pos 100000) (λ x. refl))
            (omega arith))
          (omega arith))
        refl (omega arith))
      refl (omega arith)

two_added-Reaches : Leads two_added
unfolding scores-SetLaws ◌-ℤ◌
two_added-Reaches =
    Reaches.added _ [] [] (pos 100010) "y"
      (Reaches.added _ ((pos 100010, "y") ∷ []) [] (pos 100000) "x" two_counted-Reaches refl tt)
      refl tt

four_counted-Reaches : Leads four_counted
unfolding scores-SetLaws ◌-ℤ◌
four_counted-Reaches =
    Reaches.counted _ [] [] (pos 159990) "z"
      (Reaches.counted _ [] ((pos 159990, "z") ∷ []) (pos 160011) "u"
        (Reaches.read _ (pos 160011) "u"
          (Reaches.read _ (pos 159990) "z" two_added-Reaches (omega arith)) (omega arith))
        refl (omega arith))
      refl (omega arith)

Reaches-within_minute_example :
    pos (within_minute (pos 99990) four_counted.admitted) ≤ℤ (pos 1 +ℤ pos (2 * 1))
Reaches-within_minute_example =
    Reaches-within_minute scores rate_key (pos 1) scores-SetLaws 1
      (λ x y r e. unfold scores-SetLaws in later_than_mono x y r e) (pos 99990) four_counted
      (omega arith) four_counted-Reaches

-- The bound is met: three are admitted, where the limit is one.
three_admitted : within_minute (pos 99990) four_counted.admitted ≡ 3
unfolding ◌+ℤ◌ ◌-ℤ◌
three_admitted = refl
