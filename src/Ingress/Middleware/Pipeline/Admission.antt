-- ===== src/Ingress/Middleware/Pipeline/Admission.antt =====
-- What a chat completion that passes all the middlewares is known to be.
use momu_llmgateway.Base.{
  String, true, Option, some, List, [], ◌∷◌, Any, ◌≡◌, ◌≢◌, ◌⊎◌, inl, inr, refl, sym, ◌∙◌, ap,
  subst,
}
use momu_llmgateway.Base.Int.{ℤ}
use momu_llmgateway.Base.Text.{has_prefix}
use momu_llmgateway.Config.{ApiKeyConfig}
use momu_llmgateway.Ingress.Middleware.{
  GinContext, pass, ChatRequest, RequestJson, request_id_middleware,
}
use momu_llmgateway.Ingress.Middleware.Auth.{extract_model_from_body}
use momu_llmgateway.Ingress.Middleware.Auth.Keys.{
  LastWith, MayUse, with_key, auth_middleware-Authenticated,
}
use momu_llmgateway.Ingress.Middleware.Pipeline.{
  then_run, run_auth, run_rate_limit, run_validation, middleware_chain, then_run-pass,
  rate_limit_middleware-pass, validation_middleware-pass,
}
use momu_llmgateway.Ingress.Middleware.RateLimit.{SortedSets}
use momu_llmgateway.Ingress.Middleware.Validation.{is_chat_path, IsAcceptable}
use momu_llmgateway.Model.{◌<>◌, StandardRequest}

-- What the decoders agree on: the same key of the body is the model for all three.
pub record DecodesModel (json : RequestJson) : Type 0 where
  pub field :
      (body : String) (req : ChatRequest)
      → json.chat_request body ≡ some req
      → json.model_field body ≡ some req.model
  pub standard :
      (body : String) (req : ChatRequest) (q : StandardRequest)
      → json.chat_request body ≡ some req
      → json.standard_request body ≡ some q
      → q.model ≡ req.model

-- A configured key, of which the last configuration permits the model, by `["*"]` or by name.
abbrev pub IsPermitted : List ApiKeyConfig → GinContext → String → Type 0
IsPermitted keys c model =
    (token : String) × ((cfg : ApiKeyConfig) × ((c.authorization ≡ "Bearer " <> token)
        × ((token ≢ "")
            × (LastWith token cfg keys
                × ((cfg.allowed_models ≡ "*" ∷ []) ⊎ Any (λ m. m ≡ model) cfg.allowed_models)))))

abbrev pub IsAdmitted :
    RequestJson → List ApiKeyConfig → List String → String → GinContext → GinContext → Type 0
IsAdmitted json keys allowed_models id c c' =
    (body : String) × ((req : ChatRequest) × ((c'.body ≡ some body)
        × ((c'.request_id ≡ some id)
            × ((json.chat_request body ≡ some req)
                × (IsAcceptable allowed_models req × IsPermitted keys c req.model)))))

module _ {R : Type 0} (json : RequestJson) (agree : DecodesModel json) (keys : List ApiKeyConfig)
    (redis : Option (SortedSets R)) (allowed_models : List String) where
  decoded_model :
      (c : GinContext) (body : String) (req : ChatRequest)
      → c.body ≡ some body
      → json.chat_request body ≡ some req
      → extract_model_from_body json c ≡ req.model
  unfolding extract_model_from_body
  decoded_model c body req read decoded = rw (read, agree.field body req decoded) refl

  permitted :
      (cfg : ApiKeyConfig) (c : GinContext) (model : String)
      → extract_model_from_body json c ≡ model
      → model ≢ ""
      → MayUse json cfg c
      → (cfg.allowed_models ≡ "*" ∷ []) ⊎ Any (λ m. m ≡ model) cfg.allowed_models
  permitted cfg c model same named (inl wild) = inl wild
  permitted cfg c model same named (inr (inl unnamed)) = absurd (named (sym same ∙ unnamed))
  permitted cfg c model same named (inr (inr listed)) =
      inr (subst (λ x. Any (λ m. m ≡ x) cfg.allowed_models) same listed)

  -- A request for a chat completion that passes all the middlewares, where the decoders agree on the
  -- model: its body is decoded and acceptable (a known model, a message, a temperature and a number of
  -- tokens that fit), it bears a key that is configured and permits this very model, and its id is set.
  pub middleware_chain-IsAdmitted :
      (id : String) (now : ℤ) (member : String) (c c' : GinContext) (r : R)
      → c.path ≡ "/v1/chat/completions"
      → c.method ≡ "POST"
      → (middleware_chain json keys redis allowed_models id now member c r).1 ≡ pass c'
      → IsAdmitted json keys allowed_models id c c'
  unfolding middleware_chain request_id_middleware
  middleware_chain-IsAdmitted id now member c c' r path post e =
      let c0 = record c { request_id = Option.some id } in
      let auth = run_auth json keys redis allowed_models in
      let limit = run_rate_limit json keys redis allowed_models now member in
      let valid = run_validation json keys redis allowed_models in
      let x1 = then_run auth (r, pass c0) in
      let x2 = then_run limit x1 in
      let (c2, (e2, f2)) = then_run-pass valid x2 c' e in
      let (c1, (e1, f1)) = then_run-pass limit x1 c2 e2 in
      let unlimited : c1 ≡ c2 = rate_limit_middleware-pass redis now member c1 c2 x1.0 f1 in
      let (token, (cfg, (header, (nonempty, (last, (may, keyed)))))) =
        auth_middleware-Authenticated json keys c0 c1 (rw path refl) e1 in
      let chat : is_chat_path json c2 ≡ true =
        subst (λ x. is_chat_path json x ≡ true) (sym keyed ∙ unlimited)
          (rw (path, post) (unfold has_prefix in refl)) in
      let kept : c' ≡ with_key json cfg token c0 =
        sym (validation_middleware-pass json allowed_models c2 c' chat f2).1
        ∙ sym unlimited
        ∙ keyed in
      let (body, (req, (read, (decoded, fits)))) =
        (validation_middleware-pass json allowed_models c2 c' chat f2).0 in
      let same_body : c.body ≡ some body = ap (λ x. x.body) (sym keyed ∙ unlimited) ∙ read in
      (
        body,
        (
          req,
          (
            ap (λ x. x.body) kept ∙ same_body,
            (
              ap (λ x. x.request_id) kept,
              (
                decoded,
                (
                  fits,
                  (
                    token,
                    (
                      cfg,
                      (
                        header,
                        (
                          nonempty,
                          (
                            last,
                            permitted cfg c0 req.model (decoded_model c0 body req same_body decoded)
                                fits.0 may,
                          ),
                        ),
                      ),
                    ),
                  ),
                ),
              ),
            ),
          ),
        ),
      )
