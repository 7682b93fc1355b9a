-- ===== src/Ingress/Middleware/Auth/Keys.antt =====
-- Which requests the authentication lets through.
use momu_llmgateway.Base.{
  String, true, false, ◌||◌, Bool-cases, Option-cases, Option, none, some, List, [], ◌∷◌, ◌==◌,
  eq_iff, eqb, eqb_iff, All, Any, ◌≡◌, ◌≢◌, ◌⊎◌, inl, inr, ap₂, arith, refl, sym, ◌∙◌, ap,
}
use momu_llmgateway.Base.Dict.{lookup, insert, lookup-insert, is_among-Any}
use momu_llmgateway.Base.Text.{cut_text}
use momu_llmgateway.Config.{ApiKeyConfig}
use momu_llmgateway.Ingress.Middleware.{
  GinContext, pass, pass-injective, abort-ne-pass, RequestJson, is_open_path,
}
use momu_llmgateway.Ingress.Middleware.Auth.{
  allowed_keys, bearer_token, is_wildcard, extract_model_from_body, model_allowed, authorize,
  auth_middleware,
}
use momu_llmgateway.Model.{◌<>◌}
use mathlib.Core.Option
use Prim.Native.Char.{code}
use text.Mathlib.TextEquality.{Char-path}
use text.Mathlib.TextLemmas.{nil-append, cons-append}

-- The configuration of the list that comes last among those with the key.
abbrev pub LastWith : String → ApiKeyConfig → List ApiKeyConfig → Type 0
LastWith token cfg [] = ⊥
LastWith token cfg (k ∷ ks) =
    LastWith token cfg ks ⊎ (((k ≡ cfg) × (k.key ≡ token)) × All (λ other. other.key ≢ token) ks)

-- What a found configuration says of the list and of the map before.
Found : String → ApiKeyConfig → List ApiKeyConfig → Option ApiKeyConfig → Type 0
Found token cfg keys before =
    LastWith token cfg keys ⊎ ((before ≡ some cfg) × All (λ other. other.key ≢ token) keys)

lookup-allowed_keys :
    (token : String) (cfg : ApiKeyConfig) (keys : List ApiKeyConfig)
    (allowed : List (String × ApiKeyConfig))
    → lookup token (allowed_keys keys allowed) ≡ some cfg
    → Found token cfg keys (lookup token allowed)
unfolding allowed_keys Found
lookup-allowed_keys token cfg [] allowed e = inr (e, tt)
lookup-allowed_keys token cfg (k ∷ ks) allowed e =
    elim (lookup-allowed_keys token cfg ks (insert k.key k allowed) e) [
      | inl last ↦ inl (inl last)
      | inr (found, others) ↦
          let found' = sym (lookup-insert k.key token k allowed) ∙ found in
          elim (Bool-cases (k.key == token)) [
            | inl same ↦ inl (
                inr (
                  (Option.some-injective k cfg (rw same at found'), (eq_iff k.key token).0 same),
                  others,
                ))
            | inr other ↦ inr (
              rw other at found',
              (λ q. absurd (ground (arith, other, (eq_iff k.key token).1 q)), others),
            )
          ]
    ]

cut_text-append : (prefix s t : String) → cut_text prefix s ≡ some t → s ≡ prefix <> t
unfolding cut_text
cut_text-append String.[] s t e = Option.some-injective s t e ∙ sym (nil-append t)
cut_text-append (String.◌∷◌ p ps) String.[] t e = absurd (Option.none-ne-some t e)
cut_text-append (String.◌∷◌ p ps) (String.◌∷◌ c s) t e = elim (Bool-cases (eqb (code p) (code c))) [
  | inl same ↦
      ap₂ String.◌∷◌ (sym (Char-path p c ((eqb_iff (code p) (code c)).0 same)))
        (cut_text-append ps s t (rw same at e))
      ∙ sym (cons-append p ps t)
  | inr other ↦ absurd (Option.none-ne-some t (rw other at e))
]

bearer_token-append :
    (header : String) → bearer_token header ≢ header → header ≡ "Bearer " <> bearer_token header
unfolding bearer_token
bearer_token-append header h = elim (Option-cases (cut_text "Bearer " header)) [
  | inl uncut ↦ absurd (h (rw uncut refl))
  | inr (t, cut) ↦ rw cut (cut_text-append "Bearer " header t cut)
]

module _ (json : RequestJson) where
  -- The models `["*"]`, a body that names no model, or a model of the list.
  abbrev pub MayUse : ApiKeyConfig → GinContext → Type 0
  MayUse cfg c =
      (cfg.allowed_models ≡ "*" ∷ [])
      ⊎ ((extract_model_from_body json c ≡ "")
          ⊎ Any (λ m. m ≡ extract_model_from_body json c) cfg.allowed_models)

  wildcard_only : (ms : List String) → is_wildcard json ms ≡ true → ms ≡ "*" ∷ []
  wildcard_only [] e = absurd (ground (arith, e))
  wildcard_only (m ∷ []) e = ap (λ x. x ∷ []) ((eq_iff m "*").0 e)
  wildcard_only (m ∷ n ∷ ms) e = absurd (ground (arith, e))

  model_allowed-MayUse :
      (cfg : ApiKeyConfig) (c : GinContext)
      → model_allowed json cfg.allowed_models c ≡ true
      → MayUse cfg c
  unfolding model_allowed
  model_allowed-MayUse cfg c e = elim (Bool-cases (is_wildcard json cfg.allowed_models)) [
    | inl wild ↦ inl (wildcard_only cfg.allowed_models wild)
    | inr listed ↦ elim (Bool-cases (extract_model_from_body json c == "")) [
      | inl unnamed ↦ inr (inl ((eq_iff (extract_model_from_body json c) "").0 unnamed))
      | inr named ↦ inr (
          inr (
            is_among-Any (extract_model_from_body json c) cfg.allowed_models
              (rw (listed, named) at e)))
    ]
  ]

  -- The context with the key of a configuration set on it.
  abbrev pub with_key : ApiKeyConfig → String → GinContext → GinContext
  with_key cfg token c = record c {
    api_key = Option.some token;
    api_key_name = Option.some cfg.name;
    api_key_rate_limit = Option.some cfg.rate_limit;
  }

  abbrev pub Authenticated : List ApiKeyConfig → GinContext → GinContext → Type 0
  Authenticated keys c c' =
      (token : String) × ((cfg : ApiKeyConfig) × ((c.authorization ≡ "Bearer " <> token)
          × ((token ≢ "")
              × (LastWith token cfg keys × (MayUse cfg c × (c' ≡ with_key cfg token c))))))

  authorize-Authenticated :
      (keys : List ApiKeyConfig) (c c' : GinContext) (token : String) (found : Option ApiKeyConfig)
      → (token ≢ c.authorization → c.authorization ≡ "Bearer " <> token)
      → ((cfg : ApiKeyConfig) → found ≡ some cfg → LastWith token cfg keys)
      → authorize json token found c ≡ pass c'
      → Authenticated keys c c'
  authorize-Authenticated keys c c' token none h last e = absurd (abort-ne-pass e)
  authorize-Authenticated keys c c' token (some cfg) h last e =
      elim (Bool-cases (token == "" || token == c.authorization)) [
        | inl bad ↦ absurd (abort-ne-pass (rw bad at e))
        | inr good ↦ elim (Bool-cases (model_allowed json cfg.allowed_models c)) [
          | inr denied ↦ absurd (abort-ne-pass (rw (good, denied) at e))
          | inl allowed ↦ (
            token,
            (
              cfg,
              (
                h (λ q. ground (arith, q, good, eq_iff token c.authorization)),
                (
                  λ q. ground (arith, q, good, eq_iff token ""),
                  (
                    last cfg refl,
                    (
                      model_allowed-MayUse cfg c allowed,
                      sym (pass-injective (rw (good, allowed) at e)),
                    ),
                  ),
                ),
              ),
            ),
          )
        ]
      ]

  -- A request for a path that is not open passes the authentication only with a header that is
  -- "Bearer " and a token that is not empty, where the configuration that comes last among those with
  -- the token as key permits every model by `["*"]`, or names the model of the body, or the body names
  -- no model; and it passes with the key, the name and the rate limit of that configuration set.
  pub auth_middleware-Authenticated :
      (keys : List ApiKeyConfig) (c c' : GinContext)
      → is_open_path c.path ≡ false
      → auth_middleware json keys c ≡ pass c'
      → Authenticated keys c c'
  unfolding auth_middleware Found
  auth_middleware-Authenticated keys c c' closed e =
      let token = bearer_token c.authorization in
      authorize-Authenticated keys c c' token (lookup token (allowed_keys keys []))
        (bearer_token-append c.authorization)
        (λ cfg found. elim (lookup-allowed_keys token cfg keys [] found) [
          | inl last ↦ last
          | inr (missing, others) ↦ absurd (Option.none-ne-some cfg (unfold lookup in missing))
        ])
        (rw closed at e)
