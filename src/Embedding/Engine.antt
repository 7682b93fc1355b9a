-- ===== src/Embedding/Engine.antt =====
-- internal/embedding/engine.go, and `Init`, `Embed` and `Close` of internal/embedding/onnx.go: the one
-- embedding engine of the process. onnxruntime, the file system and the tokenizer's library are the
-- parameter `Runtime`, over a state `W`; a lock that is held during a call makes it one step.
use momu_llmgateway.Base.{
  ℕ, String, Bool, Option, none, some, List, [], ◌∷◌, if◌then◌else◌, ◌≡◌, refl,
}
use momu_llmgateway.Base.Float.{Float64, FloatOps}
use momu_llmgateway.Embedding.Pooling.{embed, default_max_length, default_embedding_dim}
use momu_llmgateway.Model.{◌<>◌, GoError, other_error, error_text, Result, ok, err}

-- The tokenizers are `T`, their configurations `C` and the sessions `D`. The configuration's files are
-- texts.
pub record Runtime (W C T D : Type 0) : Type 0 where
  pub set_library_path : String → W → W
  pub initialize_environment : W → W × Option GoError
  pub read_file : String → W → Result String
  pub parse_config : String → Result C
  pub tokenizer_from_file : C → String → W → Result T
  pub new_session : String → List String → List String → W → W × Result D
  pub encode : T → String → List ℕ
  pub run : D → List ℕ → List ℕ → List ℕ → Result (List Float64)
  pub destroy : D → W → W

-- `onnxConcrete`.
pub record Onnx (T D : Type 0) : Type 0 where
  pub tokenizer : T
  pub session : D

pub record EmbeddingEngine (T D : Type 0) : Type 0 where
  pub max_length : ℕ
  pub embedding_dim : ℕ
  pub onnx_impl : Option (Onnx T D)

-- The variables `once`, `engine` and `initErr` of the package.
pub record Package (T D : Type 0) : Type 0 where
  pub once_done : Bool
  pub engine : Option (EmbeddingEngine T D)
  pub init_err : Option GoError

abbrev pub wrapped : String → GoError → GoError
wrapped what e = other_error (what <> ": " <> error_text e)

module _ {W C T D : Type 0} (onnx : Runtime W C T D) where
  -- What a failure leaves, and an engine.
  abbrev pub broken : W → String → GoError → W × Package T D
  broken w what e =
      (w, record { once_done = Bool.true; engine = none; init_err = some (wrapped what e) })

  abbrev pub started : W → T → D → W × Package T D
  started w tokenizer session = (
    w,
    record {
      once_done = Bool.true;
      engine = some (record {
        max_length = default_max_length;
        embedding_dim = default_embedding_dim;
        onnx_impl = some (record { tokenizer = tokenizer; session = session });
      });
      init_err = none;
    },
  )

  -- The steps of the function that `once` runs, each on what the one before it gave.
  abbrev pub with_session : T → W × Result D → W × Package T D
  with_session tokenizer (w, err e) = broken w "load onnx session" e
  with_session tokenizer (w, ok session) = started w tokenizer session

  abbrev pub with_tokenizer : String → W → Result T → W × Package T D
  with_tokenizer model_path w (err e) = broken w "load tokenizer" e
  with_tokenizer model_path w (ok tokenizer) = with_session tokenizer (
      onnx.new_session (model_path <> "/model.onnx")
        ("input_ids" ∷ "attention_mask" ∷ "token_type_ids" ∷ []) ("last_hidden_state" ∷ []) w)

  abbrev pub with_config : String → W → Result C → W × Package T D
  with_config model_path w (err e) = broken w "parse tokenizer config" e
  with_config model_path w (ok config) =
      with_tokenizer model_path w
        (onnx.tokenizer_from_file config (model_path <> "/tokenizer.json") w)

  abbrev pub with_file : String → W → Result String → W × Package T D
  with_file model_path w (err e) = broken w "read tokenizer_config.json" e
  with_file model_path w (ok text) = with_config model_path w (onnx.parse_config text)

  abbrev pub with_environment : String → W × Option GoError → W × Package T D
  with_environment model_path (w, some e) = broken w "init onnx env" e
  with_environment model_path (w, none) =
      with_file model_path w (onnx.read_file (model_path <> "/tokenizer_config.json") w)

  unfoldable pub run_once : String → String → W → W × Package T D
  run_once lib_path model_path w =
      with_environment model_path (onnx.initialize_environment (onnx.set_library_path lib_path w))

  -- `Init`: the package after it, and its error.
  unfoldable pub init : String → String → W × Package T D → (W × Package T D) × Option GoError
  unfolding run_once
  init lib_path model_path (w, p) =
      let x = if p.once_done then (w, p) else run_once lib_path model_path w in (x, x.1.init_err)

  -- `Embed` of an engine.
  unfoldable pub embed_with :
      FloatOps → (ℕ → Float64) → EmbeddingEngine T D → List String → Result (List (List Float64))
  unfolding embed
  embed_with ops float_of e texts = elim e.onnx_impl [
    | none ↦ err (other_error "onnx engine not initialized")
    | some impl ↦ embed ops float_of (onnx.encode impl.tokenizer) (onnx.run impl.session) texts
  ]

  -- `Close`.
  unfoldable pub close : EmbeddingEngine T D → W → W
  close e w = elim e.onnx_impl [ none ↦ w | some impl ↦ onnx.destroy impl.session w ]

-- Before the first call of `Init`.
abbrev pub fresh : {T D : Type 0} → Package T D
fresh = record { once_done = Bool.false; engine = none; init_err = none }

-- The package has run `once`: it has an engine with a session, or an error, and not both.
pub data IsSettled {T D : Type 0} : Package T D → Type 0 where
  has_engine :
      (impl : Onnx T D)
      → IsSettled (record {
        once_done = Bool.true;
        engine = some (record {
          max_length = default_max_length;
          embedding_dim = default_embedding_dim;
          onnx_impl = some impl;
        });
        init_err = none;
      })
  has_error :
      (e : GoError) → IsSettled (record { once_done = Bool.true; engine = none; init_err = some e })

module _ {W C T D : Type 0} (onnx : Runtime W C T D) where
  with_environment-IsSettled :
      (model_path : String) (x : W × Option GoError)
      → IsSettled (with_environment onnx model_path x).1
  with_environment-IsSettled model_path (w, some e) = has_error (wrapped "init onnx env" e)
  with_environment-IsSettled model_path (w, none) =
      file (onnx.read_file (model_path <> "/tokenizer_config.json") w)
    where
      session : (tokenizer : T) (x : W × Result D) → IsSettled (with_session onnx tokenizer x).1
      session tokenizer (w, err e) = has_error (wrapped "load onnx session" e)
      session tokenizer (w, ok d) = has_engine (record { tokenizer = tokenizer; session = d })

      tokenizer : (r : Result T) → IsSettled (with_tokenizer onnx model_path w r).1
      tokenizer (err e) = has_error (wrapped "load tokenizer" e)
      tokenizer (ok t) = session t _

      config : (r : Result C) → IsSettled (with_config onnx model_path w r).1
      config (err e) = has_error (wrapped "parse tokenizer config" e)
      config (ok c) = tokenizer (onnx.tokenizer_from_file c (model_path <> "/tokenizer.json") w)

      file : (r : Result String) → IsSettled (with_file onnx model_path w r).1
      file (err e) = has_error (wrapped "read tokenizer_config.json" e)
      file (ok text) = config (onnx.parse_config text)

  settled_again :
      (lib_path model_path : String) (w : W) (p : Package T D)
      → IsSettled p
      → init onnx lib_path model_path (w, p) ≡ ((w, p), p.init_err)
  unfolding init
  settled_again lib_path model_path w _ (has_engine impl) = refl
  settled_again lib_path model_path w _ (has_error e) = refl

  -- After the first call of `Init` there is an engine, and that with a session, or an error; and every
  -- later call, whatever its paths, changes nothing and returns what the first did.
  pub init-IsSettled :
      (lib_path model_path : String) (w : W)
      → IsSettled (init onnx lib_path model_path (w, fresh)).0.1
        × ((lib_path' model_path' : String)
            → init onnx lib_path' model_path' (init onnx lib_path model_path (w, fresh)).0
              ≡ init onnx lib_path model_path (w, fresh))
  unfolding init
  init-IsSettled lib_path model_path w =
      let settled =
        with_environment-IsSettled model_path
          (onnx.initialize_environment (onnx.set_library_path lib_path w)) in
      (settled, λ lib_path' model_path'. settled_again lib_path' model_path' _ _ settled)
