-- ===== src/Witnesses/Starting.antt =====
-- A start of the program without its embedding engine, at concrete values.
use momu_llmgateway.Base.{ℕ, true}
use momu_llmgateway.Config.{Config}
use momu_llmgateway.Embedding.Engine.{Runtime}
use momu_llmgateway.Model.{err, other_error}
use momu_llmgateway.Witnesses.{World}
use momu_llmgateway.Witnesses.Repeating.{runtime}
use momu_llmgateway.Witnesses.Wired.{config}

-- The files of the model are missing.
abbrev without_model : Runtime World ℕ ℕ ℕ
without_model = record runtime { read_file = λ path w. err (other_error "no such file") }

abbrev caching : Config
caching = record config { semantic_cache = record config.semantic_cache { enabled = true } }
