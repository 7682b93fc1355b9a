-- ===== src/Ingress/Health/Items.antt =====
-- internal/ingress/health.go: the items of `Check`, each under the name of its check.
use momu_llmgateway.Base.{String, some, List, map, All, ◌≡◌}
use momu_llmgateway.Base.Dict.{lookup}
use momu_llmgateway.Ingress.Health.{Finished, HealthResult}
use mathlib.Core.List.Perm
use mathlib.Core.List.{Perm}
use mathlib.Core.Logic.Or

abbrev pub names : List Finished → List String
names = map (λ f. f.name)

-- Every check stands in a result under its name, with what it found.
abbrev pub IsReport : List Finished → HealthResult → Type 0
IsReport checks result = All (λ f. lookup f.name result.checks ≡ some f.item) checks
