-- ===== src/Wiring/Service.antt =====
-- The chat service that `main` builds: its collaborators over one state, that of the balancer, the
-- circuit breakers and the world outside. The clock is read off the world; the semantic cache, the
-- request's context and the timers are parameters, and the Prometheus counters are left out.
use momu_llmgateway.Base.{ℕ, String, Option, none, some, List}
use momu_llmgateway.Base.Int.{ℤ}
use momu_llmgateway.Config.{Config, ProviderConfig}
use momu_llmgateway.Decision.Balancer.{Num, Balancer}
use momu_llmgateway.Decision.Router.{route}
use momu_llmgateway.Egress.Anthropic.{AnthropicJson}
use momu_llmgateway.Egress.Http.{HttpClient}
use momu_llmgateway.Egress.OpenAi.{OpenAiJson}
use momu_llmgateway.Fallback.{Context, execute}
use momu_llmgateway.Ingress.Breakers
use momu_llmgateway.Ingress.Breakers.{Manager}
use momu_llmgateway.Ingress.Service.{Services, CacheOps}
use momu_llmgateway.Model.{StandardRequest, Provider}
use momu_llmgateway.Wiring.{router_of, provider_lookup, engine_of}

pub record Gateway (N W : Type 0) : Type 0 where
  pub balancer : Balancer N
  pub manager : Manager
  pub world : W

module _ {N W : Type 0} where
  abbrev pub in_world {ℓ} : {A : Type ℓ} → Gateway N W → W × A → Gateway N W × A
  in_world g (w, a) = (record g { world = w }, a)

  -- A provider, which sees and changes the world alone.
  abbrev pub lift_provider : Provider W → Provider (Gateway N W)
  lift_provider p = record {
    name = p.name;
    models = p.models;
    send = λ req g. in_world g (p.send req g.world);
    send_stream = λ req g. in_world g (p.send_stream req g.world);
    health_check = λ g. in_world g (p.health_check g.world);
  }

  abbrev pub lift_found : Option (Provider W) → Option (Provider (Gateway N W))
  lift_found none = none
  lift_found (some p) = some (lift_provider p)

  abbrev pub with_balancer {ℓ} : {A : Type ℓ} → Gateway N W → Balancer N × A → Gateway N W × A
  with_balancer g (b, a) = (record g { balancer = b }, a)

  abbrev pub with_manager {ℓ} : {A : Type ℓ} → Gateway N W → Manager × A → Gateway N W × A
  with_manager g (m, a) = (record g { manager = m }, a)

module _ {N W : Type 0} (anthropic : AnthropicJson) (open_ai : OpenAiJson) (http : ℤ → HttpClient W)
    (num : Num N) (now : W → ℕ) (pcs : List (String × ProviderConfig)) (cfg : Config)
    (semantic : Option (StandardRequest → List String)) (cache : Option (CacheOps (Gateway N W)))
    (ctx : Context (Gateway N W)) where
  -- `NewChatService` with the parts of `main`.
  unfoldable pub chat_service : Services (Gateway N W)
  unfolding router_of provider_lookup engine_of route Breakers.allow Breakers.record_success
      Breakers.record_failure execute
  chat_service = record {
    route = λ req g.
        with_balancer g
          (route num (router_of anthropic open_ai http num pcs cfg semantic) req g.balancer);
    allow =
        λ provider model g. with_manager g (Breakers.allow (now g.world) provider model g.manager);
    record_success =
        λ provider model g. record g { manager = Breakers.record_success provider model g.manager };
    record_failure = λ provider model g. record g {
      manager = Breakers.record_failure (now g.world) provider model g.manager;
    };
    cache = cache;
    execute = λ provider model send g. execute ctx (engine_of cfg) provider model send g;
    provider_lookup = λ name. lift_found (provider_lookup anthropic open_ai http pcs name);
    count = λ metric g. g;
  }
