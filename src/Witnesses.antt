-- ===== src/Witnesses.antt =====
-- Test data, and the theorems at concrete inputs. The children are named for the parts.
pub mod Admitting
pub mod Breaking
pub mod Balancing
pub mod Routing
pub mod Caching
pub mod Storing
pub mod Reusing
pub mod Repeating
pub mod Serving
pub mod Starting
pub mod Wired
use momu_llmgateway.Base.{
  String, Option, none, some, List, [], ◌∷◌, ◌==◌, true, false, if◌then◌else◌,
}
use momu_llmgateway.Base.Float.{FloatOps, Float64}
use momu_llmgateway.Base.Int.{ℤ, pos}
use momu_llmgateway.Fallback.{Engine, Context, SendFunc}
use momu_llmgateway.Model.{
  Message, StandardRequest, StandardResponse, StreamChunk, Provider, Result, ok, err, other_error,
}

-- The state of these tests: the names of the calls made.
abbrev pub World : Type 0
World = List String

abbrev pub hello : StandardRequest
hello = record {
  request_id = "r1";
  model = "small";
  messages = record { role = "user"; content = "hello" } ∷ [];
  stream = false;
  temperature = none;
  max_tokens = none;
  task_type = "";
  metadata = [];
}

abbrev pub greeting : StandardResponse
greeting = record {
  id = "1";
  model = "small";
  provider = "";
  choices = [];
  usage = record { prompt_tokens = pos 1; completion_tokens = pos 2; total_tokens = pos 3 };
  cache_hit = false;
}

-- A provider of the models `small` and `large`.
abbrev pub provider_a : Provider World
provider_a = record {
  name = "a";
  models = "small" ∷ "large" ∷ [];
  send = λ req s. ("send" ∷ s, ok greeting);
  send_stream = λ req s. ("stream" ∷ s, ok []);
  health_check = λ s. (s, none);
}

-- A provider of `small`, which does not answer.
abbrev pub provider_b : Provider World
provider_b = record {
  name = "b";
  models = "small" ∷ [];
  send = λ req s. ("failed" ∷ s, err (other_error "connection refused"));
  send_stream = λ req s. (s, err (other_error "connection refused"));
  health_check = λ s. (s, none);
}

abbrev pub engine : Engine
engine = record {
  chains = ("small", "large" ∷ []) ∷ [];
  retry_max = pos 1;
  retry_backoff = pos 5;
  default_msg = "unavailable";
}

-- A context that is never done.
abbrev pub live_context : Context World
live_context = record { error = λ s. none; wait = λ d s. ("wait" ∷ s, none) }

-- Only `large` answers.
abbrev pub send_large : SendFunc World
send_large provider model s =
    (model ∷ s, (if model == "large" then ok greeting else err (other_error "connection refused")))

-- An arithmetic for the tests: the operations are not those of float64.
abbrev pub test_ops : FloatOps
test_ops = record { add = λ x y. y; mul = λ x y. y; div = λ x y. x; sqrt = λ x. x }
