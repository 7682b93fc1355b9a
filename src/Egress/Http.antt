-- ===== src/Egress/Http.antt =====
-- What the adapters of internal/egress use of net/http and bufio. The client is a parameter; it also
-- gives the error of building a request. A response carries its body read whole, and the lines that a
-- `bufio.Scanner` makes of it with the scanner's error; a line is a list of code points.
use momu_llmgateway.Base.{ℕ, String, Bool, Option, none, some, List, [], ◌∷◌}
use momu_llmgateway.Model.{
  new_error, err_code_provider_error, GoError, error_text, StreamChunk, Result, ok, err,
}

abbrev pub Line : Type 0
Line = List ℕ

pub record HttpRequest : Type 0 where
  pub method : String
  pub url : String
  pub headers : List (String × String)
  pub body : String

pub record HttpResponse : Type 0 where
  pub status_code : ℕ
  pub status : String
  pub body : String
  pub lines : List Line
  pub scan_error : Option GoError

abbrev pub HttpClient : Type 0 → Type 0
HttpClient W = HttpRequest → W → W × Result HttpResponse

-- `model.StreamChunk{}`.
abbrev pub empty_chunk : StreamChunk
empty_chunk = record {
  id = "";
  model = "";
  delta = record { role = ""; content = "" };
  done = Bool.false;
  error = none;
}

-- `model.StreamChunk{Done: true}`.
abbrev pub done_chunk : StreamChunk
done_chunk = record empty_chunk { done = Bool.true }

-- The chunk that a stream loop sends for an error.
abbrev pub error_chunk : GoError → StreamChunk
error_chunk e = record empty_chunk {
  error = Option.some (new_error err_code_provider_error (error_text e));
}

-- What a stream loop sends when the scanner has stopped.
abbrev pub scan_end : Option GoError → List StreamChunk
scan_end none = []
scan_end (some e) = error_chunk e ∷ []

-- `HealthCheck` of both adapters.
abbrev pub health_result {ℓ} : {W : Type ℓ} → W × Result HttpResponse → W × Option GoError
health_result (w, ok resp) = (w, none)
health_result (w, err e) = (w, some e)

abbrev pub get_request : String → HttpRequest
get_request url = record { method = "GET"; url = url; headers = []; body = "" }
