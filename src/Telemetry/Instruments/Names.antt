-- ===== src/Telemetry/Instruments/Names.antt =====
-- The names of the instruments and the metrics that a meter creates (internal/telemetry/genai.go).
use rocm_llamacpp_envoy_ai_g.Prelude.{
  String, ◌≡◌, refl, Option, none, some, List, [], ◌∷◌, ◌==◌, if◌then◌else◌,
}
use rocm_llamacpp_envoy_ai_g.Telemetry.Instruments.{
  Instrument, token_usage, request_duration, time_to_first_token, time_per_output_token,
  active_requests, requests_total, request_tokens_total, response_tokens_total,
  cache_hit_tokens_total, model_load_duration, model_memory_usage, routing_decision_count, name_of,
}

-- The first of the instruments with this name.
abbrev pub find_name : List Instrument → String → Option Instrument
find_name [] name = none
find_name (i ∷ instruments) name =
    let rest = find_name instruments name in if name_of i == name then some i else rest

abbrev pub all_metrics : List Instrument
all_metrics =
    token_usage ∷ request_duration ∷ time_to_first_token ∷ time_per_output_token ∷ active_requests
    ∷ requests_total ∷ request_tokens_total ∷ response_tokens_total ∷ cache_hit_tokens_total
    ∷ model_load_duration ∷ model_memory_usage ∷ routing_decision_count ∷ []

-- Looking up the name under which an instrument is registered, among all instruments, gives this
-- instrument back: no two instruments have the same name.
pub find_name-name_of : (i : Instrument) → find_name all_metrics (name_of i) ≡ some i
unfolding name_of
find_name-name_of token_usage = refl
find_name-name_of request_duration = refl
find_name-name_of time_to_first_token = refl
find_name-name_of time_per_output_token = refl
find_name-name_of active_requests = refl
find_name-name_of requests_total = refl
find_name-name_of request_tokens_total = refl
find_name-name_of response_tokens_total = refl
find_name-name_of cache_hit_tokens_total = refl
find_name-name_of model_load_duration = refl
find_name-name_of model_memory_usage = refl
find_name-name_of routing_decision_count = refl
