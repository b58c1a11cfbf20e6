-- ===== src/Telemetry/Instruments.antt =====
-- The instruments of GenAIMetrics (internal/telemetry/genai.go: NewGenAIMetrics, createMetrics,
-- createCoreMetrics, createTokenMetrics, createModelMetrics). The meter is a function that tells whether it
-- creates an instrument.
pub mod Names
use rocm_llamacpp_envoy_ai_g.Prelude.{
  ℕ, String, Bool, Option, none, some, List, [], ◌∷◌, if◌then◌else◌,
}

pub data Instrument : Type 0 where
  token_usage request_duration time_to_first_token time_per_output_token active_requests
        requests_total :
      Instrument
  request_tokens_total response_tokens_total cache_hit_tokens_total : Instrument
  model_load_duration model_memory_usage routing_decision_count : Instrument

pub data Kind : Type 0 where
  int_counter float_histogram int_up_down_counter int_gauge : Kind

unfoldable pub name_of : Instrument → String
name_of token_usage = "gen_ai.client.token.usage"
name_of request_duration = "gen_ai.server.request.duration"
name_of time_to_first_token = "gen_ai.server.time_to_first_token"
name_of time_per_output_token = "gen_ai.server.time_per_output_token"
name_of active_requests = "gen_ai.server.active_requests"
name_of requests_total = "gen_ai.server.requests_total"
name_of request_tokens_total = "gen_ai.server.request_tokens_total"
name_of response_tokens_total = "gen_ai.server.response_tokens_total"
name_of cache_hit_tokens_total = "gen_ai.server.cache_hit_tokens_total"
name_of model_load_duration = "gen_ai.server.model_load.duration"
name_of model_memory_usage = "gen_ai.server.model.memory_usage"
name_of routing_decision_count = "gen_ai.server.routing.decisions_total"

abbrev pub kind_of : Instrument → Kind
kind_of token_usage = int_counter
kind_of request_duration = float_histogram
kind_of time_to_first_token = float_histogram
kind_of time_per_output_token = float_histogram
kind_of active_requests = int_up_down_counter
kind_of requests_total = int_counter
kind_of request_tokens_total = int_counter
kind_of response_tokens_total = int_counter
kind_of cache_hit_tokens_total = int_counter
kind_of model_load_duration = float_histogram
kind_of model_memory_usage = int_gauge
kind_of routing_decision_count = int_counter

-- The explicit bucket boundaries of the histograms, in milliseconds.
abbrev pub request_duration_buckets : List ℕ
request_duration_buckets =
    5 ∷ 10 ∷ 25 ∷ 50 ∷ 100 ∷ 250 ∷ 500 ∷ 1000 ∷ 2500 ∷ 5000 ∷ 10000 ∷ 30000 ∷ 60000 ∷ []

abbrev pub time_to_first_token_buckets : List ℕ
time_to_first_token_buckets = 1 ∷ 5 ∷ 10 ∷ 25 ∷ 50 ∷ 100 ∷ 250 ∷ 500 ∷ 1000 ∷ 2500 ∷ 5000 ∷ []

abbrev pub time_per_token_buckets : List ℕ
time_per_token_buckets = 1 ∷ 5 ∷ 10 ∷ 25 ∷ 50 ∷ 100 ∷ 250 ∷ 500 ∷ 1000 ∷ []

abbrev pub model_load_duration_buckets : List ℕ
model_load_duration_buckets = 1000 ∷ 5000 ∷ 10000 ∷ 30000 ∷ 60000 ∷ 120000 ∷ 300000 ∷ 600000 ∷ []

abbrev pub boundaries_of : Instrument → List ℕ
boundaries_of token_usage = []
boundaries_of request_duration = request_duration_buckets
boundaries_of time_to_first_token = time_to_first_token_buckets
boundaries_of time_per_output_token = time_per_token_buckets
boundaries_of active_requests = []
boundaries_of requests_total = []
boundaries_of request_tokens_total = []
boundaries_of response_tokens_total = []
boundaries_of cache_hit_tokens_total = []
boundaries_of model_load_duration = model_load_duration_buckets
boundaries_of model_memory_usage = []
boundaries_of routing_decision_count = []

abbrev pub core_metrics : List Instrument
core_metrics =
    token_usage ∷ request_duration ∷ time_to_first_token ∷ time_per_output_token ∷ active_requests
    ∷ requests_total ∷ []

abbrev pub token_metrics : List Instrument
token_metrics = request_tokens_total ∷ response_tokens_total ∷ cache_hit_tokens_total ∷ []

abbrev pub model_metrics : List Instrument
model_metrics = model_load_duration ∷ model_memory_usage ∷ routing_decision_count ∷ []

-- What a meter is asked for.
abbrev pub Meter : Type 0
Meter = Kind → String → List ℕ → Bool

-- The instruments in turn, until one is not created: the error is for that one, `none` for nil.
unfoldable pub create_instruments : Meter → List Instrument → Option Instrument
unfolding name_of
create_instruments meter [] = none
create_instruments meter (i ∷ instruments) =
    let rest = create_instruments meter instruments in
    if meter (kind_of i) (name_of i) (boundaries_of i) then rest else some i

abbrev pub or_next : Option Instrument → Option Instrument → Option Instrument
or_next (some i) next = some i
or_next none next = next

unfoldable pub create_metrics : Meter → Option Instrument
unfolding create_instruments
create_metrics meter =
    or_next (create_instruments meter core_metrics)
      (or_next (create_instruments meter token_metrics) (create_instruments meter model_metrics))
