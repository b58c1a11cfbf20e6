-- ===== src/Telemetry/Tests.antt =====
-- One request, from its start to its end (internal/telemetry/genai.go).
use rocm_llamacpp_envoy_ai_g.Prelude.{
  ◌+◌, ◌≡◌, String, refl, true, false, Option, none, some, List, [], ◌∷◌, length,
}
use rocm_llamacpp_envoy_ai_g.GoMap
use rocm_llamacpp_envoy_ai_g.Telemetry.Instruments.{
  active_requests, token_usage, request_tokens_total, response_tokens_total, name_of,
}
use rocm_llamacpp_envoy_ai_g.Telemetry.Instruments.Names.{find_name, all_metrics, find_name-name_of}
use rocm_llamacpp_envoy_ai_g.Telemetry.Attributes.{
  RequestParams, build_attributes, common_attributes,
}
use rocm_llamacpp_envoy_ai_g.Telemetry.Attributes.Laws.{
  last_value, as_value, or_value, last_value-build_attributes,
}
use rocm_llamacpp_envoy_ai_g.Telemetry.Provider.{
  Config, default_config, Sdk, SdkProvider, tracer_provider, meter_provider, initialize,
}
use rocm_llamacpp_envoy_ai_g.Telemetry.Provider.Laws.{Owned, initialize-Owned}
use rocm_llamacpp_envoy_ai_g.Telemetry.Recorder.{
  Measurement, RequestRecorder, ResponseParams, start_request, record_first_token, end_request,
}
use rocm_llamacpp_envoy_ai_g.Telemetry.History.{
  Run, begins, starts, first_token, ends, anything, ups, downs,
}
use rocm_llamacpp_envoy_ai_g.Telemetry.History.Active.{active_requests-Run}
use rocm_llamacpp_envoy_ai_g.Telemetry.History.Tokens.{token_usage-Run}

abbrev params : RequestParams
params = record {
  operation = "chat";
  model = "qwen";
  provider = "rocm-vllm";
  system = "";
  target_pod = "server-0";
  target_node = "";
  span_kind = "LLM";
  attributes = ("user.id", "u1") ∷ ("gen_ai.system", "llama.cpp") ∷ [];
  input_tokens = 12;
}

abbrev resp : ResponseParams
resp = record { output_tokens = 30; cache_hit_tokens = 4; response_model = "qwen"; error = none }

-- The parameters after the response, which the caller has changed.
abbrev later_params : RequestParams
later_params = record params { target_node = "node-b" }

abbrev started : List Measurement × RequestRecorder
started = start_request [] params 100

abbrev streaming : List Measurement × RequestRecorder
streaming = record_first_token started.0 started.1 params 150

abbrev served : List Measurement
served = (end_request streaming.0 streaming.1 later_params resp 400 401).0

streaming_run : Run streaming.0 (streaming.1 ∷ [])
streaming_run = first_token [] started.1 [] (starts begins params 100) params 150

served_run : Run served []
served_run = ends [] streaming.1 [] streaming_run later_params resp 400 401

abbrev no_requests : List RequestRecorder
no_requests = []

active_requests-Run_example :
    ups active_requests anything served ≡ downs active_requests anything served + length no_requests
active_requests-Run_example = active_requests-Run served_run

tokens_counted :
    ups token_usage anything served
    ≡ ups request_tokens_total anything served + ups response_tokens_total anything served
tokens_counted = token_usage-Run served_run

used : ups token_usage anything served ≡ 42
unfolding ups name_of start_request record_first_token end_request
used = refl

last_value-build_attributes_example :
    last_value (build_attributes params) "gen_ai.system"
    ≡ or_value
        (as_value (GoMap.get params.attributes "gen_ai.system"))
        (last_value (common_attributes params) "gen_ai.system")
unfolding GoMap.get
last_value-build_attributes_example =
    last_value-build_attributes params "gen_ai.system" (refl, (refl, tt))

found_again : find_name all_metrics (name_of active_requests) ≡ some active_requests
found_again = find_name-name_of active_requests

abbrev sdk : Sdk
sdk = record {
  creates_resource = true;
  creates_trace_exporter = λ endpoint. true;
  creates_prometheus_exporter = true;
  creates_otlp_exporter = λ endpoint. false;
  starts_runtime = true;
  starts_host = false;
}

abbrev traced : Config
traced = record default_config { otlp_endpoint = "localhost:4317"; otlp_traces_enabled = true }

abbrev stop : SdkProvider → Option String
stop tracer_provider = some "deadline exceeded"
stop (meter_provider opts) = none

initialize-Owned_example : Owned sdk traced stop (initialize sdk traced)
initialize-Owned_example = initialize-Owned sdk traced stop
