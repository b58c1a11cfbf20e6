-- ===== src/Telemetry/Recorder.antt =====
-- The recording of a request (internal/telemetry/genai.go: StartRequest, RecordFirstToken, End,
-- RecordRoutingDecision, RecordModelLoad, RecordModelMemory). What the instruments are given is a list,
-- in order; times are nanoseconds of a clock that does not go back. A recorder points to the parameters
-- of its caller: what they are when a method reads them is an argument of it, with the custom attributes
-- in the order in which the loop then visits them.
use rocm_llamacpp_envoy_ai_g.Prelude.{
  ℕ, ◌+◌, ◌-◌, String, Bool, true, false, not, Option, none, some, List, [], ◌∷◌, ◌++◌, ◌==◌, ltb,
  if◌then◌else◌,
}
use rocm_llamacpp_envoy_ai_g.Telemetry.Instruments.{
  Instrument, token_usage, request_duration, time_to_first_token, time_per_output_token,
  active_requests, requests_total, request_tokens_total, response_tokens_total,
  cache_hit_tokens_total, model_load_duration, model_memory_usage, routing_decision_count,
}
use rocm_llamacpp_envoy_ai_g.Telemetry.Attributes.{
  attr_request_model, attr_response_model, attr_token_type, attr_token_count_completion,
  attr_token_count_total, string, int, seconds, KeyValue, RequestParams, build_attributes,
  span_name,
}

-- What is recorded: an increment or decrement, a level, a duration, or a duration over a number of tokens.
pub data Amount : Type 0 where
  plus minus level duration : ℕ → Amount
  duration_over : ℕ → ℕ → Amount

pub record Measurement : Type 0 where
  pub instrument : Instrument
  pub amount : Amount
  pub attributes : List KeyValue

pub record Span : Type 0 where
  pub name : String
  pub attributes : List KeyValue
  pub events : List (String × List KeyValue)
  pub errors : List String
  pub is_ended : Bool

pub record RequestRecorder : Type 0 where
  pub start_time : ℕ
  pub span : Span
  pub first_token : Option ℕ

pub record ResponseParams : Type 0 where
  pub output_tokens : ℕ
  pub cache_hit_tokens : ℕ
  pub response_model : String
  pub error : Option String

abbrev pub measured : Instrument → Amount → List KeyValue → Measurement
measured i n attrs = record { instrument = i; amount = n; attributes = attrs }

abbrev pub token_type_input : KeyValue
token_type_input = (attr_token_type, string "input")

abbrev pub token_type_output : KeyValue
token_type_output = (attr_token_type, string "output")

abbrev pub input_measurements : ℕ → List KeyValue → List Measurement
input_measurements n attrs =
    if ltb 0 n
    then measured token_usage (plus n) (attrs ++ token_type_input ∷ [])
      ∷ measured request_tokens_total (plus n) attrs
      ∷ []
    else []

abbrev pub start_measurements : RequestParams → List KeyValue → List Measurement
start_measurements p attrs =
    measured active_requests (plus 1) attrs
    ∷ measured requests_total (plus 1) attrs
    ∷ input_measurements p.input_tokens attrs

unfoldable pub start_request :
    List Measurement → RequestParams → ℕ → List Measurement × RequestRecorder
unfolding build_attributes span_name
start_request ms p now = (
  ms ++ start_measurements p (build_attributes p),
  record {
    start_time = now;
    span = record {
      name = span_name p;
      attributes = build_attributes p;
      events = [];
      errors = [];
      is_ended = false;
    };
    first_token = none;
  },
)

unfoldable pub record_first_token :
    List Measurement → RequestRecorder → RequestParams → ℕ → List Measurement × RequestRecorder
unfolding build_attributes
record_first_token ms r p now = (
  ms ++ measured time_to_first_token (duration (now - r.start_time)) (build_attributes p) ∷ [],
  record r {
    span = record r.span {
      events =
          r.span.events
          ++ (
            "first_token_received",
            ("time_to_first_token_seconds", seconds (now - r.start_time)) ∷ [],
          )
            ∷ [];
    };
    first_token = some now;
  },
)

-- The time per token, `later` being when the clock is read again.
abbrev pub per_token_measurements : Option ℕ → ℕ → ℕ → List KeyValue → List Measurement
per_token_measurements none later n attrs = []
per_token_measurements (some first) later n attrs =
    measured time_per_output_token (duration_over (later - first) n) attrs ∷ []

abbrev pub output_measurements : RequestRecorder → ℕ → ℕ → List KeyValue → List Measurement
output_measurements r later n attrs =
    if ltb 0 n
    then measured token_usage (plus n) (attrs ++ token_type_output ∷ [])
      ∷ measured response_tokens_total (plus n) attrs
      ∷ per_token_measurements r.first_token later n attrs
    else []

abbrev pub cache_measurements : ℕ → List KeyValue → List Measurement
cache_measurements n attrs =
    if ltb 0 n then measured cache_hit_tokens_total (plus n) attrs ∷ [] else []

abbrev pub end_measurements :
    RequestRecorder → ResponseParams → ℕ → ℕ → List KeyValue → List Measurement
end_measurements r resp now later attrs =
    measured active_requests (minus 1) attrs
    ∷ measured request_duration (duration (now - r.start_time)) attrs
    ∷ (output_measurements r later resp.output_tokens attrs
        ++ cache_measurements resp.cache_hit_tokens attrs)

abbrev pub with_response_model : String → List KeyValue → List KeyValue
with_response_model model attrs =
    if not (model == "") then attrs ++ (attr_response_model, string model) ∷ [] else attrs

abbrev pub with_error : Option String → List String → List String
with_error none errors = errors
with_error (some e) errors = errors ++ e ∷ []

-- End; `now` and `later` are the two times it reads.
unfoldable pub end_request :
    List Measurement
    → RequestRecorder
    → RequestParams
    → ResponseParams
    → ℕ
    → ℕ
    → List Measurement × RequestRecorder
unfolding build_attributes
end_request ms r p resp now later = (
  ms ++ end_measurements r resp now later (build_attributes p),
  record r {
    span = record r.span {
      attributes = with_response_model resp.response_model (
          r.span.attributes
          ++ ("duration_seconds", seconds (now - r.start_time))
            ∷ (attr_token_count_completion, int resp.output_tokens)
            ∷ (attr_token_count_total, int (p.input_tokens + resp.output_tokens))
            ∷ []);
      errors = with_error resp.error r.span.errors;
      is_ended = true;
    };
  },
)

unfoldable pub record_routing_decision :
    List Measurement → String → String → String → String → List Measurement
record_routing_decision ms model target_pod target_node reason =
    ms
    ++ measured routing_decision_count (plus 1) (
        (attr_request_model, string model)
        ∷ ("target.pod", string target_pod)
        ∷ ("target.node", string target_node)
        ∷ ("routing.reason", string reason)
        ∷ [])
      ∷ []

abbrev pub on_node : String → String → List KeyValue
on_node model node = (attr_request_model, string model) ∷ ("node", string node) ∷ []

unfoldable pub record_model_load : List Measurement → String → String → ℕ → ℕ → List Measurement
record_model_load ms model node took memory_bytes =
    ms
    ++ measured model_load_duration (duration took) (on_node model node)
      ∷ measured model_memory_usage (level memory_bytes) (on_node model node)
      ∷ []

unfoldable pub record_model_memory : List Measurement → String → String → ℕ → List Measurement
record_model_memory ms model node memory_bytes =
    ms ++ measured model_memory_usage (level memory_bytes) (on_node model node) ∷ []
