-- ===== src/Telemetry/History.antt =====
-- The requests in flight and what has been recorded (internal/telemetry/genai.go: StartRequest,
-- RecordFirstToken, End). Every request that was started is ended at most once; its parameters may have
-- changed between two calls.
pub mod Laws
pub mod Active
pub mod Tokens
use rocm_llamacpp_envoy_ai_g.Prelude.{
  ℕ, ◌+◌, String, ◌≡◌, refl, sym, ◌∙◌, ap, inl, inr, Bool, true, false, ◌&&◌, Option, none, some,
  List, [], ◌∷◌, ◌++◌, arith, Bool-cases, ltb, ◌==◌, if◌then◌else◌,
}
use rocm_llamacpp_envoy_ai_g.Telemetry.Instruments.{
  Instrument, token_usage, active_requests, request_tokens_total, response_tokens_total, name_of,
}
use rocm_llamacpp_envoy_ai_g.Telemetry.Attributes.{KeyValue, RequestParams, build_attributes}
use rocm_llamacpp_envoy_ai_g.Telemetry.Recorder.{
  Amount, plus, minus, level, duration, duration_over, Measurement, RequestRecorder, ResponseParams,
  input_measurements, start_measurements, start_request, record_first_token, per_token_measurements,
  output_measurements, cache_measurements, end_measurements, end_request, record_routing_decision,
  record_model_load, record_model_memory,
}

-- What has been recorded, and the recorders of the requests that have not ended.
pub data Run : List Measurement → List RequestRecorder → Type 0 where
  begins : Run [] []
  starts :
      {ms : List Measurement} {open_requests : List RequestRecorder}
      → Run ms open_requests
      → (p : RequestParams) (now : ℕ)
      → Run (start_request ms p now).0 ((start_request ms p now).1 ∷ open_requests)
  first_token :
      {ms : List Measurement} (before : List RequestRecorder) (r : RequestRecorder)
      (rest : List RequestRecorder)
      → Run ms (before ++ r ∷ rest)
      → (p : RequestParams) (now : ℕ)
      → Run (record_first_token ms r p now).0 (before ++ (record_first_token ms r p now).1 ∷ rest)
  ends :
      {ms : List Measurement} (before : List RequestRecorder) (r : RequestRecorder)
      (rest : List RequestRecorder)
      → Run ms (before ++ r ∷ rest)
      → (p : RequestParams) (resp : ResponseParams) (now later : ℕ)
      → Run (end_request ms r p resp now later).0 (before ++ rest)
  routes :
      {ms : List Measurement} {open_requests : List RequestRecorder}
      → Run ms open_requests
      → (model target_pod target_node reason : String)
      → Run (record_routing_decision ms model target_pod target_node reason) open_requests
  loads :
      {ms : List Measurement} {open_requests : List RequestRecorder}
      → Run ms open_requests
      → (model node : String) (took memory_bytes : ℕ)
      → Run (record_model_load ms model node took memory_bytes) open_requests
  uses_memory :
      {ms : List Measurement} {open_requests : List RequestRecorder}
      → Run ms open_requests
      → (model node : String) (memory_bytes : ℕ)
      → Run (record_model_memory ms model node memory_bytes) open_requests

abbrev pub up_of : Amount → ℕ
up_of (plus n) = n
up_of (minus n) = 0
up_of (level n) = 0
up_of (duration n) = 0
up_of (duration_over n k) = 0

abbrev pub down_of : Amount → ℕ
down_of (plus n) = 0
down_of (minus n) = n
down_of (level n) = 0
down_of (duration n) = 0
down_of (duration_over n k) = 0

-- Whether the measurement is of the instrument, with attributes that pass the test.
unfoldable pub counts : Instrument → (List KeyValue → Bool) → Measurement → Bool
unfolding name_of
counts i is m = name_of m.instrument == name_of i && is m.attributes

-- The sums of the increments and of the decrements.
unfoldable pub ups : Instrument → (List KeyValue → Bool) → List Measurement → ℕ
unfolding counts
ups i is [] = 0
ups i is (m ∷ ms) = (if counts i is m then up_of m.amount else 0) + ups i is ms

unfoldable pub downs : Instrument → (List KeyValue → Bool) → List Measurement → ℕ
unfolding counts
downs i is [] = 0
downs i is (m ∷ ms) = (if counts i is m then down_of m.amount else 0) + downs i is ms

abbrev pub anything : List KeyValue → Bool
anything attrs = true
