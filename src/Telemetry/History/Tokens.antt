-- ===== src/Telemetry/History/Tokens.antt =====
-- The counters of tokens in every history (internal/telemetry/genai.go).
use rocm_llamacpp_envoy_ai_g.Prelude.{
  ℕ, ◌+◌, ◌≡◌, refl, inl, inr, Option, none, some, List, ◌++◌, arith, Bool-cases, ltb,
}
use rocm_llamacpp_envoy_ai_g.Telemetry.Instruments.{
  token_usage, request_tokens_total, response_tokens_total, name_of,
}
use rocm_llamacpp_envoy_ai_g.Telemetry.Attributes.{KeyValue, RequestParams, build_attributes}
use rocm_llamacpp_envoy_ai_g.Telemetry.Recorder.{
  Measurement, RequestRecorder, ResponseParams, input_measurements, start_measurements,
  start_request, record_first_token, per_token_measurements, output_measurements,
  cache_measurements, end_measurements, end_request, record_routing_decision, record_model_load,
  record_model_memory,
}
use rocm_llamacpp_envoy_ai_g.Telemetry.History.{
  Run, begins, starts, first_token, ends, routes, loads, uses_memory, anything, counts, ups,
}
use rocm_llamacpp_envoy_ai_g.Telemetry.History.Laws.{ups-append}

-- The tokens used are the input tokens and the output tokens.
abbrev pub Tallied : List Measurement → Type 0
Tallied ms =
    ups token_usage anything ms
    ≡ ups request_tokens_total anything ms + ups response_tokens_total anything ms

append-Tallied : (xs ys : List Measurement) → Tallied xs → Tallied ys → Tallied (xs ++ ys)
append-Tallied xs ys a b = ground (
  arith,
  ups-append token_usage anything xs ys,
  ups-append request_tokens_total anything xs ys,
  ups-append response_tokens_total anything xs ys,
  a,
  b,
)

input-Tallied : (n : ℕ) (attrs : List KeyValue) → Tallied (input_measurements n attrs)
unfolding ups counts name_of
input-Tallied n attrs = elim (Bool-cases (ltb 0 n)) [
  | inl e ↦ rw e (ground arith)
  | inr e ↦ rw e refl
]

start-Tallied : (p : RequestParams) (attrs : List KeyValue) → Tallied (start_measurements p attrs)
unfolding ups counts name_of
start-Tallied p attrs = ground (arith, input-Tallied p.input_tokens attrs)

per_token-Tallied :
    (o : Option ℕ) (later n : ℕ) (attrs : List KeyValue)
    → Tallied (per_token_measurements o later n attrs)
unfolding ups counts name_of
per_token-Tallied none later n attrs = refl
per_token-Tallied (some t) later n attrs = refl

output-Tallied :
    (r : RequestRecorder) (later n : ℕ) (attrs : List KeyValue)
    → Tallied (output_measurements r later n attrs)
unfolding ups counts name_of
output-Tallied r later n attrs = elim (Bool-cases (ltb 0 n)) [
  | inl e ↦ rw e (ground (arith, per_token-Tallied r.first_token later n attrs))
  | inr e ↦ rw e refl
]

cache-Tallied : (n : ℕ) (attrs : List KeyValue) → Tallied (cache_measurements n attrs)
unfolding ups counts name_of
cache-Tallied n attrs = elim (Bool-cases (ltb 0 n)) [ inl e ↦ rw e refl | inr e ↦ rw e refl ]

end-Tallied :
    (r : RequestRecorder) (resp : ResponseParams) (now later : ℕ) (attrs : List KeyValue)
    → Tallied (end_measurements r resp now later attrs)
unfolding ups counts name_of
end-Tallied r resp now later attrs =
    let out = output_measurements r later resp.output_tokens attrs in
    let cache = cache_measurements resp.cache_hit_tokens attrs in
    let both =
      append-Tallied out cache (output-Tallied r later resp.output_tokens attrs)
        (cache-Tallied resp.cache_hit_tokens attrs) in
    ground (arith, both)

-- In every history of requests the tokens counted as used are the input tokens counted at the start of
-- requests and the output tokens counted at their end, none of them twice.
pub token_usage-Run :
    {ms : List Measurement} {open_requests : List RequestRecorder}
    → Run ms open_requests
    → Tallied ms
unfolding ups counts name_of start_request record_first_token end_request record_routing_decision
    record_model_load record_model_memory
token_usage-Run begins = refl
token_usage-Run (starts {ms = ms} h p now) =
    append-Tallied ms _ (token_usage-Run h) (start-Tallied p (build_attributes p))
token_usage-Run (first_token {ms = ms} before r rest h p now) =
    append-Tallied ms _ (token_usage-Run h) refl
token_usage-Run (ends {ms = ms} before r rest h p resp now later) =
    append-Tallied ms _ (token_usage-Run h) (end-Tallied r resp now later (build_attributes p))
token_usage-Run (routes {ms = ms} h model pod node reason) =
    append-Tallied ms _ (token_usage-Run h) refl
token_usage-Run (loads {ms = ms} h model node took memory) =
    append-Tallied ms _ (token_usage-Run h) refl
token_usage-Run (uses_memory {ms = ms} h model node memory) =
    append-Tallied ms _ (token_usage-Run h) refl
