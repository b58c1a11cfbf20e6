-- ===== src/Telemetry/History/Active.antt =====
-- The counter of active requests in every history (internal/telemetry/genai.go).
use rocm_llamacpp_envoy_ai_g.Prelude.{
  ℕ, ◌+◌, ◌≡◌, refl, inl, inr, Bool, Option, none, some, List, ◌∷◌, ◌++◌, arith, Bool-cases, ltb,
  length, length-append, if◌then◌else◌,
}
use rocm_llamacpp_envoy_ai_g.Telemetry.Instruments.{active_requests, name_of}
use rocm_llamacpp_envoy_ai_g.Telemetry.Attributes.{KeyValue, RequestParams, build_attributes}
use rocm_llamacpp_envoy_ai_g.Telemetry.Recorder.{
  Measurement, RequestRecorder, ResponseParams, input_measurements, start_measurements,
  start_request, record_first_token, per_token_measurements, output_measurements,
  cache_measurements, end_measurements, end_request, record_routing_decision, record_model_load,
  record_model_memory,
}
use rocm_llamacpp_envoy_ai_g.Telemetry.History.{
  Run, begins, starts, first_token, ends, routes, loads, uses_memory, anything, counts, ups, downs,
}
use rocm_llamacpp_envoy_ai_g.Telemetry.History.Laws.{ups-append, downs-append}

module _ (is : List KeyValue → Bool) where
  abbrev Balanced : List Measurement → ℕ → Type 0
  Balanced ms n = ups active_requests is ms ≡ downs active_requests is ms + n

  append-Balanced :
      (xs ys : List Measurement) (n n' u d : ℕ)
      → Balanced xs n
      → ups active_requests is ys ≡ u
      → downs active_requests is ys ≡ d
      → n + u ≡ n' + d
      → Balanced (xs ++ ys) n'
  append-Balanced xs ys n n' u d b eu ed e = ground (
    arith,
    ups-append active_requests is xs ys,
    downs-append active_requests is xs ys,
    b,
    eu,
    ed,
    e,
  )

  input_quiet :
      (n : ℕ) (attrs : List KeyValue)
      → (ups active_requests is (input_measurements n attrs) ≡ 0)
        × (downs active_requests is (input_measurements n attrs) ≡ 0)
  unfolding ups downs counts name_of
  input_quiet n attrs = elim (Bool-cases (ltb 0 n)) [
    | inl e ↦ rw e (refl, refl)
    | inr e ↦ rw e (refl, refl)
  ]

  start_balance :
      (p : RequestParams) (attrs : List KeyValue)
      → (ups active_requests is (start_measurements p attrs) ≡ (if is attrs then 1 else 0))
        × (downs active_requests is (start_measurements p attrs) ≡ 0)
  unfolding ups downs counts name_of
  start_balance p attrs = ground (arith, input_quiet p.input_tokens attrs)

  per_token_quiet :
      (o : Option ℕ) (later n : ℕ) (attrs : List KeyValue)
      → (ups active_requests is (per_token_measurements o later n attrs) ≡ 0)
        × (downs active_requests is (per_token_measurements o later n attrs) ≡ 0)
  unfolding ups downs counts name_of
  per_token_quiet none later n attrs = (refl, refl)
  per_token_quiet (some t) later n attrs = (refl, refl)

  output_quiet :
      (r : RequestRecorder) (later n : ℕ) (attrs : List KeyValue)
      → (ups active_requests is (output_measurements r later n attrs) ≡ 0)
        × (downs active_requests is (output_measurements r later n attrs) ≡ 0)
  unfolding ups downs counts name_of
  output_quiet r later n attrs = elim (Bool-cases (ltb 0 n)) [
    | inl e ↦ rw e (ground (arith, per_token_quiet r.first_token later n attrs))
    | inr e ↦ rw e (refl, refl)
  ]

  cache_quiet :
      (n : ℕ) (attrs : List KeyValue)
      → (ups active_requests is (cache_measurements n attrs) ≡ 0)
        × (downs active_requests is (cache_measurements n attrs) ≡ 0)
  unfolding ups downs counts name_of
  cache_quiet n attrs = elim (Bool-cases (ltb 0 n)) [
    | inl e ↦ rw e (refl, refl)
    | inr e ↦ rw e (refl, refl)
  ]

  end_balance :
      (r : RequestRecorder) (resp : ResponseParams) (now later : ℕ) (attrs : List KeyValue)
      → (ups active_requests is (end_measurements r resp now later attrs) ≡ 0)
        × (downs active_requests is (end_measurements r resp now later attrs)
            ≡ (if is attrs then 1 else 0))
  unfolding ups downs counts name_of
  end_balance r resp now later attrs =
      let out = output_measurements r later resp.output_tokens attrs in
      let cache = cache_measurements resp.cache_hit_tokens attrs in
      ground (
        arith,
        output_quiet r later resp.output_tokens attrs,
        cache_quiet resp.cache_hit_tokens attrs,
        ups-append active_requests is out cache,
        downs-append active_requests is out cache,
      )

length-among :
    (xs : List RequestRecorder) (r : RequestRecorder) (ys : List RequestRecorder)
    → length (xs ++ r ∷ ys) ≡ length (xs ++ ys) + 1
length-among xs r ys = omega (arith, length-append xs (r ∷ ys), length-append xs ys)

-- In every history in which each request is ended at most once, and whatever becomes of its parameters
-- between its calls: the increments of the counter of active requests are its decrements and the number
-- of the requests in flight. So over all attributes together the counter is the number of requests in
-- flight, and is zero when there is none.
pub active_requests-Run :
    {ms : List Measurement} {open_requests : List RequestRecorder}
    → Run ms open_requests
    → ups active_requests anything ms ≡ downs active_requests anything ms + length open_requests
unfolding ups downs start_request record_first_token end_request record_routing_decision
    record_model_load record_model_memory
active_requests-Run begins = refl
active_requests-Run (starts {ms = ms} {open_requests = rs} h p now) =
    let (u, d) = start_balance anything p (build_attributes p) in
    append-Balanced anything ms _ (length rs) _ _ _ (active_requests-Run h) u d (ground arith)
active_requests-Run (first_token {ms = ms} before r rest h p now) =
    append-Balanced anything ms _ (length (before ++ r ∷ rest)) _ 0 0 (active_requests-Run h) refl
      refl
      (ground (
        arith,
        length-among before r rest,
        length-among before (record_first_token ms r p now).1 rest,
      ))
active_requests-Run (ends {ms = ms} before r rest h p resp now later) =
    let (u, d) = end_balance anything r resp now later (build_attributes p) in
    append-Balanced anything ms _ (length (before ++ r ∷ rest)) _ _ _ (active_requests-Run h) u d
      (ground (arith, length-among before r rest))
active_requests-Run (routes {ms = ms} h model pod node reason) =
    append-Balanced anything ms _ _ _ 0 0 (active_requests-Run h) refl refl refl
active_requests-Run (loads {ms = ms} h model node took memory) =
    append-Balanced anything ms _ _ _ 0 0 (active_requests-Run h) refl refl refl
active_requests-Run (uses_memory {ms = ms} h model node memory) =
    append-Balanced anything ms _ _ _ 0 0 (active_requests-Run h) refl refl refl
