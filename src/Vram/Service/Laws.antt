-- ===== src/Vram/Service/Laws.antt =====
-- What the instrumentation shows of the metrics, and when a scrape panics (internal/vram: scrapeMetrics,
-- NewTrackerWithMeter, RecordMetrics, observeCallback).
use rocm_llamacpp_envoy_ai_g.Prelude.{
  ℕ, String, ◌≡◌, refl, sym, ◌∙◌, ap, ◌↔◌, inl, inr, Bool, true, false, not, Bool-cases, Option,
  none, some, List, [], ◌∷◌, arith, ◌&&◌, ◌==◌, if◌then◌else◌,
}
use rocm_llamacpp_envoy_ai_g.GoMap
use rocm_llamacpp_envoy_ai_g.GoMap.{GoMap, Distinct}
use rocm_llamacpp_envoy_ai_g.Vram.Types.{Result, ok, err, Metrics, MetricsEndpoint}
use rocm_llamacpp_envoy_ai_g.Vram.Discovery.{
  KubernetesDiscoveryConfig, new_kubernetes_discovery, discover_endpoints,
}
use rocm_llamacpp_envoy_ai_g.Vram.Tracker.{
  copy_metrics, get_metrics, store, scrape_all, scrape_metrics,
}
use rocm_llamacpp_envoy_ai_g.Vram.Instrumentation.{
  Gauge, total_gauge, used_gauge, available_gauge, gauge_name, Meter, OtelInstrumentation, created,
  failed, Created, new_otel_instrumentation, or_nil, must_new_otel_instrumentation, record_metrics,
  Observation, observe_entries, observe_callback, Instrumentation, absent, noop, otel,
  call_record_metrics,
}
use rocm_llamacpp_envoy_ai_g.Vram.Service.{
  Service, new_kubernetes_tracker, new_tracker_with_meter, discovered, with_recorded,
  scrape_and_record, scrape,
}
use rocm_llamacpp_envoy_ai_g.Vram.Tracker.Copies.{
  or_metrics-none, get-copy_metrics, copy_metrics-Distinct,
}

-- The value observed for a node.
abbrev pub observed : List Observation → Gauge → String → Option ℕ
observed [] g node = none
observed (o ∷ obs) g node =
    let rest = observed obs g node in
    if gauge_name o.gauge == gauge_name g && o.node == node then some o.value else rest

abbrev pub reading : Gauge → Metrics → ℕ
reading total_gauge m = m.total_vram
reading used_gauge m = m.used_vram
reading available_gauge m = m.available_vram

abbrev pub reading_of : Gauge → Option Metrics → Option ℕ
reading_of g none = none
reading_of g (some m) = some (reading g m)

-- What the SDK collects from an instrumentation.
abbrev pub collected : Instrumentation → List Observation
collected absent = []
collected noop = []
collected (otel none) = []
collected (otel (some o)) = observe_callback o

observed-observe_entries :
    (metrics : GoMap Metrics) (g : Gauge) (node : String)
    → observed (observe_entries metrics) g node ≡ reading_of g (GoMap.get metrics node)
unfolding observe_entries GoMap.get
observed-observe_entries [] g node = refl
observed-observe_entries ((k, m) ∷ metrics) total_gauge node =
    ground (arith, observed-observe_entries metrics total_gauge node)
observed-observe_entries ((k, m) ∷ metrics) used_gauge node =
    ground (arith, observed-observe_entries metrics used_gauge node)
observed-observe_entries ((k, m) ∷ metrics) available_gauge node =
    ground (arith, observed-observe_entries metrics available_gauge node)

store-Distinct :
    (metrics : GoMap Metrics) (name : String) (r : Result Metrics)
    → Distinct metrics
    → Distinct (store metrics name r)
store-Distinct metrics name (err e) d = d
store-Distinct metrics name (ok m) d = GoMap.put-Distinct metrics name m d

scrape_all-Distinct :
    (f : MetricsEndpoint → Result Metrics) (endpoints : List MetricsEndpoint)
    (metrics : GoMap Metrics)
    → Distinct metrics
    → Distinct (scrape_all f endpoints metrics)
unfolding scrape_all
scrape_all-Distinct f [] metrics d = d
scrape_all-Distinct f (e ∷ endpoints) metrics d =
    scrape_all-Distinct f endpoints (store metrics e.node_name (f e))
      (store-Distinct metrics e.node_name (f e) d)

get-twice :
    (metrics : GoMap Metrics) (k : String)
    → Distinct metrics
    → GoMap.get (copy_metrics (copy_metrics metrics []) []) k ≡ GoMap.get metrics k
unfolding GoMap.get
get-twice metrics k d =
    let once = copy_metrics metrics [] in
    get-copy_metrics once [] k (copy_metrics-Distinct metrics [] tt)
    ∙ or_metrics-none (GoMap.get once k)
    ∙ get-copy_metrics metrics [] k d
    ∙ or_metrics-none (GoMap.get metrics k)

observed-record_metrics :
    (o : OtelInstrumentation) (metrics : GoMap Metrics) (g : Gauge) (node : String)
    → Distinct metrics
    → o.is_registered ≡ true
    → observed (observe_callback (record_metrics o (copy_metrics metrics []))) g node
      ≡ reading_of g (GoMap.get metrics node)
unfolding observe_callback record_metrics
observed-record_metrics o metrics g node d r = rw r (
    observed-observe_entries (copy_metrics (copy_metrics metrics []) []) g node
    ∙ ap (reading_of g) (get-twice metrics node d))

-- After a scrape that discovers endpoints, by a tracker with a registered instrumentation, the gauges
-- show for each node exactly the metrics that the tracker has for it, and nothing for a node that it has
-- none for.
pub observed-scrape :
    (f : MetricsEndpoint → Result Metrics) (s : Service) (o : OtelInstrumentation)
    (endpoints : List MetricsEndpoint)
    → Distinct s.tracker.metrics
    → s.instrumentation ≡ otel (some o)
    → o.is_registered ≡ true
    → discovered s.discovery s.k8s_discovery ≡ some (ok endpoints)
    → (s' : Service) × (scrape f s ≡ some s')
      × ((g : Gauge) (node : String)
          → observed (collected s'.instrumentation) g node
            ≡ reading_of g (GoMap.get s'.tracker.metrics node))
unfolding scrape scrape_metrics get_metrics
observed-scrape f s o endpoints d i r e =
    let metrics = scrape_all f endpoints s.tracker.metrics in
    let t = record s.tracker { metrics = metrics } in
    (
      record s {
        tracker = t;
        instrumentation = otel (some (record_metrics o (copy_metrics metrics [])));
      },
      ap (λ x. scrape_and_record f x s) e
          ∙ ap
              (λ x.
                with_recorded (record s { tracker = t })
                  (call_record_metrics x (copy_metrics metrics [])))
              i,
      λ g node.
          observed-record_metrics o metrics g node
            (scrape_all-Distinct f endpoints s.tracker.metrics d) r,
    )

not_cases : (b : Bool) → not b ≡ true → b ≡ false
not_cases true h = absurd (ground (arith, h))
not_cases false h = refl

abbrev pub is_failed : Created → Bool
is_failed (created o) = false
is_failed (failed e) = true

metered-Panics :
    (f : MetricsEndpoint → Result Metrics) (s : Service) (c : Created)
    (r : Result (List MetricsEndpoint))
    → (scrape_and_record f (some r) (record s { instrumentation = otel (or_nil c) }) ≡ none)
      ↔ ((is_failed c ≡ true) × ((endpoints : List MetricsEndpoint) × (r ≡ ok endpoints)))
metered-Panics f s (created o) (err x) =
    (λ p. absurd (ground (arith, p)), λ (q, endpoints). absurd (ground (arith, q)))
metered-Panics f s (created o) (ok endpoints) =
    (λ p. absurd (ground (arith, p)), λ (q, found). absurd (ground (arith, q)))
metered-Panics f s (failed e) (err x) =
    (λ p. absurd (ground (arith, p)), λ (q, (endpoints, z)). absurd (ground (arith, z)))
metered-Panics f s (failed e) (ok endpoints) = (λ p. (refl, (endpoints, refl)), λ q. refl)

-- The meter refuses one of the three gauges, or the callback.
abbrev pub Refuses : Meter → Type 0
Refuses meter =
    (meter.creates "vram_total_bytes"
      && meter.creates "vram_used_bytes"
      && meter.creates "vram_available_bytes"
      && meter.registers)
    ≡ false

is_failed-new_otel_instrumentation :
    (meter : Meter)
    → is_failed (new_otel_instrumentation meter)
      ≡ not (
          meter.creates "vram_total_bytes"
          && meter.creates "vram_used_bytes"
          && meter.creates "vram_available_bytes"
          && meter.registers)
unfolding new_otel_instrumentation
is_failed-new_otel_instrumentation meter = elim (Bool-cases (meter.creates "vram_total_bytes")) [
  | inr e ↦ rw e refl
  | inl e ↦ elim (Bool-cases (meter.creates "vram_used_bytes")) [
    | inr f ↦ rw (e, f) refl
    | inl f ↦ elim (Bool-cases (meter.creates "vram_available_bytes")) [
      | inr g ↦ rw (e, f, g) refl
      | inl g ↦ elim (Bool-cases meter.registers) [
        | inr h ↦ rw (e, f, g, h) refl
        | inl h ↦ rw (e, f, g, h) refl
      ]
    ]
  ]
]

-- The first scrape of a tracker from NewTrackerWithMeter panics exactly when the meter refuses a gauge or
-- the callback, and the discovery succeeds: the constructor then has a nil pointer in an interface that
-- is not nil.
pub new_tracker_with_meter-Panics :
    (config : KubernetesDiscoveryConfig) (interval : ℕ) (meter : Meter)
    (f : MetricsEndpoint → Result Metrics)
    → (scrape f (new_tracker_with_meter config interval meter) ≡ none) ↔ (
        Refuses meter
        × ((endpoints : List MetricsEndpoint) × (discover_endpoints
                (new_kubernetes_discovery config)
              ≡ ok endpoints)))
unfolding scrape new_tracker_with_meter new_kubernetes_tracker must_new_otel_instrumentation
new_tracker_with_meter-Panics config interval meter f =
    let (panics, back) =
      metered-Panics f (new_kubernetes_tracker config interval) (new_otel_instrumentation meter)
        (discover_endpoints (new_kubernetes_discovery config)) in
    let is = is_failed-new_otel_instrumentation meter in
    (
      λ p. (not_cases _ (sym is ∙ (panics p).0), (panics p).1),
      λ (q, found). back (is ∙ ap not q, found),
    )
