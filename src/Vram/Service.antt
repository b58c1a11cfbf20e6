-- ===== src/Vram/Service.antt =====
-- internal/vram/tracker.go: the tracker with its discovery and instrumentation, from its constructors on.
pub mod Laws
use rocm_llamacpp_envoy_ai_g.Prelude.{
  ℕ, String, Bool, true, false, Option, none, some, List, [], ◌∷◌,
}
use rocm_llamacpp_envoy_ai_g.GoMap.{GoMap}
use rocm_llamacpp_envoy_ai_g.Vram.Types.{Result, ok, err, Metrics, MetricsEndpoint}
use rocm_llamacpp_envoy_ai_g.Vram.Discovery.{
  Cluster, KubernetesDiscovery, KubernetesDiscoveryConfig, new_kubernetes_discovery,
  StaticDiscovery, static_discover_endpoints, update_pod_selector, update_node_selector,
  update_namespace, discover_endpoints,
}
use rocm_llamacpp_envoy_ai_g.Vram.Tracker
use rocm_llamacpp_envoy_ai_g.Vram.Tracker.{new_tracker, get_metrics, scrape_metrics}
use rocm_llamacpp_envoy_ai_g.Vram.Instrumentation.{
  Meter, Instrumentation, absent, noop, otel, must_new_otel_instrumentation, call_record_metrics,
}

-- Nanoseconds.
abbrev pub default_scrape_interval : ℕ
default_scrape_interval = 30000000000

-- A value of the interface NodeDiscovery: nil, the object that k8sDiscovery points to, another Kubernetes
-- discovery, or a static list.
pub data NodeDiscovery : Type 0 where
  no_discovery shared : NodeDiscovery
  kubernetes : KubernetesDiscovery → NodeDiscovery
  static : StaticDiscovery → NodeDiscovery

pub record Service : Type 0 where
  pub tracker : Tracker.Tracker
  pub discovery : NodeDiscovery
  pub scrape_interval : ℕ
  pub instrumentation : Instrumentation
  pub k8s_discovery : Option KubernetesDiscovery

-- A TrackerOption.
pub data TrackerOption : Type 0 where
  with_scrape_interval : ℕ → TrackerOption
  with_instrumentation : Instrumentation → TrackerOption

pub record TrackerOptions : Type 0 where
  pub scrape_interval : ℕ
  pub instrumentation : Instrumentation

abbrev pub apply_option : TrackerOptions → TrackerOption → TrackerOptions
apply_option o (with_scrape_interval interval) = record o { scrape_interval = interval }
apply_option o (with_instrumentation inst) = record o { instrumentation = inst }

unfoldable pub apply_options : TrackerOptions → List TrackerOption → TrackerOptions
apply_options o [] = o
apply_options o (opt ∷ opts) = apply_options (apply_option o opt) opts

unfoldable pub new_tracker_with_deps : NodeDiscovery → List TrackerOption → Service
unfolding apply_options
new_tracker_with_deps discovery opts =
    let options =
      apply_options (record { scrape_interval = default_scrape_interval; instrumentation = absent })
        opts in
    record {
      tracker = new_tracker;
      discovery = discovery;
      scrape_interval = options.scrape_interval;
      instrumentation = options.instrumentation;
      k8s_discovery = none;
    }

-- NewTracker; `config` is what it gives to the Kubernetes discovery.
unfoldable pub new_kubernetes_tracker : KubernetesDiscoveryConfig → ℕ → Service
unfolding new_kubernetes_discovery
new_kubernetes_tracker config scrape_interval = record {
  tracker = new_tracker;
  discovery = shared;
  scrape_interval = scrape_interval;
  instrumentation = absent;
  k8s_discovery = some (new_kubernetes_discovery config);
}

-- NewTrackerWithMeter: the pointer that it stores in the interface may be nil.
unfoldable pub new_tracker_with_meter : KubernetesDiscoveryConfig → ℕ → Meter → Service
unfolding must_new_otel_instrumentation new_kubernetes_tracker
new_tracker_with_meter config scrape_interval meter =
    record (new_kubernetes_tracker config scrape_interval) {
      instrumentation = otel (must_new_otel_instrumentation meter);
    }

abbrev pub shared_endpoints : Option KubernetesDiscovery → Option (Result (List MetricsEndpoint))
shared_endpoints none = none
shared_endpoints (some d) = some (discover_endpoints d)

-- What the call of DiscoverEndpoints gives, `none` where the discovery is nil.
abbrev pub discovered :
    NodeDiscovery → Option KubernetesDiscovery → Option (Result (List MetricsEndpoint))
discovered no_discovery k8s = none
discovered shared k8s = shared_endpoints k8s
discovered (kubernetes d) k8s = some (discover_endpoints d)
discovered (static d) k8s = some (static_discover_endpoints d)

abbrev pub with_recorded : Service → Option Instrumentation → Option Service
with_recorded s none = none
with_recorded s (some inst) = some (record s { instrumentation = inst })

-- scrapeMetrics after the call of DiscoverEndpoints; `none` is a panic.
abbrev pub scrape_and_record :
    (MetricsEndpoint → Result Metrics)
    → Option (Result (List MetricsEndpoint))
    → Service
    → Option Service
scrape_and_record scrape none s = some s
scrape_and_record scrape (some (err e)) s = some s
scrape_and_record scrape (some (ok endpoints)) s =
    let t = scrape_metrics scrape (some (ok endpoints)) s.tracker in
    with_recorded (record s { tracker = t }) (call_record_metrics s.instrumentation (get_metrics t))

unfoldable pub scrape : (MetricsEndpoint → Result Metrics) → Service → Option Service
scrape scrape_endpoint s =
    scrape_and_record scrape_endpoint (discovered s.discovery s.k8s_discovery) s

-- The state change of an update of the discovery; UpdatePodSelector and UpdateNodeSelector start a scrape
-- after it, if there is a Kubernetes discovery.
abbrev pub update_discovery :
    Service → (KubernetesDiscovery → KubernetesDiscovery) → Option KubernetesDiscovery → Service
update_discovery s f none = s
update_discovery s f (some d) = record s { k8s_discovery = some (f d) }

unfoldable pub update_tracker_pod_selector : Service → GoMap String → Service
update_tracker_pod_selector s selector =
    update_discovery s (λ d. update_pod_selector d selector) s.k8s_discovery

unfoldable pub update_tracker_node_selector : Service → GoMap String → Service
update_tracker_node_selector s selector =
    update_discovery s (λ d. update_node_selector d selector) s.k8s_discovery

unfoldable pub update_tracker_namespace : Service → String → Service
update_tracker_namespace s namespace =
    update_discovery s (λ d. update_namespace d namespace) s.k8s_discovery

abbrev pub bind_service : Option Service → (Service → Option Service) → Option Service
bind_service none f = none
bind_service (some s) f = f s

-- The client answers with this cluster from now on, where it is not nil.
abbrev pub answering : Cluster → Option Cluster → Option Cluster
answering cluster none = none
answering cluster (some c) = some cluster

abbrev pub k8s_answering : Cluster → Option KubernetesDiscovery → Option KubernetesDiscovery
k8s_answering cluster none = none
k8s_answering cluster (some d) = some (record d { client = answering cluster d.client })

unfoldable pub scrape_ticks :
    List (Cluster × (MetricsEndpoint → Result Metrics)) → Service → Option Service
unfolding scrape
scrape_ticks [] s = some s
scrape_ticks ((cluster, scrape_endpoint) ∷ ticks) s =
    bind_service
      (scrape scrape_endpoint (record s { k8s_discovery = k8s_answering cluster s.k8s_discovery }))
      (scrape_ticks ticks)

-- Start: the first scrape, then one for each tick that comes before the context ends.
unfoldable pub start_tracker :
    Cluster × (MetricsEndpoint → Result Metrics)
    → List (Cluster × (MetricsEndpoint → Result Metrics))
    → Service
    → Option Service
unfolding scrape_ticks
start_tracker first ticks s = scrape_ticks (first ∷ ticks) s
