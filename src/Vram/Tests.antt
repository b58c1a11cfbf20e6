-- ===== src/Vram/Tests.antt =====
-- The video memory of two nodes (internal/vram, internal/plugins/scorer/vram.go).
use native.Mathlib.Nat.{
  mul-le-mul_left, mul-le-mul_right, div-zero, div-mul-le_self, le-div_iff_mul-le,
}
use rocm_llamacpp_envoy_ai_g.Prelude.{ℕ, zero, suc, ◌+◌, ◌*◌, ◌/◌, ◌≤◌}
use rocm_llamacpp_envoy_ai_g.Prelude.{
  String, ◌==◌, if◌then◌else◌, ◌≡◌, ◌↔◌, true, false, refl, arith, none, some, List, [], ◌∷◌, In,
}
use rocm_llamacpp_envoy_ai_g.GoMap
use rocm_llamacpp_envoy_ai_g.GoMap.{GoMap}
use rocm_llamacpp_envoy_ai_g.Vram.Types.{ok, Metrics, MetricsEndpoint}
use rocm_llamacpp_envoy_ai_g.Vram.Discovery.{
  Pod, Cluster, KubernetesDiscovery, KubernetesDiscoveryConfig, new_kubernetes_discovery,
  new_static_discovery, static_discover_endpoints, discover_endpoints,
}
use rocm_llamacpp_envoy_ai_g.Vram.Discovery.Laws.{RunsOn, Exports, In-discover_endpoints}
use rocm_llamacpp_envoy_ai_g.Vram.Tracker.{
  get_node_vram, set_metrics, get_metrics, Tracker, get_node_with_most_available_vram,
  scrape_metrics,
}
use rocm_llamacpp_envoy_ai_g.Vram.Tracker.Laws.{
  Choice, get_node-Choice, get-scrape_metrics, last_scraped, or_metrics,
}
use rocm_llamacpp_envoy_ai_g.Vram.Tracker.Copies.{get_node_vram-set_metrics}
use rocm_llamacpp_envoy_ai_g.Vram.Instrumentation.{Gauge, Meter, OtelInstrumentation, otel}
use rocm_llamacpp_envoy_ai_g.Vram.Service.{
  default_scrape_interval, static, Service, new_tracker_with_meter, scrape,
}
use rocm_llamacpp_envoy_ai_g.Vram.Service.Laws.{
  observed, collected, reading_of, Refuses, observed-scrape, new_tracker_with_meter-Panics,
}
use rocm_llamacpp_envoy_ai_g.Vram.Scorer.{NamespacedName, Float64, max_available_of, score_pod}
use rocm_llamacpp_envoy_ai_g.Vram.Scorer.Laws.{score_pod-Le}

abbrev small : Metrics
small = record { total_vram = 16; used_vram = 10; available_vram = 6; last_update = 1 }

abbrev large : Metrics
large = record { total_vram = 32; used_vram = 10; available_vram = 22; last_update = 1 }

abbrev nodes : GoMap Metrics
nodes = ("node-a", small) ∷ ("node-b", large) ∷ []

abbrev tracker : Tracker
tracker = record { metrics = nodes }

get_node-Choice_example : Choice nodes (get_node_with_most_available_vram tracker)
unfolding GoMap.get
get_node-Choice_example = get_node-Choice tracker (refl, (refl, tt)) refl

abbrev endpoint_a : MetricsEndpoint
endpoint_a = record { node_name = "node-a"; address = "10.0.1.1"; port = 9400 }

get-scrape_metrics_example :
    GoMap.get
      (scrape_metrics (λ e. ok large) (some (ok (endpoint_a ∷ []))) tracker).metrics
      "node-a"
    ≡ or_metrics
        (last_scraped (λ e. ok large) "node-a" (endpoint_a ∷ []))
        (GoMap.get nodes "node-a")
get-scrape_metrics_example = get-scrape_metrics (λ e. ok large) (endpoint_a ∷ []) tracker "node-a"

abbrev id_a : NamespacedName
id_a = record { namespace = "llm"; name = "pod-a" }

abbrev id_b : NamespacedName
id_b = record { namespace = "llm"; name = "pod-b" }

abbrev pod_to_node : GoMap String
pod_to_node = ("llm/pod-a", "node-a") ∷ ("llm/pod-b", "node-b") ∷ []

quotient_le : (m n k : ℕ) → m ≤ n → m / k ≤ n / k
quotient_le m n zero le = rw (div-zero m, div-zero n) (omega arith)
quotient_le m n (suc k) le =
    (le-div_iff_mul-le {k = suc k} (omega arith)).1 (omega (arith, le, div-mul-le_self m (suc k)))

-- Tenths, rounded down.
abbrev tenths : Float64
tenths = record {
  F = ℕ;
  zero_literal = 0;
  tenth = 1;
  nine_tenths = 9;
  half = 5;
  of_int = λ n. n * 10;
  add = λ x y. x + y;
  mul = λ x y. x * y / 10;
  div = λ x y. x * 10 / y;
  Le = λ x y. x ≤ y;
  le_refl = λ x. omega arith;
  of_int_le = λ m n le. omega (arith, le);
  add_le = λ x y z le. omega (arith, le);
  add_above = λ x y. omega arith;
  mul_le = λ x y le. quotient_le _ _ 10 (mul-le-mul_left {m = x} {n = y} 9 le);
  div_le = λ x y n pos le. quotient_le _ _ (n * 10) (mul-le-mul_right {m = x} {n = y} 10 le);
}

score_pod-Le_example :
    score_pod tenths pod_to_node nodes 5 (max_available_of nodes 0) (some id_a)
    ≤ score_pod tenths pod_to_node nodes 5 (max_available_of nodes 0) (some id_b)
unfolding GoMap.get
score_pod-Le_example =
    score_pod-Le tenths pod_to_node nodes 5 id_a id_b "node-a" "node-b" small large refl refl refl
      refl (omega arith)

abbrev server : Pod
server = record { phase = "Running"; node_name = "node-a"; pod_ip = "10.0.0.1"; containers = [] }

abbrev exporter : Pod
exporter = record {
  phase = "Running";
  node_name = "node-a";
  pod_ip = "10.0.1.1";
  containers = ((record { protocol = ""; container_port = 9400 }) ∷ []) ∷ [];
}

abbrev cluster : Cluster
cluster = record {
  pods = λ ns labels. some (server ∷ exporter ∷ []);
  nodes = λ labels. some ("node-a" ∷ []);
}

abbrev exporters : KubernetesDiscoveryConfig
exporters = record {
  client = some cluster;
  namespace = "llm";
  pod_selector = [];
  node_selector = [];
  exporter_namespace = "gpu";
  exporter_pod_selector = [];
}

abbrev discovery : KubernetesDiscovery
discovery = record {
  client = some cluster;
  namespace = "llm";
  pod_selector = [];
  node_selector = [];
  exporter_namespace = "gpu";
  exporter_pod_selector = [];
}

In-discover_endpoints_example :
    (endpoints : List MetricsEndpoint) × (discover_endpoints discovery ≡ ok endpoints)
    × ((e : MetricsEndpoint)
        → In e endpoints
        → In e.node_name ("node-a" ∷ [])
          × RunsOn (server ∷ exporter ∷ []) e.node_name
          × Exports (server ∷ exporter ∷ []) e)
In-discover_endpoints_example =
    In-discover_endpoints discovery cluster (server ∷ exporter ∷ []) (server ∷ exporter ∷ [])
      ("node-a" ∷ []) refl refl refl refl

abbrev gauges : OtelInstrumentation
gauges = record { current_metrics = []; is_registered = true }

abbrev service : Service
service = record {
  tracker = tracker;
  discovery = static (new_static_discovery (endpoint_a ∷ []));
  scrape_interval = default_scrape_interval;
  instrumentation = otel (some gauges);
  k8s_discovery = none;
}

observed-scrape_example :
    (s' : Service) × (scrape (λ e. ok large) service ≡ some s')
    × ((g : Gauge) (node : String)
        → observed (collected s'.instrumentation) g node
          ≡ reading_of g (GoMap.get s'.tracker.metrics node))
unfolding GoMap.get static_discover_endpoints new_static_discovery
observed-scrape_example =
    observed-scrape (λ e. ok large) service gauges (endpoint_a ∷ []) (refl, (refl, tt)) refl refl
      refl

abbrev broken_meter : Meter
broken_meter = record { creates = λ name. true; registers = false }

new_tracker_with_meter-Panics_example :
    (scrape (λ e. ok large) (new_tracker_with_meter exporters 1000 broken_meter) ≡ none) ↔ (
      Refuses broken_meter
      × ((endpoints : List MetricsEndpoint) × (discover_endpoints
              (new_kubernetes_discovery exporters)
            ≡ ok endpoints)))
new_tracker_with_meter-Panics_example =
    new_tracker_with_meter-Panics exporters 1000 broken_meter (λ e. ok large)

set_then_read :
    (get_node_vram (set_metrics tracker "node-a" large) "node-b"
      ≡ (if "node-a" == "node-b" then ok large else get_node_vram tracker "node-b"))
    × (GoMap.get (get_metrics (set_metrics tracker "node-a" large)) "node-b"
        ≡ (if "node-a" == "node-b" then some large else GoMap.get (get_metrics tracker) "node-b"))
unfolding GoMap.get
set_then_read = get_node_vram-set_metrics tracker "node-a" large "node-b" (refl, (refl, tt))
