-- ===== src/Command.antt =====
-- cmd/epp/main.go: the command that wires the parts together. What viper answers for a key, from the
-- environment or the default, is a field of the settings; durations are nanoseconds.
pub mod Laws
mod Tests
use rocm_llamacpp_envoy_ai_g.Prelude.{
  ℕ, ◌*◌, String, Bool, true, false, Option, none, some, List, [], ◌∷◌, ◌==◌, ◌||◌, if◌then◌else◌,
}
use rocm_llamacpp_envoy_ai_g.GoMap.{GoMap}
use rocm_llamacpp_envoy_ai_g.PodState.{Cache, new_cache, pressure}
use rocm_llamacpp_envoy_ai_g.ModelTracker.Types.{Options, Tracker, new_tracker, second}
use rocm_llamacpp_envoy_ai_g.ModelTracker.History
use rocm_llamacpp_envoy_ai_g.Filter.{LoadedModelFilter, Pod, filter}
use rocm_llamacpp_envoy_ai_g.ModelLoader.Types.{Config, Plugin, new_plugin, with_tracker}
use rocm_llamacpp_envoy_ai_g.Vram.Discovery.{Cluster}
use rocm_llamacpp_envoy_ai_g.Vram.Service.{Service, new_kubernetes_tracker}

abbrev pub default_exporter_namespace : String
default_exporter_namespace = "kube-system"

abbrev pub default_scrape_interval : ℕ
default_scrape_interval = 30 * second

abbrev pub default_model_poll_interval : ℕ
default_model_poll_interval = 10 * second

abbrev pub default_model_server_port : ℕ
default_model_server_port = 8080

abbrev pub default_model_query_path : String
default_model_query_path = "/models"

pub record Settings : Type 0 where
  pub namespace : String
  pub exporter_namespace : String
  pub exporter_pod_selector : GoMap String
  pub node_selector : GoMap String
  pub scrape_interval : ℕ
  pub pod_selector : GoMap String
  pub model_poll_interval : ℕ
  pub model_server_port : ℕ
  pub model_query_path : String

-- The settings where the environment has none of the keys.
unfoldable pub init_config : Settings
init_config = record {
  namespace = "llm";
  exporter_namespace = default_exporter_namespace;
  exporter_pod_selector = ("app", "amd-gpu-metrics-exporter-amdgpu-metrics-exporter") ∷ [];
  node_selector = ("kubernetes.io/gpu", "true") ∷ [];
  scrape_interval = default_scrape_interval;
  pod_selector = ("app", "llama-server") ∷ [];
  model_poll_interval = default_model_poll_interval;
  model_server_port = default_model_server_port;
  model_query_path = default_model_query_path;
}

abbrev pub asks_for_version : List String → Bool
asks_for_version [] = false
asks_for_version (arg ∷ args) = arg == "--version" || arg == "-version" || asks_for_version args

-- The tracker that startModelTracker makes and starts.
unfoldable pub start_model_tracker : Settings → (String → ℕ) → Tracker
unfolding new_tracker
start_model_tracker v pressure_of = new_tracker (record {
  namespace = v.namespace;
  pod_selector = v.pod_selector;
  pod_port = v.model_server_port;
  query_path = v.model_query_path;
  unload_path = "";
  poll_interval = v.model_poll_interval;
  poll_timeout = 0;
  pressure = some pressure_of;
  dedup_grace_polls = 0;
})

-- The tracker that startVRAMTracker makes and starts; its pod selector is nil.
unfoldable pub start_vram_tracker : Settings → Option Cluster → Service
unfolding new_kubernetes_tracker
start_vram_tracker v client =
    new_kubernetes_tracker
      (record {
        client = client;
        namespace = v.namespace;
        pod_selector = [];
        node_selector = v.node_selector;
        exporter_namespace = v.exporter_namespace;
        exporter_pod_selector = v.exporter_pod_selector;
      })
      v.scrape_interval

module _ (F : Type 0) where
  -- What main shares between the plugins: one model tracker and one cache. The tracker holds a pointer to
  -- a pressure provider: `reads` is what it reads there, of the cache as it is at the time.
  pub record Wiring : Type 0 where
    pub vram_tracker : Service
    pub tracker_state : Tracker
    pub load_cache : Option (Cache F)
    pub reads : Option (Cache F) → String → ℕ

  unfoldable pub wire : Settings → Option Cluster → Wiring
  unfolding start_vram_tracker start_model_tracker
  wire v client = record {
    vram_tracker = start_vram_tracker v client;
    tracker_state = start_model_tracker v (pressure {F = F} new_cache);
    load_cache = new_cache;
    reads = pressure;
  }

  -- The model tracker, with the pressure that its provider gives now.
  unfoldable pub tracker_of : Wiring → Tracker
  tracker_of w = record w.tracker_state {
    options = record w.tracker_state.options { pressure = some (w.reads w.load_cache) };
  }

  -- The loaded-model filter and the model loader of the wiring.
  abbrev pub filter_of : Wiring → LoadedModelFilter F
  filter_of w = record { tracker = some (tracker_of w); pod_state = w.load_cache }

  abbrev pub loader_of : Wiring → Config → Plugin
  loader_of w config = with_tracker (new_plugin config) (some (tracker_of w))

  -- What happens after the wiring: a call of the filter, and an operation of the tracker.
  pub data Op : Type 0 where
    filters : Option String → List (Pod F) → ℕ → Op
    tracks : History.Op → Op

  unfoldable pub advance : Wiring → Op → Wiring
  unfolding tracker_of
  advance w (filters request pods now) = record w {
    load_cache = (filter (filter_of w) request pods now).1;
  }
  advance w (tracks op) = record w { tracker_state = (History.step (tracker_of w) op).0 }

  unfoldable pub run : Wiring → List Op → Wiring
  unfolding advance
  run w [] = w
  run w (op ∷ ops) = run (advance w op) ops
