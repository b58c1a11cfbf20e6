-- ===== src/Router/Types.antt =====
-- The router's state (internal/router/router.go: ModelInfo, LoadingState, Router). A *LoadingState is
-- the number of its channel; its ModelName is the key that it stands under. Times are numbers, the
-- zero time is 0. The VRAM tracker and the client are arguments of the operations that use them.
use rocm_llamacpp_envoy_ai_g.Prelude.{
  ℕ, String, Bool, true, Option, List, [], ◌∷◌, ◌==◌, if◌then◌else◌,
}
use rocm_llamacpp_envoy_ai_g.GoMap
use rocm_llamacpp_envoy_ai_g.GoMap.{GoMap}
use rocm_llamacpp_envoy_ai_g.Http.{Reply, url}

abbrev pub model_server_port : ℕ
model_server_port = 8080

pub record ModelInfo : Type 0 where
  pub name : String
  pub node_name : String
  pub pod_name : String
  pub pod_ip : String
  pub loaded_at : ℕ
  pub vram_usage : ℕ

-- The part of a corev1.Pod that the router reads.
pub record Pod : Type 0 where
  pub phase : String
  pub name : String
  pub node_name : String
  pub pod_ip : String

pub record Router : Type 0 where
  -- whether the Kubernetes client is not nil
  pub has_client : Bool
  pub namespace : String
  pub pod_selector : GoMap String
  pub model_load_endpoint : String
  pub replica_name : String
  pub models : GoMap ModelInfo
  pub ready : Bool
  pub loading_models : GoMap ℕ

pub data Error : Type 0 where
  client_nil pod_has_no_ip no_pods_on_node lease_acquisition_failed model_not_available_after_load :
      Error
  unexpected_status_code model_load_failed : ℕ → Error
  create_request do_request decode_response list_failed invalid_selector no_suitable_node : Error
  create_lease get_lease cancelled : Error
  concurrent : Error → Error

pub data Result (A : Type 0) : Type 0 where
  ok : A → Result A
  err : Error → Result A

-- NewRouter; `pod_name` is the environment variable POD_NAME, empty where it is not set.
unfoldable pub new_router : Bool → String → GoMap String → String → String → Router
new_router has_client namespace pod_selector model_load_endpoint pod_name = record {
  has_client = has_client;
  namespace = namespace;
  pod_selector = pod_selector;
  model_load_endpoint = model_load_endpoint;
  replica_name = if pod_name == "" then "unknown-replica" else pod_name;
  models = [];
  ready = true;
  loading_models = [];
}

abbrev pub is_ready : Router → Bool
is_ready r = r.ready

-- The state change of UpdatePodSelector; the discovery that it starts is `discover_with_selector`.
unfoldable pub update_pod_selector : Router → GoMap String → Router
update_pod_selector r selector = record r { pod_selector = selector }

unfoldable pub update_namespace : Router → String → Router
update_namespace r namespace = record r { namespace = namespace }

-- The copy of an entry, field by field.
abbrev pub copy_info : ModelInfo → ModelInfo
copy_info v = record {
  name = v.name;
  node_name = v.node_name;
  pod_name = v.pod_name;
  pod_ip = v.pod_ip;
  loaded_at = v.loaded_at;
  vram_usage = v.vram_usage;
}

-- The copies of the entries.
unfoldable pub copy_models : GoMap ModelInfo → GoMap ModelInfo → GoMap ModelInfo
copy_models [] result = result
copy_models ((k, v) ∷ models) result = copy_models models (GoMap.put result k (copy_info v))

unfoldable pub get_warm_models : Router → GoMap ModelInfo
unfolding copy_models
get_warm_models r = copy_models r.models []

-- "http://" + net.JoinHostPort(ip, strconv.Itoa(modelServerPort))
unfoldable pub endpoint : String → String
endpoint pod_ip = url pod_ip model_server_port ""

-- What the Kubernetes API and the pods answer. Listing gives `none` where the call fails; the pods on
-- a node are those that the API selects by the field spec.nodeName.
pub record Env : Type 0 where
  pub list_pods : String → GoMap String → Option (List Pod)
  pub is_valid_selector : GoMap String → Bool
  pub list_on_node : String → GoMap String → String → Option (List Pod)
  pub http_get : String → Reply (List String)
  pub http_post : String → String → Reply (Unit {0})
