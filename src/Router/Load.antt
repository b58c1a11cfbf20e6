-- ===== src/Router/Load.antt =====
-- A load on the best node (internal/router/router.go: loadModelOnBestNode, loadModelOnPod).
pub mod Laws
use rocm_llamacpp_envoy_ai_g.Prelude.{
  ℕ, String, Bool, true, not, ◌&&◌, Option, none, some, List, [], ◌∷◌, ◌==◌, nat_eq, if◌then◌else◌,
}
use rocm_llamacpp_envoy_ai_g.GoMap
use rocm_llamacpp_envoy_ai_g.Http.{
  Reply, no_request, no_response, response, status_ok, status_created, url,
}
use rocm_llamacpp_envoy_ai_g.Vram.Types
use rocm_llamacpp_envoy_ai_g.Vram.Tracker.{Tracker, get_node_with_most_available_vram}
use rocm_llamacpp_envoy_ai_g.Router.Types.{
  ModelInfo, Pod, Router, client_nil, pod_has_no_ip, no_pods_on_node, model_load_failed,
  create_request, do_request, list_failed, invalid_selector, no_suitable_node, Error, Result, ok,
  err, Env, model_server_port, endpoint,
}

-- The error that the reply to the load request comes to, `none` for nil.
abbrev pub read_load : Reply (Unit {0}) → Option Error
read_load no_request = some create_request
read_load no_response = some do_request
read_load (response status body) =
    if not (nat_eq status status_ok) && not (nat_eq status status_created)
    then some (model_load_failed status)
    else none

unfoldable pub load_model_on_pod :
    Router → (String → String → Reply (Unit {0})) → Pod → String → Option Error
load_model_on_pod r http_post pod model =
    read_load (http_post (url pod.pod_ip model_server_port r.model_load_endpoint) model)

-- The entry of a model that was loaded on a pod.
abbrev pub loaded_on : Pod → String → ℕ → ModelInfo
loaded_on pod model now = record {
  name = model;
  node_name = pod.node_name;
  pod_name = pod.name;
  pod_ip = pod.pod_ip;
  loaded_at = now;
  vram_usage = 0;
}

abbrev pub record_load : Router → Pod → String → ℕ → Option Error → Router × Result String
record_load r pod model now (some e) = (r, err e)
record_load r pod model now none = (
  record r { models = GoMap.put r.models model (loaded_on pod model now) },
  ok (endpoint pod.pod_ip),
)

abbrev pub load_on_first : Router → Env → String → ℕ → List Pod → Router × Result String
load_on_first r env model now [] = (r, err no_pods_on_node)
load_on_first r env model now (pod ∷ pods) =
    if pod.pod_ip == ""
    then (r, err pod_has_no_ip)
    else record_load r pod model now (load_model_on_pod r env.http_post pod model)

abbrev pub load_on_listed : Router → Env → String → ℕ → Option (List Pod) → Router × Result String
load_on_listed r env model now none = (r, err list_failed)
load_on_listed r env model now (some pods) = load_on_first r env model now pods

abbrev pub load_on_node :
    Router → Env → String → ℕ → Types.Result (String × ℕ) → Router × Result String
load_on_node r env model now (Types.err e) = (r, err no_suitable_node)
load_on_node r env model now (Types.ok (best_node, available)) =
    if not r.has_client
    then (r, err client_nil)
    else if not (env.is_valid_selector r.pod_selector)
    then (r, err invalid_selector)
    else load_on_listed r env model now (env.list_on_node r.namespace r.pod_selector best_node)

unfoldable pub load_model_on_best_node :
    Router → Env → Tracker → String → ℕ → Router × Result String
unfolding load_model_on_pod
load_model_on_best_node r env tracker model now =
    load_on_node r env model now (get_node_with_most_available_vram tracker)
