-- ===== src/Router/Discovery.antt =====
-- The warm models (internal/router/router.go: queryPodModels, discoverWarmModels,
-- discoverWarmModelsWithSelector).
pub mod Laws
use rocm_llamacpp_envoy_ai_g.Prelude.{
  ℕ, String, Bool, true, not, Option, none, some, List, [], ◌∷◌, ◌==◌, nat_eq, if◌then◌else◌,
}
use rocm_llamacpp_envoy_ai_g.GoMap
use rocm_llamacpp_envoy_ai_g.GoMap.{GoMap}
use rocm_llamacpp_envoy_ai_g.Http.{
  Body, unreadable, undecodable, decoded, Reply, no_request, no_response, response, status_ok, url,
}
use rocm_llamacpp_envoy_ai_g.Router.Types.{
  ModelInfo, Pod, Router, Error, pod_has_no_ip, unexpected_status_code, create_request, do_request,
  decode_response, Result, ok, err, Env, model_server_port,
}

-- The entry of a model that a pod lists.
abbrev pub listed_on : Pod → String → ModelInfo
listed_on pod id = record {
  name = id;
  node_name = pod.node_name;
  pod_name = pod.name;
  pod_ip = pod.pod_ip;
  loaded_at = 0;
  vram_usage = 0;
}

unfoldable pub infos_of : Pod → List String → List ModelInfo
infos_of pod [] = []
infos_of pod (id ∷ ids) = listed_on pod id ∷ infos_of pod ids

-- The body is decoded as it is read. Of a listed model only the ID is decoded: the reply also gives a
-- status, which says whether the model is loaded, and it is dropped.
abbrev pub of_body : Pod → Body (List String) → Result (List ModelInfo)
of_body pod unreadable = err decode_response
of_body pod undecodable = err decode_response
of_body pod (decoded ids) = ok (infos_of pod ids)

abbrev pub read_models : Pod → Reply (List String) → Result (List ModelInfo)
read_models pod no_request = err create_request
read_models pod no_response = err do_request
read_models pod (response status body) =
    if not (nat_eq status status_ok) then err (unexpected_status_code status) else of_body pod body

unfoldable pub query_pod_models : (String → Reply (List String)) → Pod → Result (List ModelInfo)
unfolding infos_of
query_pod_models http_get pod =
    if pod.pod_ip == ""
    then err pod_has_no_ip
    else read_models pod (http_get (url pod.pod_ip model_server_port "/models"))

-- warmModels[model.Name] = model, for each model
unfoldable pub add_models : List ModelInfo → GoMap ModelInfo → GoMap ModelInfo
add_models [] warm = warm
add_models (m ∷ models) warm = add_models models (GoMap.put warm m.name m)

abbrev pub add_result : Result (List ModelInfo) → GoMap ModelInfo → GoMap ModelInfo
add_result (err e) warm = warm
add_result (ok models) warm = add_models models warm

unfoldable pub warm_models :
    (String → Reply (List String)) → List Pod → GoMap ModelInfo → GoMap ModelInfo
unfolding add_models query_pod_models
warm_models http_get [] warm = warm
warm_models http_get (pod ∷ pods) warm =
    warm_models http_get pods (
      if not (pod.phase == "Running")
      then warm
      else add_result (query_pod_models http_get pod) warm)

abbrev pub store_warm : Router → (String → Reply (List String)) → Option (List Pod) → Router
store_warm r http_get none = r
store_warm r http_get (some pods) = record r { models = warm_models http_get pods [] }

-- discoverWarmModelsWithSelector
unfoldable pub discover_with_selector : Router → Env → String → GoMap String → Router
unfolding warm_models
discover_with_selector r env namespace pod_selector =
    if not r.has_client then r else store_warm r env.http_get (env.list_pods namespace pod_selector)

unfoldable pub discover_warm_models : Router → Env → Router
unfolding discover_with_selector
discover_warm_models r env =
    if not r.has_client then r else discover_with_selector r env r.namespace r.pod_selector
