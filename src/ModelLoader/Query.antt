-- ===== src/ModelLoader/Query.antt =====
-- The HTTP calls of the loader (internal/plugins/modelloader/loader.go: isModelLoaded,
-- waitForModelLoaded, and loadModel between its two critical sections).
pub mod Laws
use rocm_llamacpp_envoy_ai_g.Prelude.{
  ℕ, String, Bool, true, false, not, ◌||◌, ◌&&◌, Option, none, some, List, [], ◌∷◌, ◌==◌, nat_eq,
  if◌then◌else◌,
}
use rocm_llamacpp_envoy_ai_g.Http.{
  Body, unreadable, undecodable, decoded, Reply, no_request, no_response, response, status_ok,
  status_created, status_accepted, url,
}
use rocm_llamacpp_envoy_ai_g.ModelLoader.Types.{
  Config, Error, create_request, request_failed, timed_out, load_failed,
}

pub record ModelInfo : Type 0 where
  pub id : String
  pub status : String

-- The loop over the models of the response: the first entry of the name decides.
unfoldable pub entry_loaded : List ModelInfo → String → Bool
entry_loaded [] model = false
entry_loaded (m ∷ models) model =
    let rest = entry_loaded models model in
    if m.id == model then m.status == "loaded" || m.status == "running" || m.status == "" else rest

abbrev pub body_loaded : Body (List ModelInfo) → String → Bool
body_loaded unreadable model = false
body_loaded undecodable model = false
body_loaded (decoded models) model = entry_loaded models model

-- isModelLoaded, from the reply on.
unfoldable pub reply_loaded : Reply (List ModelInfo) → String → Bool
unfolding entry_loaded
reply_loaded no_request model = false
reply_loaded no_response model = false
reply_loaded (response status body) model =
    if not (nat_eq status status_ok) then false else body_loaded body model

unfoldable pub is_model_loaded : (String → Reply (List ModelInfo)) → Config → String → String → Bool
unfolding reply_loaded
is_model_loaded http_get config pod_ip model =
    reply_loaded (http_get (url pod_ip config.model_server_port config.model_query_endpoint)) model

-- The select loop of waitForModelLoaded. The network of each tick that the select takes before the
-- deadline of the context, which ends the list.
unfoldable pub wait_loop :
    List (String → Reply (List ModelInfo)) → Config → String → String → Option Error
wait_loop [] config pod_ip model = some timed_out
wait_loop (http_get ∷ ticks) config pod_ip model =
    let rest = wait_loop ticks config pod_ip model in
    if is_model_loaded http_get config pod_ip model then none else rest

unfoldable pub wait_for_model_loaded :
    (String → Reply (List ModelInfo))
    → List (String → Reply (List ModelInfo))
    → Config
    → String
    → String
    → Option Error
unfolding is_model_loaded wait_loop
wait_for_model_loaded http_get ticks config pod_ip model =
    if is_model_loaded http_get config pod_ip model
    then none
    else wait_loop ticks config pod_ip model

-- The error that the reply to the load request comes to; the body is read for the log only.
unfoldable pub read_load : Reply (Unit {0}) → Option Error
read_load no_request = some create_request
read_load no_response = some request_failed
read_load (response status body) =
    if not (nat_eq status status_ok)
      && not (nat_eq status status_created)
      && not (nat_eq status status_accepted)
    then some (load_failed status)
    else none

abbrev then_wait : Option Error → Option Error → Option Error
then_wait (some e) waited = some e
then_wait none waited = waited

-- loadModel after it has registered: the request, and the wait if the server takes it.
unfoldable pub send_load :
    (String → String → Reply (Unit {0}))
    → (String → Reply (List ModelInfo))
    → List (String → Reply (List ModelInfo))
    → Config
    → String
    → String
    → Option Error
unfolding wait_for_model_loaded read_load
send_load http_post http_get ticks config pod_ip model =
    then_wait
      (read_load (http_post (url pod_ip config.model_server_port config.model_load_endpoint) model))
      (wait_for_model_loaded http_get ticks config pod_ip model)
