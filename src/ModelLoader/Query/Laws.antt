-- ===== src/ModelLoader/Query/Laws.antt =====
-- The loader's reading of a model list against the tracker's, and what the wait comes to
-- (internal/plugins/modelloader/loader.go: isModelLoaded, waitForModelLoaded;
-- internal/modeltracker/tracker.go: queryPod).
use rocm_llamacpp_envoy_ai_g.Prelude.{
  String, ◌≡◌, refl, inl, inr, Bool, true, false, not, ◌||◌, ◌&&◌, none, some, List, [], ◌∷◌, ◌==◌,
  arith, eq_iff, Bool-cases, nat_eq, if◌then◌else◌,
}
use rocm_llamacpp_envoy_ai_g.GoMap
use rocm_llamacpp_envoy_ai_g.Http.{
  Body, unreadable, undecodable, decoded, Reply, no_request, no_response, response, status_ok,
}
use rocm_llamacpp_envoy_ai_g.ModelTracker.Types.{PodModelSet}
use rocm_llamacpp_envoy_ai_g.ModelTracker.Query.{
  ModelEntry, Result, ok, err, is_warm, of_body, read_models,
}
use rocm_llamacpp_envoy_ai_g.ModelTracker.Query.Laws.{reports, has-collect}
use rocm_llamacpp_envoy_ai_g.ModelLoader.Types.{Config, timed_out}
use rocm_llamacpp_envoy_ai_g.ModelLoader.Query.{
  ModelInfo, entry_loaded, body_loaded, reply_loaded, is_model_loaded, wait_loop,
  wait_for_model_loaded,
}

-- The loader's decoding of the JSON objects that the tracker decodes.
abbrev pub as_infos : List ModelEntry → List ModelInfo
as_infos [] = []
as_infos (m ∷ entries) = (record { id = m.id; status = m.status }) ∷ as_infos entries

abbrev pub as_info_body : Body (List ModelEntry) → Body (List ModelInfo)
as_info_body unreadable = unreadable
as_info_body undecodable = undecodable
as_info_body (decoded entries) = decoded (as_infos entries)

abbrev pub as_info_reply : Reply (List ModelEntry) → Reply (List ModelInfo)
as_info_reply no_request = no_request
as_info_reply no_response = no_response
as_info_reply (response status body) = response status (as_info_body body)

abbrev pub lists : List ModelEntry → String → Bool
lists [] model = false
lists (m ∷ entries) model = m.id == model || lists entries model

-- No two entries have the same name.
abbrev pub distinct_ids : List ModelEntry → Bool
distinct_ids [] = true
distinct_ids (m ∷ entries) = not (lists entries m.id) && distinct_ids entries

abbrev pub body_ids : Body (List ModelEntry) → Bool
body_ids unreadable = true
body_ids undecodable = true
body_ids (decoded entries) = distinct_ids entries

abbrev pub reply_ids : Reply (List ModelEntry) → Bool
reply_ids no_request = true
reply_ids no_response = true
reply_ids (response status body) = body_ids body

abbrev pub result_has : Result PodModelSet → String → Bool
result_has (ok set) model = GoMap.has set model
result_has (err e) model = false

lists-reports :
    (entries : List ModelEntry) (model : String)
    → lists entries model ≡ false
    → reports entries model ≡ false
lists-reports [] model h = refl
lists-reports (m ∷ entries) model h = ground (arith, h, lists-reports entries model)

entry_loaded-reports :
    (entries : List ModelEntry) (model : String)
    → distinct_ids entries ≡ true
    → entry_loaded (as_infos entries) model ≡ reports entries model
unfolding entry_loaded is_warm
entry_loaded-reports [] model d = refl
entry_loaded-reports (m ∷ entries) model d =
    ground
      (arith, d, entry_loaded-reports entries model, lists-reports entries model, eq_iff m.id model)

body_loaded-has :
    (body : Body (List ModelEntry)) (model : String)
    → body_ids body ≡ true
    → body_loaded (as_info_body body) model ≡ result_has (of_body body) model
unfolding GoMap.get
body_loaded-has unreadable model d = refl
body_loaded-has undecodable model d = refl
body_loaded-has (decoded entries) model d =
    ground (arith, has-collect entries [] model, entry_loaded-reports entries model, d)

-- For a reply that names no model twice: the loader takes a model as loaded on a pod exactly if the
-- tracker, from the same reply, records it for the pod.
pub reply_loaded-read_models :
    (r : Reply (List ModelEntry)) (model : String)
    → reply_ids r ≡ true
    → reply_loaded (as_info_reply r) model ≡ result_has (read_models r) model
unfolding reply_loaded read_models
reply_loaded-read_models no_request model d = refl
reply_loaded-read_models no_response model d = refl
reply_loaded-read_models (response status body) model d =
    elim (Bool-cases (nat_eq status status_ok)) [
      | inl e ↦ rw e (body_loaded-has body model d)
      | inr e ↦ rw e refl
    ]

-- Some network of the list shows the model loaded on the pod.
abbrev pub any_loaded : List (String → Reply (List ModelInfo)) → Config → String → String → Bool
any_loaded [] config pod_ip model = false
any_loaded (http_get ∷ ticks) config pod_ip model =
    is_model_loaded http_get config pod_ip model || any_loaded ticks config pod_ip model

wait_loop-any_loaded :
    (ticks : List (String → Reply (List ModelInfo))) (config : Config) (pod_ip model : String)
    → wait_loop ticks config pod_ip model
      ≡ (if any_loaded ticks config pod_ip model then none else some timed_out)
unfolding wait_loop
wait_loop-any_loaded [] config pod_ip model = refl
wait_loop-any_loaded (g ∷ ticks) config pod_ip model =
    ground (arith, wait_loop-any_loaded ticks config pod_ip model)

-- The wait for a load succeeds exactly if the first check or one of the checks before the deadline
-- shows the model loaded; otherwise it ends with the deadline's error.
pub wait_for_model_loaded-any_loaded :
    (http_get : String → Reply (List ModelInfo)) (ticks : List (String → Reply (List ModelInfo)))
    (config : Config) (pod_ip model : String)
    → wait_for_model_loaded http_get ticks config pod_ip model
      ≡ (if any_loaded (http_get ∷ ticks) config pod_ip model then none else some timed_out)
unfolding wait_for_model_loaded
wait_for_model_loaded-any_loaded http_get ticks config pod_ip model =
    ground (arith, wait_loop-any_loaded ticks config pod_ip model)
