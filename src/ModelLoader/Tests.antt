-- ===== src/ModelLoader/Tests.antt =====
-- The loader (internal/plugins/modelloader/loader.go) on one pod and two requests for one model.
use rocm_llamacpp_envoy_ai_g.Prelude.{
  eq_iff, arith, ℕ, String, ◌≡◌, refl, ◌≢◌, inr, ◌⊎◌, true, false, none, some, List, [], ◌∷◌,
  if◌then◌else◌,
}
use rocm_llamacpp_envoy_ai_g.GoMap
use rocm_llamacpp_envoy_ai_g.Http.{Reply, response, decoded, url}
use rocm_llamacpp_envoy_ai_g.ModelTracker.Types.{Options, Tracker}
use rocm_llamacpp_envoy_ai_g.ModelTracker.State.{holds}
use rocm_llamacpp_envoy_ai_g.ModelLoader.Retract.{mark_tracker_unloaded-clears}
use rocm_llamacpp_envoy_ai_g.ModelTracker.Query.{ModelEntry, read_models}
use rocm_llamacpp_envoy_ai_g.ModelLoader.Types.{
  Plugin, mark_tracker_unloaded, closed, default_config, new_plugin, with_tracker,
  mark_tracker_loaded, load_key, timed_out,
}
use rocm_llamacpp_envoy_ai_g.ModelLoader.Query.{
  ModelInfo, is_model_loaded, reply_loaded, wait_for_model_loaded, entry_loaded, send_load,
  read_load, wait_loop,
}
use rocm_llamacpp_envoy_ai_g.ModelLoader.Query.Laws.{
  as_info_reply, result_has, any_loaded, reply_loaded-read_models, wait_for_model_loaded-any_loaded,
}
use rocm_llamacpp_envoy_ai_g.ModelLoader.Request.{SchedulingResult, get_target_pod}
use rocm_llamacpp_envoy_ai_g.ModelLoader.Steps.{
  Op, pre_request, step, handle_already_loaded_or_loading, query_step, enter_step, load_step,
  publish_step, Input, System, requests, runs, initial, transition, Reaches, here, next, run,
}
use rocm_llamacpp_envoy_ai_g.ModelLoader.Flight.{awaited}
use rocm_llamacpp_envoy_ai_g.ModelLoader.Flight.Single.{held-Reaches, awaited-Reaches, is_closed}

abbrev entries : List ModelEntry
entries =
    (record { id = "qwen"; status = "loading" }) ∷ (record { id = "phi"; status = "loaded" }) ∷ []

reply_loaded-read_models_example :
    reply_loaded (as_info_reply (response 200 (decoded entries))) "phi"
    ≡ result_has (read_models (response 200 (decoded entries))) "phi"
reply_loaded-read_models_example =
    reply_loaded-read_models (response 200 (decoded entries)) "phi" refl

abbrev cold : String → Reply (List ModelInfo)
cold u = response 200 (decoded ((record { id = "qwen"; status = "loading" }) ∷ []))

abbrev warm : String → Reply (List ModelInfo)
warm u = response 200 (decoded ((record { id = "qwen"; status = "loaded" }) ∷ []))

wait_for_model_loaded-any_loaded_example :
    wait_for_model_loaded cold (cold ∷ warm ∷ []) default_config "10.0.0.1" "qwen" ≡ (
      if any_loaded (cold ∷ cold ∷ warm ∷ []) default_config "10.0.0.1" "qwen"
      then none
      else some timed_out)
wait_for_model_loaded-any_loaded_example =
    wait_for_model_loaded-any_loaded cold (cold ∷ warm ∷ []) default_config "10.0.0.1" "qwen"

abbrev result : SchedulingResult
result = record {
  primary_profile_name = "default";
  profile_results =
      (
        "default",
        some (record {
          target_pods =
              some (record {
                get_pod = some (record { address = "10.0.0.1"; namespaced_name = "llm/pod-0" });
              })
              ∷ [];
        }),
      )
      ∷ [];
}

abbrev input : Input
input = record {
  http_get = cold;
  http_post = λ u m. response 200 (decoded tt);
  ticks = warm ∷ [];
  cancelled = false;
  now = 7;
}

-- A transition; its line names what a run computes with.
advance : System → Op → System
unfolding transition run initial pre_request get_target_pod step handle_already_loaded_or_loading
    query_step enter_step load_step publish_step is_model_loaded reply_loaded entry_loaded send_load
    read_load wait_for_model_loaded wait_loop mark_tracker_loaded load_key url with_tracker
    new_plugin GoMap.get GoMap.put GoMap.delete
advance s op = transition s op

-- The first request loads, the second waits for it.
abbrev asked : System
asked =
    transition (transition (initial default_config none) (requests 0 (some "qwen") (some result)))
      (requests 1 (some "qwen") (some result))

abbrev loads : System
loads = transition (transition (transition asked (runs 0 input)) (runs 0 input)) (runs 0 input)

abbrev waits : System
waits = transition loads (runs 1 input)

abbrev history : Reaches waits
history =
    next
      (next
        (next
          (next
            (next (next (here default_config none) (requests 0 (some "qwen") (some result)))
              (requests 1 (some "qwen") (some result)))
            (runs 0 input))
          (runs 0 input))
        (runs 0 input))
      (runs 1 input)

waits_for_first : awaited (waits.threads 1) ≡ some 0
unfolding advance
waits_for_first = refl

-- Two steps later the load has succeeded.
load_ends :
    (transition (transition waits (runs 0 input)) (runs 0 input)).plugin.results 0 ≡ closed none
unfolding advance
load_ends = refl

held-Reaches_example : ◌≡◌ {A = ℕ} 0 0
unfolding advance
held-Reaches_example = held-Reaches history 0 0 "10.0.0.1:qwen" 0 0 refl refl

awaited-Reaches_example :
    (is_closed (waits.plugin.results 0) ≡ true)
    ⊎ ((j : ℕ) × (j ≢ 1)
        × ((a b : Input) → is_closed ((run (run waits j a) j b).plugin.results 0) ≡ true))
awaited-Reaches_example = awaited-Reaches history 1 0 waits_for_first

-- A plugin with a tracker that has the model on the pod.
abbrev options : Options
options = record {
  namespace = "";
  pod_selector = [];
  pod_port = 8080;
  query_path = "/models";
  unload_path = "/models/unload";
  poll_interval = 1;
  poll_timeout = 1;
  pressure = none;
  dedup_grace_polls = 1;
}

abbrev marked : Tracker
marked = record {
  options = options;
  unload_observer = true;
  loaded = ("10.0.0.1", ("qwen", tt) ∷ []) ∷ [];
  pod_ip = ("10.0.0.1", "10.0.0.1") ∷ [];
  dup_obs = [];
  first_poll = true;
}

abbrev plugin : Plugin
plugin = record (new_plugin default_config) {
  tracker = some marked;
  loaded_models = ("10.0.0.1:qwen", 3) ∷ [];
}

pod_named : ◌≢◌ {A = String} "10.0.0.1" ""
pod_named h = ground (arith, eq_iff "10.0.0.1" "")

qwen_named : ◌≢◌ {A = String} "qwen" ""
qwen_named h = ground (arith, eq_iff "qwen" "")

mark_tracker_unloaded-clears_example :
    (GoMap.has (mark_tracker_unloaded plugin "10.0.0.1" "qwen").loaded_models "10.0.0.1:qwen"
      ≡ false)
    × ((t' : Tracker) × ((mark_tracker_unloaded plugin "10.0.0.1" "qwen").tracker ≡ some t')
        × (holds t'.loaded "10.0.0.1" "qwen" ≡ false))
unfolding advance
mark_tracker_unloaded-clears_example =
    mark_tracker_unloaded-clears plugin marked "10.0.0.1" "qwen" refl refl pod_named qwen_named refl
      (inr refl)
