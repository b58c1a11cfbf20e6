-- ===== src/ModelLoader/Steps.antt =====
-- PreRequest as a sequence of steps (internal/plugins/modelloader/loader.go: PreRequest,
-- handleAlreadyLoadedOrLoading, loadModel). A request that is served is a thread; a step is one
-- critical section with the mark on the tracker next to it, one wait, or one exchange with the pod.
-- What the environment answers in a step is its input.
use rocm_llamacpp_envoy_ai_g.Prelude.{
  ℕ, suc, String, Bool, ◌||◌, Option, none, some, List, [], ◌∷◌, ◌==◌, nat_eq, if◌then◌else◌,
}
use rocm_llamacpp_envoy_ai_g.GoMap
use rocm_llamacpp_envoy_ai_g.Http.{Reply}
use rocm_llamacpp_envoy_ai_g.ModelTracker.Types.{Tracker}
use rocm_llamacpp_envoy_ai_g.ModelTracker.Dedup.{Event, unload_sent, observer_called}
use rocm_llamacpp_envoy_ai_g.ModelTracker.Poll.{Env, poll_once}
use rocm_llamacpp_envoy_ai_g.ModelLoader.Types.{
  Config, Error, cancelled_waiting, concurrent_failed, Status, pending, closed, Plugin, new_plugin,
  with_tracker, load_key, invalidate_loaded_model, clear_loaded_models_cache, mark_tracker_loaded,
  mark_tracker_unloaded,
}
use rocm_llamacpp_envoy_ai_g.ModelLoader.Query.{ModelInfo, is_model_loaded, send_load}
use rocm_llamacpp_envoy_ai_g.ModelLoader.Request.{
  Target, SchedulingResult, validate_and_extract_pre_request_info,
}

-- Where a request is in PreRequest.
pub data Pc : Type 0 where
  -- handleAlreadyLoadedOrLoading: the look into the two maps, and the wait for another load
  looking : Pc
  waiting_first : ℕ → Pc
  -- isModelLoaded
  querying : Pc
  -- loadModel: the registration, the wait for another load, the load, and the deferred function
  entering : Pc
  waiting_second : ℕ → Pc
  loading : ℕ → Pc
  publishing : ℕ → Option Error → Pc
  -- the error branch of PreRequest
  failing : Error → Pc
  finished : Pc

-- The answers of the pod, whether a select takes the branch of the cancelled context, and the time.
pub record Input : Type 0 where
  pub http_get : String → Reply (List ModelInfo)
  pub http_post : String → String → Reply (Unit {0})
  pub ticks : List (String → Reply (List ModelInfo))
  pub cancelled : Bool
  pub now : ℕ

abbrev pub set_at : {A : Type 0} → (ℕ → A) → ℕ → A → ℕ → A
set_at f i x j = if nat_eq j i then x else f j

abbrev pub look_loading : Plugin → Option ℕ → Plugin × Pc
look_loading p none = (p, querying)
look_loading p (some r) = (p, waiting_first r)

unfoldable pub handle_already_loaded_or_loading : Plugin → Target → Plugin × Pc
handle_already_loaded_or_loading p tgt =
    let key = load_key tgt.pod_ip tgt.model_name in
    if GoMap.has p.loaded_models key
    then (mark_tracker_loaded p tgt.pod_ip tgt.model_name, finished)
    else look_loading p (GoMap.get p.loading_models key)

abbrev pub after_first : ℕ → Status → Pc
after_first r pending = waiting_first r
after_first r (closed none) = finished
after_first r (closed (some e)) = querying

unfoldable pub query_step : Plugin → Target → Input → Plugin × Pc
query_step p tgt input =
    if is_model_loaded input.http_get p.config tgt.pod_ip tgt.model_name
    then (
      mark_tracker_loaded
          (record p {
            loaded_models =
                GoMap.put p.loaded_models (load_key tgt.pod_ip tgt.model_name) input.now;
          })
          tgt.pod_ip tgt.model_name,
      finished,
    )
    else (mark_tracker_loaded p tgt.pod_ip tgt.model_name, entering)

abbrev pub enter : Plugin → String → Option ℕ → Plugin × Pc
enter p key none = (
  record p {
    loading_models = GoMap.put p.loading_models key p.next_result;
    results = set_at p.results p.next_result pending;
    next_result = suc p.next_result;
  },
  loading p.next_result,
)
enter p key (some r) = (p, waiting_second r)

unfoldable pub enter_step : Plugin → Target → Plugin × Pc
enter_step p tgt =
    let key = load_key tgt.pod_ip tgt.model_name in enter p key (GoMap.get p.loading_models key)

abbrev pub after_second : ℕ → Status → Pc
after_second r pending = waiting_second r
after_second r (closed none) = finished
after_second r (closed (some e)) = failing (concurrent_failed e)

abbrev pub after_load : Plugin → Target → ℕ → ℕ → Option Error → Plugin × Pc
after_load p tgt r now none = (
  record p { loaded_models = GoMap.put p.loaded_models (load_key tgt.pod_ip tgt.model_name) now },
  publishing r none,
)
after_load p tgt r now (some e) = (p, publishing r (some e))

unfoldable pub load_step : Plugin → Target → ℕ → Input → Plugin × Pc
load_step p tgt r input =
    after_load p tgt r input.now
      (send_load input.http_post input.http_get input.ticks p.config tgt.pod_ip tgt.model_name)

abbrev pub after_publish : Option Error → Pc
after_publish none = finished
after_publish (some e) = failing e

unfoldable pub publish_step : Plugin → Target → ℕ → Option Error → Plugin × Pc
publish_step p tgt r e = (
  record p {
    loading_models = GoMap.delete p.loading_models (load_key tgt.pod_ip tgt.model_name);
    results = set_at p.results r (closed e);
  },
  after_publish e,
)

unfoldable pub step : Plugin → Target → Pc → Input → Plugin × Pc
step p tgt looking input = handle_already_loaded_or_loading p tgt
step p tgt (waiting_first r) input =
    (p, if input.cancelled then finished else after_first r (p.results r))
step p tgt querying input = query_step p tgt input
step p tgt entering input = enter_step p tgt
step p tgt (waiting_second r) input =
    (p, if input.cancelled then failing cancelled_waiting else after_second r (p.results r))
step p tgt (loading r) input = load_step p tgt r input
step p tgt (publishing r e) input = publish_step p tgt r e
step p tgt (failing e) input = (mark_tracker_unloaded p tgt.pod_ip tgt.model_name, finished)
step p tgt finished input = (p, finished)

-- PreRequest up to its first step: a request without a model or a pod is done.
unfoldable pub pre_request : Option String → Option SchedulingResult → Target × Pc
unfolding validate_and_extract_pre_request_info
pre_request request result =
    let tgt = validate_and_extract_pre_request_info request result in
    (tgt, if tgt.model_name == "" || tgt.pod_ip == "" then finished else looking)

-- The observer calls of a tracker operation, in their order.
unfoldable pub observe_events : Plugin → List Event → Plugin
observe_events p [] = p
observe_events p (unload_sent ip model b ∷ events) = observe_events p events
observe_events p (observer_called ip model ∷ events) =
    observe_events (invalidate_loaded_model p ip model) events

abbrev pub poll_tracker : Plugin → Env → Option Tracker → Plugin
poll_tracker p env none = p
poll_tracker p env (some t) =
    let (t', events) = poll_once env t in observe_events (record p { tracker = some t' }) events

-- A poll cycle of the tracker that the plugin shares.
unfoldable pub poll_step : Plugin → Env → Plugin
unfolding observe_events
poll_step p env = poll_tracker p env p.tracker

pub record Thread : Type 0 where
  pub target : Target
  pub pc : Pc

-- The plugin and the requests that it serves, by the number of their goroutine.
pub record System : Type 0 where
  pub plugin : Plugin
  pub threads : ℕ → Option Thread

pub data Op : Type 0 where
  -- a new request is served by a goroutine, if its number is free
  requests : ℕ → Option String → Option SchedulingResult → Op
  -- a goroutine takes its next step
  runs : ℕ → Input → Op
  polls : Env → Op
  clears : Op

abbrev pub begin : Option Thread → Target × Pc → Option Thread
begin none (tgt, pc) = some (record { target = tgt; pc = pc })
begin (some th) start = some th

abbrev pub resume : Plugin → Option Thread → Input → Plugin × Option Thread
resume p none input = (p, none)
resume p (some th) input =
    let (p', pc') = step p th.target th.pc input in
    (p', some (record { target = th.target; pc = pc' }))

unfoldable pub run : System → ℕ → Input → System
run s i input =
    let (p, th) = resume s.plugin (s.threads i) input in
    record { plugin = p; threads = set_at s.threads i th }

unfoldable pub transition : System → Op → System
unfolding run
transition s (requests i request result) = record s {
  threads = set_at s.threads i (begin (s.threads i) (pre_request request result));
}
transition s (runs i input) = run s i input
transition s (polls env) = record s { plugin = poll_step s.plugin env }
transition s clears = record s { plugin = clear_loaded_models_cache s.plugin }

unfoldable pub initial : Config → Option Tracker → System
initial config tracker = record {
  plugin = with_tracker (new_plugin config) tracker;
  threads = λ i. none;
}

pub data Reaches : System → Type 0 where
  here : (config : Config) (tracker : Option Tracker) → Reaches (initial config tracker)
  next : {s : System} → Reaches s → (op : Op) → Reaches (transition s op)
