-- ===== src/ModelLoader/Types.antt =====
-- The plugin's configuration and state (internal/plugins/modelloader/loader.go: Config, loadResult,
-- Plugin). A *loadResult is a number, the heap of them is a function: its `done` channel is open
-- (`pending`), or closed with the `err` stored before. Times are numbers.
use Prim.Native.String.{◌++◌ as ◌⧺◌}
use rocm_llamacpp_envoy_ai_g.Prelude.{
  ℕ, ◌*◌, String, true, ◌||◌, Option, none, some, [], ◌==◌, if◌then◌else◌,
}
use rocm_llamacpp_envoy_ai_g.GoMap
use rocm_llamacpp_envoy_ai_g.GoMap.{GoMap}
use rocm_llamacpp_envoy_ai_g.ModelTracker.Types.{Tracker}
use rocm_llamacpp_envoy_ai_g.ModelTracker.State.{set_unload_observer, mark_loaded, mark_unloaded}

pub record Config : Type 0 where
  pub model_server_port : ℕ
  pub model_load_endpoint : String
  pub model_query_endpoint : String
  pub model_load_timeout_seconds : ℕ
  pub concurrent_load_limit : ℕ

abbrev pub default_config : Config
default_config = record {
  model_server_port = 8080;
  model_load_endpoint = "/models/load";
  model_query_endpoint = "/models";
  model_load_timeout_seconds = 15 * 60;
  concurrent_load_limit = 2;
}

pub data Error : Type 0 where
  create_request request_failed timed_out cancelled_waiting : Error
  load_failed : ℕ → Error
  concurrent_failed : Error → Error

pub data Status : Type 0 where
  pending : Status
  closed : Option Error → Status

pub record Plugin : Type 0 where
  pub config : Config
  pub loading_models : GoMap ℕ
  pub loaded_models : GoMap ℕ
  pub tracker : Option Tracker
  -- the heap of load results, and the first number that is not in use
  pub results : ℕ → Status
  pub next_result : ℕ

unfoldable pub new_plugin : Config → Plugin
new_plugin config = record {
  config = config;
  loading_models = [];
  loaded_models = [];
  tracker = none;
  results = λ r. pending;
  next_result = 0;
}

abbrev observe : Option Tracker → Option Tracker
observe none = none
observe (some t) = some (set_unload_observer t true)

unfoldable pub with_tracker : Plugin → Option Tracker → Plugin
with_tracker p t = record p { tracker = observe t }

abbrev pub plugin_of : Option Tracker → Option Config → Option Plugin
plugin_of tracker none = none
plugin_of none (some config) = some (new_plugin config)
plugin_of (some t) (some config) = some (with_tracker (new_plugin config) (some t))

abbrev pub plugin_config : Option (Config → Option Config) → Option Config
plugin_config none = some default_config
plugin_config (some unmarshal) = unmarshal default_config

-- ModelLoaderFactory, `none` where it returns an error. The tracker of the global dependencies, if any, is
-- an argument; the raw parameters are empty, or the decoding of a JSON text over the default.
unfoldable pub model_loader_factory :
    Option Tracker → Option (Config → Option Config) → Option Plugin
unfolding new_plugin with_tracker
model_loader_factory tracker raw = plugin_of tracker (plugin_config raw)

-- fmt.Sprintf("%s:%s", podIP, modelName)
unfoldable pub load_key : String → String → String
load_key pod_ip model = pod_ip ⧺ ":" ⧺ model

unfoldable pub invalidate_loaded_model : Plugin → String → String → Plugin
invalidate_loaded_model p pod_ip model =
    if pod_ip == "" || model == ""
    then p
    else record p { loaded_models = GoMap.delete p.loaded_models (load_key pod_ip model) }

unfoldable pub clear_loaded_models_cache : Plugin → Plugin
clear_loaded_models_cache p = record p { loaded_models = [] }

abbrev pub mark_some : Plugin → String → String → Option Tracker → Plugin
mark_some p key model none = p
mark_some p key model (some t) =
    if key == "" then p else record p { tracker = some (mark_loaded t key model) }

unfoldable pub mark_tracker_loaded : Plugin → String → String → Plugin
mark_tracker_loaded p key model = mark_some p key model p.tracker

-- The tracker's call of its unload observer, which WithTracker made this plugin's.
abbrev pub called : Plugin → Option (String × String) → Plugin
called p none = p
called p (some (ip, model)) = invalidate_loaded_model p ip model

abbrev pub unmark_some : Plugin → String → String → Option Tracker → Plugin
unmark_some p key model none = p
unmark_some p key model (some t) =
    if key == ""
    then p
    else (let (t', call) = mark_unloaded t key model in
        called (record p { tracker = some t' }) call)

unfoldable pub mark_tracker_unloaded : Plugin → String → String → Plugin
mark_tracker_unloaded p key model = unmark_some p key model p.tracker
