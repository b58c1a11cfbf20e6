-- ===== src/ModelTracker/Types.antt =====
-- The tracker's configuration and state (internal/modeltracker/tracker.go: Options, Tracker,
-- NewTracker). Durations are nanoseconds. The lock is not in the state: each operation below is one
-- critical section. A callback is present or absent; its calls are events.
use rocm_llamacpp_envoy_ai_g.Prelude.{
  ℕ, ◌*◌, String, Bool, false, Option, [], nat_eq, ◌==◌, if◌then◌else◌,
}
use rocm_llamacpp_envoy_ai_g.GoMap.{GoMap}

-- map[string]struct{}
abbrev pub PodModelSet : Type 0
PodModelSet = GoMap (Unit {0})

abbrev pub second : ℕ
second = 1000000000

abbrev pub default_poll_interval : ℕ
default_poll_interval = 10 * second

abbrev pub default_poll_timeout : ℕ
default_poll_timeout = 5 * second

abbrev pub default_model_server_port : ℕ
default_model_server_port = 8080

abbrev pub default_model_query_path : String
default_model_query_path = "/models"

abbrev pub default_unload_path : String
default_unload_path = "/models/unload"

abbrev pub default_dedup_grace_polls : ℕ
default_dedup_grace_polls = 12

abbrev pub max_unloads_per_cycle : ℕ
max_unloads_per_cycle = 1

-- `pressure` is the PressureProvider, nil as `none`; its float64 scores are counts, see PodState.
pub record Options : Type 0 where
  pub namespace : String
  pub pod_selector : GoMap String
  pub pod_port : ℕ
  pub query_path : String
  pub unload_path : String
  pub poll_interval : ℕ
  pub poll_timeout : ℕ
  pub pressure : Option (String → ℕ)
  pub dedup_grace_polls : ℕ

abbrev or_default : ℕ → ℕ → ℕ
or_default n d = if nat_eq n 0 then d else n

abbrev or_default_text : String → String → String
or_default_text s d = if s == "" then d else s

-- The fields that a tracker never changes after NewTracker: the options with their defaults.
unfoldable pub with_defaults : Options → Options
with_defaults opts = record opts {
  pod_port = or_default opts.pod_port default_model_server_port;
  query_path = or_default_text opts.query_path default_model_query_path;
  unload_path = or_default_text opts.unload_path default_unload_path;
  poll_interval = or_default opts.poll_interval default_poll_interval;
  poll_timeout = or_default opts.poll_timeout default_poll_timeout;
  dedup_grace_polls = or_default opts.dedup_grace_polls default_dedup_grace_polls;
}

pub record Tracker : Type 0 where
  pub options : Options
  pub unload_observer : Bool
  pub loaded : GoMap PodModelSet
  pub pod_ip : GoMap String
  pub dup_obs : GoMap ℕ
  pub first_poll : Bool

unfoldable pub new_tracker : Options → Tracker
unfolding with_defaults
new_tracker opts = record {
  options = with_defaults opts;
  unload_observer = false;
  loaded = [];
  pod_ip = [];
  dup_obs = [];
  first_poll = false;
}
