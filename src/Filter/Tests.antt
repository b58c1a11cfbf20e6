-- ===== src/Filter/Tests.antt =====
-- Filter (internal/plugins/filter/loaded_model.go) on two pods, one of them warm.
use rocm_llamacpp_envoy_ai_g.Prelude.{
  ℕ, String, ◌≡◌, refl, ◌≢◌, ◌↔◌, ◌⊎◌, true, false, none, some, [], ◌∷◌, arith, eq_iff, In,
}
use rocm_llamacpp_envoy_ai_g.PodState.{Cache, pressure}
use rocm_llamacpp_envoy_ai_g.ModelTracker.Types.{Options, Tracker}
use rocm_llamacpp_envoy_ai_g.Filter.{Pod, LoadedModelFilter, filter}
use rocm_llamacpp_envoy_ai_g.Filter.Laws.{
  keeps, NoneWarm, reported, or_pressure, In-filter, pressure-filter,
}

abbrev opts : Options
opts = record {
  namespace = "";
  pod_selector = [];
  pod_port = 8080;
  query_path = "/models";
  unload_path = "/models/unload";
  poll_interval = 1;
  poll_timeout = 1;
  pressure = none;
  dedup_grace_polls = 1;
}

abbrev tracker : Tracker
tracker = record {
  options = opts;
  unload_observer = false;
  loaded = ("10.0.0.2", ("qwen", tt) ∷ []) ∷ [];
  pod_ip = [];
  dup_obs = [];
  first_poll = true;
}

abbrev cold : Pod ℕ
cold = record { address = some "10.0.0.1"; metrics = none }

abbrev warm : Pod ℕ
warm = record {
  address = some "10.0.0.2";
  metrics =
      some
        (record { running_requests_size = 2; waiting_queue_size = 1; kv_cache_usage_percent = 50 });
}

abbrev cache : Cache ℕ
cache = record { entries = [] }

abbrev plugin : LoadedModelFilter ℕ
plugin = record { tracker = some tracker; pod_state = some cache }

qwen_named : ◌≢◌ {A = String} "qwen" ""
qwen_named h = ground (arith, eq_iff "qwen" "")

In-filter_example : In warm (filter plugin (some "qwen") (cold ∷ warm ∷ []) 5).0 ↔ (
    In warm (cold ∷ warm ∷ [])
    × ((keeps tracker "qwen" warm ≡ true) ⊎ NoneWarm tracker "qwen" (cold ∷ warm ∷ [])))
In-filter_example = In-filter plugin tracker "qwen" (cold ∷ warm ∷ []) 5 refl qwen_named warm

pressure-filter_example :
    pressure (filter plugin (some "qwen") (cold ∷ warm ∷ []) 5).1 "10.0.0.2"
    ≡ or_pressure (reported "10.0.0.2" (cold ∷ warm ∷ [])) (pressure (some cache) "10.0.0.2")
pressure-filter_example =
    pressure-filter plugin tracker cache "qwen" (cold ∷ warm ∷ []) 5 "10.0.0.2" refl refl qwen_named
