-- ===== src/PodState/Tests.antt =====
-- The cache of pod load signals (internal/podstate/cache.go) on a small input.
use rocm_llamacpp_envoy_ai_g.Prelude.{ℕ, ◌≡◌, some, [], ◌∷◌}
use rocm_llamacpp_envoy_ai_g.PodState.{Snapshot, Cache, pressure, update, pressure-update}

abbrev signal : Snapshot ℕ
signal = record {
  pod_key = "10.0.0.1";
  running_requests_size = 2;
  waiting_queue_size = 3;
  kv_cache_usage_percent = 40;
  update_time = 0;
}

abbrev cache : Cache ℕ
cache = record { entries = ("10.0.0.1", record signal { waiting_queue_size = 9 }) ∷ [] }

pressure-update_once : pressure (update (some cache) signal 7) "10.0.0.1" ≡ 5
pressure-update_once = pressure-update cache signal 7 "10.0.0.1"
