-- ===== src/Filter.antt =====
-- internal/plugins/filter/loaded_model.go: the filter that keeps the pods with the model loaded.
-- A pod of the framework is its endpoint information and its metrics, each nil as `none`; `F` is
-- float64. The clock is read once for one call of Filter.
pub mod Laws
pub mod Present
mod Tests
use rocm_llamacpp_envoy_ai_g.Prelude.{
  ℕ, String, Bool, Option, none, some, List, [], ◌∷◌, ◌++◌, ◌==◌, ◌⊎◌, inl, inr, if◌then◌else◌,
}
use rocm_llamacpp_envoy_ai_g.PodState.{Snapshot, Cache, update}
use rocm_llamacpp_envoy_ai_g.ModelTracker.Types.{Tracker}
use rocm_llamacpp_envoy_ai_g.ModelTracker.State.{is_loaded}

-- The part of the framework's pod metrics that the filter reads.
pub record Metrics (F : Type 0) : Type 0 where
  pub running_requests_size : ℕ
  pub waiting_queue_size : ℕ
  pub kv_cache_usage_percent : F

-- types.Pod: the Address of GetPod, and GetMetrics.
pub record Pod (F : Type 0) : Type 0 where
  pub address : Option String
  pub metrics : Option (Metrics F)

-- The filter's tracker and pod state cache, nil as `none`.
pub record LoadedModelFilter (F : Type 0) : Type 0 where
  pub tracker : Option Tracker
  pub pod_state : Option (Cache F)

pub data Error : Type 0 where
  deps_not_set : Error

module _ {F : Type 0} where
  unfoldable pub new_loaded_model_filter : Option Tracker → LoadedModelFilter F
  new_loaded_model_filter tracker = record { tracker = tracker; pod_state = none }

  unfoldable pub with_pod_state : LoadedModelFilter F → Option (Cache F) → LoadedModelFilter F
  with_pod_state f cache = record f { pod_state = cache }

  -- The global dependencies are an argument.
  unfoldable pub loaded_model_filter_factory :
      Option (LoadedModelFilter F) → Error ⊎ LoadedModelFilter F
  unfolding new_loaded_model_filter with_pod_state
  loaded_model_filter_factory none = inl deps_not_set
  loaded_model_filter_factory (some deps) =
      inr (with_pod_state (new_loaded_model_filter deps.tracker) deps.pod_state)

  abbrev feed_metrics : Option (Cache F) → String → Option (Metrics F) → ℕ → Option (Cache F)
  feed_metrics cache key none now = cache
  feed_metrics cache key (some m) now =
      update cache
        (record {
          pod_key = key;
          running_requests_size = m.running_requests_size;
          waiting_queue_size = m.waiting_queue_size;
          kv_cache_usage_percent = m.kv_cache_usage_percent;
          update_time = 0;
        })
        now

  -- One round of the loop: the pods kept so far and the cache.
  unfoldable pub visit :
      Tracker
      → String
      → ℕ
      → Pod F
      → Option String
      → List (Pod F) × Option (Cache F)
      → List (Pod F) × Option (Cache F)
  visit t model now pod none acc = acc
  visit t model now pod (some key) (warm, cache) = (
    if is_loaded t key model then warm ++ pod ∷ [] else warm,
    feed_metrics cache key pod.metrics now,
  )

  unfoldable pub visit_all :
      Tracker
      → String
      → ℕ
      → List (Pod F)
      → List (Pod F) × Option (Cache F)
      → List (Pod F) × Option (Cache F)
  unfolding visit
  visit_all t model now [] acc = acc
  visit_all t model now (pod ∷ pods) acc =
      visit_all t model now pods (visit t model now pod pod.address acc)

  abbrev or_all : List (Pod F) → List (Pod F) × Option (Cache F) → List (Pod F) × Option (Cache F)
  or_all pods ([], cache) = (pods, cache)
  or_all pods (pod ∷ warm, cache) = (pod ∷ warm, cache)

  abbrev filter_with :
      LoadedModelFilter F
      → Option Tracker
      → String
      → List (Pod F)
      → ℕ
      → List (Pod F) × Option (Cache F)
  filter_with f none model pods now = (pods, f.pod_state)
  filter_with f (some t) model pods now = or_all pods (visit_all t model now pods ([], f.pod_state))

  -- Filter; the request is its TargetModel, a nil request `none`. The second component is the pod
  -- state cache after the call.
  unfoldable pub filter :
      LoadedModelFilter F → Option String → List (Pod F) → ℕ → List (Pod F) × Option (Cache F)
  unfolding visit_all
  filter f none pods now = (pods, f.pod_state)
  filter f (some model) pods now =
      if model == "" then (pods, f.pod_state) else filter_with f f.tracker model pods now
