-- ===== src/Controller.antt =====
-- internal/controller/inferencepool_controller.go: an InferencePool of the cluster becomes a pool of the
-- manager. The fetch of the resource is an argument.
mod Tests
use rocm_llamacpp_envoy_ai_g.Prelude.{
  ℕ, String, ◌≡◌, refl, Bool, true, false, Option, none, some, List,
}
use rocm_llamacpp_envoy_ai_g.GoMap.{GoMap}
use rocm_llamacpp_envoy_ai_g.Pool.{PoolKey, PoolConfig, Manager, upsert_pool, delete_pool, get_pool}
use rocm_llamacpp_envoy_ai_g.Pool.Laws.{Configured, get_pool-upsert_pool, get_pool-delete_pool}

-- What the fetch of an InferencePool gives: an error, no resource, or its selector and its ports.
pub data Fetched : Type 0 where
  failed : Fetched
  not_found : Fetched
  found : GoMap String → List ℕ → Fetched

-- Reconcile; the second component is whether it returns an error.
unfoldable pub reconcile : Manager → PoolKey → Fetched → Manager × Bool
reconcile m key failed = (m, true)
reconcile m key not_found = (delete_pool m key, false)
reconcile m key (found pod_selector target_ports) =
    (upsert_pool m key pod_selector target_ports, false)

-- What a reconciliation should come to: the pool is as it was and there is an error, or the pool is
-- gone, or the pool is there with what the resource says.
abbrev pub Reconciled : Manager → PoolKey → Fetched → Manager × Bool → Type 0
Reconciled m key failed (m', e) = (get_pool m' key ≡ get_pool m key) × (e ≡ true)
Reconciled m key not_found (m', e) = (get_pool m' key ≡ none) × (e ≡ false)
Reconciled m key (found pod_selector target_ports) (m', e) =
    ((pool : PoolConfig) × (get_pool m' key ≡ some pool)
      × Configured pool key pod_selector target_ports)
    × (e ≡ false)

-- For every outcome of the fetch: an error leaves the pool as it was and is returned; a resource that
-- is gone leaves no pool for its key; a resource that is there leaves a pool with its selector and
-- ports, whose router and VRAM tracker look at the key's namespace with that selector.
pub reconcile-Reconciled :
    (m : Manager) (key : PoolKey) (fetched : Fetched)
    → Reconciled m key fetched (reconcile m key fetched)
unfolding reconcile
reconcile-Reconciled m key failed = (refl, refl)
reconcile-Reconciled m key not_found = (get_pool-delete_pool m key, refl)
reconcile-Reconciled m key (found pod_selector target_ports) =
    (get_pool-upsert_pool m key pod_selector target_ports, refl)
