-- ===== src/Controller/Tests.antt =====
-- The reconciler (internal/controller/inferencepool_controller.go) on a new resource.
use rocm_llamacpp_envoy_ai_g.Prelude.{[], ◌∷◌}
use rocm_llamacpp_envoy_ai_g.Pool.{PoolKey, new_manager}
use rocm_llamacpp_envoy_ai_g.Controller.{found, reconcile, Reconciled, reconcile-Reconciled}

abbrev llm : PoolKey
llm = record { namespace = "llm"; name = "chat" }

reconcile-Reconciled_example :
    Reconciled new_manager llm
      (found [] (8080 ∷ []))
      (reconcile new_manager llm (found [] (8080 ∷ [])))
reconcile-Reconciled_example = reconcile-Reconciled new_manager llm (found [] (8080 ∷ []))
