-- ===== src/Pool/Tests.antt =====
-- The pool manager (internal/pool/manager.go) with one pool.
use rocm_llamacpp_envoy_ai_g.Prelude.{String, ◌≡◌, ◌⊎◌, inl, inr, none, some, [], ◌∷◌}
use rocm_llamacpp_envoy_ai_g.GoMap.{GoMap}
use rocm_llamacpp_envoy_ai_g.Pool.{
  PoolKey, PoolConfig, Manager, new_manager, get_pool, get_default_pool, get_router,
  no_pool_available, upserts, transition, Reaches, here, next,
}
use rocm_llamacpp_envoy_ai_g.Pool.Laws.{get_default_pool-Reaches, get_router-Reaches}

abbrev llm : PoolKey
llm = record { namespace = "llm"; name = "chat" }

abbrev labels : GoMap String
labels = ("app", "llama-server") ∷ []

abbrev one_pool : Manager
one_pool = transition new_manager (upserts llm labels (8080 ∷ []))

abbrev history : Reaches one_pool
history = next here (upserts llm labels (8080 ∷ []))

get_default_pool-Reaches_example :
    ((one_pool.pools ≡ []) × (get_default_pool one_pool ≡ none))
    ⊎ ((k : PoolKey) × (pool : PoolConfig) × (get_pool one_pool k ≡ some pool)
        × (get_default_pool one_pool ≡ some pool))
get_default_pool-Reaches_example = get_default_pool-Reaches history

get_router-Reaches_example :
    ((one_pool.pools ≡ []) × (get_router one_pool llm ≡ inl no_pool_available))
    ⊎ ((pool : PoolConfig) × ((get_pool one_pool llm ≡ some pool)
          ⊎ ((get_pool one_pool llm ≡ none) × (get_default_pool one_pool ≡ some pool)))
        × (get_router one_pool llm ≡ inr pool.router))
get_router-Reaches_example = get_router-Reaches history llm
