-- ===== src/Pool.antt =====
-- internal/pool/manager.go: the registry of inference pools and the default pool. A *PoolConfig is a
-- number, and the heap of them a function, since the registry and the default share them. A router
-- and a VRAM tracker are the namespace and the selector that they look at; their goroutines and the
-- replies of a router to IsReady are left to the caller.
pub mod Laws
mod Tests
use rocm_llamacpp_envoy_ai_g.Prelude.{
  ℕ, suc, String, Bool, true, false, ◌&&◌, Option, none, some, List, [], ◌∷◌, ◌==◌, nat_eq, length,
  ◌⊎◌, inl, inr, if◌then◌else◌,
}
use rocm_llamacpp_envoy_ai_g.GoMap.{GoMap}

pub record PoolKey : Type 0 where
  pub namespace : String
  pub name : String

-- `==` on keys.
abbrev pub same_key : PoolKey → PoolKey → Bool
same_key k l = k.namespace == l.namespace && k.name == l.name

-- What a router or a VRAM tracker looks at.
pub record Watch : Type 0 where
  pub namespace : String
  pub pod_selector : GoMap String

pub record PoolConfig : Type 0 where
  pub key : PoolKey
  pub pod_selector : GoMap String
  pub target_ports : List ℕ
  pub router : Watch
  pub vram_tracker : Watch

pub data Error : Type 0 where
  no_pool_available no_default_pool_available : Error

pub record Manager : Type 0 where
  pub pools : List (PoolKey × ℕ)
  pub default_pool : Option ℕ
  -- the pools behind the pointers, and the first pointer that is not in use
  pub heap : ℕ → PoolConfig
  pub next_pool : ℕ

abbrev no_config : PoolConfig
no_config = record {
  key = record { namespace = ""; name = "" };
  pod_selector = [];
  target_ports = [];
  router = record { namespace = ""; pod_selector = [] };
  vram_tracker = record { namespace = ""; pod_selector = [] };
}

unfoldable pub new_manager : Manager
new_manager = record { pools = []; default_pool = none; heap = λ r. no_config; next_pool = 0 }

-- pool, exists := m.pools[key]
unfoldable pub find : List (PoolKey × ℕ) → PoolKey → Option ℕ
find [] key = none
find ((k, r) ∷ pools) key = let rest = find pools key in if same_key k key then some r else rest

-- delete(m.pools, key)
unfoldable pub remove : List (PoolKey × ℕ) → PoolKey → List (PoolKey × ℕ)
remove [] key = []
remove ((k, r) ∷ pools) key =
    let rest = remove pools key in if same_key k key then rest else (k, r) ∷ rest

abbrev pub write : (ℕ → PoolConfig) → ℕ → PoolConfig → ℕ → PoolConfig
write heap r pool q = if nat_eq q r then pool else heap q

-- What UpsertPool makes of a pool, new or not.
abbrev pub configured : PoolKey → GoMap String → List ℕ → PoolConfig
configured key pod_selector target_ports = record {
  key = key;
  pod_selector = pod_selector;
  target_ports = target_ports;
  router = record { namespace = key.namespace; pod_selector = pod_selector };
  vram_tracker = record { namespace = key.namespace; pod_selector = pod_selector };
}

-- The update of an existing pool, through its pointer.
abbrev pub reconfigured : PoolConfig → PoolKey → GoMap String → List ℕ → PoolConfig
reconfigured pool key pod_selector target_ports = record pool {
  pod_selector = pod_selector;
  target_ports = target_ports;
  router = record { namespace = key.namespace; pod_selector = pod_selector };
  vram_tracker = record { namespace = key.namespace; pod_selector = pod_selector };
}

abbrev or_new : Option ℕ → ℕ → Option ℕ
or_new none r = some r
or_new (some d) r = some d

abbrev upsert : Manager → Option ℕ → PoolKey → GoMap String → List ℕ → Manager
upsert m (some r) key pod_selector target_ports = record m {
  heap = write m.heap r (reconfigured (m.heap r) key pod_selector target_ports);
}
upsert m none key pod_selector target_ports = record {
  pools = (key, m.next_pool) ∷ m.pools;
  default_pool = or_new m.default_pool m.next_pool;
  heap = write m.heap m.next_pool (configured key pod_selector target_ports);
  next_pool = suc m.next_pool;
}

unfoldable pub upsert_pool : Manager → PoolKey → GoMap String → List ℕ → Manager
upsert_pool m key pod_selector target_ports =
    upsert m (find m.pools key) key pod_selector target_ports

abbrev pub points_to : Option ℕ → ℕ → Bool
points_to none r = false
points_to (some d) r = nat_eq d r

-- The first pool that a range over the map gives.
abbrev pub first_pool : List (PoolKey × ℕ) → Option ℕ
first_pool [] = none
first_pool ((k, r) ∷ pools) = some r

abbrev delete : Manager → Option ℕ → PoolKey → Manager
delete m none key = m
delete m (some r) key =
    let rest = remove m.pools key in
    record m {
      pools = rest;
      default_pool = if points_to m.default_pool r then first_pool rest else m.default_pool;
    }

unfoldable pub delete_pool : Manager → PoolKey → Manager
unfolding remove
delete_pool m key = delete m (find m.pools key) key

abbrev pub read : (ℕ → PoolConfig) → Option ℕ → Option PoolConfig
read heap none = none
read heap (some r) = some (heap r)

unfoldable pub get_pool : Manager → PoolKey → Option PoolConfig
unfolding find
get_pool m key = read m.heap (find m.pools key)

unfoldable pub get_default_pool : Manager → Option PoolConfig
get_default_pool m = read m.heap m.default_pool

abbrev router_or : Option PoolConfig → Error → Error ⊎ Watch
router_or none e = inl e
router_or (some pool) e = inr pool.router

abbrev pub or_else : Option PoolConfig → Option PoolConfig → Option PoolConfig
or_else none o = o
or_else (some p) o = some p

unfoldable pub get_router : Manager → PoolKey → Error ⊎ Watch
unfolding get_pool get_default_pool
get_router m key = router_or (or_else (get_pool m key) (get_default_pool m)) no_pool_available

unfoldable pub get_default_router : Manager → Error ⊎ Watch
unfolding get_default_pool
get_default_router m = router_or (get_default_pool m) no_default_pool_available

abbrev keys : List (PoolKey × ℕ) → List PoolKey
keys [] = []
keys ((k, r) ∷ pools) = k ∷ keys pools

unfoldable pub list_pools : Manager → List PoolKey
list_pools m = keys m.pools

unfoldable pub pool_count : Manager → ℕ
pool_count m = length m.pools

abbrev any_ready : (PoolConfig → Bool) → (ℕ → PoolConfig) → List (PoolKey × ℕ) → Bool
any_ready ready heap [] = false
any_ready ready heap ((k, r) ∷ pools) = if ready (heap r) then true else any_ready ready heap pools

unfoldable pub is_ready : (PoolConfig → Bool) → Manager → Bool
is_ready ready m = any_ready ready m.heap m.pools

pub data Op : Type 0 where
  upserts : PoolKey → GoMap String → List ℕ → Op
  deletes : PoolKey → Op

pub transition : Manager → Op → Manager
transition m (upserts key pod_selector target_ports) = upsert_pool m key pod_selector target_ports
transition m (deletes key) = delete_pool m key

pub data Reaches : Manager → Type 0 where
  here : Reaches new_manager
  next : {m : Manager} → Reaches m → (op : Op) → Reaches (transition m op)
