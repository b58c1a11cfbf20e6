-- ===== src/PodState.antt =====
-- internal/podstate/cache.go: the last load signal of each pod.
-- A `*Cache` is an option, since the methods accept nil. The counts are numbers that are not
-- negative, and their sum is exact as a float64 (below 2^53). `F` is the type float64 of the
-- KV-cache share, which no operation reads; the time of a call is an argument.
mod Tests
use rocm_llamacpp_envoy_ai_g.Prelude.{
  ℕ, ◌+◌, String, ◌≡◌, Option, none, some, [], arith, ◌==◌, eq_iff, if◌then◌else◌,
}
use rocm_llamacpp_envoy_ai_g.GoMap
use rocm_llamacpp_envoy_ai_g.GoMap.{GoMap}

pub record Snapshot (F : Type 0) : Type 0 where
  pub pod_key : String
  pub running_requests_size : ℕ
  pub waiting_queue_size : ℕ
  pub kv_cache_usage_percent : F
  pub update_time : ℕ

pub record Cache (F : Type 0) : Type 0 where
  pub entries : GoMap (Snapshot F)

module _ {F : Type 0} where
  abbrev pub new_cache : Option (Cache F)
  new_cache = some (record { entries = [] })

  unfoldable pub update : Option (Cache F) → Snapshot F → ℕ → Option (Cache F)
  update none s now = none
  update (some c) s now =
      if s.pod_key == ""
      then some c
      else some
          (record { entries = GoMap.put c.entries s.pod_key (record s { update_time = now }) })

  abbrev score : Option (Snapshot F) → ℕ
  score none = 0
  score (some s) = s.running_requests_size + s.waiting_queue_size

  unfoldable pub pressure : Option (Cache F) → String → ℕ
  pressure none pod_key = 0
  pressure (some c) pod_key = if pod_key == "" then 0 else score (GoMap.get c.entries pod_key)

  unfoldable pub get : Option (Cache F) → String → Option (Snapshot F)
  get none pod_key = none
  get (some c) pod_key = GoMap.get c.entries pod_key

  -- After an update with a key, the key's pressure is the sum of the new counts, and the pressure
  -- of every other key is what it was; an update without a key changes no pressure.
  pub pressure-update :
      (c : Cache F) (s : Snapshot F) (now : ℕ) (k : String)
      → pressure (update (some c) s now) k ≡ (
          if s.pod_key == ""
          then pressure (some c) k
          else if s.pod_key == k
          then s.running_requests_size + s.waiting_queue_size
          else pressure (some c) k)
  unfolding pressure update
  pressure-update c s now k = ground (
    arith,
    GoMap.get-put c.entries s.pod_key k (record s { update_time = now }),
    eq_iff k "",
    eq_iff s.pod_key k,
    eq_iff s.pod_key "",
  )
