-- ===== src/Router/Mutex.antt =====
-- One load at a time across the replicas: what the loading states and the leases of
-- internal/router/router.go keep.
pub mod Changes
pub mod Kept
pub mod Frame
pub mod Quiet
pub mod Leases
pub mod Runs
pub mod Exclusion
pub mod Local
use rocm_llamacpp_envoy_ai_g.Prelude.{ℕ, String, ◌≡◌, Bool, true, false, Option, none, some}
use rocm_llamacpp_envoy_ai_g.GoMap
use rocm_llamacpp_envoy_ai_g.GoMap.{GoMap}
use rocm_llamacpp_envoy_ai_g.Router.Lease.{LeaseApi, lease_name}
use rocm_llamacpp_envoy_ai_g.Router.Steps.{
  Pc, looking, registering, waiting, retrying, creating, getting, loading, sending, releasing,
  cleaning, finished,
}
use rocm_llamacpp_envoy_ai_g.Router.System.{Thread, System}

-- The channel that a call at this place has registered.
abbrev pub owned_at : Pc → Option ℕ
owned_at looking = none
owned_at registering = none
owned_at (waiting c) = none
owned_at retrying = none
owned_at (creating c) = some c
owned_at (getting c) = some c
owned_at (loading c) = some c
owned_at (sending c l r) = some c
owned_at (releasing c r) = some c
owned_at (cleaning c r) = some c
owned_at (finished r) = none

-- A call at this place has the lease: it has acquired it and has not released it.
abbrev pub locked_at : Pc → Bool
locked_at looking = false
locked_at registering = false
locked_at (waiting c) = false
locked_at retrying = false
locked_at (creating c) = false
locked_at (getting c) = false
locked_at (loading c) = true
locked_at (sending c l r) = l
locked_at (releasing c r) = true
locked_at (cleaning c r) = false
locked_at (finished r) = false

abbrev pub own : ℕ → String → Option ℕ → Option (ℕ × String × ℕ)
own a m none = none
own a m (some c) = some (a, m, c)

abbrev pub lock : ℕ → String → Bool → Option (ℕ × String)
lock a m false = none
lock a m true = some (a, m)

abbrev pub owned : Option Thread → Option (ℕ × String × ℕ)
owned none = none
owned (some th) = own th.replica th.model (owned_at th.pc)

abbrev pub locked : Option Thread → Option (ℕ × String)
locked none = none
locked (some th) = lock th.replica th.model (locked_at th.pc)

-- The invariant, of the loading states of each replica, the leases, and what each thread owns and has
-- locked. `ns` and `nm` are the namespace and the name of each replica.
pub record Inv (ns nm : ℕ → String) (states : ℕ → GoMap ℕ)
    (lease : String → String → Option (Option String)) (owns : ℕ → Option (ℕ × String × ℕ))
    (locks : ℕ → Option (ℕ × String)) : Type 0 where
  pub registered :
      (i a : ℕ) (m : String) (c : ℕ) → owns i ≡ some (a, m, c) → GoMap.get (states a) m ≡ some c
  pub one_owner :
      (i j a : ℕ) (m : String) (c d : ℕ) → owns i ≡ some (a, m, c) → owns j ≡ some (a, m, d) → i ≡ j
  pub lock_owned :
      (i a : ℕ) (m : String) → locks i ≡ some (a, m) → (c : ℕ) × (owns i ≡ some (a, m, c))
  pub lease_held :
      (i a : ℕ) (m : String)
      → locks i ≡ some (a, m)
      → lease (ns a) (lease_name m) ≡ some (some (nm a))
