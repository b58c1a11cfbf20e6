-- ===== src/Router/Wait.antt =====
-- The calls that wait for the load of another call (internal/router/router.go: GetModelEndpoint, Done).
pub mod Channels
pub mod Orphans
use rocm_llamacpp_envoy_ai_g.Prelude.{
  ℕ, ◌<◌, String, ◌≡◌, true, false, Option, none, some, List, [], ◌∷◌, nat_eq,
}
use rocm_llamacpp_envoy_ai_g.Router.Lease.{LeaseApi}
use rocm_llamacpp_envoy_ai_g.Router.Steps.{waiting, Input}
use rocm_llamacpp_envoy_ai_g.Router.System.{
  Thread, Op, calls, runs, discovers, selects, moves, System,
}
use rocm_llamacpp_envoy_ai_g.Router.Mutex.{owned_at}

-- The operation is not a step of the call `i` with its context done.
abbrev pub Uncancelled : ℕ → Op → Type 0
Uncancelled i (calls j a m) = Unit {0}
Uncancelled i (runs j input) = nat_eq j i ≡ true → input.is_cancelled ≡ false
Uncancelled i (discovers a env) = Unit {0}
Uncancelled i (selects a selector env) = Unit {0}
Uncancelled i (moves a namespace) = Unit {0}

abbrev pub AllUncancelled : ℕ → List Op → Type 0
AllUncancelled i [] = Unit {0}
AllUncancelled i (op ∷ ops) = Uncancelled i op × AllUncancelled i ops

-- The channel that a call sends on.
abbrev pub owner : Option Thread → Option ℕ
owner none = none
owner (some th) = owned_at th.pc

module _ (api : LeaseApi) where
  -- The call `i` waits for a result that nobody will send: nothing is in the buffer of `c`, and no call
  -- that is running sends on it.
  pub record Orphaned (s : System api) (i a : ℕ) (m : String) (c : ℕ) : Type 0 where
    pub waits : s.threads i ≡ some (record { replica = a; model = m; pc = waiting c })
    pub unsent : s.buffers c ≡ none
    pub registered : c < s.next_channel
    pub abandoned : (j : ℕ) → owner (s.threads j) ≡ some c → ⊥
