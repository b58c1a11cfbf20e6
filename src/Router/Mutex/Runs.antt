-- ===== src/Router/Mutex/Runs.antt =====
-- Every step of every history keeps the invariant of the loading states and the leases
-- (internal/router/router.go: GetModelEndpoint).
use rocm_llamacpp_envoy_ai_g.Prelude.{ℕ, String, ◌≡◌, refl, Option, none, some, arith}
use rocm_llamacpp_envoy_ai_g.GoMap
use rocm_llamacpp_envoy_ai_g.GoMap.{GoMap}
use rocm_llamacpp_envoy_ai_g.Router.Types.{Router}
use rocm_llamacpp_envoy_ai_g.Router.Lease.{LeaseApi}
use rocm_llamacpp_envoy_ai_g.Router.Steps.{
  Pc, looking, registering, waiting, retrying, creating, getting, loading, sending, releasing,
  cleaning, finished, Input, set_at, step, warm_endpoint, after_look, after_retry, error_of,
}
use rocm_llamacpp_envoy_ai_g.Router.System.{
  Site, start_router, Thread, Op, calls, runs, discovers, selects, moves, System, world_at, begin,
  resume, transition, initial, Reaches, here, next, Stays, Steady,
}
use rocm_llamacpp_envoy_ai_g.Router.Mutex.{owned, locked}
use rocm_llamacpp_envoy_ai_g.Router.Mutex.Kept.{Kept, discover_warm_models-Kept, selects-Kept}
use rocm_llamacpp_envoy_ai_g.Router.Mutex.Frame.{
  Kept-IsOf, same_at, states-Inv, holder_name, ns, nm, SystemInv, threads-Inv, sited-set_at,
}
use rocm_llamacpp_envoy_ai_g.Router.Mutex.Quiet.{
  look-Idle, retry-Idle, Is, Keeps, same_router, unowned_step, registering-Inv, waiting-Inv,
  loading-Inv, sending-Inv, cleaning-Inv,
}
use rocm_llamacpp_envoy_ai_g.Router.Mutex.Leases.{creating-Inv, getting-Inv, releasing-Inv}

module _ (api : LeaseApi) (sites : ℕ → Site) (s : System api) (i a : ℕ) (m : String)
    (v : SystemInv api sites s) where
  module _ (distinct : (b d : ℕ) → nm api sites b ≡ nm api sites d → b ≡ d) where
    pub step-SystemInv :
        (pc : Pc) (input : Input)
        → Is api sites s i a m v pc
        → Keeps api sites s i a m v (step api (world_at api s a) m pc input)
    unfolding step
    step-SystemInv looking input at =
        unowned_step api sites s i a m v looking (world_at api s a)
          (after_look (warm_endpoint (GoMap.get (s.routers a).models m))) at
          (same_router api sites s i a m v) refl refl
          (look-Idle (warm_endpoint (GoMap.get (s.routers a).models m)))
    step-SystemInv registering input at =
        registering-Inv api sites s i a m v (GoMap.get (s.routers a).loading_models m) refl at
    step-SystemInv (waiting c) input at = waiting-Inv api sites s i a m v c input at
    step-SystemInv retrying input at =
        unowned_step api sites s i a m v retrying (world_at api s a)
          (after_retry (warm_endpoint (GoMap.get (s.routers a).models m))) at
          (same_router api sites s i a m v) refl refl
          (retry-Idle (warm_endpoint (GoMap.get (s.routers a).models m)))
    step-SystemInv (creating c) input at = creating-Inv api sites s i a m v c at
    step-SystemInv (getting c) input at = getting-Inv api sites s i a m v c at
    step-SystemInv (loading c) input at = loading-Inv api sites s i a m v c input at
    step-SystemInv (sending c l r) input at =
        sending-Inv api sites s i a m v c l r
          (record (world_at api s a) { buffers = set_at s.buffers c (some (error_of r)) }) at
          (same_router api sites s i a m v) refl
    step-SystemInv (releasing c r) input at = releasing-Inv api sites s i a m v distinct c r at
    step-SystemInv (cleaning c r) input at = cleaning-Inv api sites s i a m v c r at
    step-SystemInv (finished r) input at =
        unowned_step api sites s i a m v (finished r) (world_at api s a) (finished r) at
          (same_router api sites s i a m v) refl refl (refl, refl)

pub begin-quiet :
    (api : LeaseApi) (o : Option Thread) (a : ℕ) (m : String)
    → (owned (begin api o a m) ≡ owned o) × (locked (begin api o a m) ≡ locked o)
begin-quiet api none a m = (refl, refl)
begin-quiet api (some th) a m = (refl, refl)

module _ (api : LeaseApi) (sites : ℕ → Site) where
  open api use {Store}

  calls-Inv :
      (s : System api) (i a : ℕ) (m : String)
      → SystemInv api sites s
      → SystemInv api sites
          (record s { threads = set_at s.threads i (begin api (s.threads i) a m) })
  calls-Inv s i a m v = record {
    sited = v.sited;
    agreed =
        threads-Inv (ns api sites) (nm api sites) _ _ (λ j. owned (s.threads j)) _
          (λ j. locked (s.threads j)) _
          (same_at owned s.threads i _ (begin-quiet api (s.threads i) a m).0)
          (same_at locked s.threads i _ (begin-quiet api (s.threads i) a m).1) v.agreed;
  }

  routers-Inv :
      (s : System api) (a : ℕ) (r : Router)
      → Kept r (s.routers a)
      → SystemInv api sites s
      → SystemInv api sites (record s { routers = set_at s.routers a r })
  routers-Inv s a r k v = record {
    sited = sited-set_at api sites s 0 a "" v r (Kept-IsOf (sites a) r (s.routers a) k (v.sited a));
    agreed =
        states-Inv (ns api sites) (nm api sites) (λ b. (s.routers b).loading_models) _ _ _ _
          (same_at (λ q. q.loading_models) s.routers a r k.3) v.agreed;
  }

  initial-Inv : (store : Store) → SystemInv api sites (initial api sites store)
  unfolding initial start_router
  initial-Inv store = record {
    sited = λ a. (refl, refl, refl);
    agreed = record {
      registered = λ i a m c e. absurd (ground (arith, e));
      one_owner = λ i j a m c d e f. absurd (ground (arith, e));
      lock_owned = λ i a m e. absurd (ground (arith, e));
      lease_held = λ i a m e. absurd (ground (arith, e));
    };
  }

  module _ (distinct : (b d : ℕ) → holder_name (sites b) ≡ holder_name (sites d) → b ≡ d) where
    runs-Inv :
        (s : System api) (i : ℕ) (o : Option Thread) (input : Input)
        → s.threads i ≡ o
        → SystemInv api sites s
        → SystemInv api sites (resume api s i o input)
    runs-Inv s i none input e v = v
    runs-Inv s i (some th) input e v =
        step-SystemInv api sites s i th.replica th.model v distinct th.pc input e

    transition-Inv :
        (s : System api) (op : Op)
        → Stays api op
        → SystemInv api sites s
        → SystemInv api sites (transition api s op)
    unfolding transition
    transition-Inv s (calls i a m) k v = calls-Inv s i a m v
    transition-Inv s (runs i input) k v = runs-Inv s i (s.threads i) input refl v
    transition-Inv s (discovers a env) k v =
        routers-Inv s a _ (discover_warm_models-Kept (s.routers a) env) v
    transition-Inv s (selects a selector env) k v =
        routers-Inv s a _ (selects-Kept (s.routers a) selector env) v
    transition-Inv s (moves a namespace) k v = absurd k

    pub Reaches-SystemInv :
        {s : System api} (h : Reaches api sites s) → Steady api h → SystemInv api sites s
    unfolding Steady
    Reaches-SystemInv (here store) k = initial-Inv store
    Reaches-SystemInv (next h op) (k, ks) = transition-Inv _ op k (Reaches-SystemInv h ks)
