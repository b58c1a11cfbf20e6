-- ===== src/Router/Mutex/Quiet.antt =====
-- The steps of internal/router/router.go that touch no lease keep the invariant of the loading states
-- and the leases.
use rocm_llamacpp_envoy_ai_g.Prelude.{
  ℕ, String, ◌≡◌, refl, sym, ◌∙◌, ap, inl, inr, Bool, true, false, Option, none, some, arith,
  Bool-cases,
}
use rocm_llamacpp_envoy_ai_g.GoMap
use rocm_llamacpp_envoy_ai_g.GoMap.{GoMap}
use rocm_llamacpp_envoy_ai_g.Router.Types.{Error, Result, err, cancelled}
use rocm_llamacpp_envoy_ai_g.Router.Load.{load_model_on_best_node}
use rocm_llamacpp_envoy_ai_g.Router.Lease.{LeaseApi, lease_name}
use rocm_llamacpp_envoy_ai_g.Router.Steps.{
  Pc, registering, waiting, creating, loading, sending, releasing, cleaning, finished, Input,
  set_at, World, after_look, after_retry, after_receive, after_send, register, select, wait_step,
  load_step, clean_step,
}
use rocm_llamacpp_envoy_ai_g.Router.System.{Site, System, world_at, after}
use rocm_llamacpp_envoy_ai_g.Router.Mutex.{owned_at, locked_at, own, lock, owned, locked}
use rocm_llamacpp_envoy_ai_g.Router.Mutex.Changes.{register-Inv, clean-Inv}
use rocm_llamacpp_envoy_ai_g.Router.Mutex.Kept.{Kept, load_model_on_best_node-Kept}
use rocm_llamacpp_envoy_ai_g.Router.Mutex.Frame.{
  owned-set_at, locked-set_at, same_at, ns, nm, SystemInv, At, after-Inv, grow-step,
}

-- A call at this place has registered nothing.
abbrev pub Idle : Pc → Type 0
Idle pc = (owned_at pc ≡ none) × (locked_at pc ≡ false)

pub look-Idle : (o : Option String) → Idle (after_look o)
look-Idle none = (refl, refl)
look-Idle (some e) = (refl, refl)

pub retry-Idle : (o : Option String) → Idle (after_retry o)
retry-Idle none = (refl, refl)
retry-Idle (some e) = (refl, refl)

pub receive-Idle : (o : Option Error) → Idle (after_receive o)
receive-Idle none = (refl, refl)
receive-Idle (some e) = (refl, refl)

own-some : (a : ℕ) (m : String) (o : Option ℕ) (c : ℕ) → own a m o ≡ some (a, m, c) → o ≡ some c
own-some a m none c e = absurd (ground (arith, e))
own-some a m (some d) c e = ground (arith, e)

module _ (api : LeaseApi) (sites : ℕ → Site) (s : System api) (i a : ℕ) (m : String)
    (v : SystemInv api sites s) where
  open api use {
    Store, lease_of, create, get, delete, create-effect, create-created, create-other, get-got,
    delete-other,
  }

  abbrev pub Is : Pc → Type 0
  Is = At api sites s i a m v

  abbrev pub Keeps : World api × Pc → Type 0
  Keeps r = SystemInv api sites (after api s i a m r)

  -- A step between two places that own the same loading state, after which the call has a lease only
  -- if it had it before.
  pub quiet-step :
      (pc : Pc) (w : World api) (pc' : Pc)
      → Is pc
      → Kept w.router (s.routers a)
      → w.store ≡ s.store
      → owned_at pc' ≡ owned_at pc
      → (locked_at pc' ≡ true → locked_at pc ≡ true)
      → Keeps (w, pc')
  quiet-step pc w pc' at kept st e l =
      grow-step api sites s i a m v pc w pc' at kept e (λ n k x q. ap (λ t. lease_of t n k) st ∙ q)
        (λ q.
          let mine : locked (s.threads i) ≡ some (a, m) = ap locked at ∙ ap (lock a m) (l q) in
          let (c, o) = v.agreed.lock_owned i a m mine in
          (
            (c, own-some a m (owned_at pc) c (sym (ap owned at) ∙ o)),
            ap (λ t. lease_of t (ns api sites a) (lease_name m)) st
                ∙ v.agreed.lease_held i a m mine,
          ))

  pub same_router : Kept (s.routers a) (s.routers a)
  same_router = (refl, refl, refl, refl)

  pub unowned_step :
      (pc : Pc) (w : World api) (pc' : Pc)
      → Is pc
      → Kept w.router (s.routers a)
      → w.store ≡ s.store
      → owned_at pc ≡ none
      → Idle pc'
      → Keeps (w, pc')
  unowned_step pc w pc' at kept st e (x, y) =
      quiet-step pc w pc' at kept st (x ∙ sym e) (λ q. absurd (ground (arith, q, y)))

  pub registering-Inv :
      (o : Option ℕ)
      → GoMap.get (s.routers a).loading_models m ≡ o
      → Is registering
      → Keeps (register api (world_at api s a) m o)
  registering-Inv none e at =
      after-Inv api sites s i a m v (register api (world_at api s a) m none).0
        (creating s.next_channel) (v.sited a)
        (register-Inv (ns api sites) (nm api sites) (λ b. (s.routers b).loading_models)
          (lease_of s.store) (lease_of s.store) (λ j. owned (s.threads j)) _
          (λ j. locked (s.threads j)) _ i v.agreed a m s.next_channel e (owned-set_at s.threads i _)
          (locked-set_at s.threads i _))
  registering-Inv (some c) e at =
      unowned_step registering (world_at api s a) (waiting c) at same_router refl refl (refl, refl)

  select-Inv :
      (c : ℕ) (o : Option (Option Error))
      → Is (waiting c)
      → Keeps (select api (world_at api s a) c o)
  select-Inv c none at =
      unowned_step (waiting c) (world_at api s a) (waiting c) at same_router refl refl (refl, refl)
  select-Inv c (some e) at =
      unowned_step (waiting c) (record (world_at api s a) { buffers = set_at s.buffers c none })
        (after_receive e) at same_router refl refl (receive-Idle e)

  pub waiting-Inv :
      (c : ℕ) (input : Input) → Is (waiting c) → Keeps (wait_step api (world_at api s a) c input)
  waiting-Inv c input at = elim (Bool-cases input.is_cancelled) [
    | inl q ↦ rw q (
        unowned_step (waiting c) (world_at api s a) (finished (err cancelled)) at same_router refl
          refl (refl, refl))
    | inr q ↦ rw q (select-Inv c (s.buffers c) at)
  ]

  pub loading-Inv :
      (c : ℕ) (input : Input) → Is (loading c) → Keeps (load_step api (world_at api s a) m c input)
  loading-Inv c input at =
      let done = load_model_on_best_node (s.routers a) input.env input.tracker m input.now in
      quiet-step (loading c) (record (world_at api s a) { router = done.0 }) (sending c true done.1)
        at (load_model_on_best_node-Kept (s.routers a) input.env input.tracker m input.now) refl
        refl (λ q. refl)

  pub sending-Inv :
      (c : ℕ) (l : Bool) (r : Result String) (w : World api)
      → Is (sending c l r)
      → Kept w.router (s.routers a)
      → w.store ≡ s.store
      → Keeps (w, after_send c l r)
  sending-Inv c true r w at kept st =
      quiet-step (sending c true r) w (releasing c r) at kept st refl (λ q. refl)
  sending-Inv c false r w at kept st =
      quiet-step (sending c false r) w (cleaning c r) at kept st refl
        (λ q. absurd (ground (arith, q)))

  pub cleaning-Inv :
      (c : ℕ) (r : Result String)
      → Is (cleaning c r)
      → Keeps (clean_step api (world_at api s a) m c r)
  cleaning-Inv c r at =
      after-Inv api sites s i a m v (clean_step api (world_at api s a) m c r).0 (finished r)
        (v.sited a)
        (clean-Inv (ns api sites) (nm api sites) (λ b. (s.routers b).loading_models)
          (lease_of s.store) (lease_of s.store) (λ j. owned (s.threads j)) _
          (λ j. locked (s.threads j)) _ i v.agreed a m c (ap owned at) (ap locked at)
          (owned-set_at s.threads i _) (same_at locked s.threads i _ (sym (ap locked at))))
