-- ===== src/Router/Mutex/Exclusion.antt =====
-- Who loads a model (internal/router/router.go: GetModelEndpoint, tryAcquireLease).
use rocm_llamacpp_envoy_ai_g.Prelude.{ℕ, ◌≡◌, sym, ◌∙◌, ap, true, some}
use rocm_llamacpp_envoy_ai_g.Router.Lease.{LeaseApi, lease_name}
use rocm_llamacpp_envoy_ai_g.Router.System.{Site, Thread, System, Reaches, Steady}
use rocm_llamacpp_envoy_ai_g.Router.Mutex.{locked_at, lock, owned, locked}
use rocm_llamacpp_envoy_ai_g.Router.Mutex.Changes.{same_holder}
use rocm_llamacpp_envoy_ai_g.Router.Mutex.Frame.{holder_name}
use rocm_llamacpp_envoy_ai_g.Router.Mutex.Runs.{Reaches-SystemInv}

module _ (api : LeaseApi) (sites : ℕ → Site)
    (distinct : (a b : ℕ) → holder_name (sites a) ≡ holder_name (sites b) → a ≡ b) where
  -- In every history of replicas that have a Kubernetes client and distinct holder names, in which no
  -- namespace is updated: two calls of GetModelEndpoint that have
  -- the lease of the same model, from its acquisition to its release, on replicas in the same namespace,
  -- are one call: no other call, on this replica or another, loads the model meanwhile. The lease of such
  -- a call is in the API's store with the name of its replica.
  pub lease_excludes :
      {s : System api} (h : Reaches api sites s)
      → Steady api h
      → (i j : ℕ) (t u : Thread) → s.threads i ≡ some t
      → s.threads j ≡ some u
      → locked_at t.pc ≡ true
      → locked_at u.pc ≡ true
      → t.model ≡ u.model
      → (sites t.replica).namespace ≡ (sites u.replica).namespace
      → (i ≡ j)
        × (api.lease_of s.store (sites t.replica).namespace (lease_name t.model)
            ≡ some (some (holder_name (sites t.replica))))
  lease_excludes {s = s} h k i j t u et eu lt lu em en =
      let v = Reaches-SystemInv api sites distinct h k in
      let mine : locked (s.threads i) ≡ some (t.replica, t.model) =
        ap locked et ∙ ap (lock t.replica t.model) lt in
      let theirs : locked (s.threads j) ≡ some (u.replica, u.model) =
        ap locked eu ∙ ap (lock u.replica u.model) lu in
      (
        sym (
            same_holder (λ a. (sites a).namespace) (λ a. holder_name (sites a))
              (λ a. (s.routers a).loading_models) (api.lease_of s.store) (λ k. owned (s.threads k))
              (λ k. locked (s.threads k)) v.agreed distinct i j t.replica u.replica t.model u.model
              mine theirs en (ap lease_name em)),
        v.agreed.lease_held i t.replica t.model mine,
      )
