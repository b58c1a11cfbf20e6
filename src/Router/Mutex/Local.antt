-- ===== src/Router/Mutex/Local.antt =====
-- One load of a model at a time on a replica, whatever the leases say (internal/router/router.go:
-- GetModelEndpoint, loadingModels).
use rocm_llamacpp_envoy_ai_g.Prelude.{
  ℕ, String, ◌≡◌, refl, sym, ◌∙◌, ap, inl, inr, Bool, true, false, not, Option, none, some, arith,
  Bool-cases, nat_eq, if◌then◌else◌,
}
use rocm_llamacpp_envoy_ai_g.GoMap
use rocm_llamacpp_envoy_ai_g.GoMap.{GoMap}
use rocm_llamacpp_envoy_ai_g.Router.Types.{Router, Error, Result, err, cancelled}
use rocm_llamacpp_envoy_ai_g.Router.Load.{load_model_on_best_node}
use rocm_llamacpp_envoy_ai_g.Router.Lease.{LeaseApi, lease_name}
use rocm_llamacpp_envoy_ai_g.Router.Steps.{
  Pc, looking, registering, waiting, retrying, creating, getting, loading, sending, releasing,
  cleaning, finished, Input, set_at, World, step, warm_endpoint, after_receive, after_send,
  after_create, after_get, register, select, clean_step,
}
use rocm_llamacpp_envoy_ai_g.Router.Types.{update_namespace}
use rocm_llamacpp_envoy_ai_g.Router.System.{
  Site, Thread, Op, calls, runs, discovers, selects, moves, System, world_at, after, resume,
  transition, initial, Reaches, here, next,
}
use rocm_llamacpp_envoy_ai_g.Router.Mutex.{owned_at, own, owned, Inv}
use rocm_llamacpp_envoy_ai_g.Router.Mutex.Changes.{register-Inv, clean-Inv}
use rocm_llamacpp_envoy_ai_g.Router.Mutex.Kept.{
  Kept, discover_warm_models-Kept, selects-Kept, load_model_on_best_node-Kept,
}
use rocm_llamacpp_envoy_ai_g.Router.Mutex.Frame.{owned-set_at, same_at, states-Inv, threads-Inv}
use rocm_llamacpp_envoy_ai_g.Router.Mutex.Quiet.{look-Idle, retry-Idle, receive-Idle}
use rocm_llamacpp_envoy_ai_g.Router.Mutex.Runs.{begin-quiet}
use rocm_llamacpp_envoy_ai_g.Router.Wait.Channels.{create_owned, get_owned, send_owned}

-- The invariant of the loading states alone: no leases, and nobody has one.
abbrev unused : ℕ → String
unused a = ""

abbrev no_lease : String → String → Option (Option String)
no_lease ns name = none

abbrev no_lock : ℕ → Option (ℕ × String)
no_lock i = none

module _ (api : LeaseApi) where
  abbrev pub LocalInv : System api → Type 0
  LocalInv s =
      Inv unused unused (λ a. (s.routers a).loading_models) no_lease (λ i. owned (s.threads i))
        no_lock

  module _ (s : System api) (i a : ℕ) (m : String) (v : LocalInv s) where
    abbrev Is : Pc → Type 0
    Is pc = s.threads i ≡ some (record { replica = a; model = m; pc = pc })

    abbrev Keeps : World api × Pc → Type 0
    Keeps r = LocalInv (after api s i a m r)

    -- A step that leaves the loading states, and what the call owns.
    same-step :
        (pc : Pc) (w : World api) (pc' : Pc)
        → Is pc
        → w.router.loading_models ≡ (s.routers a).loading_models
        → owned_at pc' ≡ owned_at pc
        → Keeps (w, pc')
    same-step pc w pc' at kept e =
        states-Inv unused unused (λ b. (s.routers b).loading_models) _ no_lease _ no_lock
          (same_at (λ r. r.loading_models) s.routers a w.router kept)
          (threads-Inv unused unused _ no_lease (λ j. owned (s.threads j)) _ no_lock no_lock
            (same_at owned s.threads i _ (ap (own a m) e ∙ sym (ap owned at))) (λ j. refl) v)

    abbrev w : World api
    w = world_at api s a

    moved :
        (states : GoMap ℕ) (r : Router)
        → r.loading_models ≡ states
        → (b : ℕ)
        → (set_at s.routers a r b).loading_models
          ≡ set_at (λ b. (s.routers b).loading_models) a states b
    moved states r e b = elim (Bool-cases (nat_eq b a)) [ inl q ↦ rw q e | inr q ↦ rw q refl ]

    register-Local :
        (o : Option ℕ)
        → GoMap.get (s.routers a).loading_models m ≡ o
        → Is registering
        → Keeps (register api w m o)
    register-Local none e at =
        states-Inv unused unused _ _ no_lease _ no_lock
          (moved (GoMap.put (s.routers a).loading_models m s.next_channel)
            (register api w m none).0.router refl)
          (register-Inv unused unused (λ b. (s.routers b).loading_models) no_lease no_lease
            (λ j. owned (s.threads j)) _ no_lock no_lock i v a m s.next_channel e
            (owned-set_at s.threads i _)
            (λ j. elim (Bool-cases (nat_eq j i)) [ inl q ↦ rw q refl | inr q ↦ rw q refl ]))
    register-Local (some c) e at = same-step registering w (waiting c) at refl refl

    select-Local : (c : ℕ) (o : Option (Option Error)) → Is (waiting c) → Keeps (select api w c o)
    select-Local c none at = same-step (waiting c) w (waiting c) at refl refl
    select-Local c (some e) at =
        same-step (waiting c) (record w { buffers = set_at s.buffers c none }) (after_receive e) at
          refl (receive-Idle e).0

    if-Keeps : (b : Bool) (x y : World api × Pc) → Keeps x → Keeps y → Keeps (if b then x else y)
    if-Keeps true x y h k = h
    if-Keeps false x y h k = k

    clean-Local : (c : ℕ) (r : Result String) → Is (cleaning c r) → Keeps (clean_step api w m c r)
    clean-Local c r at =
        states-Inv unused unused _ _ no_lease _ no_lock
          (moved (GoMap.delete (s.routers a).loading_models m) (clean_step api w m c r).0.router
            refl)
          (clean-Inv unused unused (λ b. (s.routers b).loading_models) no_lease no_lease
            (λ j. owned (s.threads j)) _ no_lock no_lock i v a m c (ap owned at) refl
            (owned-set_at s.threads i _) (λ j. refl))

    step-Local : (pc : Pc) (input : Input) → Is pc → Keeps (step api w m pc input)
    unfolding step
    step-Local looking input at =
        same-step looking w _ at refl
          (look-Idle (warm_endpoint (GoMap.get (s.routers a).models m))).0
    step-Local registering input at =
        register-Local (GoMap.get (s.routers a).loading_models m) refl at
    step-Local (waiting c) input at =
        if-Keeps input.is_cancelled _ _
          (same-step (waiting c) w (finished (err cancelled)) at refl refl)
          (select-Local c (s.buffers c) at)
    step-Local retrying input at =
        same-step retrying w _ at refl
          (retry-Idle (warm_endpoint (GoMap.get (s.routers a).models m))).0
    step-Local (creating c) input at =
        let made =
          api.create s.store (s.routers a).namespace (lease_name m) (s.routers a).replica_name in
        if-Keeps (not (s.routers a).has_client) _ _
          (same-step (creating c) w (loading c) at refl refl)
          (same-step (creating c) (record w { store = made.0 }) (after_create c made.1) at refl
            (create_owned c made.1))
    step-Local (getting c) input at =
        let answer = api.get s.store (s.routers a).namespace (lease_name m) in
        same-step (getting c) w (after_get c (s.routers a).replica_name answer) at refl
          (get_owned c (s.routers a).replica_name answer)
    step-Local (loading c) input at =
        let done = load_model_on_best_node (s.routers a) input.env input.tracker m input.now in
        same-step (loading c) (record w { router = done.0 }) (sending c true done.1) at
          (load_model_on_best_node-Kept (s.routers a) input.env input.tracker m input.now).3 refl
    step-Local (sending c l r) input at =
        same-step (sending c l r) (step api w m (sending c l r) input).0 (after_send c l r) at refl
          (send_owned c l r)
    step-Local (releasing c r) input at =
        if-Keeps (not (s.routers a).has_client) _ _
          (same-step (releasing c r) w (cleaning c r) at refl refl)
          (same-step (releasing c r)
            (record w { store = (api.delete s.store (s.routers a).namespace (lease_name m)).0 })
            (cleaning c r) at refl refl)
    step-Local (cleaning c r) input at = clean-Local c r at
    step-Local (finished r) input at = same-step (finished r) w (finished r) at refl refl

  runs-Local :
      (s : System api) (i : ℕ) (o : Option Thread) (input : Input)
      → s.threads i ≡ o
      → LocalInv s
      → LocalInv (resume api s i o input)
  runs-Local s i none input e v = v
  runs-Local s i (some th) input e v = step-Local s i th.replica th.model v th.pc input e

  routers-Local :
      (s : System api) (a : ℕ) (r : Router)
      → Kept r (s.routers a)
      → LocalInv s
      → LocalInv (record s { routers = set_at s.routers a r })
  routers-Local s a r k v =
      states-Inv unused unused (λ b. (s.routers b).loading_models) _ no_lease _ no_lock
        (same_at (λ q. q.loading_models) s.routers a r k.3) v

  transition-Local : (s : System api) (op : Op) → LocalInv s → LocalInv (transition api s op)
  unfolding transition update_namespace
  transition-Local s (calls i a m) v =
      threads-Inv unused unused _ no_lease (λ j. owned (s.threads j)) _ no_lock no_lock
        (same_at owned s.threads i _ (begin-quiet api (s.threads i) a m).0) (λ j. refl) v
  transition-Local s (runs i input) v = runs-Local s i (s.threads i) input refl v
  transition-Local s (discovers a env) v =
      routers-Local s a _ (discover_warm_models-Kept (s.routers a) env) v
  transition-Local s (selects a selector env) v =
      routers-Local s a _ (selects-Kept (s.routers a) selector env) v
  transition-Local s (moves a namespace) v =
      states-Inv unused unused (λ b. (s.routers b).loading_models) _ no_lease _ no_lock
        (same_at (λ q. q.loading_models) s.routers a
          (record (s.routers a) { namespace = namespace }) refl)
        v

  Reaches-LocalInv : (sites : ℕ → Site) {s : System api} → Reaches api sites s → LocalInv s
  unfolding initial
  Reaches-LocalInv sites (here store) = record {
    registered = λ i a m c e. absurd (ground (arith, e));
    one_owner = λ i j a m c d e f. absurd (ground (arith, e));
    lock_owned = λ i a m e. absurd (ground (arith, e));
    lease_held = λ i a m e. absurd (ground (arith, e));
  }
  Reaches-LocalInv sites (next h op) = transition-Local _ op (Reaches-LocalInv sites h)

  -- In every history, whatever the names of the replicas and the leases: of the calls of GetModelEndpoint
  -- for a model on a replica, at most one has registered a loading state that it has not cleaned up, and the
  -- replica's entry for the model is the channel of that state, on which later calls wait.
  pub one_loader :
      (sites : ℕ → Site) {s : System api}
      → Reaches api sites s
      → (i j : ℕ) (t u : Thread) (c d : ℕ) → s.threads i ≡ some t
      → s.threads j ≡ some u
      → owned_at t.pc ≡ some c
      → owned_at u.pc ≡ some d
      → t.replica ≡ u.replica
      → t.model ≡ u.model
      → (i ≡ j) × (GoMap.get (s.routers t.replica).loading_models t.model ≡ some c)
  one_loader sites {s = s} h i j t u c d et eu ct du er em =
      let v = Reaches-LocalInv sites h in
      let mine : owned (s.threads i) ≡ some (t.replica, t.model, c) =
        ap owned et ∙ ap (own t.replica t.model) ct in
      let theirs : owned (s.threads j) ≡ some (u.replica, u.model, d) =
        ap owned eu ∙ ap (own u.replica u.model) du in
      (
        v.one_owner i j t.replica t.model c d mine (ground (arith, theirs, er, em)),
        v.registered i t.replica t.model c mine,
      )
