-- ===== src/Router/Steps.antt =====
-- GetModelEndpoint as a sequence of steps (internal/router/router.go: GetModelEndpoint, tryAcquireLease,
-- releaseLease). A call of it is a goroutine of a replica; a step is one critical section, one call of
-- the API, one load or one operation on a channel. A channel has a buffer of one.
use rocm_llamacpp_envoy_ai_g.Prelude.{
  ℕ, suc, String, Bool, true, false, not, Option, none, some, nat_eq, if◌then◌else◌,
}
use rocm_llamacpp_envoy_ai_g.GoMap
use rocm_llamacpp_envoy_ai_g.GoMap.{GoMap}
use rocm_llamacpp_envoy_ai_g.Vram.Tracker.{Tracker}
use rocm_llamacpp_envoy_ai_g.Router.Types.{
  ModelInfo, Router, Error, lease_acquisition_failed, model_not_available_after_load, create_lease,
  get_lease, cancelled, concurrent, Result, ok, err, Env, endpoint,
}
use rocm_llamacpp_envoy_ai_g.Router.Load.{load_model_on_best_node}
use rocm_llamacpp_envoy_ai_g.Router.Lease.{
  LeaseApi, Created, created, already_exists, create_failed, Got, got, get_failed, lease_name,
  is_ours,
}

-- Where a call is in GetModelEndpoint. The number is the channel of the loading state that it waits
-- for or has registered.
pub data Pc : Type 0 where
  -- the look into the warm models, and the section under loadingMu
  looking : Pc
  registering : Pc
  -- the select on the channel of another call, and the look that follows nil
  waiting : ℕ → Pc
  retrying : Pc
  -- tryAcquireLease: Create, then Get
  creating : ℕ → Pc
  getting : ℕ → Pc
  -- loadModelOnBestNode, under the lease
  loading : ℕ → Pc
  -- the send on the channel, and whether the lease is held
  sending : ℕ → Bool → Result String → Pc
  -- releaseLease, and the deferred function
  releasing : ℕ → Result String → Pc
  cleaning : ℕ → Result String → Pc
  finished : Result String → Pc

-- What the environment decides in a step: the answers of the API and of the pods, the state of the VRAM
-- tracker, whether a select takes the branch of the cancelled context, and the time.
pub record Input : Type 0 where
  pub env : Env
  pub tracker : Tracker
  pub is_cancelled : Bool
  pub now : ℕ

abbrev pub set_at {ℓ} : {A : Type ℓ} → (ℕ → A) → ℕ → A → ℕ → A
set_at f i x j = if nat_eq j i then x else f j

-- The endpoint of a model that is warm.
abbrev pub warm_endpoint : Option ModelInfo → Option String
warm_endpoint none = none
warm_endpoint (some info) = some (endpoint info.pod_ip)

abbrev pub after_look : Option String → Pc
after_look none = registering
after_look (some e) = finished (ok e)

abbrev pub after_retry : Option String → Pc
after_retry none = finished (err model_not_available_after_load)
after_retry (some e) = finished (ok e)

-- The value received from a channel: nil or an error.
abbrev pub after_receive : Option Error → Pc
after_receive none = retrying
after_receive (some e) = finished (err (concurrent e))

abbrev pub error_of : Result String → Option Error
error_of (ok e) = none
error_of (err e) = some e

abbrev pub after_send : ℕ → Bool → Result String → Pc
after_send c true r = releasing c r
after_send c false r = cleaning c r

abbrev pub after_create : ℕ → Created → Pc
after_create c created = loading c
after_create c already_exists = getting c
after_create c create_failed = sending c false (err create_lease)

abbrev pub after_get : ℕ → String → Got → Pc
after_get c replica_name (got holder) =
    if is_ours holder replica_name
    then loading c
    else sending c false (err lease_acquisition_failed)
after_get c replica_name get_failed = sending c false (err get_lease)

module _ (api : LeaseApi) where
  open api use {Store, create, get, delete}

  -- What a step reads and writes: the replica's router, the leases, and the buffers of the channels of
  -- the whole system, with the first channel that is not in use.
  pub record World : Type 0 where
    pub router : Router
    pub store : Store
    pub buffers : ℕ → Option (Option Error)
    pub next_channel : ℕ

  abbrev pub register : World → String → Option ℕ → World × Pc
  register w model (some c) = (w, waiting c)
  register w model none = (
    record w {
      router = record w.router {
        loading_models = GoMap.put w.router.loading_models model w.next_channel;
      };
      buffers = set_at w.buffers w.next_channel none;
      next_channel = suc w.next_channel;
    },
    creating w.next_channel,
  )

  -- The select of a call that waits: it goes on waiting while the buffer is empty.
  abbrev pub select : World → ℕ → Option (Option Error) → World × Pc
  select w c none = (w, waiting c)
  select w c (some e) = (record w { buffers = set_at w.buffers c none }, after_receive e)

  abbrev pub wait_step : World → ℕ → Input → World × Pc
  wait_step w c input =
      if input.is_cancelled then (w, finished (err cancelled)) else select w c (w.buffers c)

  abbrev pub create_step : World → String → ℕ → World × Pc
  create_step w model c =
      if not w.router.has_client
      then (w, loading c)
      else (let (store, outcome) =
            create w.store w.router.namespace (lease_name model) w.router.replica_name in
          (record w { store = store }, after_create c outcome))

  abbrev pub get_step : World → String → ℕ → World × Pc
  get_step w model c =
      (w, after_get c w.router.replica_name (get w.store w.router.namespace (lease_name model)))

  abbrev pub load_step : World → String → ℕ → Input → World × Pc
  load_step w model c input =
      let (router, r) = load_model_on_best_node w.router input.env input.tracker model input.now in
      (record w { router = router }, sending c true r)

  abbrev pub release_step : World → String → ℕ → Result String → World × Pc
  release_step w model c r = if not w.router.has_client then (w, cleaning c r) else (
    record w { store = (delete w.store w.router.namespace (lease_name model)).0 },
    cleaning c r,
  )

  abbrev pub clean_step : World → String → ℕ → Result String → World × Pc
  clean_step w model c r = (
    record w {
      router = record w.router { loading_models = GoMap.delete w.router.loading_models model };
    },
    finished r,
  )

  unfoldable pub step : World → String → Pc → Input → World × Pc
  step w model looking input = (w, after_look (warm_endpoint (GoMap.get w.router.models model)))
  step w model registering input = register w model (GoMap.get w.router.loading_models model)
  step w model (waiting c) input = wait_step w c input
  step w model retrying input = (w, after_retry (warm_endpoint (GoMap.get w.router.models model)))
  step w model (creating c) input = create_step w model c
  step w model (getting c) input = get_step w model c
  step w model (loading c) input = load_step w model c input
  step w model (sending c locked r) input =
      (record w { buffers = set_at w.buffers c (some (error_of r)) }, after_send c locked r)
  step w model (releasing c r) input = release_step w model c r
  step w model (cleaning c r) input = clean_step w model c r
  step w model (finished r) input = (w, finished r)
