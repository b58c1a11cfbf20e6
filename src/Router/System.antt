-- ===== src/Router/System.antt =====
-- Several replicas of the processor, each with its router, and the calls of GetModelEndpoint that they
-- serve, over one store of leases (internal/router/router.go). The channels of all replicas share one
-- numbering. Every replica has a Kubernetes client.
use rocm_llamacpp_envoy_ai_g.Prelude.{ℕ, String, true, Option, none, some, List, [], ◌∷◌}
use rocm_llamacpp_envoy_ai_g.GoMap.{GoMap}
use rocm_llamacpp_envoy_ai_g.Router.Types.{
  Router, Error, new_router, update_pod_selector, update_namespace, Env,
}
use rocm_llamacpp_envoy_ai_g.Router.Discovery.{discover_warm_models, discover_with_selector}
use rocm_llamacpp_envoy_ai_g.Router.Lease.{LeaseApi}
use rocm_llamacpp_envoy_ai_g.Router.Steps.{Pc, looking, Input, set_at, World, step}

-- What a replica is started with; `pod_name` is its POD_NAME.
pub record Site : Type 0 where
  pub namespace : String
  pub pod_selector : GoMap String
  pub model_load_endpoint : String
  pub pod_name : String

unfoldable pub start_router : Site → Router
unfolding new_router
start_router site =
    new_router true site.namespace site.pod_selector site.model_load_endpoint site.pod_name

pub record Thread : Type 0 where
  pub replica : ℕ
  pub model : String
  pub pc : Pc

pub data Op : Type 0 where
  -- a new call on a replica, by a goroutine whose number is free
  calls : ℕ → ℕ → String → Op
  -- a goroutine takes its next step
  runs : ℕ → Input → Op
  -- a discovery, of the ticker or after a load, and UpdatePodSelector with its discovery
  discovers : ℕ → Env → Op
  selects : ℕ → GoMap String → Env → Op
  -- UpdateNamespace
  moves : ℕ → String → Op

module _ (api : LeaseApi) where
  open api use {Store}

  pub record System : Type 0 where
    pub routers : ℕ → Router
    pub store : Store
    pub buffers : ℕ → Option (Option Error)
    pub next_channel : ℕ
    pub threads : ℕ → Option Thread

  abbrev pub world_at : System → ℕ → World api
  world_at s a = record {
    router = s.routers a;
    store = s.store;
    buffers = s.buffers;
    next_channel = s.next_channel;
  }

  -- The system after thread `i` of replica `a` has taken a step.
  abbrev pub after : System → ℕ → ℕ → String → World api × Pc → System
  after s i a model (w, pc) = record {
    routers = set_at s.routers a w.router;
    store = w.store;
    buffers = w.buffers;
    next_channel = w.next_channel;
    threads = set_at s.threads i (some (record { replica = a; model = model; pc = pc }));
  }

  abbrev pub begin : Option Thread → ℕ → String → Option Thread
  begin none a model = some (record { replica = a; model = model; pc = looking })
  begin (some th) a model = some th

  abbrev pub resume : System → ℕ → Option Thread → Input → System
  resume s i none input = s
  resume s i (some th) input =
      after s i th.replica th.model (step api (world_at s th.replica) th.model th.pc input)

  unfoldable pub transition : System → Op → System
  transition s (calls i a model) = record s {
    threads = set_at s.threads i (begin (s.threads i) a model);
  }
  transition s (runs i input) = resume s i (s.threads i) input
  transition s (discovers a env) = record s {
    routers = set_at s.routers a (discover_warm_models (s.routers a) env);
  }
  transition s (selects a selector env) = record s {
    routers = set_at s.routers a (
        discover_with_selector (update_pod_selector (s.routers a) selector) env
          (s.routers a).namespace selector);
  }
  transition s (moves a namespace) = record s {
    routers = set_at s.routers a (update_namespace (s.routers a) namespace);
  }

  unfoldable pub initial : (ℕ → Site) → Store → System
  initial sites store = record {
    routers = λ a. start_router (sites a);
    store = store;
    buffers = λ c. none;
    next_channel = 0;
    threads = λ i. none;
  }

  unfoldable pub run : System → List Op → System
  unfolding transition
  run s [] = s
  run s (op ∷ ops) = run (transition s op) ops

  pub data Reaches (sites : ℕ → Site) : System → Type 0 where
    here : (store : Store) → Reaches sites (initial sites store)
    next : {s : System} → Reaches sites s → (op : Op) → Reaches sites (transition s op)

  -- No namespace is updated in the history.
  abbrev pub Stays : Op → Type 0
  Stays (calls i a m) = Unit {0}
  Stays (runs i input) = Unit {0}
  Stays (discovers a env) = Unit {0}
  Stays (selects a selector env) = Unit {0}
  Stays (moves a namespace) = ⊥

  unfoldable pub Steady : {sites : ℕ → Site} {s : System} → Reaches sites s → Type 0
  Steady (here store) = Unit {0}
  Steady (next h op) = Stays op × Steady h
