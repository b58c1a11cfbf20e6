-- ===== src/Router/Tests.antt =====
-- Two replicas, one model and a store of leases (internal/router/router.go).
mod Store
use Prim.Native.String.{◌++◌ as ◌⧺◌, count}
use text.Mathlib.TextLemmas.{length-append}
use rocm_llamacpp_envoy_ai_g.Prelude.{
  ℕ, zero, suc, ◌+◌, String, ◌≡◌, refl, sym, ◌∙◌, ap, ◌⊎◌, inl, inr, ◌&&◌, true, false, Bool-cases,
  Option, none, some, List, [], ◌∷◌, ◌==◌, eq_iff, arith, if◌then◌else◌,
}
use rocm_llamacpp_envoy_ai_g.GoMap
use rocm_llamacpp_envoy_ai_g.GoMap.{GoMap}
use rocm_llamacpp_envoy_ai_g.Http.{response, decoded}
use rocm_llamacpp_envoy_ai_g.Vram.Tracker.{Tracker, best_node, get_node_with_most_available_vram}
use rocm_llamacpp_envoy_ai_g.Router.Types.{Pod, new_router, Env}
use rocm_llamacpp_envoy_ai_g.Router.Discovery.{discover_with_selector}
use rocm_llamacpp_envoy_ai_g.Router.Discovery.Laws.{discovered, get-discover_with_selector}
use rocm_llamacpp_envoy_ai_g.Router.Load.{load_model_on_pod, load_model_on_best_node}
use rocm_llamacpp_envoy_ai_g.Router.Load.Laws.{Outcome, load_model_on_best_node-Outcome}
use rocm_llamacpp_envoy_ai_g.Router.Lease.{
  LeaseApi, Created, created, already_exists, Got, got, get_failed, lease_name,
}
use rocm_llamacpp_envoy_ai_g.Router.Steps.{waiting, loading, Input, step}
use rocm_llamacpp_envoy_ai_g.Router.System.{
  Site, start_router, Thread, Op, calls, runs, System, transition, initial, run, Reaches, Stays,
  Steady, here, next,
}
use rocm_llamacpp_envoy_ai_g.Router.Mutex.Frame.{holder_name}
use rocm_llamacpp_envoy_ai_g.Router.Mutex.Local.{one_loader}
use rocm_llamacpp_envoy_ai_g.Router.Mutex.Exclusion.{lease_excludes}
use rocm_llamacpp_envoy_ai_g.Router.Wait.{owner, Orphaned}
use rocm_llamacpp_envoy_ai_g.Router.Wait.Orphans.{orphan_waits}
use rocm_llamacpp_envoy_ai_g.Router.Tests.Store.{Leases, leases}

-- The name of a replica's pod, longer for each.
unfoldable replica : ℕ → String
replica zero = "replica"
replica (suc a) = "x" ⧺ replica a

count-replica : (a : ℕ) → count (replica a) ≡ a + 7
unfolding replica
count-replica zero = refl
count-replica (suc a) = length-append "x" (replica a) ∙ ground (arith, count-replica a)

abbrev site : ℕ → Site
site a = record {
  namespace = "llm";
  pod_selector = [];
  model_load_endpoint = "/models/load";
  pod_name = replica a;
}

holder_name-replica : (a : ℕ) → holder_name (site a) ≡ replica a
unfolding start_router new_router
holder_name-replica a = elim (Bool-cases (replica a == "")) [
  | inl e ↦
      let empty : replica a ≡ "" = (eq_iff (replica a) "").0 e in
      let none_left : count (replica a) ≡ 0 = ap count empty in
      absurd (ground (arith, none_left, count-replica a))
  | inr e ↦ rw e refl
]

site_distinct : (a b : ℕ) → holder_name (site a) ≡ holder_name (site b) → a ≡ b
site_distinct a b e =
    let same : count (replica a) ≡ count (replica b) =
      ap count (sym (holder_name-replica a) ∙ e ∙ holder_name-replica b) in
    ground (arith, same, count-replica a, count-replica b)

abbrev pod : Pod
pod = record { phase = "Running"; name = "server-0"; node_name = "node-b"; pod_ip = "10.0.0.1" }

abbrev env : Env
env = record {
  list_pods = λ ns sel. some (pod ∷ []);
  is_valid_selector = λ sel. true;
  list_on_node = λ ns sel node. if node == "node-b" then some (pod ∷ []) else some [];
  http_get = λ u. response 200 (decoded ("phi" ∷ []));
  http_post = λ u m. response 201 (decoded tt);
}

abbrev memory : Tracker
memory = record {
  metrics =
      ("node-b", record { total_vram = 32; used_vram = 10; available_vram = 22; last_update = 1 })
      ∷ [];
}

abbrev input : Input
input = record { env = env; tracker = memory; is_cancelled = false; now = 5 }

abbrev acquires : List Op
acquires = calls 0 0 "qwen" ∷ runs 0 input ∷ runs 0 input ∷ runs 0 input ∷ []

abbrev no_leases : Leases
no_leases ns name = none

abbrev start : System leases
start = initial leases site no_leases

abbrev AllStay : List Op → Type 0
AllStay [] = Unit {0}
AllStay (op ∷ ops) = Stays leases op × AllStay ops

run-Steady :
    (s : System leases) (ops : List Op) (h : Reaches leases site s)
    → Steady leases h
    → AllStay ops
    → (h' : Reaches leases site (run leases s ops)) × Steady leases h'
unfolding run Steady
run-Steady s [] h k u = (h, k)
run-Steady s (op ∷ ops) h k (u, us) = run-Steady (transition leases s op) ops (next h op) (u, k) us

acquires_history : (h : Reaches leases site (run leases start acquires)) × Steady leases h
unfolding Steady
acquires_history = run-Steady start acquires (here no_leases) tt (tt, (tt, (tt, (tt, tt))))

load_model_on_best_node-Outcome_example :
    Outcome
      (start_router (site 0))
      env
      "qwen"
      5
      (get_node_with_most_available_vram memory)
      (load_model_on_best_node (start_router (site 0)) env memory "qwen" 5)
load_model_on_best_node-Outcome_example =
    load_model_on_best_node-Outcome (start_router (site 0)) env memory "qwen" 5

get-discover_with_selector_example :
    GoMap.get (discover_with_selector (start_router (site 0)) env "llm" []).models "phi"
    ≡ discovered
        (start_router (site 0))
        env.http_get
        (if (start_router (site 0)).has_client then env.list_pods "llm" [] else none)
        "phi"
get-discover_with_selector_example =
    get-discover_with_selector (start_router (site 0)) env "llm" [] "phi"

abbrev loader : Thread
loader = record { replica = 0; model = "qwen"; pc = loading 0 }

loader_runs : (run leases start acquires).threads 0 ≡ some loader
unfolding run transition step GoMap.get start_router new_router initial
loader_runs = refl

lease_excludes_example :
    (◌≡◌ {A = ℕ} 0 0)
    × ((run leases start acquires).store "llm" (lease_name "qwen")
        ≡ some (some (holder_name (site 0))))
lease_excludes_example =
    lease_excludes leases site site_distinct acquires_history.0 acquires_history.1 0 0 loader loader
      loader_runs loader_runs refl refl refl refl

-- Two calls wait for the load of a third, which is over.
abbrev lost : List Op
lost =
    calls 0 0 "qwen"
    ∷ calls 1 0 "qwen"
    ∷ calls 2 0 "qwen"
    ∷ runs 0 input
    ∷ runs 0 input
    ∷ runs 1 input
    ∷ runs 1 input
    ∷ runs 2 input
    ∷ runs 2 input
    ∷ runs 0 input
    ∷ runs 0 input
    ∷ runs 0 input
    ∷ runs 1 input
    ∷ runs 0 input
    ∷ runs 0 input
    ∷ []

abbrev stranded : System leases
stranded = run leases start lost

abandoned_now : (j : ℕ) → owner (stranded.threads j) ≡ some 0 → ⊥
unfolding run transition step GoMap.get GoMap.put GoMap.delete start_router new_router initial
    load_model_on_best_node load_model_on_pod get_node_with_most_available_vram best_node
abandoned_now j e = ground (arith, e)

lost-Orphaned : Orphaned leases stranded 2 0 "qwen" 0
unfolding run transition step GoMap.get GoMap.put GoMap.delete start_router new_router initial
    load_model_on_best_node load_model_on_pod get_node_with_most_available_vram best_node
lost-Orphaned = record {
  waits = refl;
  unsent = refl;
  registered = omega arith;
  abandoned = abandoned_now;
}

orphan_waits_example :
    ((run leases stranded (runs 2 input ∷ [])).threads 2
      ≡ some (record { replica = 0; model = "qwen"; pc = waiting 0 }))
    × ((run leases stranded (runs 2 input ∷ [])).buffers 0 ≡ none)
orphan_waits_example =
    orphan_waits leases stranded 2 0 "qwen" 0 lost-Orphaned (runs 2 input ∷ []) ((λ e. refl), tt)

one_loader_example :
    (◌≡◌ {A = ℕ} 0 0)
    × (GoMap.get ((run leases start acquires).routers 0).loading_models "qwen" ≡ some 0)
one_loader_example =
    one_loader leases site acquires_history.0 0 0 loader loader 0 0 loader_runs loader_runs refl
      refl refl refl
