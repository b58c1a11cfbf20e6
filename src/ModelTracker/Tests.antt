-- ===== src/ModelTracker/Tests.antt =====
-- Runs of the tracker on small inputs, and the theorems at inputs that meet their conditions.
use rocm_llamacpp_envoy_ai_g.Prelude.{
  ℕ, ◌≤◌, String, ◌≡◌, refl, ◌≢◌, ◌↔◌, ◌||◌, ◌&&◌, inl, inr, Bool, true, not, none, some, List, [],
  ◌∷◌, arith, ◌==◌, eq_iff, In, if◌then◌else◌,
}
use rocm_llamacpp_envoy_ai_g.GoMap
use rocm_llamacpp_envoy_ai_g.Http.{Reply, response, no_response, decoded, url}
use rocm_llamacpp_envoy_ai_g.ModelTracker.Types.{
  Options, Tracker, with_defaults, new_tracker, max_unloads_per_cycle,
}
use rocm_llamacpp_envoy_ai_g.ModelTracker.State.{
  any_has, holds, is_loaded, any_pod_has_loaded, mark_loaded, mark_unloaded, set_loaded, set_pod_ip,
  set_unload_observer, set_of,
}
use rocm_llamacpp_envoy_ai_g.ModelTracker.State.Laws.{holds-mark_loaded, holds-mark_unloaded}
use rocm_llamacpp_envoy_ai_g.ModelTracker.State.Valid.{IsValid}
use rocm_llamacpp_envoy_ai_g.ModelTracker.Query.{
  ModelEntry, unload_model, collect, is_warm, read_models,
}
use rocm_llamacpp_envoy_ai_g.ModelTracker.Dedup.{
  resolve_with, sort_ripe, add_models, attempt, sort_strings, insert_string, pick_from, Event,
  unload_sent, observer_called, pick_loser, resolve_duplicates,
}
use rocm_llamacpp_envoy_ai_g.ModelTracker.Dedup.Loser.{
  IsLeast, pick_loser-IsLeast, pick_loser-order,
}
use rocm_llamacpp_envoy_ai_g.ModelTracker.Dedup.Pass.{successes, requests_after}
use rocm_llamacpp_envoy_ai_g.ModelTracker.Dedup.Safety.{
  any_pod_has_loaded-resolve_duplicates, successes-resolve_duplicates,
}
use rocm_llamacpp_envoy_ai_g.ModelTracker.Poll.{list_pods, scan, Env, Pod, poll_once}
use rocm_llamacpp_envoy_ai_g.ModelTracker.Poll.Spec.{
  expected, is_loaded-poll_once, is_loaded-poll_once_exact, any_pod_has_loaded-poll_once,
}
use rocm_llamacpp_envoy_ai_g.ModelTracker.History.{
  Reaches, here, next, step, seeds, seeds_ip, dedups, observes, streak_after, Reaches-IsValid,
  request-Reaches,
}

-- The second pod is the busier one.
abbrev score : String → ℕ
score pod = if pod == "10.0.0.2" then 3 else 1

abbrev opts : Options
opts = record {
  namespace = "llm";
  pod_selector = [];
  pod_port = 8080;
  query_path = "/models";
  unload_path = "/models/unload";
  poll_interval = 1;
  poll_timeout = 1;
  pressure = some score;
  dedup_grace_polls = 1;
}

abbrev shared : Tracker
shared = record {
  options = opts;
  unload_observer = true;
  loaded = ("10.0.0.1", ("qwen", tt) ∷ []) ∷ ("10.0.0.2", ("qwen", tt) ∷ ("phi", tt) ∷ []) ∷ [];
  pod_ip = ("10.0.0.1", "10.0.0.1") ∷ ("10.0.0.2", "10.0.0.2") ∷ [];
  dup_obs = [];
  first_poll = true;
}

abbrev accepts : String → String → Reply Bool
accepts u model = response 200 (decoded true)

-- A pass whose requests succeed; its line names what a run computes with.
pass : Tracker → Tracker × List Event
unfolding resolve_duplicates resolve_with sort_ripe add_models GoMap.put GoMap.get GoMap.delete
    attempt pick_loser sort_strings insert_string pick_from unload_model mark_unloaded
pass t = resolve_duplicates accepts t

-- The copy on the pod of the lower pressure goes, and the observer hears of it.
pass_run :
    (pass shared).1 ≡ unload_sent "10.0.0.1" "qwen" true ∷ observer_called "10.0.0.1" "qwen" ∷ []
unfolding pass
pass_run = refl

shared-IsValid : IsValid shared
unfolding GoMap.get
shared-IsValid = record {
  pods_distinct = (refl, (refl, tt));
  models_distinct = ((refl, tt), (((refl, (refl, tt))), tt));
}

any_pod_has_loaded-resolve_duplicates_example :
    any_pod_has_loaded (resolve_duplicates accepts shared).0 "qwen" ≡ true
unfolding any_pod_has_loaded any_has GoMap.get
any_pod_has_loaded-resolve_duplicates_example =
    any_pod_has_loaded-resolve_duplicates accepts shared "qwen" shared-IsValid refl

successes-resolve_duplicates_example :
    (successes (resolve_duplicates accepts shared).1 ≤ max_unloads_per_cycle)
    × (requests_after (resolve_duplicates accepts shared).1 ≡ 0)
successes-resolve_duplicates_example = successes-resolve_duplicates accepts shared

pods_ne_nil : ◌≢◌ {A = List String} ("10.0.0.2" ∷ "10.0.0.1" ∷ []) []
pods_ne_nil h = cc

pick_loser-IsLeast_example :
    IsLeast score ("10.0.0.2" ∷ "10.0.0.1" ∷ []) (pick_loser score ("10.0.0.2" ∷ "10.0.0.1" ∷ []))
pick_loser-IsLeast_example = pick_loser-IsLeast score ("10.0.0.2" ∷ "10.0.0.1" ∷ []) pods_ne_nil

same_pods :
    (pk : String) → In pk ("10.0.0.2" ∷ "10.0.0.1" ∷ []) ↔ In pk ("10.0.0.1" ∷ "10.0.0.2" ∷ [])
same_pods pk = (
  λ m. elim m [ inl e ↦ inr (inl e) | inr (inl e) ↦ inl e | inr (inr x) ↦ inr (inr x) ],
  λ m. elim m [ inl e ↦ inr (inl e) | inr (inl e) ↦ inl e | inr (inr x) ↦ inr (inr x) ],
)

pick_loser-order_example :
    pick_loser score ("10.0.0.2" ∷ "10.0.0.1" ∷ [])
    ≡ pick_loser score ("10.0.0.1" ∷ "10.0.0.2" ∷ [])
pick_loser-order_example =
    pick_loser-order score ("10.0.0.2" ∷ "10.0.0.1" ∷ []) ("10.0.0.1" ∷ "10.0.0.2" ∷ []) same_pods

-- A poll that lists the two pods; the first reports one model warm and one cold, the second is down.
abbrev entries : List ModelEntry
entries =
    (record { id = "phi"; status = "loaded" }) ∷ (record { id = "qwen"; status = "unloaded" }) ∷ []

abbrev env : Env
env = record {
  list_pods = λ options. some ((record { ip = "10.0.0.1" }) ∷ (record { ip = "10.0.0.2" }) ∷ []);
  http_get = λ u.
      if u == "http://10.0.0.1:8080/models" then response 200 (decoded entries) else no_response;
  http_post = accepts;
}

abbrev quiet : Tracker
quiet = record shared { options = record opts { pressure = none } }

first_pod : ◌≢◌ {A = String} "10.0.0.1" ""
first_pod h = ground (arith, eq_iff "10.0.0.1" "")

second_pod : ◌≢◌ {A = String} "10.0.0.2" ""
second_pod h = ground (arith, eq_iff "10.0.0.2" "")

qwen_named : ◌≢◌ {A = String} "qwen" ""
qwen_named h = ground (arith, eq_iff "qwen" "")

abbrev both_pods : List Pod
both_pods = (record { ip = "10.0.0.1" }) ∷ (record { ip = "10.0.0.2" }) ∷ []

is_loaded-poll_once_exact_example :
    is_loaded (poll_once env quiet).0 "10.0.0.1" "qwen"
    ≡ expected env quiet both_pods "10.0.0.1" "qwen"
unfolding list_pods
is_loaded-poll_once_exact_example =
    is_loaded-poll_once_exact env quiet both_pods "10.0.0.1" "qwen" refl refl first_pod

-- A cycle; its line names what a run computes with.
cycle : Tracker → Tracker × List Event
unfolding pass poll_once scan collect is_warm url read_models is_loaded
cycle t = poll_once env t

is_loaded-poll_once_example : expected env shared both_pods "10.0.0.2" "qwen" ≡ true
unfolding cycle
is_loaded-poll_once_example =
    is_loaded-poll_once env shared both_pods "10.0.0.2" "qwen" shared-IsValid refl second_pod refl

any_pod_has_loaded-poll_once_example : any_pod_has_loaded (poll_once env shared).0 "phi" ≡ true
unfolding cycle
any_pod_has_loaded-poll_once_example =
    any_pod_has_loaded-poll_once env shared both_pods "10.0.0.1" "phi" shared-IsValid refl first_pod
      refl

holds-mark_loaded_example :
    holds (mark_loaded shared "10.0.0.1" "qwen").loaded "10.0.0.2" "phi"
    ≡ (("10.0.0.1" == "10.0.0.2" && "qwen" == "phi") || holds shared.loaded "10.0.0.2" "phi")
holds-mark_loaded_example =
    holds-mark_loaded shared "10.0.0.1" "qwen" "10.0.0.2" "phi" first_pod qwen_named

holds-mark_unloaded_example :
    holds (mark_unloaded shared "10.0.0.1" "qwen").0.loaded "10.0.0.1" "qwen"
    ≡ (not ("10.0.0.1" == "10.0.0.1" && "qwen" == "qwen") && holds shared.loaded "10.0.0.1" "qwen")
holds-mark_unloaded_example =
    holds-mark_unloaded shared "10.0.0.1" "qwen" "10.0.0.1" "qwen" first_pod qwen_named

-- Two pods are seen with one model and their addresses are known.
abbrev seeded : Tracker
seeded =
    (step (step (new_tracker opts) (seeds "10.0.0.1" ("qwen" ∷ []))).0
      (seeds "10.0.0.2" ("qwen" ∷ []))).0

abbrev addressed : Tracker
addressed = (step (step seeded (seeds_ip "10.0.0.1" "10.0.0.1")).0 (observes true)).0

abbrev history : Reaches opts addressed (λ m. 0)
history =
    next
      (next (next (next here (seeds "10.0.0.1" ("qwen" ∷ []))) (seeds "10.0.0.2" ("qwen" ∷ [])))
        (seeds_ip "10.0.0.1" "10.0.0.1"))
      (observes true)

addressed-IsValid : IsValid addressed
addressed-IsValid = Reaches-IsValid history

request-Reaches_example :
    (with_defaults opts).dedup_grace_polls ≤ streak_after addressed (dedups accepts) "qwen" 0
unfolding pass step set_loaded set_pod_ip set_unload_observer new_tracker set_of
request-Reaches_example = request-Reaches (dedups accepts) "10.0.0.1" "qwen" true history (inl refl)
