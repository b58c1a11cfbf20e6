-- ===== src/Command/Tests.antt =====
-- Two pods that have reported their load (cmd/epp/main.go).
use rocm_llamacpp_envoy_ai_g.Prelude.{
  ℕ, ◌≤◌, String, Bool, true, false, ◌≡◌, refl, ◌≢◌, inl, inr, none, some, List, [], ◌∷◌, arith,
  eq_iff, ◌==◌, Bool-cases, subst, if◌then◌else◌,
}
use rocm_llamacpp_envoy_ai_g.GoMap
use rocm_llamacpp_envoy_ai_g.Http.{Reply, response, decoded, url}
use rocm_llamacpp_envoy_ai_g.PodState.{pressure, update}
use rocm_llamacpp_envoy_ai_g.ModelTracker.Types.{Tracker, with_defaults, new_tracker}
use rocm_llamacpp_envoy_ai_g.ModelTracker.State.{holds, is_loaded, mark_unloaded}
use rocm_llamacpp_envoy_ai_g.ModelTracker.Query.{
  ModelEntry, unload_model, collect, is_warm, read_models, query_pod,
}
use rocm_llamacpp_envoy_ai_g.ModelTracker.Dedup.{
  resolve_with, sort_ripe, add_models, attempt, sort_strings, insert_string, pick_from, pick_loser,
  resolve_duplicates, duplicates, phase_one, observe_all, observe, resolved_models, delete_all,
  insert_ripe, unload_loop, settle,
}
use rocm_llamacpp_envoy_ai_g.ModelTracker.Poll.{list_pods, scan, Env, poll_once}
use rocm_llamacpp_envoy_ai_g.ModelTracker.History
use rocm_llamacpp_envoy_ai_g.Filter.{Pod, filter, visit, visit_all}
use rocm_llamacpp_envoy_ai_g.Filter.Laws.{reported}
use rocm_llamacpp_envoy_ai_g.Command.{
  init_config, start_model_tracker, wire, tracker_of, Op, tracks, advance, run,
}
use rocm_llamacpp_envoy_ai_g.Command.Laws.{tracker_after, reported-resolve_duplicates}

abbrev busy : Pod ℕ
busy = record {
  address = some "10.0.0.1";
  metrics =
      some
        (record { running_requests_size = 4; waiting_queue_size = 3; kv_cache_usage_percent = 80 });
}

abbrev idle : Pod ℕ
idle = record {
  address = some "10.0.0.2";
  metrics =
      some
        (record { running_requests_size = 1; waiting_queue_size = 0; kv_cache_usage_percent = 5 });
}

abbrev given : List (Pod ℕ)
given = busy ∷ idle ∷ []

abbrev load : String → ℕ
load pk = if "10.0.0.1" == pk then 7 else 1

abbrev entries : List ModelEntry
entries = (record { id = "qwen"; status = "loaded" }) ∷ []

abbrev env : Env
env = record {
  list_pods = λ options. some ((record { ip = "10.0.0.1" }) ∷ (record { ip = "10.0.0.2" }) ∷ []);
  http_get = λ u. response 200 (decoded entries);
  http_post = λ u model. response 200 (decoded true);
}

abbrev polled : Op ℕ
polled = tracks (History.polls env)

-- Eleven polls, after which the grace of the duplicate is all but over.
abbrev polls : List (Op ℕ)
polls =
    polled ∷ polled ∷ polled ∷ polled ∷ polled ∷ polled ∷ polled ∷ polled ∷ polled ∷ polled ∷ polled
    ∷ []

abbrev due : Tracker
due = tracker_after init_config none polls "qwen" given 9

abbrev accepts : String → String → Reply Bool
accepts u model = response 200 (decoded true)

shared : (holds due.loaded "10.0.0.1" "qwen" ≡ true) × (holds due.loaded "10.0.0.2" "qwen" ≡ true)
unfolding run advance tracker_of wire init_config start_model_tracker with_defaults new_tracker
    History.step poll_once list_pods scan collect is_warm url read_models query_pod
    resolve_duplicates resolve_with duplicates phase_one observe_all observe resolved_models
    delete_all sort_ripe insert_ripe add_models GoMap.put GoMap.get GoMap.delete unload_loop settle
    attempt pick_loser sort_strings insert_string pick_from unload_model mark_unloaded filter
    visit_all visit pressure update is_loaded
shared = (refl, refl)

removed : holds (resolve_duplicates accepts due).0.loaded "10.0.0.2" "qwen" ≡ false
unfolding run advance tracker_of wire init_config start_model_tracker with_defaults new_tracker
    History.step poll_once list_pods scan collect is_warm url read_models query_pod
    resolve_duplicates resolve_with duplicates phase_one observe_all observe resolved_models
    delete_all sort_ripe insert_ripe add_models GoMap.put GoMap.get GoMap.delete unload_loop settle
    attempt pick_loser sort_strings insert_string pick_from unload_model mark_unloaded filter
    visit_all visit pressure update is_loaded
removed = refl

only_two : (pk : String) → holds due.loaded pk "qwen" ≡ true → reported pk given ≡ some (load pk)
unfolding run advance tracker_of wire init_config start_model_tracker with_defaults new_tracker
    History.step poll_once list_pods scan collect is_warm url read_models query_pod
    resolve_duplicates resolve_with duplicates phase_one observe_all observe resolved_models
    delete_all sort_ripe insert_ripe add_models GoMap.put GoMap.get GoMap.delete unload_loop settle
    attempt pick_loser sort_strings insert_string pick_from unload_model mark_unloaded filter
    visit_all visit pressure update is_loaded reported
only_two pk h = elim (Bool-cases ("10.0.0.1" == pk)) [
  | inl e ↦ subst (λ x. reported x given ≡ some (load x)) ((eq_iff "10.0.0.1" pk).0 e) refl
  | inr e ↦ elim (Bool-cases ("10.0.0.2" == pk)) [
    | inl f ↦ subst (λ x. reported x given ≡ some (load x)) ((eq_iff "10.0.0.2" pk).0 f) refl
    | inr f ↦ let no : false ≡ true = rw (e, f) at h in absurd (ground (arith, no))
  ]
]

qwen_is_named : ◌≢◌ {A = String} "qwen" ""
qwen_is_named h = ground (arith, eq_iff "qwen" "")

reported-resolve_duplicates_example : load "10.0.0.2" ≤ load "10.0.0.1"
reported-resolve_duplicates_example =
    reported-resolve_duplicates init_config none polls "qwen" given 9 accepts "qwen" "10.0.0.2" load
      qwen_is_named only_two shared.1 removed "10.0.0.1" shared.0
