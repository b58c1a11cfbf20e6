-- ===== src/ModelTracker/Poll/Spec.antt =====
-- One poll cycle against a description of what it should learn from each pod's reply.
use rocm_llamacpp_envoy_ai_g.Prelude.{
  String, ◌≡◌, refl, ap, ◌∙◌, sym, ◌≢◌, inl, inr, Bool, true, ◌&&◌, Option, none, some, List, [],
  arith, Bool-cases, if◌then◌else◌, nat_eq,
}
use rocm_llamacpp_envoy_ai_g.GoMap
use rocm_llamacpp_envoy_ai_g.GoMap.{GoMap}
use rocm_llamacpp_envoy_ai_g.Http.{
  unreadable, undecodable, decoded, Reply, no_request, no_response, response, status_ok, url,
}
use rocm_llamacpp_envoy_ai_g.ModelTracker.Types.{PodModelSet, Tracker}
use rocm_llamacpp_envoy_ai_g.ModelTracker.State.{holds, in_set, is_loaded, any_pod_has_loaded}
use rocm_llamacpp_envoy_ai_g.ModelTracker.State.Valid.{IsValid}
use rocm_llamacpp_envoy_ai_g.ModelTracker.Query.{ModelEntry, query_pod, read_models}
use rocm_llamacpp_envoy_ai_g.ModelTracker.Query.Laws.{reports, has-collect}
use rocm_llamacpp_envoy_ai_g.ModelTracker.Dedup.{resolve_duplicates}
use rocm_llamacpp_envoy_ai_g.ModelTracker.Dedup.Resolve.{any_has-holds}
use rocm_llamacpp_envoy_ai_g.ModelTracker.Dedup.Safety.{
  resolve_duplicates-off, holds-resolve_duplicates-le, any_pod_has_loaded-resolve_duplicates,
}
use rocm_llamacpp_envoy_ai_g.ModelTracker.Poll.{Env, Pod, list_pods, scan, commit, poll_once}
use rocm_llamacpp_envoy_ai_g.ModelTracker.Poll.Laws.{listed, refreshed, holds-scan, scan-Distinct}

-- Whether a model is warm on a pod after a query: as a 200 reply that decodes reports it, and as
-- before where there is no such reply.
abbrev pub after_reply : Reply (List ModelEntry) → String → Bool → Bool
after_reply (response status (decoded entries)) model last =
    if nat_eq status status_ok then reports entries model else last
after_reply _ model last = last

in_set-refreshed :
    (r : Reply (List ModelEntry)) (last : Option PodModelSet) (model : String)
    → in_set (refreshed (read_models r) last) model ≡ after_reply r model (in_set last model)
unfolding read_models GoMap.get
in_set-refreshed no_request last model = refl
in_set-refreshed no_response last model = refl
in_set-refreshed (response status unreadable) last model = ground arith
in_set-refreshed (response status undecodable) last model = ground arith
in_set-refreshed (response status (decoded entries)) last model =
    elim (Bool-cases (nat_eq status status_ok)) [
      | inl e ↦ rw e (has-collect entries [] model ∙ ground arith)
      | inr e ↦ rw e
    ]

module _ (env : Env) (t : Tracker) where
  abbrev pub reply_of : String → Reply (List ModelEntry)
  reply_of ip = env.http_get (url ip t.options.pod_port t.options.query_path)

  -- What a cycle over the pods should know of a model on the pod with an address.
  abbrev pub expected : List Pod → String → String → Bool
  expected pods q m = listed pods q && after_reply (reply_of q) m (holds t.loaded q m)

  abbrev pub scanned : List Pod → Tracker
  scanned pods = commit t (scan env.http_get t.options t.loaded pods ([], []))

  holds-scanned :
      (pods : List Pod) (q m : String)
      → q ≢ ""
      → holds (scanned pods).loaded q m ≡ expected pods q m
  unfolding query_pod
  holds-scanned pods q m h =
      holds-scan env.http_get t.options t.loaded pods q m h
      ∙ ap (λ b. listed pods q && b) (in_set-refreshed (reply_of q) (GoMap.get t.loaded q) m)

  pub scanned-IsValid : (pods : List Pod) → IsValid t → IsValid (scanned pods)
  scanned-IsValid pods v =
      let d =
        scan-Distinct env.http_get t.options t.loaded pods ([], []) v.models_distinct (tt, tt) in
      record { pods_distinct = d.0; models_distinct = d.1 }

  pub poll_once-some :
      (pods : List Pod)
      → list_pods env t.options ≡ some pods
      → poll_once env t ≡ resolve_duplicates env.http_post (scanned pods)
  unfolding poll_once
  poll_once-some pods e = rw (e, poll_once)

  pub poll_once-none : list_pods env t.options ≡ none → poll_once env t ≡ (t, [])
  unfolding poll_once
  poll_once-none e = rw (e, poll_once)

is_loaded-holds : (t : Tracker) (q m : String) → is_loaded t q m ≡ true → holds t.loaded q m ≡ true
unfolding is_loaded
is_loaded-holds t q m h = ground arith

-- From a well-formed tracker, when the API lists pods, and for an address that is not empty: a model
-- counts as loaded on the pod after a cycle, dedup included, only if the pod is listed and either its
-- reply reports the model warm or there is no usable reply and the set kept from before has it.
pub is_loaded-poll_once :
    (env : Env) (t : Tracker) (pods : List Pod) (q m : String)
    → IsValid t
    → list_pods env t.options ≡ some pods
    → q ≢ ""
    → is_loaded (poll_once env t).0 q m ≡ true
    → expected env t pods q m ≡ true
is_loaded-poll_once env t pods q m v e h loaded =
    sym (holds-scanned env t pods q m h)
    ∙ holds-resolve_duplicates-le env.http_post (scanned env t pods) q m
        (scanned-IsValid env t pods v)
        (is_loaded-holds _ q m (rw (poll_once-some env t pods e) at loaded))

-- Without a pressure provider, when the API lists pods, and for an address that is not empty: after
-- the cycle a model counts as loaded on the pod exactly if `expected` says so, that is if the pod is
-- listed and its reply reports the model warm, or there is no usable reply and the set kept from
-- before has the model.
pub is_loaded-poll_once_exact :
    (env : Env) (t : Tracker) (pods : List Pod) (q m : String)
    → t.options.pressure ≡ none
    → list_pods env t.options ≡ some pods
    → q ≢ ""
    → is_loaded (poll_once env t).0 q m ≡ expected env t pods q m
unfolding is_loaded
is_loaded-poll_once_exact env t pods q m off e h =
    rw (poll_once-some env t pods e, resolve_duplicates-off env.http_post (scanned env t pods) off)
      (holds-scanned env t pods q m h)

-- From a well-formed tracker, when the API lists pods, and for an address that is not empty: a model
-- that the pod should have, as `expected` says, is loaded on some pod after the cycle, dedup included.
pub any_pod_has_loaded-poll_once :
    (env : Env) (t : Tracker) (pods : List Pod) (q m : String)
    → IsValid t
    → list_pods env t.options ≡ some pods
    → q ≢ ""
    → expected env t pods q m ≡ true
    → any_pod_has_loaded (poll_once env t).0 m ≡ true
unfolding any_pod_has_loaded
any_pod_has_loaded-poll_once env t pods q m v e h expected = rw (poll_once-some env t pods e) (
    any_pod_has_loaded-resolve_duplicates env.http_post (scanned env t pods) m
      (scanned-IsValid env t pods v)
      (any_has-holds _ q m (holds-scanned env t pods q m h ∙ expected)))
