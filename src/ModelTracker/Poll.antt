-- ===== src/ModelTracker/Poll.antt =====
-- One poll cycle (internal/modeltracker/tracker.go: listPods, pollOnce). The Kubernetes API is a
-- function from the list options to the pods, `none` where the call fails.
pub mod Laws
pub mod Spec
use rocm_llamacpp_envoy_ai_g.Prelude.{
  String, Bool, true, false, Option, none, some, List, [], ◌∷◌, ◌++◌, ◌==◌, if◌then◌else◌,
}
use rocm_llamacpp_envoy_ai_g.GoMap
use rocm_llamacpp_envoy_ai_g.GoMap.{GoMap}
use rocm_llamacpp_envoy_ai_g.Http.{Reply}
use rocm_llamacpp_envoy_ai_g.ModelTracker.Types.{PodModelSet, Options, Tracker}
use rocm_llamacpp_envoy_ai_g.ModelTracker.Query.{ModelEntry, Result, ok, err, query_pod}
use rocm_llamacpp_envoy_ai_g.ModelTracker.Dedup.{Event, resolve_duplicates}

pub data ListOption : Type 0 where
  in_namespace : String → ListOption
  matching_labels : GoMap String → ListOption

-- The part of a corev1.Pod that the poll reads, but for the log lines.
pub record Pod : Type 0 where
  pub ip : String

-- What the environment answers during a cycle.
pub record Env : Type 0 where
  pub list_pods : List ListOption → Option (List Pod)
  pub http_get : String → Reply (List ModelEntry)
  pub http_post : String → String → Reply Bool

abbrev is_empty : GoMap String → Bool
is_empty [] = true
is_empty (e ∷ m) = false

unfoldable pub list_options : Options → List ListOption
list_options opts =
    (if opts.namespace == "" then [] else in_namespace opts.namespace ∷ [])
    ++ (if is_empty opts.pod_selector then [] else matching_labels opts.pod_selector ∷ [])

unfoldable pub list_pods : Env → Options → Option (List Pod)
unfolding list_options
list_pods env opts = env.list_pods (list_options opts)

-- next[key] = prev, where there is a previous set
abbrev keep_last : Option PodModelSet → GoMap PodModelSet → String → GoMap PodModelSet
keep_last none next key = next
keep_last (some prev) next key = GoMap.put next key prev

abbrev record_reply :
    Result PodModelSet → GoMap PodModelSet → GoMap PodModelSet → String → GoMap PodModelSet
record_reply (ok set) loaded next key = GoMap.put next key set
record_reply (err e) loaded next key = keep_last (GoMap.get loaded key) next key

-- The loop over the pods, from the sets of the last cycle to the next ones and their addresses.
unfoldable pub scan :
    (String → Reply (List ModelEntry))
    → Options
    → GoMap PodModelSet
    → List Pod
    → GoMap PodModelSet × GoMap String
    → GoMap PodModelSet × GoMap String
unfolding query_pod
scan http_get opts loaded [] acc = acc
scan http_get opts loaded (pod ∷ pods) (next, next_ips) = scan http_get opts loaded pods (
    if pod.ip == "" then (next, next_ips) else (
      record_reply (query_pod http_get opts pod.ip) loaded next pod.ip,
      GoMap.put next_ips pod.ip pod.ip,
    ))

abbrev pub commit : Tracker → GoMap PodModelSet × GoMap String → Tracker
commit t (next, next_ips) = record t { loaded = next; pod_ip = next_ips; first_poll = true }

abbrev poll_pods : Env → Tracker → Option (List Pod) → Tracker × List Event
poll_pods env t none = (t, [])
poll_pods env t (some pods) =
    resolve_duplicates env.http_post (commit t (scan env.http_get t.options t.loaded pods ([], [])))

unfoldable pub poll_once : Env → Tracker → Tracker × List Event
unfolding list_pods scan resolve_duplicates
poll_once env t = poll_pods env t (list_pods env t.options)

unfoldable pub poll_all : List Env → Tracker → Tracker × List Event
unfolding poll_once
poll_all [] t = (t, [])
poll_all (env ∷ envs) t =
    let (t1, events) = poll_once env t in
    let (t2, later) = poll_all envs t1 in (t2, events ++ later)

-- Start: the first cycle, then one for each tick until the context is cancelled.
unfoldable pub start : Env → List Env → Tracker → Tracker × List Event
unfolding poll_all
start env ticks t = poll_all (env ∷ ticks) t
