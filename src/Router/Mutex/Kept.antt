-- ===== src/Router/Mutex/Kept.antt =====
-- What a discovery and a load leave of a router (internal/router/router.go).
use rocm_llamacpp_envoy_ai_g.Prelude.{
  ℕ, String, ◌≡◌, refl, Bool, true, false, not, Option, none, some, List, [], ◌∷◌, ◌==◌,
  if◌then◌else◌,
}
use rocm_llamacpp_envoy_ai_g.GoMap.{GoMap}
use rocm_llamacpp_envoy_ai_g.Http.{Reply}
use rocm_llamacpp_envoy_ai_g.Vram.Types
use rocm_llamacpp_envoy_ai_g.Vram.Tracker.{Tracker, get_node_with_most_available_vram}
use rocm_llamacpp_envoy_ai_g.Router.Types.{Pod, Router, Error, Result, Env, update_pod_selector}
use rocm_llamacpp_envoy_ai_g.Router.Discovery.{
  store_warm, discover_with_selector, discover_warm_models,
}
use rocm_llamacpp_envoy_ai_g.Router.Load.{
  load_model_on_pod, record_load, load_on_listed, load_on_node, load_model_on_best_node,
}

-- The first router has the client, the namespace, the name and the loading states of the second.
abbrev pub Kept : Router → Router → Type 0
Kept r q =
    (r.has_client ≡ q.has_client)
    × (r.namespace ≡ q.namespace)
    × (r.replica_name ≡ q.replica_name)
    × (r.loading_models ≡ q.loading_models)

if-Kept : (b : Bool) (r s q : Router) → Kept r q → Kept s q → Kept (if b then r else s) q
if-Kept true r s q h k = h
if-Kept false r s q h k = k

store-Kept :
    (r : Router) (http_get : String → Reply (List String)) (pods : Option (List Pod))
    → Kept (store_warm r http_get pods) r
store-Kept r http_get none = (refl, refl, refl, refl)
store-Kept r http_get (some pods) = (refl, refl, refl, refl)

pub discover_with_selector-Kept :
    (r : Router) (env : Env) (namespace : String) (selector : GoMap String)
    → Kept (discover_with_selector r env namespace selector) r
unfolding discover_with_selector
discover_with_selector-Kept r env namespace selector =
    if-Kept (not r.has_client) r _ r (refl, refl, refl, refl)
      (store-Kept r env.http_get (env.list_pods namespace selector))

pub discover_warm_models-Kept : (r : Router) (env : Env) → Kept (discover_warm_models r env) r
unfolding discover_warm_models
discover_warm_models-Kept r env =
    if-Kept (not r.has_client) r _ r (refl, refl, refl, refl)
      (discover_with_selector-Kept r env r.namespace r.pod_selector)

pub selects-Kept :
    (r : Router) (selector : GoMap String) (env : Env)
    → Kept (discover_with_selector (update_pod_selector r selector) env r.namespace selector) r
unfolding update_pod_selector
selects-Kept r selector env =
    discover_with_selector-Kept (update_pod_selector r selector) env r.namespace selector

-- The same, of the router that a load gives.
abbrev LoadKept : Router × Result String → Router → Type 0
LoadKept (r, result) q = Kept r q

if-LoadKept :
    (b : Bool) (x y : Router × Result String) (q : Router)
    → LoadKept x q
    → LoadKept y q
    → LoadKept (if b then x else y) q
if-LoadKept true x y q h k = h
if-LoadKept false x y q h k = k

record-Kept :
    (r : Router) (pod : Pod) (model : String) (now : ℕ) (e : Option Error)
    → LoadKept (record_load r pod model now e) r
record-Kept r pod model now none = (refl, refl, refl, refl)
record-Kept r pod model now (some e) = (refl, refl, refl, refl)

listed-Kept :
    (r : Router) (env : Env) (model : String) (now : ℕ) (pods : Option (List Pod))
    → LoadKept (load_on_listed r env model now pods) r
listed-Kept r env model now none = (refl, refl, refl, refl)
listed-Kept r env model now (some []) = (refl, refl, refl, refl)
listed-Kept r env model now (some (pod ∷ pods)) =
    if-LoadKept (pod.pod_ip == "") _ _ r (refl, refl, refl, refl)
      (record-Kept r pod model now (load_model_on_pod r env.http_post pod model))

node-Kept :
    (r : Router) (env : Env) (model : String) (now : ℕ) (best : Types.Result (String × ℕ))
    → LoadKept (load_on_node r env model now best) r
node-Kept r env model now (Types.err e) = (refl, refl, refl, refl)
node-Kept r env model now (Types.ok (node, available)) =
    if-LoadKept (not r.has_client) _ _ r (refl, refl, refl, refl)
      (if-LoadKept (not (env.is_valid_selector r.pod_selector)) _ _ r (refl, refl, refl, refl)
        (listed-Kept r env model now (env.list_on_node r.namespace r.pod_selector node)))

pub load_model_on_best_node-Kept :
    (r : Router) (env : Env) (tracker : Tracker) (model : String) (now : ℕ)
    → Kept (load_model_on_best_node r env tracker model now).0 r
unfolding load_model_on_best_node
load_model_on_best_node-Kept r env tracker model now =
    node-Kept r env model now (get_node_with_most_available_vram tracker)
