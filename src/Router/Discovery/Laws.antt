-- ===== src/Router/Discovery/Laws.antt =====
-- Which models a discovery finds (internal/router/router.go: discoverWarmModelsWithSelector).
use rocm_llamacpp_envoy_ai_g.Prelude.{
  String, ◌≡◌, refl, ◌∙◌, ap, inl, inr, Bool, true, false, not, ◌&&◌, ◌||◌, Option, none, some,
  List, [], ◌∷◌, arith, ◌==◌, nat_eq, eq_iff, Bool-cases, if◌then◌else◌,
}
use rocm_llamacpp_envoy_ai_g.GoMap
use rocm_llamacpp_envoy_ai_g.GoMap.{GoMap}
use rocm_llamacpp_envoy_ai_g.Http.{
  Body, unreadable, undecodable, decoded, Reply, no_request, no_response, response, status_ok, url,
}
use rocm_llamacpp_envoy_ai_g.Router.Types.{ModelInfo, Pod, Router, Env, model_server_port}
use rocm_llamacpp_envoy_ai_g.Router.Discovery.{
  listed_on, infos_of, of_body, read_models, query_pod_models, add_models, add_result, warm_models,
  store_warm, discover_with_selector,
}

abbrev pub contains : List String → String → Bool
contains [] name = false
contains (id ∷ ids) name = id == name || contains ids name

abbrev pub body_lists : Body (List String) → String → Bool
body_lists unreadable name = false
body_lists undecodable name = false
body_lists (decoded ids) name = contains ids name

abbrev pub reply_lists : Reply (List String) → String → Bool
reply_lists no_request name = false
reply_lists no_response name = false
reply_lists (response status body) name = nat_eq status status_ok && body_lists body name

-- A running pod with an address that answers status 200 with a list that has the model.
abbrev pub lists : (String → Reply (List String)) → Pod → String → Bool
lists http_get pod name =
    pod.phase == "Running"
    && not (pod.pod_ip == "")
    && reply_lists (http_get (url pod.pod_ip model_server_port "/models")) name

abbrev pub or_else : Option ModelInfo → Option ModelInfo → Option ModelInfo
or_else (some x) y = some x
or_else none y = y

-- The entry for the last pod that lists the model.
abbrev pub last_listing : (String → Reply (List String)) → List Pod → String → Option ModelInfo
last_listing http_get [] name = none
last_listing http_get (pod ∷ pods) name =
    or_else (last_listing http_get pods name)
      (if lists http_get pod name then some (listed_on pod name) else none)

-- The entry after a discovery that was given these pods, `none` where none were listed.
abbrev pub discovered :
    Router → (String → Reply (List String)) → Option (List Pod) → String → Option ModelInfo
discovered r http_get none name = GoMap.get r.models name
discovered r http_get (some pods) name = last_listing http_get pods name

get-add_infos :
    (pod : Pod) (ids : List String) (warm : GoMap ModelInfo) (name : String)
    → GoMap.get (add_models (infos_of pod ids) warm) name
      ≡ (if contains ids name then some (listed_on pod name) else GoMap.get warm name)
unfolding add_models infos_of
get-add_infos pod [] warm name = refl
get-add_infos pod (id ∷ ids) warm name = ground (
  arith,
  get-add_infos pod ids (GoMap.put warm id (listed_on pod id)) name,
  GoMap.get-put warm id name (listed_on pod id),
  eq_iff id name,
)

get-add_body :
    (pod : Pod) (body : Body (List String)) (warm : GoMap ModelInfo) (name : String)
    → GoMap.get (add_result (of_body pod body) warm) name
      ≡ (if body_lists body name then some (listed_on pod name) else GoMap.get warm name)
get-add_body pod unreadable warm name = refl
get-add_body pod undecodable warm name = refl
get-add_body pod (decoded ids) warm name = get-add_infos pod ids warm name

get-add_reply :
    (pod : Pod) (reply : Reply (List String)) (warm : GoMap ModelInfo) (name : String)
    → GoMap.get (add_result (read_models pod reply) warm) name
      ≡ (if reply_lists reply name then some (listed_on pod name) else GoMap.get warm name)
get-add_reply pod no_request warm name = refl
get-add_reply pod no_response warm name = refl
get-add_reply pod (response status body) warm name = elim (Bool-cases (nat_eq status status_ok)) [
  | inl e ↦ rw e (get-add_body pod body warm name)
  | inr e ↦ rw e refl
]

get-add_pod :
    (http_get : String → Reply (List String)) (pod : Pod) (warm : GoMap ModelInfo) (name : String)
    → GoMap.get
        (if not (pod.phase == "Running")
          then warm
          else add_result (query_pod_models http_get pod) warm)
        name
      ≡ (if lists http_get pod name then some (listed_on pod name) else GoMap.get warm name)
unfolding query_pod_models
get-add_pod http_get pod warm name = elim (Bool-cases (pod.phase == "Running")) [
  | inl e ↦ elim (Bool-cases (pod.pod_ip == "")) [
    | inl f ↦ rw (e, f) refl
    | inr f ↦
        rw (e, f)
          (get-add_reply pod (http_get (url pod.pod_ip model_server_port "/models")) warm name)
  ]
  | inr e ↦ rw e refl
]

or_else-lists :
    (o : Option ModelInfo) (b : Bool) (x : ModelInfo) (y : Option ModelInfo)
    → or_else o (if b then some x else y) ≡ or_else (or_else o (if b then some x else none)) y
or_else-lists (some z) b x y = refl
or_else-lists none true x y = refl
or_else-lists none false x y = refl

get-warm_models :
    (http_get : String → Reply (List String)) (pods : List Pod) (warm : GoMap ModelInfo)
    (name : String)
    → GoMap.get (warm_models http_get pods warm) name
      ≡ or_else (last_listing http_get pods name) (GoMap.get warm name)
unfolding warm_models
get-warm_models http_get [] warm name = refl
get-warm_models http_get (pod ∷ pods) warm name =
    get-warm_models http_get pods _ name
    ∙ ap (or_else (last_listing http_get pods name)) (get-add_pod http_get pod warm name)
    ∙ or_else-lists (last_listing http_get pods name) (lists http_get pod name) (listed_on pod name)
        (GoMap.get warm name)

or_else-none : (o : Option ModelInfo) → or_else o none ≡ o
or_else-none none = refl
or_else-none (some x) = refl

store-discovered :
    (r : Router) (http_get : String → Reply (List String)) (pods : Option (List Pod))
    (name : String)
    → GoMap.get (store_warm r http_get pods).models name ≡ discovered r http_get pods name
unfolding GoMap.get
store-discovered r http_get none name = refl
store-discovered r http_get (some pods) name =
    get-warm_models http_get pods [] name ∙ or_else-none (last_listing http_get pods name)

client-discovered :
    (r : Router) (http_get : String → Reply (List String)) (pods : Option (List Pod))
    (name : String) (client : Bool)
    → GoMap.get (if not client then r else store_warm r http_get pods).models name
      ≡ discovered r http_get (if client then pods else none) name
client-discovered r http_get pods name true = store-discovered r http_get pods name
client-discovered r http_get pods name false = refl

-- After a discovery, the entry of each model is for the last of the listed pods that runs, has an
-- address, and answers status 200 with a list that has the model, whatever the list says of its status,
-- and there is no entry where no pod lists it: a model that was loaded before and is listed nowhere is
-- gone. Without a client, or where the
-- pods cannot be listed, the entries are as they were.
pub get-discover_with_selector :
    (r : Router) (env : Env) (namespace : String) (selector : GoMap String) (name : String)
    → GoMap.get (discover_with_selector r env namespace selector).models name
      ≡ discovered r env.http_get
          (if r.has_client then env.list_pods namespace selector else none)
          name
unfolding discover_with_selector
get-discover_with_selector r env namespace selector name =
    client-discovered r env.http_get (env.list_pods namespace selector) name r.has_client
