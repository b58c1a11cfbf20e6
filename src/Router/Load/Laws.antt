-- ===== src/Router/Load/Laws.antt =====
-- What a load on the best node comes to (internal/router/router.go: loadModelOnBestNode).
use rocm_llamacpp_envoy_ai_g.Prelude.{
  ℕ, String, ◌≡◌, refl, inl, inr, Bool, true, false, not, Option, none, some, List, [], ◌∷◌, arith,
  ◌==◌, ◌⊎◌, ◌↔◌, subst, nat_eq, Bool-cases, if◌then◌else◌,
}
use rocm_llamacpp_envoy_ai_g.GoMap
use rocm_llamacpp_envoy_ai_g.Http.{Body, Reply, no_request, no_response, response, url}
use rocm_llamacpp_envoy_ai_g.Vram.Types
use rocm_llamacpp_envoy_ai_g.Vram.Tracker.{Tracker, get_node_with_most_available_vram}
use rocm_llamacpp_envoy_ai_g.Router.Types.{
  model_load_failed, Pod, Router, Error, Result, ok, err, Env, endpoint,
}
use rocm_llamacpp_envoy_ai_g.Router.Steps.{warm_endpoint}
use rocm_llamacpp_envoy_ai_g.Router.Load.{
  read_load, loaded_on, load_model_on_pod, record_load, load_on_listed, load_on_node,
  load_model_on_best_node,
}

-- The reply is 200 OK or 201 Created, whatever the body.
abbrev pub IsAccepted : Reply (Unit {0}) → Type 0
IsAccepted reply =
    (status : ℕ) × (body : Body (Unit {0})) × (reply ≡ response status body)
    × ((status ≡ 200) ⊎ (status ≡ 201))

-- The pod accepts the load request, a POST to its load endpoint.
abbrev pub Accepts : Router → Env → Pod → String → Type 0
Accepts r env pod model =
    IsAccepted (env.http_post (url pod.pod_ip 8080 r.model_load_endpoint) model)

read_load-IsAccepted : (reply : Reply (Unit {0})) → read_load reply ≡ none → IsAccepted reply
read_load-IsAccepted no_request h = absurd (ground (arith, h))
read_load-IsAccepted no_response h = absurd (ground (arith, h))
read_load-IsAccepted (response status body) h = elim (Bool-cases (nat_eq status 200)) [
  | inl e ↦ (status, body, refl, inl (ground (arith, e)))
  | inr e ↦ elim (Bool-cases (nat_eq status 201)) [
    | inl f ↦ (status, body, refl, inr (ground (arith, f)))
    | inr f ↦
        let refused : some (model_load_failed status) ≡ none = rw (e, f) at h in
        absurd (ground (arith, refused))
  ]
]

IsAccepted-read_load : (reply : Reply (Unit {0})) → IsAccepted reply → read_load reply ≡ none
IsAccepted-read_load reply (status, body, e, inl a) = rw (e, a) refl
IsAccepted-read_load reply (status, body, e, inr a) = rw (e, a) refl

load_model_on_pod-Accepts :
    (r : Router) (env : Env) (pod : Pod) (model : String)
    → (load_model_on_pod r env.http_post pod model ≡ none) ↔ Accepts r env pod model
unfolding load_model_on_pod
load_model_on_pod-Accepts r env pod model =
    let reply = env.http_post (url pod.pod_ip 8080 r.model_load_endpoint) model in
    (read_load-IsAccepted reply, IsAccepted-read_load reply)

module _ (r : Router) (env : Env) (model : String) (now : ℕ) where
  -- A load that answered with `e` was sent to `pod` on `node`, and the model is warm there since.
  pub record LoadedOn (node : String) (pod : Pod) (e : String) (r' : Router) : Type 0 where
    pub connected : r.has_client ≡ true
    pub selects : env.is_valid_selector r.pod_selector ≡ true
    -- the first pod that the API selects on the node
    pub first :
        (pods : List Pod) × (env.list_on_node r.namespace r.pod_selector node ≡ some (pod ∷ pods))
    pub has_ip : (pod.pod_ip == "") ≡ false
    pub accepted : Accepts r env pod model
    pub is_endpoint : e ≡ endpoint pod.pod_ip
    pub only_models : r' ≡ record r { models = GoMap.put r.models model (loaded_on pod model now) }
    pub is_warm :
        (name : String)
        → warm_endpoint (GoMap.get r'.models name)
          ≡ (if model == name then some e else warm_endpoint (GoMap.get r.models name))

  -- All that a load on `best` needs: a client, a valid selector, and a first pod on the node that has an
  -- address and accepts the load.
  abbrev pub Loadable : Types.Result (String × ℕ) → Type 0
  Loadable (Types.err x) = ⊥
  Loadable (Types.ok (node, available)) =
      (r.has_client ≡ true)
      × (env.is_valid_selector r.pod_selector ≡ true)
      × ((pod : Pod) × (pods : List Pod) × (env.list_on_node r.namespace r.pod_selector node
            ≡ some (pod ∷ pods))
          × ((pod.pod_ip == "") ≡ false)
          × Accepts r env pod model)

  -- What a load on `best` comes to: it is loaded on a pod of the node, or something that it needs is
  -- missing and the router is as it was.
  abbrev pub Outcome : Types.Result (String × ℕ) → Router × Result String → Type 0
  Outcome best (r', err e) = (r' ≡ r) × (Loadable best → ⊥)
  Outcome (Types.err x) (r', ok e) = ⊥
  Outcome (Types.ok (node, available)) (r', ok e) = (pod : Pod) × LoadedOn node pod e r'

  if-Outcome :
      (best : Types.Result (String × ℕ)) (b : Bool) (x y : Router × Result String)
      → (b ≡ true → Outcome best x)
      → (b ≡ false → Outcome best y)
      → Outcome best (if b then x else y)
  if-Outcome best true x y h k = h refl
  if-Outcome best false x y h k = k refl

  module _ (node : String) (available : ℕ) (client : r.has_client ≡ true)
      (valid : env.is_valid_selector r.pod_selector ≡ true) where
    abbrev Here : Router × Result String → Type 0
    Here = Outcome (Types.ok (node, available))

    record-Outcome :
        (pod : Pod) (pods : List Pod) (e : Option Error)
        → env.list_on_node r.namespace r.pod_selector node ≡ some (pod ∷ pods)
        → (pod.pod_ip == "") ≡ false
        → load_model_on_pod r env.http_post pod model ≡ e
        → Here (record_load r pod model now e)
    record-Outcome pod pods (some e) l i h = (
      refl,
      λ (c, v, (p, ps, l', i', h')).
          let same : p ≡ pod = ground (arith, l, l') in
          let taken : load_model_on_pod r env.http_post pod model ≡ none =
            (load_model_on_pod-Accepts r env pod model).1
              (subst (λ q. Accepts r env q model) same h') in
          absurd (ground (arith, h, taken)),
    )
    record-Outcome pod pods none l i h = (
      pod,
      record {
        connected = client;
        selects = valid;
        first = (pods, l);
        has_ip = i;
        accepted = (load_model_on_pod-Accepts r env pod model).0 h;
        is_endpoint = refl;
        only_models = refl;
        is_warm = λ name. elim (Bool-cases (model == name)) [
          | inl q ↦ rw (GoMap.get-put r.models model name (loaded_on pod model now), q) refl
          | inr q ↦ rw (GoMap.get-put r.models model name (loaded_on pod model now), q) refl
        ];
      },
    )

    listed-Outcome :
        (pods : Option (List Pod))
        → env.list_on_node r.namespace r.pod_selector node ≡ pods
        → Here (load_on_listed r env model now pods)
    listed-Outcome none l = (refl, λ (c, v, (p, ps, l', i', h')). absurd (ground (arith, l, l')))
    listed-Outcome (some []) l =
        (refl, λ (c, v, (p, ps, l', i', h')). absurd (ground (arith, l, l')))
    listed-Outcome (some (pod ∷ pods)) l =
        if-Outcome (Types.ok (node, available)) (pod.pod_ip == "") _ _
          (λ e. (
            refl,
            λ (c, v, (p, ps, l', i', h')).
                let same : pod ≡ p = ground (arith, l, l') in absurd (ground (arith, e, i', same)),
          ))
          (λ e. record-Outcome pod pods (load_model_on_pod r env.http_post pod model) l e refl)

  node-Outcome :
      (best : Types.Result (String × ℕ)) → Outcome best (load_on_node r env model now best)
  node-Outcome (Types.err e) = (refl, λ x. x)
  node-Outcome (Types.ok (node, available)) =
      if-Outcome (Types.ok (node, available)) (not r.has_client) _ _
        (λ e. (refl, λ (c, v, p). absurd (ground (arith, c, e))))
        (λ e.
          if-Outcome (Types.ok (node, available)) (not (env.is_valid_selector r.pod_selector)) _ _
            (λ f. (refl, λ (c, v, p). absurd (ground (arith, v, f))))
            (λ f.
              listed-Outcome node available (ground (arith, e)) (ground (arith, f))
                (env.list_on_node r.namespace r.pod_selector node) refl))

-- A load on the best node gives an endpoint exactly when the tracker names a node, the client is there,
-- the selector is valid, and the first pod that the API selects on the node has an address and answers the
-- load request with status 200 or 201. The endpoint is then that pod's, and the router has changed only in the entry of the
-- model: a look for that model gives this endpoint, and a look for any other model gives what it gave
-- before. With an error the router is as it was.
pub load_model_on_best_node-Outcome :
    (r : Router) (env : Env) (tracker : Tracker) (model : String) (now : ℕ)
    → Outcome r env model now
        (get_node_with_most_available_vram tracker)
        (load_model_on_best_node r env tracker model now)
unfolding load_model_on_best_node
load_model_on_best_node-Outcome r env tracker model now =
    node-Outcome r env model now (get_node_with_most_available_vram tracker)
