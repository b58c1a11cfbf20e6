-- ===== src/ModelTracker/Dedup.antt =====
-- The dedup pass (internal/modeltracker/tracker.go: resolveDuplicates, pickLoser). It sends unload
-- requests and calls the observer: the calls are events, in their order.
pub mod Loser
pub mod Holders
pub mod Phase
pub mod Pass
pub mod Resolve
pub mod Safety
pub mod Removed
pub mod Grace
use rocm_llamacpp_envoy_ai_g.Prelude.{
  ℕ, suc, ◌+◌, String, Bool, true, false, ◌||◌, Option, none, some, List, [], ◌∷◌, ◌++◌, ◌==◌, ltb,
  leb, length, str_ltb, if◌then◌else◌,
}
use rocm_llamacpp_envoy_ai_g.GoMap
use rocm_llamacpp_envoy_ai_g.GoMap.{GoMap}
use rocm_llamacpp_envoy_ai_g.Http.{Reply}
use rocm_llamacpp_envoy_ai_g.ModelTracker.Types.{PodModelSet, Tracker, max_unloads_per_cycle}
use rocm_llamacpp_envoy_ai_g.ModelTracker.State.{mark_unloaded, text_or_empty}
use rocm_llamacpp_envoy_ai_g.ModelTracker.Query.{Error, unload_model}

pub data Event : Type 0 where
  -- POST to the unload path of a pod address, for a model, and whether it succeeded
  unload_sent : String → String → Bool → Event
  -- the unload observer was called with a pod address and a model
  observer_called : String → String → Event

abbrev pub list_or_empty : Option (List String) → List String
list_or_empty none = []
list_or_empty (some l) = l

-- dup[model] = append(dup[model], pk), for each model of the set
unfoldable pub add_models : PodModelSet → String → GoMap (List String) → GoMap (List String)
add_models [] pk dup = dup
add_models ((model, u) ∷ set) pk dup =
    add_models set pk (GoMap.put dup model (list_or_empty (GoMap.get dup model) ++ pk ∷ []))

-- model -> pods that currently have it loaded
unfoldable pub duplicates : GoMap PodModelSet → GoMap (List String) → GoMap (List String)
duplicates [] dup = dup
duplicates ((pk, set) ∷ loaded) dup = duplicates loaded (add_models set pk dup)

abbrev pub holders_of : GoMap (List String) → String → List String
holders_of dup model = list_or_empty (GoMap.get dup model)

-- The counted models that fewer than two pods hold.
unfoldable pub resolved_models : GoMap (List String) → GoMap ℕ → List String
resolved_models dup [] = []
resolved_models dup ((model, n) ∷ obs) =
    let rest = resolved_models dup obs in
    if ltb (length (holders_of dup model)) 2 then model ∷ rest else rest

unfoldable pub delete_all : List String → GoMap ℕ → GoMap ℕ
delete_all [] obs = obs
delete_all (m ∷ ms) obs = delete_all ms (GoMap.delete obs m)

pub record Ripe : Type 0 where
  pub model : String
  pub holders : List String

abbrev pub count_or_zero : Option ℕ → ℕ
count_or_zero none = 0
count_or_zero (some n) = n

-- One round of the second loop of phase 1, over the counters and the ripe list.
unfoldable pub observe : ℕ → String → List String → GoMap ℕ × List Ripe → GoMap ℕ × List Ripe
observe grace model holders (obs, ripe) =
    if ltb (length holders) 2
    then (obs, ripe)
    else (let n = count_or_zero (GoMap.get obs model) + 1 in
        (
          GoMap.put obs model n,
          if leb grace n then ripe ++ (record { model = model; holders = holders }) ∷ [] else ripe,
        ))

unfoldable pub observe_all : ℕ → GoMap (List String) → GoMap ℕ × List Ripe → GoMap ℕ × List Ripe
observe_all grace [] acc = acc
observe_all grace ((model, holders) ∷ dup) acc =
    observe_all grace dup (observe grace model holders acc)

-- sort.Slice by model; the models of the list are distinct, so the order is the only one.
unfoldable pub insert_ripe : Ripe → List Ripe → List Ripe
insert_ripe r [] = r ∷ []
insert_ripe r (s ∷ rs) = if str_ltb s.model r.model then s ∷ insert_ripe r rs else r ∷ s ∷ rs

unfoldable pub sort_ripe : List Ripe → List Ripe
unfolding insert_ripe
sort_ripe [] = []
sort_ripe (r ∷ rs) = insert_ripe r (sort_ripe rs)

-- sort.Strings
unfoldable pub insert_string : String → List String → List String
insert_string s [] = s ∷ []
insert_string s (t ∷ ts) = if str_ltb t s then t ∷ insert_string s ts else s ∷ t ∷ ts

unfoldable pub sort_strings : List String → List String
sort_strings [] = []
sort_strings (s ∷ ss) = insert_string s (sort_strings ss)

-- The loop of pickLoser: the first pod of the least score so far.
unfoldable pub pick_from : (String → ℕ) → String → List String → String
pick_from pressure loser [] = loser
pick_from pressure loser (pk ∷ rest) =
    pick_from pressure (if ltb (pressure pk) (pressure loser) then pk else loser) rest

abbrev pick_sorted : (String → ℕ) → List String → String
pick_sorted pressure [] = ""
pick_sorted pressure (pk ∷ rest) = pick_from pressure pk rest

unfoldable pub pick_loser : (String → ℕ) → List String → String
pick_loser pressure holders = pick_sorted pressure (sort_strings holders)

-- What one round of the unload loop comes to, before the state changes.
pub data Attempt : Type 0 where
  skipped : Attempt
  failed : String → Attempt
  unloaded : String → String → Attempt

abbrev pub sent : Option Error → String → String → Attempt
sent none loser_key loser_ip = unloaded loser_key loser_ip
sent (some e) loser_key loser_ip = failed loser_ip

unfoldable pub attempt :
    (String → String → Reply Bool) → Tracker → (String → ℕ) → GoMap String → Ripe → Attempt
attempt http_post t pressure ip_snap r =
    let loser_key = pick_loser pressure r.holders in
    let loser_ip = text_or_empty (GoMap.get ip_snap loser_key) in
    if loser_key == "" || loser_ip == ""
    then skipped
    else sent (unload_model http_post t.options loser_ip r.model) loser_key loser_ip

abbrev pub observed : Option (String × String) → List Event
observed none = []
observed (some (ip, model)) = observer_called ip model ∷ []

-- MarkUnloaded and the delete of the counter
unfoldable pub settle : Tracker → String → String → Tracker × List Event
settle t loser_key model =
    let (t', call) = mark_unloaded t loser_key model in
    (record t' { dup_obs = GoMap.delete t'.dup_obs model }, observed call)

-- The loop over the ripe list, with the number of unloads issued so far.
unfoldable pub unload_loop :
    (String → String → Reply Bool)
    → (String → ℕ)
    → GoMap String
    → List Ripe
    → ℕ
    → Tracker
    → Tracker × List Event
unfolding settle
unload_loop http_post pressure ip_snap [] issued t = (t, [])
unload_loop http_post pressure ip_snap (r ∷ rs) issued t = elim (leb max_unloads_per_cycle issued) [
  | true ↦ (t, [])
  | false ↦ elim (attempt http_post t pressure ip_snap r) [
    | skipped ↦ unload_loop http_post pressure ip_snap rs issued t
    | failed ip ↦
        let (t', events) = unload_loop http_post pressure ip_snap rs issued t in
        (t', unload_sent ip r.model false ∷ events)
    | unloaded key ip ↦
        let (t1, calls) = settle t key r.model in
        let (t2, events) = unload_loop http_post pressure ip_snap rs (suc issued) t1 in
        (t2, unload_sent ip r.model true ∷ (calls ++ events))
  ]
]

-- Phase 1: the counters after the pass, and the ripe duplicates in the order of the map `dup`.
unfoldable pub phase_one : Tracker → GoMap (List String) → GoMap ℕ × List Ripe
unfolding observe_all observe delete_all resolved_models
phase_one t dup =
    observe_all t.options.dedup_grace_polls dup
      (delete_all (resolved_models dup t.dup_obs) t.dup_obs, [])

unfoldable pub resolve_with :
    (String → String → Reply Bool) → (String → ℕ) → Tracker → Tracker × List Event
unfolding duplicates phase_one unload_loop
resolve_with http_post pressure t =
    let (obs, ripe_list) = phase_one t (duplicates t.loaded []) in
    unload_loop http_post pressure t.pod_ip (sort_ripe ripe_list) 0 (record t { dup_obs = obs })

abbrev resolve_if :
    (String → String → Reply Bool) → Option (String → ℕ) → Tracker → Tracker × List Event
resolve_if http_post none t = (t, [])
resolve_if http_post (some pressure) t =
    if t.first_poll then resolve_with http_post pressure t else (t, [])

unfoldable pub resolve_duplicates : (String → String → Reply Bool) → Tracker → Tracker × List Event
resolve_duplicates http_post t = resolve_if http_post t.options.pressure t
