-- ===== src/ModelTracker/State.antt =====
-- The reads and the in-band writes of the tracker (internal/modeltracker/tracker.go: IsLoaded,
-- AnyPodHasLoaded, Snapshot, SetLoaded, SetPodIP, SetUnloadObserver, MarkLoaded, MarkUnloaded).
pub mod Laws
pub mod Valid
use rocm_llamacpp_envoy_ai_g.Prelude.{
  String, Bool, true, false, ◌||◌, Option, none, some, List, [], ◌∷◌, ◌==◌, if◌then◌else◌,
}
use rocm_llamacpp_envoy_ai_g.GoMap
use rocm_llamacpp_envoy_ai_g.GoMap.{GoMap}
use rocm_llamacpp_envoy_ai_g.ModelTracker.Types.{PodModelSet, Tracker}

-- A lookup in a set that may be missing.
abbrev pub in_set : Option PodModelSet → String → Bool
in_set none model = false
in_set (some set) model = GoMap.has set model

-- `model` is in the set of `pod_key`, before the first poll too.
abbrev pub holds : GoMap PodModelSet → String → String → Bool
holds loaded pod_key model = in_set (GoMap.get loaded pod_key) model

unfoldable pub is_loaded : Tracker → String → String → Bool
is_loaded t pod_key model = if t.first_poll then holds t.loaded pod_key model else false

unfoldable pub any_has : GoMap PodModelSet → String → Bool
any_has [] model = false
any_has ((pk, set) ∷ rest) model = if GoMap.has set model then true else any_has rest model

unfoldable pub any_pod_has_loaded : Tracker → String → Bool
any_pod_has_loaded t model = if t.first_poll then any_has t.loaded model else false

-- cp[k] = struct{}{} for each k of the set
copy_set : PodModelSet → PodModelSet → PodModelSet
copy_set [] cp = cp
copy_set ((k, u) ∷ set) cp = copy_set set (GoMap.put cp k tt)

copy_loaded : GoMap PodModelSet → GoMap PodModelSet → GoMap PodModelSet
unfolding copy_set
copy_loaded [] out = out
copy_loaded ((pk, set) ∷ rest) out = copy_loaded rest (GoMap.put out pk (copy_set set []))

pub snapshot : Tracker → GoMap PodModelSet
unfolding copy_loaded
snapshot t = copy_loaded t.loaded []

unfoldable pub set_of : List String → PodModelSet → PodModelSet
set_of [] set = set
set_of (m ∷ models) set = set_of models (GoMap.put set m tt)

unfoldable pub set_loaded : Tracker → String → List String → Tracker
unfolding set_of
set_loaded t pod_key models = record t {
  loaded = GoMap.put t.loaded pod_key (set_of models []);
  first_poll = true;
}

unfoldable pub set_pod_ip : Tracker → String → String → Tracker
set_pod_ip t pod_key ip = record t { pod_ip = GoMap.put t.pod_ip pod_key ip }

unfoldable pub set_unload_observer : Tracker → Bool → Tracker
set_unload_observer t observer = record t { unload_observer = observer }

abbrev pub set_or_empty : Option PodModelSet → PodModelSet
set_or_empty none = []
set_or_empty (some set) = set

unfoldable pub mark_loaded : Tracker → String → String → Tracker
mark_loaded t pod_key model = if pod_key == "" || model == "" then t else record t {
  loaded =
      GoMap.put t.loaded pod_key (GoMap.put (set_or_empty (GoMap.get t.loaded pod_key)) model tt);
  first_poll = true;
}

-- The text that a missing key of a map[string]string reads as.
abbrev pub text_or_empty : Option String → String
text_or_empty none = ""
text_or_empty (some s) = s

-- The call of the unload observer, with the pod's address and the model, if there is an observer.
abbrev pub notice : Tracker → String → String → Option (String × String)
notice t pod_key model =
    if t.unload_observer
    then (let ip = text_or_empty (GoMap.get t.pod_ip pod_key) in
        some (if ip == "" then pod_key else ip, model))
    else none

abbrev drop_model :
    Tracker → String → String → Option PodModelSet → Tracker × Option (String × String)
drop_model t pod_key model none = (t, none)
drop_model t pod_key model (some set) = (
  record t { loaded = GoMap.put t.loaded pod_key (GoMap.delete set model) },
  notice t pod_key model,
)

unfoldable pub mark_unloaded : Tracker → String → String → Tracker × Option (String × String)
mark_unloaded t pod_key model =
    if pod_key == "" || model == ""
    then (t, none)
    else drop_model t pod_key model (GoMap.get t.loaded pod_key)
