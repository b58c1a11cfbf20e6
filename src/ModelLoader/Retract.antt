-- ===== src/ModelLoader/Retract.antt =====
-- What a failed load leaves (internal/plugins/modelloader/loader.go: markTrackerUnloaded,
-- InvalidateLoadedModel; internal/modeltracker/tracker.go: MarkUnloaded).
use rocm_llamacpp_envoy_ai_g.Prelude.{
  String, ◌≡◌, refl, ◌≢◌, inl, inr, ◌⊎◌, true, false, ◌||◌, some, arith, ◌==◌, eq_iff, eq_refl,
  Bool-cases, Option-cases,
}
use rocm_llamacpp_envoy_ai_g.GoMap
use rocm_llamacpp_envoy_ai_g.ModelTracker.Types.{Tracker}
use rocm_llamacpp_envoy_ai_g.ModelTracker.State.{holds, mark_unloaded, text_or_empty}
use rocm_llamacpp_envoy_ai_g.ModelTracker.State.Laws.{holds-mark_unloaded}
use rocm_llamacpp_envoy_ai_g.ModelLoader.Types.{
  Plugin, load_key, invalidate_loaded_model, mark_tracker_unloaded,
}

has-invalidate :
    (p : Plugin) (ip model : String)
    → ip ≢ ""
    → model ≢ ""
    → GoMap.has (invalidate_loaded_model p ip model).loaded_models (load_key ip model) ≡ false
unfolding invalidate_loaded_model
has-invalidate p ip model a b = ground (
  arith,
  a,
  b,
  eq_iff ip "",
  eq_iff model "",
  GoMap.get-delete p.loaded_models (load_key ip model) (load_key ip model),
  eq_refl (load_key ip model),
)

-- The call that MarkUnloaded makes, for a pod that the tracker has a set of.
mark_unloaded-call :
    (t : Tracker) (ip model : String)
    → ip ≢ ""
    → model ≢ ""
    → t.unload_observer ≡ true
    → holds t.loaded ip model ≡ true
    → (text_or_empty (GoMap.get t.pod_ip ip) ≡ "") ⊎ (text_or_empty (GoMap.get t.pod_ip ip) ≡ ip)
    → (mark_unloaded t ip model).1 ≡ some (ip, model)
unfolding mark_unloaded
mark_unloaded-call t ip model a b o h addr = elim (Option-cases (GoMap.get t.loaded ip)) [
  | inl e ↦ absurd (ground (arith, h, e))
  | inr (set, e) ↦ ground (
    arith,
    a,
    b,
    o,
    e,
    addr,
    eq_iff ip "",
    eq_iff model "",
    eq_iff (text_or_empty (GoMap.get t.pod_ip ip)) "",
  )
]

tracker-invalidate :
    (p : Plugin) (ip model : String) → (invalidate_loaded_model p ip model).tracker ≡ p.tracker
unfolding invalidate_loaded_model
tracker-invalidate p ip model = elim (Bool-cases (ip == "" || model == "")) [
  | inl e ↦ rw e refl
  | inr e ↦ rw e refl
]

unmark-called :
    (p : Plugin) (t : Tracker) (ip model : String)
    → p.tracker ≡ some t
    → ip ≢ ""
    → (mark_unloaded t ip model).1 ≡ some (ip, model)
    → mark_tracker_unloaded p ip model
      ≡ invalidate_loaded_model (record p { tracker = some (mark_unloaded t ip model).0 }) ip model
unfolding mark_tracker_unloaded
unmark-called p t ip model e a call = elim (Bool-cases (ip == "")) [
  | inl q ↦ absurd (a ((eq_iff ip "").0 q))
  | inr q ↦ rw (e, q, call) refl
]

-- For a pod and a model that are named, with a tracker that calls this plugin back and whose address
-- of the pod is its key or not known: taking back the mark of a model that the tracker has on a pod leaves the model neither in the
-- tracker's set of the pod nor in the plugin's cache.
pub mark_tracker_unloaded-clears :
    (p : Plugin) (t : Tracker) (ip model : String)
    → p.tracker ≡ some t
    → t.unload_observer ≡ true
    → ip ≢ ""
    → model ≢ ""
    → holds t.loaded ip model ≡ true
    → (text_or_empty (GoMap.get t.pod_ip ip) ≡ "") ⊎ (text_or_empty (GoMap.get t.pod_ip ip) ≡ ip)
    → (GoMap.has (mark_tracker_unloaded p ip model).loaded_models (load_key ip model) ≡ false)
      × ((t' : Tracker) × ((mark_tracker_unloaded p ip model).tracker ≡ some t')
          × (holds t'.loaded ip model ≡ false))
mark_tracker_unloaded-clears p t ip model e o a b h addr =
    let p' = record p { tracker = some (mark_unloaded t ip model).0 } in
    rw (unmark-called p t ip model e a (mark_unloaded-call t ip model a b o h addr)) (
      has-invalidate p' ip model a b,
      (
        (mark_unloaded t ip model).0,
        tracker-invalidate p' ip model,
        ground (arith, holds-mark_unloaded t ip model ip model a b, eq_refl ip, eq_refl model),
      ),
    )
