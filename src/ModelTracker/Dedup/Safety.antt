-- ===== src/ModelTracker/Dedup/Safety.antt =====
-- The dedup pass never takes away the last copy of a model that the tracker knows of.
use rocm_llamacpp_envoy_ai_g.Prelude.{
  ℕ, ◌≤◌, String, ◌≡◌, refl, ap, ◌∙◌, ◌⊎◌, inl, inr, Bool, true, [], arith, Bool-cases,
  Option-cases, none, Bool, false,
}
use rocm_llamacpp_envoy_ai_g.Http.{Reply}
use rocm_llamacpp_envoy_ai_g.ModelTracker.Types.{Tracker, max_unloads_per_cycle}
use rocm_llamacpp_envoy_ai_g.ModelTracker.State.{holds, any_pod_has_loaded}
use rocm_llamacpp_envoy_ai_g.ModelTracker.State.Valid.{IsValid}
use rocm_llamacpp_envoy_ai_g.ModelTracker.Dedup.{resolve_with, resolve_duplicates}
use rocm_llamacpp_envoy_ai_g.ModelTracker.Dedup.Pass.{
  successes, successes-unload_loop, requests_after, requests_after-unload_loop,
}
use rocm_llamacpp_envoy_ai_g.ModelTracker.Dedup.Resolve.{
  any_has-resolve_with, first_poll-resolve_with, options-resolve_with, resolve_with-IsValid,
  holds-resolve_with-le, runs,
}

-- The two ways of a pass: it leaves the tracker, or it is the pass with the pressure scores.
pub resolve-cases :
    (http_post : String → String → Reply Bool) (t : Tracker)
    → ((runs t ≡ false) × (resolve_duplicates http_post t ≡ (t, [])))
      ⊎ ((pressure : String → ℕ) × (runs t ≡ true)
          × (resolve_duplicates http_post t ≡ resolve_with http_post pressure t))
unfolding resolve_duplicates
resolve-cases http_post t = elim (Option-cases t.options.pressure) [
  | inl e ↦ inl (ground (arith, e), rw (e, resolve_duplicates))
  | inr (pressure, e) ↦ elim (Bool-cases t.first_poll) [
    | inl started ↦ inr (pressure, ground (arith, e, started), rw (e, started, resolve_duplicates))
    | inr fresh ↦ inl (ground (arith, fresh), rw (e, fresh, resolve_duplicates))
  ]
]

-- From a well-formed tracker, whatever the servers answer: a model that some pod had loaded before the
-- dedup pass is loaded on some pod after it.
pub any_pod_has_loaded-resolve_duplicates :
    (http_post : String → String → Reply Bool) (t : Tracker) (k : String)
    → IsValid t
    → any_pod_has_loaded t k ≡ true
    → any_pod_has_loaded (resolve_duplicates http_post t).0 k ≡ true
unfolding any_pod_has_loaded
any_pod_has_loaded-resolve_duplicates http_post t k v h = elim (resolve-cases http_post t) [
  | inl (off, same) ↦ rw same h
  | inr (pressure, on, e) ↦ rw e (
      ground (
        arith,
        first_poll-resolve_with http_post pressure t v,
        any_has-resolve_with http_post pressure t v k,
      ))
]

-- At most `max_unloads_per_cycle` of the unload requests of a dedup pass are answered with success, and
-- after one that is, the pass sends no other.
pub successes-resolve_duplicates :
    (http_post : String → String → Reply Bool) (t : Tracker)
    → (successes (resolve_duplicates http_post t).1 ≤ max_unloads_per_cycle)
      × (requests_after (resolve_duplicates http_post t).1 ≡ 0)
unfolding resolve_with
successes-resolve_duplicates http_post t = elim (resolve-cases http_post t) [
  | inl (off, same) ↦ rw same (unfold successes in omega arith, unfold requests_after in refl)
  | inr (pressure, on, e) ↦ rw e (
    successes-unload_loop http_post pressure t.pod_ip _ _,
    requests_after-unload_loop http_post pressure t.pod_ip _ _,
  )
]

pub resolve_duplicates-IsValid :
    (http_post : String → String → Reply Bool) (t : Tracker)
    → IsValid t
    → IsValid (resolve_duplicates http_post t).0
resolve_duplicates-IsValid http_post t v = elim (resolve-cases http_post t) [
  | inl (off, same) ↦ rw same v
  | inr (pressure, on, e) ↦ rw e (resolve_with-IsValid http_post pressure t v)
]

-- The pass adds no model to any pod.
pub holds-resolve_duplicates-le :
    (http_post : String → String → Reply Bool) (t : Tracker) (q k : String)
    → IsValid t
    → holds (resolve_duplicates http_post t).0.loaded q k ≡ true
    → holds t.loaded q k ≡ true
holds-resolve_duplicates-le http_post t q k v h = elim (resolve-cases http_post t) [
  | inl (off, same) ↦ rw same at h
  | inr (pressure, on, e) ↦ holds-resolve_with-le http_post pressure t v q k (rw e at h)
]

pub first_poll-resolve_duplicates :
    (http_post : String → String → Reply Bool) (t : Tracker)
    → IsValid t
    → (resolve_duplicates http_post t).0.first_poll ≡ t.first_poll
first_poll-resolve_duplicates http_post t v = elim (resolve-cases http_post t) [
  | inl (off, same) ↦ rw same
  | inr (pressure, on, e) ↦ rw e (first_poll-resolve_with http_post pressure t v)
]

-- Without a pressure provider the pass does nothing.
pub resolve_duplicates-off :
    (http_post : String → String → Reply Bool) (t : Tracker)
    → t.options.pressure ≡ none
    → resolve_duplicates http_post t ≡ (t, [])
unfolding resolve_duplicates
resolve_duplicates-off http_post t off = rw (off, resolve_duplicates)

pub options-resolve_duplicates :
    (http_post : String → String → Reply Bool) (t : Tracker)
    → IsValid t
    → (resolve_duplicates http_post t).0.options ≡ t.options
options-resolve_duplicates http_post t v = elim (resolve-cases http_post t) [
  | inl (off, same) ↦ ap (λ x. x.0.options) same
  | inr (pressure, on, e) ↦ ap (λ x. x.0.options) e ∙ options-resolve_with http_post pressure t v
]
