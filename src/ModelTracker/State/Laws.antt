-- ===== src/ModelTracker/State/Laws.antt =====
-- What MarkLoaded and MarkUnloaded do to the reads of the tracker, and the well-formed state.
use rocm_llamacpp_envoy_ai_g.Prelude.{
  String, ◌≡◌, refl, ◌≢◌, ◌⊎◌, inl, inr, false, true, not, ◌||◌, ◌&&◌, Option, none, some, ◌==◌,
  eq_iff, arith, Bool-cases, Option-cases,
}
use rocm_llamacpp_envoy_ai_g.GoMap
use rocm_llamacpp_envoy_ai_g.GoMap.{get-put, get-delete}
use rocm_llamacpp_envoy_ai_g.ModelTracker.Types.{PodModelSet, Tracker}
use rocm_llamacpp_envoy_ai_g.ModelTracker.State.{
  in_set, holds, mark_loaded, mark_unloaded, set_or_empty,
}

present : (s : String) → s ≢ "" → (s == "") ≡ false
present s h = ground (arith, eq_iff s "")

pub has-set_or_empty :
    (o : Option PodModelSet) (k : String) → GoMap.has (set_or_empty o) k ≡ in_set o k
unfolding GoMap.get
has-set_or_empty none k = refl
has-set_or_empty (some set) k = refl

pub has-put :
    (set : PodModelSet) (m k : String)
    → GoMap.has (GoMap.put set m tt) k ≡ (m == k || GoMap.has set k)
has-put set m k = ground (arith, get-put set m k tt)

pub has-delete :
    (set : PodModelSet) (m k : String)
    → GoMap.has (GoMap.delete set m) k ≡ (not (m == k) && GoMap.has set k)
has-delete set m k = ground (arith, get-delete set m k)

-- MarkLoaded, for a pod and a model that are named, adds the model to the pod's set and changes no
-- other answer.
pub holds-mark_loaded :
    (t : Tracker) (p m q k : String)
    → p ≢ ""
    → m ≢ ""
    → holds (mark_loaded t p m).loaded q k ≡ ((p == q && m == k) || holds t.loaded q k)
unfolding mark_loaded
holds-mark_loaded t p m q k hp hm =
    rw (present p hp, present m hm, get-put t.loaded p q)
      (elim (Bool-cases (p == q)) [
        | inl e ↦ rw (e, has-put, has-set_or_empty, (eq_iff p q).0 e)
        | inr e ↦ rw e
      ])

-- MarkUnloaded, for a pod and a model that are named, takes the model out of the pod's set and
-- changes no other answer.
pub holds-mark_unloaded :
    (t : Tracker) (p m q k : String)
    → p ≢ ""
    → m ≢ ""
    → holds (mark_unloaded t p m).0.loaded q k ≡ (not (p == q && m == k) && holds t.loaded q k)
unfolding mark_unloaded
holds-mark_unloaded t p m q k hp hm =
    rw (present p hp, present m hm)
      (elim (Option-cases (GoMap.get t.loaded p)) [
        | inl none_there ↦ elim (Bool-cases (p == q)) [
          | inl e ↦ rw (none_there, e, ← (eq_iff p q).0 e, none_there) (ground arith)
          | inr e ↦ rw (none_there, e)
        ]
        | inr (set, there) ↦
            rw (there, get-put t.loaded p q)
              (elim (Bool-cases (p == q)) [
                | inl e ↦ rw (e, has-delete, ← (eq_iff p q).0 e, there)
                | inr e ↦ rw e
              ])
      ])

-- MarkUnloaded, for whatever names, leaves the answers for the other pods and the other models.
pub holds-mark_unloaded_other :
    (t : Tracker) (p m q k : String)
    → (p ≢ q) ⊎ (m ≢ k)
    → holds (mark_unloaded t p m).0.loaded q k ≡ holds t.loaded q k
unfolding mark_unloaded
holds-mark_unloaded_other t p m q k other = elim (Bool-cases (p == "" || m == "")) [
  | inl unnamed ↦ rw unnamed
  | inr named ↦ rw named (elim (Option-cases (GoMap.get t.loaded p)) [
    | inl e ↦ rw e
    | inr (set, there) ↦
        rw (there, get-put t.loaded p q)
          (elim (Bool-cases (p == q)) [
            | inl e ↦ rw (e, has-delete, ← (eq_iff p q).0 e, there) (kept set other e)
            | inr e ↦ rw e
          ])
  ])
]
  where
    kept :
        (set : PodModelSet)
        → (p ≢ q) ⊎ (m ≢ k)
        → (p == q) ≡ true
        → (not (m == k) && GoMap.has set k) ≡ GoMap.has set k
    kept set (inl h) e = absurd (h ((eq_iff p q).0 e))
    kept set (inr h) e = ground (arith, eq_iff m k)

pub first_poll-mark_unloaded :
    (t : Tracker) (p m : String) → (mark_unloaded t p m).0.first_poll ≡ t.first_poll
unfolding mark_unloaded
first_poll-mark_unloaded t p m = ground arith

-- MarkUnloaded adds no model to any pod.
pub holds-mark_unloaded_le :
    (t : Tracker) (p m q k : String)
    → holds (mark_unloaded t p m).0.loaded q k ≡ true
    → holds t.loaded q k ≡ true
holds-mark_unloaded_le t p m q k h = elim (Bool-cases (p == "" || m == "")) [
  | inl unnamed ↦ (unfold mark_unloaded in rw unnamed at h)
  | inr named ↦ ground (
    arith,
    holds-mark_unloaded t p m q k (λ e. ground (arith, eq_iff p "", named))
        (λ e. ground (arith, eq_iff m "", named)),
  )
]

pub dup_obs-mark_unloaded :
    (t : Tracker) (p m : String) → (mark_unloaded t p m).0.dup_obs ≡ t.dup_obs
unfolding mark_unloaded
dup_obs-mark_unloaded t p m = ground arith

pub options-mark_unloaded :
    (t : Tracker) (p m : String) → (mark_unloaded t p m).0.options ≡ t.options
unfolding mark_unloaded
options-mark_unloaded t p m = ground arith
