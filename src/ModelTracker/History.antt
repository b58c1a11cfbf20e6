-- ===== src/ModelTracker/History.antt =====
-- The tracker over time: every operation, in any order, from a new tracker. The operations are the
-- critical sections of internal/modeltracker/tracker.go; a poll cycle is taken as one of them.
use rocm_llamacpp_envoy_ai_g.Prelude.{
  ℕ, ◌≤◌, String, ◌≡◌, refl, ◌∙◌, ap, inl, inr, Bool, Option, none, some, List, [], arith, In,
  Option-cases,
}
use rocm_llamacpp_envoy_ai_g.GoMap
use rocm_llamacpp_envoy_ai_g.Http.{Reply}
use rocm_llamacpp_envoy_ai_g.ModelTracker.Types.{Options, Tracker, with_defaults, new_tracker}
use rocm_llamacpp_envoy_ai_g.ModelTracker.State.{
  set_loaded, set_pod_ip, set_unload_observer, mark_loaded, mark_unloaded,
}
use rocm_llamacpp_envoy_ai_g.ModelTracker.State.Laws.{dup_obs-mark_unloaded, options-mark_unloaded}
use rocm_llamacpp_envoy_ai_g.ModelTracker.State.Valid.{
  IsValid, new_tracker-IsValid, set_loaded-IsValid, mark_loaded-IsValid, mark_unloaded-IsValid,
}
use rocm_llamacpp_envoy_ai_g.ModelTracker.Dedup.{Event, unload_sent, observed, resolve_duplicates}
use rocm_llamacpp_envoy_ai_g.ModelTracker.Dedup.Safety.{
  resolve_duplicates-IsValid, options-resolve_duplicates,
}
use rocm_llamacpp_envoy_ai_g.ModelTracker.Dedup.Grace.{
  count, next_streak, count-resolve_duplicates, request_is_ripe,
}
use rocm_llamacpp_envoy_ai_g.ModelTracker.Poll.{Env, Pod, list_pods, poll_once}
use rocm_llamacpp_envoy_ai_g.ModelTracker.Poll.Spec.{
  scanned, scanned-IsValid, poll_once-some, poll_once-none,
}

pub data Op : Type 0 where
  polls : Env → Op
  dedups : (String → String → Reply Bool) → Op
  marks unmarks : String → String → Op
  seeds : String → List String → Op
  seeds_ip : String → String → Op
  observes : Bool → Op

unfoldable pub step : Tracker → Op → Tracker × List Event
step t (polls env) = poll_once env t
step t (dedups http_post) = resolve_duplicates http_post t
step t (marks pod_key model) = (mark_loaded t pod_key model, [])
step t (unmarks pod_key model) =
    let (t', call) = mark_unloaded t pod_key model in (t', observed call)
step t (seeds pod_key models) = (set_loaded t pod_key models, [])
step t (seeds_ip pod_key ip) = (set_pod_ip t pod_key ip, [])
step t (observes observer) = (set_unload_observer t observer, [])

abbrev pub streak_polled : Env → Tracker → Option (List Pod) → String → ℕ → ℕ
streak_polled env t none m n = n
streak_polled env t (some pods) m n = next_streak (scanned env t pods) m n

-- How many dedup passes in a row have found the model on two pods, after an operation; an operation
-- that runs no pass leaves the number.
abbrev pub streak_after : Tracker → Op → String → ℕ → ℕ
streak_after t (polls env) m n = streak_polled env t (list_pods env t.options) m n
streak_after t (dedups http_post) m n = next_streak t m n
streak_after t (marks pod_key model) m n = n
streak_after t (unmarks pod_key model) m n = n
streak_after t (seeds pod_key models) m n = n
streak_after t (seeds_ip pod_key ip) m n = n
streak_after t (observes observer) m n = n

-- The trackers that operations lead to, with the streak of each model.
pub data Reaches (opts : Options) : Tracker → (String → ℕ) → Type 0 where
  here : Reaches opts (new_tracker opts) (λ m. 0)
  next :
      {t : Tracker} {streak : String → ℕ}
      → Reaches opts t streak
      → (op : Op) → Reaches opts (step t op).0 (λ m. streak_after t op m (streak m))

poll_once-IsValid : (env : Env) (t : Tracker) → IsValid t → IsValid (poll_once env t).0
poll_once-IsValid env t v = elim (Option-cases (list_pods env t.options)) [
  | inl e ↦ rw (poll_once-none env t e) v
  | inr (pods, e) ↦
      rw (poll_once-some env t pods e) (
        resolve_duplicates-IsValid env.http_post (scanned env t pods)
          (scanned-IsValid env t pods v))
]

pub step-IsValid : (t : Tracker) (op : Op) → IsValid t → IsValid (step t op).0
unfolding step set_pod_ip set_unload_observer
step-IsValid t (polls env) v = poll_once-IsValid env t v
step-IsValid t (dedups http_post) v = resolve_duplicates-IsValid http_post t v
step-IsValid t (marks pod_key model) v = mark_loaded-IsValid t pod_key model v
step-IsValid t (unmarks pod_key model) v = mark_unloaded-IsValid t pod_key model v
step-IsValid t (seeds pod_key models) v = set_loaded-IsValid t pod_key models v
step-IsValid t (seeds_ip pod_key ip) v = record {
  pods_distinct = v.pods_distinct;
  models_distinct = v.models_distinct;
}
step-IsValid t (observes observer) v = record {
  pods_distinct = v.pods_distinct;
  models_distinct = v.models_distinct;
}

-- Whatever the operations and the answers of the pods, the tracker has one set for each pod, with
-- each model once.
pub Reaches-IsValid :
    {opts : Options} {t : Tracker} {streak : String → ℕ} → Reaches opts t streak → IsValid t
Reaches-IsValid {opts} here = new_tracker-IsValid opts
Reaches-IsValid (next {t} r op) = step-IsValid t op (Reaches-IsValid r)

count-step :
    (t : Tracker) (op : Op) (m : String) (n : ℕ)
    → IsValid t
    → count t m ≤ n
    → count (step t op).0 m ≤ streak_after t op m n
unfolding step set_pod_ip set_unload_observer set_loaded mark_loaded
count-step t (polls env) m n v h = elim (Option-cases (list_pods env t.options)) [
  | inl e ↦ rw (poll_once-none env t e, e) h
  | inr (pods, e) ↦
      rw (poll_once-some env t pods e, e)
        (count-resolve_duplicates (scanned env t pods) m (scanned-IsValid env t pods v)
          env.http_post n h)
]
count-step t (dedups http_post) m n v h = count-resolve_duplicates t m v http_post n h
count-step t (marks pod_key model) m n v h = ground (arith, h)
count-step t (unmarks pod_key model) m n v h = rw (dup_obs-mark_unloaded t pod_key model) h
count-step t (seeds pod_key models) m n v h = h
count-step t (seeds_ip pod_key ip) m n v h = h
count-step t (observes observer) m n v h = h

count-Reaches :
    {opts : Options} {t : Tracker} {streak : String → ℕ} (m : String)
    → Reaches opts t streak
    → count t m ≤ streak m
unfolding new_tracker GoMap.get
count-Reaches m here = omega arith
count-Reaches m (next {t} {streak} r op) =
    count-step t op m (streak m) (Reaches-IsValid r) (count-Reaches m r)

options-step : (t : Tracker) (op : Op) → IsValid t → (step t op).0.options ≡ t.options
unfolding step set_pod_ip set_unload_observer set_loaded mark_loaded
options-step t (polls env) v = elim (Option-cases (list_pods env t.options)) [
  | inl e ↦ ap (λ x. x.0.options) (poll_once-none env t e)
  | inr (pods, e) ↦
      ap (λ x. x.0.options) (poll_once-some env t pods e)
      ∙ options-resolve_duplicates env.http_post (scanned env t pods) (scanned-IsValid env t pods v)
]
options-step t (dedups http_post) v = options-resolve_duplicates http_post t v
options-step t (marks pod_key model) v = ground arith
options-step t (unmarks pod_key model) v = options-mark_unloaded t pod_key model
options-step t (seeds pod_key models) v = refl
options-step t (seeds_ip pod_key ip) v = refl
options-step t (observes observer) v = refl

options-Reaches :
    {opts : Options} {t : Tracker} {streak : String → ℕ}
    → Reaches opts t streak
    → t.options ≡ with_defaults opts
unfolding new_tracker
options-Reaches here = refl
options-Reaches (next {t} r op) = options-step t op (Reaches-IsValid r) ∙ options-Reaches r

request_needs_grace :
    (s : Tracker) (m ip : String) (b : Bool) (n : ℕ) (http_post : String → String → Reply Bool)
    → IsValid s
    → count s m ≤ n
    → In (unload_sent ip m b) (resolve_duplicates http_post s).1
    → s.options.dedup_grace_polls ≤ next_streak s m n
request_needs_grace s m ip b n http_post v h i =
    let (on, shared, mature) = request_is_ripe s m v http_post ip b i in
    rw (on, shared) (omega (arith, mature))

not_call :
    (call : Option (String × String)) (ip m : String) (b : Bool)
    → In (unload_sent ip m b) (observed call)
    → ⊥
not_call none ip m b i = i
not_call (some (ip', m')) ip m b (inl e) = cc
not_call (some (ip', m')) ip m b (inr i) = i

request-step :
    (t : Tracker) (op : Op) (ip m : String) (b : Bool) (n : ℕ)
    → IsValid t
    → count t m ≤ n
    → In (unload_sent ip m b) (step t op).1
    → t.options.dedup_grace_polls ≤ streak_after t op m n
unfolding step
request-step t (polls env) ip m b n v h i = elim (Option-cases (list_pods env t.options)) [
  | inl e ↦ absurd (rw (poll_once-none env t e) at i)
  | inr (pods, e) ↦ rw e (
      request_needs_grace (scanned env t pods) m ip b n env.http_post (scanned-IsValid env t pods v)
        h (rw (poll_once-some env t pods e) at i))
]
request-step t (dedups http_post) ip m b n v h i = request_needs_grace t m ip b n http_post v h i
request-step t (marks pod_key model) ip m b n v h i = absurd i
request-step t (unmarks pod_key model) ip m b n v h i = absurd (not_call _ ip m b i)
request-step t (seeds pod_key models) ip m b n v h i = absurd i
request-step t (seeds_ip pod_key ip') ip m b n v h i = absurd i
request-step t (observes observer) ip m b n v h i = absurd i

-- After any history of operations: an operation that sends an unload request for a model ends a run
-- of at least as many dedup passes as the grace asks for, this one included, in each of which two
-- pods had the model.
pub request-Reaches :
    {opts : Options} {t : Tracker} {streak : String → ℕ} (op : Op) (ip m : String) (b : Bool)
    → Reaches opts t streak
    → In (unload_sent ip m b) (step t op).1
    → (with_defaults opts).dedup_grace_polls ≤ streak_after t op m (streak m)
request-Reaches {opts} {t} {streak} op ip m b r i =
    rw (← options-Reaches r)
      (request-step t op ip m b (streak m) (Reaches-IsValid r) (count-Reaches m r) i)
