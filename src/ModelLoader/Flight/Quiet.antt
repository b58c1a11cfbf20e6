-- ===== src/ModelLoader/Flight/Quiet.antt =====
-- The steps that leave the bookkeeping of loads alone: marks, invalidations and tracker polls
-- (internal/plugins/modelloader/loader.go).
use rocm_llamacpp_envoy_ai_g.Prelude.{
  ℕ, ◌<◌, String, ◌≡◌, refl, ◌∙◌, ap, inl, inr, Bool, true, false, Option, none, some, List, [],
  ◌∷◌, arith, ◌==◌, ◌||◌, Bool-cases, nat_eq, if◌then◌else◌,
}
use rocm_llamacpp_envoy_ai_g.ModelTracker.Types.{Tracker}
use rocm_llamacpp_envoy_ai_g.ModelTracker.State.{mark_unloaded}
use rocm_llamacpp_envoy_ai_g.ModelTracker.Dedup.{Event, unload_sent, observer_called}
use rocm_llamacpp_envoy_ai_g.ModelTracker.Poll.{Env, poll_once}
use rocm_llamacpp_envoy_ai_g.ModelLoader.Types.{
  Plugin, invalidate_loaded_model, mark_tracker_loaded, called, mark_some, unmark_some,
}
use rocm_llamacpp_envoy_ai_g.ModelLoader.Request.{Target}
use rocm_llamacpp_envoy_ai_g.ModelLoader.Steps.{
  Pc, set_at, Thread, System, observe_events, poll_tracker,
}
use rocm_llamacpp_envoy_ai_g.ModelLoader.Flight.{held, awaited, SystemInv}
use rocm_llamacpp_envoy_ai_g.ModelLoader.Flight.Changes.{wait-Inv}

-- Two states of the plugin with the same loads.
abbrev pub SameLoads : Plugin → Plugin → Type 0
SameLoads p q =
    (p.loading_models ≡ q.loading_models)
    × (p.results ≡ q.results)
    × (p.next_result ≡ q.next_result)

invalidate-SameLoads :
    (p : Plugin) (ip model : String) → SameLoads (invalidate_loaded_model p ip model) p
unfolding invalidate_loaded_model
invalidate-SameLoads p ip model = elim (Bool-cases (ip == "" || model == "")) [
  | inl e ↦ rw e (refl, refl, refl)
  | inr e ↦ rw e (refl, refl, refl)
]

called-SameLoads : (p : Plugin) (call : Option (String × String)) → SameLoads (called p call) p
called-SameLoads p none = (refl, refl, refl)
called-SameLoads p (some (ip, model)) = invalidate-SameLoads p ip model

if-SameLoads :
    (b : Bool) (p q r : Plugin) → SameLoads p r → SameLoads q r → SameLoads (if b then p else q) r
if-SameLoads true p q r h k = h
if-SameLoads false p q r h k = k

mark-SameLoads :
    (p : Plugin) (ip model : String) (t : Option Tracker) → SameLoads (mark_some p ip model t) p
mark-SameLoads p ip model none = (refl, refl, refl)
mark-SameLoads p ip model (some t) =
    if-SameLoads (ip == "") p _ p (refl, refl, refl) (refl, refl, refl)

pub mark_tracker_loaded-SameLoads :
    (p : Plugin) (ip model : String) → SameLoads (mark_tracker_loaded p ip model) p
unfolding mark_tracker_loaded
mark_tracker_loaded-SameLoads p ip model = mark-SameLoads p ip model p.tracker

pub unmark-SameLoads :
    (p : Plugin) (ip model : String) (t : Option Tracker) → SameLoads (unmark_some p ip model t) p
unmark-SameLoads p ip model none = (refl, refl, refl)
unmark-SameLoads p ip model (some t) =
    if-SameLoads (ip == "") p _ p (refl, refl, refl)
      (called-SameLoads (record p { tracker = some (mark_unloaded t ip model).0 })
        (mark_unloaded t ip model).1)

events-SameLoads : (p : Plugin) (events : List Event) → SameLoads (observe_events p events) p
unfolding observe_events
events-SameLoads p [] = (refl, refl, refl)
events-SameLoads p (unload_sent ip model b ∷ events) = events-SameLoads p events
events-SameLoads p (observer_called ip model ∷ events) =
    let (a, b, c) = events-SameLoads (invalidate_loaded_model p ip model) events in
    let (d, e, f) = invalidate-SameLoads p ip model in (a ∙ d, b ∙ e, c ∙ f)

pub poll-SameLoads :
    (p : Plugin) (env : Env) (t : Option Tracker) → SameLoads (poll_tracker p env t) p
poll-SameLoads p env none = (refl, refl, refl)
poll-SameLoads p env (some t) =
    events-SameLoads (record p { tracker = some (poll_once env t).0 }) (poll_once env t).1

-- The system after thread `i` has taken a step for `tgt`.
abbrev pub after : System → ℕ → Target → Plugin × Pc → System
after s i tgt (p, pc) = record {
  plugin = p;
  threads = set_at s.threads i (some (record { target = tgt; pc = pc }));
}

pub held-set_at :
    (f : ℕ → Option Thread) (i : ℕ) (x : Option Thread) (j : ℕ)
    → held (set_at f i x j) ≡ (if nat_eq j i then held x else held (f j))
held-set_at f i x j = elim (Bool-cases (nat_eq j i)) [ inl e ↦ rw e refl | inr e ↦ rw e refl ]

pub awaited-set_at :
    (f : ℕ → Option Thread) (i : ℕ) (x : Option Thread) (j : ℕ)
    → awaited (set_at f i x j) ≡ (if nat_eq j i then awaited x else awaited (f j))
awaited-set_at f i x j = elim (Bool-cases (nat_eq j i)) [ inl e ↦ rw e refl | inr e ↦ rw e refl ]

-- A value at `i` that is the one there already changes nothing.
same_held :
    (f : ℕ → Option Thread) (i : ℕ) (x : Option Thread)
    → held x ≡ held (f i)
    → (j : ℕ) → held (set_at f i x j) ≡ held (f j)
same_held f i x e j = elim (Bool-cases (nat_eq j i)) [
  | inl q ↦ rw q (e ∙ ap (λ n. held (f n)) (ground (arith, q)))
  | inr q ↦ rw q refl
]

-- A step that leaves the loads alone and waits, if it does, for a result that is known.
pub quiet-Inv :
    (s : System) (i : ℕ) (x : Option Thread) (p : Plugin)
    → SystemInv s
    → SameLoads p s.plugin
    → held x ≡ held (s.threads i)
    → ((r : ℕ) → awaited x ≡ some r → r < s.plugin.next_result)
    → SystemInv (record { plugin = p; threads = set_at s.threads i x })
quiet-Inv s i x p v (a, b, c) e known =
    rw (a, b, c)
      (wait-Inv s.plugin.loading_models s.plugin.results s.plugin.next_result
        (λ j. held (s.threads j)) _ (λ j. awaited (s.threads j)) _ i v (awaited x)
        (same_held s.threads i x e) (awaited-set_at s.threads i x) known)
