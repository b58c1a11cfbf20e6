-- ===== src/ModelLoader/Flight/Runs.antt =====
-- Every history of the loader keeps the invariant of the loads
-- (internal/plugins/modelloader/loader.go: PreRequest, loadModel).
use rocm_llamacpp_envoy_ai_g.Prelude.{
  ℕ, ◌≡◌, refl, sym, ◌∙◌, ap, Bool, true, false, Option, none, some, arith, if◌then◌else◌,
}
use rocm_llamacpp_envoy_ai_g.GoMap
use rocm_llamacpp_envoy_ai_g.GoMap.{GoMap}
use rocm_llamacpp_envoy_ai_g.ModelLoader.Types.{new_plugin, with_tracker, clear_loaded_models_cache}
use rocm_llamacpp_envoy_ai_g.ModelLoader.Request.{Target}
use rocm_llamacpp_envoy_ai_g.ModelLoader.Steps.{
  Pc, looking, finished, Input, set_at, Thread, System, Op, requests, runs, polls, clears, run,
  transition, initial, Reaches, here, next, pre_request, poll_step, begin, resume,
}
use rocm_llamacpp_envoy_ai_g.ModelLoader.Flight.{held_at, awaited_at, held, awaited, SystemInv}
use rocm_llamacpp_envoy_ai_g.ModelLoader.Flight.Quiet.{poll-SameLoads, quiet-Inv}
use rocm_llamacpp_envoy_ai_g.ModelLoader.Flight.Steps.{At, step-Inv}

resume-Inv :
    (s : System) (i : ℕ) (th : Option Thread) (input : Input)
    → SystemInv s
    → s.threads i ≡ th
    → SystemInv (record {
      plugin = (resume s.plugin th input).0;
      threads = set_at s.threads i (resume s.plugin th input).1;
    })
unfolding At
resume-Inv s i none input v at =
    quiet-Inv s i none s.plugin v (refl, refl, refl) (sym (ap held at))
      (λ r e. absurd (ground (arith, e)))
resume-Inv s i (some th) input v at = step-Inv s i th.target v th.pc input at

begin-Inv :
    (s : System) (i : ℕ) (th : Option Thread) (start : Target × Pc)
    → SystemInv s
    → s.threads i ≡ th
    → held_at start.0 start.1 ≡ none
    → awaited_at start.1 ≡ none
    → SystemInv (record s { threads = set_at s.threads i (begin th start) })
begin-Inv s i none (tgt, pc) v at h w =
    quiet-Inv s i (some (record { target = tgt; pc = pc })) s.plugin v (refl, refl, refl)
      (h ∙ sym (ap held at)) (λ r e. absurd (ground (arith, w, e)))
begin-Inv s i (some th) start v at h w =
    quiet-Inv s i (some th) s.plugin v (refl, refl, refl) (sym (ap held at))
      (λ r e. v.waits_known i r (ap awaited at ∙ e))

start-idle :
    (tgt : Target) (b : Bool)
    → (held_at tgt (if b then finished else looking) ≡ none)
      × (awaited_at (if b then finished else looking) ≡ none)
start-idle tgt true = (refl, refl)
start-idle tgt false = (refl, refl)

transition-Inv : (s : System) (op : Op) → SystemInv s → SystemInv (transition s op)
unfolding transition run pre_request poll_step clear_loaded_models_cache
transition-Inv s (requests i request result) v =
    let (h, w) = start-idle (pre_request request result).0 _ in
    begin-Inv s i (s.threads i) (pre_request request result) v refl h w
transition-Inv s (runs i input) v = resume-Inv s i (s.threads i) input v refl
transition-Inv s (polls env) v =
    let (a, b, c) = poll-SameLoads s.plugin env s.plugin.tracker in rw (a, b, c) v
transition-Inv s clears v = v

pub Reaches-Inv : {s : System} → Reaches s → SystemInv s
unfolding initial with_tracker new_plugin GoMap.get
Reaches-Inv (here config tracker) = record {
  loads_known = λ k r e. absurd (ground (arith, e));
  holder_registered = λ i k r e. absurd (ground (arith, e));
  holder_open = λ i k r e. absurd (ground (arith, e));
  one_holder = λ i j k l r e f. absurd (ground (arith, e));
  load_held = λ k r e. absurd (ground (arith, e));
  open_held = λ r b e. absurd (omega (arith, b));
  waits_known = λ i r e. absurd (ground (arith, e));
}
Reaches-Inv (next r op) = transition-Inv _ op (Reaches-Inv r)
