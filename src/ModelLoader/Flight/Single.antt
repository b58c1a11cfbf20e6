-- ===== src/ModelLoader/Flight/Single.antt =====
-- What the invariant of the loads gives: one load at a time, and no wait without an end
-- (internal/plugins/modelloader/loader.go: loadModel).
use rocm_llamacpp_envoy_ai_g.Prelude.{
  ℕ, String, ◌≡◌, refl, ◌∙◌, ap, ◌≢◌, ◌⊎◌, inl, inr, Bool, true, false, Option, none, some, arith,
  nat_eq,
}
use rocm_llamacpp_envoy_ai_g.ModelLoader.Types.{
  Error, Status, pending, closed, Plugin, mark_tracker_unloaded,
}
use rocm_llamacpp_envoy_ai_g.ModelLoader.Request.{Target}
use rocm_llamacpp_envoy_ai_g.ModelLoader.Query.{send_load}
use rocm_llamacpp_envoy_ai_g.ModelLoader.Steps.{
  Pc, looking, waiting_first, querying, entering, waiting_second, loading, publishing, failing,
  finished, Input, Thread, System, run, Reaches, step, after_load, load_step, after_publish,
  publish_step,
}
use rocm_llamacpp_envoy_ai_g.ModelLoader.Flight.{held_at, held, awaited}
use rocm_llamacpp_envoy_ai_g.ModelLoader.Flight.Quiet.{unmark-SameLoads}
use rocm_llamacpp_envoy_ai_g.ModelLoader.Flight.Runs.{Reaches-Inv}

-- In every history: two requests that load, or publish the result of loading, under the same key of
-- pod address and model are one.
pub held-Reaches :
    {s : System}
    → Reaches s
    → (i j : ℕ) (k : String) (r q : ℕ) → held (s.threads i) ≡ some (k, r)
    → held (s.threads j) ≡ some (k, q)
    → i ≡ j
held-Reaches {s} h i j k r q e f =
    let v = Reaches-Inv h in
    v.one_holder i j k k r e (
      f
      ∙ ap (λ x. some (k, x))
          (ground (arith, v.holder_registered i k r e, v.holder_registered j k q f)))

abbrev pub is_closed : Status → Bool
is_closed pending = false
is_closed (closed e) = true

pending-is_closed : (st : Status) → (st ≡ pending) ⊎ (is_closed st ≡ true)
pending-is_closed pending = inl refl
pending-is_closed (closed e) = inr refl

At : System → ℕ → Target → Pc → Type 0
At s j tgt pc = s.threads j ≡ some (record { target = tgt; pc = pc })

same_result :
    (k l : String) (q r : ℕ) → ◌≡◌ {A = Option (String × ℕ)} (some (k, q)) (some (l, r)) → q ≡ r
same_result k l q r h = ground (arith, h)

abbrev Holder : System → ℕ → ℕ → Type 0
Holder s j r =
    ((tgt : Target) × At s j tgt (loading r))
    ⊎ ((tgt : Target) × (e : Option Error) × At s j tgt (publishing r e))

Holder-at :
    (s : System) (j : ℕ) (tgt : Target) (pc : Pc) (k : String) (r : ℕ)
    → At s j tgt pc
    → held_at tgt pc ≡ some (k, r)
    → Holder s j r
unfolding At
Holder-at s j tgt (loading q) k r at h =
    inl (tgt, at ∙ ap (λ x. some (record { target = tgt; pc = loading x })) (same_result _ k q r h))
Holder-at s j tgt (publishing q e) k r at h = inr (
  tgt,
  e,
  at ∙ ap (λ x. some (record { target = tgt; pc = publishing x e })) (same_result _ k q r h),
)
Holder-at s j tgt looking k r at h = absurd (ground (arith, h))
Holder-at s j tgt (waiting_first q) k r at h = absurd (ground (arith, h))
Holder-at s j tgt querying k r at h = absurd (ground (arith, h))
Holder-at s j tgt entering k r at h = absurd (ground (arith, h))
Holder-at s j tgt (waiting_second q) k r at h = absurd (ground (arith, h))
Holder-at s j tgt (failing e) k r at h = absurd (ground (arith, h))
Holder-at s j tgt finished k r at h = absurd (ground (arith, h))

Holder-cases :
    (s : System) (j : ℕ) (th : Option Thread) (k : String) (r : ℕ)
    → s.threads j ≡ th
    → held th ≡ some (k, r)
    → Holder s j r
unfolding At
Holder-cases s j none k r at h = absurd (ground (arith, h))
Holder-cases s j (some th) k r at h = Holder-at s j th.target th.pc k r at h

nat_eq_self : (n : ℕ) → nat_eq n n ≡ true
nat_eq_self n = ground arith

-- A step of thread `j`, and the place it leads to.
run-at :
    (s : System) (j : ℕ) (tgt : Target) (pc : Pc) (a : Input)
    → At s j tgt pc
    → ((run s j a).plugin ≡ (step s.plugin tgt pc a).0)
      × At (run s j a) j tgt (step s.plugin tgt pc a).1
unfolding At run
run-at s j tgt pc a at = rw (at, nat_eq_self j) (refl, refl)

publishes :
    (s : System) (j : ℕ) (tgt : Target) (r : ℕ) (e : Option Error) (a : Input)
    → At s j tgt (publishing r e)
    → ((run s j a).plugin.results r ≡ closed e) × At (run s j a) j tgt (after_publish e)
unfolding step publish_step
publishes s j tgt r e a at =
    let (p, t) = run-at s j tgt (publishing r e) a at in (rw (p, nat_eq_self r) refl, t)

-- A request that has published leaves the results alone.
rests :
    (s : System) (j : ℕ) (tgt : Target) (e : Option Error) (a : Input)
    → At s j tgt (after_publish e)
    → (run s j a).plugin.results ≡ s.plugin.results
unfolding step mark_tracker_unloaded
rests s j tgt none a at = ap (λ p. p.results) (run-at s j tgt finished a at).0
rests s j tgt (some e) a at =
    ap (λ p. p.results) (run-at s j tgt (failing e) a at).0
    ∙ (unmark-SameLoads s.plugin tgt.pod_ip tgt.model_name s.plugin.tracker).1

after_load-snd :
    (p : Plugin) (tgt : Target) (r now : ℕ) (o : Option Error)
    → (after_load p tgt r now o).1 ≡ publishing r o
after_load-snd p tgt r now none = refl
after_load-snd p tgt r now (some e) = refl

loads :
    (s : System) (j : ℕ) (tgt : Target) (r : ℕ) (a : Input)
    → At s j tgt (loading r)
    → (o : Option Error) × At (run s j a) j tgt (publishing r o)
unfolding At step load_step
loads s j tgt r a at =
    let o = send_load a.http_post a.http_get a.ticks s.plugin.config tgt.pod_ip tgt.model_name in
    (
      o,
      (run-at s j tgt (loading r) a at).1
          ∙ ap (λ pc. some (record { target = tgt; pc = pc }))
              (after_load-snd s.plugin tgt r a.now o),
    )

two_runs-close :
    (s : System) (j : ℕ) (r : ℕ) (a b : Input)
    → Holder s j r
    → is_closed ((run (run s j a) j b).plugin.results r) ≡ true
two_runs-close s j r a b (inl (tgt, at)) =
    let (o, at') = loads s j tgt r a at in ap is_closed (publishes (run s j a) j tgt r o b at').0
two_runs-close s j r a b (inr (tgt, e, at)) =
    let (c, at') = publishes s j tgt r e a at in
    ap is_closed (ap (λ f. f r) (rests (run s j a) j tgt e b at') ∙ c)

Holder-awaited : (s : System) (j r : ℕ) → Holder s j r → awaited (s.threads j) ≡ none
unfolding At
Holder-awaited s j r (inl (tgt, at)) = ap awaited at
Holder-awaited s j r (inr (tgt, e, at)) = ap awaited at

-- In every history: a request that waits for a load waits for one that has ended, or for one that
-- two more steps of some other request's goroutine end, whatever the pod answers to them.
pub awaited-Reaches :
    {s : System}
    → Reaches s
    → (i r : ℕ) → awaited (s.threads i) ≡ some r
    → (is_closed (s.plugin.results r) ≡ true)
      ⊎ ((j : ℕ) × (j ≢ i)
          × ((a b : Input) → is_closed ((run (run s j a) j b).plugin.results r) ≡ true))
awaited-Reaches {s} h i r w =
    let v = Reaches-Inv h in
    elim (pending-is_closed (s.plugin.results r)) [
      | inr c ↦ inl c
      | inl p ↦
          let (j, k, e) = v.open_held r (v.waits_known i r w) p in
          let holder = Holder-cases s j (s.threads j) k r refl e in
          inr (
            j,
            λ q. ground (arith, w, ap (λ n. awaited (s.threads n)) q, Holder-awaited s j r holder),
            λ a b. two_runs-close s j r a b holder,
          )
    ]
