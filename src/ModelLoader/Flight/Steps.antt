-- ===== src/ModelLoader/Flight/Steps.antt =====
-- Every step of a request keeps the invariant of the loads (internal/plugins/modelloader/loader.go:
-- PreRequest, loadModel).
use rocm_llamacpp_envoy_ai_g.Prelude.{
  ℕ, ◌<◌, String, ◌≡◌, refl, sym, ◌∙◌, ap, ◌⊎◌, inl, inr, Bool, true, false, Option, none, some,
  arith, Bool-cases, nat_eq, if◌then◌else◌,
}
use rocm_llamacpp_envoy_ai_g.GoMap
use rocm_llamacpp_envoy_ai_g.GoMap.{GoMap}
use rocm_llamacpp_envoy_ai_g.ModelLoader.Types.{
  Error, cancelled_waiting, Status, pending, closed, Plugin, load_key, mark_tracker_loaded,
  mark_tracker_unloaded,
}
use rocm_llamacpp_envoy_ai_g.ModelLoader.Request.{Target}
use rocm_llamacpp_envoy_ai_g.ModelLoader.Query.{is_model_loaded}
use rocm_llamacpp_envoy_ai_g.ModelLoader.Steps.{
  Pc, looking, waiting_first, querying, entering, waiting_second, loading, publishing, failing,
  finished, Input, System, step, handle_already_loaded_or_loading, look_loading, after_first,
  after_second, query_step, enter, enter_step, after_load, load_step, after_publish, publish_step,
}
use rocm_llamacpp_envoy_ai_g.ModelLoader.Flight.{held_at, awaited_at, held, awaited, SystemInv}
use rocm_llamacpp_envoy_ai_g.ModelLoader.Flight.Changes.{register-Inv, publish-Inv}
use rocm_llamacpp_envoy_ai_g.ModelLoader.Flight.Quiet.{
  SameLoads, mark_tracker_loaded-SameLoads, unmark-SameLoads, after, quiet-Inv, held-set_at,
  awaited-set_at,
}

module _ (s : System) (i : ℕ) (tgt : Target) (v : SystemInv s) where
  -- The thread `i` is at `pc`.
  unfoldable pub At : Pc → Type 0
  At pc = s.threads i ≡ some (record { target = tgt; pc = pc })

  abbrev key : String
  key = load_key tgt.pod_ip tgt.model_name

  -- The plugin with the model noted as loaded.
  abbrev remembered : ℕ → Plugin
  remembered now = record s.plugin { loaded_models = GoMap.put s.plugin.loaded_models key now }

  quiet-step :
      (pc : Pc) (p : Plugin) (pc' : Pc)
      → At pc
      → SameLoads p s.plugin
      → held_at tgt pc' ≡ held_at tgt pc
      → ((r : ℕ) → awaited_at pc' ≡ some r → r < s.plugin.next_result)
      → SystemInv (after s i tgt (p, pc'))
  unfolding At
  quiet-step pc p pc' at same e known =
      quiet-Inv s i (some (record { target = tgt; pc = pc' })) p v same (e ∙ sym (ap held at)) known

  no_wait : (r : ℕ) → none ≡ some r → r < s.plugin.next_result
  no_wait r e = absurd (ground (arith, e))

  look-Inv :
      (o : Option ℕ)
      → GoMap.get s.plugin.loading_models key ≡ o
      → At looking
      → SystemInv (after s i tgt (look_loading s.plugin o))
  look-Inv none e at = quiet-step looking s.plugin querying at (refl, refl, refl) refl no_wait
  look-Inv (some r) e at =
      quiet-step looking s.plugin (waiting_first r) at (refl, refl, refl) refl
        (λ r' q. v.loads_known key r' (e ∙ q))

  looking-Inv :
      At looking → SystemInv (after s i tgt (handle_already_loaded_or_loading s.plugin tgt))
  unfolding handle_already_loaded_or_loading
  looking-Inv at = elim (Bool-cases (GoMap.has s.plugin.loaded_models key)) [
    | inl e ↦ rw e (
        quiet-step looking (mark_tracker_loaded s.plugin tgt.pod_ip tgt.model_name) finished at
          (mark_tracker_loaded-SameLoads s.plugin tgt.pod_ip tgt.model_name) refl no_wait)
    | inr e ↦ rw e (look-Inv (GoMap.get s.plugin.loading_models key) refl at)
  ]

  query-Inv :
      (input : Input) → At querying → SystemInv (after s i tgt (query_step s.plugin tgt input))
  unfolding query_step
  query-Inv input at =
      elim (Bool-cases (is_model_loaded input.http_get s.plugin.config tgt.pod_ip tgt.model_name)) [
        | inl e ↦ rw e (
            quiet-step querying
              (mark_tracker_loaded (remembered input.now) tgt.pod_ip tgt.model_name) finished at
              (mark_tracker_loaded-SameLoads (remembered input.now) tgt.pod_ip tgt.model_name) refl
              no_wait)
        | inr e ↦ rw e (
            quiet-step querying (mark_tracker_loaded s.plugin tgt.pod_ip tgt.model_name) entering at
              (mark_tracker_loaded-SameLoads s.plugin tgt.pod_ip tgt.model_name) refl no_wait)
      ]

  enter-Inv :
      (o : Option ℕ)
      → GoMap.get s.plugin.loading_models key ≡ o
      → At entering
      → SystemInv (after s i tgt (enter s.plugin key o))
  unfolding At
  enter-Inv none e at =
      register-Inv s.plugin.loading_models s.plugin.results s.plugin.next_result
        (λ j. held (s.threads j)) _ (λ j. awaited (s.threads j)) _ i v key e (ap held at)
        (held-set_at s.threads i _) (awaited-set_at s.threads i _)
  enter-Inv (some r) e at =
      quiet-step entering s.plugin (waiting_second r) at (refl, refl, refl) refl
        (λ r' q. v.loads_known key r' (e ∙ q))

  load-Inv :
      (r now : ℕ) (o : Option Error)
      → At (loading r)
      → SystemInv (after s i tgt (after_load s.plugin tgt r now o))
  load-Inv r now none at =
      quiet-step (loading r) (remembered now) (publishing r none) at (refl, refl, refl) refl no_wait
  load-Inv r now (some e) at =
      quiet-step (loading r) s.plugin (publishing r (some e)) at (refl, refl, refl) refl no_wait

  publish-thread :
      (e : Option Error)
      → held_at tgt (after_publish e) ≡ none × awaited_at (after_publish e) ≡ none
  publish-thread none = (refl, refl)
  publish-thread (some e) = (refl, refl)

  publish-step-Inv :
      (r : ℕ) (e : Option Error)
      → At (publishing r e)
      → SystemInv (after s i tgt (publish_step s.plugin tgt r e))
  unfolding publish_step At
  publish-step-Inv r e at =
      publish-Inv s.plugin.loading_models s.plugin.results s.plugin.next_result
        (λ j. held (s.threads j)) _ (λ j. awaited (s.threads j)) _ i v key r (ap held at) e
        (λ j.
          held-set_at s.threads i (some (record { target = tgt; pc = after_publish e })) j
          ∙ ap (λ h. if nat_eq j i then h else held (s.threads j)) (publish-thread e).0)
        (λ j.
          awaited-set_at s.threads i (some (record { target = tgt; pc = after_publish e })) j
          ∙ ap (λ h. if nat_eq j i then h else awaited (s.threads j)) (publish-thread e).1)

  -- A wait goes on for the same result, or it ends without holding a load.
  wait-step :
      (pc : Pc) (r : ℕ) (pc' : Pc)
      → At pc
      → held_at tgt pc ≡ none
      → awaited_at pc ≡ some r
      → held_at tgt pc' ≡ none
      → (awaited_at pc' ≡ none) ⊎ (awaited_at pc' ≡ some r)
      → SystemInv (after s i tgt (s.plugin, pc'))
  unfolding At
  wait-step pc r pc' at e w e' w' =
      quiet-step pc s.plugin pc' at (refl, refl, refl) (e' ∙ sym e)
        (λ q k. elim w' [
          | inl n ↦ absurd (ground (arith, n, k))
          | inr n ↦ v.waits_known i q (ap awaited at ∙ w ∙ sym n ∙ k)
        ])

  after_first-waits :
      (r : ℕ) (st : Status)
      → (held_at tgt (after_first r st) ≡ none)
        × ((awaited_at (after_first r st) ≡ none) ⊎ (awaited_at (after_first r st) ≡ some r))
  after_first-waits r pending = (refl, inr refl)
  after_first-waits r (closed none) = (refl, inl refl)
  after_first-waits r (closed (some e)) = (refl, inl refl)

  after_second-waits :
      (r : ℕ) (st : Status)
      → (held_at tgt (after_second r st) ≡ none)
        × ((awaited_at (after_second r st) ≡ none) ⊎ (awaited_at (after_second r st) ≡ some r))
  after_second-waits r pending = (refl, inr refl)
  after_second-waits r (closed none) = (refl, inl refl)
  after_second-waits r (closed (some e)) = (refl, inl refl)

  first-Inv :
      (r : ℕ) (cancelled : Bool)
      → At (waiting_first r)
      → SystemInv (
          after s i tgt
            (s.plugin, if cancelled then finished else after_first r (s.plugin.results r)))
  first-Inv r true at = wait-step (waiting_first r) r finished at refl refl refl (inl refl)
  first-Inv r false at =
      let (h, w) = after_first-waits r (s.plugin.results r) in
      wait-step (waiting_first r) r _ at refl refl h w

  second-Inv :
      (r : ℕ) (cancelled : Bool)
      → At (waiting_second r)
      → SystemInv (
          after s i tgt (
            s.plugin,
            if cancelled then failing cancelled_waiting else after_second r (s.plugin.results r),
          ))
  second-Inv r true at =
      wait-step (waiting_second r) r (failing cancelled_waiting) at refl refl refl (inl refl)
  second-Inv r false at =
      let (h, w) = after_second-waits r (s.plugin.results r) in
      wait-step (waiting_second r) r _ at refl refl h w

  pub step-Inv :
      (pc : Pc) (input : Input) → At pc → SystemInv (after s i tgt (step s.plugin tgt pc input))
  unfolding step mark_tracker_unloaded load_step enter_step
  step-Inv looking input at = looking-Inv at
  step-Inv (waiting_first r) input at = first-Inv r input.cancelled at
  step-Inv querying input at = query-Inv input at
  step-Inv entering input at = enter-Inv (GoMap.get s.plugin.loading_models key) refl at
  step-Inv (waiting_second r) input at = second-Inv r input.cancelled at
  step-Inv (loading r) input at = load-Inv r input.now _ at
  step-Inv (publishing r e) input at = publish-step-Inv r e at
  step-Inv (failing e) input at =
      quiet-step (failing e) (mark_tracker_unloaded s.plugin tgt.pod_ip tgt.model_name) finished at
        (unmark-SameLoads s.plugin tgt.pod_ip tgt.model_name s.plugin.tracker) refl no_wait
  step-Inv finished input at =
      quiet-step finished s.plugin finished at (refl, refl, refl) refl no_wait
