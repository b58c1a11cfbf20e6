-- ===== src/ModelTracker/Dedup/Pass.antt =====
-- The unload loop of resolveDuplicates: it changes the tracker at most once.
use rocm_llamacpp_envoy_ai_g.Prelude.{
  arith, ℕ, suc, ◌≤◌, String, ◌≡◌, refl, ap, ◌∙◌, ◌⊎◌, inl, inr, Bool, true, false, List, [], ◌∷◌,
  ◌++◌, In, Option-cases,
}
use rocm_llamacpp_envoy_ai_g.GoMap.{GoMap}
use rocm_llamacpp_envoy_ai_g.Http.{Reply}
use rocm_llamacpp_envoy_ai_g.ModelTracker.Types.{Tracker, max_unloads_per_cycle}
use rocm_llamacpp_envoy_ai_g.ModelTracker.State.{mark_unloaded}
use rocm_llamacpp_envoy_ai_g.ModelTracker.Dedup.{
  Event, unload_sent, observer_called, Ripe, Attempt, skipped, failed, unloaded, attempt, settle,
  unload_loop,
}

-- The number of unloads that succeeded.
unfoldable pub successes : List Event → ℕ
successes [] = 0
successes (unload_sent ip model true ∷ events) = suc (successes events)
successes (unload_sent ip model false ∷ events) = successes events
successes (observer_called ip model ∷ events) = successes events

-- The number of unload requests.
unfoldable pub requests : List Event → ℕ
requests [] = 0
requests (unload_sent ip model b ∷ events) = suc (requests events)
requests (observer_called ip model ∷ events) = requests events

-- The number of unload requests after the first that succeeded.
unfoldable pub requests_after : List Event → ℕ
unfolding requests
requests_after [] = 0
requests_after (unload_sent ip model true ∷ events) = requests events
requests_after (unload_sent ip model false ∷ events) = requests_after events
requests_after (observer_called ip model ∷ events) = requests_after events

pub Attempt-cases :
    (a : Attempt)
    → (a ≡ skipped)
      ⊎ ((ip : String) × (a ≡ failed ip))
      ⊎ ((key : String) × (ip : String) × (a ≡ unloaded key ip))
Attempt-cases skipped = inl refl
Attempt-cases (failed ip) = inr (inl (ip, refl))
Attempt-cases (unloaded key ip) = inr (inr (key, ip, refl))

module _ (http_post : String → String → Reply Bool) (pressure : String → ℕ)
    (ip_snap : GoMap String) where
  pub unload_loop-full :
      (rs : List Ripe) (t : Tracker) → unload_loop http_post pressure ip_snap rs 1 t ≡ (t, [])
  unfolding unload_loop
  unload_loop-full [] t = refl
  unload_loop-full (r ∷ rs) t = refl

  -- What the loop comes to: no unload succeeds and the tracker stays, or one does, for a ripe
  -- duplicate, and the tracker is that after MarkUnloaded and the delete of the counter.
  pub record Unloads (rs : List Ripe) (t : Tracker) (res : Tracker × List Event) : Type 0 where
    pub ripe : Ripe
    pub key : String
    pub ip : String
    pub member : In ripe rs
    pub chosen : attempt http_post t pressure ip_snap ripe ≡ unloaded key ip
    pub after : res.0 ≡ (settle t key ripe.model).0
    pub once : successes res.1 ≡ 1

  abbrev pub Quiet : Tracker → Tracker × List Event → Type 0
  Quiet t res = (res.0 ≡ t) × (successes res.1 ≡ 0)

  Unloads-later :
      (r : Ripe) (rs : List Ripe) (t : Tracker) (res res' : Tracker × List Event)
      → res'.0 ≡ res.0
      → successes res'.1 ≡ successes res.1
      → Quiet t res ⊎ Unloads rs t res
      → Quiet t res' ⊎ Unloads (r ∷ rs) t res'
  Unloads-later r rs t res res' same count (inl q) = inl (same ∙ q.0, count ∙ q.1)
  Unloads-later r rs t res res' same count (inr u) = inr (record {
    ripe = u.ripe;
    key = u.key;
    ip = u.ip;
    member = inr u.member;
    chosen = u.chosen;
    after = same ∙ u.after;
    once = count ∙ u.once;
  })

  successes-settle :
      (t : Tracker) (key model : String) → successes ((settle t key model).1 ++ []) ≡ 0
  unfolding settle successes
  successes-settle t key model = elim (Option-cases (mark_unloaded t key model).1) [
    | inl e ↦ rw e
    | inr ((ip, m), e) ↦ rw e
  ]

  pub unload_loop-cases :
      (rs : List Ripe) (t : Tracker)
      → Quiet t (unload_loop http_post pressure ip_snap rs 0 t)
        ⊎ Unloads rs t (unload_loop http_post pressure ip_snap rs 0 t)
  unfolding unload_loop successes
  unload_loop-cases [] t = inl (refl, refl)
  unload_loop-cases (r ∷ rs) t = elim (Attempt-cases (attempt http_post t pressure ip_snap r)) [
    | inl e ↦ rw (e, unload_loop) (Unloads-later r rs t _ _ refl refl (unload_loop-cases rs t))
    | inr (inl (ip, e)) ↦
        rw (e, unload_loop) (Unloads-later r rs t _ _ refl refl (unload_loop-cases rs t))
    | inr (inr (key, ip, e)) ↦
        rw (e, unload_loop, unload_loop-full)
          (inr (record {
            ripe = r;
            key = key;
            ip = ip;
            member = inl refl;
            chosen = e;
            after = refl;
            once = ap suc (successes-settle t key r.model);
          }))
  ]

  pub successes-unload_loop :
      (rs : List Ripe) (t : Tracker)
      → successes (unload_loop http_post pressure ip_snap rs 0 t).1 ≤ max_unloads_per_cycle
  successes-unload_loop rs t = elim (unload_loop-cases rs t) [
    | inl quiet ↦ omega (arith, quiet.1)
    | inr u ↦ omega (arith, u.once)
  ]

  requests-settle : (t : Tracker) (key model : String) → requests ((settle t key model).1 ++ []) ≡ 0
  unfolding settle requests
  requests-settle t key model = elim (Option-cases (mark_unloaded t key model).1) [
    | inl e ↦ rw e
    | inr ((ip, m), e) ↦ rw e
  ]

  pub requests_after-unload_loop :
      (rs : List Ripe) (t : Tracker)
      → requests_after (unload_loop http_post pressure ip_snap rs 0 t).1 ≡ 0
  unfolding unload_loop requests_after
  requests_after-unload_loop [] t = refl
  requests_after-unload_loop (r ∷ rs) t =
      elim (Attempt-cases (attempt http_post t pressure ip_snap r)) [
        | inl e ↦ rw (e, unload_loop) (requests_after-unload_loop rs t)
        | inr (inl (ip, e)) ↦ rw (e, unload_loop) (requests_after-unload_loop rs t)
        | inr (inr (key, ip, e)) ↦
            rw (e, unload_loop, unload_loop-full) (requests-settle t key r.model)
      ]
