-- ===== src/ModelTracker/Dedup/Grace.antt =====
-- The grace period: what a pass does to the counters, and when it sends an unload request.
use rocm_llamacpp_envoy_ai_g.Prelude.{
  ℕ, ◌+◌, ◌≤◌, String, ◌≡◌, refl, inl, inr, Bool, false, List, [], ◌∷◌, ◌++◌, arith, subst, In,
  Bool-cases, Option-cases, length, if◌then◌else◌, ltb, true,
}
use native.Mathlib.Nat.{le_trans}
use rocm_llamacpp_envoy_ai_g.GoMap
use rocm_llamacpp_envoy_ai_g.GoMap.{GoMap, Distinct, get-put, get-delete}
use rocm_llamacpp_envoy_ai_g.Http.{Reply}
use rocm_llamacpp_envoy_ai_g.ModelTracker.Types.{Tracker}
use rocm_llamacpp_envoy_ai_g.ModelTracker.State.{mark_unloaded}
use rocm_llamacpp_envoy_ai_g.ModelTracker.State.Valid.{IsValid}
use rocm_llamacpp_envoy_ai_g.ModelTracker.State.Laws.{dup_obs-mark_unloaded}
use rocm_llamacpp_envoy_ai_g.ModelTracker.Dedup.{
  unload_sent, observer_called, Ripe, attempt, settle, unload_loop, duplicates, holders_of,
  phase_one, count_or_zero, resolve_with, resolve_duplicates,
}
use rocm_llamacpp_envoy_ai_g.ModelTracker.Dedup.Holders.{
  holders, holders_of-duplicates, duplicates-Distinct,
}
use rocm_llamacpp_envoy_ai_g.ModelTracker.Dedup.Phase.{IsRipe, phase_one-IsRipe, get-phase_one}
use rocm_llamacpp_envoy_ai_g.ModelTracker.Dedup.Pass.{
  Attempt-cases, unload_loop-cases, unload_loop-full,
}
use rocm_llamacpp_envoy_ai_g.ModelTracker.Dedup.Resolve.{runs}
use rocm_llamacpp_envoy_ai_g.ModelTracker.Dedup.Safety.{resolve-cases}

-- In how many passes in a row the model has been counted.
abbrev pub count : Tracker → String → ℕ
count t m = count_or_zero (GoMap.get t.dup_obs m)

-- Fewer than two pods have the model.
abbrev pub few : Tracker → String → Bool
few t m = ltb (length (holders t.loaded m)) 2

not_request :
    (t : Tracker) (key model ip m : String) (b : Bool)
    → In (unload_sent ip m b) ((settle t key model).1 ++ [])
    → ⊥
unfolding settle
not_request t key model ip m b i = elim (Option-cases (mark_unloaded t key model).1) [
  | inl e ↦ rw e at i
  | inr ((ip', m'), e) ↦ no_call (rw e at i)
]
  where
    no_call : {ip' m' : String} → In (unload_sent ip m b) (observer_called ip' m' ∷ []) → ⊥
    no_call (inl h) = cc
    no_call (inr h) = h

count-settle : (t : Tracker) (key model m : String) → count (settle t key model).0 m ≤ count t m
unfolding settle
count-settle t key model m =
    rw (dup_obs-mark_unloaded t key model) (ground (arith, get-delete t.dup_obs model m))

module _ (http_post : String → String → Reply Bool) (pressure : String → ℕ)
    (ip_snap : GoMap String) where
  -- A request of the loop is for the model of a ripe duplicate.
  unload_loop-request :
      (rs : List Ripe) (t : Tracker) (ip m : String) (b : Bool)
      → In (unload_sent ip m b) (unload_loop http_post pressure ip_snap rs 0 t).1
      → (r : Ripe) × (In r rs) × (r.model ≡ m)
  unfolding unload_loop
  unload_loop-request [] t ip m b i = absurd i
  unload_loop-request (r ∷ rs) t ip m b i =
      elim (Attempt-cases (attempt http_post t pressure ip_snap r)) [
        | inl e ↦ behind (unload_loop-request rs t ip m b (rw (e, unload_loop) at i))
        | inr (inl (ip', e)) ↦ elim (rw (e, unload_loop) at i) [
          | inl h ↦ (r, inl refl, cc)
          | inr later ↦ behind (unload_loop-request rs t ip m b later)
        ]
        | inr (inr (key, ip', e)) ↦
            elim (rw (unload_loop-full http_post pressure ip_snap rs) at
              (rw (e, unload_loop) at i)) [
                | inl h ↦ (r, inl refl, cc)
                | inr later ↦ absurd (not_request t key r.model ip m b later)
              ]
      ]
    where
      behind :
          ((r' : Ripe) × (In r' rs) × (r'.model ≡ m))
          → (r' : Ripe) × (In r' (r ∷ rs)) × (r'.model ≡ m)
      behind (r', j, e) = (r', inr j, e)

  -- The loop only lowers a counter.
  count-unload_loop :
      (rs : List Ripe) (t : Tracker) (m : String)
      → count (unload_loop http_post pressure ip_snap rs 0 t).0 m ≤ count t m
  count-unload_loop rs t m = elim (unload_loop-cases http_post pressure ip_snap rs t) [
    | inl quiet ↦ rw quiet.0 (omega arith)
    | inr u ↦ rw u.after (count-settle t u.key u.ripe.model m)
  ]

-- How many passes in a row have found the model on two pods, after a pass from this tracker.
abbrev pub next_streak : Tracker → String → ℕ → ℕ
next_streak t m n = if runs t then (if few t m then 0 else n + 1) else n

module _ (t : Tracker) (m : String) (v : IsValid t) where
  few-duplicates : ltb (length (holders_of (duplicates t.loaded []) m)) 2 ≡ few t m
  unfolding GoMap.get
  few-duplicates = rw (holders_of-duplicates t.loaded [] m v.models_distinct)

  count-phase_one :
      (n : ℕ)
      → count t m ≤ n
      → count_or_zero (GoMap.get (phase_one t (duplicates t.loaded [])).0 m)
        ≤ (if few t m then 0 else n + 1)
  count-phase_one n h =
      rw
        (
          get-phase_one t (duplicates t.loaded []) m (duplicates-Distinct t.loaded [] tt),
          few-duplicates,
        )
        (elim (Bool-cases (few t m)) [ inl e ↦ rw e (omega arith) | inr e ↦ rw e (omega arith) ])

  -- A pass keeps the counter at most at the length of the run of passes that found the model shared.
  pub count-resolve_duplicates :
      (http_post : String → String → Reply Bool) (n : ℕ)
      → count t m ≤ n
      → count (resolve_duplicates http_post t).0 m ≤ next_streak t m n
  unfolding resolve_with
  count-resolve_duplicates http_post n h = elim (resolve-cases http_post t) [
    | inl (off, same) ↦ rw (off, same) h
    | inr (pressure, on, e) ↦
        rw (on, e)
          (le_trans (count-unload_loop http_post pressure t.pod_ip _ _ m) (count-phase_one n h))
  ]

  -- A pass that sends an unload request for a model has found it on two pods, and its counter has
  -- reached the grace with this pass.
  pub request_is_ripe :
      (http_post : String → String → Reply Bool) (ip : String) (b : Bool)
      → In (unload_sent ip m b) (resolve_duplicates http_post t).1
      → (runs t ≡ true) × (few t m ≡ false) × (t.options.dedup_grace_polls ≤ count t m + 1)
  unfolding resolve_with
  request_is_ripe http_post ip b i = elim (resolve-cases http_post t) [
    | inl (off, same) ↦ absurd (rw same at i)
    | inr (pressure, on, e) ↦
        let (r, j, named) =
          unload_loop-request http_post pressure t.pod_ip _ _ ip m b (rw e at i) in
        ripe_facts r on named (phase_one-IsRipe t _ r (duplicates-Distinct t.loaded [] tt) j)
  ]
    where
      ripe_facts :
          (r : Ripe)
          → runs t ≡ true
          → r.model ≡ m
          → IsRipe t.options.dedup_grace_polls (duplicates t.loaded []) t.dup_obs r
          → (runs t ≡ true) × (few t m ≡ false) × (t.options.dedup_grace_polls ≤ count t m + 1)
      ripe_facts r on named ripe = (
        on,
        rw (← few-duplicates, ← named, ripe.listed) (ground (arith, ripe.shared)),
        subst (λ k. t.options.dedup_grace_polls ≤ count t k + 1) named ripe.mature,
      )
