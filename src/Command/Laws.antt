-- ===== src/Command/Laws.antt =====
-- The filter, the cache and the dedup pass together, as cmd/epp/main.go wires them.
use rocm_llamacpp_envoy_ai_g.Prelude.{
  ℕ, ◌≤◌, String, ◌≡◌, refl, ◌∙◌, ap, ◌≢◌, inl, inr, Bool, true, false, Option, some, List, [], ◌∷◌,
  arith,
}
use rocm_llamacpp_envoy_ai_g.Http.{Reply}
use rocm_llamacpp_envoy_ai_g.PodState.{pressure}
use rocm_llamacpp_envoy_ai_g.ModelTracker.Types.{Tracker}
use rocm_llamacpp_envoy_ai_g.ModelTracker.State.{holds}
use rocm_llamacpp_envoy_ai_g.ModelTracker.State.Valid.{IsValid}
use rocm_llamacpp_envoy_ai_g.ModelTracker.History
use rocm_llamacpp_envoy_ai_g.ModelTracker.Dedup.{resolve_duplicates}
use rocm_llamacpp_envoy_ai_g.ModelTracker.Dedup.Loser.{LessLoaded}
use rocm_llamacpp_envoy_ai_g.ModelTracker.Dedup.Removed.{holders-In, removed-resolve_duplicates}
use rocm_llamacpp_envoy_ai_g.Vram.Discovery.{Cluster}
use rocm_llamacpp_envoy_ai_g.Filter.{Pod, filter}
use rocm_llamacpp_envoy_ai_g.Filter.Present.{IsPresent, present, filter-IsPresent}
use rocm_llamacpp_envoy_ai_g.Filter.Laws.{reported, or_pressure, pressure-filter}
use rocm_llamacpp_envoy_ai_g.Command.{
  Settings, Wiring, wire, tracker_of, filter_of, Op, filters, tracks, advance, run,
}

least_pressure : (f : String → ℕ) (a b : String) → LessLoaded f a b → f a ≤ f b
least_pressure f a b (inl l) = omega arith
least_pressure f a b (inr (e, s)) = omega arith

module _ {F : Type 0} where
  -- The tracker reads the pressure of the cache, which is there, and has each pod once.
  record Wired (w : Wiring F) : Type 0 where
    pub reads_cache : w.reads ≡ pressure
    pub valid : IsValid w.tracker_state
    pub has_cache : IsPresent w.load_cache

  wire-Wired : (v : Settings) (client : Option Cluster) → Wired (wire F v client)
  unfolding wire
  wire-Wired v client = record {
    reads_cache = refl;
    valid = record { pods_distinct = tt; models_distinct = tt };
    has_cache = tt;
  }

  tracker_of-IsValid : (w : Wiring F) → Wired w → IsValid (tracker_of F w)
  unfolding tracker_of
  tracker_of-IsValid w v = record {
    pods_distinct = v.valid.pods_distinct;
    models_distinct = v.valid.models_distinct;
  }

  advance-Wired : (w : Wiring F) (op : Op F) → Wired w → Wired (advance F w op)
  unfolding advance
  advance-Wired w (filters request pods now) v = record {
    reads_cache = v.reads_cache;
    valid = v.valid;
    has_cache = filter-IsPresent (filter_of F w) request pods now v.has_cache;
  }
  advance-Wired w (tracks op) v = record {
    reads_cache = v.reads_cache;
    valid = History.step-IsValid (tracker_of F w) op (tracker_of-IsValid w v);
    has_cache = v.has_cache;
  }

  run-Wired : (w : Wiring F) (ops : List (Op F)) → Wired w → Wired (run F w ops)
  unfolding run
  run-Wired w [] v = v
  run-Wired w (op ∷ ops) v = run-Wired (advance F w op) ops (advance-Wired w op v)

  -- The pressure that the tracker reads after a call of the filter.
  pressure_after :
      (w : Wiring F) (model : String) (pods : List (Pod F)) (now : ℕ) (pk : String) (n : ℕ)
      → Wired w
      → model ≢ ""
      → reported pk pods ≡ some n
      → w.reads (filter (filter_of F w) (some model) pods now).1 pk ≡ n
  pressure_after w model pods now pk n v ne known =
      let (c, there) = present w.load_cache v.has_cache in
      ap (λ r. r (filter (filter_of F w) (some model) pods now).1 pk) v.reads_cache
      ∙ pressure-filter (filter_of F w) (tracker_of F w) c model pods now pk refl there ne
      ∙ ap (λ o. or_pressure o (pressure (some c) pk)) known

  -- The tracker after the wiring of main, some operations, and a call of the filter.
  abbrev pub tracker_after :
      Settings → Option Cluster → List (Op F) → String → List (Pod F) → ℕ → Tracker
  tracker_after v client ops model pods now =
      tracker_of F (advance F (run F (wire F v client) ops) (filters (some model) pods now))

  -- After the wiring of main and any calls of the filter and operations of the model tracker: when the
  -- filter is then given pods for a model, and the framework reported metrics for every pod that has some
  -- model `m` for the tracker, a dedup pass takes `m` only from a pod that no pod with `m` is less loaded
  -- than, by the reported metrics.
  pub reported-resolve_duplicates :
      (v : Settings) (client : Option Cluster) (ops : List (Op F)) (model : String)
      (pods : List (Pod F)) (now : ℕ) (http_post : String → String → Reply Bool) (m q : String)
      (load : String → ℕ)
      → model ≢ ""
      → ((pk : String)
          → holds (tracker_after v client ops model pods now).loaded pk m ≡ true
          → reported pk pods ≡ some (load pk))
      → holds (tracker_after v client ops model pods now).loaded q m ≡ true
      → holds
          (resolve_duplicates http_post (tracker_after v client ops model pods now)).0.loaded
          q
          m
        ≡ false
      → (pk : String) → holds (tracker_after v client ops model pods now).loaded pk m ≡ true
      → load q ≤ load pk
  unfolding advance tracker_of
  reported-resolve_duplicates v client ops model pods now http_post m q load ne known there gone pk
        has =
      let w = run F (wire F v client) ops in
      let is = run-Wired (wire F v client) ops (wire-Wired v client) in
      let t = tracker_after v client ops model pods now in
      let p = w.reads (filter (filter_of F w) (some model) pods now).1 in
      let valid = tracker_of-IsValid _ (advance-Wired w (filters (some model) pods now) is) in
      let lost = removed-resolve_duplicates http_post p t q m valid refl there gone in
      let le : p q ≤ p pk = least_pressure p q pk (lost.least pk (holders-In t.loaded pk m has)) in
      let mine = pressure_after w model pods now q (load q) is ne (known q there) in
      let theirs = pressure_after w model pods now pk (load pk) is ne (known pk has) in
      omega (arith, le, mine, theirs)
