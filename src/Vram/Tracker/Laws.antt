-- ===== src/Vram/Tracker/Laws.antt =====
-- What a scrape leaves and which node is chosen (internal/vram/tracker.go: scrapeMetrics,
-- GetNodeWithMostAvailableVRAM).
use rocm_llamacpp_envoy_ai_g.Prelude.{
  ℕ, ◌≤◌, ◌<◌, String, ◌≡◌, refl, sym, ◌∙◌, ap, ◌⊎◌, inl, inr, Option, none, some, List, [], ◌∷◌,
  arith, ◌==◌, eq_iff, In, All, ltb, Bool-cases, if◌then◌else◌,
}
use rocm_llamacpp_envoy_ai_g.GoMap
use rocm_llamacpp_envoy_ai_g.GoMap.{GoMap, Distinct}
use rocm_llamacpp_envoy_ai_g.Vram.Types.{
  no_nodes, no_suitable_node, Result, ok, err, Metrics, MetricsEndpoint,
}
use rocm_llamacpp_envoy_ai_g.Vram.Tracker.{
  Tracker, best_node, chosen, choose, get_node_with_most_available_vram, store, scrape_all,
  scrape_metrics,
}

abbrev pub ok_or_none : Result Metrics → Option Metrics
ok_or_none (ok m) = some m
ok_or_none (err e) = none

abbrev pub or_metrics : Option Metrics → Option Metrics → Option Metrics
or_metrics none o = o
or_metrics (some m) o = some m

-- The metrics of the last endpoint of a node that answers.
pub last_scraped :
    (MetricsEndpoint → Result Metrics) → String → List MetricsEndpoint → Option Metrics
last_scraped scrape k [] = none
last_scraped scrape k (e ∷ endpoints) =
    or_metrics (last_scraped scrape k endpoints)
      (if e.node_name == k then ok_or_none (scrape e) else none)

get-store :
    (metrics : GoMap Metrics) (name k : String) (r : Result Metrics)
    → GoMap.get (store metrics name r) k
      ≡ or_metrics (if name == k then ok_or_none r else none) (GoMap.get metrics k)
get-store metrics name k (ok m) = ground (arith, GoMap.get-put metrics name k m)
get-store metrics name k (err e) = ground arith

pub or_metrics_assoc :
    (a b c : Option Metrics) → or_metrics a (or_metrics b c) ≡ or_metrics (or_metrics a b) c
or_metrics_assoc none b c = refl
or_metrics_assoc (some m) b c = refl

get-scrape_all :
    (scrape : MetricsEndpoint → Result Metrics) (endpoints : List MetricsEndpoint)
    (metrics : GoMap Metrics) (k : String)
    → GoMap.get (scrape_all scrape endpoints metrics) k
      ≡ or_metrics (last_scraped scrape k endpoints) (GoMap.get metrics k)
unfolding scrape_all last_scraped
get-scrape_all scrape [] metrics k = refl
get-scrape_all scrape (e ∷ endpoints) metrics k =
    get-scrape_all scrape endpoints (store metrics e.node_name (scrape e)) k
    ∙ ap (or_metrics (last_scraped scrape k endpoints)) (get-store metrics e.node_name k (scrape e))
    ∙ or_metrics_assoc (last_scraped scrape k endpoints) _ (GoMap.get metrics k)

-- After a scrape of the endpoints discovered: the metrics of a node are those of its last endpoint
-- that answered, and what they were if there is none.
pub get-scrape_metrics :
    (scrape : MetricsEndpoint → Result Metrics) (endpoints : List MetricsEndpoint) (t : Tracker)
    (k : String)
    → GoMap.get (scrape_metrics scrape (some (ok endpoints)) t).metrics k
      ≡ or_metrics (last_scraped scrape k endpoints) (GoMap.get t.metrics k)
unfolding scrape_metrics
get-scrape_metrics scrape endpoints t k = get-scrape_all scrape endpoints t.metrics k

-- Every entry has at most `a` bytes free.
abbrev pub AtMost : ℕ → GoMap Metrics → Type 0
AtMost a metrics = All (λ (e : String × Metrics). e.1.available_vram ≤ a) metrics

-- The pair is what the loop started with, or the larger memory of an entry.
abbrev Found : GoMap Metrics → String × ℕ → String × ℕ → Type 0
Found metrics start (n, a) =
    ((n, a) ≡ start) ⊎ ((m : Metrics) × In (n, m) metrics × (m.available_vram ≡ a) × (start.1 < a))

-- One more entry, with the start that it leads to.
Found-cons :
    (name : String) (m : Metrics) (metrics : GoMap Metrics) (b : String) (x : ℕ) (r : String × ℕ)
    → Found metrics (if ltb x m.available_vram then (name, m.available_vram) else (b, x)) r
    → Found ((name, m) ∷ metrics) (b, x) r
Found-cons name m metrics b x (n, a) f = elim (Bool-cases (ltb x m.available_vram)) [
  | inl q ↦ elim (rw q at f) [
    | inl e ↦
        inr
          (m, inl (ap (λ p. (p.0, m)) e), sym (ap (λ p. p.1) e), ground (arith, q, ap (λ p. p.1) e))
    | inr (m', i, e, lt) ↦ inr (m', inr i, e, ground (arith, q, lt))
  ]
  | inr q ↦ elim (rw q at f) [ inl e ↦ inl e | inr (m', i, e, lt) ↦ inr (m', inr i, e, lt) ]
]

best_node-Found :
    (metrics : GoMap Metrics) (start : String × ℕ) → Found metrics start (best_node metrics start)
unfolding best_node
best_node-Found [] start = inl refl
best_node-Found ((name, m) ∷ metrics) (b, x) =
    Found-cons name m metrics b x _ (
      best_node-Found metrics (if ltb x m.available_vram then (name, m.available_vram) else (b, x)))

abbrev keep : String → ℕ → String → ℕ → String × ℕ
keep name a b x = if ltb x a then (name, a) else (b, x)

larger : (name b : String) (x a : ℕ) → (x ≤ (keep name a b x).1) × (a ≤ (keep name a b x).1)
larger name b x a = ground arith

best_node-AtMost :
    (metrics : GoMap Metrics) (start : String × ℕ)
    → (start.1 ≤ (best_node metrics start).1) × AtMost (best_node metrics start).1 metrics
unfolding best_node
best_node-AtMost [] start = (omega arith, tt)
best_node-AtMost ((name, m) ∷ metrics) (b, x) =
    let (le, all) =
      best_node-AtMost metrics
        (if ltb x m.available_vram then (name, m.available_vram) else (b, x)) in
    let (lx, lm) = larger name b x m.available_vram in
    (omega (arith, le, lx), (omega (arith, le, lm), all))

get-In :
    (metrics : GoMap Metrics) (n : String) (m : Metrics)
    → Distinct metrics
    → In (n, m) metrics
    → GoMap.get metrics n ≡ some m
unfolding GoMap.get
get-In [] n m d i = absurd i
get-In ((k, v) ∷ metrics) n m d (inl e) =
    ground (arith, ap (λ p. p.0) e, ap (λ p. p.1) e, eq_iff k n)
get-In ((k, v) ∷ metrics) n m d (inr i) =
    let e = get-In metrics n m d.1 i in
    elim (Bool-cases (k == n)) [
      | inl q ↦ absurd (ground (arith, d.0, e, ap (GoMap.get metrics) ((eq_iff k n).0 q)))
      | inr q ↦ rw q e
    ]

-- What the choice of a node means: it has metrics, free memory, and no node has more; or no node
-- has metrics, or none of those that have has free memory.
abbrev pub Choice : GoMap Metrics → Result (String × ℕ) → Type 0
Choice metrics (ok (n, a)) =
    ((m : Metrics) × (GoMap.get metrics n ≡ some m) × (m.available_vram ≡ a))
    × (0 < a)
    × AtMost a metrics
Choice metrics (err e) =
    ((e ≡ no_nodes) × (metrics ≡ [])) ⊎ ((e ≡ no_suitable_node) × AtMost 0 metrics)

chosen-Choice :
    (metrics : GoMap Metrics) (r : String × ℕ)
    → Distinct metrics
    → GoMap.get metrics "" ≡ none
    → Found metrics ("", 0) r
    → AtMost r.1 metrics
    → Choice metrics (chosen r)
chosen-Choice metrics (n, a) d u f most = elim (Bool-cases (n == "")) [
  | inl q ↦ elim f [
    | inl e ↦ rw q (inr (refl, rw (ap (λ p. p.1) e) at most))
    | inr (m, i, e, lt) ↦
        absurd
          (ground (arith, u, get-In metrics n m d i, ap (GoMap.get metrics) ((eq_iff n "").0 q)))
  ]
  | inr q ↦ elim f [
    | inl e ↦ absurd (ground (arith, q, eq_iff n "", ap (λ p. p.0) e))
    | inr (m, i, e, lt) ↦ rw q ((m, get-In metrics n m d i, e), lt, most)
  ]
]

choose-Choice :
    (metrics : GoMap Metrics)
    → Distinct metrics
    → GoMap.get metrics "" ≡ none
    → Choice metrics (choose metrics)
choose-Choice [] d u = inl (refl, refl)
choose-Choice (e ∷ metrics) d u =
    chosen-Choice (e ∷ metrics) (best_node (e ∷ metrics) ("", 0)) d u
      (best_node-Found (e ∷ metrics) ("", 0)) (best_node-AtMost (e ∷ metrics) ("", 0)).1

-- For distinct nodes with names that are not empty: the node returned has metrics and the most free
-- memory of all nodes, which is not zero; the error tells whether there are no metrics at all or no
-- node has free memory.
pub get_node-Choice :
    (t : Tracker)
    → Distinct t.metrics
    → GoMap.get t.metrics "" ≡ none
    → Choice t.metrics (get_node_with_most_available_vram t)
unfolding get_node_with_most_available_vram
get_node-Choice t d u = choose-Choice t.metrics d u
