-- ===== src/Vram/Tracker/Copies.antt =====
-- The copies of the metrics that the reads hand out, and what is set (internal/vram/tracker.go: GetMetrics,
-- GetNodeVRAM, SetMetrics).
use rocm_llamacpp_envoy_ai_g.Prelude.{
  String, ◌≡◌, refl, sym, Bool, true, false, ◌∙◌, ap, inl, inr, Bool-cases, Option, none, some, [],
  ◌∷◌, arith, ◌==◌, eq_iff, if◌then◌else◌,
}
use rocm_llamacpp_envoy_ai_g.GoMap
use rocm_llamacpp_envoy_ai_g.GoMap.{GoMap, Distinct}
use rocm_llamacpp_envoy_ai_g.Vram.Types.{ok, Metrics}
use rocm_llamacpp_envoy_ai_g.Vram.Tracker.{
  Tracker, known, get_node_vram, set_metrics, copy_metrics, get_metrics,
}
use rocm_llamacpp_envoy_ai_g.Vram.Tracker.Laws.{or_metrics}

pub or_metrics-none : (o : Option Metrics) → or_metrics o none ≡ o
or_metrics-none none = refl
or_metrics-none (some m) = refl

put_entry :
    (metrics : GoMap Metrics) (j : String) (m : Metrics) (k : String) (old : Option Metrics)
    → GoMap.get metrics j ≡ none
    → or_metrics (GoMap.get metrics k) (if j == k then some m else old)
      ≡ or_metrics (if j == k then some m else GoMap.get metrics k) old
put_entry metrics j m k old free = elim (Bool-cases (j == k)) [
  | inl e ↦
      let gone : GoMap.get metrics k ≡ none = ground (arith, free, e, eq_iff j k) in
      rw (e, gone) refl
  | inr e ↦ rw e refl
]

pub get-copy_metrics :
    (metrics r : GoMap Metrics) (k : String)
    → Distinct metrics
    → GoMap.get (copy_metrics metrics r) k ≡ or_metrics (GoMap.get metrics k) (GoMap.get r k)
unfolding copy_metrics GoMap.get
get-copy_metrics [] r k d = refl
get-copy_metrics ((j, m) ∷ metrics) r k (free, d) =
    get-copy_metrics metrics (GoMap.put r j m) k d
    ∙ ap (or_metrics (GoMap.get metrics k)) (GoMap.get-put r j k m)
    ∙ put_entry metrics j m k (GoMap.get r k) free

pub copy_metrics-Distinct :
    (metrics r : GoMap Metrics) → Distinct r → Distinct (copy_metrics metrics r)
unfolding copy_metrics
copy_metrics-Distinct [] r d = d
copy_metrics-Distinct ((j, m) ∷ metrics) r d =
    copy_metrics-Distinct metrics (GoMap.put r j m) (GoMap.put-Distinct r j m d)

known_if :
    (b : Bool) (m : Metrics) (o : Option Metrics)
    → known (if b then some m else o) ≡ (if b then ok m else known o)
known_if true m o = refl
known_if false m o = refl

-- What is set for a node is what is read for it, by GetNodeVRAM and in the copy of GetMetrics; every other
-- node reads as before. The metrics are a map, with one entry for each node.
pub get_node_vram-set_metrics :
    (t : Tracker) (name : String) (m : Metrics) (k : String)
    → Distinct t.metrics
    → (get_node_vram (set_metrics t name m) k ≡ (if name == k then ok m else get_node_vram t k))
      × (GoMap.get (get_metrics (set_metrics t name m)) k
          ≡ (if name == k then some m else GoMap.get (get_metrics t) k))
unfolding get_node_vram set_metrics get_metrics GoMap.get
get_node_vram-set_metrics t name m k d = (
  ap known (GoMap.get-put t.metrics name k m) ∙ known_if (name == k) m (GoMap.get t.metrics k),
  get-copy_metrics (GoMap.put t.metrics name m) [] k (GoMap.put-Distinct t.metrics name m d)
      ∙ or_metrics-none (GoMap.get (GoMap.put t.metrics name m) k)
      ∙ GoMap.get-put t.metrics name k m
      ∙ ap (λ o. if name == k then some m else o)
          (sym (get-copy_metrics t.metrics [] k d ∙ or_metrics-none (GoMap.get t.metrics k))),
)
