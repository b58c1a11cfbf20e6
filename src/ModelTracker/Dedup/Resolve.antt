-- ===== src/ModelTracker/Dedup/Resolve.antt =====
-- What a dedup pass that is due does to the state (internal/modeltracker/tracker.go: resolveDuplicates).
use rocm_llamacpp_envoy_ai_g.Prelude.{
  ℕ, ◌≤◌, String, ◌≡◌, refl, ap, sym, ◌∙◌, ◌≢◌, ◌⊎◌, inl, inr, Bool, true, List, [], ◌∷◌, ◌==◌,
  eq_iff, eq_refl, arith, subst, In, Bool-cases, is_some, ◌&&◌, Bool, length,
}
use rocm_llamacpp_envoy_ai_g.GoMap
use rocm_llamacpp_envoy_ai_g.GoMap.{GoMap, Distinct, get-put, get-delete}
use rocm_llamacpp_envoy_ai_g.Http.{Reply}
use rocm_llamacpp_envoy_ai_g.ModelTracker.Types.{Tracker, PodModelSet}
use rocm_llamacpp_envoy_ai_g.ModelTracker.State.{mark_unloaded, holds, any_has}
use rocm_llamacpp_envoy_ai_g.ModelTracker.State.Laws.{
  holds-mark_unloaded_other, holds-mark_unloaded_le, first_poll-mark_unloaded,
  options-mark_unloaded,
}
use rocm_llamacpp_envoy_ai_g.ModelTracker.State.Valid.{IsValid, mark_unloaded-IsValid}
use rocm_llamacpp_envoy_ai_g.ModelTracker.Dedup.{
  Ripe, settle, duplicates, list_or_empty, phase_one, sort_ripe, resolve_with,
}
use rocm_llamacpp_envoy_ai_g.ModelTracker.Dedup.Holders.{
  holders, holders_of-duplicates, duplicates-Distinct, In-holders, holders-differ,
}
use rocm_llamacpp_envoy_ai_g.ModelTracker.Dedup.Phase.{phase_one-IsRipe}
use rocm_llamacpp_envoy_ai_g.ModelTracker.Dedup.Pass.{unload_loop-cases}

pub any_has-holds :
    (loaded : GoMap PodModelSet) (q m : String) → holds loaded q m ≡ true → any_has loaded m ≡ true
unfolding any_has GoMap.get
any_has-holds [] q m h = h
any_has-holds ((pk, set) ∷ loaded) q m h = ground (arith, any_has-holds loaded q m)

holds-any_has :
    (loaded : GoMap PodModelSet) (m : String)
    → Distinct loaded
    → any_has loaded m ≡ true
    → (q : String) × (holds loaded q m ≡ true)
unfolding any_has GoMap.get
holds-any_has [] m d h = cc
holds-any_has ((pk, set) ∷ loaded) m d h = elim (Bool-cases (GoMap.has set m)) [
  | inl e ↦ (pk, rw eq_refl e)
  | inr e ↦
      let (q, there) = holds-any_has loaded m d.1 (rw e at h) in
      (q, ground (arith, eq_iff pk q, there, d.0))
]

other_holder :
    (loaded : GoMap PodModelSet) (m key : String) (pods : List String)
    → Distinct loaded
    → holders loaded m ≡ pods
    → 2 ≤ length pods
    → (q : String) × (key ≢ q) × (holds loaded q m ≡ true)
other_holder loaded m key [] d e h = absurd (omega arith)
other_holder loaded m key (p ∷ []) d e h = absurd (omega arith)
other_holder loaded m key (p ∷ q ∷ rest) d e h = elim (Bool-cases (key == p)) [
  | inl first ↦ (
    q,
    λ same. holders-differ loaded m p q rest d e (sym ((eq_iff key p).0 first) ∙ same),
    In-holders loaded q m d (subst (In q) (sym e) (inr (inl refl))),
  )
  | inr other ↦ (
    p,
    ground (arith, eq_iff key p, other),
    In-holders loaded p m d (subst (In p) (sym e) (inl refl)),
  )
]

pub loaded-settle :
    (t : Tracker) (key m : String) → (settle t key m).0.loaded ≡ (mark_unloaded t key m).0.loaded
unfolding settle
loaded-settle t key m = refl

module _ (http_post : String → String → Reply Bool) (pressure : String → ℕ) (t : Tracker)
    (v : IsValid t) where
  -- The tracker between phase 1 and the unload loop.
  abbrev pub counted : Tracker
  counted = record t { dup_obs = (phase_one t (duplicates t.loaded [])).0 }

  abbrev pub ripe_list : List Ripe
  ripe_list = sort_ripe (phase_one t (duplicates t.loaded [])).1

  pub ripe-holders :
      (r : Ripe) → In r ripe_list → (holders t.loaded r.model ≡ r.holders) × (2 ≤ length r.holders)
  unfolding GoMap.get
  ripe-holders r i =
      let ripe = phase_one-IsRipe t _ r (duplicates-Distinct t.loaded [] tt) i in
      (
        sym (holders_of-duplicates t.loaded [] r.model v.models_distinct)
            ∙ ap list_or_empty ripe.listed,
        ripe.shared,
      )

  -- Another pod than the one that is unloaded has the model.
  other_copy :
      (r : Ripe) (key : String)
      → In r ripe_list
      → (q : String) × (key ≢ q) × (holds t.loaded q r.model ≡ true)
  other_copy r key i =
      let (same, many) = ripe-holders r i in
      other_holder t.loaded r.model key r.holders v.pods_distinct same many

  -- The sets after the pass: those before, or those after one MarkUnloaded.
  pub loaded-resolve_with :
      ((resolve_with http_post pressure t).0.loaded ≡ t.loaded)
      ⊎ ((key : String) × (m : String) × (q : String) × (key ≢ q)
          × (holds t.loaded q m ≡ true)
          × ((resolve_with http_post pressure t).0.loaded ≡ (mark_unloaded counted key m).0.loaded))
  unfolding resolve_with
  loaded-resolve_with = elim (unload_loop-cases http_post pressure t.pod_ip ripe_list counted) [
    | inl (same, none_sent) ↦ inl (ap (λ x. x.loaded) same)
    | inr u ↦
        let (q, other, there) = other_copy u.ripe u.key u.member in
        inr (
          u.key,
          u.ripe.model,
          q,
          other,
          there,
          ap (λ x. x.loaded) u.after ∙ loaded-settle counted u.key u.ripe.model,
        )
  ]

  pub any_has-resolve_with :
      (k : String)
      → any_has t.loaded k ≡ true
      → any_has (resolve_with http_post pressure t).0.loaded k ≡ true
  any_has-resolve_with k h = elim loaded-resolve_with [
    | inl same ↦ rw same h
    | inr (key, m, q, other, there, after) ↦ rw after (elim (Bool-cases (m == k)) [
      | inl e ↦ any_has-holds _ q k (
          holds-mark_unloaded_other counted key m q k (inl other)
          ∙ subst (λ x. holds t.loaded q x ≡ true) ((eq_iff m k).0 e) there)
      | inr e ↦
          let (q', there') = holds-any_has t.loaded k v.pods_distinct h in
          any_has-holds _ q' k (
            holds-mark_unloaded_other counted key m q' k (inr (ground (arith, eq_iff m k, e)))
            ∙ there')
    ])
  ]

  pub first_poll-resolve_with : (resolve_with http_post pressure t).0.first_poll ≡ t.first_poll
  unfolding resolve_with settle
  first_poll-resolve_with = elim (unload_loop-cases http_post pressure t.pod_ip ripe_list counted) [
    | inl same ↦ ap (λ x. x.first_poll) same.0
    | inr u ↦ ap (λ x. x.first_poll) u.after ∙ first_poll-mark_unloaded counted u.key u.ripe.model
  ]

  pub options-resolve_with : (resolve_with http_post pressure t).0.options ≡ t.options
  unfolding resolve_with settle
  options-resolve_with = elim (unload_loop-cases http_post pressure t.pod_ip ripe_list counted) [
    | inl same ↦ ap (λ x. x.options) same.0
    | inr u ↦ ap (λ x. x.options) u.after ∙ options-mark_unloaded counted u.key u.ripe.model
  ]

  IsValid-of_loaded : (t' : Tracker) → t'.loaded ≡ t.loaded → IsValid t'
  IsValid-of_loaded t' e = record {
    pods_distinct = rw e v.pods_distinct;
    models_distinct = rw e v.models_distinct;
  }

  pub resolve_with-IsValid : IsValid (resolve_with http_post pressure t).0
  resolve_with-IsValid = elim loaded-resolve_with [
    | inl same ↦ IsValid-of_loaded _ same
    | inr (key, m, q, other, there, after) ↦
        let w = mark_unloaded-IsValid counted key m (IsValid-of_loaded counted refl) in
        record {
          pods_distinct = rw after w.pods_distinct;
          models_distinct = rw after w.models_distinct;
        }
  ]

  pub holds-resolve_with-le :
      (q k : String)
      → holds (resolve_with http_post pressure t).0.loaded q k ≡ true
      → holds t.loaded q k ≡ true
  holds-resolve_with-le q k h = elim loaded-resolve_with [
    | inl same ↦ rw same at h
    | inr (key, m, q', other, there, after) ↦
        holds-mark_unloaded_le counted key m q k (rw after at h)
  ]

-- The pass is enabled and a poll has run.
abbrev pub runs : Tracker → Bool
runs t = t.first_poll && is_some t.options.pressure
