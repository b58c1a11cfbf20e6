-- ===== src/ModelTracker/Dedup/Removed.antt =====
-- Which copy a dedup pass takes away (internal/modeltracker/tracker.go: resolveDuplicates, pickLoser).
use rocm_llamacpp_envoy_ai_g.Prelude.{
  ℕ, String, ◌≡◌, ◌≢◌, sym, ◌∙◌, ap, ◌⊎◌, inl, inr, Bool, true, false, some, [], ◌∷◌, ◌||◌, ◌==◌,
  eq_iff, arith, subst, In, Bool-cases, Option-cases,
}
use rocm_llamacpp_envoy_ai_g.GoMap
use rocm_llamacpp_envoy_ai_g.GoMap.{GoMap}
use rocm_llamacpp_envoy_ai_g.Http.{Reply}
use rocm_llamacpp_envoy_ai_g.ModelTracker.Types.{PodModelSet, Tracker}
use rocm_llamacpp_envoy_ai_g.ModelTracker.State.{mark_unloaded, holds, text_or_empty}
use rocm_llamacpp_envoy_ai_g.ModelTracker.State.Laws.{holds-mark_unloaded_other}
use rocm_llamacpp_envoy_ai_g.ModelTracker.State.Valid.{IsValid}
use rocm_llamacpp_envoy_ai_g.ModelTracker.Query.{unload_model}
use rocm_llamacpp_envoy_ai_g.ModelTracker.Dedup.{
  Ripe, skipped, failed, unloaded, sent, attempt, pick_loser, resolve_with, resolve_duplicates,
}
use rocm_llamacpp_envoy_ai_g.ModelTracker.Dedup.Loser.{IsLeast, pick_loser-IsLeast}
use rocm_llamacpp_envoy_ai_g.ModelTracker.Dedup.Holders.{holders}
use rocm_llamacpp_envoy_ai_g.ModelTracker.Dedup.Pass.{unload_loop-cases}
use rocm_llamacpp_envoy_ai_g.ModelTracker.Dedup.Resolve.{
  counted, ripe_list, ripe-holders, loaded-settle,
}

attempt-loser :
    (http_post : String → String → Reply Bool) (t : Tracker) (pressure : String → ℕ)
    (ip_snap : GoMap String) (r : Ripe) (key ip : String)
    → attempt http_post t pressure ip_snap r ≡ unloaded key ip
    → key ≡ pick_loser pressure r.holders
unfolding attempt
attempt-loser http_post t pressure ip_snap r key ip e =
    let loser = pick_loser pressure r.holders in
    let loser_ip = text_or_empty (GoMap.get ip_snap loser) in
    elim (Bool-cases (loser == "" || loser_ip == "")) [
      | inl none_left ↦
          let contra : skipped ≡ unloaded key ip = rw none_left at e in
          absurd (ground (arith, contra))
      | inr found ↦
          let reply : sent (unload_model http_post t.options loser_ip r.model) loser loser_ip
              ≡ unloaded key ip =
            rw found at e in
          elim (Option-cases (unload_model http_post t.options loser_ip r.model)) [
            | inl done ↦
                let same : unloaded loser loser_ip ≡ unloaded key ip = rw done at reply in
                ground (arith, same)
            | inr (x, lost) ↦
                let contra : failed loser_ip ≡ unloaded key ip = rw lost at reply in
                absurd (ground (arith, contra))
          ]
    ]

-- A pod that has the model is among its holders.
pub holders-In :
    (loaded : GoMap PodModelSet) (q m : String) → holds loaded q m ≡ true → In q (holders loaded m)
unfolding holders GoMap.get
holders-In [] q m h = absurd (ground (arith, h))
holders-In ((pk, set) ∷ loaded) q m h = elim (Bool-cases (pk == q)) [
  | inl e ↦ rw (rw e at h) (inl (sym ((eq_iff pk q).0 e)))
  | inr e ↦
      let later = holders-In loaded q m (rw e at h) in
      elim (Bool-cases (GoMap.has set m)) [ inl f ↦ rw f (inr later) | inr f ↦ rw f later ]
]

module _ (http_post : String → String → Reply Bool) (pressure : String → ℕ) (t : Tracker)
    (v : IsValid t) where
  loser-resolve_with :
      ((resolve_with http_post pressure t).0.loaded ≡ t.loaded)
      ⊎ ((key : String) × (m : String) × (key ≡ pick_loser pressure (holders t.loaded m))
          × ((resolve_with http_post pressure t).0.loaded
              ≡ (mark_unloaded (counted http_post pressure t v) key m).0.loaded))
  unfolding resolve_with
  loser-resolve_with =
      elim (unload_loop-cases http_post pressure t.pod_ip (ripe_list http_post pressure t v)
        (counted http_post pressure t v)) [
          | inl (same, none_sent) ↦ inl (ap (λ x. x.loaded) same)
          | inr u ↦ inr (
            u.key,
            u.ripe.model,
            attempt-loser http_post _ pressure t.pod_ip u.ripe u.key u.ip u.chosen
                ∙ ap (pick_loser pressure)
                    (sym (ripe-holders http_post pressure t v u.ripe u.member).0),
            ap (λ x. x.loaded) u.after
                ∙ loaded-settle (counted http_post pressure t v) u.key u.ripe.model,
          )
        ]

  removed-IsLeast :
      (q k : String)
      → holds t.loaded q k ≡ true
      → holds (resolve_with http_post pressure t).0.loaded q k ≡ false
      → IsLeast pressure (holders t.loaded k) q
  removed-IsLeast q k h gone = elim loser-resolve_with [
    | inl same ↦ absurd (ground (arith, h, ap (λ x. holds x q k) same, gone))
    | inr (key, m, is, after) ↦
        let left : holds (mark_unloaded (counted http_post pressure t v) key m).0.loaded q k
            ≡ false =
          ap (λ x. holds x q k) (sym after) ∙ gone in
        let other : (key ≢ q) ⊎ (m ≢ k) → ⊥ = λ o. ground (
          arith,
          h,
          left,
          holds-mark_unloaded_other (counted http_post pressure t v) key m q k o,
        ) in
        elim (Bool-cases (key == q)) [
          | inr e ↦ absurd (other (inl (ground (arith, eq_iff key q, e))))
          | inl e ↦ elim (Bool-cases (m == k)) [
            | inr f ↦ absurd (other (inr (ground (arith, eq_iff m k, f))))
            | inl f ↦
                let is_loser : pick_loser pressure (holders t.loaded k) ≡ q =
                  ap (λ x. pick_loser pressure (holders t.loaded x)) (sym ((eq_iff m k).0 f))
                  ∙ sym is
                  ∙ (eq_iff key q).0 e in
                subst (IsLeast pressure (holders t.loaded k)) is_loser (
                  pick_loser-IsLeast pressure (holders t.loaded k)
                    (λ nil. subst (In q) nil (holders-In t.loaded q k h)))
          ]
        ]
  ]

due_pass :
    (http_post : String → String → Reply Bool) (pressure : String → ℕ) (t : Tracker)
    → t.options.pressure ≡ some pressure
    → t.first_poll ≡ true
    → resolve_duplicates http_post t ≡ resolve_with http_post pressure t
unfolding resolve_duplicates
due_pass http_post pressure t on started = rw (on, started, resolve_duplicates)

early_pass :
    (http_post : String → String → Reply Bool) (pressure : String → ℕ) (t : Tracker)
    → t.options.pressure ≡ some pressure
    → t.first_poll ≡ false
    → resolve_duplicates http_post t ≡ (t, [])
unfolding resolve_duplicates
early_pass http_post pressure t on fresh = rw (on, fresh, resolve_duplicates)

-- The pod that a dedup pass takes a model from has the least pressure of the pods that have it, the first
-- in the alphabet among equals.
pub removed-resolve_duplicates :
    (http_post : String → String → Reply Bool) (pressure : String → ℕ) (t : Tracker) (q k : String)
    → IsValid t
    → t.options.pressure ≡ some pressure
    → holds t.loaded q k ≡ true
    → holds (resolve_duplicates http_post t).0.loaded q k ≡ false
    → IsLeast pressure (holders t.loaded k) q
removed-resolve_duplicates http_post pressure t q k v on h gone = elim (Bool-cases t.first_poll) [
  | inl started ↦
      removed-IsLeast http_post pressure t v q k h
        (ap (λ x. holds x.0.loaded q k) (sym (due_pass http_post pressure t on started)) ∙ gone)
  | inr fresh ↦ absurd (
      ground
        (arith, h, ap (λ x. holds x.0.loaded q k) (early_pass http_post pressure t on fresh), gone))
]
