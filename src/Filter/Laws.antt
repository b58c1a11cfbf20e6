-- ===== src/Filter/Laws.antt =====
-- What Filter returns and what it leaves in the pod state cache (internal/plugins/filter/loaded_model.go).
use mathlib.Core.List.{append_assoc, append-nil}
use rocm_llamacpp_envoy_ai_g.Prelude.{
  ℕ, ◌+◌, String, ◌≡◌, refl, sym, ◌∙◌, ap, ◌≢◌, ◌↔◌, ◌⊎◌, inl, inr, Bool, true, false, not, ◌&&◌,
  Option, none, some, List, [], ◌∷◌, ◌++◌, arith, ◌==◌, eq_iff, In, Bool-cases, Option-cases,
  if◌then◌else◌,
}
use rocm_llamacpp_envoy_ai_g.PodState.{Cache, update, pressure, pressure-update}
use rocm_llamacpp_envoy_ai_g.ModelTracker.Types.{Tracker}
use rocm_llamacpp_envoy_ai_g.ModelTracker.State.{is_loaded}
use rocm_llamacpp_envoy_ai_g.Filter.{
  Metrics, Pod, LoadedModelFilter, feed_metrics, visit, visit_all, or_all, filter,
}

abbrev address_loaded : Tracker → String → Option String → Bool
address_loaded t model none = false
address_loaded t model (some key) = is_loaded t key model

abbrev load : {F : Type 0} → Option (Metrics F) → Option ℕ
load none = none
load (some m) = some (m.running_requests_size + m.waiting_queue_size)

abbrev load_at : {F : Type 0} → Option String → Option (Metrics F) → String → Option ℕ
load_at none metrics k = none
load_at (some key) metrics k = if key == k && not (k == "") then load metrics else none

abbrev latest : Option ℕ → Option ℕ → Option ℕ
latest none n = n
latest (some m) n = some m

abbrev pub or_pressure : Option ℕ → ℕ → ℕ
or_pressure none n = n
or_pressure (some m) n = m

some-pick : {A : Type 0} (b : Bool) (x y : A) → (z : A) × ((if b then some x else some y) ≡ some z)
some-pick true x y = (x, refl)
some-pick false x y = (y, refl)

module _ {F : Type 0} where
  -- The pod has endpoint information, and the tracker has the model on its address.
  abbrev pub keeps : Tracker → String → Pod F → Bool
  keeps t model pod = address_loaded t model pod.address

  -- The load of the last pod of the list that has the address `k` and metrics.
  unfoldable pub reported : String → List (Pod F) → Option ℕ
  reported k [] = none
  reported k (pod ∷ pods) = latest (reported k pods) (load_at pod.address pod.metrics k)

  visit-fst :
      (t : Tracker) (model : String) (now : ℕ) (pod : Pod F) (a : Option String)
      (acc : List (Pod F) × Option (Cache F))
      → (visit t model now pod a acc).0
        ≡ (if address_loaded t model a then acc.0 ++ pod ∷ [] else acc.0)
  unfolding visit
  visit-fst t model now pod none acc = refl
  visit-fst t model now pod (some key) (warm, cache) = refl

  -- The kept pods, in the order of the list.
  pub kept : Tracker → String → List (Pod F) → List (Pod F)
  kept t model [] = []
  kept t model (pod ∷ pods) =
      let rest = kept t model pods in if keeps t model pod then pod ∷ rest else rest

  visit_all-fst :
      (t : Tracker) (model : String) (now : ℕ) (pods : List (Pod F))
      (acc : List (Pod F) × Option (Cache F))
      → (visit_all t model now pods acc).0 ≡ acc.0 ++ kept t model pods
  unfolding visit_all kept
  visit_all-fst t model now [] acc = sym (append-nil acc.0)
  visit_all-fst t model now (pod ∷ pods) acc =
      visit_all-fst t model now pods (visit t model now pod pod.address acc)
      ∙ ap (λ l. l ++ kept t model pods) (visit-fst t model now pod pod.address acc)
      ∙ elim (Bool-cases (keeps t model pod)) [
        | inl e ↦ rw e (append_assoc acc.0 (pod ∷ []) (kept t model pods))
        | inr e ↦ rw e refl
      ]

  In-kept :
      (t : Tracker) (model : String) (p : Pod F) (pods : List (Pod F))
      → In p (kept t model pods) ↔ (In p pods × (keeps t model p ≡ true))
  unfolding kept
  In-kept t model p [] = (λ m. absurd m, λ m. m.0)
  In-kept t model p (pod ∷ pods) = elim (Bool-cases (keeps t model pod)) [
    | inl e ↦ rw e (
      λ m. elim m [
        | inl q ↦ (inl q, rw q e)
        | inr i ↦ let (j, k) = (In-kept t model p pods).0 i in (inr j, k)
      ],
      λ m. elim m.0 [ inl q ↦ inl q | inr i ↦ inr ((In-kept t model p pods).1 (i, m.1)) ],
    )
    | inr e ↦ rw e (
      λ m. let (j, k) = (In-kept t model p pods).0 m in (inr j, k),
      λ m. elim m.0 [
        | inl q ↦ absurd (ground (arith, e, m.1, ap (keeps t model) q))
        | inr i ↦ (In-kept t model p pods).1 (i, m.1)
      ],
    )
  ]

  abbrev or_list : List (Pod F) → List (Pod F) → List (Pod F)
  or_list pods [] = pods
  or_list pods (p ∷ l) = p ∷ l

  or_all-fst :
      (pods : List (Pod F)) (acc : List (Pod F) × Option (Cache F))
      → (or_all pods acc).0 ≡ or_list pods acc.0
  or_all-fst pods ([], c) = refl
  or_all-fst pods (p ∷ l, c) = refl

  or_all-snd :
      (pods : List (Pod F)) (acc : List (Pod F) × Option (Cache F)) → (or_all pods acc).1 ≡ acc.1
  or_all-snd pods ([], c) = refl
  or_all-snd pods (p ∷ l, c) = refl

  filter-visit :
      (f : LoadedModelFilter F) (t : Tracker) (model : String) (pods : List (Pod F)) (now : ℕ)
      → f.tracker ≡ some t
      → model ≢ ""
      → filter f (some model) pods now ≡ or_all pods (visit_all t model now pods ([], f.pod_state))
  unfolding filter
  filter-visit f t model pods now e ne = elim (Bool-cases (model == "")) [
    | inl q ↦ absurd (ne ((eq_iff model "").0 q))
    | inr q ↦ rw (q, e) refl
  ]

  filter-kept :
      (f : LoadedModelFilter F) (t : Tracker) (model : String) (pods : List (Pod F)) (now : ℕ)
      → f.tracker ≡ some t
      → model ≢ ""
      → (filter f (some model) pods now).0 ≡ or_list pods (kept t model pods)
  filter-kept f t model pods now e ne =
      ap (λ x. x.0) (filter-visit f t model pods now e ne)
      ∙ or_all-fst pods (visit_all t model now pods ([], f.pod_state))
      ∙ ap (or_list pods) (visit_all-fst t model now pods ([], f.pod_state))

  In-or_list :
      (p : Pod F) (pods l : List (Pod F))
      → In p (or_list pods l) ↔ (In p l ⊎ ((l ≡ []) × In p pods))
  In-or_list p pods [] = (λ m. inr (refl, m), λ m. elim m [ inl i ↦ absurd i | inr i ↦ i.1 ])
  In-or_list p pods (q ∷ l) =
      (λ m. inl m, λ m. elim m [ inl i ↦ i | inr i ↦ absurd (ground (arith, i.0)) ])

  -- No pod of the list has the model loaded.
  abbrev pub NoneWarm : Tracker → String → List (Pod F) → Type 0
  NoneWarm t model pods = (q : Pod F) → In q pods → keeps t model q ≡ false

  nothing-In : (l : List (Pod F)) → ((q : Pod F) → ¬ In q l) → l ≡ []
  nothing-In [] h = refl
  nothing-In (p ∷ l) h = absurd (h p (inl refl))

  kept-NoneWarm :
      (t : Tracker) (model : String) (pods : List (Pod F))
      → (kept t model pods ≡ []) ↔ NoneWarm t model pods
  kept-NoneWarm t model pods = (
    λ e. λ q i. elim (Bool-cases (keeps t model q)) [
      | inl k ↦ absurd (rw e at ((In-kept t model q pods).1 (i, k)))
      | inr k ↦ k
    ],
    λ n.
        nothing-In (kept t model pods)
          (λ q i. let (j, k) = (In-kept t model q pods).0 i in ground (arith, k, n q j)),
  )

  -- With a tracker and a model: Filter returns a pod exactly if it is one of the pods given, and the
  -- tracker has the model loaded on its address or has it loaded on none of the pods given.
  pub In-filter :
      (f : LoadedModelFilter F) (t : Tracker) (model : String) (pods : List (Pod F)) (now : ℕ)
      → f.tracker ≡ some t
      → model ≢ ""
      → (p : Pod F)
      → In p (filter f (some model) pods now).0
        ↔ (In p pods × ((keeps t model p ≡ true) ⊎ NoneWarm t model pods))
  In-filter f t model pods now e ne p = rw (filter-kept f t model pods now e ne) (
    λ m. elim ((In-or_list p pods (kept t model pods)).0 m) [
      | inl i ↦ let (j, k) = (In-kept t model p pods).0 i in (j, inl k)
      | inr (q, i) ↦ (i, inr ((kept-NoneWarm t model pods).0 q))
    ],
    λ m. (In-or_list p pods (kept t model pods)).1 (elim m.1 [
      | inl k ↦ inl ((In-kept t model p pods).1 (m.0, k))
      | inr n ↦ inr ((kept-NoneWarm t model pods).1 n, m.0)
    ]),
  )

  feed-pressure :
      (c : Cache F) (key : String) (m : Option (Metrics F)) (now : ℕ) (k : String)
      → pressure (feed_metrics (some c) key m now) k
        ≡ or_pressure (load_at (some key) m k) (pressure (some c) k)
  unfolding pressure
  feed-pressure c key none now k = ground arith
  feed-pressure c key (some m) now k =
      pressure-update c _ now k ∙ ground (arith, eq_iff key k, eq_iff key "", eq_iff k "")

  feed-some :
      (c : Cache F) (key : String) (m : Option (Metrics F)) (now : ℕ)
      → (c' : Cache F) × (feed_metrics (some c) key m now ≡ some c')
  unfolding update
  feed-some c key none now = (c, refl)
  feed-some c key (some m) now = some-pick (key == "") c _

  visit-pressure :
      (t : Tracker) (model : String) (now : ℕ) (pod : Pod F) (a : Option String)
      (warm : List (Pod F)) (c : Cache F)
      → (c' : Cache F) × ((visit t model now pod a (warm, some c)).1 ≡ some c')
        × ((k : String)
            → pressure (some c') k ≡ or_pressure (load_at a pod.metrics k) (pressure (some c) k))
  unfolding visit
  visit-pressure t model now pod none warm c = (c, refl, λ k. refl)
  visit-pressure t model now pod (some key) warm c =
      let (c', e) = feed-some c key pod.metrics now in
      (c', e, λ k. ap (λ x. pressure x k) (sym e) ∙ feed-pressure c key pod.metrics now k)

  visit_all-pressure :
      (t : Tracker) (model : String) (now : ℕ) (pods : List (Pod F))
      (acc : List (Pod F) × Option (Cache F)) (c : Cache F) (k : String)
      → acc.1 ≡ some c
      → pressure (visit_all t model now pods acc).1 k
        ≡ or_pressure (reported k pods) (pressure (some c) k)
  unfolding visit_all reported
  visit_all-pressure t model now [] acc c k e = ap (λ x. pressure x k) e
  visit_all-pressure t model now (pod ∷ pods) (warm, cache) c k e =
      let (c', kept_some, same) = visit-pressure t model now pod pod.address warm c in
      visit_all-pressure t model now pods _ c' k
        (ap (λ x. (visit t model now pod pod.address (warm, x)).1) e ∙ kept_some)
      ∙ ap (or_pressure (reported k pods)) (same k)
      ∙ elim (Option-cases (reported k pods)) [ inl q ↦ rw q refl | inr (n, q) ↦ rw q refl ]

  -- With a tracker, a model and a cache: after Filter the pressure of a key is the load of the last
  -- pod given that has the key as its address and has metrics, and what it was if there is none.
  pub pressure-filter :
      (f : LoadedModelFilter F) (t : Tracker) (c : Cache F) (model : String) (pods : List (Pod F))
      (now : ℕ) (k : String)
      → f.tracker ≡ some t
      → f.pod_state ≡ some c
      → model ≢ ""
      → pressure (filter f (some model) pods now).1 k
        ≡ or_pressure (reported k pods) (pressure (some c) k)
  pressure-filter f t c model pods now k e ec ne =
      ap (λ x. pressure x.1 k) (filter-visit f t model pods now e ne)
      ∙ ap (λ x. pressure x k) (or_all-snd pods (visit_all t model now pods ([], f.pod_state)))
      ∙ visit_all-pressure t model now pods ([], f.pod_state) c k ec
