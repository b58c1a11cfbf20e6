-- ===== src/Filter/Present.antt =====
-- A cache that is there is there after Filter (internal/plugins/filter/loaded_model.go: Filter).
use rocm_llamacpp_envoy_ai_g.Prelude.{
  ℕ, String, ◌≡◌, refl, inl, inr, Bool, true, false, Option, none, some, List, [], ◌∷◌, ◌==◌,
  Bool-cases, if◌then◌else◌,
}
use rocm_llamacpp_envoy_ai_g.PodState.{Cache, update}
use rocm_llamacpp_envoy_ai_g.ModelTracker.Types.{Tracker}
use rocm_llamacpp_envoy_ai_g.Filter.{
  Metrics, Pod, LoadedModelFilter, feed_metrics, visit, visit_all, or_all, filter_with, filter,
}

module _ {F : Type 0} where
  abbrev pub IsPresent : Option (Cache F) → Type 0
  IsPresent none = ⊥
  IsPresent (some c) = Unit {0}

  pub present : (o : Option (Cache F)) → IsPresent o → (c : Cache F) × (o ≡ some c)
  present none h = absurd h
  present (some c) h = (c, refl)

  if-IsPresent :
      (b : Bool) (x y : Option (Cache F))
      → IsPresent x
      → IsPresent y
      → IsPresent (if b then x else y)
  if-IsPresent true x y h k = h
  if-IsPresent false x y h k = k

  feed-IsPresent :
      (o : Option (Cache F)) (key : String) (m : Option (Metrics F)) (now : ℕ)
      → IsPresent o
      → IsPresent (feed_metrics o key m now)
  unfolding update
  feed-IsPresent none key m now h = absurd h
  feed-IsPresent (some c) key none now h = h
  feed-IsPresent (some c) key (some m) now h = if-IsPresent (key == "") (some c) _ tt tt

  visit-IsPresent :
      (t : Tracker) (model : String) (now : ℕ) (pod : Pod F) (a : Option String)
      (acc : List (Pod F) × Option (Cache F))
      → IsPresent acc.1
      → IsPresent (visit t model now pod a acc).1
  unfolding visit
  visit-IsPresent t model now pod none acc h = h
  visit-IsPresent t model now pod (some key) (warm, o) h = feed-IsPresent o key pod.metrics now h

  visit_all-IsPresent :
      (t : Tracker) (model : String) (now : ℕ) (pods : List (Pod F))
      (acc : List (Pod F) × Option (Cache F))
      → IsPresent acc.1
      → IsPresent (visit_all t model now pods acc).1
  unfolding visit_all
  visit_all-IsPresent t model now [] acc h = h
  visit_all-IsPresent t model now (pod ∷ pods) acc h =
      visit_all-IsPresent t model now pods (visit t model now pod pod.address acc)
        (visit-IsPresent t model now pod pod.address acc h)

  or_all-IsPresent :
      (pods : List (Pod F)) (acc : List (Pod F) × Option (Cache F))
      → IsPresent acc.1
      → IsPresent (or_all pods acc).1
  or_all-IsPresent pods ([], o) h = h
  or_all-IsPresent pods (p ∷ l, o) h = h

  with-IsPresent :
      (f : LoadedModelFilter F) (o : Option Tracker) (model : String) (pods : List (Pod F))
      (now : ℕ)
      → IsPresent f.pod_state
      → IsPresent (filter_with f o model pods now).1
  with-IsPresent f none model pods now h = h
  with-IsPresent f (some t) model pods now h =
      or_all-IsPresent pods (visit_all t model now pods ([], f.pod_state))
        (visit_all-IsPresent t model now pods ([], f.pod_state) h)

  pub filter-IsPresent :
      (f : LoadedModelFilter F) (request : Option String) (pods : List (Pod F)) (now : ℕ)
      → IsPresent f.pod_state
      → IsPresent (filter f request pods now).1
  unfolding filter
  filter-IsPresent f none pods now h = h
  filter-IsPresent f (some model) pods now h = elim (Bool-cases (model == "")) [
    | inl e ↦ rw e h
    | inr e ↦ rw e (with-IsPresent f f.tracker model pods now h)
  ]
