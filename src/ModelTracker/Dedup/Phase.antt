-- ===== src/ModelTracker/Dedup/Phase.antt =====
-- Phase 1 of resolveDuplicates: what becomes of the counters, and which duplicates are ripe.
use rocm_llamacpp_envoy_ai_g.Prelude.{
  ℕ, ◌+◌, ◌≤◌, String, ◌≡◌, refl, ◌∙◌, ◌⊎◌, inl, inr, Bool, true, false, Option, none, some, List,
  [], ◌∷◌, ◌++◌, ◌==◌, ◌||◌, ◌&&◌, eq_iff, eq_refl, arith, In, Bool-cases, length, if◌then◌else◌,
  ltb, leb, str_ltb,
}
use rocm_llamacpp_envoy_ai_g.GoMap
use rocm_llamacpp_envoy_ai_g.GoMap.{GoMap, Distinct, get-put, get-delete}
use rocm_llamacpp_envoy_ai_g.ModelTracker.Types.{Tracker}
use rocm_llamacpp_envoy_ai_g.ModelTracker.Dedup.{
  Ripe, holders_of, resolved_models, delete_all, count_or_zero, observe, observe_all, phase_one,
  insert_ripe, sort_ripe,
}

mem : List String → String → Bool
mem [] m = false
mem (k ∷ ks) m = k == m || mem ks m

get-delete_all :
    (ms : List String) (obs : GoMap ℕ) (m : String)
    → GoMap.get (delete_all ms obs) m ≡ (if mem ms m then none else GoMap.get obs m)
unfolding delete_all mem
get-delete_all [] obs m = refl
get-delete_all (k ∷ ms) obs m =
    ground (arith, get-delete_all ms (GoMap.delete obs k) m, get-delete obs k m)

mem-resolved_models :
    (dup : GoMap (List String)) (obs : GoMap ℕ) (m : String)
    → mem (resolved_models dup obs) m ≡ (GoMap.has obs m && ltb (length (holders_of dup m)) 2)
unfolding resolved_models mem GoMap.get
mem-resolved_models dup [] m = refl
mem-resolved_models dup ((k, n) ∷ obs) m = ground (arith, mem-resolved_models dup obs m, eq_iff k m)

-- The counters of the models that fewer than two pods hold are dropped, and the others stay.
get-after_resolved :
    (dup : GoMap (List String)) (obs : GoMap ℕ) (m : String)
    → GoMap.get (delete_all (resolved_models dup obs) obs) m
      ≡ (if ltb (length (holders_of dup m)) 2 then none else GoMap.get obs m)
get-after_resolved dup obs m =
    ground (arith, get-delete_all (resolved_models dup obs) obs m, mem-resolved_models dup obs m)

observe-get :
    (grace : ℕ) (model : String) (holders : List String) (acc : GoMap ℕ × List Ripe) (m : String)
    → GoMap.get (observe grace model holders acc).0 m ≡ (
        if model == m
        then (if ltb (length holders) 2
            then GoMap.get acc.0 m
            else some (count_or_zero (GoMap.get acc.0 m) + 1))
        else GoMap.get acc.0 m)
unfolding observe
observe-get grace model holders acc m =
    ground
      (arith, eq_iff model m, get-put acc.0 model m (count_or_zero (GoMap.get acc.0 model) + 1))

get-observe_all :
    (grace : ℕ) (dup : GoMap (List String)) (acc : GoMap ℕ × List Ripe) (m : String)
    → Distinct dup
    → GoMap.get (observe_all grace dup acc).0 m ≡ (
        if ltb (length (holders_of dup m)) 2
        then GoMap.get acc.0 m
        else some (count_or_zero (GoMap.get acc.0 m) + 1))
unfolding observe_all GoMap.get
get-observe_all grace [] acc m d = refl
get-observe_all grace ((model, holders) ∷ dup) acc m d = ground (
  arith,
  get-observe_all grace dup (observe grace model holders acc) m d.1,
  observe-get grace model holders acc m,
  eq_iff model m,
)

abbrev counted : Bool → ℕ → Option ℕ
counted few n = if few then none else some (n + 1)

-- After phase 1 a model that two pods hold is counted once more, and no other model is counted.
pub get-phase_one :
    (t : Tracker) (dup : GoMap (List String)) (m : String)
    → Distinct dup
    → GoMap.get (phase_one t dup).0 m
      ≡ counted (ltb (length (holders_of dup m)) 2) (count_or_zero (GoMap.get t.dup_obs m))
unfolding phase_one
get-phase_one t dup m d = ground (
  arith,
  get-observe_all t.options.dedup_grace_polls dup
      (delete_all (resolved_models dup t.dup_obs) t.dup_obs, []) m d,
  get-after_resolved dup t.dup_obs m,
)

-- A ripe duplicate: its holders, at least two, and its counter, which has reached the grace.
pub record IsRipe (grace : ℕ) (dup : GoMap (List String)) (obs : GoMap ℕ) (r : Ripe) : Type 0 where
  pub listed : GoMap.get dup r.model ≡ some r.holders
  pub shared : 2 ≤ length r.holders
  pub mature : grace ≤ count_or_zero (GoMap.get obs r.model) + 1

In-append-last : {A : Type 0} (x y : A) (xs : List A) → In x (xs ++ y ∷ []) → In x xs ⊎ (x ≡ y)
In-append-last x y [] (inl e) = inr e
In-append-last x y [] (inr i) = absurd i
In-append-last x y (z ∷ xs) (inl e) = inl (inl e)
In-append-last x y (z ∷ xs) (inr i) = under_head (In-append-last x y xs i)
  where
    under_head : In x xs ⊎ (x ≡ y) → In x (z ∷ xs) ⊎ (x ≡ y)
    under_head (inl j) = inl (inr j)
    under_head (inr e) = inr e

observe-ripe :
    (grace : ℕ) (model : String) (holders : List String) (acc : GoMap ℕ × List Ripe) (r : Ripe)
    → In r (observe grace model holders acc).1
    → In r acc.1
      ⊎ ((r ≡ record { model = model; holders = holders })
          × (2 ≤ length holders)
          × (grace ≤ count_or_zero (GoMap.get acc.0 model) + 1))
unfolding observe
observe-ripe grace model holders (obs, ripe) r i = elim (Bool-cases (ltb (length holders) 2)) [
  | inl few ↦ inl (rw few at i)
  | inr many ↦ elim (Bool-cases (leb grace (count_or_zero (GoMap.get obs model) + 1))) [
    | inl old ↦ listed many old (rw (many, old) at i)
    | inr young ↦ inl (rw (many, young) at i)
  ]
]
  where
    listed :
        ltb (length holders) 2 ≡ false
        → leb grace (count_or_zero (GoMap.get obs model) + 1) ≡ true
        → In r (ripe ++ (record { model = model; holders = holders }) ∷ [])
        → In r ripe
          ⊎ ((r ≡ record { model = model; holders = holders })
              × (2 ≤ length holders)
              × (grace ≤ count_or_zero (GoMap.get obs model) + 1))
    listed many old i = elim (In-append-last r _ ripe i) [
      | inl earlier ↦ inl earlier
      | inr last ↦ inr (last, ground arith, ground arith)
    ]

get-skip :
    {V : Type 0} (k j : String) (v : V) (l : GoMap V)
    → (k == j) ≡ false
    → GoMap.get ((k, v) ∷ l) j ≡ GoMap.get l j
unfolding GoMap.get
get-skip k j v l h = rw h

get-here : {V : Type 0} (k : String) (v : V) (l : GoMap V) → GoMap.get ((k, v) ∷ l) k ≡ some v
unfolding GoMap.get
get-here k v l = rw eq_refl

IsRipe-observe :
    (grace : ℕ) (model : String) (holders : List String) (dup : GoMap (List String))
    (acc : GoMap ℕ × List Ripe) (r : Ripe)
    → GoMap.get dup model ≡ none
    → IsRipe grace dup (observe grace model holders acc).0 r
    → IsRipe grace ((model, holders) ∷ dup) acc.0 r
IsRipe-observe grace model holders dup acc r absent v = record {
  listed = get-skip model r.model holders dup other ∙ v.listed;
  shared = v.shared;
  mature = ground (arith, v.mature, observe-get grace model holders acc r.model, other);
}
  where
    other : (model == r.model) ≡ false
    other = ground (arith, eq_iff model r.model, absent, v.listed)

observe_all-IsRipe :
    (grace : ℕ) (dup : GoMap (List String)) (acc : GoMap ℕ × List Ripe) (r : Ripe)
    → Distinct dup
    → In r (observe_all grace dup acc).1
    → In r acc.1 ⊎ IsRipe grace dup acc.0 r
unfolding observe_all
observe_all-IsRipe grace [] acc r d i = inl i
observe_all-IsRipe grace ((model, holders) ∷ dup) acc r d i =
    elim (observe_all-IsRipe grace dup (observe grace model holders acc) r d.1 i) [
      | inr later ↦ inr (IsRipe-observe grace model holders dup acc r d.0 later)
      | inl now ↦ elim (observe-ripe grace model holders acc r now) [
        | inl before ↦ inl before
        | inr (e, many, old) ↦
            inr (rw e (record { listed = get-here model holders dup; shared = many; mature = old }))
      ]
    ]

In-insert_ripe : (x r : Ripe) (rs : List Ripe) → In x (insert_ripe r rs) → In x (r ∷ rs)
unfolding insert_ripe
In-insert_ripe x r [] i = i
In-insert_ripe x r (s ∷ rs) i = elim (Bool-cases (str_ltb s.model r.model)) [
  | inl e ↦ behind_with (In-insert_ripe x r rs) (rw e at i)
  | inr e ↦ rw e at i
]
  where
    under_head : In x (r ∷ rs) → In x (r ∷ s ∷ rs)
    under_head (inl h) = inl h
    under_head (inr h) = inr (inr h)

    behind_with :
        (In x (insert_ripe r rs) → In x (r ∷ rs)) → In x (s ∷ insert_ripe r rs) → In x (r ∷ s ∷ rs)
    behind_with f (inl h) = inr (inl h)
    behind_with f (inr h) = under_head (f h)

In-sort_ripe : (x : Ripe) (rs : List Ripe) → In x (sort_ripe rs) → In x rs
unfolding sort_ripe
In-sort_ripe x [] i = i
In-sort_ripe x (r ∷ rs) i = elim (In-insert_ripe x r (sort_ripe rs) i) [
  | inl h ↦ inl h
  | inr later ↦ inr (In-sort_ripe x rs later)
]

-- What phase 1 hands on is ripe, counted from the counters before the pass.
pub phase_one-IsRipe :
    (t : Tracker) (dup : GoMap (List String)) (r : Ripe)
    → Distinct dup
    → In r (sort_ripe (phase_one t dup).1)
    → IsRipe t.options.dedup_grace_polls dup t.dup_obs r
unfolding phase_one
phase_one-IsRipe t dup r d i = elim (observe_all-IsRipe _ dup _ r d (In-sort_ripe r _ i)) [
  | inl before ↦ absurd before
  | inr v ↦ record {
    listed = v.listed;
    shared = v.shared;
    mature = ground (arith, v.mature, v.listed, v.shared, get-after_resolved dup t.dup_obs r.model);
  }
]
