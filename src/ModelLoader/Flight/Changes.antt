-- ===== src/ModelLoader/Flight/Changes.antt =====
-- The three changes that a step makes to the bookkeeping of loads, and that each keeps the invariant
-- (internal/plugins/modelloader/loader.go: loadModel).
use rocm_llamacpp_envoy_ai_g.Prelude.{
  ℕ, suc, ◌<◌, String, ◌≡◌, sym, ◌∙◌, inl, inr, true, false, Option, none, some, arith, ◌==◌,
  eq_iff, Bool-cases, nat_eq, if◌then◌else◌,
}
use rocm_llamacpp_envoy_ai_g.GoMap
use rocm_llamacpp_envoy_ai_g.GoMap.{GoMap}
use rocm_llamacpp_envoy_ai_g.ModelLoader.Types.{Status, pending, closed, Error}
use rocm_llamacpp_envoy_ai_g.ModelLoader.Steps.{set_at}
use rocm_llamacpp_envoy_ai_g.ModelLoader.Flight.{Inv}

module _ (loads : GoMap ℕ) (status : ℕ → Status) (next : ℕ) (holds holds' : ℕ → Option (String × ℕ))
    (waits waits' : ℕ → Option ℕ) (i : ℕ) (v : Inv loads status next holds waits) where
  -- A step that changes at most what thread `i` waits for.
  pub wait-Inv :
      (w : Option ℕ)
      → ((j : ℕ) → holds' j ≡ holds j)
      → ((j : ℕ) → waits' j ≡ (if nat_eq j i then w else waits j))
      → ((r : ℕ) → w ≡ some r → r < next)
      → Inv loads status next holds' waits'
  wait-Inv w hs ws known = record {
    loads_known = v.loads_known;
    holder_registered = λ j k r e. v.holder_registered j k r (sym (hs j) ∙ e);
    holder_open = λ j k r e. v.holder_open j k r (sym (hs j) ∙ e);
    one_holder = λ j l k m r e f. v.one_holder j l k m r (sym (hs j) ∙ e) (sym (hs l) ∙ f);
    load_held = λ k r e. let (j, h) = v.load_held k r e in (j, hs j ∙ h);
    open_held = λ r b e. let (j, k, h) = v.open_held r b e in (j, k, hs j ∙ h);
    waits_known = λ j r e. elim (Bool-cases (nat_eq j i)) [
      | inl q ↦ known r (ground (arith, q, e, ws j))
      | inr q ↦ v.waits_known j r (ground (arith, q, e, ws j))
    ];
  }

  held_known : (j : ℕ) (k : String) (r : ℕ) → holds j ≡ some (k, r) → r < next
  held_known j k r e = v.loads_known k r (v.holder_registered j k r e)

  -- The thread `i`, which held no load, registers one under a key that has none.
  module _ (k : String) (free : GoMap.get loads k ≡ none) (idle : holds i ≡ none)
      (hs : (j : ℕ) → holds' j ≡ (if nat_eq j i then some (k, next) else holds j)) where
    new_unique :
        (j l : ℕ) (m m' : String) (r : ℕ) → holds' j ≡ some (m, r) → holds' l ≡ some (m', r) → j ≡ l
    new_unique j l m m' r e f = elim (Bool-cases (nat_eq j i)) [
      | inl q ↦ elim (Bool-cases (nat_eq l i)) [
        | inl q' ↦ ground (arith, q, q')
        | inr q' ↦ absurd (ground (arith, hs j, hs l, e, f, q, q', held_known l m' r))
      ]
      | inr q ↦ elim (Bool-cases (nat_eq l i)) [
        | inl q' ↦ absurd (ground (arith, hs j, hs l, e, f, q, q', held_known j m r))
        | inr q' ↦
            v.one_holder j l m m' r (ground (arith, hs j, e, q)) (ground (arith, hs l, f, q'))
      ]
    ]

    new-held : (j : ℕ) (m : String) (r : ℕ) → holds j ≡ some (m, r) → holds' j ≡ some (m, r)
    new-held j m r e = elim (Bool-cases (nat_eq j i)) [
      | inl q ↦ absurd (ground (arith, q, e, idle))
      | inr q ↦ ground (arith, hs j, q, e)
    ]

    new-own : holds' i ≡ some (k, next)
    new-own = ground (arith, hs i)

    pub register-Inv :
        ((j : ℕ) → waits' j ≡ (if nat_eq j i then none else waits j))
        → Inv (GoMap.put loads k next) (set_at status next pending) (suc next) holds' waits'
    register-Inv ws = record {
      loads_known = λ l r e. ground (arith, GoMap.get-put loads k l next, e, v.loads_known l r);
      holder_registered = λ j l r e. elim (Bool-cases (nat_eq j i)) [
        | inl q ↦ ground (arith, GoMap.get-put loads k l next, eq_iff k l, hs j, e, q)
        | inr q ↦ ground (
          arith,
          GoMap.get-put loads k l next,
          eq_iff k l,
          hs j,
          e,
          q,
          v.holder_registered j l r,
          free,
        )
      ];
      holder_open = λ j l r e. elim (Bool-cases (nat_eq j i)) [
        | inl q ↦ ground (arith, hs j, e, q)
        | inr q ↦ ground (arith, hs j, e, q, v.holder_open j l r)
      ];
      one_holder = new_unique;
      load_held = λ l r e. elim (Bool-cases (k == l)) [
        | inl q ↦ (i, ground (arith, GoMap.get-put loads k l next, e, q, eq_iff k l, new-own))
        | inr q ↦
            let (j, h) = v.load_held l r (ground (arith, GoMap.get-put loads k l next, e, q)) in
            (j, new-held j l r h)
      ];
      open_held = λ r b e. elim (Bool-cases (nat_eq r next)) [
        | inl q ↦ (i, k, ground (arith, new-own, q))
        | inr q ↦
            let (j, l, h) = v.open_held r (ground (arith, b, q)) (ground (arith, e, q)) in
            (j, l, new-held j l r h)
      ];
      waits_known = λ j r e. ground (arith, ws j, e, v.waits_known j r);
    }

  -- The thread `i` publishes the result of its load and takes it off the map.
  module _ (k : String) (r0 : ℕ) (own : holds i ≡ some (k, r0)) (e0 : Option Error)
      (hs : (j : ℕ) → holds' j ≡ (if nat_eq j i then none else holds j)) where
    other :
        (j : ℕ) (m : String) (r : ℕ)
        → holds' j ≡ some (m, r)
        → (holds j ≡ some (m, r)) × (nat_eq j i ≡ false)
    other j m r e = elim (Bool-cases (nat_eq j i)) [
      | inl q ↦ absurd (ground (arith, hs j, e, q))
      | inr q ↦ (ground (arith, hs j, e, q), q)
    ]

    still :
        (j : ℕ) (m : String) (r : ℕ)
        → holds j ≡ some (m, r)
        → nat_eq r r0 ≡ false
        → holds' j ≡ some (m, r)
    still j m r e ne = elim (Bool-cases (nat_eq j i)) [
      | inl q ↦ absurd (ground (arith, q, e, own, ne))
      | inr q ↦ ground (arith, hs j, q, e)
    ]

    apart :
        (j : ℕ) (m : String) (r : ℕ)
        → holds j ≡ some (m, r)
        → nat_eq j i ≡ false
        → nat_eq r r0 ≡ false
    apart j m r e ne = elim (Bool-cases (nat_eq r r0)) [
      | inl q ↦ absurd (ground (arith, v.one_holder j i m k r e, own, q, ne))
      | inr q ↦ q
    ]

    same_key : (j : ℕ) (r : ℕ) → holds j ≡ some (k, r) → nat_eq r r0 ≡ true
    same_key j r e = ground (arith, v.holder_registered j k r e, v.holder_registered i k r0 own)

    pub publish-Inv :
        ((j : ℕ) → waits' j ≡ (if nat_eq j i then none else waits j))
        → Inv (GoMap.delete loads k) (set_at status r0 (closed e0)) next holds' waits'
    publish-Inv ws = record {
      loads_known = λ l r e. ground (arith, GoMap.get-delete loads k l, e, v.loads_known l r);
      holder_registered = λ j l r e.
          let (h, ne) = other j l r e in
          elim (Bool-cases (k == l)) [
            | inl q ↦
                absurd (ground (arith, apart j l r h ne, same_key j r (rw ((eq_iff k l).0 q) h)))
            | inr q ↦ ground (arith, GoMap.get-delete loads k l, q, v.holder_registered j l r h)
          ];
      holder_open = λ j l r e.
          let (h, ne) = other j l r e in ground (arith, apart j l r h ne, v.holder_open j l r h);
      one_holder = λ j l m m' r e f. v.one_holder j l m m' r (other j m r e).0 (other l m' r f).0;
      load_held = λ l r e. elim (Bool-cases (k == l)) [
        | inl q ↦ absurd (ground (arith, GoMap.get-delete loads k l, e, q))
        | inr q ↦
            let (j, h) = v.load_held l r (ground (arith, GoMap.get-delete loads k l, e, q)) in
            (
              j,
              elim (Bool-cases (nat_eq r r0)) [
                | inl p ↦
                    absurd (ground (arith, v.one_holder j i l k r h, h, own, p, q, eq_iff k l))
                | inr p ↦ still j l r h p
              ],
            )
      ];
      open_held = λ r b e. elim (Bool-cases (nat_eq r r0)) [
        | inl q ↦ absurd (ground (arith, e, q))
        | inr q ↦ let (j, l, h) = v.open_held r b (ground (arith, e, q)) in (j, l, still j l r h q)
      ];
      waits_known = λ j r e. ground (arith, ws j, e, v.waits_known j r);
    }
