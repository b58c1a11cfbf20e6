-- ===== src/ModelTracker/Dedup/Loser.antt =====
-- pickLoser: the pod of the least pressure, ties broken by the name.
use rocm_llamacpp_envoy_ai_g.Prelude.{
  ℕ, ◌<◌, String, ◌≡◌, refl, ◌≢◌, ◌↔◌, ◌⊎◌, inl, inr, false, List, [], ◌∷◌, arith, ltb, str_ltb, In,
  All, Bool-cases, StrLe, StrLe-refl, StrLe-trans, StrLe-antisymm, str_lt_asymm, subst,
}
use rocm_llamacpp_envoy_ai_g.ModelTracker.Dedup.{
  insert_string, sort_strings, pick_from, pick_sorted, pick_loser,
}

-- Ascending: every text is at most each later one.
abbrev Ascending : List String → Type 0
Ascending [] = Unit
Ascending (s ∷ ss) = All (StrLe s) ss × Ascending ss

All-le : (s t : String) (ss : List String) → StrLe s t → All (StrLe t) ss → All (StrLe s) ss
All-le s t [] h a = tt
All-le s t (u ∷ ss) h a = (StrLe-trans s t u h a.0, All-le s t ss h a.1)

All-insert_string :
    (P : String → Type 0) (s : String) (ts : List String)
    → P s
    → All P ts
    → All P (insert_string s ts)
unfolding insert_string
All-insert_string P s [] p a = (p, tt)
All-insert_string P s (t ∷ ts) p a = elim (Bool-cases (str_ltb t s)) [
  | inl e ↦ rw e (a.0, All-insert_string P s ts p a.1)
  | inr e ↦ rw e (p, a)
]

insert_string-Ascending :
    (s : String) (ts : List String) → Ascending ts → Ascending (insert_string s ts)
unfolding insert_string
insert_string-Ascending s [] a = (tt, tt)
insert_string-Ascending s (t ∷ ts) a = elim (Bool-cases (str_ltb t s)) [
  | inl e ↦
      rw e (
        All-insert_string (StrLe t) s ts (str_lt_asymm t s e) a.0,
        insert_string-Ascending s ts a.1,
      )
  | inr e ↦ rw e ((e, All-le s t ts e a.0), a)
]

sort_strings-Ascending : (ss : List String) → Ascending (sort_strings ss)
unfolding sort_strings
sort_strings-Ascending [] = tt
sort_strings-Ascending (s ∷ ss) =
    insert_string-Ascending s (sort_strings ss) (sort_strings-Ascending ss)

In-swap : (x s t : String) (ts : List String) → In x (s ∷ t ∷ ts) → In x (t ∷ s ∷ ts)
In-swap x s t ts (inl h) = inr (inl h)
In-swap x s t ts (inr (inl h)) = inl h
In-swap x s t ts (inr (inr h)) = inr (inr h)

-- A map of the tails.
In-under :
    (x t : String) (ss ts : List String) → (In x ss → In x ts) → In x (t ∷ ss) → In x (t ∷ ts)
In-under x t ss ts f (inl h) = inl h
In-under x t ss ts f (inr h) = inr (f h)

In-insert_string : (x s : String) (ts : List String) → In x (insert_string s ts) → In x (s ∷ ts)
unfolding insert_string
In-insert_string x s [] m = m
In-insert_string x s (t ∷ ts) m = elim (Bool-cases (str_ltb t s)) [
  | inl e ↦ In-swap x t s ts (In-under x t _ (s ∷ ts) (In-insert_string x s ts) (rw e at m))
  | inr e ↦ rw e at m
]

insert_string-In : (x s : String) (ts : List String) → In x (s ∷ ts) → In x (insert_string s ts)
unfolding insert_string
insert_string-In x s [] m = m
insert_string-In x s (t ∷ ts) m = elim (Bool-cases (str_ltb t s)) [
  | inl e ↦ rw e (In-under x t (s ∷ ts) _ (insert_string-In x s ts) (In-swap x s t ts m))
  | inr e ↦ rw e m
]

In-sort_strings : (x : String) (ss : List String) → In x (sort_strings ss) ↔ In x ss
unfolding sort_strings
In-sort_strings x [] = (λ m. m, λ m. m)
In-sort_strings x (s ∷ ss) = (
  λ m. In-under x s _ ss (In-sort_strings x ss).0 (In-insert_string x s (sort_strings ss) m),
  λ m. insert_string-In x s (sort_strings ss) (In-under x s ss _ (In-sort_strings x ss).1 m),
)

sort_strings-ne-nil : (ss : List String) → ss ≢ [] → sort_strings ss ≢ []
sort_strings-ne-nil [] h e = h refl
sort_strings-ne-nil (s ∷ ss) h e = subst (In s) e ((In-sort_strings s (s ∷ ss)).1 (inl refl))

cons_ne_nil : {s : String} {ss : List String} → (s ∷ ss) ≢ []
cons_ne_nil h = cc

-- The order of the choice: by pressure, then by name.
abbrev pub LessLoaded : (String → ℕ) → String → String → Type 0
LessLoaded pressure a b = (pressure a < pressure b) ⊎ ((pressure a ≡ pressure b) × StrLe a b)

LessLoaded-trans :
    (pressure : String → ℕ) (a b c : String)
    → LessLoaded pressure a b
    → LessLoaded pressure b c
    → LessLoaded pressure a c
LessLoaded-trans pressure a b c (inl h) (inl k) = inl (omega arith)
LessLoaded-trans pressure a b c (inl h) (inr k) = inl (omega (arith, k.0))
LessLoaded-trans pressure a b c (inr h) (inl k) = inl (omega (arith, h.0))
LessLoaded-trans pressure a b c (inr h) (inr k) =
    inr (omega (arith, h.0, k.0), StrLe-trans a b c h.1 k.1)

-- One of the pods, and before each of them in the order of the choice.
pub record IsLeast (pressure : String → ℕ) (pods : List String) (loser : String) : Type 0 where
  pub member : In loser pods
  pub least : (pk : String) → In pk pods → LessLoaded pressure loser pk

module _ (pressure : String → ℕ) where
  LessLoaded-refl : (a : String) → LessLoaded pressure a a
  LessLoaded-refl a = inr (refl, StrLe-refl a)

  -- `w` is the winner of `l` and `x`.
  least_of_both :
      (l x w r : String) (rest : List String)
      → LessLoaded pressure w l
      → LessLoaded pressure w x
      → IsLeast pressure (w ∷ rest) r
      → (pk : String) → In pk (l ∷ x ∷ rest)
      → LessLoaded pressure r pk
  least_of_both l x w r rest hl hx v pk (inl e) =
      rw e (LessLoaded-trans pressure r w l (v.least w (inl refl)) hl)
  least_of_both l x w r rest hl hx v pk (inr (inl e)) =
      rw e (LessLoaded-trans pressure r w x (v.least w (inl refl)) hx)
  least_of_both l x w r rest hl hx v pk (inr (inr m)) = v.least pk (inr m)

  skip_second : (l x r : String) (rest : List String) → In r (l ∷ rest) → In r (l ∷ x ∷ rest)
  skip_second l x r rest (inl e) = inl e
  skip_second l x r rest (inr m) = inr (inr m)

  pick_from-IsLeast :
      (l : String) (rest : List String)
      → All (StrLe l) rest
      → Ascending rest
      → IsLeast pressure (l ∷ rest) (pick_from pressure l rest)
  unfolding pick_from
  pick_from-IsLeast l [] a s = record {
    member = inl refl;
    least = λ pk m. elim m [ inl e ↦ rw e (LessLoaded-refl l) | inr none_left ↦ absurd none_left ];
  }
  pick_from-IsLeast l (x ∷ rest) a s = elim (Bool-cases (ltb (pressure x) (pressure l))) [
    | inl e ↦ rw e (
        let v = pick_from-IsLeast x rest s.0 s.1 in
        record {
          member = inr v.member;
          least = least_of_both l x x _ rest (inl (ground arith)) (LessLoaded-refl x) v;
        })
    | inr e ↦ rw e (
        let v = pick_from-IsLeast l rest a.1 s.1 in
        record {
          member = skip_second l x _ rest v.member;
          least = least_of_both l x l _ rest (LessLoaded-refl l) (tie_or_less e) v;
        })
  ]
    where
      tie_or_less : ltb (pressure x) (pressure l) ≡ false → LessLoaded pressure l x
      tie_or_less e = elim (Bool-cases (ltb (pressure l) (pressure x))) [
        | inl lt ↦ inl (ground arith)
        | inr ge ↦ inr (ground arith, a.0)
      ]

  pick_sorted-IsLeast :
      (pods : List String)
      → Ascending pods
      → pods ≢ []
      → IsLeast pressure pods (pick_sorted pressure pods)
  pick_sorted-IsLeast [] s h = absurd (h refl)
  pick_sorted-IsLeast (pk ∷ rest) s h = pick_from-IsLeast pk rest s.0 s.1

  -- pickLoser returns one of the pods that hold the model, of the least pressure, and among those of
  -- that pressure the first by name, if any pod holds the model.
  pub pick_loser-IsLeast :
      (pods : List String) → pods ≢ [] → IsLeast pressure pods (pick_loser pressure pods)
  unfolding pick_loser
  pick_loser-IsLeast pods h = record {
    member = (In-sort_strings _ pods).0 v.member;
    least = λ pk m. v.least pk ((In-sort_strings pk pods).1 m);
  }
    where
      v : IsLeast pressure (sort_strings pods) (pick_sorted pressure (sort_strings pods))
      v =
          pick_sorted-IsLeast (sort_strings pods) (sort_strings-Ascending pods)
            (sort_strings-ne-nil pods h)

  IsLeast-unique :
      (pods : List String) (a b : String)
      → IsLeast pressure pods a
      → IsLeast pressure pods b
      → a ≡ b
  IsLeast-unique pods a b v w = both (v.least b w.member) (w.least a v.member)
    where
      both : LessLoaded pressure a b → LessLoaded pressure b a → a ≡ b
      both (inl h) (inl k) = absurd (omega arith)
      both (inl h) (inr k) = absurd (omega (arith, k.0))
      both (inr h) (inl k) = absurd (omega (arith, h.0))
      both (inr h) (inr k) = StrLe-antisymm a b h.1 k.1

  IsLeast-same :
      (pods pods' : List String) (l : String)
      → ((pk : String) → In pk pods ↔ In pk pods')
      → IsLeast pressure pods' l
      → IsLeast pressure pods l
  IsLeast-same pods pods' l same v = record {
    member = (same l).1 v.member;
    least = λ pk m. v.least pk ((same pk).0 m);
  }

  -- The choice of pickLoser depends on which pods hold the model, and not on the order in which the
  -- map of the pods was walked.
  pub pick_loser-order :
      (pods pods' : List String)
      → ((pk : String) → In pk pods ↔ In pk pods')
      → pick_loser pressure pods ≡ pick_loser pressure pods'
  pick_loser-order [] [] same = refl
  pick_loser-order [] (pk ∷ rest) same = absurd ((same pk).1 (inl refl))
  pick_loser-order (pk ∷ rest) [] same = absurd ((same pk).0 (inl refl))
  pick_loser-order (pk ∷ rest) (pk' ∷ rest') same =
      IsLeast-unique (pk ∷ rest) _ _ (pick_loser-IsLeast (pk ∷ rest) cons_ne_nil) (
        IsLeast-same (pk ∷ rest) (pk' ∷ rest') _ same
          (pick_loser-IsLeast (pk' ∷ rest') cons_ne_nil))
