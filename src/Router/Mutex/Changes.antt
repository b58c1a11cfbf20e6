-- ===== src/Router/Mutex/Changes.antt =====
-- The four changes that a step makes to the loading states and the leases, and that each keeps the
-- invariant (internal/router/router.go: GetModelEndpoint, tryAcquireLease, releaseLease).
use text.Mathlib.TextLemmas.{append_cancel_left}
use rocm_llamacpp_envoy_ai_g.Prelude.{
  ℕ, String, ◌≡◌, sym, ◌∙◌, ap, ◌⊎◌, inl, inr, false, Option, none, some, arith, ◌==◌, eq_iff,
  Bool-cases, nat_eq, if◌then◌else◌,
}
use rocm_llamacpp_envoy_ai_g.GoMap
use rocm_llamacpp_envoy_ai_g.GoMap.{GoMap}
use rocm_llamacpp_envoy_ai_g.Router.Lease.{lease_name}
use rocm_llamacpp_envoy_ai_g.Router.Steps.{set_at}
use rocm_llamacpp_envoy_ai_g.Router.Mutex.{Inv}

pub lease_name_inj : (m k : String) → lease_name m ≡ lease_name k → m ≡ k
lease_name_inj m k e = append_cancel_left "extproc-model-load-" m k e

-- Two threads that hold the same lease are one, where replicas have distinct names.
pub same_holder :
    (ns nm : ℕ → String) (states : ℕ → GoMap ℕ) (lease : String → String → Option (Option String))
    (owns : ℕ → Option (ℕ × String × ℕ)) (locks : ℕ → Option (ℕ × String))
    → Inv ns nm states lease owns locks
    → ((a b : ℕ) → nm a ≡ nm b → a ≡ b)
    → (i j a b : ℕ) (m k : String) → locks i ≡ some (a, m)
    → locks j ≡ some (b, k)
    → ns a ≡ ns b
    → lease_name m ≡ lease_name k
    → j ≡ i
same_holder ns nm states lease owns locks v distinct i j a b m k held e en em =
    let names = v.lease_held i a m held in
    let e_m = lease_name_inj m k em in
    let e_a =
      distinct a b
        (ground (arith, names, v.lease_held j b k e, ap lease en, ap (lease (ns a)) em, en, em)) in
    let (c, o) = v.lock_owned i a m held in
    let (d, p) = v.lock_owned j b k e in v.one_owner j i a m d c (ground (arith, p, e_a, e_m)) o

module _ (ns nm : ℕ → String) (states : ℕ → GoMap ℕ)
    (lease lease' : String → String → Option (Option String))
    (owns owns' : ℕ → Option (ℕ × String × ℕ)) (locks locks' : ℕ → Option (ℕ × String)) (i : ℕ)
    (v : Inv ns nm states lease owns locks) where
  -- No lease is lost, and thread `i` holds at most a lease that it may hold.
  pub grow-Inv :
      (l : Option (ℕ × String))
      → ((j : ℕ) → owns' j ≡ owns j)
      → ((j : ℕ) → locks' j ≡ (if nat_eq j i then l else locks j))
      → ((n k : String) (x : Option String) → lease n k ≡ some x → lease' n k ≡ some x)
      → ((a : ℕ) (m : String)
          → l ≡ some (a, m)
          → ((c : ℕ) × (owns i ≡ some (a, m, c)))
            × (lease' (ns a) (lease_name m) ≡ some (some (nm a))))
      → Inv ns nm states lease' owns' locks'
  grow-Inv l os ls grow held = record {
    registered = λ j a m c e. v.registered j a m c (sym (os j) ∙ e);
    one_owner = λ j k a m c d e f. v.one_owner j k a m c d (sym (os j) ∙ e) (sym (os k) ∙ f);
    lock_owned = λ j a m e. elim (Bool-cases (nat_eq j i)) [
      | inl q ↦
          let ((c, o), h) = held a m (ground (arith, q, e, ls j)) in
          (c, os j ∙ ap owns (ground (arith, q)) ∙ o)
      | inr q ↦ let (c, o) = v.lock_owned j a m (ground (arith, q, e, ls j)) in (c, os j ∙ o)
    ];
    lease_held = λ j a m e. elim (Bool-cases (nat_eq j i)) [
      | inl q ↦ (held a m (ground (arith, q, e, ls j))).1
      | inr q ↦ grow _ _ _ (v.lease_held j a m (ground (arith, q, e, ls j)))
    ];
  }

  -- Thread `i` registers a loading state where its replica has none for the model.
  module _ (a : ℕ) (m : String) (c : ℕ) (free : GoMap.get (states a) m ≡ none)
      (os : (j : ℕ) → owns' j ≡ (if nat_eq j i then some (a, m, c) else owns j)) where
    old_owner :
        (j b : ℕ) (k : String) (d : ℕ)
        → owns' j ≡ some (b, k, d)
        → nat_eq j i ≡ false
        → owns j ≡ some (b, k, d)
    old_owner j b k d e q = ground (arith, os j, e, q)

    new_alone : (j d : ℕ) → owns j ≡ some (a, m, d) → ⊥
    new_alone j d e = ground (arith, free, v.registered j a m d e)

    register_one :
        (j k b : ℕ) (n : String) (d e : ℕ)
        → owns' j ≡ some (b, n, d)
        → owns' k ≡ some (b, n, e)
        → j ≡ k
    register_one j k b n d e p q = elim (Bool-cases (nat_eq j i)) [
      | inl x ↦ elim (Bool-cases (nat_eq k i)) [
        | inl y ↦ ground (arith, x, y)
        | inr y ↦ absurd (new_alone k e (old_owner k b n e q y ∙ ground (arith, os j, p, x)))
      ]
      | inr x ↦ elim (Bool-cases (nat_eq k i)) [
        | inl y ↦ absurd (new_alone j d (old_owner j b n d p x ∙ ground (arith, os k, q, y)))
        | inr y ↦ v.one_owner j k b n d e (old_owner j b n d p x) (old_owner k b n e q y)
      ]
    ]

    old_state :
        (b d : ℕ) (k : String)
        → GoMap.get (states b) k ≡ some d
        → GoMap.get (set_at states a (GoMap.put (states a) m c) b) k ≡ some d
    old_state b d k e = elim (Bool-cases (nat_eq b a)) [
      | inl x ↦ elim (Bool-cases (m == k)) [
        | inl y ↦ absurd (ground (arith, free, e, x, y, eq_iff m k))
        | inr y ↦ ground (arith, GoMap.get-put (states a) m k c, x, y, e)
      ]
      | inr x ↦ ground (arith, x, e)
    ]

    new_state : GoMap.get (set_at states a (GoMap.put (states a) m c) a) m ≡ some c
    new_state = ground (arith, GoMap.get-put (states a) m m c, eq_iff m m)

    pub register-Inv :
        ((j : ℕ) → locks' j ≡ (if nat_eq j i then none else locks j))
        → Inv ns nm (set_at states a (GoMap.put (states a) m c)) lease owns' locks'
    register-Inv ls = record {
      registered = λ j b k d e. elim (Bool-cases (nat_eq j i)) [
        | inl x ↦ ground (arith, new_state, os j, e, x)
        | inr x ↦ old_state b d k (v.registered j b k d (old_owner j b k d e x))
      ];
      one_owner = register_one;
      lock_owned = λ j b k e. elim (Bool-cases (nat_eq j i)) [
        | inl x ↦ absurd (ground (arith, ls j, e, x))
        | inr x ↦
            let (d, o) = v.lock_owned j b k (ground (arith, ls j, e, x)) in
            (d, ground (arith, os j, x, o))
      ];
      lease_held = λ j b k e. elim (Bool-cases (nat_eq j i)) [
        | inl x ↦ absurd (ground (arith, ls j, e, x))
        | inr x ↦ v.lease_held j b k (ground (arith, ls j, e, x))
      ];
    }

  -- Thread `i` gives up the lease of its model.
  module _ (distinct : (a b : ℕ) → nm a ≡ nm b → a ≡ b) (a : ℕ) (m : String)
      (held : locks i ≡ some (a, m))
      (ls : (j : ℕ) → locks' j ≡ (if nat_eq j i then none else locks j)) where
    other_lease :
        (j b : ℕ) (k : String)
        → locks j ≡ some (b, k)
        → nat_eq j i ≡ false
        → ((ns a == ns b) ≡ false) ⊎ ((lease_name m == lease_name k) ≡ false)
    other_lease j b k e x = elim (Bool-cases (ns a == ns b)) [
      | inl y ↦ elim (Bool-cases (lease_name m == lease_name k)) [
        | inl z ↦
            let same =
              same_holder ns nm states lease owns locks v distinct i j a b m k held e
                (ground (arith, y, eq_iff (ns a) (ns b)))
                (ground (arith, z, eq_iff (lease_name m) (lease_name k))) in
            absurd (ground (arith, same, x))
        | inr z ↦ inr z
      ]
      | inr y ↦ inl y
    ]

    pub release-Inv :
        ((j : ℕ) → owns' j ≡ owns j)
        → ((n k : String)
            → ((ns a == n) ≡ false) ⊎ ((lease_name m == k) ≡ false)
            → lease' n k ≡ lease n k)
        → Inv ns nm states lease' owns' locks'
    release-Inv os rest = record {
      registered = λ j b k c e. v.registered j b k c (sym (os j) ∙ e);
      one_owner = λ j l b k c d e f. v.one_owner j l b k c d (sym (os j) ∙ e) (sym (os l) ∙ f);
      lock_owned = λ j b k e. elim (Bool-cases (nat_eq j i)) [
        | inl x ↦ absurd (ground (arith, ls j, e, x))
        | inr x ↦ let (d, o) = v.lock_owned j b k (ground (arith, ls j, e, x)) in (d, os j ∙ o)
      ];
      lease_held = λ j b k e. elim (Bool-cases (nat_eq j i)) [
        | inl x ↦ absurd (ground (arith, ls j, e, x))
        | inr x ↦
            let old : locks j ≡ some (b, k) = ground (arith, ls j, e, x) in
            rest (ns b) (lease_name k) (other_lease j b k old x) ∙ v.lease_held j b k old
      ];
    }

  -- Thread `i`, which has no lease, drops its loading state.
  module _ (a : ℕ) (m : String) (c : ℕ) (mine : owns i ≡ some (a, m, c)) (unlocked : locks i ≡ none)
      (os : (j : ℕ) → owns' j ≡ (if nat_eq j i then none else owns j)) where
    still_owned :
        (j b : ℕ) (k : String) (d : ℕ)
        → owns' j ≡ some (b, k, d)
        → (nat_eq j i ≡ false) × (owns j ≡ some (b, k, d))
    still_owned j b k d e = elim (Bool-cases (nat_eq j i)) [
      | inl x ↦ absurd (ground (arith, os j, e, x))
      | inr x ↦ (x, ground (arith, os j, e, x))
    ]

    kept_state :
        (j b : ℕ) (k : String) (d : ℕ)
        → nat_eq j i ≡ false
        → owns j ≡ some (b, k, d)
        → GoMap.get (set_at states a (GoMap.delete (states a) m) b) k ≡ some d
    kept_state j b k d x o = elim (Bool-cases (nat_eq b a)) [
      | inl y ↦ elim (Bool-cases (m == k)) [
        | inl z ↦
            let p : owns j ≡ some (a, m, d) = ground (arith, o, y, z, eq_iff m k) in
            absurd (ground (arith, v.one_owner j i a m d c p mine, x))
        | inr z ↦ ground (arith, GoMap.get-delete (states a) m k, y, z, v.registered j b k d o)
      ]
      | inr y ↦ ground (arith, y, v.registered j b k d o)
    ]

    pub clean-Inv :
        ((j : ℕ) → locks' j ≡ locks j)
        → Inv ns nm (set_at states a (GoMap.delete (states a) m)) lease owns' locks'
    clean-Inv ls = record {
      registered = λ j b k d e. let (x, o) = still_owned j b k d e in kept_state j b k d x o;
      one_owner = λ j l b k d e p q.
          v.one_owner j l b k d e (still_owned j b k d p).1 (still_owned l b k e q).1;
      lock_owned = λ j b k e.
          let (d, o) = v.lock_owned j b k (sym (ls j) ∙ e) in
          elim (Bool-cases (nat_eq j i)) [
            | inl x ↦ absurd (ground (arith, x, unlocked, sym (ls j) ∙ e))
            | inr x ↦ (d, ground (arith, os j, x, o))
          ];
      lease_held = λ j b k e. v.lease_held j b k (sym (ls j) ∙ e);
    }
