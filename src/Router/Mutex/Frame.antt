-- ===== src/Router/Mutex/Frame.antt =====
-- What a step of internal/router/router.go keeps when it changes no loading state, and the parts that the
-- invariant is put together from.
use rocm_llamacpp_envoy_ai_g.Prelude.{
  ℕ, String, ◌≡◌, refl, sym, ◌∙◌, ap, inl, inr, Bool, true, false, Option, some, arith, Bool-cases,
  nat_eq, if◌then◌else◌,
}
use rocm_llamacpp_envoy_ai_g.GoMap
use rocm_llamacpp_envoy_ai_g.GoMap.{GoMap}
use rocm_llamacpp_envoy_ai_g.Router.Types.{Router}
use rocm_llamacpp_envoy_ai_g.Router.Lease.{LeaseApi, lease_name}
use rocm_llamacpp_envoy_ai_g.Router.Steps.{Pc, set_at, World}
use rocm_llamacpp_envoy_ai_g.Router.System.{Site, start_router, Thread, System, after}
use rocm_llamacpp_envoy_ai_g.Router.Mutex.{owned_at, locked_at, own, lock, owned, locked, Inv}
use rocm_llamacpp_envoy_ai_g.Router.Mutex.Changes.{grow-Inv}
use rocm_llamacpp_envoy_ai_g.Router.Mutex.Kept.{Kept}

-- The name under which a replica takes leases.
abbrev pub holder_name : Site → String
holder_name site = (start_router site).replica_name

-- The router still has the client, the namespace and the name that its replica was started with.
abbrev pub IsOf : Site → Router → Type 0
IsOf site r =
    (r.has_client ≡ true) × (r.namespace ≡ site.namespace) × (r.replica_name ≡ holder_name site)

pub Kept-IsOf : (site : Site) (r q : Router) → Kept r q → IsOf site q → IsOf site r
Kept-IsOf site r q (a, b, c, d) (x, y, z) = (a ∙ x, b ∙ y, c ∙ z)

pub owned-set_at :
    (f : ℕ → Option Thread) (i : ℕ) (x : Option Thread) (j : ℕ)
    → owned (set_at f i x j) ≡ (if nat_eq j i then owned x else owned (f j))
owned-set_at f i x j = elim (Bool-cases (nat_eq j i)) [ inl e ↦ rw e refl | inr e ↦ rw e refl ]

pub locked-set_at :
    (f : ℕ → Option Thread) (i : ℕ) (x : Option Thread) (j : ℕ)
    → locked (set_at f i x j) ≡ (if nat_eq j i then locked x else locked (f j))
locked-set_at f i x j = elim (Bool-cases (nat_eq j i)) [ inl e ↦ rw e refl | inr e ↦ rw e refl ]

pub same_at :
    {A B : Type 0} (g : A → B) (f : ℕ → A) (i : ℕ) (x : A)
    → g x ≡ g (f i)
    → (j : ℕ) → g (set_at f i x j) ≡ g (f j)
same_at g f i x e j = elim (Bool-cases (nat_eq j i)) [
  | inl q ↦ rw q (e ∙ ap (λ n. g (f n)) (ground (arith, q)))
  | inr q ↦ rw q refl
]

lock-some :
    (a b : ℕ) (m k : String) (l : Bool) → lock a m l ≡ some (b, k) → (l ≡ true) × (a ≡ b) × (m ≡ k)
lock-some a b m k true e = (refl, ground (arith, e), ground (arith, e))
lock-some a b m k false e = absurd (ground (arith, e))

-- The invariant does not depend on how the loading states are given.
pub states-Inv :
    (ns nm : ℕ → String) (states states' : ℕ → GoMap ℕ)
    (lease : String → String → Option (Option String)) (owns : ℕ → Option (ℕ × String × ℕ))
    (locks : ℕ → Option (ℕ × String))
    → ((a : ℕ) → states' a ≡ states a)
    → Inv ns nm states lease owns locks
    → Inv ns nm states' lease owns locks
states-Inv ns nm states states' lease owns locks e v = record {
  registered = λ i a m c o. ap (λ t. GoMap.get t m) (e a) ∙ v.registered i a m c o;
  one_owner = v.one_owner;
  lock_owned = v.lock_owned;
  lease_held = v.lease_held;
}

pub threads-Inv :
    (ns nm : ℕ → String) (states : ℕ → GoMap ℕ) (lease : String → String → Option (Option String))
    (owns owns' : ℕ → Option (ℕ × String × ℕ)) (locks locks' : ℕ → Option (ℕ × String))
    → ((i : ℕ) → owns' i ≡ owns i)
    → ((i : ℕ) → locks' i ≡ locks i)
    → Inv ns nm states lease owns locks
    → Inv ns nm states lease owns' locks'
threads-Inv ns nm states lease owns owns' locks locks' os ls v = record {
  registered = λ i a m c o. v.registered i a m c (sym (os i) ∙ o);
  one_owner = λ i j a m c d o p. v.one_owner i j a m c d (sym (os i) ∙ o) (sym (os j) ∙ p);
  lock_owned = λ i a m l. let (c, o) = v.lock_owned i a m (sym (ls i) ∙ l) in (c, os i ∙ o);
  lease_held = λ i a m l. v.lease_held i a m (sym (ls i) ∙ l);
}

module _ (api : LeaseApi) (sites : ℕ → Site) where
  open api use {
    Store, lease_of, create, get, delete, create-effect, create-created, create-other, get-got,
    delete-other,
  }

  abbrev pub ns : ℕ → String
  ns a = (sites a).namespace

  abbrev pub nm : ℕ → String
  nm a = holder_name (sites a)

  -- Each router is of its site, and the loading states, the leases and the threads agree.
  pub record SystemInv (s : System api) : Type 0 where
    pub sited : (a : ℕ) → IsOf (sites a) (s.routers a)
    pub agreed :
        Inv ns nm
          (λ a. (s.routers a).loading_models)
          (lease_of s.store)
          (λ i. owned (s.threads i))
          (λ i. locked (s.threads i))

  module _ (s : System api) (i a : ℕ) (m : String) (v : SystemInv s) where
    -- The thread `i` is at `pc`, in a call for the model `m` on the replica `a`.
    abbrev pub At : Pc → Type 0
    At pc = s.threads i ≡ some (record { replica = a; model = m; pc = pc })

    abbrev pub states : ℕ → GoMap ℕ
    states b = (s.routers b).loading_models

    abbrev pub owns : ℕ → Option (ℕ × String × ℕ)
    owns j = owned (s.threads j)

    abbrev pub locks : ℕ → Option (ℕ × String)
    locks j = locked (s.threads j)

    abbrev pub thread_at : Pc → Option Thread
    thread_at pc = some (record { replica = a; model = m; pc = pc })

    pub sited-set_at :
        (r : Router) → IsOf (sites a) r → (b : ℕ) → IsOf (sites b) (set_at s.routers a r b)
    sited-set_at r h b = elim (Bool-cases (nat_eq b a)) [
      | inl q ↦ let same : b ≡ a = ground (arith, q) in rw q (rw same h)
      | inr q ↦ rw q (v.sited b)
    ]

    pub after-Inv :
        (w : World api) (pc : Pc)
        → IsOf (sites a) w.router
        → Inv ns nm
            (set_at states a w.router.loading_models)
            (lease_of w.store)
            (λ j. owned (set_at s.threads i (thread_at pc) j))
            (λ j. locked (set_at s.threads i (thread_at pc) j))
        → SystemInv (after api s i a m (w, pc))
    after-Inv w pc h k = record {
      sited = sited-set_at w.router h;
      agreed =
          states-Inv ns nm (set_at states a w.router.loading_models) _ _ _ _
            (λ b. elim (Bool-cases (nat_eq b a)) [ inl q ↦ rw q refl | inr q ↦ rw q refl ]) k;
    }

    -- A step that changes no loading state and loses no lease.
    pub grow-step :
        (pc : Pc) (w : World api) (pc' : Pc)
        → At pc
        → Kept w.router (s.routers a)
        → owned_at pc' ≡ owned_at pc
        → ((n k : String) (x : Option String)
            → lease_of s.store n k ≡ some x
            → lease_of w.store n k ≡ some x)
        → (locked_at pc' ≡ true
            → ((c : ℕ) × (owned_at pc ≡ some c))
              × (lease_of w.store (ns a) (lease_name m) ≡ some (some (nm a))))
        → SystemInv (after api s i a m (w, pc'))
    grow-step pc w pc' at kept e grow held =
        after-Inv w pc' (Kept-IsOf (sites a) w.router (s.routers a) kept (v.sited a)) (
          states-Inv ns nm states _ _ _ _
            (λ b. same_at (λ t. t) states a w.router.loading_models kept.3 b)
            (grow-Inv ns nm states (lease_of s.store) (lease_of w.store) owns _ locks _ i v.agreed
              (lock a m (locked_at pc'))
              (same_at owned s.threads i (thread_at pc') (ap (own a m) e ∙ sym (ap owned at)))
              (locked-set_at s.threads i (thread_at pc')) grow
              (λ b k q.
                let (l, x, y) = lock-some a b m k (locked_at pc') q in
                let ((c, o), h) = held l in
                ((c, ap owned at ∙ ground (arith, o, x, y)), ground (arith, h, x, y)))))
