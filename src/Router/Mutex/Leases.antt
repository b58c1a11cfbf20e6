-- ===== src/Router/Mutex/Leases.antt =====
-- The steps of internal/router/router.go that take and give up a lease keep the invariant of the loading
-- states and the leases.
use rocm_llamacpp_envoy_ai_g.Prelude.{
  ℕ, String, ◌≡◌, refl, sym, ◌∙◌, ap, inl, inr, Bool, true, false, not, Option, none, some, arith,
  ◌==◌, eq_iff, Bool-cases, if◌then◌else◌,
}
use rocm_llamacpp_envoy_ai_g.Router.Types.{
  Result, err, create_lease, lease_acquisition_failed, get_lease,
}
use rocm_llamacpp_envoy_ai_g.Router.Lease.{
  LeaseApi, Created, created, already_exists, create_failed, Got, got, get_failed, lease_name,
}
use rocm_llamacpp_envoy_ai_g.Router.Steps.{
  creating, getting, loading, sending, releasing, cleaning, after_create, after_get, create_step,
  get_step, release_step,
}
use rocm_llamacpp_envoy_ai_g.Router.System.{Site, System, world_at}
use rocm_llamacpp_envoy_ai_g.Router.Mutex.{owned, locked}
use rocm_llamacpp_envoy_ai_g.Router.Mutex.Changes.{release-Inv}
use rocm_llamacpp_envoy_ai_g.Router.Mutex.Frame.{
  IsOf, locked-set_at, same_at, states-Inv, ns, nm, SystemInv, after-Inv, grow-step,
}
use rocm_llamacpp_envoy_ai_g.Router.Mutex.Quiet.{Is, Keeps, quiet-step, same_router}

module _ (api : LeaseApi) (sites : ℕ → Site) (s : System api) (i a : ℕ) (m : String)
    (v : SystemInv api sites s) where
  open api use {
    Store, lease_of, create, get, delete, create-effect, create-created, create-other, get-got,
    delete-other,
  }

  -- The replica's namespace and name, as its router has them.
  IsOf-site : IsOf (sites a) (s.routers a)
  IsOf-site = v.sited a

  created-Inv :
      (c : ℕ) (store : Store) (outcome : Created)
      → Is api sites s i a m v (creating c)
      → ((n k : String) (x : Option String)
          → lease_of s.store n k ≡ some x
          → lease_of store n k ≡ some x)
      → (outcome ≡ created
          → lease_of store (ns api sites a) (lease_name m) ≡ some (some (nm api sites a)))
      → Keeps api sites s i a m v
          (record (world_at api s a) { store = store }, after_create c outcome)
  created-Inv c store created at grow h =
      grow-step api sites s i a m v (creating c) (record (world_at api s a) { store = store })
        (loading c) at (same_router api sites s i a m v) refl grow (λ q. ((c, refl), h refl))
  created-Inv c store already_exists at grow h =
      grow-step api sites s i a m v (creating c) (record (world_at api s a) { store = store })
        (getting c) at (same_router api sites s i a m v) refl grow (λ q. absurd (ground (arith, q)))
  created-Inv c store create_failed at grow h =
      grow-step api sites s i a m v (creating c) (record (world_at api s a) { store = store })
        (sending c false (err create_lease)) at (same_router api sites s i a m v) refl grow
        (λ q. absurd (ground (arith, q)))

  -- A Create loses no lease.
  create-grows :
      (holder n k : String) (x : Option String)
      → lease_of s.store n k ≡ some x
      → lease_of (create s.store (ns api sites a) (lease_name m) holder).0 n k ≡ some x
  create-grows holder n k x e = elim (Bool-cases (ns api sites a == n)) [
    | inl p ↦ elim (Bool-cases (lease_name m == k)) [
      | inl q ↦
          let en : ns api sites a ≡ n = ground (arith, p, eq_iff (ns api sites a) n) in
          let ek : lease_name m ≡ k = ground (arith, q, eq_iff (lease_name m) k) in
          elim (create-effect s.store (ns api sites a) (lease_name m) holder) [
            | inl same ↦ ground (arith, same, en, ek, e)
            | inr (free, new) ↦ absurd (ground (arith, free, en, ek, e))
          ]
      | inr q ↦ create-other s.store (ns api sites a) (lease_name m) holder n k (inr q) ∙ e
    ]
    | inr p ↦ create-other s.store (ns api sites a) (lease_name m) holder n k (inl p) ∙ e
  ]

  creating-site :
      (c : ℕ) (h : Bool) (n r : String)
      → h ≡ true
      → n ≡ ns api sites a
      → r ≡ nm api sites a
      → Is api sites s i a m v (creating c)
      → Keeps api sites s i a m v (
          if not h then (world_at api s a, loading c) else (
            record (world_at api s a) { store = (create s.store n (lease_name m) r).0 },
            after_create c (create s.store n (lease_name m) r).1,
          ))
  creating-site c h n r eh en er at =
      rw (eh, en, er)
        (created-Inv c _ _ at (create-grows (nm api sites a))
          (λ q. (create-created s.store (ns api sites a) (lease_name m) (nm api sites a) q).1))

  pub creating-Inv :
      (c : ℕ)
      → Is api sites s i a m v (creating c)
      → Keeps api sites s i a m v (create_step api (world_at api s a) m c)
  creating-Inv c at = creating-site c _ _ _ IsOf-site.0 IsOf-site.1 IsOf-site.2 at

  got-Inv :
      (c : ℕ) (answer : Got)
      → get s.store (ns api sites a) (lease_name m) ≡ answer
      → Is api sites s i a m v (getting c)
      → Keeps api sites s i a m v (world_at api s a, after_get c (nm api sites a) answer)
  got-Inv c get_failed e at =
      quiet-step api sites s i a m v (getting c) (world_at api s a)
        (sending c false (err get_lease)) at (same_router api sites s i a m v) refl refl
        (λ q. absurd (ground (arith, q)))
  got-Inv c (got none) e at =
      quiet-step api sites s i a m v (getting c) (world_at api s a)
        (sending c false (err lease_acquisition_failed)) at (same_router api sites s i a m v) refl
        refl (λ q. absurd (ground (arith, q)))
  got-Inv c (got (some holder)) e at = elim (Bool-cases (holder == nm api sites a)) [
    | inl x ↦
        let is : holder ≡ nm api sites a = ground (arith, x, eq_iff holder (nm api sites a)) in
        rw x (
          grow-step api sites s i a m v (getting c) (world_at api s a) (loading c) at
            (same_router api sites s i a m v) refl (λ n k y q. q)
            (λ q. (
              (c, refl),
              get-got s.store (ns api sites a) (lease_name m) (some holder) e
                  ∙ ap (λ h. some (some h)) is,
            )))
    | inr x ↦ rw x (
        quiet-step api sites s i a m v (getting c) (world_at api s a)
          (sending c false (err lease_acquisition_failed)) at (same_router api sites s i a m v) refl
          refl (λ q. absurd (ground (arith, q))))
  ]

  getting-site :
      (c : ℕ) (n r : String)
      → n ≡ ns api sites a
      → r ≡ nm api sites a
      → Is api sites s i a m v (getting c)
      → Keeps api sites s i a m v (world_at api s a, after_get c r (get s.store n (lease_name m)))
  getting-site c n r en er at = rw (en, er) (got-Inv c _ refl at)

  pub getting-Inv :
      (c : ℕ)
      → Is api sites s i a m v (getting c)
      → Keeps api sites s i a m v (get_step api (world_at api s a) m c)
  getting-Inv c at = getting-site c _ _ IsOf-site.1 IsOf-site.2 at

  module _ (distinct : (b d : ℕ) → nm api sites b ≡ nm api sites d → b ≡ d) where
    delete-Inv :
        (c : ℕ) (r : Result String)
        → Is api sites s i a m v (releasing c r)
        → Keeps api sites s i a m v (
          record (world_at api s a) { store = (delete s.store (ns api sites a) (lease_name m)).0 },
          cleaning c r,
        )
    delete-Inv c r at =
        after-Inv api sites s i a m v
          (record (world_at api s a) { store = (delete s.store (ns api sites a) (lease_name m)).0 })
          (cleaning c r) (v.sited a)
          (states-Inv (ns api sites) (nm api sites) (λ b. (s.routers b).loading_models) _ _ _ _
            (λ b.
              same_at (λ t. t) (λ b. (s.routers b).loading_models) a (s.routers a).loading_models
                refl b)
            (release-Inv (ns api sites) (nm api sites) (λ b. (s.routers b).loading_models)
              (lease_of s.store) _ (λ j. owned (s.threads j)) _ (λ j. locked (s.threads j)) _ i
              v.agreed distinct a m (ap locked at) (locked-set_at s.threads i _)
              (same_at owned s.threads i _ (sym (ap owned at)))
              (λ n k q. delete-other s.store (ns api sites a) (lease_name m) n k q)))

    releasing-site :
        (c : ℕ) (r : Result String) (h : Bool) (n : String)
        → h ≡ true
        → n ≡ ns api sites a
        → Is api sites s i a m v (releasing c r)
        → Keeps api sites s i a m v (
            if not h then (world_at api s a, cleaning c r) else (
              record (world_at api s a) { store = (delete s.store n (lease_name m)).0 },
              cleaning c r,
            ))
    releasing-site c r h n eh en at = rw (eh, en) (delete-Inv c r at)

    pub releasing-Inv :
        (c : ℕ) (r : Result String)
        → Is api sites s i a m v (releasing c r)
        → Keeps api sites s i a m v (release_step api (world_at api s a) m c r)
    releasing-Inv c r at = releasing-site c r _ _ IsOf-site.0 IsOf-site.1 at
