-- ===== src/Pool/Laws.antt =====
-- The default pool over time, and what an upsert configures (internal/pool/manager.go).
use rocm_llamacpp_envoy_ai_g.Prelude.{
  ℕ, String, ◌≡◌, refl, ◌∙◌, ◌⊎◌, inl, inr, true, false, Option, none, some, List, [], ◌∷◌, arith,
  eq_iff, eq_refl, nat_eq, Bool-cases, Option-cases, if◌then◌else◌,
}
use rocm_llamacpp_envoy_ai_g.GoMap.{GoMap}
use rocm_llamacpp_envoy_ai_g.Pool.{
  configured, reconfigured, PoolKey, same_key, PoolConfig, no_pool_available, Manager, new_manager,
  find, remove, or_new, upsert, upsert_pool, points_to, first_pool, delete, delete_pool, get_pool,
  get_default_pool, get_router, upserts, deletes, transition, Reaches, here, next,
}

same_key_refl : (k : PoolKey) → same_key k k ≡ true
same_key_refl k = ground (arith, eq_refl k.namespace, eq_refl k.name)

same_key_trans : (a b c : PoolKey) → same_key a b ≡ true → same_key a c ≡ same_key b c
same_key_trans a b c h = ground (arith, h, eq_iff a.namespace b.namespace, eq_iff a.name b.name)

find-same_key :
    (pools : List (PoolKey × ℕ)) (k l : PoolKey) → same_key k l ≡ true → find pools k ≡ find pools l
unfolding find
find-same_key [] k l h = refl
find-same_key ((j, r) ∷ pools) k l h =
    ground
      (arith, find-same_key pools k l h, h, eq_iff k.namespace l.namespace, eq_iff k.name l.name)

find-remove :
    (pools : List (PoolKey × ℕ)) (key k : PoolKey)
    → same_key k key ≡ false
    → find (remove pools key) k ≡ find pools k
unfolding find remove
find-remove [] key k h = refl
find-remove ((j, r) ∷ pools) key k h =
    ground (arith, find-remove pools key k h, h, same_key_trans j k key)

-- The default is one of the pools, if there are any.
DefaultOf : List (PoolKey × ℕ) → Option ℕ → Type 0
DefaultOf pools default_pool =
    ((default_pool ≡ none) × (pools ≡ []))
    ⊎ ((k : PoolKey) × (r : ℕ) × (default_pool ≡ some r) × (find pools k ≡ some r))

first-DefaultOf : (pools : List (PoolKey × ℕ)) → DefaultOf pools (first_pool pools)
unfolding DefaultOf find
first-DefaultOf [] = inl (refl, refl)
first-DefaultOf ((k, r) ∷ pools) = inr (k, r, refl, rw (same_key_refl k) refl)

new-DefaultOf :
    (pools : List (PoolKey × ℕ)) (default_pool : Option ℕ) (key : PoolKey) (r : ℕ)
    → find pools key ≡ none
    → DefaultOf pools default_pool
    → DefaultOf ((key, r) ∷ pools) (or_new default_pool r)
unfolding DefaultOf find
new-DefaultOf pools default_pool key r free (inl (e, q)) =
    rw e (inr (key, r, refl, rw (same_key_refl key) refl))
new-DefaultOf pools default_pool key r free (inr (k, d, e, f)) =
    elim (Bool-cases (same_key key k)) [
      | inl s ↦ absurd (ground (arith, free, f, find-same_key pools key k s))
      | inr s ↦ rw e (inr (k, d, refl, rw s f))
    ]

delete-DefaultOf :
    (pools : List (PoolKey × ℕ)) (default_pool : Option ℕ) (key : PoolKey) (r : ℕ)
    → find pools key ≡ some r
    → DefaultOf pools default_pool
    → DefaultOf
        (remove pools key)
        (if points_to default_pool r then first_pool (remove pools key) else default_pool)
unfolding DefaultOf find
delete-DefaultOf pools default_pool key r found (inl (e, q)) =
    absurd (ground (arith, rw q at found))
delete-DefaultOf pools default_pool key r found (inr (k, d, e, f)) =
    elim (Bool-cases (nat_eq d r)) [
      | inl s ↦ rw (e, s) (first-DefaultOf (remove pools key))
      | inr s ↦ elim (Bool-cases (same_key k key)) [
        | inl w ↦ absurd (ground (arith, s, f, found, find-same_key pools k key w))
        | inr w ↦ rw (e, s) (inr (k, d, refl, find-remove pools key k w ∙ f))
      ]
    ]

upsert-DefaultOf :
    (m : Manager) (o : Option ℕ) (key : PoolKey) (selector : GoMap String) (ports : List ℕ)
    → find m.pools key ≡ o
    → DefaultOf m.pools m.default_pool
    → DefaultOf (upsert m o key selector ports).pools (upsert m o key selector ports).default_pool
upsert-DefaultOf m none key selector ports e v =
    new-DefaultOf m.pools m.default_pool key m.next_pool e v
upsert-DefaultOf m (some r) key selector ports e v = v

delete_pool-DefaultOf :
    (m : Manager) (o : Option ℕ) (key : PoolKey)
    → find m.pools key ≡ o
    → DefaultOf m.pools m.default_pool
    → DefaultOf (delete m o key).pools (delete m o key).default_pool
delete_pool-DefaultOf m none key e v = v
delete_pool-DefaultOf m (some r) key e v = delete-DefaultOf m.pools m.default_pool key r e v

Reaches-DefaultOf : {m : Manager} → Reaches m → DefaultOf m.pools m.default_pool
unfolding new_manager transition upsert_pool delete_pool DefaultOf
Reaches-DefaultOf here = inl (refl, refl)
Reaches-DefaultOf (next {m} h (upserts key selector ports)) =
    upsert-DefaultOf m (find m.pools key) key selector ports refl (Reaches-DefaultOf h)
Reaches-DefaultOf (next {m} h (deletes key)) =
    delete_pool-DefaultOf m (find m.pools key) key refl (Reaches-DefaultOf h)

-- In every history of upserts and deletes: there are no pools and no default pool, or the default
-- pool is the pool that is registered under some key.
pub get_default_pool-Reaches :
    {m : Manager}
    → Reaches m
    → ((m.pools ≡ []) × (get_default_pool m ≡ none))
      ⊎ ((k : PoolKey) × (pool : PoolConfig) × (get_pool m k ≡ some pool)
          × (get_default_pool m ≡ some pool))
unfolding get_default_pool get_pool DefaultOf
get_default_pool-Reaches {m} h = elim (Reaches-DefaultOf h) [
  | inl (e, q) ↦ inl (q, rw e refl)
  | inr (k, r, e, f) ↦ inr (k, m.heap r, rw f refl, rw e refl)
]

-- In every history: a request for a router is given one, the one of the pool asked for or of the
-- default pool, unless no pool is registered.
pub get_router-Reaches :
    {m : Manager}
    → Reaches m
    → (k : PoolKey)
    → ((m.pools ≡ []) × (get_router m k ≡ inl no_pool_available))
      ⊎ ((pool : PoolConfig) × ((get_pool m k ≡ some pool)
            ⊎ ((get_pool m k ≡ none) × (get_default_pool m ≡ some pool)))
          × (get_router m k ≡ inr pool.router))
unfolding get_router
get_router-Reaches {m} h k = elim (Option-cases (get_pool m k)) [
  | inr (pool, e) ↦ inr (pool, inl e, rw e refl)
  | inl e ↦ elim (get_default_pool-Reaches h) [
    | inl (q, d) ↦ inl (q, rw (e, d) refl)
    | inr (l, pool, f, d) ↦ inr (pool, inr (e, d), rw (e, d) refl)
  ]
]

nat_eq_self : (n : ℕ) → nat_eq n n ≡ true
nat_eq_self n = ground arith

-- What the pool of a key looks at.
abbrev pub Configured : PoolConfig → PoolKey → GoMap String → List ℕ → Type 0
Configured pool key selector ports =
    (pool.pod_selector ≡ selector)
    × (pool.target_ports ≡ ports)
    × (pool.router ≡ record { namespace = key.namespace; pod_selector = selector })
    × (pool.vram_tracker ≡ record { namespace = key.namespace; pod_selector = selector })

upsert-Configured :
    (m : Manager) (o : Option ℕ) (key : PoolKey) (selector : GoMap String) (ports : List ℕ)
    → find m.pools key ≡ o
    → (pool : PoolConfig) × (get_pool (upsert m o key selector ports) key ≡ some pool)
      × Configured pool key selector ports
unfolding get_pool find
upsert-Configured m none key selector ports e = (
  configured key selector ports,
  rw (same_key_refl key, nat_eq_self m.next_pool) refl,
  (refl, refl, refl, refl),
)
upsert-Configured m (some r) key selector ports e = (
  reconfigured (m.heap r) key selector ports,
  rw (e, nat_eq_self r) refl,
  (refl, refl, refl, refl),
)

-- After an upsert, of a new key or of one that is there: the pool of the key has the selector and the
-- ports given, and its router and its VRAM tracker look at the key's namespace with that selector.
pub get_pool-upsert_pool :
    (m : Manager) (key : PoolKey) (selector : GoMap String) (ports : List ℕ)
    → (pool : PoolConfig) × (get_pool (upsert_pool m key selector ports) key ≡ some pool)
      × Configured pool key selector ports
unfolding upsert_pool
get_pool-upsert_pool m key selector ports =
    upsert-Configured m (find m.pools key) key selector ports refl

find-remove_self : (pools : List (PoolKey × ℕ)) (key : PoolKey) → find (remove pools key) key ≡ none
unfolding find remove
find-remove_self [] key = refl
find-remove_self ((j, r) ∷ pools) key = ground (arith, find-remove_self pools key)

delete-find :
    (m : Manager) (o : Option ℕ) (key : PoolKey)
    → find m.pools key ≡ o
    → find (delete m o key).pools key ≡ none
delete-find m none key e = e
delete-find m (some r) key e = find-remove_self m.pools key

pub get_pool-delete_pool : (m : Manager) (key : PoolKey) → get_pool (delete_pool m key) key ≡ none
unfolding get_pool delete_pool
get_pool-delete_pool m key = rw (delete-find m (find m.pools key) key refl) refl
