-- ===== src/Router/Lease.antt =====
-- The leases by which replicas agree who loads a model (internal/router/router.go: tryAcquireLease,
-- releaseLease). The Kubernetes API is a parameter with the documented behaviour of its calls.
use Prim.Native.String.{◌++◌ as ◌⧺◌}
use rocm_llamacpp_envoy_ai_g.Prelude.{String, ◌≡◌, ◌⊎◌, Bool, false, Option, none, some, ◌==◌}

-- What Create gives: nil, an error that IsAlreadyExists accepts, or another error.
pub data Created : Type 0 where
  created already_exists create_failed : Created

-- What Get gives: the HolderIdentity of the lease, or an error.
pub data Got : Type 0 where
  got : Option String → Got
  get_failed : Got

-- The API server's store of leases. `lease_of` is the HolderIdentity of the lease of a namespace and a
-- name, if there is such a lease. The laws: a lease is created only where there is none, with the
-- holder asked for, also when the answer is lost; nil and AlreadyExists are told as they are; a Get
-- tells the holder of the lease that is there; a Delete removes the lease, or fails with or without
-- effect; none of them touches the lease of another name.
pub record LeaseApi : Type 1 where
  pub Store : Type 0
  pub lease_of : Store → String → String → Option (Option String)
  pub create : Store → String → String → String → Store × Created
  pub get : Store → String → String → Got
  pub delete : Store → String → String → Store × Bool
  pub create-effect :
      (s : Store) (ns name holder : String)
      → (lease_of (create s ns name holder).0 ns name ≡ lease_of s ns name)
        ⊎ ((lease_of s ns name ≡ none)
            × (lease_of (create s ns name holder).0 ns name ≡ some (some holder)))
  pub create-created :
      (s : Store) (ns name holder : String)
      → (create s ns name holder).1 ≡ created
      → (lease_of s ns name ≡ none)
        × (lease_of (create s ns name holder).0 ns name ≡ some (some holder))
  pub create-other :
      (s : Store) (ns name holder ns' name' : String)
      → (ns == ns') ≡ false ⊎ (name == name') ≡ false
      → lease_of (create s ns name holder).0 ns' name' ≡ lease_of s ns' name'
  pub get-got :
      (s : Store) (ns name : String) (holder : Option String)
      → get s ns name ≡ got holder
      → lease_of s ns name ≡ some holder
  pub delete-other :
      (s : Store) (ns name ns' name' : String)
      → (ns == ns') ≡ false ⊎ (name == name') ≡ false
      → lease_of (delete s ns name).0 ns' name' ≡ lease_of s ns' name'

abbrev pub lease_name : String → String
lease_name model = "extproc-model-load-" ⧺ model

-- The holder of the lease that is there is this replica.
abbrev pub is_ours : Option String → String → Bool
is_ours none replica_name = false
is_ours (some holder) replica_name = holder == replica_name
