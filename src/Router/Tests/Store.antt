-- ===== src/Router/Tests/Store.antt =====
-- A store of leases that keeps the laws of the API (internal/router/router.go).
use rocm_llamacpp_envoy_ai_g.Prelude.{
  String, ◌≡◌, refl, ◌⊎◌, inl, inr, ◌&&◌, true, false, Option, none, some, ◌==◌, eq_iff, arith,
  if◌then◌else◌,
}
use rocm_llamacpp_envoy_ai_g.Router.Lease.{
  LeaseApi, Created, created, already_exists, Got, got, get_failed,
}

abbrev pub Leases : Type 0
Leases = String → String → Option (Option String)

abbrev put_lease : Leases → String → String → Option (Option String) → Leases
put_lease s ns name l ns' name' = if ns == ns' && name == name' then l else s ns' name'

abbrev create_where : Option (Option String) → Leases → String → String → String → Leases × Created
create_where none s ns name holder = (put_lease s ns name (some (some holder)), created)
create_where (some l) s ns name holder = (s, already_exists)

abbrev get_where : Option (Option String) → Got
get_where none = get_failed
get_where (some holder) = got holder

put_lease_same :
    (s : Leases) (ns name : String) (l : Option (Option String)) → put_lease s ns name l ns name ≡ l
put_lease_same s ns name l = ground (arith, eq_iff ns ns, eq_iff name name)

pub put_lease_other :
    (s : Leases) (ns name : String) (l : Option (Option String)) (ns' name' : String)
    → (ns == ns') ≡ false ⊎ (name == name') ≡ false
    → put_lease s ns name l ns' name' ≡ s ns' name'
put_lease_other s ns name l ns' name' h = ground (arith, h)

pub create_where_other :
    (o : Option (Option String)) (s : Leases) (ns name holder ns' name' : String)
    → (ns == ns') ≡ false ⊎ (name == name') ≡ false
    → (create_where o s ns name holder).0 ns' name' ≡ s ns' name'
create_where_other none s ns name holder ns' name' h = put_lease_other s ns name _ ns' name' h
create_where_other (some l) s ns name holder ns' name' h = refl

pub create_where_effect :
    (o : Option (Option String)) (s : Leases) (ns name holder : String)
    → s ns name ≡ o
    → ((create_where o s ns name holder).0 ns name ≡ s ns name)
      ⊎ ((s ns name ≡ none) × ((create_where o s ns name holder).0 ns name ≡ some (some holder)))
create_where_effect none s ns name holder e = inr (e, put_lease_same s ns name _)
create_where_effect (some l) s ns name holder e = inl refl

pub create_where_created :
    (o : Option (Option String)) (s : Leases) (ns name holder : String)
    → s ns name ≡ o
    → (create_where o s ns name holder).1 ≡ created
    → (s ns name ≡ none) × ((create_where o s ns name holder).0 ns name ≡ some (some holder))
create_where_created none s ns name holder e c = (e, put_lease_same s ns name _)
create_where_created (some l) s ns name holder e c = absurd (ground (arith, c))

pub get_where_got :
    (o : Option (Option String)) (holder : Option String)
    → get_where o ≡ got holder
    → o ≡ some holder
get_where_got none holder e = absurd (ground (arith, e))
get_where_got (some h) holder e = ground (arith, e)

abbrev pub leases : LeaseApi
leases = record {
  Store = Leases;
  lease_of = λ s. s;
  create = λ s ns name holder. create_where (s ns name) s ns name holder;
  get = λ s ns name. get_where (s ns name);
  delete = λ s ns name. (put_lease s ns name none, true);
  create-effect = λ s ns name holder. create_where_effect (s ns name) s ns name holder refl;
  create-created = λ s ns name holder. create_where_created (s ns name) s ns name holder refl;
  create-other = λ s ns name holder. create_where_other (s ns name) s ns name holder;
  get-got = λ s ns name. get_where_got (s ns name);
  delete-other = λ s ns name. put_lease_other s ns name none;
}
