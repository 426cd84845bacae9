-- ===== src/Consul/Registering.antt =====
-- What Discover returns after Register.
use goplatform.Prelude.{
  String, ◌≡◌, refl, ap, ◌∙◌, Option, none, some, List, [], ◌∷◌, ◌++◌, inl, arith, ℕ,
}
use goplatform.Errors.{Error}
use goplatform.Discovery.{Instance}
use goplatform.Consul.{
  Registration, ServiceEntry, ConsulApi, service_check, to_instance, to_registration, to_instances,
  registered, ttl_error, register, discovered, discover,
}

-- The entry that a registration makes.
abbrev pub entry_of : Registration → ServiceEntry
entry_of reg = record {
  id = reg.id;
  service = reg.name;
  address = reg.address;
  port = reg.port;
  tags = reg.tags;
  meta = reg.meta;
}

-- Consul's promise: a service that is registered, and whose check is then updated to passing, is among
-- the healthy entries of its name.
pub record ListsPassing {W C : Type 0} (api : ConsulApi W C) : Type 0 where
  pub listed :
      (client : C) (reg : Registration) (output : String) (w : W)
      → let (w1, err) = api.service_register client reg w in
        let (w2, ttl_err) = api.update_ttl client (service_check reg.id) output "passing" w1 in
        err ≡ none
        → ttl_err ≡ none
        → (before : List ServiceEntry) × (after : List ServiceEntry) × (index : ℕ) × ((api.service
              client reg.name w2).1
            ≡ inl (before ++ entry_of reg ∷ after, index))

to_instances-append :
    (xs ys : List ServiceEntry) → to_instances (xs ++ ys) ≡ to_instances xs ++ to_instances ys
unfolding to_instances
to_instances-append [] ys = refl
to_instances-append (x ∷ xs) ys = ap (λ t. to_instance x ∷ t) (to_instances-append xs ys)

entry_round_trip : (inst : Instance) → to_instance (entry_of (to_registration inst)) ≡ inst
unfolding to_instance to_registration
entry_round_trip inst = refl

module _ {W C : Type 0} (api : ConsulApi W C) (lists : ListsPassing api) where
  ttl_error-none : (id : String) (o : Option Error) → ttl_error api id o ≡ none → o ≡ none
  ttl_error-none id none h = refl
  ttl_error-none id (some e) h = ground arith

  -- Over a Consul that lists the services it holds as passing, a Register that returns nil is followed by a
  -- Discover of the instance's name that returns nil and, among the healthy instances, this one with all its
  -- fields.
  pub discover-register :
      (client : C) (inst : Instance) (w : W)
      → (register api client inst w).1 ≡ none
      → let r = discover api client inst.name (register api client inst w).0 in
        (r.2 ≡ none)
        × ((before : List Instance) × (after : List Instance) × (r.1 ≡ before ++ inst ∷ after))
  unfolding register discover to_instances to_registration to_instance
  discover-register client inst w ok =
      go (api.service_register client (to_registration inst) w).1 refl ok
    where
      go :
          (err : Option Error)
          → (api.service_register client (to_registration inst) w).1 ≡ err
          → let w1 = (api.service_register client (to_registration inst) w).0 in
            let w2 = registered api client inst.id (w1, err) in
            w2.1 ≡ none
            → (let r = discover api client inst.name w2.0 in
                (r.2 ≡ none)
                × ((before : List Instance) × (after : List Instance) × (r.1
                      ≡ before ++ inst ∷ after)))
      go (some e) eq ok = ground arith
      go none eq ok =
          let (before, after, index, found) =
            lists.listed client (to_registration inst) _ w eq (ttl_error-none inst.id _ ok) in
          (
            ap (λ r. (discovered api inst.name r).1) found,
            (
              to_instances before,
              to_instances after,
              ap (λ r. (discovered api inst.name r).0) found ∙ to_instances-append before _,
            ),
          )
