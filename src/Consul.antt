-- ===== src/Consul.antt =====
-- pkg/discovery/consul/registry.go: the registry of Discovery over Consul. The Consul API is a parameter:
-- `C` is the type of its clients. What a context cancels is in the replies of a watch.
pub mod Watch
pub mod Registering
mod Tests
use goplatform.Prelude.{
  ℕ, ℤ, String, Bool, true, false, Option, none, some, List, [], ◌∷◌, ◌++◌, ◌⊎◌, inl, inr, ◌==◌,
  str_eq, if◌then◌else◌, map,
}
use goplatform.Prelude.Dict.{Dict}
use goplatform.Errors.{Error, text, wrap}
use goplatform.Discovery.{Instance}

pub record Config : Type 0 where
  pub address : String
  pub token : String

-- `AgentServiceRegistration` with its TTL check.
pub record Registration : Type 0 where
  pub id : String
  pub name : String
  pub address : String
  pub port : ℤ
  pub tags : List String
  pub meta : Dict String
  pub ttl : String
  pub deregister_after : String

-- The `Service` of a ServiceEntry.
pub record ServiceEntry : Type 0 where
  pub id : String
  pub service : String
  pub address : String
  pub port : ℤ
  pub tags : List String
  pub meta : Dict String

-- The text of a check id: "service:" in front of an instance's id.
pub data CheckId : Type 0 where
  service_check : String → CheckId

-- The calls of the API. The client is made from an address and a token, if one is set; `service` is
-- Health().Service with the passing filter, and returns the index as well.
pub record ConsulApi (W C : Type 0) : Type 0 where
  pub new_client : String → Option String → C ⊎ Error
  pub service_register : C → Registration → W → W × Option Error
  pub update_ttl : C → CheckId → String → String → W → W × Option Error
  pub service_deregister : C → String → W → W × Option Error
  pub service : C → String → W → W × ((List ServiceEntry × ℕ) ⊎ Error)

unfoldable pub with_address : String → Config → Config
with_address addr c = record c { address = addr }

unfoldable pub with_token : String → Config → Config
with_token token c = record c { token = token }

unfoldable pub apply_options : Config → List (Config → Config) → Config
apply_options c [] = c
apply_options c (opt ∷ opts) = apply_options (opt c) opts

unfoldable pub to_instance : ServiceEntry → Instance
to_instance svc = record {
  id = svc.id;
  name = svc.service;
  address = svc.address;
  port = svc.port;
  tags = svc.tags;
  meta = svc.meta;
}

unfoldable pub to_registration : Instance → Registration
to_registration inst = record {
  id = inst.id;
  name = inst.name;
  address = inst.address;
  port = inst.port;
  tags = inst.tags;
  meta = inst.meta;
  ttl = "30s";
  deregister_after = "90s";
}

unfoldable pub to_instances : List ServiceEntry → List Instance
unfolding to_instance
to_instances [] = []
to_instances (entry ∷ entries) = to_instance entry ∷ to_instances entries

abbrev made : {C : Type 0} → C ⊎ Error → C ⊎ Error
made (inl client) = inl client
made (inr e) = inr (wrap "consul: create client: %w" [] e)

module _ {W C : Type 0} (api : ConsulApi W C) where
  unfoldable pub new : List (Config → Config) → C ⊎ Error
  unfolding apply_options
  new opts =
      let cfg = apply_options (record { address = "localhost:8500"; token = "" }) opts in
      made (api.new_client cfg.address (if str_eq cfg.token "" then none else some cfg.token))

  abbrev pub ttl_error : String → Option Error → Option Error
  ttl_error id none = none
  ttl_error id (some e) = some (wrap "consul: update TTL for %q: %w" (text id ∷ []) e)

  -- After ServiceRegisterOpts.
  abbrev pub registered : C → String → W × Option Error → W × Option Error
  registered client id (w, some e) =
      (w, some (wrap "consul: register service %q: %w" (text id ∷ []) e))
  registered client id (w, none) =
      let (w', err) = api.update_ttl client (service_check id) "initial registration" "passing" w in
      (w', ttl_error id err)

  unfoldable pub register : C → Instance → W → W × Option Error
  unfolding to_registration
  register client inst w =
      registered client inst.id (api.service_register client (to_registration inst) w)

  abbrev pub deregister_error : String → Option Error → Option Error
  deregister_error id none = none
  deregister_error id (some e) = some (wrap "consul: deregister service %q: %w" (text id ∷ []) e)

  unfoldable pub deregister : C → String → W → W × Option Error
  deregister client id w =
      let (w', err) = api.service_deregister client id w in (w', deregister_error id err)

  abbrev pub discovered : String → (List ServiceEntry × ℕ) ⊎ Error → List Instance × Option Error
  discovered name (inl (entries, index)) = (to_instances entries, none)
  discovered name (inr e) = ([], some (wrap "consul: discover service %q: %w" (text name ∷ []) e))

  unfoldable pub discover : C → String → W → W × List Instance × Option Error
  unfolding to_instances
  discover client name w =
      let (w', reply) = api.service client name w in
      let (instances, err) = discovered name reply in (w', instances, err)

-- What a blocking query of a watch comes to: entries under an index, or an error, with which the
-- context may be cancelled, at once or during the wait for the retry. Cancellation may also come while
-- the channel blocks.
pub data Reply : Type 0 where
  entries_at : List ServiceEntry → ℕ → Reply
  failed : Error → Reply
  cancelled : Reply
  unread_at : List ServiceEntry → ℕ → Reply

-- The goroutine of Watch from `wait_index`, over the replies that it gets: what it sends.
unfoldable pub watch_loop : ℕ → List Reply → List (List Instance)
unfolding to_instances
watch_loop wait_index [] = []
watch_loop wait_index (failed e ∷ replies) = watch_loop wait_index replies
watch_loop wait_index (cancelled ∷ replies) = []
watch_loop wait_index (unread_at entries index ∷ replies) =
    let rest = watch_loop wait_index replies in if index == wait_index then rest else []
watch_loop wait_index (entries_at entries index ∷ replies) =
    let same = watch_loop wait_index replies in
    let changed = watch_loop index replies in
    if index == wait_index then same else to_instances entries ∷ changed

unfoldable pub watch : List Reply → List (List Instance)
unfolding watch_loop
watch replies = watch_loop 0 replies
