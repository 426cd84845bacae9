-- ===== src/Consul/Tests.antt =====
-- Consul as a list of the services that are registered.
use goplatform.Prelude.{ℕ, pos, ◌≡◌, refl, none, List, [], ◌∷◌, inl, ◌==◌, if◌then◌else◌}
use goplatform.Errors.{sentinel}
use goplatform.Discovery.{Instance}
use goplatform.Consul.{ServiceEntry, ConsulApi, watch, to_instances}
use goplatform.Consul.Registering.{ListsPassing, entry_of}
use goplatform.Consul.Watch.{
  Query, at_index, broken, replies_to, last_index, last_sent, watch-current,
}

abbrev agent : ConsulApi (List ServiceEntry) ℕ
agent = record {
  new_client = λ addr token. inl 1;
  service_register = λ client reg w. (entry_of reg ∷ w, none);
  update_ttl = λ client check output status w. (w, none);
  service_deregister = λ client id w. (w, none);
  service = λ client name w. (w, inl (w, 7));
}

agent-ListsPassing : ListsPassing agent
agent-ListsPassing = record { listed = λ client reg output w ok passing. ([], w, 7, refl) }

abbrev orders : Instance
orders = record {
  id = "orders-1";
  name = "orders";
  address = "10.0.0.1";
  port = pos 8080;
  tags = "v1" ∷ [];
  meta = [];
}

-- The index as the number of services.
abbrev services_at : ℕ → List ServiceEntry
services_at i =
    if i == 0
    then []
    else record {
      id = "orders-1";
      service = "orders";
      address = "10.0.0.1";
      port = pos i;
      tags = [];
      meta = [];
    }
      ∷ []

abbrev queries : List Query
queries = at_index 3 ∷ at_index 3 ∷ broken (sentinel "timeout") ∷ at_index 5 ∷ []

watch-current_example :
    last_sent [] (watch (replies_to services_at queries))
    ≡ to_instances (services_at (last_index 0 queries))
watch-current_example = watch-current services_at queries refl
