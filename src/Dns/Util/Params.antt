-- ===== src/Dns/Util/Params.antt =====
-- `jdns_server_t`, `jdns_nameserver_t`, `jdns_dnshost_t`, their lists and `jdns_dnsparams_t` of
-- iris/irisnet/jdns/jdns_util.c. A pointer that may be null is an option; the arrays are lists.
use ambrosia.Prelude.{ℕ, Option, none, some, List, [], ◌∷◌, ◌++◌, map}
use ambrosia.Dns.Util.Text.{c_string}
use ambrosia.Dns.Util.Address.{Address, jdns_address_copy}

abbrev pub copied {ℓ} : {A : Type ℓ} → (A → A) → Option A → Option A
copied f none = none
copied f (some a) = some (f a)

pub record Server : Type 0 where
  pub name : Option (List ℕ)
  pub port : ℕ
  pub priority : ℕ
  pub weight : ℕ

abbrev pub jdns_server_new : Server
jdns_server_new = record { name = none; port = 0; priority = 0; weight = 0 }

unfoldable pub jdns_server_copy : Server → Server
jdns_server_copy s = record {
  name = copied c_string s.name;
  port = s.port;
  priority = s.priority;
  weight = s.weight;
}

unfoldable pub jdns_server_set_name : Server → List ℕ → Server
jdns_server_set_name s name = record {
  name = some (c_string name);
  port = s.port;
  priority = s.priority;
  weight = s.weight;
}

-- A `port` of -1 is `none`.
pub record Nameserver : Type 0 where
  pub address : Option Address
  pub port : Option ℕ

abbrev pub jdns_nameserver_new : Nameserver
jdns_nameserver_new = record { address = none; port = none }

unfoldable pub jdns_nameserver_copy : Nameserver → Nameserver
jdns_nameserver_copy a = record { address = copied jdns_address_copy a.address; port = a.port }

unfoldable pub jdns_nameserver_set : Nameserver → Address → Option ℕ → Nameserver
jdns_nameserver_set a addr port = record { address = some (jdns_address_copy addr); port = port }

unfoldable pub jdns_nameserverlist_copy : List Nameserver → List Nameserver
jdns_nameserverlist_copy a = map jdns_nameserver_copy a

unfoldable pub jdns_nameserverlist_append : List Nameserver → Address → Option ℕ → List Nameserver
jdns_nameserverlist_append a addr port =
    a ++ (jdns_nameserver_set jdns_nameserver_new addr port ∷ [])

pub record Dnshost : Type 0 where
  pub name : Option (List ℕ)
  pub address : Option Address

abbrev pub jdns_dnshost_new : Dnshost
jdns_dnshost_new = record { name = none; address = none }

unfoldable pub jdns_dnshost_copy : Dnshost → Dnshost
jdns_dnshost_copy a = record { name = a.name; address = copied jdns_address_copy a.address }

unfoldable pub jdns_dnshostlist_copy : List Dnshost → List Dnshost
jdns_dnshostlist_copy a = map jdns_dnshost_copy a

unfoldable pub jdns_dnshostlist_append : List Dnshost → Dnshost → List Dnshost
jdns_dnshostlist_append a host = a ++ (jdns_dnshost_copy host ∷ [])

pub record Dnsparams : Type 0 where
  pub nameservers : List Nameserver
  pub domains : List (List ℕ)
  pub hosts : List Dnshost

abbrev pub jdns_dnsparams_new : Dnsparams
jdns_dnsparams_new = record { nameservers = []; domains = []; hosts = [] }

unfoldable pub jdns_dnsparams_copy : Dnsparams → Dnsparams
jdns_dnsparams_copy a = record {
  nameservers = jdns_nameserverlist_copy a.nameservers;
  domains = a.domains;
  hosts = jdns_dnshostlist_copy a.hosts;
}

unfoldable pub append_nameserver : Dnsparams → Address → Option ℕ → Dnsparams
append_nameserver a addr port = record {
  nameservers = jdns_nameserverlist_append a.nameservers addr port;
  domains = a.domains;
  hosts = a.hosts;
}

unfoldable pub append_domain : Dnsparams → List ℕ → Dnsparams
append_domain a domain = record {
  nameservers = a.nameservers;
  domains = a.domains ++ (domain ∷ []);
  hosts = a.hosts;
}

unfoldable pub append_host : Dnsparams → List ℕ → Address → Dnsparams
append_host a name address = record {
  nameservers = a.nameservers;
  domains = a.domains;
  hosts =
      jdns_dnshostlist_append a.hosts
        (record { name = some name; address = some (jdns_address_copy address) });
}
