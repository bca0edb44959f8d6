-- ===== src/Dns/Session/Servers.antt =====
-- `jdns_set_nameservers` of iris/irisnet/jdns/jdns.c.
pub mod Added
pub mod Exact
pub mod Kept
use ambrosia.Prelude.{
  ℕ, zero, suc, ◌+◌, ◌≡◌, ◌⊎◌, inl, inr, refl, Bool, true, false, ◌&&◌, not, Option, none, some,
  List, [], ◌∷◌, ◌++◌, length, ◌==◌, if◌then◌else◌, arith, Bool-cases,
}
use ambrosia.Dns.Memory.{Outcome, done, ◌>>=◌}
use ambrosia.Dns.Util.Address.{Address, jdns_address_copy, jdns_address_cmp}
use ambrosia.Dns.Session.{
  Session, Query, NameServer, Event, status_timeout, remove_name_server_datagrams, report,
  append_events, drop_query,
}
use ambrosia.Dns.Session.Ids.{get_next_name_server_id, remove_if_there}

-- `jdns_nameserver_t`
pub record Given : Type 0 where
  pub address : Address
  pub port : ℕ

abbrev pub is_given : NameServer → Given → Bool
is_given ns i = jdns_address_cmp ns.address i.address && (ns.port == i.port)

abbrev pub given_in : List Given → NameServer → Bool
given_in [] ns = false
given_in (i ∷ nslist) ns = let rest = given_in nslist ns in if is_given ns i then true else rest

abbrev pub known_in : List NameServer → Given → Bool
known_in [] i = false
known_in (ns ∷ servers) i = let rest = known_in servers i in if is_given ns i then true else rest

unfoldable pub query_name_server_gone : ℕ → Query → Outcome Query
query_name_server_gone ns_id q = do
  tried ← remove_if_there q.servers_tried ns_id
  failed ← remove_if_there q.servers_failed ns_id
  done (record q { servers_tried = tried; servers_failed = failed })

unfoldable pub all_gone : ℕ → List Query → Outcome (List Query)
all_gone ns_id [] = done []
all_gone ns_id (q ∷ qs) = do
  q' ← query_name_server_gone ns_id q
  qs' ← all_gone ns_id qs
  done (q' ∷ qs')

-- The loop of `// removed?`, over the name servers from `k` on; the ones before it stay.
unfoldable pub remove_servers : List Given → List NameServer → Session → Outcome Session
remove_servers nslist [] s = done (record s { name_servers = [] })
remove_servers nslist (ns ∷ servers) s =
    let stays = (do
      t ← remove_servers nslist servers s
      done (record t { name_servers = ns ∷ t.name_servers })) in
    let goes = (do
      queries ← all_gone ns.id s.queries
      remove_servers nslist servers (record s {
        outgoing = remove_name_server_datagrams ns.id s.outgoing;
        queries = queries;
      })) in
    if given_in nslist ns then stays else goes

unfoldable pub add_server : Session → Given → Outcome Session
add_server s i = do
  (id, t) ← get_next_name_server_id s
  done (record t {
    name_servers =
        t.name_servers
        ++ (record { id = id; address = jdns_address_copy i.address; port = i.port } ∷ []);
  })

-- The loop of `// added?`
unfoldable pub add_servers : List Given → Session → Outcome Session
add_servers [] s = done s
add_servers (i ∷ nslist) s =
    let added = add_server s i >>= add_servers nslist in
    let present = add_servers nslist s in if known_in s.name_servers i then present else added

-- Every query is dropped, and its requests are told.
unfoldable pub invalidate : List Query → Session → Session
invalidate [] s = s
invalidate (q ∷ qs) s =
    invalidate qs (drop_query (append_events s (report status_timeout q.req_ids)) q.self)

unfoldable pub jdns_set_nameservers : Session → List Given → Outcome Session
jdns_set_nameservers s nslist = do
  kept ← remove_servers nslist s.name_servers s
  t ← add_servers nslist kept
  done (if length nslist == 0 then invalidate t.queries t else t)
