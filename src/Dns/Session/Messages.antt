-- ===== src/Dns/Session/Messages.antt =====
-- Packets that arrive: `_packet2response`, `_process_message` and `_unicast_do_reads` of
-- iris/irisnet/jdns/jdns.c.
pub mod Kept
use ambrosia.Prelude.{
  ℕ, zero, suc, ◌+◌, ◌≡◌, ◌⊎◌, inl, inr, refl, Bool, true, false, ◌&&◌, ◌||◌, not, Option, none,
  some, List, [], ◌∷◌, ◌++◌, length, ltb, ◌==◌, if◌then◌else◌, bit_and, arith, Bool-cases,
}
use ambrosia.Dns.Memory.{Outcome, done, error, fault, stuck, ◌>>=◌}
use ambrosia.Dns.Packet.{Packet, Resource, jdns_packet_import}
use ambrosia.Dns.Util.Text.{c_string, jdns_domain_cmp}
use ambrosia.Dns.Util.Address.{
  Address, jdns_address_cmp, jdns_address_multicast4_new, jdns_address_multicast6_new,
}
use ambrosia.Dns.Util.Record.{Rr}
use ambrosia.Dns.Util.Record.Decode.{jdns_rr_from_resource}
use ambrosia.Dns.Util.Response.{
  Response, jdns_response_new, append_answer, append_authority, append_additional, remove_extra,
}
use ambrosia.Dns.Session.{
  Session, Query, NameServer, CacheItem, set_query, drop_query, query_at, is_num, is_some,
}
use ambrosia.Dns.Session.Ids.{intarray_add}
use ambrosia.Dns.Session.Cache.{cache_add, cache_remove_all_of_kind}
use ambrosia.Dns.Session.Responses.{process_response}

-- One round of the loops of `_packet2response`, for a resource that was not passed over.
unfoldable pub append_resource :
    (Response → Rr → Outcome Response) → Response → Outcome Rr → Outcome Response
append_resource append r (done rr) = append r rr
append_resource append r error = done r
append_resource append r fault = fault
append_resource append r stuck = stuck

-- One loop of `_packet2response`.
unfoldable pub append_all :
    (Response → Rr → Outcome Response)
    → (Resource → Bool)
    → Packet
    → List Resource
    → Response
    → Outcome Response
append_all append fits packet [] r = done r
append_all append fits packet (res ∷ rest) r =
    let passed = append_all append fits packet rest r in
    let appended =
      append_resource append r (jdns_rr_from_resource res packet)
      >>= append_all append fits packet rest in
    if fits res then appended else passed

abbrev pub of_class : ℕ → Resource → Bool
of_class classmask res = bit_and res.qclass classmask == 1

-- `// restrict answers to those that match the question`; the class is that of the internet.
abbrev pub answers : List ℕ → ℕ → ℕ → Resource → Bool
answers qname qtype classmask res =
    ((res.qtype == qtype) && jdns_domain_cmp (c_string res.qname) qname) && of_class classmask res

unfoldable pub packet2response : Packet → List ℕ → ℕ → ℕ → Outcome Response
packet2response packet qname qtype classmask = do
  r ←
      append_all append_answer (answers qname qtype classmask) packet packet.answer_records
        jdns_response_new
  t ← append_all append_authority (of_class classmask) packet packet.authority_records r
  append_all append_additional (of_class classmask) packet packet.additional_records t

-- `r` and `nxdomain` of `_process_message`.
unfoldable pub response_of : Packet → Query → Outcome (Option Response × Bool)
response_of packet q =
    let normal = (do
      r ← packet2response packet q.qname q.qtype 0xffff
      done (
        if ltb 0 (length r.answer_records) || ((packet.opts.aa == 1) && (packet.opts.rd == 1))
            then some r
            else none,
        false,
      )) in
    if packet.opts.rcode == 3
    then done (some jdns_response_new, true)
    else if packet.opts.rcode == 0
    then normal
    else done (none, false)

unfoldable pub cache_answers : List ℕ → ℕ → List Rr → List CacheItem → Outcome (List CacheItem)
cache_answers qname now [] cache = done cache
cache_answers qname now (rr ∷ rest) cache =
    cache_add qname rr.type now rr.ttl (some rr) cache >>= cache_answers qname now rest

-- `_ustrdup` of the owner; a null pointer faults.
abbrev pub cache_owned : ℕ → Rr → List CacheItem → Outcome (List CacheItem)
cache_owned now rr cache = elim rr.owner [
  | some owner ↦ cache_add owner rr.type now rr.ttl (some rr) cache
  | none ↦ if rr.ttl == 0 then done cache else fault
]

unfoldable pub cache_additional : ℕ → List Rr → List CacheItem → Outcome (List CacheItem)
cache_additional now [] cache = done cache
cache_additional now (rr ∷ rest) cache = cache_owned now rr cache >>= cache_additional now rest

abbrev pub answer_section_ok : Packet → Bool
answer_section_ok packet =
    (packet.qdcount == length packet.questions) && (packet.ancount == length packet.answer_records)

-- The caching of a response that is not nxdomain.
unfoldable pub cache_response :
    Packet → ℕ → Query → Response → List CacheItem → Outcome (List CacheItem)
cache_response packet now q r cache = do
  let whole = not (packet.opts.tc == 1)
  let cleared = cache_remove_all_of_kind q.qname q.qtype cache
  let all = cache_answers q.qname now r.answer_records cleared
  with_answers ← (if whole || answer_section_ok packet then all else done cleared)
  let more = cache_additional now r.additional_records with_answers
  (if whole then more else done with_answers)

-- The caching of nxdomain, for 1 minute; 255 is `JDNS_RTYPE_ANY`.
unfoldable pub cache_nxdomain : ℕ → Query → List CacheItem → Outcome (List CacheItem)
cache_nxdomain now q cache =
    let added =
      cache_add q.qname (some q.qtype) now 60 none
        (cache_remove_all_of_kind q.qname q.qtype cache) in
    if q.qtype == 255 then done cache else added

unfoldable pub cache_message :
    Packet → ℕ → Query → Option Response → Bool → List CacheItem → Outcome (List CacheItem)
cache_message packet now q none nxdomain cache = done cache
cache_message packet now q (some r) true cache = cache_nxdomain now q cache
cache_message packet now q (some r) false cache = cache_response packet now q r cache

abbrev pub passed_on : Option Response → Option Response
passed_on none = none
passed_on (some r) = some (remove_extra r)

-- `// this server returned an error?`
abbrev pub mark_failed : Option Response → NameServer → Session → Query → Session
mark_failed none ns s q =
    set_query s (record q { servers_failed = intarray_add q.servers_failed ns.id })
mark_failed (some r) ns s q = s

unfoldable pub process_message : Session → Packet → ℕ → Query → NameServer → Outcome Session
process_message s packet now q ns =
    let handled = (do
      (r, nxdomain) ← response_of packet q
      cache ← cache_message packet now q r nxdomain s.cache
      (remove, t) ←
          process_response (mark_failed r ns (record s { cache = cache }) q) (passed_on r) nxdomain
            q.self
      done (if remove then drop_query t q.self else t)) in
    if packet.opts.opcode == 0 then handled else done s

-- What `udp_read` gives: a datagram with the address and the port it came from.
pub record Incoming : Type 0 where
  pub address : Address
  pub port : ℕ
  pub bytes : List ℕ

-- `// who does it belong to?`
abbrev pub owner_of : ℕ → List Query → Option Query
owner_of id [] = none
owner_of id (q ∷ qs) = let rest = owner_of id qs in if is_num q.dns_id id then some q else rest

abbrev pub sender_of : Incoming → List NameServer → Option NameServer
sender_of m [] = none
sender_of m (ns ∷ servers) =
    let rest = sender_of m servers in
    if jdns_address_cmp ns.address m.address && (ns.port == m.port) then some ns else rest

abbrev pub is_multicast : NameServer → Bool
is_multicast ns =
    jdns_address_cmp ns.address jdns_address_multicast4_new
    || jdns_address_cmp ns.address jdns_address_multicast6_new

-- The first name server, where that is a multicast address.
abbrev pub first_multicast : List NameServer → Option NameServer
first_multicast [] = none
first_multicast (ns ∷ servers) = if is_multicast ns then some ns else none

-- `// what name server did it come from?`
unfoldable pub server_of : Incoming → List NameServer → Option NameServer
server_of m servers = elim (sender_of m servers) [
  | some ns ↦ some ns
  | none ↦ first_multicast servers
]

-- A packet for a query, from a name server.
unfoldable pub accept : Session → Packet → ℕ → Option Query → Option NameServer → Outcome Session
accept s packet now none ns = done s
accept s packet now (some q) none = done s
accept s packet now (some q) (some ns) = process_message s packet now q ns

-- A round of the loop of `_unicast_do_reads`, for what `jdns_packet_import` gave.
unfoldable pub receive : Session → ℕ → Incoming → Outcome Packet → Outcome Session
receive s now m (done packet) =
    accept s packet now (owner_of packet.id s.queries) (server_of m s.name_servers)
receive s now m error = done s
receive s now m fault = fault
receive s now m stuck = stuck

unfoldable pub read_all : ℕ → List Incoming → Session → Outcome Session
read_all now [] s = done (record s { handle_readable = false })
read_all now (m ∷ incoming) s =
    receive s now m (jdns_packet_import m.bytes) >>= read_all now incoming

-- The datagrams are those that wait at the handle. The value is `need_read`.
unfoldable pub unicast_do_reads : ℕ → List Incoming → Session → Outcome (Bool × Session)
unicast_do_reads now incoming s =
    let all = (do t ← read_all now incoming s; done (true, t)) in
    if s.handle_readable then all else done (true, s)
