-- ===== src/Dns/Session/Writes.antt =====
-- What a step does with the queries that are due, and the sending of datagrams: `_queue_packet` and
-- `_unicast_do_writes` of iris/irisnet/jdns/jdns.c.
pub mod Transmits
pub mod Sent
pub mod Kept
pub mod Halts
pub mod Looks
pub mod Rounds
pub mod Ends
pub mod Picked
pub mod Turns
use ambrosia.Prelude.{
  ℕ, zero, suc, ◌+◌, ◌-◌, ◌*◌, ◌≤◌, ◌<◌, ◌≡◌, ◌⊎◌, inl, inr, refl, Bool, true, false, ◌&&◌, ◌||◌,
  not, Option, none, some, List, [], ◌∷◌, ◌++◌, length, get_elem?, ltb, ◌==◌, if◌then◌else◌, arith,
  Bool-cases,
}
use ambrosia.Dns.Memory.{Outcome, done, error, fault, stuck, ◌>>=◌}
use ambrosia.Dns.Packet.{Packet, Opts, Question}
use ambrosia.Dns.Packet.Export.{jdns_packet_export}
use ambrosia.Dns.Util.Text.{c_string}
use ambrosia.Dns.Util.Address.{jdns_address_copy}
use ambrosia.Dns.Util.Response.{Response}
use ambrosia.Dns.Session.{
  Session, Callbacks, Query, NameServer, Datagram, status_timeout, report, append_events, query_at,
  set_query, drop_query, clock_read, is_num,
}
use ambrosia.Dns.Session.Ids.{get_next_dns_id, has_id, intarray_add}
use ambrosia.Dns.Session.Cache.{cache_get_response}
use ambrosia.Dns.Session.Requests.{get_query}
use ambrosia.Dns.Session.Responses.{process_response}

-- The packet of a query; the id has been assigned where it is sent.
unfoldable pub query_packet : Query → ℕ → Packet
query_packet q recurse = record {
  id = elim q.dns_id [ none ↦ 0 | some id ↦ id ];
  opts = record { qr = 0; opcode = 0; aa = 0; tc = 0; rd = recurse; ra = 0; z = 0; rcode = 0 };
  qdcount = 0;
  ancount = 0;
  nscount = 0;
  arcount = 0;
  questions = record { qname = c_string q.qname; qtype = q.qtype; qclass = 1 } ∷ [];
  answer_records = [];
  authority_records = [];
  additional_records = [];
  fully_parsed = false;
  raw_data = [];
}

-- A packet that cannot be exported is not sent.
abbrev pub queued : Session → Query → NameServer → ℕ → Outcome Packet → Outcome Session
queued s q ns query_send_type (done packet) = done (record s {
  outgoing =
      s.outgoing
      ++ (record {
        handle = s.handle;
        dest_address = jdns_address_copy ns.address;
        dest_port = ns.port;
        bytes = packet.raw_data;
        query = q.self;
        query_send_type = query_send_type;
        ns_id = ns.id;
      }
          ∷ []);
})
queued s q ns query_send_type error = done s
queued s q ns query_send_type fault = fault
queued s q ns query_send_type stuck = stuck

unfoldable pub queue_packet : Session → Query → NameServer → ℕ → ℕ → Outcome Session
queue_packet s q ns recurse query_send_type =
    queued s q ns query_send_type (jdns_packet_export (query_packet q recurse) 512)

-- `// out of name servers?`: the tried ones are forgotten, in retry mode.
unfoldable pub start_over : ℕ → Query → Query
start_over servers q =
    if length q.servers_tried == servers
    then record q { servers_tried = []; retrying = true }
    else q

abbrev pub is_open : Query → NameServer → Bool
is_open q ns = not (has_id q.servers_tried ns.id) && not (has_id q.servers_failed ns.id)

-- The first name server that has not been tried or failed; a null pointer is `none`.
abbrev pub pick_server : Query → List NameServer → Option NameServer
pick_server q [] = none
pick_server q (ns ∷ servers) =
    let rest = pick_server q servers in if is_open q ns then some ns else rest

abbrev pub is_sending : ℕ → List Datagram → Bool
is_sending self [] = false
is_sending self (a ∷ outgoing) =
    let rest = is_sending self outgoing in
    if (a.query == self) && (a.query_send_type == 0) then true else rest

-- `++q->step`
abbrev pub next_step : Option ℕ → Option ℕ
next_step none = some 0
next_step (some n) = some (suc n)

-- The timer and the step after a transmission.
abbrev pub scheduled : ℕ → Query → Query
scheduled now q = record q {
  time_start = some now;
  time_next = if q.retrying then 1500 else 800;
  step = next_step q.step;
}

-- From the choice of a name server on, for a query with a packet id. `ns->id` of a null pointer is
-- read in any case.
unfoldable pub transmit : ℕ → Session → Query → Option NameServer → Outcome Session
transmit now s q none = fault
transmit now s q (some ns) = do
  let sent = queue_packet s q ns 1 0
  t ← (if is_sending q.self s.outgoing then done s else sent)
  let tried = record q { servers_tried = intarray_add q.servers_tried ns.id }
  done (set_query t (scheduled now (start_over (length s.name_servers) tried)))

-- `// assign a packet id if we don't have one yet`
abbrev pub with_dns_id : Session → Query → Option ℕ → Session × Query
with_dns_id s q none = ((get_next_dns_id s).1, record q { dns_id = some (get_next_dns_id s).0 })
with_dns_id s q (some id) = (s, q)

unfoldable pub give_up : Session → Query → Session
give_up s q = drop_query (append_events s (report status_timeout q.req_ids)) q.self

-- A transmission; the name servers are started over before it where all have been tried.
unfoldable pub send_now : ℕ → Session × Query → Outcome (Bool × Session)
send_now now (s, q) = do
  let ready = start_over (length s.name_servers) q
  t ← transmit now s ready (pick_server ready s.name_servers)
  done (false, t)

-- A query that is due and has no answer in the cache, over its step. The value is whether it was
-- removed.
unfoldable pub send_at : ℕ → Session → Query → Option ℕ → Outcome (Bool × Session)
send_at now s q none = done (true, drop_query s q.self)
send_at now s q (some n) =
    let sent = send_now now (with_dns_id s q q.dns_id) in
    if (n == 8) || (length s.name_servers == 0) then done (true, give_up s q) else sent

unfoldable pub send_query : ℕ → Session → Query → Outcome (Bool × Session)
send_query now s q = send_at now s q q.step

-- The record is queried again "in the background".
unfoldable pub requery : Session → Query → Bool → Outcome Session
requery s q soon =
    let again = (do
      (self, t) ← get_query s q.qname q.qtype true
      new_q ← query_at self t.queries
      done (set_query t (record new_q { retrying = true; trycache = false }))) in
    if soon then again else done s

abbrev pub is_empty : Response → Bool
is_empty r = length r.answer_records == 0

-- `// using cached answer`
unfoldable pub use_cached : Session → Query → Response → Bool → Outcome (Bool × Session)
use_cached s q r soon = do
  t ← requery s q soon
  (remove, u) ← process_response t (some r) (is_empty r) q.self
  done (remove, if remove then drop_query u q.self else u)

-- `// not found?  try cname`
unfoldable pub with_cname : ℕ → Session → Query → Option Response × Bool → Outcome (Bool × Session)
with_cname now s q (none, soon) = send_query now s q
with_cname now s q (some r, soon) = use_cached s q r soon

unfoldable pub with_cached :
    Callbacks → ℕ → Session → Query → Option Response × Bool → Outcome (Bool × Session)
with_cached cb now s q (none, soon) =
    cache_get_response cb s q.qname 5 >>= with_cname now (clock_read s) q
with_cached cb now s q (some r, soon) = use_cached s q r soon

-- `// is it cached?`
unfoldable pub cached : Callbacks → ℕ → Session → Query → Outcome (Bool × Session)
cached cb now s q = cache_get_response cb s q.qname q.qtype >>= with_cached cb now (clock_read s) q

-- A query whose timer has run out.
unfoldable pub due : Callbacks → ℕ → Session → Query → Outcome (Bool × Session)
due cb now s q =
    let looked = cached cb now s q in
    let sent = send_query now s q in if q.trycache then looked else sent

-- `timeleft > 0`
abbrev pub is_waiting : ℕ → Query → Bool
is_waiting now q = elim q.time_start [ none ↦ true | some start ↦ ltb now (start + q.time_next) ]

unfoldable pub write_query : Callbacks → ℕ → Session → Query → Outcome (Bool × Session)
write_query cb now s q =
    let served = due cb now s q in if is_waiting now q then done (false, s) else served

-- The loop over the queries, of which `get_elem?` reads the next. Those that a round adds are looked
-- at too.
unfoldable pub write_queries : Callbacks → ℕ → ℕ → ℕ → Session → Outcome Session
write_queries cb now zero n s = stuck
write_queries cb now (suc fuel) n s = elim (get_elem? s.queries n) [
  | none ↦ done s
  | some q ↦ (do
    (removed, t) ← write_query cb now s q
    write_queries cb now fuel (if removed then n else suc n) t)
]

-- `// try to send queued outgoing packets`, over those that are still queued. The value is
-- `need_write`.
unfoldable pub send_outgoing : Callbacks → List Datagram → Session → Bool × Session
send_outgoing cb [] s = (false, record s { outgoing = [] })
send_outgoing cb (a ∷ outgoing) s =
    let taken =
      send_outgoing cb outgoing
        (record s { writes = suc s.writes; written = s.written ++ (a ∷ []) }) in
    let refused : Bool × Session = (
      true,
      record s { writes = suc s.writes; handle_writable = false; outgoing = a ∷ outgoing },
    ) in
    if not s.handle_writable
    then (true, record s { outgoing = a ∷ outgoing })
    else if cb.udp_write s.writes
    then taken
    else refused

-- The work that a query may still give: one look at it, and where it may use the cache, a query in
-- the background and the queries of the rest of its chain.
unfoldable pub weight : Query → ℕ
weight q = if q.trycache then suc (2 * (17 - q.cname_chain_count)) else 1

unfoldable pub work : List Query → ℕ
work [] = 0
work (q ∷ qs) = weight q + work qs

unfoldable pub unicast_do_writes : Callbacks → ℕ → Session → Outcome (Bool × Session)
unicast_do_writes cb now s = do
  t ← write_queries cb now (suc (work s.queries)) 0 s
  done (send_outgoing cb t.outgoing t)
