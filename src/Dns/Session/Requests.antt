-- ===== src/Dns/Session/Requests.antt =====
-- Requests and queries: `_get_query`, `_unicast_query`, `_unicast_cancel`, `jdns_cancel_query` and
-- `jdns_next_event` of iris/irisnet/jdns/jdns.c.
pub mod Cancel
pub mod Kept
use ambrosia.Prelude.{
  ℕ, zero, suc, ◌+◌, ◌≡◌, ◌⊎◌, inl, inr, refl, Bool, true, false, ◌&&◌, not, Option, none, some,
  List, [], ◌∷◌, ◌++◌, length, ◌==◌, if◌then◌else◌, arith, Bool-cases,
}
use ambrosia.Dns.Memory.{Outcome, done, ◌>>=◌}
use ambrosia.Dns.Util.Text.{jdns_domain_cmp, c_string}
use ambrosia.Dns.Session.{
  Session, Callbacks, Query, Datagram, Event, Shutdown, running, requested, stopped, clock,
  clock_read, query_at, set_query, drop_query, is_some, remove_query_datagrams,
}
use ambrosia.Dns.Session.Ids.{get_next_qid, get_next_req_id, has_id, intarray_add, remove_if_there}
use ambrosia.Dns.Session.Text.{fix_input}

abbrev pub asks : List ℕ → ℕ → Query → Bool
asks qname qtype q = jdns_domain_cmp q.qname qname && (q.qtype == qtype)

pub record Latched : Type 0 where
  pub queries : List Query
  pub outgoing : List Datagram
  pub query : Option ℕ

abbrev behind : Query → Latched → Latched
behind q l = record l { queries = q ∷ l.queries }

-- A query that asks the same: an inactive one is removed, an active one is taken.
abbrev pub nuke_or_take : Query → List Query → List Datagram → Latched → Option ℕ → Latched
nuke_or_take q qs outgoing nuked none = nuked
nuke_or_take q qs outgoing nuked (some step) = record {
  queries = q ∷ qs;
  outgoing = outgoing;
  query = some q.self;
}

-- The loop of `// check for existing queries`.
unfoldable pub latch : List ℕ → ℕ → List Query → List Datagram → Latched
latch qname qtype [] outgoing = record { queries = []; outgoing = outgoing; query = none }
latch qname qtype (q ∷ qs) outgoing =
    let nuked = latch qname qtype qs (remove_query_datagrams q.self outgoing) in
    let passed = behind q (latch qname qtype qs outgoing) in
    if asks qname qtype q then nuke_or_take q qs outgoing nuked q.step else passed

-- `query_new`, and the fields that `_get_query` sets.
abbrev pub new_query : ℕ → ℕ → List ℕ → ℕ → Query
new_query self id qname qtype = record {
  self = self;
  id = id;
  req_ids = [];
  dns_id = none;
  qname = c_string qname;
  qtype = qtype;
  step = some 0;
  servers_tried = [];
  servers_failed = [];
  retrying = false;
  time_start = some 0;
  time_next = 0;
  trycache = true;
  cname_chain_count = 0;
  cname_parent = none;
  cname_child = none;
}

-- The end of `_get_query`, where no query is reused.
unfoldable pub add_query : Session → List ℕ → ℕ → Outcome (ℕ × Session)
add_query s qname qtype = do
  (id, t) ← get_next_qid s
  done (
    t.allocated,
    record t {
      queries = t.queries ++ (new_query t.allocated id qname qtype ∷ []);
      allocated = suc t.allocated;
    },
  )

abbrev pub taken : Option ℕ → Session → List ℕ → ℕ → Outcome (ℕ × Session)
taken none s qname qtype = add_query s qname qtype
taken (some self) s qname qtype = done (self, s)

unfoldable pub get_query : Session → List ℕ → ℕ → Bool → Outcome (ℕ × Session)
get_query s qname qtype unique =
    let l = latch qname qtype s.queries s.outgoing in
    let shared =
      taken l.query (record s { queries = l.queries; outgoing = l.outgoing }) qname qtype in
    if unique then add_query s qname qtype else shared

-- `_unicast_query`, which `jdns_query` calls in this mode.
unfoldable pub jdns_query : Session → List ℕ → ℕ → Outcome (ℕ × Session)
jdns_query s name qtype = do
  qname ← fix_input name
  (self, t) ← get_query s qname qtype false
  (req_id, u) ← get_next_req_id t
  q ← query_at self u.queries
  done (req_id, set_query u (record q { req_ids = intarray_add q.req_ids req_id }))

-- `_unicast_cancel`, over the step of the query: removed before it did one, else deactivated.
abbrev pub cancel_at : Callbacks → Session → Query → Option ℕ → Session
cancel_at cb s q (some zero) = drop_query s q.self
cancel_at cb s q _ =
    clock_read
      (set_query s (record q { step = none; time_start = some (clock cb s); time_next = 60000 }))

unfoldable pub unicast_cancel : Callbacks → Session → Query → Session
unicast_cancel cb s q = cancel_at cb s q q.step

-- The removal of a possible cname child of `q`.
unfoldable pub cancel_child : Callbacks → Session → Query → Option ℕ → Outcome (Session × Query)
cancel_child cb s q none = done (s, q)
cancel_child cb s q (some child) = do
  c ← query_at child s.queries
  done (
      if length c.req_ids == 0
      then (
        unicast_cancel cb (set_query s (record c { cname_parent = none }))
            (record c { cname_parent = none }),
        record q { cname_child = none },
      )
      else (s, q))

-- What follows where no one else depends on the query.
abbrev pub cancelled : Callbacks → Session × Query → Outcome Session
cancelled cb (s, q) = done (unicast_cancel cb (set_query s q) q)

-- What `jdns_cancel_query` does with the query of the request, whose requests are now `q.req_ids`.
unfoldable pub cancel_rest : Callbacks → Session → Query → Outcome Session
cancel_rest cb s q =
    let acted = cancel_child cb (set_query s q) q q.cname_child >>= cancelled cb in
    if (length q.req_ids == 0) && not (is_some q.cname_parent) then acted else done (set_query s q)

unfoldable pub cancel_request : Callbacks → Session → Query → ℕ → Outcome Session
cancel_request cb s q id =
    remove_if_there q.req_ids id >>= λ left. cancel_rest cb s (record q { req_ids = left })

-- The loop of `jdns_cancel_query`, over the queries still to be looked at.
unfoldable pub cancel_loop : Callbacks → Session → List Query → ℕ → Outcome Session
cancel_loop cb s [] id = done s
cancel_loop cb s (q ∷ qs) id =
    let rest = cancel_loop cb s qs id in
    if has_id q.req_ids id then cancel_request cb s q id else rest

unfoldable pub jdns_cancel_query : Callbacks → Session → ℕ → Outcome Session
jdns_cancel_query cb s id = cancel_loop cb s s.queries id

-- `jdns_next_event`, over the events.
abbrev pub first_event : Session → List Event → Option Event × Session
first_event s [] = (none, s)
first_event s (e ∷ es) = (some e, record s { events = es })

unfoldable pub jdns_next_event : Session → Option Event × Session
jdns_next_event s = first_event s s.events

-- `if(s->shutdown == 0) s->shutdown = 1`
abbrev pub request_shutdown : Shutdown → Shutdown
request_shutdown running = requested
request_shutdown requested = requested
request_shutdown stopped = stopped

unfoldable pub jdns_shutdown : Session → Session
jdns_shutdown s = record s { shutdown = request_shutdown s.shutdown }

unfoldable pub jdns_set_handle_readable : Session → Session
jdns_set_handle_readable s = record s { handle_readable = true }

unfoldable pub jdns_set_handle_writable : Session → Session
jdns_set_handle_writable s = record s { handle_writable = true }
