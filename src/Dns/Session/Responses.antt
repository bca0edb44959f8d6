-- ===== src/Dns/Session/Responses.antt =====
-- What a response does to a query: `_process_response` of iris/irisnet/jdns/jdns.c.
pub mod Ends
pub mod Still
pub mod Answers
pub mod Kept
pub mod Told
pub mod Copies
pub mod Returns
use ambrosia.Prelude.{
  ℕ, zero, suc, ◌+◌, ◌≡◌, ◌⊎◌, inl, inr, refl, Bool, true, false, ◌&&◌, not, Option, none, some,
  List, [], ◌∷◌, ◌++◌, length, leb, ◌==◌, if◌then◌else◌, arith, Bool-cases,
}
use ambrosia.Dns.Memory.{Outcome, done, fault, ◌>>=◌}
use ambrosia.Dns.Util.Record.{Rr, Known, name}
use ambrosia.Dns.Util.Response.{Response, jdns_response_copy}
use ambrosia.Dns.Session.{
  Session, Query, NameServer, Event, event_response, status_success, status_nxdomain, status_error,
  report, append_events, query_at, set_query, remove_query, is_num, is_some,
}
use ambrosia.Dns.Session.Ids.{has_id}
use ambrosia.Dns.Session.Requests.{get_query}

-- The loops that report success, each event with a copy of the response.
unfoldable pub report_copies : Response → List ℕ → Outcome (List Event)
report_copies r [] = done []
report_copies r (id ∷ ids) = do
  c ← jdns_response_copy r
  es ← report_copies r ids
  done (event_response id status_success (some c) ∷ es)

-- `// report error to parent` and `// report to parent`, over the events for a list of requests.
unfoldable pub tell_parent : (List ℕ → Outcome (List Event)) → Option ℕ → Session → Outcome Session
tell_parent events none s = done s
tell_parent events (some parent) s = do
  cq ← query_at parent s.queries
  es ← events cq.req_ids
  done (record s { events = s.events ++ es; queries = remove_query parent s.queries })

abbrev pub report_error : List ℕ → Outcome (List Event)
report_error ids = done (report status_error ids)

abbrev pub report_nxdomain : List ℕ → Outcome (List Event)
report_nxdomain ids = done (report status_nxdomain ids)

-- A result that ends the query: its requests are told, then the parent's; the return is 1.
unfoldable pub finish :
    (List ℕ → Outcome (List Event))
    → (List ℕ → Outcome (List Event))
    → Session
    → Query
    → Outcome (Bool × Session)
finish own others s q = do
  es ← own q.req_ids
  t ← tell_parent others q.cname_parent (append_events s es)
  done (true, t)

abbrev pub all_errored : List NameServer → Query → Bool
all_errored [] q = true
all_errored (ns ∷ servers) q =
    let rest = all_errored servers q in if has_id q.servers_failed ns.id then rest else false

-- `r->answerRecords[0]->data.name` of the only answer, where that is a CNAME and no CNAME was asked
-- for.
abbrev pub lone_cname : List Rr → ℕ → Option (Option Known)
lone_cname (rr ∷ []) qtype = if is_num rr.type 5 && not (qtype == 5) then some rr.known else none
lone_cname _ qtype = none

abbrev pub target : Option Known → Outcome (List ℕ)
target (some (name n)) = done n
target _ = fault

-- The new query as the next of the chain of `q`.
abbrev pub chained : Query → Query → ℕ → Query
chained new_q q parent = record new_q {
  cname_chain_count = suc q.cname_chain_count;
  cname_parent = some parent;
}

-- The new query takes the place of `q` as the parent's child, or becomes the child of `q`.
unfoldable pub adopt_for : Session → Query → Query → Option ℕ → Outcome Session
adopt_for s q new_q (some parent) = do
  p ← query_at parent (set_query s (chained new_q q parent)).queries
  done (
      set_query (set_query s (chained new_q q parent)) (record p { cname_child = some new_q.self }))
adopt_for s q new_q none = done (
    set_query (set_query s (chained new_q q q.self))
      (record q { cname_child = some new_q.self; time_start = none; dns_id = none }))

unfoldable pub adopt : Session → Query → ℕ → Outcome Session
adopt s q child = do new_q ← query_at child s.queries; adopt_for s q new_q q.cname_parent

-- From `if(q->cname_child)` on.
unfoldable pub succeed : Session → Response → ℕ → Outcome (Bool × Session)
succeed s r self = do
  q ← query_at self s.queries
  let told = finish (report_copies r) (report_copies r) s q
  (if is_some q.cname_child then done (false, s) else told)

-- A query for the target of the CNAME.
unfoldable pub follow : Session → Response → Query → Option Known → Outcome (Bool × Session)
follow s r q known = do
  qname ← target known
  (child, t) ← get_query s qname q.qtype true
  u ← adopt t q child
  succeed u r q.self

unfoldable pub answer_for :
    Session → Response → Query → Option (Option Known) → Outcome (Bool × Session)
answer_for s r q none = succeed s r q.self
answer_for s r q (some known) =
    let followed = follow s r q known in
    if leb 16 q.cname_chain_count then finish report_error report_error s q else followed

-- A response to `q` that is neither an error nor that the name does not exist.
unfoldable pub process_answer : Session → Response → Query → Outcome (Bool × Session)
process_answer s r q = answer_for s r q (lone_cname r.answer_records q.qtype)

unfoldable pub respond : Session → Option Response → Bool → Query → Outcome (Bool × Session)
respond s none nxdomain q =
    if all_errored s.name_servers q then finish report_error report_error s q else done (false, s)
respond s (some r) nxdomain q =
    if nxdomain then finish report_nxdomain report_error s q else process_answer s r q

-- The query is given by its pointer; the value is whether it should be deleted.
unfoldable pub process_response : Session → Option Response → Bool → ℕ → Outcome (Bool × Session)
process_response s r nxdomain self = do q ← query_at self s.queries; respond s r nxdomain q
