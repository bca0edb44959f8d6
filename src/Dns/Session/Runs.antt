-- ===== src/Dns/Session/Runs.antt =====
-- Runs of a session on concrete input, and its theorems there.
mod Sending
use ambrosia.Prelude.{
  ℕ, ◌+◌, ◌≤◌, if◌then◌else◌, ◌≡◌, ◌≢◌, ◌⊎◌, ◌==◌, refl, Bool, true, false, none, some, List, [],
  ◌∷◌, ◌++◌, arith,
}
use ambrosia.Dns.Memory.{Outcome, done, fault, stuck, Ensures}
use ambrosia.Dns.Util.Address.{Address, v4}
use ambrosia.Dns.Util.Record.{Rr, jdns_rr_copy}
use ambrosia.Dns.Util.Response.{jdns_response_new}
use ambrosia.Dns.Session.{
  Session, Callbacks, Query, NameServer, CacheItem, Event, event_response, remove_query_datagrams,
  drop_query, status_timeout, jdns_session_new, jdns_init_unicast, report, query_at,
}
use ambrosia.Dns.Session.Text.{fix_input}
use ambrosia.Dns.Session.Text.Fixed.{IsFixed, fix_input-IsFixed}
use ambrosia.Dns.Session.Ids.{
  next_id, int_wrap, get_next_qid, get_next_req_id, get_next_name_server_id,
}
use ambrosia.Dns.Session.Ids.Fresh.{Fresh, query_ids, server_ids, get_next_ids-Fresh}
use ambrosia.Dns.Session.Requests.{
  jdns_query, jdns_next_event, jdns_cancel_query, cancel_loop, cancel_request, cancel_rest,
  cancel_child, unicast_cancel, get_query, add_query, latch, new_query,
}
use ambrosia.Dns.Session.Servers.{jdns_set_nameservers}
use ambrosia.Dns.Session.Servers.Exact.{Exactly, jdns_set_nameservers-Exactly}
use ambrosia.Dns.Session.Messages.{unicast_do_reads}
use ambrosia.Dns.Session.Cache.{cache_scan, expire, cache_get_response, cache_remove_all_of_kind}
use ambrosia.Dns.Session.Cache.Found.{get-cache_answers}
use ambrosia.Dns.Session.Messages.{cache_answers}
use ambrosia.Dns.Session.Kept.{Gives, IsSession}
use ambrosia.Dns.Session.Responses.{process_response}
use ambrosia.Dns.Session.Responses.Answers.{TellsIf}
use ambrosia.Dns.Session.Responses.Returns.{process_response-Returns}
use ambrosia.Dns.Session.Writes.{
  query_packet, queue_packet, send_query, write_query, write_queries, work, weight,
  unicast_do_writes, due, cached, with_cached, with_cname, send_at, give_up, send_outgoing,
}
use ambrosia.Dns.Session.Writes.Sent.{Asks, queue_packet-Asks, send_query-timeout, send_query-fault}
use ambrosia.Dns.Session.Writes.Ends.{Stalls, no_round, one_more, write_queries_end}
use ambrosia.Dns.Session.Writes.Turns.{Turn, send_query-Turn}
use ambrosia.Dns.Session.Step.{
  Flags, next_timer_of, query_timer, cache_timer, step_at, step_now, step_running,
  jdns_step_unicast, jdns_step,
}
use ambrosia.Dns.Session.Step.Kept.{jdns_step-IsCurrent}
use ambrosia.Dns.Session.Messages.Kept.{IsCurrent}
use ambrosia.Dns.Session.Step.Timer.{IsTimed, jdns_step-IsTimed}
use ambrosia.Dns.Session.Step.Reachable.{queries, starts, goes_on, Reachable-IsSession}
use ambrosia.Dns.Session.Waiting.{waiting, told, count}
use ambrosia.Dns.Session.Waiting.Asked.{jdns_query-waiting}
use ambrosia.Dns.Session.Waiting.History
use ambrosia.Dns.Session.Waiting.History.{
  asks, steps, takes, cancels, History-accounts, History-bounds,
}

abbrev callbacks : Callbacks
callbacks = record { time_now = λ n. 1000 + n; udp_write = λ n. true }

abbrev opened : Session
opened = record (jdns_session_new 7) { handle = 3; port = 53 }

-- The name `a.`, of type A.
abbrev asking : Query
asking = record (new_query 0 0 (b'a' ∷ b'.' ∷ []) 1) { req_ids = 1 ∷ [] }

abbrev asked : Session
asked = record opened { next_qid = 1; next_req_id = 2; allocated = 1; queries = asking ∷ [] }

asked_first : jdns_query opened (b'a' ∷ []) 1 ≡ done (1, asked)
unfolding jdns_query fix_input get_query latch add_query get_next_qid get_next_req_id next_id
    int_wrap jdns_session_new
asked_first = refl

Reachable-IsSession_example : IsSession asked
unfolding jdns_init_unicast jdns_session_new
Reachable-IsSession_example =
    Reachable-IsSession callbacks asked
      (goes_on (starts 7 53 (some 3) refl) (queries {name = b'a' ∷ []} {qtype = 1} asked_first))

write_queries_end_example :
    (1 ≤ 35)
    × (write_queries callbacks 1000 100 0 asked ≡ write_queries callbacks 1000 36 0 asked)
    × ((write_queries callbacks 1000 100 0 asked ≢ stuck) ⊎ Stalls callbacks 1000 0 asked)
unfolding jdns_session_new work weight write_query due cached cache_get_response cache_scan
    with_cached with_cname send_query send_at
write_queries_end_example =
    write_queries_end callbacks 1000 100 1 0 asked _
      (((omega arith, omega arith, omega arith), tt), (tt, tt)) (omega arith)
      (one_more asking true _ no_round refl refl)

process_response-Returns_example :
    (x : Bool × Session) × (process_response asked (some jdns_response_new) true 0 ≡ done x)
    × TellsIf asked (1 ∷ []) x
unfolding jdns_session_new
process_response-Returns_example =
    process_response-Returns asked (some jdns_response_new) true asking
      (((omega arith, omega arith, omega arith), tt), (tt, tt)) (omega arith, omega arith) refl tt
      (record { whole_answers = tt; whole_authority = tt; whole_additional = tt })

abbrev emptied : Session
emptied = record asked { queries = [] }

cancelled_first : jdns_cancel_query callbacks asked 1 ≡ done emptied
unfolding jdns_session_new jdns_cancel_query cancel_loop cancel_request cancel_rest unicast_cancel
    drop_query cancel_child remove_query_datagrams
cancelled_first = refl

-- One request, which is cancelled.
History-bounds_example : (waiting 1 [] + told 1 []) + told 1 [] ≤ count 1 (1 ∷ [])
unfolding jdns_init_unicast jdns_session_new
History-bounds_example =
    History-bounds callbacks
      (cancels (asks (b'a' ∷ []) 1 (History.starts 7 53 (some 3) refl) asked_first) cancelled_first)
      1

jdns_query-waiting_example :
    (id : ℕ) × (t : Session) × (jdns_query asked (b'b' ∷ []) 1 ≡ done (id, t))
    × (waiting id (asking ∷ []) ≡ 0)
    × (1 ≤ id)
    × (t.events ≡ [])
    × ((other : ℕ)
        → waiting other t.queries ≡ waiting other (asking ∷ []) + (if id == other then 1 else 0))
unfolding jdns_session_new
jdns_query-waiting_example =
    jdns_query-waiting asked b'b' [] 1 (((omega arith, omega arith, omega arith), tt), (tt, tt))
      ((tt, tt), tt)
      (record {
        qid_fits = omega arith;
        req_id_from = omega arith;
        req_id_fits = omega arith;
        server_id_fits = omega arith;
        few_queries = omega arith;
        few_requests = omega arith;
        few_servers = omega arith;
      })
      refl

-- Without name servers the step gives up, and tells the request.
abbrev timed_out : Event
timed_out = event_response 1 status_timeout none

abbrev stepped : Session
stepped = record asked { queries = []; events = timed_out ∷ []; readings = 3; last_time = 1000 }

abbrev flags : Flags
flags = record { step_timer = false; step_handle = true }

step_gives_up : jdns_step callbacks [] asked ≡ done (flags, stepped)
unfolding jdns_session_new jdns_step step_at step_now jdns_step_unicast step_running
    unicast_do_writes write_queries write_query due cached with_cached with_cname send_query send_at
    give_up drop_query report send_outgoing unicast_do_reads next_timer_of query_timer cache_timer
    expire cache_get_response cache_scan remove_query_datagrams work weight
step_gives_up = refl

takes_it : jdns_next_event stepped ≡ (some timed_out, record stepped { events = [] })
unfolding jdns_next_event jdns_session_new
takes_it = refl

-- One request, a step, and its event.
History-accounts_example : (waiting 1 [] + told 1 []) + told 1 (timed_out ∷ []) ≡ count 1 (1 ∷ [])
unfolding jdns_init_unicast jdns_session_new
History-accounts_example =
    History-accounts callbacks
      (takes
        (steps [] flags (asks (b'a' ∷ []) 1 (History.starts 7 53 (some 3) refl) asked_first)
          step_gives_up)
        takes_it)
      1 refl

abbrev pub nine : Address
nine = record { addr = v4 9; c_str = [] }

abbrev pub server : NameServer
server = record { id = 0; address = nine; port = 53 }

-- A query with its packet id, that server 0 was tried for.
abbrev pub trying : Query
trying = record asking { dns_id = some 7; step = some 3; servers_tried = 0 ∷ [] }

abbrev pub served : Session
served = record asked { name_servers = server ∷ []; queries = trying ∷ []; next_name_server_id = 1 }

jdns_set_nameservers-Exactly_example :
    Ensures
      (Exactly (record { address = nine; port = 5353 } ∷ []) served)
      (jdns_set_nameservers served (record { address = nine; port = 5353 } ∷ []))
unfolding jdns_session_new
jdns_set_nameservers-Exactly_example =
    jdns_set_nameservers-Exactly served (record { address = nine; port = 5353 }) []
      ((omega arith, omega arith), tt) (omega arith) (omega arith) (tt, tt)

abbrev rr : Rr
rr = record {
  owner = some (b'a' ∷ b'.' ∷ []);
  ttl = 300;
  type = some 1;
  qclass = 0;
  rdlength = 0;
  rdata = [];
  known = none;
}

get-cache_answers_example :
    (cache' : List CacheItem) × (soon : Bool) × (cache_answers
        (b'a' ∷ b'.' ∷ [])
        1000
        (rr ∷ [])
        (cache_remove_all_of_kind (b'a' ∷ b'.' ∷ []) 1 [])
      ≡ done cache')
    × (cache_get_response callbacks (record asked { cache = cache' }) (b'a' ∷ b'.' ∷ []) 1
        ≡ done (
          some (record {
            answer_records = rr ∷ [];
            authority_records = [];
            additional_records = [];
          }),
          soon,
        ))
unfolding jdns_rr_copy
get-cache_answers_example =
    get-cache_answers callbacks asked (b'a' ∷ b'.' ∷ []) 1 1000 rr [] [] ((refl, refl, refl), tt)
      refl

jdns_step-IsTimed_example : Gives (IsTimed 1000) (jdns_step callbacks [] served)
unfolding jdns_session_new
jdns_step-IsTimed_example = jdns_step-IsTimed callbacks [] served refl

jdns_step-IsCurrent_example : Gives (λ (flags, t). IsCurrent 1000 t) (jdns_step callbacks [] served)
unfolding jdns_session_new
jdns_step-IsCurrent_example =
    jdns_step-IsCurrent callbacks [] served
      (((omega arith, omega arith, omega arith), tt), (tt, tt)) refl

fix_input-IsFixed_example :
    Ensures IsFixed (fix_input (b'a' ∷ [])) × ¬ (fix_input (b'a' ∷ []) ≡ Outcome.error)
fix_input-IsFixed_example = fix_input-IsFixed b'a' [] refl
