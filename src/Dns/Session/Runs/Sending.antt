-- ===== src/Dns/Session/Runs/Sending.antt =====
-- Runs of the sending of a query on concrete input, and its theorems there.
use ambrosia.Prelude.{ℕ, ◌≡◌, ◌==◌, refl, true, false, some, [], ◌∷◌, ◌++◌, arith}
use ambrosia.Prelude.Search.{All}
use ambrosia.Dns.Memory.{done, fault, Ensures}
use ambrosia.Dns.Session.{Session, Query, NameServer, status_timeout, report, query_at}
use ambrosia.Dns.Session.Writes.{query_packet, queue_packet, send_query}
use ambrosia.Dns.Session.Writes.Sent.{Asks, queue_packet-Asks, send_query-timeout, send_query-fault}
use ambrosia.Dns.Session.Writes.Turns.{Turn, send_query-Turn}
use ambrosia.Dns.Session.Runs.{served, trying, server, nine}

queue_packet-Asks_example :
    Ensures (Asks served trying server 7) (queue_packet served trying server 1 0)
unfolding query_packet
queue_packet-Asks_example = queue_packet-Asks served trying server 7 1 refl (record {
  small_id = omega arith;
  few_questions = omega arith;
  fitting = (((omega arith, (omega arith, tt)), omega arith, omega arith), tt);
  no_answers = refl;
  no_authority = refl;
  no_additional = refl;
})

abbrev second : NameServer
second = record { id = 1; address = nine; port = 54 }

send_query-Turn_example :
    (t : Session) × (send_query 1000 (record served { name_servers = server ∷ second ∷ [] }) trying
      ≡ done (false, t))
    × Turn 1000 3
        (record served { name_servers = server ∷ second ∷ [] })
        trying
        (server ∷ [])
        second
        []
        t
unfolding query_packet
send_query-Turn_example =
    send_query-Turn 1000 3 (server ∷ []) [] second
      (record served { name_servers = server ∷ second ∷ [] }) trying refl refl refl refl refl refl
      (record {
        small_id = omega arith;
        few_questions = omega arith;
        fitting = (((omega arith, (omega arith, tt)), omega arith, omega arith), tt);
        no_answers = refl;
        no_authority = refl;
        no_additional = refl;
      })

abbrev last : Query
last = record trying { step = some 8 }

abbrev waited : Session
waited = record served { queries = last ∷ [] }

send_query-timeout_example :
    (t : Session) × (send_query 1000 waited last ≡ done (true, t))
    × (t.events ≡ served.events ++ report status_timeout (1 ∷ []))
    × (query_at 0 t.queries ≡ fault)
    × All (λ a. (a.query == 0) ≡ false) t.outgoing
    × ((p : ℕ) → (p == 0) ≡ false → query_at p t.queries ≡ query_at p (last ∷ []))
send_query-timeout_example =
    send_query-timeout 1000 8 waited last (((omega arith, omega arith, omega arith), tt), (tt, tt))
      refl refl

-- Two name servers, of which one was tried and the other has failed.
send_query-fault_example :
    send_query 1000
      (record served { name_servers = server ∷ record server { id = 1; port = 54 } ∷ [] })
      (record trying { servers_failed = 1 ∷ [] })
    ≡ fault
send_query-fault_example =
    send_query-fault 1000 3 7
      (record served { name_servers = server ∷ record server { id = 1; port = 54 } ∷ [] })
      (record trying { servers_failed = 1 ∷ [] }) refl refl refl refl (refl, (refl, tt))
