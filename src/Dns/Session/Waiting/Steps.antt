-- ===== src/Dns/Session/Waiting/Steps.antt =====
-- The requests that wait and those that are told in a step: `_unicast_do_reads` and `jdns_step` of
-- iris/irisnet/jdns/jdns.c.
use ambrosia.Prelude.{
  ℕ, ◌≡◌, refl, sym, subst, Bool, true, Option, none, some, List, [], ◌∷◌, ◌==◌, arith,
}
use ambrosia.Dns.Memory.{Outcome, done, error, fault, stuck}
use ambrosia.Dns.Packet.{Packet, jdns_packet_import}
use ambrosia.Dns.Util.Response.{Response}
use ambrosia.Dns.Session.{
  Session, Callbacks, Query, NameServer, Shutdown, running, requested, stopped, event_shutdown,
  clock, clock_read, query_at, set_query,
}
use ambrosia.Dns.Session.Ids.{intarray_add}
use ambrosia.Dns.Session.Cache.{expire}
use ambrosia.Dns.Session.Cache.Kept.{IsLive, expire-IsLive}
use ambrosia.Dns.Session.Responses.{process_response}
use ambrosia.Dns.Session.Pointers.{query_at-get, query_at-All}
use ambrosia.Dns.Session.Kept.{
  Gives, Gives-bind, Gives-any, Gives-both, Gives-if, IsQueryOf, IsSession, AreQueries-put,
}
use ambrosia.Dns.Session.Writes.{unicast_do_writes}
use ambrosia.Dns.Session.Writes.Rounds.{Keeps, unicast_do_writes-Keeps}
use ambrosia.Dns.Session.Messages.{
  response_of, cache_message, passed_on, mark_failed, process_message, Incoming, owner_of,
  server_of, accept, receive, read_all, unicast_do_reads,
}
use ambrosia.Dns.Session.Messages.Kept.{IsCurrent, query_at-put, owner_of-Stands, receive-IsCurrent}
use ambrosia.Dns.Session.Step.{
  set_timer, next_timer_of, step_running, jdns_step_unicast, at_time, step_now, step_at, jdns_step,
}
use ambrosia.Dns.Session.Waiting.{Holds, IsFit, Holds-set, told, told-append}
use ambrosia.Dns.Session.Waiting.Responses.{HoldsAfter, process_response-Holds}
use ambrosia.Dns.Session.Waiting.Writes.{unicast_do_writes-Holds}

module _ (id n : ℕ) where
  marked-Holds :
      (s : Session) (r r' : Option Response) (nxdomain : Bool) (q : Query) (ns : NameServer)
      → IsSession s
      → query_at q.self s.queries ≡ done q
      → Holds id n s
      → Gives (HoldsAfter id n q.self) (process_response (mark_failed r ns s q) r' nxdomain q.self)
  marked-Holds s (some r) r' nxdomain q ns h there hold =
      process_response-Holds id n s r' nxdomain q h there hold
  marked-Holds s none r' nxdomain q ns h there hold =
      let p : Query = record q { servers_failed = intarray_add q.servers_failed ns.id } in
      let ok = query_at-All (IsQueryOf s.allocated) q.self s.queries q h.0 there in
      process_response-Holds id n (set_query s p) r' nxdomain p
        (AreQueries-put s.allocated p s.queries ok h) (query_at-put 0 p q s.queries there)
        (Holds-set id n s q p hold there (query_at-All IsFit q.self s.queries q hold.0 there) refl)

  process_message-Holds :
      (s : Session) (packet : Packet) (now : ℕ) (q : Query) (ns : NameServer)
      → IsSession s
      → query_at q.self s.queries ≡ done q
      → Holds id n s
      → Gives (Holds id n) (process_message s packet now q ns)
  unfolding process_message
  process_message-Holds s packet now q ns h there hold =
      Gives-if (Holds id n) (packet.opts.opcode == 0) _ (done s)
        (λ e.
          Gives-bind (λ _. Unit {0}) (Holds id n) (response_of packet q) _ (Gives-any _)
            (λ (r, nxdomain) h'.
              Gives-bind (λ _. Unit {0}) (Holds id n)
                (cache_message packet now q r nxdomain s.cache) _ (Gives-any _)
                (λ cache h''.
                  let cached : Session = record s { cache = cache } in
                  Gives-bind (HoldsAfter id n q.self) (Holds id n)
                    (process_response (mark_failed r ns cached q) (passed_on r) nxdomain q.self) _
                    (marked-Holds cached r (passed_on r) nxdomain q ns h there hold)
                    (λ (remove, t) k. k))))
        (λ e. hold)

  accept-Holds :
      (s : Session) (packet : Packet) (now : ℕ) (q : Option Query) (ns : Option NameServer)
      → IsSession s
      → Holds id n s
      → owner_of packet.id s.queries ≡ q
      → Gives (Holds id n) (accept s packet now q ns)
  unfolding accept
  accept-Holds s packet now none ns h hold e = hold
  accept-Holds s packet now (some q) none h hold e = hold
  accept-Holds s packet now (some q) (some ns) h hold e =
      let (m, at) = owner_of-Stands packet.id s.queries q e in
      process_message-Holds s packet now q ns h (query_at-get m s.queries q h.1 at) hold

  receive-Holds :
      (s : Session) (now : ℕ) (m : Incoming) (o : Outcome Packet)
      → IsSession s
      → Holds id n s
      → Gives (Holds id n) (receive s now m o)
  unfolding receive
  receive-Holds s now m (done packet) h hold =
      accept-Holds s packet now (owner_of packet.id s.queries) (server_of m s.name_servers) h hold
        refl
  receive-Holds s now m error h hold = hold
  receive-Holds s now m fault h hold = tt
  receive-Holds s now m stuck h hold = tt

  read_all-Holds :
      (now : ℕ) (incoming : List Incoming) (s : Session)
      → IsCurrent now s
      → Holds id n s
      → Gives (Holds id n) (read_all now incoming s)
  unfolding read_all
  read_all-Holds now [] s h hold = hold
  read_all-Holds now (m ∷ incoming) s h hold =
      let received = receive s now m (jdns_packet_import m.bytes) in
      Gives-bind (λ t. IsCurrent now t × Holds id n t) (Holds id n) received (read_all now incoming)
        (Gives-both (IsCurrent now) (Holds id n) received
          (receive-IsCurrent s now m (jdns_packet_import m.bytes) h)
          (receive-Holds s now m (jdns_packet_import m.bytes) h.0 hold))
        (λ t (k, hold'). read_all-Holds now incoming t k hold')

  unicast_do_reads-Holds :
      (now : ℕ) (incoming : List Incoming) (s : Session)
      → IsCurrent now s
      → Holds id n s
      → Gives (λ (need_read, t). Holds id n t) (unicast_do_reads now incoming s)
  unfolding unicast_do_reads
  unicast_do_reads-Holds now incoming s h hold =
      Gives-if (λ (need_read, t). Holds id n t) s.handle_readable _ (done (true, s))
        (λ e.
          Gives-bind (Holds id n) (λ (need_read, t). Holds id n t) (read_all now incoming s) _
            (read_all-Holds now incoming s h hold) (λ t k. k))
        (λ e. hold)

  timer_Holds :
      (s : Session) (smallest : Option ℕ) → Holds id n s → Holds id n (set_timer s smallest)
  timer_Holds s none h = h
  timer_Holds s (some smallest) h = h

  step_running-Holds :
      (cb : Callbacks) (now : ℕ) (incoming : List Incoming) (s : Session)
      → IsSession s
      → Holds id n s
      → Gives (λ (flags, t). Holds id n t) (step_running cb now incoming s)
  unfolding step_running
  step_running-Holds cb now incoming s h hold =
      let fresh : Session = record s { cache = expire now s.cache } in
      Gives-bind (λ (need_write, t). Keeps fresh t × Holds id n t) (λ (flags, t). Holds id n t)
        (unicast_do_writes cb now fresh) _
        (Gives-both (λ (need_write, t). Keeps fresh t) (λ (need_write, t). Holds id n t)
          (unicast_do_writes cb now fresh) (unicast_do_writes-Keeps cb now fresh h)
          (unicast_do_writes-Holds id n cb now fresh h hold))
        (λ (need_write, t) ((k, same), hold').
          Gives-bind (λ (need_read, u). Holds id n u) (λ (flags, u). Holds id n u)
            (unicast_do_reads now incoming t) _
            (unicast_do_reads-Holds now incoming t
              (k, subst (IsLive now) (sym same) (expire-IsLive now s.cache)) hold')
            (λ (need_read, u) hold''. timer_Holds u (next_timer_of now u) hold''))

  by_shutdown :
      (cb : Callbacks) (incoming : List Incoming) (s : Session) (shutdown : Shutdown)
      → IsSession s
      → Holds id n s
      → Gives (λ (flags, t). Holds id n t) (step_at cb incoming s shutdown)
  unfolding step_at step_now jdns_step_unicast told
  by_shutdown cb incoming s running h hold =
      Gives-bind (λ (flags, t). Holds id n t) (λ (flags, t). Holds id n t)
        (step_running cb (clock cb s) incoming (clock_read s)) (at_time (clock cb s))
        (step_running-Holds cb (clock cb s) incoming (clock_read s) h hold) (λ (flags, t) k. k)
  by_shutdown cb incoming s requested h hold =
      (hold.0, omega (arith, hold.1, told-append id s.events (event_shutdown ∷ [])))
  by_shutdown cb incoming s stopped h hold = hold

  -- A step moves a request from the queries to the events, or leaves it where it is.
  pub jdns_step-Holds :
      (cb : Callbacks) (incoming : List Incoming) (s : Session)
      → IsSession s
      → Holds id n s
      → Gives (λ (flags, t). Holds id n t) (jdns_step cb incoming s)
  unfolding jdns_step
  jdns_step-Holds cb incoming s h hold = by_shutdown cb incoming s s.shutdown h hold
