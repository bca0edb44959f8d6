-- ===== src/Dns/Session/Writes/Turns.antt =====
-- The turns of the name servers in `_unicast_do_writes` of iris/irisnet/jdns/jdns.c.
use ambrosia.Prelude.{
  ℕ, suc, ◌≡◌, inl, inr, refl, sym, ap, ◌∙◌, Bool, true, false, ◌||◌, Option, none, some, List, [],
  ◌∷◌, ◌++◌, length, length-append, ◌==◌, if◌then◌else◌, arith, Bool-cases, subst,
}
use ambrosia.Prelude.Search.{All}
use ambrosia.Dns.Memory.{done}
use ambrosia.Dns.Packet.Header.{IsQuery}
use ambrosia.Dns.Session.{Session, Query, NameServer, put_query, set_query}
use ambrosia.Dns.Session.Ids.{has_id, get_next_dns_id, intarray_add}
use ambrosia.Dns.Session.Writes.Transmits.{start_over-Like}
use ambrosia.Dns.Session.Writes.{
  next_step, query_packet, start_over, is_open, pick_server, scheduled, transmit, with_dns_id,
  send_now, send_at, send_query,
}
use ambrosia.Dns.Session.Writes.Picked.{
  ids, Queues, sent_Queued, pick_server-behind, All-tried, length-ids,
}

-- The name servers tried after the turn of `ns`: none once all have been.
abbrev pub tried_after : List NameServer → NameServer → List NameServer → List ℕ
tried_after before ns [] = []
tried_after before ns (x ∷ after) = ids before ++ (ns.id ∷ [])

abbrev pub is_last : List NameServer → Bool
is_last [] = true
is_last (x ∷ after) = false

start_over-tried :
    (before after : List NameServer) (ns : NameServer) (q : Query)
    → q.servers_tried ≡ ids before ++ (ns.id ∷ [])
    → ((start_over (length (before ++ (ns ∷ after))) q).servers_tried ≡ tried_after before ns after)
      × ((start_over (length (before ++ (ns ∷ after))) q).retrying ≡ q.retrying || is_last after)
unfolding start_over
start_over-tried before [] ns q e =
    let all : (length q.servers_tried == length (before ++ (ns ∷ []))) ≡ true = ground (
      arith,
      ap length e,
      length-append (ids before) (ns.id ∷ []),
      length-ids before,
      length-append before (ns ∷ []),
    ) in
    rw all (refl, or_true q.retrying)
  where
    or_true : (b : Bool) → true ≡ b || true
    or_true true = refl
    or_true false = refl
start_over-tried before (x ∷ after) ns q e =
    let more : (length q.servers_tried == length (before ++ (ns ∷ x ∷ after))) ≡ false = ground (
      arith,
      ap length e,
      length-append (ids before) (ns.id ∷ []),
      length-ids before,
      length-append before (ns ∷ x ∷ after),
    ) in
    rw more (e, or_false q.retrying)
  where
    or_false : (b : Bool) → b ≡ b || false
    or_false true = refl
    or_false false = refl

-- The query after its turn with `ns`, and what is queued.
pub record Turn (now n : ℕ) (s : Session) (q : Query) (before : List NameServer) (ns : NameServer)
    (after : List NameServer) (t : Session) : Type 0 where
  pub written : Query
  pub same_queries : t.queries ≡ put_query written s.queries
  pub same_servers : t.name_servers ≡ s.name_servers
  pub same_events : t.events ≡ s.events
  pub same_self : written.self ≡ q.self
  pub next_step : written.step ≡ some (suc n)
  pub next_tried : written.servers_tried ≡ tried_after before ns after
  pub none_failed : written.servers_failed ≡ []
  pub slower : written.retrying ≡ q.retrying || is_last after
  pub from_now : written.time_start ≡ some now
  pub next_time : written.time_next ≡ (if written.retrying then 1500 else 800)
  pub queued_one : Queues s q ns t

start_over-failed :
    (servers : ℕ) (q : Query) → (start_over servers q).servers_failed ≡ q.servers_failed
unfolding start_over
start_over-failed servers q = elim (Bool-cases (length q.servers_tried == servers)) [
  | inl all ↦ rw all refl
  | inr more ↦ rw more refl
]

module _ (now n : ℕ) (before after : List NameServer) (ns : NameServer) where
  transmit-Turn :
      (s : Session) (q : Query)
      → s.name_servers ≡ before ++ (ns ∷ after)
      → q.step ≡ some n
      → q.servers_tried ≡ ids before
      → q.servers_failed ≡ []
      → IsQuery (query_packet q 1)
      → (t : Session) × (transmit now s q (some ns) ≡ done t) × Turn now n s q before ns after t
  unfolding transmit
  transmit-Turn s q servers step tried failed fits =
      let (u, e, same, queued_) = sent_Queued s q ns fits in
      let p : Query = record q { servers_tried = intarray_add q.servers_tried ns.id } in
      let r = start_over (length s.name_servers) p in
      let like = start_over-Like (length s.name_servers) p in
      let all = start_over-tried before after ns p (ap (λ xs. xs ++ (ns.id ∷ [])) tried) in
      let at : start_over (length (before ++ (ns ∷ after))) p ≡ r =
        ap (λ xs. start_over (length xs) p) (sym servers) in
      (
        set_query u (scheduled now r),
        rw e refl,
        record {
          written = scheduled now r;
          same_queries = ap (λ (v : Session). put_query (scheduled now r) v.queries) same;
          same_servers = ap (λ (v : Session). v.name_servers) same;
          same_events = ap (λ (v : Session). v.events) same;
          same_self = like.same_self;
          next_step = ap next_step like.same_step ∙ ap next_step step;
          next_tried = ap (λ (v : Query). v.servers_tried) (sym at) ∙ all.0;
          none_failed = start_over-failed (length s.name_servers) p ∙ failed;
          slower = ap (λ (v : Query). v.retrying) (sym at) ∙ all.1;
          from_now = refl;
          next_time = refl;
          queued_one = queued_;
        },
      )

  send_now-Turn :
      (s : Session) (q : Query)
      → s.name_servers ≡ before ++ (ns ∷ after)
      → has_id (ids before) ns.id ≡ false
      → q.step ≡ some n
      → q.servers_tried ≡ ids before
      → q.servers_failed ≡ []
      → IsQuery (query_packet q 1)
      → (t : Session) × (send_now now (s, q) ≡ done (false, t)) × Turn now n s q before ns after t
  unfolding send_now start_over
  send_now-Turn s q servers new step tried failed fits =
      let (t, e, turn) = transmit-Turn s q servers step tried failed fits in
      let some_left : (length q.servers_tried == length s.name_servers) ≡ false = ground (
        arith,
        ap length tried,
        length-ids before,
        ap length servers,
        length-append before (ns ∷ after),
      ) in
      let open_ : is_open q ns ≡ true = rw (tried, failed, new) refl in
      let picked : pick_server q s.name_servers ≡ some ns =
        ap (pick_server q) servers
        ∙ pick_server-behind q before after ns
            (subst (λ xs. All (λ b. has_id xs b.id ≡ true) before) (sym tried) (All-tried before))
            open_ in
      (t, rw (some_left, picked, e) refl, turn)

  by_dns_id :
      (s : Session) (q : Query) (dns_id : Option ℕ)
      → s.name_servers ≡ before ++ (ns ∷ after)
      → has_id (ids before) ns.id ≡ false
      → q.step ≡ some n
      → q.servers_tried ≡ ids before
      → q.servers_failed ≡ []
      → IsQuery (query_packet (with_dns_id s q dns_id).1 1)
      → (t : Session) × (send_now now (with_dns_id s q dns_id) ≡ done (false, t))
        × Turn now n s q before ns after t
  unfolding get_next_dns_id
  by_dns_id s q (some id) servers new step tried failed fits =
      send_now-Turn s q servers new step tried failed fits
  by_dns_id s q none servers new step tried failed fits =
      let drawn = get_next_dns_id s in
      let (t, e, turn) =
        send_now-Turn drawn.1 (record q { dns_id = some drawn.0 }) servers new step tried failed
          fits in
      (
        t,
        e,
        record {
          written = turn.written;
          same_queries = turn.same_queries;
          same_servers = turn.same_servers;
          same_events = turn.same_events;
          same_self = turn.same_self;
          next_step = turn.next_step;
          next_tried = turn.next_tried;
          none_failed = turn.none_failed;
          slower = turn.slower;
          from_now = turn.from_now;
          next_time = turn.next_time;
          queued_one = turn.queued_one;
        },
      )

  -- Where none of the name servers of an active query has failed, and the tried ones are those
  -- in front of one whose id is not theirs, a query that was transmitted fewer than 8 times and
  -- whose packet fits the fields of a datagram has its next transmission without a fault, and to
  -- that name server: at most one datagram is queued, for it; the query counts one step more,
  -- its timer starts now with 800 or, once it is retrying, 1500, and the name server is marked
  -- as tried, or behind the last one all are forgotten and the query is retrying. So they take
  -- turns.
  pub send_query-Turn :
      (s : Session) (q : Query)
      → s.name_servers ≡ before ++ (ns ∷ after)
      → has_id (ids before) ns.id ≡ false
      → q.step ≡ some n
      → (n == 8) ≡ false
      → q.servers_tried ≡ ids before
      → q.servers_failed ≡ []
      → IsQuery (query_packet (with_dns_id s q q.dns_id).1 1)
      → (t : Session) × (send_query now s q ≡ done (false, t)) × Turn now n s q before ns after t
  unfolding send_query send_at
  send_query-Turn s q servers new step few tried failed fits =
      let (t, e, turn) = by_dns_id s q q.dns_id servers new step tried failed fits in
      let several : (length s.name_servers == 0) ≡ false =
        ground (arith, ap length servers, length-append before (ns ∷ after)) in
      (t, ap (send_at now s q) step ∙ rw (few, several) e, turn)
