-- ===== src/Dns/Session/Writes/Transmits.antt =====
-- A transmission, and what it writes of a query.
use ambrosia.Prelude.{
  ℕ, suc, ◌≤◌, ◌<◌, ◌≡◌, inl, inr, refl, ap, ◌∙◌, Bool, true, Option, none, some, length, get_elem?,
  ◌==◌, if◌then◌else◌, arith, Bool-cases,
}
use ambrosia.Dns.Memory.{Outcome, done, error, fault, stuck}
use ambrosia.Dns.Packet.{Packet}
use ambrosia.Dns.Packet.Export.{jdns_packet_export}
use ambrosia.Dns.Session.{Session, Query, NameServer, put_query, drop_query}
use ambrosia.Dns.Session.Ids.{intarray_add}
use ambrosia.Dns.Session.Responses.Ends.{next_place}
use ambrosia.Dns.Session.Queries.{left, At-get, left-get, left-remove-At}
use ambrosia.Dns.Session.Kept.{Gives, Gives-bind, Gives-if, IsSession, AreQueries-remove}
use ambrosia.Dns.Session.Writes.{
  query_packet, queued, queue_packet, start_over, is_sending, next_step, scheduled, transmit,
  weight,
}

-- A round at `n` keeps the session and its cache, and leaves less work.
abbrev pub Steps : ℕ → Session → Bool × Session → Type 0
Steps n s (removed, t) =
    IsSession t × (t.cache ≡ s.cache) × (left (next_place removed n) t.queries < left n s.queries)

-- The query that a round looks at.
abbrev pub Seen : ℕ → Session → Query → Type 0
Seen n s q = IsSession s × (get_elem? s.queries n ≡ some q)

pub weight_pos : (q : Query) → 1 ≤ weight q
unfolding weight
weight_pos q = ground arith

pub removed_Steps :
    (n : ℕ) (s : Session) (q : Query) → Seen n s q → Steps n s (true, drop_query s q.self)
unfolding drop_query
removed_Steps n s q (h, e) = (
  AreQueries-remove s.allocated q.self s.queries h,
  refl,
  omega (
    arith,
    left-remove-At n q.self s.queries (At-get n s.queries q e),
    left-get n s.queries q e,
    weight_pos q,
  ),
)

-- Two queries that agree on their pointer, weight, step, requests and parent.
pub record Like (p q : Query) : Type 0 where
  pub same_self : p.self ≡ q.self
  pub same_chain : p.cname_chain_count ≡ q.cname_chain_count
  pub same_cache : p.trycache ≡ q.trycache
  pub same_step : p.step ≡ q.step
  pub same_ids : p.req_ids ≡ q.req_ids
  pub same_parent : p.cname_parent ≡ q.cname_parent

pub Like-refl : (q : Query) → Like q q
Like-refl q = record {
  same_self = refl;
  same_chain = refl;
  same_cache = refl;
  same_step = refl;
  same_ids = refl;
  same_parent = refl;
}

pub start_over-Like : (servers : ℕ) (q : Query) → Like (start_over servers q) q
unfolding start_over
start_over-Like servers q = elim (Bool-cases (length q.servers_tried == servers)) [
  | inl all ↦ rw all (record {
    same_self = refl;
    same_chain = refl;
    same_cache = refl;
    same_step = refl;
    same_ids = refl;
    same_parent = refl;
  })
  | inr more ↦ rw more (Like-refl q)
]

pub Like-weight : (p q : Query) → Like p q → weight p ≡ weight q
unfolding weight
Like-weight p q like = rw (like.same_chain, like.same_cache) refl

pub queued-outgoing :
    (s : Session) (q : Query) (ns : NameServer) (o : Outcome Packet)
    → Gives (λ t. t ≡ record s { outgoing = t.outgoing }) (queued s q ns 0 o)
queued-outgoing s q ns (done packet) = refl
queued-outgoing s q ns error = refl
queued-outgoing s q ns fault = tt
queued-outgoing s q ns stuck = tt

-- A transmission writes the query, with the next step, and nothing else of the queries.
abbrev pub Transmitted : Session → Query → ℕ → Session → Type 0
Transmitted s q n t =
    (p : Query) × (t.queries ≡ put_query p s.queries)
    × (t.allocated ≡ s.allocated)
    × (t.cache ≡ s.cache)
    × (p.self ≡ q.self)
    × (p.cname_chain_count ≡ q.cname_chain_count)
    × (p.trycache ≡ q.trycache)
    × (p.step ≡ some (suc n))
    × (p.req_ids ≡ q.req_ids)
    × (p.cname_parent ≡ q.cname_parent)
    × (t.events ≡ s.events)

pub transmit-Transmitted :
    (now n : ℕ) (s : Session) (q : Query) (ns : Option NameServer)
    → q.step ≡ some n
    → Gives (Transmitted s q n) (transmit now s q ns)
unfolding transmit queue_packet
transmit-Transmitted now n s q none e = tt
transmit-Transmitted now n s q (some ns) e =
    Gives-bind (λ (t : Session). t ≡ record s { outgoing = t.outgoing }) (Transmitted s q n)
      (if is_sending q.self s.outgoing then done s else queue_packet s q ns 1 0) _
      (Gives-if _ (is_sending q.self s.outgoing) (done s) (queue_packet s q ns 1 0) (λ h. refl)
        (λ h. queued-outgoing s q ns (jdns_packet_export (query_packet q 1) 512)))
      (λ t same.
        let tried : Query = record q { servers_tried = intarray_add q.servers_tried ns.id } in
        let p = start_over (length s.name_servers) tried in
        let like = start_over-Like (length s.name_servers) tried in
        (
          scheduled now p,
          ap (λ (u : Session). put_query (scheduled now p) u.queries) same,
          ap (λ (u : Session). u.allocated) same,
          ap (λ (u : Session). u.cache) same,
          like.same_self,
          like.same_chain,
          like.same_cache,
          ap next_step like.same_step ∙ ap next_step e,
          like.same_ids,
          like.same_parent,
          ap (λ (u : Session). u.events) same,
        ))
