-- ===== src/Dns/Session/Writes/Sent.antt =====
-- The datagrams that are queued and sent.
use ambrosia.Prelude.{
  ℕ, suc, ◌≡◌, ◌⊎◌, inl, inr, refl, ◌∙◌, ap, Bool, true, false, ◌||◌, not, none, some, List, [],
  ◌∷◌, ◌++◌, append_assoc, length, ◌==◌, if◌then◌else◌, arith, Bool-cases,
}
use ambrosia.Prelude.Search.{All, All-map, Pairwise}
use ambrosia.Dns.Session.Pointers.{Apart}
use ambrosia.Dns.Session.Kept.{IsSession}
use ambrosia.Dns.Session.Cache.Kept.{keep_if-All}
use ambrosia.Dns.Memory.{Outcome, done, error, fault, stuck, Ensures}
use ambrosia.Dns.Packet.{Packet, jdns_packet_import}
use ambrosia.Dns.Packet.Export.{jdns_packet_export}
use ambrosia.Dns.Packet.Header.{IsQuery, IsSame}
use ambrosia.Dns.Packet.RoundTrip.{jdns_packet_export-Ensures}
use ambrosia.Dns.Util.Text.{c_string}
use ambrosia.Dns.Util.Address.{jdns_address_copy}
use ambrosia.Dns.Session.{
  Session, Callbacks, Query, NameServer, Datagram, status_timeout, report, query_at, remove_query,
  drop_query, remove_query_datagrams,
}
use ambrosia.Dns.Session.Writes.{
  query_packet, queued, queue_packet, send_outgoing, send_query, give_up, start_over, send_at,
  send_now, is_open, pick_server, transmit, with_dns_id,
}

-- Nothing is lost, doubled or sent out of order: the datagrams that were taken and those that are
-- still queued are, in this order, the ones before. Nothing is queued just where no write is needed.
abbrev pub InOrder : List Datagram → List Datagram → Bool × Session → Type 0
InOrder written outgoing (need_write, t) =
    (t.written ++ t.outgoing ≡ written ++ outgoing)
    × ((need_write ≡ false) → t.outgoing ≡ [])
    × ((need_write ≡ true) → ¬ (t.outgoing ≡ []))

three_ways :
    (written outgoing : List Datagram) (writable takes : Bool) (x y z : Bool × Session)
    → InOrder written outgoing x
    → InOrder written outgoing y
    → InOrder written outgoing z
    → InOrder written outgoing (if not writable then x else if takes then y else z)
three_ways written outgoing false takes x y z h k l = h
three_ways written outgoing true true x y z h k l = k
three_ways written outgoing true false x y z h k l = l

regrouped :
    (written outgoing : List Datagram) (a : Datagram) (x : Bool × Session)
    → InOrder (written ++ (a ∷ [])) outgoing x
    → InOrder written (a ∷ outgoing) x
regrouped written outgoing a (need_write, t) (order, empty, left) =
    (order ∙ append_assoc written (a ∷ []) outgoing, empty, left)

-- The datagrams that `udp_write` took, then those that stay queued, are the datagrams taken before
-- and those that were queued, each once and in their order. More writes are needed just if some are
-- left.
pub send_outgoing-InOrder :
    (cb : Callbacks) (outgoing : List Datagram) (s : Session)
    → InOrder s.written outgoing (send_outgoing cb outgoing s)
unfolding send_outgoing
send_outgoing-InOrder cb [] s = (refl, λ e. refl, λ e. absurd (ground arith))
send_outgoing-InOrder cb (a ∷ outgoing) s =
    let goes_on : Session = record s { writes = suc s.writes; written = s.written ++ (a ∷ []) } in
    let closed : Session = record s { outgoing = a ∷ outgoing } in
    let refused : Session = record s {
      writes = suc s.writes;
      handle_writable = false;
      outgoing = a ∷ outgoing;
    } in
    three_ways s.written (a ∷ outgoing) s.handle_writable (cb.udp_write s.writes) (true, closed)
      (send_outgoing cb outgoing goes_on) (true, refused)
      (refl, λ e. absurd (ground arith), λ e. λ e'. cc)
      (regrouped s.written outgoing a (send_outgoing cb outgoing goes_on)
        (send_outgoing-InOrder cb outgoing goes_on))
      (refl, λ e. absurd (ground arith), λ e. λ e'. cc)

-- What is queued for a query: a datagram for the name server that reads back as the question, with
-- the packet id.
abbrev pub Asks : Session → Query → NameServer → ℕ → Session → Type 0
Asks s q ns id t =
    (t ≡ s)
    ⊎ ((a : Datagram) × (p : Packet) × (t ≡ record s { outgoing = s.outgoing ++ (a ∷ []) })
        × (a.dest_address ≡ jdns_address_copy ns.address)
        × (a.dest_port ≡ ns.port)
        × (a.query ≡ q.self)
        × (jdns_packet_import a.bytes ≡ done p)
        × (p.id ≡ id)
        × (p.questions ≡ record { qname = c_string q.qname; qtype = q.qtype; qclass = 1 } ∷ []))

queued-Asks :
    (s : Session) (q : Query) (ns : NameServer) (id recurse : ℕ) (o : Outcome Packet)
    → q.dns_id ≡ some id
    → Ensures
        (λ p'.
          (p : Packet) × (jdns_packet_import p'.raw_data ≡ done p)
          × IsSame (query_packet q recurse) p'.raw_data p)
        o
    → Ensures (Asks s q ns id) (queued s q ns 0 o)
unfolding query_packet
queued-Asks s q ns id recurse (done p') given (p, e, same) = inr (
  record {
    handle = s.handle;
    dest_address = jdns_address_copy ns.address;
    dest_port = ns.port;
    bytes = p'.raw_data;
    query = q.self;
    query_send_type = 0;
    ns_id = ns.id;
  },
  p,
  refl,
  refl,
  refl,
  refl,
  e,
  same.same_id ∙ rw given refl,
  same.same_questions,
)
queued-Asks s q ns id recurse error given h = inl refl
queued-Asks s q ns id recurse fault given h = h
queued-Asks s q ns id recurse stuck given h = h

-- For a query with a packet id, whose packet fits the fields of a datagram, _queue_packet does
-- not fault. It queues nothing, or one datagram for the name server that jdns_packet_import
-- reads as the packet id and the one question.
pub queue_packet-Asks :
    (s : Session) (q : Query) (ns : NameServer) (id recurse : ℕ)
    → q.dns_id ≡ some id
    → IsQuery (query_packet q recurse)
    → Ensures (Asks s q ns id) (queue_packet s q ns recurse 0)
unfolding queue_packet
queue_packet-Asks s q ns id recurse given fits =
    queued-Asks s q ns id recurse (jdns_packet_export (query_packet q recurse) 512) given
      (jdns_packet_export-Ensures (query_packet q recurse) 512 fits (omega arith))

query_at_others :
    (self p : ℕ) (qs : List Query)
    → (p == self) ≡ false
    → query_at p (remove_query self qs) ≡ query_at p qs
query_at_others self p [] other = refl
query_at_others self p (q ∷ qs) other = elim (Bool-cases (q.self == self)) [
  | inl hit ↦ let miss : (q.self == p) ≡ false = ground arith in rw (hit, miss) refl
  | inr miss ↦ rw (miss, query_at_others self p qs other) refl
]

query_at_none :
    (self : ℕ) (qs : List Query) → All (λ q. (q.self == self) ≡ false) qs → query_at self qs ≡ fault
query_at_none self [] h = refl
query_at_none self (q ∷ qs) h = rw h.0 (query_at_none self qs h.1)

query_at_removed :
    (self : ℕ) (qs : List Query) → Pairwise Apart qs → query_at self (remove_query self qs) ≡ fault
query_at_removed self [] h = refl
query_at_removed self (q ∷ qs) h = elim (Bool-cases (q.self == self)) [
  | inl hit ↦ rw hit (
      query_at_none self qs
        (All-map (Apart q) (λ x. (x.self == self) ≡ false) (λ x k. ground arith) qs h.0))
  | inr miss ↦ rw (miss, miss) (query_at_removed self qs h.1)
]

-- In a session whose queries have different pointers, 8 transmissions at most and chains of 16
-- at most, an active query that was transmitted 8 times, or without name servers, ends: each of
-- its requests is told of a timeout, once and in order, and nobody else is told; its pointer is
-- gone from the list of queries and from the datagrams that are queued. Every other query stays
-- as it was, the one that waits for its answer as the parent included.
pub send_query-timeout :
    (now n : ℕ) (s : Session) (q : Query)
    → IsSession s
    → q.step ≡ some n
    → ((n == 8) || (length s.name_servers == 0)) ≡ true
    → (t : Session) × (send_query now s q ≡ done (true, t))
      × (t.events ≡ s.events ++ report status_timeout q.req_ids)
      × (query_at q.self t.queries ≡ fault)
      × All (λ a. (a.query == q.self) ≡ false) t.outgoing
      × ((p : ℕ) → (p == q.self) ≡ false → query_at p t.queries ≡ query_at p s.queries)
unfolding send_query send_at give_up drop_query remove_query_datagrams
send_query-timeout now n s q h at_step over = (
  give_up s q,
  ap (send_at now s q) at_step ∙ rw over refl,
  refl,
  query_at_removed q.self s.queries h.1,
  All-map _ (λ a. (a.query == q.self) ≡ false) (λ a k. ground arith) _
      (keep_if-All (λ a. not (a.query == q.self)) s.outgoing),
  λ p other. query_at_others q.self p s.queries other,
)

pick_server-none :
    (q : Query) (servers : List NameServer)
    → All (λ ns. is_open q ns ≡ false) servers
    → pick_server q servers ≡ none
pick_server-none q [] h = refl
pick_server-none q (ns ∷ servers) h = rw (h.0, pick_server-none q servers h.1) refl

-- An active query with a packet id and transmissions left, whose name servers have all been
-- tried or have failed while the number of the tried ones is not that of all, reads through a
-- null pointer.
pub send_query-fault :
    (now n id : ℕ) (s : Session) (q : Query)
    → q.step ≡ some n
    → q.dns_id ≡ some id
    → ((n == 8) || (length s.name_servers == 0)) ≡ false
    → (length q.servers_tried == length s.name_servers) ≡ false
    → All (λ ns. is_open q ns ≡ false) s.name_servers
    → send_query now s q ≡ fault
unfolding send_query send_at send_now start_over transmit
send_query-fault now n id s q at_step given more some_left closed =
    ap (send_at now s q) at_step
    ∙ rw more (
        ap (λ o. send_now now (with_dns_id s q o)) given
        ∙ rw some_left (rw (pick_server-none q s.name_servers closed) refl))
