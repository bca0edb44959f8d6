-- ===== src/Dns/Session/Writes/Picked.antt =====
-- The name server that is picked for a query, and the datagram that is queued for it.
use ambrosia.Prelude.{
  ℕ, ◌≡◌, ◌⊎◌, inl, inr, refl, Bool, true, false, some, List, [], ◌∷◌, ◌++◌, map, length, ◌==◌,
  if◌then◌else◌, arith, Bool-cases,
}
use ambrosia.Prelude.Search.{All, All-map}
use ambrosia.Dns.Memory.{Outcome, done, error, fault, stuck, Ensures}
use ambrosia.Dns.Packet.{Packet}
use ambrosia.Dns.Packet.Export.{jdns_packet_export}
use ambrosia.Dns.Packet.Header.{IsQuery}
use ambrosia.Dns.Packet.RoundTrip.{jdns_packet_export-Ensures}
use ambrosia.Dns.Util.Address.{jdns_address_copy}
use ambrosia.Dns.Session.{Session, Query, NameServer, Datagram}
use ambrosia.Dns.Session.Ids.{has_id}
use ambrosia.Dns.Session.Writes.{
  query_packet, queued, queue_packet, is_open, pick_server, is_sending,
}

abbrev pub ids : List NameServer → List ℕ
ids servers = map (λ ns. ns.id) servers

-- What is queued, if anything: a datagram of the query for the name server.
abbrev pub Queues : Session → Query → NameServer → Session → Type 0
Queues s q ns t =
    (t.outgoing ≡ s.outgoing)
    ⊎ ((a : Datagram) × (t.outgoing ≡ s.outgoing ++ (a ∷ []))
        × (a.dest_address ≡ jdns_address_copy ns.address)
        × (a.dest_port ≡ ns.port)
        × (a.query ≡ q.self)
        × (a.ns_id ≡ ns.id))

abbrev Queued : Session → Query → NameServer → Outcome Session → Type 0
Queued s q ns m =
    (t : Session) × (m ≡ done t) × (t ≡ record s { outgoing = t.outgoing }) × Queues s q ns t

queued-Queued :
    (P : Packet → Type 0) (s : Session) (q : Query) (ns : NameServer) (o : Outcome Packet)
    → Ensures P o
    → Queued s q ns (queued s q ns 0 o)
queued-Queued P s q ns (done p) h =
    let a : Datagram = record {
      handle = s.handle;
      dest_address = jdns_address_copy ns.address;
      dest_port = ns.port;
      bytes = p.raw_data;
      query = q.self;
      query_send_type = 0;
      ns_id = ns.id;
    } in
    (
      record s { outgoing = s.outgoing ++ (a ∷ []) },
      refl,
      refl,
      inr (a, refl, refl, refl, refl, refl),
    )
queued-Queued P s q ns error h = (s, refl, refl, inl refl)
queued-Queued P s q ns fault h = absurd h
queued-Queued P s q ns stuck h = absurd h

pub sent_Queued :
    (s : Session) (q : Query) (ns : NameServer)
    → IsQuery (query_packet q 1)
    → Queued s q ns (if is_sending q.self s.outgoing then done s else queue_packet s q ns 1 0)
unfolding queue_packet
sent_Queued s q ns fits = elim (Bool-cases (is_sending q.self s.outgoing)) [
  | inl sending ↦ rw sending (s, refl, refl, inl refl)
  | inr idle ↦ rw idle (
      queued-Queued _ s q ns (jdns_packet_export (query_packet q 1) 512)
        (jdns_packet_export-Ensures (query_packet q 1) 512 fits (omega arith)))
]

pub pick_server-behind :
    (q : Query) (before after : List NameServer) (ns : NameServer)
    → All (λ b. has_id q.servers_tried b.id ≡ true) before
    → is_open q ns ≡ true
    → pick_server q (before ++ (ns ∷ after)) ≡ some ns
pick_server-behind q [] after ns h open_ = rw open_ refl
pick_server-behind q (b ∷ before) after ns h open_ =
    let tried = h.0 in rw tried (pick_server-behind q before after ns h.1 open_)

pub All-tried : (before : List NameServer) → All (λ b. has_id (ids before) b.id ≡ true) before
All-tried [] = tt
All-tried (b ∷ before) =
    let first : (b.id == b.id) ≡ true = ground arith in
    (
      rw first refl,
      All-map (λ c. has_id (ids before) c.id ≡ true) (λ c. has_id (ids (b ∷ before)) c.id ≡ true)
          (λ c h. behind (b.id == c.id) h) before (All-tried before),
    )
  where
    behind : {rest : Bool} (here_ : Bool) → rest ≡ true → (if here_ then true else rest) ≡ true
    behind true h = refl
    behind false h = h

pub length-ids : (servers : List NameServer) → length (ids servers) ≡ length servers
length-ids [] = refl
length-ids (ns ∷ servers) = omega (arith, length-ids servers)
