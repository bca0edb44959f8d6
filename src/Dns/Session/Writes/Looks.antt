-- ===== src/Dns/Session/Writes/Looks.antt =====
-- A single look at a query in `_unicast_do_writes` of iris/irisnet/jdns/jdns.c comes to an end.
use ambrosia.Prelude.{
  ℕ, ◌+◌, ◌-◌, ◌≡◌, refl, sym, subst, Bool, true, false, Option, none, some, List, [], ◌∷◌, ◌++◌,
  length, ltb, ◌==◌, ◌||◌, arith, Bool-cases, inl, inr,
}
use ambrosia.Prelude.Bits.{AreBytes}
use ambrosia.Dns.Memory.{Outcome, done, error, fault, stuck}
use ambrosia.Dns.Compress.{writelabel}
use ambrosia.Dns.Compress.Name.{Wrote}
use ambrosia.Dns.Compress.Total.{writelabel-Ensures}
use ambrosia.Dns.Wire.{short2net}
use ambrosia.Dns.Packet.{Packet, Question}
use ambrosia.Dns.Packet.Export.{
  append_question, append_qsection, append_rrsection, header, jdns_packet_export,
}
use ambrosia.Dns.Packet.Header.{header_size, header-AreBytes}
use ambrosia.Dns.Util.Text.{c_string}
use ambrosia.Dns.Util.Record.{Rr, jdns_rr_copy}
use ambrosia.Dns.Util.Response.{Response, append_answer}
use ambrosia.Dns.Session.{Session, Callbacks, Query, NameServer, CacheItem, clock, clock_read}
use ambrosia.Dns.Session.Cache.{
  add_record, or_new, lower, time_left, is_kind, cache_scan, cache_get_response, not_set,
}
use ambrosia.Dns.Session.Writes.{
  query_packet, queued, queue_packet, start_over, pick_server, is_sending, transmit, with_dns_id,
  give_up, send_now, send_at, send_query, with_cname, with_cached, cached, due, is_waiting,
  write_query,
}
use ambrosia.Dns.Session.Writes.Halts.{
  Halts, Any, Halts-bind, Halts-if, Halts-Ensures, HasIds, jdns_rr_copy-Halts, use_cached-Halts,
}

add_record-Halts : (r : Response) (o : Option Rr) → Halts Any (add_record r o)
unfolding append_answer
add_record-Halts r none = tt
add_record-Halts r (some rr) =
    Halts-bind Any Any (jdns_rr_copy rr) _ (jdns_rr_copy-Halts rr) (λ c h. appended c)
  where
    appended : (c : Rr) → Halts Any (append_answer r c)
    appended c = Halts-bind Any Any (jdns_rr_copy c) _ (jdns_rr_copy-Halts c) (λ c' h. tt)

cache_scan-Halts :
    (qname : List ℕ) (qtype now : ℕ) (cache : List CacheItem) (r : Option Response) (lowest : ℕ)
    → Halts Any (cache_scan qname qtype now cache r lowest)
unfolding cache_scan
cache_scan-Halts qname qtype now [] r lowest = tt
cache_scan-Halts qname qtype now (i ∷ cache) r lowest =
    Halts-if Any (is_kind qname qtype i) _ _
      (Halts-bind Any Any (add_record (or_new r) i.rr) _ (add_record-Halts (or_new r) i.rr)
        (λ r' h. cache_scan-Halts qname qtype now cache (some r') (lower lowest (time_left now i))))
      (cache_scan-Halts qname qtype now cache r lowest)

cache_get_response-Halts :
    (cb : Callbacks) (s : Session) (qname : List ℕ) (qtype : ℕ)
    → Halts Any (cache_get_response cb s qname qtype)
unfolding cache_get_response
cache_get_response-Halts cb s qname qtype =
    Halts-bind Any Any (cache_scan qname qtype (clock cb s) s.cache none not_set) _
      (cache_scan-Halts qname qtype (clock cb s) s.cache none not_set) (λ x h. tt)

question_Halts :
    (p : Packet) (x : Question) → AreBytes x.qname → Halts Any (append_question x (header p) 512 [])
unfolding append_question
question_Halts p x bytes =
    let left = 512 - length (header p) in
    Halts-bind (Wrote x.qname (header p) left) Any (writelabel x.qname (header p) left []) _
      (Halts-Ensures (Wrote x.qname (header p) left) (writelabel x.qname (header p) left []) (
        writelabel-Ensures x.qname (header p) left [] (header-AreBytes p, tt) bytes
          (omega (arith, header_size p))))
      (λ (named, known) h.
        Halts-if Any (ltb 512 (length named + 4)) error
          (done (named ++ (short2net x.qtype ++ short2net x.qclass), known)) tt tt)

export_Halts :
    (q : Query) (recurse : ℕ)
    → AreBytes (c_string q.qname)
    → Halts Any (jdns_packet_export (query_packet q recurse) 512)
unfolding query_packet jdns_packet_export append_qsection append_rrsection
export_Halts q recurse bytes =
    let p = query_packet q recurse in
    let x : Question = record { qname = c_string q.qname; qtype = q.qtype; qclass = 1 } in
    Halts-bind Any Any (append_qsection (x ∷ []) (header p) 512 []) _
      (Halts-bind Any Any (append_question x (header p) 512 []) _ (question_Halts p x bytes)
        (λ y h. tt))
      (λ y h. tt)

queued-Halts :
    (s : Session) (q : Query) (ns : NameServer) (query_send_type : ℕ) (o : Outcome Packet)
    → Halts Any o
    → Halts Any (queued s q ns query_send_type o)
queued-Halts s q ns query_send_type (done p) h = tt
queued-Halts s q ns query_send_type error h = tt
queued-Halts s q ns query_send_type fault h = tt
queued-Halts s q ns query_send_type stuck h = h

transmit-Halts :
    (now : ℕ) (s : Session) (q : Query) (o : Option NameServer)
    → AreBytes (c_string q.qname)
    → Halts Any (transmit now s q o)
unfolding transmit queue_packet
transmit-Halts now s q none bytes = tt
transmit-Halts now s q (some ns) bytes =
    Halts-bind Any Any _ _
      (Halts-if Any (is_sending q.self s.outgoing) (done s) _ tt (
        queued-Halts s q ns 0 (jdns_packet_export (query_packet q 1) 512) (export_Halts q 1 bytes)))
      (λ t h. tt)

start_over_name : (servers : ℕ) (q : Query) → (start_over servers q).qname ≡ q.qname
unfolding start_over
start_over_name servers q = elim (Bool-cases (length q.servers_tried == servers)) [
  | inl all ↦ rw all refl
  | inr some_left ↦ rw some_left refl
]

send_now-Halts :
    (now : ℕ) (s : Session) (q : Query)
    → AreBytes (c_string q.qname)
    → Halts Any (send_now now (s, q))
unfolding send_now
send_now-Halts now s q bytes =
    let ready = start_over (length s.name_servers) q in
    let same = start_over_name (length s.name_servers) q in
    Halts-bind Any Any (transmit now s ready (pick_server ready s.name_servers)) _
      (transmit-Halts now s ready (pick_server ready s.name_servers)
        (subst (λ (n : List ℕ). AreBytes (c_string n)) (sym same) bytes))
      (λ t h. tt)

send_query-Halts :
    (now : ℕ) (s : Session) (q : Query)
    → AreBytes (c_string q.qname)
    → Halts Any (send_query now s q)
unfolding send_query send_at
send_query-Halts now s q bytes = by_step q.step
  where
    by_id : (o : Option ℕ) → Halts Any (send_now now (with_dns_id s q o))
    by_id none = send_now-Halts now _ _ bytes
    by_id (some id) = send_now-Halts now s q bytes

    by_step : (o : Option ℕ) → Halts Any (send_at now s q o)
    by_step none = tt
    by_step (some n) =
        Halts-if Any ((n == 8) || (length s.name_servers == 0)) (done (true, give_up s q)) _ tt
          (by_id q.dns_id)

-- A look at a query comes to an end where there are ids for two more queries and its name is of
-- bytes.
pub write_query-Halts :
    (cb : Callbacks) (now : ℕ) (s : Session) (q : Query)
    → HasIds 2 s
    → AreBytes (c_string q.qname)
    → Halts Any (write_query cb now s q)
unfolding write_query due cached with_cached with_cname
write_query-Halts cb now s q room bytes = Halts-if Any (is_waiting now q) (done (false, s)) _ tt (
    Halts-if Any q.trycache _ _
      (Halts-bind Any Any (cache_get_response cb s q.qname q.qtype) _
        (cache_get_response-Halts cb s q.qname q.qtype) (λ (r, soon) h. from_cache r soon))
      (send_query-Halts now s q bytes))
  where
    from_cname :
        (r : Option Response) (soon : Bool)
        → Halts Any (with_cname now (clock_read (clock_read s)) q (r, soon))
    from_cname none soon = send_query-Halts now (clock_read (clock_read s)) q bytes
    from_cname (some r) soon = use_cached-Halts (clock_read (clock_read s)) q r soon room

    from_cache :
        (r : Option Response) (soon : Bool)
        → Halts Any (with_cached cb now (clock_read s) q (r, soon))
    from_cache none soon =
        Halts-bind Any Any (cache_get_response cb (clock_read s) q.qname 5) _
          (cache_get_response-Halts cb (clock_read s) q.qname 5)
          (λ (r, soon') h. from_cname r soon')
    from_cache (some r) soon = use_cached-Halts (clock_read s) q r soon room
