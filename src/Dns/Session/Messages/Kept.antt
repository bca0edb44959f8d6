-- ===== src/Dns/Session/Messages/Kept.antt =====
-- What the packets that arrive keep of a session and its cache.
use ambrosia.Prelude.{
  ℕ, suc, ◌≡◌, inl, inr, refl, sym, ◌∙◌, subst, Bool, true, false, ◌||◌, not, Option, none, some,
  List, [], ◌∷◌, get_elem?, ◌==◌, if◌then◌else◌, arith, Bool-cases,
}
use ambrosia.Dns.Memory.{Outcome, done, error, fault, stuck}
use ambrosia.Dns.Packet.{Packet, jdns_packet_import}
use ambrosia.Dns.Util.Record.{Rr}
use ambrosia.Dns.Util.Response.{Response}
use ambrosia.Dns.Session.{
  Session, Query, NameServer, CacheItem, set_query, drop_query, query_at, put_query, is_num,
}
use ambrosia.Dns.Session.Ids.{intarray_add}
use ambrosia.Dns.Session.Cache.{cache_add, cache_remove_all_of_kind, is_kind}
use ambrosia.Dns.Session.Cache.Kept.{IsLive, All-keep_if, cache_add-IsLive}
use ambrosia.Dns.Session.Responses.{process_response}
use ambrosia.Dns.Session.Queries.{At, At-get, At-put_query}
use ambrosia.Dns.Session.Pointers.{query_at-get, query_at-All}
use ambrosia.Dns.Session.Kept.{
  Gives, Gives-bind, Gives-any, Gives-map, Gives-given, Gives-if, IsQueryOf, IsSession,
  AreQueries-put, AreQueries-remove,
}
use ambrosia.Dns.Session.Responses.Kept.{process_response-Ends}
use ambrosia.Dns.Session.Messages.{
  response_of, cache_answers, cache_owned, cache_additional, answer_section_ok, cache_response,
  cache_nxdomain, cache_message, passed_on, mark_failed, process_message, Incoming, owner_of,
  server_of, accept, receive, read_all, unicast_do_reads,
}

-- The session is as it should be, and so is its cache: each item is new or has not expired.
abbrev pub IsCurrent : ℕ → Session → Type 0
IsCurrent now s = IsSession s × IsLive now s.cache

added-IsLive :
    (qname : List ℕ) (qtype : Option ℕ) (now ttl : ℕ) (rr : Option Rr) (cache : List CacheItem)
    → IsLive now cache
    → Gives (IsLive now) (cache_add qname qtype now ttl rr cache)
added-IsLive qname qtype now ttl rr cache h =
    Gives-map (cache_add qname qtype now ttl rr cache)
      (λ c e. cache_add-IsLive qname qtype now ttl rr cache c h e) (Gives-given _)

answers-IsLive :
    (qname : List ℕ) (now : ℕ) (rs : List Rr) (cache : List CacheItem)
    → IsLive now cache
    → Gives (IsLive now) (cache_answers qname now rs cache)
unfolding cache_answers
answers-IsLive qname now [] cache h = h
answers-IsLive qname now (rr ∷ rs) cache h =
    Gives-bind (IsLive now) (IsLive now) (cache_add qname rr.type now rr.ttl (some rr) cache)
      (cache_answers qname now rs) (added-IsLive qname rr.type now rr.ttl (some rr) cache h)
      (answers-IsLive qname now rs)

owned-IsLive :
    (now : ℕ) (rr : Rr) (owner : Option (List ℕ)) (cache : List CacheItem)
    → IsLive now cache
    → Gives (IsLive now) (elim owner [
      | some n ↦ cache_add n rr.type now rr.ttl (some rr) cache
      | none ↦ if rr.ttl == 0 then done cache else fault
    ])
owned-IsLive now rr (some n) cache h = added-IsLive n rr.type now rr.ttl (some rr) cache h
owned-IsLive now rr none cache h =
    Gives-if (IsLive now) (rr.ttl == 0) (done cache) fault (λ e. h) (λ e. tt)

additional-IsLive :
    (now : ℕ) (rs : List Rr) (cache : List CacheItem)
    → IsLive now cache
    → Gives (IsLive now) (cache_additional now rs cache)
unfolding cache_additional
additional-IsLive now [] cache h = h
additional-IsLive now (rr ∷ rs) cache h =
    Gives-bind (IsLive now) (IsLive now) (cache_owned now rr cache) (cache_additional now rs)
      (owned-IsLive now rr rr.owner cache h) (additional-IsLive now rs)

cleared-IsLive :
    (now : ℕ) (q : Query) (cache : List CacheItem)
    → IsLive now cache
    → IsLive now (cache_remove_all_of_kind q.qname q.qtype cache)
unfolding cache_remove_all_of_kind
cleared-IsLive now q cache h = All-keep_if _ (λ i. not (is_kind q.qname q.qtype i)) cache h

message-IsLive :
    (packet : Packet) (now : ℕ) (q : Query) (r : Option Response) (nxdomain : Bool)
    (cache : List CacheItem)
    → IsLive now cache
    → Gives (IsLive now) (cache_message packet now q r nxdomain cache)
unfolding cache_message cache_nxdomain cache_response
message-IsLive packet now q none nxdomain cache h = h
message-IsLive packet now q (some r) true cache h =
    Gives-if (IsLive now) (q.qtype == 255) (done cache) _ (λ e. h)
      (λ e. added-IsLive q.qname (some q.qtype) now 60 none _ (cleared-IsLive now q cache h))
message-IsLive packet now q (some r) false cache h =
    let whole = not (packet.opts.tc == 1) in
    let cleared = cache_remove_all_of_kind q.qname q.qtype cache in
    Gives-bind (IsLive now) (IsLive now)
      (if whole || answer_section_ok packet
        then cache_answers q.qname now r.answer_records cleared
        else done cleared)
      _
      (Gives-if (IsLive now) (whole || answer_section_ok packet) _ (done cleared)
        (λ e. answers-IsLive q.qname now r.answer_records cleared (cleared-IsLive now q cache h))
        (λ e. cleared-IsLive now q cache h))
      (λ c h'.
        Gives-if (IsLive now) whole (cache_additional now r.additional_records c) (done c)
          (λ e. additional-IsLive now r.additional_records c h') (λ e. h'))

pub query_at-put :
    (n : ℕ) (q p : Query) (qs : List Query)
    → query_at q.self qs ≡ done p
    → query_at q.self (put_query q qs) ≡ done q
query_at-put n q p [] e = absurd (ground arith)
query_at-put n q p (x ∷ qs) e = elim (Bool-cases (x.self == q.self)) [
  | inl hit ↦ let same : (q.self == q.self) ≡ true = ground arith in rw hit (rw same refl)
  | inr miss ↦ rw miss (rw (miss, query_at-put n q p qs (rw miss at e)) refl)
]

-- A query of the session, where it stands.
abbrev Stands : ℕ → Session → Query → Type 0
Stands n s q = (query_at q.self s.queries ≡ done q) × At n q.self s.queries

abbrev Responded : Session → Query → Bool × Session → Type 0
Responded s q (remove, t) = IsSession t × (t.cache ≡ s.cache)

responded :
    (n : ℕ) (s : Session) (r : Option Response) (nxdomain : Bool) (q : Query)
    → IsSession s
    → Stands n s q
    → Gives (Responded s q) (process_response s r nxdomain q.self)
responded n s r nxdomain q h (there, place) =
    Gives-map (process_response s r nxdomain q.self) (λ (remove, t) (k, same, less). (k, same))
      (process_response-Ends n s r nxdomain q h there place)

marked-Responded :
    (n : ℕ) (s : Session) (r r' : Option Response) (nxdomain : Bool) (q : Query) (ns : NameServer)
    → IsSession s
    → Stands n s q
    → Gives (Responded s q) (process_response (mark_failed r ns s q) r' nxdomain q.self)
marked-Responded n s (some r) r' nxdomain q ns h stands = responded n s r' nxdomain q h stands
marked-Responded n s none r' nxdomain q ns h (there, place) =
    let p : Query = record q { servers_failed = intarray_add q.servers_failed ns.id } in
    let ok = query_at-All (IsQueryOf s.allocated) q.self s.queries q h.0 there in
    responded n (set_query s p) r' nxdomain p (AreQueries-put s.allocated p s.queries ok h)
      (query_at-put n p q s.queries there, At-put_query n q.self p s.queries place)

removed_or_not :
    (remove : Bool) (t : Session) (self : ℕ)
    → IsSession t
    → IsSession (if remove then drop_query t self else t)
unfolding drop_query
removed_or_not true t self h = AreQueries-remove t.allocated self t.queries h
removed_or_not false t self h = h

same_cache :
    (remove : Bool) (t : Session) (self : ℕ)
    → (if remove then drop_query t self else t).cache ≡ t.cache
unfolding drop_query
same_cache true t self = refl
same_cache false t self = refl

process_message-IsCurrent :
    (n : ℕ) (s : Session) (packet : Packet) (now : ℕ) (q : Query) (ns : NameServer)
    → IsCurrent now s
    → Stands n s q
    → Gives (IsCurrent now) (process_message s packet now q ns)
unfolding process_message
process_message-IsCurrent n s packet now q ns (h, live) stands =
    Gives-if (IsCurrent now) (packet.opts.opcode == 0) _ (done s)
      (λ e.
        Gives-bind (λ _. Unit {0}) (IsCurrent now) (response_of packet q) _ (Gives-any _)
          (λ (r, nxdomain) h'.
            Gives-bind (IsLive now) (IsCurrent now) (cache_message packet now q r nxdomain s.cache)
              _ (message-IsLive packet now q r nxdomain s.cache live)
              (λ cache live'.
                let cached : Session = record s { cache = cache } in
                Gives-bind (Responded cached q) (IsCurrent now)
                  (process_response (mark_failed r ns cached q) (passed_on r) nxdomain q.self) _
                  (marked-Responded n cached r (passed_on r) nxdomain q ns h stands)
                  (λ (remove, t) (k, same). (
                    removed_or_not remove t q.self k,
                    subst (IsLive now) (sym (same_cache remove t q.self ∙ same)) live',
                  )))))
      (λ e. (h, live))

pub owner_of-Stands :
    (id : ℕ) (qs : List Query) (q : Query)
    → owner_of id qs ≡ some q
    → (n : ℕ) × (get_elem? qs n ≡ some q)
owner_of-Stands id [] q e = absurd (ground arith)
owner_of-Stands id (x ∷ qs) q e = elim (Bool-cases (is_num x.dns_id id)) [
  | inl hit ↦ (0, rw hit at e)
  | inr miss ↦ let (n, e') = owner_of-Stands id qs q (rw miss at e) in (suc n, e')
]

accept-IsCurrent :
    (s : Session) (packet : Packet) (now : ℕ) (q : Option Query) (ns : Option NameServer)
    → IsCurrent now s
    → owner_of packet.id s.queries ≡ q
    → Gives (IsCurrent now) (accept s packet now q ns)
unfolding accept
accept-IsCurrent s packet now none ns h e = h
accept-IsCurrent s packet now (some q) none h e = h
accept-IsCurrent s packet now (some q) (some ns) h e =
    let (n, at) = owner_of-Stands packet.id s.queries q e in
    process_message-IsCurrent n s packet now q ns h
      (query_at-get n s.queries q h.0.1 at, At-get n s.queries q at)

pub receive-IsCurrent :
    (s : Session) (now : ℕ) (m : Incoming) (o : Outcome Packet)
    → IsCurrent now s
    → Gives (IsCurrent now) (receive s now m o)
unfolding receive
receive-IsCurrent s now m (done packet) h =
    accept-IsCurrent s packet now (owner_of packet.id s.queries) (server_of m s.name_servers) h refl
receive-IsCurrent s now m error h = h
receive-IsCurrent s now m fault h = tt
receive-IsCurrent s now m stuck h = tt

read_all-IsCurrent :
    (now : ℕ) (incoming : List Incoming) (s : Session)
    → IsCurrent now s
    → Gives (IsCurrent now) (read_all now incoming s)
unfolding read_all
read_all-IsCurrent now [] s h = h
read_all-IsCurrent now (m ∷ incoming) s h =
    Gives-bind (IsCurrent now) (IsCurrent now) (receive s now m (jdns_packet_import m.bytes))
      (read_all now incoming) (receive-IsCurrent s now m (jdns_packet_import m.bytes) h)
      (read_all-IsCurrent now incoming)

pub unicast_do_reads-IsCurrent :
    (now : ℕ) (incoming : List Incoming) (s : Session)
    → IsCurrent now s
    → Gives (λ (need_read, t). IsCurrent now t) (unicast_do_reads now incoming s)
unfolding unicast_do_reads
unicast_do_reads-IsCurrent now incoming s h =
    Gives-if (λ (need_read, t). IsCurrent now t) s.handle_readable _ (done (true, s))
      (λ e.
        Gives-bind (IsCurrent now) (λ (need_read, t). IsCurrent now t) (read_all now incoming s) _
          (read_all-IsCurrent now incoming s h) (λ t k. k))
      (λ e. h)
