-- ===== src/Dns/Session/Waiting/Writes.antt =====
-- The requests that wait and those that are told where the queries that are due are looked at:
-- `_unicast_do_writes` of iris/irisnet/jdns/jdns.c.
use ambrosia.Prelude.{
  ℕ, zero, suc, ◌≡◌, refl, sym, ap, ◌∙◌, subst, Bool, true, false, ◌||◌, not, Option, none, some,
  List, [], ◌∷◌, ◌++◌, length, get_elem?, ◌==◌, if◌then◌else◌,
}
use ambrosia.Dns.Memory.{done, ◌>>=◌}
use ambrosia.Dns.Util.Response.{Response}
use ambrosia.Dns.Session.{
  Session, Callbacks, Query, Datagram, status_timeout, report, query_at, put_query, drop_query,
  clock_read,
}
use ambrosia.Dns.Session.Ids.{get_next_dns_id}
use ambrosia.Dns.Session.Cache.{cache_get_response}
use ambrosia.Dns.Session.Requests.{get_query, add_query}
use ambrosia.Dns.Session.Responses.{process_response}
use ambrosia.Dns.Session.Responses.Answers.{report-Answers}
use ambrosia.Dns.Session.Responses.Ends.{next_place}
use ambrosia.Dns.Session.Pointers.{query_at_self, query_at-All}
use ambrosia.Dns.Session.Kept.{
  Gives, Gives-bind, Gives-any, Gives-both, Gives-given, Gives-if, IsSession, AddedQuery,
  add_query-AddedQuery,
}
use ambrosia.Dns.Session.Writes.{
  start_over, pick_server, transmit, with_dns_id, give_up, send_now, send_at, send_query, requery,
  is_empty, use_cached, with_cname, with_cached, cached, due, is_waiting, write_query,
  write_queries, send_outgoing, unicast_do_writes, work,
}
use ambrosia.Dns.Session.Writes.Transmits.{
  Like, Like-refl, Steps, Seen, start_over-Like, Transmitted, transmit-Transmitted,
}
use ambrosia.Dns.Session.Writes.Kept.{Seen-there, drawn_Like, Requeried, requery-Requeried}
use ambrosia.Dns.Session.Writes.Rounds.{write_query-Steps}
use ambrosia.Dns.Session.Waiting.{
  Holds, IsFit, Idle, Before, Holds-set, Holds-drop, Holds-told, Holds-added,
}
use ambrosia.Dns.Session.Waiting.Responses.{HoldsAfter, process_response-Holds}

module _ (id n : ℕ) where
  abbrev HoldsIn : Bool × Session → Type 0
  HoldsIn (removed, t) = Holds id n t

  -- The query written with a step.
  written_Holds :
      (m : ℕ) (s u : Session) (q r : Query)
      → Holds id n s
      → query_at q.self s.queries ≡ done q
      → u.queries ≡ put_query r s.queries
      → u.events ≡ s.events
      → Like r (record q { step = some m })
      → Holds id n u
  written_Holds m s u q r hold there eq ee like =
      let fit = query_at-All IsFit q.self s.queries q hold.0 there in
      let ok : IsFit r = (
        rw like.same_step tt,
        subst (λ o. Before o r.self) (sym like.same_parent)
            (subst (Before q.cname_parent) (sym like.same_self) fit.1),
      ) in
      let (all, total) =
        Holds-set id n s q r hold (ap (λ x. query_at x s.queries) like.same_self ∙ there) ok
          like.same_ids in
      rw (eq, ee) (all, total)

  send_now-Holds :
      (now m : ℕ) (s t : Session) (q p : Query)
      → Holds id n s
      → query_at q.self s.queries ≡ done q
      → t.queries ≡ s.queries
      → t.events ≡ s.events
      → Like p q
      → q.step ≡ some m
      → Gives HoldsIn (send_now now (t, p))
  unfolding send_now
  send_now-Holds now m s t q p hold there eq ee like step =
      let ready = start_over (length t.name_servers) p in
      let like' = start_over-Like (length t.name_servers) p in
      Gives-bind (Transmitted t ready m) HoldsIn
        (transmit now t ready (pick_server ready t.name_servers)) _
        (transmit-Transmitted now m t ready (pick_server ready t.name_servers)
          (like'.same_step ∙ like.same_step ∙ step))
        (λ u (r, eu, au, cu, self, chain, cache, after, ids, parent, events).
          written_Holds (suc m) s u q r hold there (eu ∙ ap (put_query r) eq) (events ∙ ee)
            (record {
              same_self = self ∙ like'.same_self ∙ like.same_self;
              same_chain = chain ∙ like'.same_chain ∙ like.same_chain;
              same_cache = cache ∙ like'.same_cache ∙ like.same_cache;
              same_step = after;
              same_ids = ids ∙ like'.same_ids ∙ like.same_ids;
              same_parent = parent ∙ like'.same_parent ∙ like.same_parent;
            }))

  with_dns_id-Holds :
      (now m : ℕ) (s : Session) (q : Query) (dns_id : Option ℕ)
      → Holds id n s
      → query_at q.self s.queries ≡ done q
      → q.step ≡ some m
      → Gives HoldsIn (send_now now (with_dns_id s q dns_id))
  unfolding get_next_dns_id
  with_dns_id-Holds now m s q (some dns_id) hold there step =
      send_now-Holds now m s s q q hold there refl refl (Like-refl q) step
  with_dns_id-Holds now m s q none hold there step =
      let drawn = get_next_dns_id s in
      send_now-Holds now m s drawn.1 q (record q { dns_id = some drawn.0 }) hold there refl refl
        (drawn_Like q drawn.0) step

  send_at-Holds :
      (now : ℕ) (s : Session) (q : Query) (step : Option ℕ)
      → Holds id n s
      → query_at q.self s.queries ≡ done q
      → q.step ≡ step
      → Gives HoldsIn (send_at now s q step)
  unfolding send_at give_up drop_query
  send_at-Holds now s q none hold there e =
      Holds-drop id n s q hold there
        (subst (λ o. Idle o q.req_ids) e (query_at-All IsFit q.self s.queries q hold.0 there).0)
  send_at-Holds now s q (some m) hold there e =
      Gives-if HoldsIn ((m == 8) || (length s.name_servers == 0)) (done (true, give_up s q))
        (send_now now (with_dns_id s q q.dns_id))
        (λ over.
          Holds-told id n s (give_up s q) q (report status_timeout q.req_ids) hold there
            (report-Answers status_timeout q.req_ids) refl refl)
        (λ more. with_dns_id-Holds now m s q q.dns_id hold there e)

  requery-Holds :
      (s : Session) (q : Query) (soon : Bool) → Holds id n s → Gives (Holds id n) (requery s q soon)
  unfolding requery get_query
  requery-Holds s q soon hold =
      Gives-if (Holds id n) soon _ (done s)
        (λ h.
          Gives-bind (AddedQuery s) (Holds id n) (add_query s q.qname q.qtype) _
            (add_query-AddedQuery s q.qname q.qtype)
            (λ (self, t) added.
              let hold' = Holds-added id n s (self, t) hold added in
              Gives-bind (λ new_q. query_at self t.queries ≡ done new_q) (Holds id n)
                (query_at self t.queries) _ (Gives-given _)
                (λ new_q e.
                  let at = query_at_self self t.queries new_q e in
                  Holds-set id n t new_q (record new_q { retrying = true; trycache = false }) hold'
                    (ap (λ x. query_at x t.queries) at ∙ e)
                    (query_at-All IsFit self t.queries new_q hold'.0 e) refl)))
        (λ h. hold)

  use_cached-Holds :
      (m : ℕ) (s : Session) (q : Query) (r : Response) (soon : Bool)
      → Seen m s q
      → Holds id n s
      → Gives HoldsIn (use_cached s q r soon)
  unfolding use_cached
  use_cached-Holds m s q r soon seen hold =
      Gives-bind (λ t. Requeried s q t × Holds id n t) HoldsIn (requery s q soon) _
        (Gives-both (Requeried s q) (Holds id n) (requery s q soon)
          (requery-Requeried m s q soon seen) (requery-Holds s q soon hold))
        (λ t ((grows, there), hold').
          Gives-bind (HoldsAfter id n q.self) HoldsIn
            (process_response t (some r) (is_empty r) q.self) _
            (process_response-Holds id n t (some r) (is_empty r) q grows.0 there hold') (λ x k. k))

  with_cname-Holds :
      (now m : ℕ) (s : Session) (q : Query) (x : Option Response × Bool)
      → Seen m s q
      → Holds id n s
      → Gives HoldsIn (with_cname now s q x)
  unfolding with_cname send_query
  with_cname-Holds now m s q (none, soon) seen hold =
      send_at-Holds now s q q.step hold (Seen-there m s q seen) refl
  with_cname-Holds now m s q (some r, soon) seen hold = use_cached-Holds m s q r soon seen hold

  with_cached-Holds :
      (cb : Callbacks) (now m : ℕ) (s : Session) (q : Query) (x : Option Response × Bool)
      → Seen m s q
      → Holds id n s
      → Gives HoldsIn (with_cached cb now s q x)
  unfolding with_cached
  with_cached-Holds cb now m s q (none, soon) seen hold =
      Gives-bind (λ _. Unit {0}) HoldsIn (cache_get_response cb s q.qname 5) _ (Gives-any _)
        (λ x h. with_cname-Holds now m (clock_read s) q x seen hold)
  with_cached-Holds cb now m s q (some r, soon) seen hold = use_cached-Holds m s q r soon seen hold

  write_query-Holds :
      (cb : Callbacks) (now m : ℕ) (s : Session) (q : Query)
      → Seen m s q
      → Holds id n s
      → Gives HoldsIn (write_query cb now s q)
  unfolding write_query due cached send_query
  write_query-Holds cb now m s q seen hold =
      Gives-if HoldsIn (is_waiting now q) (done (false, s)) _ (λ waits. hold)
        (λ runs_out.
          Gives-if HoldsIn q.trycache _ _
            (λ cache.
              Gives-bind (λ _. Unit {0}) HoldsIn (cache_get_response cb s q.qname q.qtype) _
                (Gives-any _) (λ x h. with_cached-Holds cb now m (clock_read s) q x seen hold))
            (λ background. send_at-Holds now s q q.step hold (Seen-there m s q seen) refl))

  round_Holds :
      (cb : Callbacks) (now fuel m : ℕ) (s : Session) (next_ : Option Query)
      → get_elem? s.queries m ≡ next_
      → IsSession s
      → Holds id n s
      → ((k : ℕ) (t : Session)
          → IsSession t
          → Holds id n t
          → Gives (Holds id n) (write_queries cb now fuel k t))
      → Gives (Holds id n) (elim next_ [
        | none ↦ done s
        | some q ↦
            (write_query cb now s q >>= λ (removed, t).
            write_queries cb now fuel (if removed then m else suc m) t)
      ])
  round_Holds cb now fuel m s none e h hold rest = hold
  round_Holds cb now fuel m s (some q) e h hold rest =
      Gives-bind (λ x. Steps m s x × HoldsIn x) (Holds id n) (write_query cb now s q) _
        (Gives-both (Steps m s) HoldsIn (write_query cb now s q)
          (write_query-Steps cb now m s q (h, e)) (write_query-Holds cb now m s q (h, e) hold))
        (λ (removed, t) (steps, hold'). rest (next_place removed m) t steps.0 hold')

  write_queries-Holds :
      (cb : Callbacks) (now fuel m : ℕ) (s : Session)
      → IsSession s
      → Holds id n s
      → Gives (Holds id n) (write_queries cb now fuel m s)
  unfolding write_queries
  write_queries-Holds cb now zero m s h hold = tt
  write_queries-Holds cb now (suc fuel) m s h hold =
      round_Holds cb now fuel m s (get_elem? s.queries m) refl h hold
        (λ k t. write_queries-Holds cb now fuel k t)

  send_outgoing-Holds :
      (cb : Callbacks) (outgoing : List Datagram) (s : Session)
      → Holds id n s
      → Holds id n (send_outgoing cb outgoing s).1
  unfolding send_outgoing
  send_outgoing-Holds cb [] s h = h
  send_outgoing-Holds cb (a ∷ outgoing) s h =
      either s.handle_writable (cb.udp_write s.writes) _ _ _ h
        (send_outgoing-Holds cb outgoing
          (record s { writes = suc s.writes; written = s.written ++ (a ∷ []) }) h)
        h
    where
      either :
          (b c : Bool) (x y z : Bool × Session)
          → Holds id n x.1
          → Holds id n y.1
          → Holds id n z.1
          → Holds id n (if not b then x else if c then y else z).1
      either false c x y z k l m = k
      either true true x y z k l m = l
      either true false x y z k l m = m

  pub unicast_do_writes-Holds :
      (cb : Callbacks) (now : ℕ) (s : Session)
      → IsSession s
      → Holds id n s
      → Gives (λ (need_write, t). Holds id n t) (unicast_do_writes cb now s)
  unfolding unicast_do_writes
  unicast_do_writes-Holds cb now s h hold =
      Gives-bind (Holds id n) (λ (need_write, t). Holds id n t)
        (write_queries cb now (suc (work s.queries)) 0 s) _
        (write_queries-Holds cb now (suc (work s.queries)) 0 s h hold)
        (λ t hold'. send_outgoing-Holds cb t.outgoing t hold')
