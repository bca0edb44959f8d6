-- ===== src/Dns/Session/Waiting/Servers.antt =====
-- The requests that wait and those that are told where the name servers change:
-- `jdns_set_nameservers` of iris/irisnet/jdns/jdns.c.
use ambrosia.Prelude.{
  ℕ, ◌≡◌, refl, sym, ap, ◌∙◌, subst, Bool, true, false, List, [], ◌∷◌, map, length, ◌==◌,
  if◌then◌else◌, arith,
}
use ambrosia.Prelude.Search.{All}
use ambrosia.Dns.Memory.{done}
use ambrosia.Dns.Session.{
  Session, Query, NameServer, append_events, report, status_timeout, query_at, remove_query,
  drop_query, remove_name_server_datagrams,
}
use ambrosia.Dns.Session.Ids.{get_next_name_server_id, next_id, rounds}
use ambrosia.Dns.Session.Servers.{
  Given, given_in, known_in, all_gone, remove_servers, add_server, add_servers, invalidate,
  jdns_set_nameservers,
}
use ambrosia.Dns.Session.Servers.Kept.{Alike, all_gone-Alike}
use ambrosia.Dns.Session.Responses.Answers.{report-Answers}
use ambrosia.Dns.Session.Kept.{Gives, Gives-bind, Gives-any, Gives-if}
use ambrosia.Dns.Session.Waiting.{Holds, IsFit, Idle, Before, Holds-told, waiting, count}

module _ (id n : ℕ) where
  All-IsFit : (xs ys : List Query) → Alike xs ys → All IsFit xs → All IsFit ys
  All-IsFit [] [] a h = tt
  All-IsFit [] (y ∷ ys) a h = absurd a
  All-IsFit (x ∷ xs) [] a h = absurd a
  All-IsFit (x ∷ xs) (y ∷ ys) (self, step, chain, ids, parent, a) ((idle, before), h) = (
    (
      subst (λ o. Idle o y.req_ids) (sym step) (subst (Idle x.step) (sym ids) idle),
      subst (λ o. Before o y.self) (sym parent) (subst (Before x.cname_parent) (sym self) before),
    ),
    All-IsFit xs ys a h,
  )

  waiting-Alike : (xs ys : List Query) → Alike xs ys → waiting id ys ≡ waiting id xs
  unfolding waiting
  waiting-Alike [] [] a = refl
  waiting-Alike [] (y ∷ ys) a = absurd a
  waiting-Alike (x ∷ xs) [] a = absurd a
  waiting-Alike (x ∷ xs) (y ∷ ys) (self, step, chain, ids, parent, a) =
      omega (arith, ap (count id) ids, waiting-Alike xs ys a)

  remove_servers-Holds :
      (nslist : List Given) (servers : List NameServer) (s : Session)
      → Holds id n s
      → Gives (Holds id n) (remove_servers nslist servers s)
  unfolding remove_servers
  remove_servers-Holds nslist [] s h = h
  remove_servers-Holds nslist (ns ∷ servers) s h =
      Gives-if (Holds id n) (given_in nslist ns) _ _
        (λ stays.
          Gives-bind (Holds id n) (Holds id n) (remove_servers nslist servers s) _
            (remove_servers-Holds nslist servers s h) (λ t k. k))
        (λ goes.
          Gives-bind (Alike s.queries) (Holds id n) (all_gone ns.id s.queries) _
            (all_gone-Alike ns.id s.queries)
            (λ qs a.
              remove_servers-Holds nslist servers
                (record s {
                  outgoing = remove_name_server_datagrams ns.id s.outgoing;
                  queries = qs;
                })
                (All-IsFit s.queries qs a h.0, omega (arith, waiting-Alike s.queries qs a, h.1))))

  add_server-Holds : (s : Session) (i : Given) → Holds id n s → Gives (Holds id n) (add_server s i)
  unfolding add_server get_next_name_server_id
  add_server-Holds s i h =
      Gives-bind Holds' (Holds id n) (get_next_name_server_id s) _
        (Gives-bind (λ _. Unit {0}) Holds'
          (next_id 0 (rounds (map (λ ns. ns.id) s.name_servers)) (map (λ ns. ns.id) s.name_servers)
            s.next_name_server_id)
          _ (Gives-any _) (λ x h'. h))
        (λ x k. k)
    where
      Holds' : ℕ × Session → Type 0
      Holds' x = Holds id n x.1

  add_servers-Holds :
      (nslist : List Given) (s : Session) → Holds id n s → Gives (Holds id n) (add_servers nslist s)
  unfolding add_servers
  add_servers-Holds [] s h = h
  add_servers-Holds (i ∷ nslist) s h =
      Gives-if (Holds id n) (known_in s.name_servers i) _ _
        (λ present. add_servers-Holds nslist s h)
        (λ new.
          Gives-bind (Holds id n) (Holds id n) (add_server s i) (add_servers nslist)
            (add_server-Holds s i h) (add_servers-Holds nslist))

  -- Every query is told and removed, the first of them each time.
  invalidate-Holds :
      (qs : List Query) (s : Session) → s.queries ≡ qs → Holds id n s → Holds id n (invalidate qs s)
  unfolding invalidate drop_query
  invalidate-Holds [] s e h = h
  invalidate-Holds (q ∷ qs) s e h =
      let t = drop_query (append_events s (report status_timeout q.req_ids)) q.self in
      let first : (q.self == q.self) ≡ true = ground arith in
      let there : query_at q.self (q ∷ qs) ≡ done q = rw first refl in
      let gone : remove_query q.self (q ∷ qs) ≡ qs = rw first refl in
      invalidate-Holds qs t (ap (remove_query q.self) e ∙ gone) (
        Holds-told id n s t q (report status_timeout q.req_ids) h (ap (query_at q.self) e ∙ there)
          (report-Answers status_timeout q.req_ids) refl refl)

  pub jdns_set_nameservers-Holds :
      (s : Session) (nslist : List Given)
      → Holds id n s
      → Gives (Holds id n) (jdns_set_nameservers s nslist)
  unfolding jdns_set_nameservers
  jdns_set_nameservers-Holds s nslist h =
      Gives-bind (Holds id n) (Holds id n) (remove_servers nslist s.name_servers s) _
        (remove_servers-Holds nslist s.name_servers s h)
        (λ t k.
          Gives-bind (Holds id n) (Holds id n) (add_servers nslist t) _
            (add_servers-Holds nslist t k) (λ u k'. either (length nslist == 0) u k'))
    where
      either :
          (b : Bool) (u : Session)
          → Holds id n u
          → Holds id n (if b then invalidate u.queries u else u)
      either true u k = invalidate-Holds u.queries u refl k
      either false u k = k
