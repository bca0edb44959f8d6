-- ===== src/Dns/Session/Servers/Kept.antt =====
-- What a change of the name servers keeps of the queries.
use ambrosia.Prelude.{
  ℕ, ◌≡◌, refl, sym, subst, Bool, true, false, List, [], ◌∷◌, map, length, ◌==◌, if◌then◌else◌,
}
use ambrosia.Prelude.Search.{All, Pairwise}
use ambrosia.Dns.Session.{
  Session, Query, NameServer, append_events, report, status_timeout, drop_query,
  remove_name_server_datagrams,
}
use ambrosia.Dns.Session.Ids.{get_next_name_server_id, next_id, rounds, remove_if_there}
use ambrosia.Dns.Session.Servers.{
  Given, given_in, known_in, query_name_server_gone, all_gone, remove_servers, add_server,
  add_servers, invalidate, jdns_set_nameservers,
}
use ambrosia.Dns.Session.Pointers.{Apart}
use ambrosia.Dns.Session.Kept.{Gives, Gives-bind, Gives-any, Gives-if, IsQueryOf, StepOk, IsSession}
use ambrosia.Dns.Session.Requests.Kept.{dropped-IsSession}

-- The same pointers, steps, chains, requests and parents, one by one.
abbrev pub Alike : List Query → List Query → Type 0
Alike [] [] = Unit {0}
Alike [] (y ∷ ys) = ⊥
Alike (x ∷ xs) [] = ⊥
Alike (x ∷ xs) (y ∷ ys) =
    (y.self ≡ x.self)
    × (y.step ≡ x.step)
    × (y.cname_chain_count ≡ x.cname_chain_count)
    × (y.req_ids ≡ x.req_ids)
    × (y.cname_parent ≡ x.cname_parent)
    × Alike xs ys

All-Alike :
    (allocated : ℕ) (xs ys : List Query)
    → Alike xs ys
    → All (IsQueryOf allocated) xs
    → All (IsQueryOf allocated) ys
All-Alike allocated [] [] a h = tt
All-Alike allocated [] (y ∷ ys) a h = absurd a
All-Alike allocated (x ∷ xs) [] a h = absurd a
All-Alike allocated (x ∷ xs) (y ∷ ys) (self, step, chain, ids, parent, a) ((less, few, short), h) =
    ((rw self less, subst StepOk (sym step) few, rw chain short), All-Alike allocated xs ys a h)

Apart-Alike :
    (x y : Query) (xs ys : List Query)
    → y.self ≡ x.self
    → Alike xs ys
    → All (Apart x) xs
    → All (Apart y) ys
Apart-Alike x y [] [] e a h = tt
Apart-Alike x y [] (z ∷ ys) e a h = absurd a
Apart-Alike x y (z ∷ xs) [] e a h = absurd a
Apart-Alike x y (z ∷ xs) (w ∷ ys) e (self, step, chain, ids, parent, a) (apart, h) =
    (rw (e, self) apart, Apart-Alike x y xs ys e a h)

Pairwise-Alike : (xs ys : List Query) → Alike xs ys → Pairwise Apart xs → Pairwise Apart ys
Pairwise-Alike [] [] a h = tt
Pairwise-Alike [] (y ∷ ys) a h = absurd a
Pairwise-Alike (x ∷ xs) [] a h = absurd a
Pairwise-Alike (x ∷ xs) (y ∷ ys) (self, step, chain, ids, parent, a) (apart, h) =
    (Apart-Alike x y xs ys self a apart, Pairwise-Alike xs ys a h)

pub all_gone-Alike : (ns_id : ℕ) (qs : List Query) → Gives (Alike qs) (all_gone ns_id qs)
unfolding all_gone query_name_server_gone
all_gone-Alike ns_id [] = tt
all_gone-Alike ns_id (q ∷ qs) =
    Gives-bind
      (λ p.
        (p.self ≡ q.self)
        × (p.step ≡ q.step)
        × (p.cname_chain_count ≡ q.cname_chain_count)
        × (p.req_ids ≡ q.req_ids)
        × (p.cname_parent ≡ q.cname_parent))
      (Alike (q ∷ qs)) (query_name_server_gone ns_id q) _
      (Gives-bind (λ _. Unit {0}) _ (remove_if_there q.servers_tried ns_id) _ (Gives-any _)
        (λ tried h.
          Gives-bind (λ _. Unit {0}) _ (remove_if_there q.servers_failed ns_id) _ (Gives-any _)
            (λ failed h'. (refl, refl, refl, refl, refl))))
      (λ p (self, step, chain, ids, parent).
        Gives-bind (Alike qs) (Alike (q ∷ qs)) (all_gone ns_id qs) _ (all_gone-Alike ns_id qs)
          (λ ps a. (self, step, chain, ids, parent, a)))

gone-IsSession :
    (s t : Session)
    → Alike s.queries t.queries
    → t.allocated ≡ s.allocated
    → IsSession s
    → IsSession t
gone-IsSession s t a e (all, apart) =
    rw e
      (All-Alike s.allocated s.queries t.queries a all, Pairwise-Alike s.queries t.queries a apart)

remove_servers-IsSession :
    (nslist : List Given) (servers : List NameServer) (s : Session)
    → IsSession s
    → Gives IsSession (remove_servers nslist servers s)
unfolding remove_servers
remove_servers-IsSession nslist [] s h = h
remove_servers-IsSession nslist (ns ∷ servers) s h =
    Gives-if IsSession (given_in nslist ns) _ _
      (λ stays.
        Gives-bind IsSession IsSession (remove_servers nslist servers s) _
          (remove_servers-IsSession nslist servers s h) (λ t k. k))
      (λ goes.
        Gives-bind (Alike s.queries) IsSession (all_gone ns.id s.queries) _
          (all_gone-Alike ns.id s.queries)
          (λ qs a.
            let t : Session = record s {
              outgoing = remove_name_server_datagrams ns.id s.outgoing;
              queries = qs;
            } in
            remove_servers-IsSession nslist servers t (gone-IsSession s t a refl h)))

add_server-IsSession : (s : Session) (i : Given) → IsSession s → Gives IsSession (add_server s i)
unfolding add_server get_next_name_server_id
add_server-IsSession s i h =
    Gives-bind IsSession' IsSession (get_next_name_server_id s) _
      (Gives-bind (λ _. Unit {0}) IsSession'
        (next_id 0 (rounds (map (λ n. n.id) s.name_servers)) (map (λ n. n.id) s.name_servers)
          s.next_name_server_id)
        _ (Gives-any _) (λ x h'. h))
      (λ x k. k)
  where
    IsSession' : ℕ × Session → Type 0
    IsSession' x = IsSession x.1

add_servers-IsSession :
    (nslist : List Given) (s : Session) → IsSession s → Gives IsSession (add_servers nslist s)
unfolding add_servers
add_servers-IsSession [] s h = h
add_servers-IsSession (i ∷ nslist) s h =
    Gives-if IsSession (known_in s.name_servers i) _ _ (λ present. add_servers-IsSession nslist s h)
      (λ new.
        Gives-bind IsSession IsSession (add_server s i) (add_servers nslist)
          (add_server-IsSession s i h) (add_servers-IsSession nslist))

invalidate-IsSession : (qs : List Query) (s : Session) → IsSession s → IsSession (invalidate qs s)
unfolding invalidate
invalidate-IsSession [] s h = h
invalidate-IsSession (q ∷ qs) s h =
    invalidate-IsSession qs (drop_query (append_events s (report status_timeout q.req_ids)) q.self)
      (dropped-IsSession (append_events s (report status_timeout q.req_ids)) q.self h)

pub jdns_set_nameservers-IsSession :
    (s : Session) (nslist : List Given)
    → IsSession s
    → Gives IsSession (jdns_set_nameservers s nslist)
unfolding jdns_set_nameservers
jdns_set_nameservers-IsSession s nslist h =
    Gives-bind IsSession IsSession (remove_servers nslist s.name_servers s) _
      (remove_servers-IsSession nslist s.name_servers s h)
      (λ t k.
        Gives-bind IsSession IsSession (add_servers nslist t) _ (add_servers-IsSession nslist t k)
          (λ u k'. either (length nslist == 0) u k'))
  where
    either :
        (b : Bool) (u : Session) → IsSession u → IsSession (if b then invalidate u.queries u else u)
    either true u k = invalidate-IsSession u.queries u k
    either false u k = k
