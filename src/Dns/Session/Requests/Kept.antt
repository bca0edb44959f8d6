-- ===== src/Dns/Session/Requests/Kept.antt =====
-- What requests and their cancelling keep of a session.
use ambrosia.Prelude.{
  ℕ, zero, suc, ◌≡◌, inl, inr, refl, ap, Bool, true, false, ◌&&◌, not, Option, none, some, List, [],
  ◌∷◌, length, ◌==◌, if◌then◌else◌, arith, Bool-cases,
}
use ambrosia.Prelude.Search.{All, Pairwise}
use ambrosia.Dns.Memory.{done, ◌>>=◌}
use ambrosia.Dns.Session.{
  Session, Callbacks, Query, Datagram, query_at, set_query, drop_query, remove_query_datagrams,
  is_some,
}
use ambrosia.Dns.Session.Ids.{
  get_next_req_id, next_id, rounds, used_req_ids, has_id, remove_if_there, intarray_add,
}
use ambrosia.Dns.Session.Text.{fix_input}
use ambrosia.Dns.Session.Requests.{
  asks, Latched, nuke_or_take, latch, taken, get_query, add_query, jdns_query, cancel_at,
  unicast_cancel, cancel_child, cancelled, cancel_rest, cancel_request, cancel_loop,
  jdns_cancel_query,
}
use ambrosia.Dns.Session.Pointers.{Apart, query_at_self, query_at-All}
use ambrosia.Dns.Session.Kept.{
  Gives, Gives-bind, Gives-any, Gives-map, Gives-given, Gives-if, IsQueryOf, StepOk, IsSession,
  AreQueries-put, AreQueries-remove, AreQueries-add, AddedQuery, add_query-AddedQuery,
}

taken-All :
    (P : Query → Type 0) (q : Query) (qs : List Query) (outgoing : List Datagram) (nuked : Latched)
    (step : Option ℕ)
    → P q
    → All P qs
    → All P nuked.queries
    → All P (nuke_or_take q qs outgoing nuked step).queries
taken-All P q qs outgoing nuked none p h k = k
taken-All P q qs outgoing nuked (some n) p h k = (p, h)

pub latch-All :
    (P : Query → Type 0) (qname : List ℕ) (qtype : ℕ) (qs : List Query) (outgoing : List Datagram)
    → All P qs
    → All P (latch qname qtype qs outgoing).queries
unfolding latch
latch-All P qname qtype [] outgoing h = tt
latch-All P qname qtype (q ∷ qs) outgoing h = elim (Bool-cases (asks qname qtype q)) [
  | inl same ↦ rw same (
      taken-All P q qs outgoing _ q.step h.0 h.1
        (latch-All P qname qtype qs (remove_query_datagrams q.self outgoing) h.1))
  | inr other ↦ rw other (h.0, latch-All P qname qtype qs outgoing h.1)
]

taken-Pairwise :
    (q : Query) (qs : List Query) (outgoing : List Datagram) (nuked : Latched) (step : Option ℕ)
    → Pairwise Apart (q ∷ qs)
    → Pairwise Apart nuked.queries
    → Pairwise Apart (nuke_or_take q qs outgoing nuked step).queries
taken-Pairwise q qs outgoing nuked none h k = k
taken-Pairwise q qs outgoing nuked (some n) h k = h

pub latch-Pairwise :
    (qname : List ℕ) (qtype : ℕ) (qs : List Query) (outgoing : List Datagram)
    → Pairwise Apart qs
    → Pairwise Apart (latch qname qtype qs outgoing).queries
unfolding latch
latch-Pairwise qname qtype [] outgoing h = tt
latch-Pairwise qname qtype (q ∷ qs) outgoing h = elim (Bool-cases (asks qname qtype q)) [
  | inl same ↦ rw same (
      taken-Pairwise q qs outgoing _ q.step h
        (latch-Pairwise qname qtype qs (remove_query_datagrams q.self outgoing) h.1))
  | inr other ↦
      rw other (
        latch-All (Apart q) qname qtype qs outgoing h.0,
        latch-Pairwise qname qtype qs outgoing h.1,
      )
]

added-IsSession : (s : Session) (x : ℕ × Session) → IsSession s → AddedQuery s x → IsSession x.1
added-IsSession s x h (q, eq, ea, ec, ee, at, at', step, chain, reqs, root, next_) =
    rw (ea, eq)
      (AreQueries-add s.allocated q s.queries at' (rw step (omega arith)) (rw chain (omega arith))
        h)

get_query-IsSession :
    (s : Session) (qname : List ℕ) (qtype : ℕ)
    → IsSession s
    → Gives (λ (self, t). IsSession t) (get_query s qname qtype false)
unfolding get_query
get_query-IsSession s qname qtype h =
    let l = latch qname qtype s.queries s.outgoing in
    by_query l.query (record s { queries = l.queries; outgoing = l.outgoing })
      (
        latch-All (IsQueryOf s.allocated) qname qtype s.queries s.outgoing h.0,
        latch-Pairwise qname qtype s.queries s.outgoing h.1,
      )
  where
    by_query :
        (o : Option ℕ) (t : Session)
        → IsSession t
        → Gives (λ (self, u). IsSession u) (taken o t qname qtype)
    by_query none t k =
        Gives-map (add_query t qname qtype) (λ x. added-IsSession t x k)
          (add_query-AddedQuery t qname qtype)
    by_query (some self) t k = k

-- A query written over with its own pointer, step and length of chain.
written-IsSession :
    (s : Session) (self : ℕ) (p q : Query)
    → IsSession s
    → query_at self s.queries ≡ done p
    → q.self ≡ p.self
    → StepOk q.step
    → q.cname_chain_count ≡ p.cname_chain_count
    → IsSession (set_query s q)
written-IsSession s self p q h e at step chain =
    let (less, step', short) = query_at-All (IsQueryOf s.allocated) self s.queries p h.0 e in
    AreQueries-put s.allocated q s.queries (rw at less, step, rw chain short) h

asked-IsSession :
    (t u : Session) (self id : ℕ)
    → IsSession t
    → u.queries ≡ t.queries
    → u.allocated ≡ t.allocated
    → Gives
        (λ (x : ℕ × Session). IsSession x.1)
        (query_at self u.queries >>= λ q.
          done (id, set_query u (record q { req_ids = intarray_add q.req_ids id })))
asked-IsSession t u self id h eq ea =
    let k : IsSession u = rw (ea, eq) h in
    Gives-bind (λ q. query_at self u.queries ≡ done q) (λ (x : ℕ × Session). IsSession x.1)
      (query_at self u.queries) _ (Gives-given _)
      (λ q e.
        let at = query_at_self self u.queries q e in
        let (less, step, short) = query_at-All (IsQueryOf u.allocated) self u.queries q k.0 e in
        written-IsSession u self q (record q { req_ids = intarray_add q.req_ids id }) k e refl step
          refl)

pub jdns_query-IsSession :
    (s : Session) (qname : List ℕ) (qtype : ℕ)
    → IsSession s
    → Gives (λ (x : ℕ × Session). IsSession x.1) (jdns_query s qname qtype)
unfolding jdns_query get_next_req_id
jdns_query-IsSession s qname qtype h =
    Gives-bind (λ _. Unit {0}) (λ (x : ℕ × Session). IsSession x.1) (fix_input qname) _
      (Gives-any _)
      (λ fixed h'.
        Gives-bind (λ (x : ℕ × Session). IsSession x.1) (λ (x : ℕ × Session). IsSession x.1)
          (get_query s fixed qtype false) _ (get_query-IsSession s fixed qtype h)
          (λ (self, t) k.
            Gives-bind (λ (x : ℕ × Session). x.1 ≡ record t { next_req_id = x.1.next_req_id })
              (λ (x : ℕ × Session). IsSession x.1) (get_next_req_id t) _
              (Gives-bind (λ _. Unit {0})
                (λ (x : ℕ × Session). x.1 ≡ record t { next_req_id = x.1.next_req_id })
                (next_id 1 (rounds (used_req_ids t.queries)) (used_req_ids t.queries) t.next_req_id)
                _ (Gives-any _) (λ (id, src) h''. refl))
              (λ (id, u) same.
                asked-IsSession t u self id k (ap (λ (v : Session). v.queries) same)
                  (ap (λ (v : Session). v.allocated) same))))

pub dropped-IsSession : (s : Session) (self : ℕ) → IsSession s → IsSession (drop_query s self)
unfolding drop_query
dropped-IsSession s self h = AreQueries-remove s.allocated self s.queries h

cancel_at-IsSession :
    (cb : Callbacks) (s : Session) (q : Query) (step : Option ℕ)
    → IsQueryOf s.allocated q
    → IsSession s
    → IsSession (cancel_at cb s q step)
cancel_at-IsSession cb s q (some zero) ok h = dropped-IsSession s q.self h
cancel_at-IsSession cb s q (some (suc n)) (less, step, short) h =
    AreQueries-put s.allocated _ s.queries (less, tt, short) h
cancel_at-IsSession cb s q none (less, step, short) h =
    AreQueries-put s.allocated _ s.queries (less, tt, short) h

-- The session and the query that `cancel_child` gives.
abbrev Cancels : Session × Query → Type 0
Cancels (s, q) = IsSession s × IsQueryOf s.allocated q

set-IsSession :
    (s : Session) (q : Query) → IsQueryOf s.allocated q → IsSession s → IsSession (set_query s q)
set-IsSession s q ok h = AreQueries-put s.allocated q s.queries ok h

cancel_at-allocated :
    (cb : Callbacks) (s : Session) (q : Query) (step : Option ℕ)
    → (cancel_at cb s q step).allocated ≡ s.allocated
unfolding drop_query
cancel_at-allocated cb s q (some zero) = refl
cancel_at-allocated cb s q (some (suc n)) = refl
cancel_at-allocated cb s q none = refl

cancel_child-Cancels :
    (cb : Callbacks) (s : Session) (q : Query) (child : Option ℕ)
    → IsSession s
    → IsQueryOf s.allocated q
    → Gives Cancels (cancel_child cb s q child)
unfolding cancel_child unicast_cancel
cancel_child-Cancels cb s q none h ok = (h, ok)
cancel_child-Cancels cb s q (some child) h ok =
    Gives-bind (λ c. query_at child s.queries ≡ done c) Cancels (query_at child s.queries) _
      (Gives-given _)
      (λ c e.
        let okc = query_at-All (IsQueryOf s.allocated) child s.queries c h.0 e in
        let free : Query = record c { cname_parent = none } in
        either (length c.req_ids == 0) _ _
          (
            cancel_at-IsSession cb (set_query s free) free free.step okc
                (set-IsSession s free okc h),
            rw (cancel_at-allocated cb (set_query s free) free free.step) ok,
          )
          (h, ok))
  where
    either :
        (b : Bool) (x y : Session × Query) → Cancels x → Cancels y → Cancels (if b then x else y)
    either true x y k l = k
    either false x y k l = l

cancel_rest-IsSession :
    (cb : Callbacks) (s : Session) (q : Query)
    → IsSession s
    → IsQueryOf s.allocated q
    → Gives IsSession (cancel_rest cb s q)
unfolding cancel_rest unicast_cancel
cancel_rest-IsSession cb s q h ok =
    Gives-if IsSession ((length q.req_ids == 0) && not (is_some q.cname_parent)) _
      (done (set_query s q))
      (λ e.
        Gives-bind Cancels IsSession (cancel_child cb (set_query s q) q q.cname_child)
          (cancelled cb)
          (cancel_child-Cancels cb (set_query s q) q q.cname_child (set-IsSession s q ok h) ok)
          (λ (t, p) (k, okp).
            cancel_at-IsSession cb (set_query t p) p p.step okp (set-IsSession t p okp k)))
      (λ e. set-IsSession s q ok h)

cancel_loop-IsSession :
    (cb : Callbacks) (s : Session) (qs : List Query) (id : ℕ)
    → IsSession s
    → All (IsQueryOf s.allocated) qs
    → Gives IsSession (cancel_loop cb s qs id)
unfolding cancel_loop cancel_request
cancel_loop-IsSession cb s [] id h all = h
cancel_loop-IsSession cb s (q ∷ qs) id h all =
    Gives-if IsSession (has_id q.req_ids id) _ _
      (λ e.
        Gives-bind (λ _. Unit {0}) IsSession (remove_if_there q.req_ids id) _ (Gives-any _)
          (λ left h'. cancel_rest-IsSession cb s (record q { req_ids = left }) h all.0))
      (λ e. cancel_loop-IsSession cb s qs id h all.1)

pub jdns_cancel_query-IsSession :
    (cb : Callbacks) (s : Session) (id : ℕ)
    → IsSession s
    → Gives IsSession (jdns_cancel_query cb s id)
unfolding jdns_cancel_query
jdns_cancel_query-IsSession cb s id h = cancel_loop-IsSession cb s s.queries id h h.0
