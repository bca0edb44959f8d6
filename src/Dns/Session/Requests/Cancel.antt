-- ===== src/Dns/Session/Requests/Cancel.antt =====
-- What cancelling a request does to its query.
use ambrosia.Prelude.{
  ℕ, suc, ◌<◌, ◌≡◌, inl, inr, refl, ap, ◌∙◌, true, false, none, some, List, [], ◌∷◌, ◌++◌, length,
  ltb, ◌==◌, arith, Bool-cases,
}
use ambrosia.Prelude.Search.{All}
use ambrosia.Dns.Memory.{done, fault, ◌>>=◌}
use ambrosia.Dns.Session.{
  Session, Callbacks, Query, clock, put_query, set_query, drop_query, remove_query, is_some,
  remove_query_datagrams,
}
use ambrosia.Dns.Session.Ids.{has_id, remove_if_there}
use ambrosia.Dns.Session.Requests.{
  cancel_child, cancelled, cancel_rest, cancel_loop, cancel_request, cancel_at, jdns_cancel_query,
  unicast_cancel,
}

pub cancel_loop-first :
    (cb : Callbacks) (s : Session) (before after : List Query) (q : Query) (id : ℕ)
    → All (λ p. has_id p.req_ids id ≡ false) before
    → has_id q.req_ids id ≡ true
    → cancel_loop cb s (before ++ (q ∷ after)) id ≡ cancel_request cb s q id
unfolding cancel_loop
cancel_loop-first cb s [] after q id h hit = rw hit refl
cancel_loop-first cb s (p ∷ before) after q id h hit =
    rw h.0 (cancel_loop-first cb s before after q id h.1 hit)

-- Cancelling a request is undefined where the first query that has it has more than one request.
pub jdns_cancel_query-shared :
    (cb : Callbacks) (s : Session) (before after : List Query) (q : Query) (id : ℕ)
    → s.queries ≡ before ++ (q ∷ after)
    → All (λ p. has_id p.req_ids id ≡ false) before
    → has_id q.req_ids id ≡ true
    → 1 < length q.req_ids
    → jdns_cancel_query cb s id ≡ fault
unfolding jdns_cancel_query cancel_request
jdns_cancel_query-shared cb s before after q id split front hit many =
    let several : ltb 1 (length q.req_ids) ≡ true = ground arith in
    ap (λ qs. cancel_loop cb s qs id) split
    ∙ cancel_loop-first cb s before after q id front hit
    ∙ rw (hit, several) refl

put_twice :
    (p q : Query) (qs : List Query)
    → p.self ≡ q.self
    → put_query q (put_query p qs) ≡ put_query q qs
put_twice p q [] same = refl
put_twice p q (x ∷ qs) same = elim (Bool-cases (x.self == q.self)) [
  | inl hit ↦
      let hit' : (x.self == p.self) ≡ true = ground arith in
      let same' : (p.self == q.self) ≡ true = ground arith in rw (hit, hit', same') refl
  | inr miss ↦
      let miss' : (x.self == p.self) ≡ false = ground arith in
      rw miss' (rw (miss, put_twice p q qs same) refl)
]

remove_put :
    (p : Query) (qs : List Query) → remove_query p.self (put_query p qs) ≡ remove_query p.self qs
remove_put p [] = refl
remove_put p (x ∷ qs) = elim (Bool-cases (x.self == p.self)) [
  | inl hit ↦ let same : (p.self == p.self) ≡ true = ground arith in rw (hit, same) refl
  | inr miss ↦ rw miss (rw (miss, remove_put p qs) refl)
]

-- A query with one request, that has neither a parent nor a child.
abbrev pub Alone : Query → ℕ → Type 0
Alone q id = (q.req_ids ≡ id ∷ []) × (q.cname_parent ≡ none) × (q.cname_child ≡ none)

-- The query as it stays for a minute.
abbrev pub retired : Callbacks → Session → Query → Query
retired cb s q = record q {
  req_ids = [];
  step = none;
  time_start = some (clock cb s);
  time_next = 60000;
}

abbrev without_requests : Query → Query
without_requests q = record q { req_ids = [] }

cancel_rest-alone :
    (cb : Callbacks) (s : Session) (q : Query)
    → q.req_ids ≡ []
    → is_some q.cname_parent ≡ false
    → q.cname_child ≡ none
    → cancel_rest cb s q ≡ done (unicast_cancel cb (set_query (set_query s q) q) q)
unfolding cancel_rest cancel_child
cancel_rest-alone cb s q one parent child =
    let empty : (length q.req_ids == 0) ≡ true = rw one refl in
    rw (empty, parent) (ap (λ c. cancel_child cb (set_query s q) q c >>= cancelled cb) child)

cancel_request-Alone :
    (cb : Callbacks) (s : Session) (q : Query) (id : ℕ)
    → Alone q id
    → cancel_request cb s q id
      ≡ done (
          unicast_cancel cb
            (set_query (set_query s (without_requests q)) (without_requests q))
            (without_requests q))
unfolding cancel_request
cancel_request-Alone cb s q id (one, parent, child) =
    let it : (id == id) ≡ true = ground arith in
    let removed : remove_if_there q.req_ids id ≡ done [] = rw (one, it) refl in
    ap (λ o. o >>= λ left. cancel_rest cb s (record q { req_ids = left })) removed
    ∙ cancel_rest-alone cb s (without_requests q) refl (ap is_some parent) child

drop_put :
    (s : Session) (q : Query)
    → drop_query (set_query (set_query s q) q) q.self ≡ drop_query s q.self
unfolding drop_query
drop_put s q =
    ap (λ qs. record s { queries = qs; outgoing = remove_query_datagrams q.self s.outgoing })
      (remove_put q (put_query q s.queries) ∙ remove_put q s.queries)

-- Cancelling the only request of a query that has neither a parent nor a child: before its first
-- transmission the query is removed, with its datagrams. Later it stays for a minute without
-- requests, and sends nothing.
pub jdns_cancel_query-Alone :
    (cb : Callbacks) (s : Session) (before after : List Query) (q : Query) (id n : ℕ)
    → s.queries ≡ before ++ (q ∷ after)
    → All (λ p. has_id p.req_ids id ≡ false) before
    → Alone q id
    → (q.step ≡ some 0 → jdns_cancel_query cb s id ≡ done (drop_query s q.self))
      × (q.step ≡ some (suc n)
          → (t : Session) × (jdns_cancel_query cb s id ≡ done t)
            × (t.events ≡ s.events)
            × (t.outgoing ≡ s.outgoing)
            × (t.queries ≡ put_query (retired cb s q) s.queries))
unfolding jdns_cancel_query unicast_cancel drop_query
jdns_cancel_query-Alone cb s before after q id n split front alone =
    let one = alone.0 in
    let it : (id == id) ≡ true = ground arith in
    let hit : has_id q.req_ids id ≡ true = rw (one, it) refl in
    let found =
      ap (λ qs. cancel_loop cb s qs id) split
      ∙ cancel_loop-first cb s before after q id front hit
      ∙ cancel_request-Alone cb s q id alone in
    let left = without_requests q in
    let u = set_query (set_query s left) left in
    (
      λ first.
          found ∙ ap (λ step. done (cancel_at cb u left step)) first ∙ ap done (drop_put s left),
      λ later. (
        cancel_at cb u left (some (suc n)),
        found ∙ ap (λ step. done (cancel_at cb u left step)) later,
        refl,
        refl,
        put_twice left (retired cb s q) (put_query left s.queries) refl
            ∙ put_twice left (retired cb s q) s.queries refl,
      ),
    )
