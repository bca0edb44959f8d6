-- ===== src/Dns/Session/Waiting/Requests.antt =====
-- The requests that wait where one more is made: `jdns_query` of iris/irisnet/jdns/jdns.c.
use ambrosia.Prelude.{
  ℕ, ◌+◌, ◌≡◌, inl, inr, refl, sym, ap, ◌∙◌, true, false, Option, none, some, List, [], ◌∷◌, ◌==◌,
  if◌then◌else◌, arith, Bool-cases,
}
use ambrosia.Prelude.Search.{All, Pairwise}
use ambrosia.Dns.Memory.{done, ◌>>=◌}
use ambrosia.Dns.Session.{Session, Query, Datagram, query_at, set_query, remove_query_datagrams}
use ambrosia.Dns.Session.Ids.{get_next_req_id, next_id, rounds, used_req_ids, intarray_add}
use ambrosia.Dns.Session.Text.{fix_input}
use ambrosia.Dns.Session.Requests.{
  asks, Latched, nuke_or_take, latch, taken, get_query, add_query, jdns_query,
}
use ambrosia.Dns.Session.Requests.Kept.{latch-All, latch-Pairwise}
use ambrosia.Dns.Session.Responses.Kept.{small_selfs}
use ambrosia.Dns.Session.Pointers.{
  Apart, query_at_self, query_at-All, query_at-fresh, All-put_query,
}
use ambrosia.Dns.Session.Kept.{
  Gives, Gives-bind, Gives-any, Gives-map, IsQueryOf, IsSession, add_query-AddedQuery,
}
use ambrosia.Dns.Session.Waiting.{
  Holds, Holds-added, IsFit, Idle, waiting, waiting-put_query, count, count-append,
}

-- The query of the pointer is there, and active.
abbrev pub Active : List Query → Option ℕ → Type 0
Active qs none = Unit {0}
Active qs (some self) = (q : Query) × (query_at self qs ≡ done q) × ((m : ℕ) × (q.step ≡ some m))

Active-behind :
    (x : Query) (qs : List Query) (o : Option ℕ)
    → All (Apart x) qs
    → Active qs o
    → Active (x ∷ qs) o
Active-behind x qs none apart h = tt
Active-behind x qs (some self) apart (q, e, step) =
    let at = query_at_self self qs q e in
    let other = query_at-All (Apart x) self qs q apart e in
    let miss : (x.self == self) ≡ false = ap (λ y. x.self == y) (sym at) ∙ other in
    (q, rw miss e, step)

nuke_or_take-Active :
    (q : Query) (qs : List Query) (outgoing : List Datagram) (nuked : Latched) (step : Option ℕ)
    → q.step ≡ step
    → Active nuked.queries nuked.query
    → Active
        (nuke_or_take q qs outgoing nuked step).queries
        (nuke_or_take q qs outgoing nuked step).query
nuke_or_take-Active q qs outgoing nuked none e h = h
nuke_or_take-Active q qs outgoing nuked (some m) e h =
    let hit : (q.self == q.self) ≡ true = ground arith in (q, rw hit refl, (m, e))

pub latch-Active :
    (qname : List ℕ) (qtype : ℕ) (qs : List Query) (outgoing : List Datagram)
    → Pairwise Apart qs
    → Active (latch qname qtype qs outgoing).queries (latch qname qtype qs outgoing).query
unfolding latch
latch-Active qname qtype [] outgoing h = tt
latch-Active qname qtype (q ∷ qs) outgoing h = elim (Bool-cases (asks qname qtype q)) [
  | inl same ↦
      let gone = remove_query_datagrams q.self outgoing in
      rw same (
        nuke_or_take-Active q qs outgoing (latch qname qtype qs gone) q.step refl
          (latch-Active qname qtype qs gone h.1))
  | inr other ↦ rw other (
      Active-behind q (latch qname qtype qs outgoing).queries (latch qname qtype qs outgoing).query
        (latch-All (Apart q) qname qtype qs outgoing h.0)
        (latch-Active qname qtype qs outgoing h.1))
]

module _ (id : ℕ) where
  nuke_or_take-waiting :
      (q : Query) (qs : List Query) (outgoing : List Datagram) (nuked : Latched) (step : Option ℕ)
      → Idle step q.req_ids
      → waiting id nuked.queries ≡ waiting id qs
      → waiting id (nuke_or_take q qs outgoing nuked step).queries ≡ waiting id (q ∷ qs)
  unfolding waiting count
  nuke_or_take-waiting q qs outgoing nuked none idle h = omega (arith, ap (count id) idle, h)
  nuke_or_take-waiting q qs outgoing nuked (some m) idle h = refl

  -- The queries that are nuked have no requests.
  pub latch-waiting :
      (qname : List ℕ) (qtype : ℕ) (qs : List Query) (outgoing : List Datagram)
      → All IsFit qs
      → waiting id (latch qname qtype qs outgoing).queries ≡ waiting id qs
  unfolding latch waiting
  latch-waiting qname qtype [] outgoing h = refl
  latch-waiting qname qtype (q ∷ qs) outgoing h = elim (Bool-cases (asks qname qtype q)) [
    | inl same ↦
        let gone = remove_query_datagrams q.self outgoing in
        rw same (
          nuke_or_take-waiting q qs outgoing (latch qname qtype qs gone) q.step h.0.0
            (latch-waiting qname qtype qs gone h.1))
    | inr other ↦
        rw other (ap (λ m. count id q.req_ids + m) (latch-waiting qname qtype qs outgoing h.1))
  ]

  module _ (n : ℕ) where
    abbrev pub HoldsActive : ℕ × Session → Type 0
    HoldsActive (self, t) = Holds id n t × Active t.queries (some self)

    taken-HoldsActive :
        (o : Option ℕ) (t : Session) (qname : List ℕ) (qtype : ℕ)
        → IsSession t
        → Holds id n t
        → Active t.queries o
        → Gives HoldsActive (taken o t qname qtype)
    taken-HoldsActive (some self) t qname qtype h hold active = (hold, active)
    taken-HoldsActive none t qname qtype h hold active =
        Gives-map (add_query t qname qtype)
          (λ (self, u) added.
            let (new_q, eq, ea, ec, ee, at, at', step, chain, reqs, root, next_) = added in
            (
              Holds-added id n t (self, u) hold added,
              (
                new_q,
                ap (λ x. query_at x u.queries) at
                    ∙ ap (query_at t.allocated) eq
                    ∙ query_at-fresh t.allocated t.queries new_q (small_selfs t h) at',
                (0, step),
              ),
            ))
          (add_query-AddedQuery t qname qtype)

    pub get_query-HoldsActive :
        (s : Session) (qname : List ℕ) (qtype : ℕ)
        → IsSession s
        → Holds id n s
        → Gives HoldsActive (get_query s qname qtype false)
    unfolding get_query
    get_query-HoldsActive s qname qtype h hold =
        let l = latch qname qtype s.queries s.outgoing in
        taken-HoldsActive l.query (record s { queries = l.queries; outgoing = l.outgoing }) qname
          qtype
          (
            latch-All (IsQueryOf s.allocated) qname qtype s.queries s.outgoing h.0,
            latch-Pairwise qname qtype s.queries s.outgoing h.1,
          )
          (
            latch-All IsFit qname qtype s.queries s.outgoing hold.0,
            omega (arith, latch-waiting qname qtype s.queries s.outgoing hold.0, hold.1),
          )
          (latch-Active qname qtype s.queries s.outgoing h.1)

    -- One more of the request that is made, and as many as before of any other.
    abbrev pub HoldsMore : ℕ × Session → Type 0
    HoldsMore (made, t) = Holds id (n + (if made == id then 1 else 0)) t

    asked-HoldsMore :
        (t u : Session) (self made : ℕ)
        → HoldsActive (self, t)
        → u.queries ≡ t.queries
        → u.events ≡ t.events
        → Gives HoldsMore (
            query_at self u.queries >>= λ q.
            done (made, set_query u (record q { req_ids = intarray_add q.req_ids made })))
    unfolding count
    asked-HoldsMore t u self made ((fit, total), (q, e, (m, step))) eq ee =
        let e' : query_at self u.queries ≡ done q = ap (query_at self) eq ∙ e in
        let p : Query = record q { req_ids = intarray_add q.req_ids made } in
        let at = query_at_self self t.queries q e in
        let there : query_at p.self t.queries ≡ done q = ap (λ x. query_at x t.queries) at ∙ e in
        let ok : IsFit p = (rw step tt, (query_at-All IsFit self t.queries q fit e).1) in
        rw e' (
          rw eq (All-put_query IsFit p t.queries ok fit),
          rw (eq, ee)
              (omega (
                arith,
                waiting-put_query id p q t.queries there,
                count-append id q.req_ids (made ∷ []),
              )),
        )

    -- `jdns_query` adds its request to those that wait, and changes nothing of the others.
    pub jdns_query-HoldsMore :
        (s : Session) (name : List ℕ) (qtype : ℕ)
        → IsSession s
        → Holds id n s
        → Gives HoldsMore (jdns_query s name qtype)
    unfolding jdns_query get_next_req_id
    jdns_query-HoldsMore s name qtype h hold =
        Gives-bind (λ _. Unit {0}) HoldsMore (fix_input name) _ (Gives-any _)
          (λ fixed h'.
            Gives-bind HoldsActive HoldsMore (get_query s fixed qtype false) _
              (get_query-HoldsActive s fixed qtype h hold)
              (λ (self, t) k.
                Gives-bind (λ (x : ℕ × Session). x.1 ≡ record t { next_req_id = x.1.next_req_id })
                  HoldsMore (get_next_req_id t) _
                  (Gives-bind (λ _. Unit {0})
                    (λ (x : ℕ × Session). x.1 ≡ record t { next_req_id = x.1.next_req_id })
                    (next_id 1 (rounds (used_req_ids t.queries)) (used_req_ids t.queries)
                      t.next_req_id)
                    _ (Gives-any _) (λ (req_id, src) h''. refl))
                  (λ (made, u) same.
                    asked-HoldsMore t u self made k (ap (λ (v : Session). v.queries) same)
                      (ap (λ (v : Session). v.events) same))))
