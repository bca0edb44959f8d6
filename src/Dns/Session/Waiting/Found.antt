-- ===== src/Dns/Session/Waiting/Found.antt =====
-- The query of a request, found or made: `_get_query` of iris/irisnet/jdns/jdns.c.
use ambrosia.Prelude.{
  ℕ, suc, ◌≤◌, ◌≡◌, inl, inr, refl, ap, ◌∙◌, false, Option, none, some, List, [], ◌∷◌, ◌++◌, length,
  length-append, map, ◌==◌, arith, Bool-cases,
}
use ambrosia.Prelude.Search.{All}
use ambrosia.Dns.Session.{Session, Query, Datagram, remove_query_datagrams}
use ambrosia.Dns.Session.Ids.{has_id, used_req_ids}
use ambrosia.Dns.Session.Requests.{asks, Latched, nuke_or_take, latch, taken, get_query, add_query}
use ambrosia.Dns.Session.Responses.Copies.{Returns}
use ambrosia.Dns.Session.Responses.Returns.{HasQid, add_query-Returns}
use ambrosia.Dns.Session.Kept.{Gives, Gives-map, AddedQuery, add_query-AddedQuery}
use ambrosia.Dns.Session.Waiting.{IsFit, waiting, waiting-append, count}
use ambrosia.Dns.Session.Waiting.Requests.{latch-waiting}

-- What `latch` leaves is not more.
nuked_small :
    (q : Query) (qs : List Query) (outgoing : List Datagram) (nuked : Latched) (step : Option ℕ)
    → length (map (λ p. p.id) nuked.queries) ≤ length (map (λ p. p.id) qs)
    → length (used_req_ids nuked.queries) ≤ length (used_req_ids qs)
    → (length (map (λ p. p.id) (nuke_or_take q qs outgoing nuked step).queries)
        ≤ suc (length (map (λ p. p.id) qs)))
      × (length (used_req_ids (nuke_or_take q qs outgoing nuked step).queries)
          ≤ length (used_req_ids (q ∷ qs)))
nuked_small q qs outgoing nuked none h k =
    (omega (arith, h), omega (arith, k, length-append q.req_ids (used_req_ids qs)))
nuked_small q qs outgoing nuked (some m) h k = (omega arith, omega arith)

latch_small :
    (qname : List ℕ) (qtype : ℕ) (qs : List Query) (outgoing : List Datagram)
    → (length (map (λ p. p.id) (latch qname qtype qs outgoing).queries)
        ≤ length (map (λ p. p.id) qs))
      × (length (used_req_ids (latch qname qtype qs outgoing).queries) ≤ length (used_req_ids qs))
unfolding latch
latch_small qname qtype [] outgoing = (omega arith, omega arith)
latch_small qname qtype (q ∷ qs) outgoing = elim (Bool-cases (asks qname qtype q)) [
  | inl same ↦
      let gone = remove_query_datagrams q.self outgoing in
      let (h, k) = latch_small qname qtype qs gone in
      rw same (nuked_small q qs outgoing (latch qname qtype qs gone) q.step h k)
  | inr other ↦
      let (h, k) = latch_small qname qtype qs outgoing in
      rw other (
        omega (arith, h),
        omega (
          arith,
          k,
          length-append q.req_ids (used_req_ids qs),
          length-append q.req_ids (used_req_ids (latch qname qtype qs outgoing).queries),
        ),
      )
]

used_req_ids-add :
    (qs : List Query) (q : Query)
    → q.req_ids ≡ []
    → length (used_req_ids (qs ++ (q ∷ []))) ≡ length (used_req_ids qs)
used_req_ids-add [] q e = rw e refl
used_req_ids-add (x ∷ qs) q e = omega (
  arith,
  used_req_ids-add qs q e,
  length-append x.req_ids (used_req_ids qs),
  length-append x.req_ids (used_req_ids (qs ++ (q ∷ []))),
)

free_ids :
    (id : ℕ) (xs ys : List ℕ)
    → has_id (xs ++ ys) id ≡ false
    → (count id xs ≡ 0) × (has_id ys id ≡ false)
unfolding count
free_ids id [] ys h = (refl, h)
free_ids id (x ∷ xs) ys h = elim (Bool-cases (x == id)) [
  | inl hit ↦ let taken = rw hit at h in absurd (ground arith)
  | inr miss ↦
      let (none_, rest) = free_ids id xs ys (rw miss at h) in rw miss (omega (arith, none_), rest)
]

-- An id that is not in use waits nowhere.
pub free_waiting :
    (id : ℕ) (qs : List Query) → has_id (used_req_ids qs) id ≡ false → waiting id qs ≡ 0
unfolding waiting
free_waiting id [] h = refl
free_waiting id (q ∷ qs) h =
    let (none_, rest) = free_ids id q.req_ids (used_req_ids qs) h in
    omega (arith, none_, free_waiting id qs rest)

abbrev IsFitted : Session → Type 0
IsFitted s = All IsFit s.queries

-- The session in which the query of a request has been found or made.
abbrev pub Found : Session → ℕ × Session → Type 0
Found s (self, t) =
    ((id : ℕ) → waiting id t.queries ≡ waiting id s.queries)
    × (t.events ≡ s.events)
    × (t.next_req_id ≡ s.next_req_id)
    × (length (used_req_ids t.queries) ≤ length (used_req_ids s.queries))

added_Found : (s : Session) (x : ℕ × Session) → AddedQuery s x → Found s x
unfolding waiting count
added_Found s x (q, eq, ea, ec, ee, at, at', step, chain, reqs, root, next_) = (
  λ id.
      ap (waiting id) eq ∙ omega (arith, waiting-append id s.queries (q ∷ []), ap (count id) reqs),
  ee,
  next_,
  omega (arith, ap (λ qs. length (used_req_ids qs)) eq, used_req_ids-add s.queries q reqs),
)

taken_Found :
    (o : Option ℕ) (s : Session) (qname : List ℕ) (qtype : ℕ)
    → Gives (Found s) (taken o s qname qtype)
taken_Found (some self) s qname qtype = (λ id. refl, refl, refl, omega arith)
taken_Found none s qname qtype =
    Gives-map (add_query s qname qtype) (added_Found s) (add_query-AddedQuery s qname qtype)

pub get_query-Found :
    (s : Session) (qname : List ℕ) (qtype : ℕ)
    → IsFitted s
    → Gives (Found s) (get_query s qname qtype false)
unfolding get_query
get_query-Found s qname qtype fit =
    let l = latch qname qtype s.queries s.outgoing in
    let t : Session = record s { queries = l.queries; outgoing = l.outgoing } in
    Gives-map (taken l.query t qname qtype)
      (λ (self, u) (same, events, next_, few). (
        λ id. same id ∙ latch-waiting id qname qtype s.queries s.outgoing fit,
        events,
        next_,
        omega (arith, few, (latch_small qname qtype s.queries s.outgoing).1),
      ))
      (taken_Found l.query t qname qtype)

pub get_query-Returns :
    (s : Session) (qname : List ℕ) (qtype : ℕ) → HasQid s → Returns (get_query s qname qtype false)
unfolding get_query
get_query-Returns s qname qtype (fits, few) =
    let l = latch qname qtype s.queries s.outgoing in
    by_query l.query (record s { queries = l.queries; outgoing = l.outgoing })
      (fits, omega (arith, few, (latch_small qname qtype s.queries s.outgoing).0))
  where
    by_query : (o : Option ℕ) (t : Session) → HasQid t → Returns (taken o t qname qtype)
    by_query none t room = add_query-Returns t qname qtype room
    by_query (some self) t room = ((self, t), refl)
