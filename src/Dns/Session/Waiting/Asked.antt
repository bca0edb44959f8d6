-- ===== src/Dns/Session/Waiting/Asked.antt =====
-- The outcome of `jdns_query` of iris/irisnet/jdns/jdns.c, and the id that it draws.
use ambrosia.Prelude.{
  ℕ, ◌+◌, ◌≤◌, ◌≡◌, refl, sym, ap, ◌∙◌, false, List, ◌∷◌, ◌==◌, if◌then◌else◌, arith,
}
use ambrosia.Prelude.Search.{All}
use ambrosia.Dns.Memory.{Outcome, done, error, fault, stuck, Ensures}
use ambrosia.Dns.Session.{Session, query_at}
use ambrosia.Dns.Session.Ids.{has_id, get_next_req_id, next_id, rounds, used_req_ids}
use ambrosia.Dns.Session.Ids.Fresh.{Fresh, HasRoom, next_id-Fresh}
use ambrosia.Dns.Session.Text.{fix_input}
use ambrosia.Dns.Session.Text.Fixed.{IsFixed, fix_input-IsFixed}
use ambrosia.Dns.Session.Requests.{get_query, jdns_query}
use ambrosia.Dns.Session.Responses.Copies.{Returns, Returns-bind}
use ambrosia.Dns.Session.Responses.Returns.{next_id-Returns}
use ambrosia.Dns.Session.Kept.{given_by, Gives, Gives-bind, Gives-any, IsSession}
use ambrosia.Dns.Session.Waiting.{IsFit, waiting, told}
use ambrosia.Dns.Session.Waiting.Requests.{
  HoldsActive, get_query-HoldsActive, HoldsMore, jdns_query-HoldsMore,
}
use ambrosia.Dns.Session.Waiting.Found.{Found, free_waiting, get_query-Found, get_query-Returns}

ends_well {ℓ} :
    {A : Type ℓ} (P : A → Type 0) (m : Outcome A) → Ensures P m → ¬ (m ≡ error) → Returns m
ends_well P (done a) h other = (a, refl)
ends_well P error h other = absurd (other refl)
ends_well P fault h other = absurd h
ends_well P stuck h other = absurd h

ensured {ℓ} : {A : Type ℓ} (P : A → Type 0) (m : Outcome A) → Ensures P m → Gives P m
ensured P (done a) h = h
ensured P error h = tt
ensured P fault h = tt
ensured P stuck h = tt

-- The id is new, and the events are as they were.
abbrev NewIn : Session → ℕ × Session → Type 0
NewIn s (id, t) = (waiting id s.queries ≡ 0) × (1 ≤ id) × (t.events ≡ s.events)

module _ (s : Session) (c : ℕ) (name : List ℕ) (qtype : ℕ) (h : IsSession s)
    (fit : All IsFit s.queries) (room : HasRoom s) (some_byte : (c == 0) ≡ false) where
  abbrev FreshIn : (t : Session) → Type 0
  FreshIn t =
      Ensures (Fresh 1 (used_req_ids t.queries))
        (next_id 1 (rounds (used_req_ids t.queries)) (used_req_ids t.queries) t.next_req_id)

  req_id_fresh : (self : ℕ) (t : Session) → Found s (self, t) → FreshIn t
  req_id_fresh self t (same, events, next_, few) =
      next_id-Fresh 1 (used_req_ids t.queries) (omega arith) t.next_req_id
        (omega (arith, next_, room.req_id_from)) (omega (arith, next_, room.req_id_fits))
        (omega (arith, few, room.few_requests))

  -- The id of a request, and the session that it is taken from.
  abbrev Drawn : Session → ℕ × Session → Type 0
  Drawn t (id, u) =
      (has_id (used_req_ids t.queries) id ≡ false)
      × (1 ≤ id)
      × (u.queries ≡ t.queries)
      × (u.events ≡ t.events)

  get_next_req_id-Drawn :
      (self : ℕ) (t : Session) → Found s (self, t) → Gives (Drawn t) (get_next_req_id t)
  unfolding get_next_req_id
  get_next_req_id-Drawn self t found =
      let search =
        next_id 1 (rounds (used_req_ids t.queries)) (used_req_ids t.queries) t.next_req_id in
      Gives-bind (Fresh 1 (used_req_ids t.queries)) (Drawn t) search _
        (ensured (Fresh 1 (used_req_ids t.queries)) search (req_id_fresh self t found))
        (λ (id, src) (free, from, below, from_, below_). (free, from, refl, refl))

  jdns_query-Returns : Returns (jdns_query s (c ∷ name) qtype)
  unfolding jdns_query get_next_req_id
  jdns_query-Returns =
      let (ensures, ends) = fix_input-IsFixed c name some_byte in
      let n = waiting 0 s.queries + told 0 s.events in
      Returns-bind (fix_input (c ∷ name)) _ (ends_well IsFixed (fix_input (c ∷ name)) ensures ends)
        (λ fixed e.
          Returns-bind (get_query s fixed qtype false) _
            (get_query-Returns s fixed qtype (room.qid_fits, room.few_queries))
            (λ (self, t) e'.
              let found =
                given_by (Found s) (get_query s fixed qtype false) (self, t) e'
                  (get_query-Found s fixed qtype fit) in
              let (hold, (q, there, active)) =
                given_by (HoldsActive 0 n) (get_query s fixed qtype false) (self, t) e'
                  (get_query-HoldsActive 0 n s fixed qtype h (fit, refl)) in
              Returns-bind (get_next_req_id t) _
                (Returns-bind
                  (next_id 1 (rounds (used_req_ids t.queries)) (used_req_ids t.queries)
                    t.next_req_id)
                  _
                  (next_id-Returns _ 1 (rounds (used_req_ids t.queries)) (used_req_ids t.queries)
                    t.next_req_id (req_id_fresh self t found))
                  (λ (req_id, src) e''. (_, refl)))
                (λ (req_id, u) e''.
                  let (free, from, same, events) =
                    given_by (Drawn t) (get_next_req_id t) (req_id, u) e''
                      (get_next_req_id-Drawn self t found) in
                  rw (ap (query_at self) same ∙ there) (_, refl))))

  jdns_query-NewIn : Gives (NewIn s) (jdns_query s (c ∷ name) qtype)
  unfolding jdns_query
  jdns_query-NewIn =
      Gives-bind (λ _. Unit {0}) (NewIn s) (fix_input (c ∷ name)) _ (Gives-any _)
        (λ fixed h'.
          Gives-bind (Found s) (NewIn s) (get_query s fixed qtype false) _
            (get_query-Found s fixed qtype fit)
            (λ (self, t) (waits, events, next_, few).
              Gives-bind (Drawn t) (NewIn s) (get_next_req_id t) _
                (get_next_req_id-Drawn self t (waits, events, next_, few))
                (λ (id, u) (free, from, same, events').
                  Gives-bind (λ _. Unit {0}) (NewIn s) (query_at self u.queries) _ (Gives-any _)
                    (λ q e.
                      (sym (waits id) ∙ free_waiting id t.queries free, from, events' ∙ events)))))

  -- On a name that is not empty, in a session in which no two queries have one pointer, an
  -- inactive query has no requests, a parent was made before its child, and the counters of the
  -- ids are in range with ids left, jdns_query returns an id of 1 or more that no request that
  -- waits has, and leaves no event; this request then waits, once, and every other as often as
  -- before.
  pub jdns_query-waiting :
      (id : ℕ) × (t : Session) × (jdns_query s (c ∷ name) qtype ≡ done (id, t))
      × (waiting id s.queries ≡ 0)
      × (1 ≤ id)
      × (t.events ≡ s.events)
      × ((other : ℕ)
          → waiting other t.queries ≡ waiting other s.queries + (if id == other then 1 else 0))
  jdns_query-waiting =
      let ((id, t), e) = jdns_query-Returns in
      let (free, from, events) =
        given_by (NewIn s) (jdns_query s (c ∷ name) qtype) (id, t) e jdns_query-NewIn in
      (id, t, e, free, from, events, λ other. counted id t e events other)
    where
      counted :
          (id : ℕ) (t : Session)
          → jdns_query s (c ∷ name) qtype ≡ done (id, t)
          → t.events ≡ s.events
          → (other : ℕ)
          → waiting other t.queries ≡ waiting other s.queries + (if id == other then 1 else 0)
      counted id t e events other =
          let n = waiting other s.queries + told other s.events in
          let (fit', total) =
            given_by (HoldsMore other n) (jdns_query s (c ∷ name) qtype) (id, t) e
              (jdns_query-HoldsMore other n s (c ∷ name) qtype h (fit, refl)) in
          omega (arith, ap (told other) events)
